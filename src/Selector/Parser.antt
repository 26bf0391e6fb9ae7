-- ===== src/Selector/Parser.antt =====
-- lib/selector/parser/parser.go: recursive descent over the tokens.
pub mod Remains
pub mod Total
use zyzxlibcalico_go.Prelude.{
  Option, some, none, ℕ, zero, suc, Bool, true, false, not, List, [], ◌∷◌, length, if◌then◌else◌,
}
use zyzxlibcalico_go.Selector.Text.{Text}
use zyzxlibcalico_go.Selector.Tokenizer.{
  Token, TokenError, Tokens, label, string_literal, has, l_brace, r_brace, comma, eq, ne, in_set,
  not_op, not_in, contains, starts_with, ends_with, all, l_paren, r_paren, and_op, or_op, global,
  eof, tokenize,
}
use zyzxlibcalico_go.Selector.StringSet.{StringSet, convert_to_string_set_in_place}
use zyzxlibcalico_go.Selector.Ast.{
  Node, Nodes, label_eq_value, label_ne_value, label_contains_value, label_starts_with_value,
  label_ends_with_value, label_in_set, label_not_in_set, has_label, not_node, and_node, or_node,
  all_node, global_node, none_left, cons_node, SelectorRoot,
}

pub data ParseError : Type 0 where
  tokens_wrong : TokenError → ParseError
  unexpected_content unexpected_end expected_string expected_brace expected_set : ParseError
  expected_operator expected_paren unexpected_token : ParseError

-- `panic` is an index out of range.
pub data Parsed {ℓ} (A : Type ℓ) : Type ℓ where
  ok : A → Parsed A
  fail : ParseError → Parsed A
  panic out_of_fuel : Parsed A

infixl 5 ◌>>=◌
abbrev pub ◌>>=◌ {ℓ κ} : {A : Type ℓ} {B : Type κ} → Parsed A → (A → Parsed B) → Parsed B
ok a >>= f = f a
fail e >>= f = fail e
panic >>= f = panic
out_of_fuel >>= f = out_of_fuel

-- A parser returns a result and the tokens that remain.
abbrev pub Parser : Type 0 → Type 0
Parser A = List Token → Parsed (A × List Token)

-- Tests of a token's kind.
abbrev pub is_not : Token → Bool
is_not not_op = true
is_not _ = false

abbrev pub is_comma : Token → Bool
is_comma comma = true
is_comma _ = false

abbrev pub is_l_brace : Token → Bool
is_l_brace l_brace = true
is_l_brace _ = false

abbrev pub is_r_brace : Token → Bool
is_r_brace r_brace = true
is_r_brace _ = false

abbrev pub is_r_paren : Token → Bool
is_r_paren r_paren = true
is_r_paren _ = false

abbrev pub is_eof : Token → Bool
is_eof eof = true
is_eof _ = false

abbrev pub literal : Token → Option Text
literal (string_literal v) = some v
literal _ = none

-- The loop that collapses leading "!" operators.
unfoldable pub collapse : Bool → Parser Bool
collapse negated [] = panic
collapse negated (token ∷ tokens) =
    let rest = collapse (not negated) tokens in
    if is_not token then rest else ok (negated, token ∷ tokens)

-- What follows a value of a set: a comma and more values, or the end.
abbrev pub behind_value :
    Text → List Token → Parsed (List Text × List Token) → Parsed (List Text × List Token)
behind_value v [] more = panic
behind_value v (token ∷ tokens) more =
    if is_comma token
    then (do (values, rest) ← more; ok (v ∷ values, rest))
    else ok (v ∷ [], token ∷ tokens)

abbrev pub tail : List Token → List Token
tail [] = []
tail (token ∷ tokens) = tokens

-- The loop over the values of a set, of which a round takes one token or two.
unfoldable pub set_values : ℕ → Parser (List Text)
set_values fuel [] = panic
set_values zero (token ∷ tokens) = out_of_fuel
set_values (suc fuel) (token ∷ tokens) = elim (literal token) [
  | none ↦ ok ([], token ∷ tokens)
  | some v ↦ behind_value v tokens (set_values fuel (tail tokens))
]

abbrev pub closing_brace : Parser Unit
closing_brace [] = panic
closing_brace (token ∷ tokens) = if is_r_brace token then ok (tt, tokens) else fail expected_brace

-- The operators behind a label, and the nodes that they make.
pub data Operator : Type 0 where
  value_operator : (Text → Text → Node) → Operator
  set_operator : (Text → StringSet → Node) → Operator
  no_operator : Operator

abbrev pub operator : Token → Operator
operator eq = value_operator label_eq_value
operator ne = value_operator label_ne_value
operator contains = value_operator label_contains_value
operator starts_with = value_operator label_starts_with_value
operator ends_with = value_operator label_ends_with_value
operator in_set = set_operator label_in_set
operator not_in = set_operator label_not_in_set
operator _ = no_operator

abbrev pub value_operation : (Text → Node) → Token → Parser Node
value_operation node token tokens = elim (literal token) [
  | none ↦ fail expected_string
  | some v ↦ ok (node v, tokens)
]

abbrev pub set_operation : (StringSet → Node) → Parser Node
set_operation node tokens = do
  (values, tokens) ← set_values (length tokens) tokens
  (_, tokens) ← closing_brace tokens
  ok (node (convert_to_string_set_in_place values), tokens)

-- The operation on a label: the operator, the token behind it and the rest.
abbrev pub operation_of : Text → Operator → Token → Parser Node
operation_of name (value_operator node) token tokens = value_operation (node name) token tokens
operation_of name (set_operator node) token tokens =
    if is_l_brace token then set_operation (node name) tokens else fail expected_set
operation_of name no_operator token tokens = fail expected_operator

abbrev pub label_operation : Text → Parser Node
label_operation name [] = fail unexpected_end
label_operation name (op ∷ []) = fail unexpected_end
label_operation name (op ∷ token ∷ tokens) = operation_of name (operator op) token tokens

abbrev pub closing_paren : Parser Unit
closing_paren [] = fail expected_paren
closing_paren (token ∷ tokens) = if is_r_paren token then ok (tt, tokens) else fail expected_paren

-- What an operation begins with.
pub data Start : Type 0 where
  whole : Node → Start
  of_label : Text → Start
  nested : Start
  unexpected : Start

abbrev pub start : Token → Start
start (has name) = whole (has_label name)
start all = whole all_node
start global = whole global_node
start (label name) = of_label name
start l_paren = nested
start _ = unexpected

-- The switch of parseOperation; `inner` parses what stands in parentheses.
abbrev pub operation_at : Parser Node → Start → Parser Node
operation_at inner (whole node) tokens = ok (node, tokens)
operation_at inner (of_label name) tokens = label_operation name tokens
operation_at inner nested tokens = do
  (node, tokens) ← inner tokens
  (_, tokens) ← closing_paren tokens
  ok (node, tokens)
operation_at inner unexpected tokens = fail unexpected_token

unfoldable pub operation : Parser Node → Parser Node
operation inner [] = panic
operation inner (token ∷ tokens) = operation_at inner (start token) tokens

abbrev pub negate : Bool → Node → Node
negate negated node = if negated then not_node node else node

-- The loops of parseAndExpression and parseOrExpression: the operands behind `op` tokens.
abbrev pub is_and : Token → Bool
is_and and_op = true
is_and _ = false

abbrev pub is_or : Token → Bool
is_or or_op = true
is_or _ = false

unfoldable pub operands : ℕ → (Token → Bool) → Parser Node → Parser Nodes
operands zero is_op operand tokens = out_of_fuel
operands (suc fuel) is_op operand [] = panic
operands (suc fuel) is_op operand (token ∷ tokens) =
    let more = (do
      (node, tokens) ← operand tokens
      (nodes, tokens) ← operands fuel is_op operand tokens
      ok (cons_node node nodes, tokens)) in
    if is_op token then more else ok (none_left, token ∷ tokens)

abbrev pub combine : (Nodes → Node) → Node → Nodes → Node
combine operator node none_left = node
combine operator node (cons_node other nodes) = operator (cons_node node (cons_node other nodes))

abbrev pub expression : ℕ → (Token → Bool) → (Nodes → Node) → Parser Node → Parser Node
expression fuel is_op operator operand tokens = do
  (node, tokens) ← operand tokens
  (nodes, tokens) ← operands fuel is_op operand tokens
  ok (combine operator node nodes, tokens)

-- parseAndExpression and parseOrExpression, from parseOperation.
unfoldable pub parse_and_expression : ℕ → Parser Node → Parser Node
parse_and_expression fuel parse_operation tokens =
    expression fuel is_and and_node parse_operation tokens

unfoldable pub parse_or_expression : ℕ → Parser Node → Parser Node
parse_or_expression fuel parse_operation tokens =
    expression fuel is_or or_node (parse_and_expression fuel parse_operation) tokens

abbrev pub checked : Parser Node → Parser Node
checked parser [] = fail unexpected_end
checked parser (token ∷ tokens) = parser (token ∷ tokens)

-- The fuel bounds how deep parentheses nest, and how many operands follow one another.
unfoldable pub parse_operation : ℕ → Parser Node
parse_operation zero tokens = out_of_fuel
parse_operation (suc fuel) tokens =
    checked
      (λ tokens. do
        (negated, tokens) ← collapse false tokens
        (node, tokens) ← operation (λ ts. parse_or_expression fuel (parse_operation fuel) ts) tokens
        ok (negate negated node, tokens))
      tokens

abbrev pub only_eof : Node → List Token → Parsed SelectorRoot
only_eof node [] = fail unexpected_content
only_eof node (token ∷ []) = ok (record { root = node; cached_string = none })
only_eof node (token ∷ other ∷ tokens) = fail unexpected_content

abbrev pub parse_tokens : List Token → Parsed SelectorRoot
parse_tokens [] = panic
parse_tokens (token ∷ tokens) =
    let fuel = suc (length (token ∷ tokens)) in
    let parsed = (do
      (node, rest) ← parse_or_expression fuel (parse_operation fuel) (token ∷ tokens)
      only_eof node rest) in
    if is_eof token then ok (record { root = all_node; cached_string = none }) else parsed

abbrev pub parse_result : Tokens → Parsed SelectorRoot
parse_result (Tokens.err e) = fail (tokens_wrong e)
parse_result (Tokens.ok tokens) = parse_tokens tokens

-- Parse
unfoldable pub parse : Text → Parsed SelectorRoot
parse selector = parse_result (tokenize selector)

-- ===== src/Selector/Parser/Remains.antt =====
-- What the parts of an operation leave of the tokens.
use zyzxlibcalico_go.Prelude.{
  ℕ, zero, suc, ◌≤◌, ◌≡◌, Bool, not, List, [], ◌∷◌, length, arith, Bool-cases, Option-cases, inl,
  inr,
}
use zyzxlibcalico_go.Selector.Text.{Text}
use zyzxlibcalico_go.Selector.StringSet.{StringSet}
use zyzxlibcalico_go.Selector.Tokenizer.{Token, eof}
use zyzxlibcalico_go.Selector.Tokenizer.Total.{EndsInEof}
use zyzxlibcalico_go.Selector.Ast.Fragments.{IsPrintable}
use zyzxlibcalico_go.Selector.Ast.{Node}
use zyzxlibcalico_go.Selector.Parser.{
  ParseError, Parsed, ok, fail, ◌>>=◌, is_not, is_comma, is_l_brace, is_r_brace, is_r_paren,
  literal, collapse, behind_value, tail, set_values, closing_brace, Operator, value_operator,
  set_operator, no_operator, operator, value_operation, set_operation, operation_of,
  label_operation, closing_paren, Start, whole, start,
}

-- A parser's outcome: at most `n` tokens remain, and the last is still EOF.
pub data Leaves {A : Type 0} (P : A → Type 0) (n : ℕ) : Parsed (A × List Token) → Type 0 where
  leaves :
      (a : A) (rest : List Token)
      → P a
      → EndsInEof rest
      → length rest ≤ n
      → Leaves P n (ok (a, rest))
  refused : (e : ParseError) → Leaves P n (fail e)

pub bind-Leaves :
    {A B : Type 0} {P : A → Type 0} {Q : B → Type 0} {n k : ℕ} {m : Parsed (A × List Token)}
    (f : A × List Token → Parsed (B × List Token))
    → Leaves P n m
    → ((a : A) (rest : List Token)
        → P a
        → EndsInEof rest
        → length rest ≤ n
        → Leaves Q k (f (a, rest)))
    → Leaves Q k (m >>= f)
bind-Leaves f (leaves a rest p ends short) h = h a rest p ends short
bind-Leaves f (refused e) h = refused e

pub weaken-Leaves :
    {A : Type 0} {P : A → Type 0} {n : ℕ} {m : Parsed (A × List Token)} (k : ℕ)
    → n ≤ k
    → Leaves P n m
    → Leaves P k m
weaken-Leaves k h (leaves a rest p ends short) = leaves a rest p ends (omega arith)
weaken-Leaves k h (refused e) = refused e

-- Nothing is said of a result that is no node.
abbrev pub Any : {A : Type 0} → A → Type 0
Any a = Unit

-- Behind a token that is not EOF there is another.
pub EndsInEof-tail :
    (token : Token) (tokens : List Token)
    → EndsInEof (token ∷ tokens)
    → (token ≡ eof → ⊥)
    → EndsInEof tokens
EndsInEof-tail token [] h other = absurd (other h)
EndsInEof-tail token (next ∷ tokens) h other = h

pub collapse-Leaves :
    (negated : Bool) (tokens : List Token)
    → EndsInEof tokens
    → Leaves Any (length tokens) (collapse negated tokens)
unfolding collapse
collapse-Leaves negated [] h = absurd h
collapse-Leaves negated (token ∷ tokens) h = elim (Bool-cases (is_not token)) [
  | inl yes_not ↦ rw yes_not (
      weaken-Leaves (suc (length tokens)) (omega arith)
        (collapse-Leaves (not negated) tokens (EndsInEof-tail token tokens h λ e. cc)))
  | inr other ↦ rw other (leaves negated (token ∷ tokens) tt h (omega arith))
]

behind_value-Leaves :
    (v : Text) (tokens : List Token) (more : Parsed (List Text × List Token))
    → EndsInEof tokens
    → (EndsInEof (tail tokens) → Leaves Any (length (tail tokens)) more)
    → Leaves Any (length tokens) (behind_value v tokens more)
behind_value-Leaves v [] more h k = absurd h
behind_value-Leaves v (token ∷ tokens) more h k = elim (Bool-cases (is_comma token)) [
  | inl a_comma ↦ rw a_comma (
      bind-Leaves _ (k (EndsInEof-tail token tokens h λ e. cc))
        λ values rest any ends short. leaves (v ∷ values) rest tt ends (omega arith))
  | inr other ↦ rw other (leaves (v ∷ []) (token ∷ tokens) tt h (omega arith))
]

length-tail : (tokens : List Token) → length (tail tokens) ≤ length tokens
length-tail [] = omega arith
length-tail (token ∷ tokens) = omega arith

set_values-Leaves :
    (fuel : ℕ) (tokens : List Token)
    → EndsInEof tokens
    → length tokens ≤ fuel
    → Leaves Any (length tokens) (set_values fuel tokens)
unfolding set_values
set_values-Leaves zero [] h enough = absurd h
set_values-Leaves (suc fuel) [] h enough = absurd h
set_values-Leaves zero (token ∷ tokens) h enough = absurd (omega arith)
set_values-Leaves (suc fuel) (token ∷ tokens) h enough = elim (Option-cases (literal token)) [
  | inl other ↦ rw (other, set_values) (leaves [] (token ∷ tokens) tt h (omega arith))
  | inr (v, is_v) ↦
      rw (is_v, set_values)
        (weaken-Leaves (suc (length tokens)) (omega arith) (
          behind_value-Leaves v tokens (set_values fuel (tail tokens))
            (EndsInEof-tail token tokens h λ e. cc)
            λ ends. set_values-Leaves fuel (tail tokens) ends (omega (arith, length-tail tokens))))
]

closing_brace-Leaves :
    (tokens : List Token) → EndsInEof tokens → Leaves Any (length tokens) (closing_brace tokens)
closing_brace-Leaves [] h = absurd h
closing_brace-Leaves (token ∷ tokens) h = elim (Bool-cases (is_r_brace token)) [
  | inl closes ↦
      rw closes (leaves tt tokens tt (EndsInEof-tail token tokens h λ e. cc) (omega arith))
  | inr other ↦ rw other (refused _)
]

pub closing_paren-Leaves :
    (tokens : List Token) → EndsInEof tokens → Leaves Any (length tokens) (closing_paren tokens)
closing_paren-Leaves [] h = absurd h
closing_paren-Leaves (token ∷ tokens) h = elim (Bool-cases (is_r_paren token)) [
  | inl closes ↦
      rw closes (leaves tt tokens tt (EndsInEof-tail token tokens h λ e. cc) (omega arith))
  | inr other ↦ rw other (refused _)
]

set_operation-Leaves :
    (node : StringSet → Node) (tokens : List Token)
    → ((set : StringSet) → IsPrintable (node set))
    → EndsInEof tokens
    → Leaves IsPrintable (length tokens) (set_operation node tokens)
set_operation-Leaves node tokens p h =
    bind-Leaves _ (set_values-Leaves (length tokens) tokens h (omega arith))
      λ values rest any ends short.
        bind-Leaves _ (closing_brace-Leaves rest ends)
          λ _ left any' ends' short'. leaves (node _) left (p _) ends' (omega arith)

value_operation-Leaves :
    (node : Text → Node) (token : Token) (tokens : List Token)
    → ((v : Text) → IsPrintable (node v))
    → EndsInEof (token ∷ tokens)
    → Leaves IsPrintable (suc (length tokens)) (value_operation node token tokens)
value_operation-Leaves node token tokens p h = elim (Option-cases (literal token)) [
  | inl other ↦ rw (other, value_operation) (refused _)
  | inr (v, is_v) ↦
      rw (is_v, value_operation)
        (leaves (node v) tokens (p v) (EndsInEof-tail token tokens h λ e. cc) (omega arith))
]

-- The operators and the starts make printable nodes.
abbrev pub MakesPrintable : Operator → Type 0
MakesPrintable (value_operator node) = (a b : Text) → IsPrintable (node a b)
MakesPrintable (set_operator node) = (a : Text) (b : StringSet) → IsPrintable (node a b)
MakesPrintable no_operator = Unit

operator-MakesPrintable : (token : Token) → MakesPrintable (operator token)
unfolding IsPrintable
operator-MakesPrintable (Token.label t) = tt
operator-MakesPrintable (Token.string_literal t) = tt
operator-MakesPrintable (Token.has t) = tt
operator-MakesPrintable Token.l_brace = tt
operator-MakesPrintable Token.r_brace = tt
operator-MakesPrintable Token.comma = tt
operator-MakesPrintable Token.eq = λ a b. tt
operator-MakesPrintable Token.ne = λ a b. tt
operator-MakesPrintable Token.in_set = λ a b. tt
operator-MakesPrintable Token.not_op = tt
operator-MakesPrintable Token.not_in = λ a b. tt
operator-MakesPrintable Token.contains = λ a b. tt
operator-MakesPrintable Token.starts_with = λ a b. tt
operator-MakesPrintable Token.ends_with = λ a b. tt
operator-MakesPrintable Token.all = tt
operator-MakesPrintable Token.l_paren = tt
operator-MakesPrintable Token.r_paren = tt
operator-MakesPrintable Token.and_op = tt
operator-MakesPrintable Token.or_op = tt
operator-MakesPrintable Token.global = tt
operator-MakesPrintable Token.eof = tt

abbrev pub StartsPrintable : Start → Type 0
StartsPrintable (whole node) = IsPrintable node
StartsPrintable _ = Unit

pub start-StartsPrintable : (token : Token) → StartsPrintable (start token)
unfolding IsPrintable
start-StartsPrintable (Token.label t) = tt
start-StartsPrintable (Token.string_literal t) = tt
start-StartsPrintable (Token.has t) = tt
start-StartsPrintable Token.l_brace = tt
start-StartsPrintable Token.r_brace = tt
start-StartsPrintable Token.comma = tt
start-StartsPrintable Token.eq = tt
start-StartsPrintable Token.ne = tt
start-StartsPrintable Token.in_set = tt
start-StartsPrintable Token.not_op = tt
start-StartsPrintable Token.not_in = tt
start-StartsPrintable Token.contains = tt
start-StartsPrintable Token.starts_with = tt
start-StartsPrintable Token.ends_with = tt
start-StartsPrintable Token.all = tt
start-StartsPrintable Token.l_paren = tt
start-StartsPrintable Token.r_paren = tt
start-StartsPrintable Token.and_op = tt
start-StartsPrintable Token.or_op = tt
start-StartsPrintable Token.global = tt
start-StartsPrintable Token.eof = tt

operation_of-Leaves :
    (name : Text) (op : Operator) (token : Token) (tokens : List Token)
    → MakesPrintable op
    → EndsInEof (token ∷ tokens)
    → Leaves IsPrintable (suc (length tokens)) (operation_of name op token tokens)
operation_of-Leaves name (value_operator node) token tokens p h =
    value_operation-Leaves (node name) token tokens (p name) h
operation_of-Leaves name (set_operator node) token tokens p h =
    elim (Bool-cases (is_l_brace token)) [
      | inl opens ↦ rw opens (
          weaken-Leaves (suc (length tokens)) (omega arith) (
            set_operation-Leaves (node name) tokens (p name)
              (EndsInEof-tail token tokens h λ e. cc)))
      | inr other ↦ rw other (refused _)
    ]
operation_of-Leaves name no_operator token tokens p h = refused _

pub label_operation-Leaves :
    (name : Text) (tokens : List Token)
    → EndsInEof tokens
    → Leaves IsPrintable (length tokens) (label_operation name tokens)
label_operation-Leaves name [] h = absurd h
label_operation-Leaves name (op ∷ []) h = refused _
label_operation-Leaves name (op ∷ token ∷ tokens) h =
    weaken-Leaves (suc (suc (length tokens))) (omega arith)
      (operation_of-Leaves name (operator op) token tokens (operator-MakesPrintable op) h)

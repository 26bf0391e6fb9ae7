-- ===== src/Selector/Parser/Total.antt =====
-- The parser never runs out of its tokens: an index is never out of range, and the fuel is enough.
use zyzxlibcalico_go.Prelude.{
  some, none, ℕ, zero, suc, ◌≤◌, ◌≡◌, refl, Bool, true, false, List, [], ◌∷◌, length, arith,
  Bool-cases, inl, inr,
}
use zyzxlibcalico_go.Selector.Text.{Text}
use zyzxlibcalico_go.Selector.Tokenizer.{Token, Tokens, eof, tokenize}
use zyzxlibcalico_go.Selector.Tokenizer.Total.{EndsInEof, Tokenized, tokenize_lem}
use zyzxlibcalico_go.Selector.Ast.Fragments.{text_of, string-text_of, IsPrintable, ArePrintable}
use zyzxlibcalico_go.Selector.Ast.{
  string, none_left, cons_node, and_node, or_node, Node, Nodes, SelectorRoot,
}
use zyzxlibcalico_go.Selector.Parser.Remains.{
  Leaves, leaves, refused, bind-Leaves, weaken-Leaves, EndsInEof-tail, collapse-Leaves,
  closing_paren-Leaves, label_operation-Leaves, StartsPrintable, start-StartsPrintable,
}
use zyzxlibcalico_go.Selector.Parser.{
  combine, negate, Parsed, ok, fail, panic, out_of_fuel, ◌>>=◌, Parser, is_eof, Start, whole,
  of_label, nested, unexpected, start, operation_at, operation, is_and, is_or, operands, expression,
  parse_and_expression, parse_or_expression, parse_operation, only_eof, parse_tokens, parse_result,
  parse,
}

-- A parser that is good on at most `n` tokens.
abbrev GoodTo : ℕ → Parser Node → Type 0
GoodTo n parser =
    (tokens : List Token)
    → EndsInEof tokens
    → length tokens ≤ n
    → Leaves IsPrintable (length tokens) (parser tokens)

operation_at-Leaves :
    (n : ℕ) (inner : Parser Node) (s : Start) (token : Token) (tokens : List Token)
    → GoodTo n inner
    → start token ≡ s
    → StartsPrintable s
    → EndsInEof (token ∷ tokens)
    → length tokens ≤ n
    → Leaves IsPrintable (length tokens) (operation_at inner s tokens)
operation_at-Leaves n inner (whole node) token tokens good e p h short =
    leaves node tokens p (EndsInEof-tail token tokens h λ is_end. cc) (omega arith)
operation_at-Leaves n inner (of_label name) token tokens good e p h short =
    label_operation-Leaves name tokens (EndsInEof-tail token tokens h λ is_end. cc)
operation_at-Leaves n inner nested token tokens good e p h short =
    bind-Leaves _ (good tokens (EndsInEof-tail token tokens h λ is_end. cc) short)
      λ node rest q ends less.
        bind-Leaves _ (closing_paren-Leaves rest ends)
          λ _ left any' ends' less'. leaves node left q ends' (omega arith)
operation_at-Leaves n inner unexpected token tokens good e p h short = refused _

operation-Leaves :
    (n : ℕ) (inner : Parser Node) (tokens : List Token)
    → GoodTo n inner
    → EndsInEof tokens
    → length tokens ≤ suc n
    → Leaves IsPrintable (length tokens) (operation inner tokens)
unfolding operation
operation-Leaves n inner [] good h short = absurd h
operation-Leaves n inner (token ∷ tokens) good h short =
    weaken-Leaves (suc (length tokens)) (omega arith) (
      operation_at-Leaves n inner (start token) token tokens good refl (start-StartsPrintable token)
        h (omega arith))

operands-Leaves :
    (fuel n : ℕ) (is_op : Token → Bool) (operand : Parser Node) (tokens : List Token)
    → ((token : Token) → is_op token ≡ true → token ≡ eof → ⊥)
    → GoodTo n operand
    → EndsInEof tokens
    → length tokens ≤ n
    → length tokens ≤ fuel
    → Leaves ArePrintable (length tokens) (operands fuel is_op operand tokens)
unfolding operands ArePrintable
operands-Leaves zero n is_op operand [] other good h short enough = absurd h
operands-Leaves zero n is_op operand (token ∷ tokens) other good h short enough =
    absurd (omega arith)
operands-Leaves (suc fuel) n is_op operand [] other good h short enough = absurd h
operands-Leaves (suc fuel) n is_op operand (token ∷ tokens) other good h short enough =
    elim (Bool-cases (is_op token)) [
      | inl an_op ↦ rw an_op (
          bind-Leaves _
            (good tokens (EndsInEof-tail token tokens h (other token an_op)) (omega arith))
            λ node rest p ends less.
              bind-Leaves _
                (operands-Leaves fuel n is_op operand rest other good ends (omega arith)
                  (omega arith))
                λ nodes left ps ends' less'. leaves _ left (p, ps) ends' (omega arith))
      | inr no_op ↦ rw no_op (leaves _ (token ∷ tokens) tt h (omega arith))
    ]

combine-IsPrintable :
    (op : Nodes → Node) (node : Node) (nodes : Nodes)
    → ((n : Node) (ns : Nodes)
        → IsPrintable n
        → ArePrintable ns
        → IsPrintable (op (cons_node n ns)))
    → IsPrintable node
    → ArePrintable nodes
    → IsPrintable (combine op node nodes)
combine-IsPrintable op node none_left makes p ps = p
combine-IsPrintable op node (cons_node other nodes) makes p ps =
    makes node (cons_node other nodes) p ps

negate-IsPrintable : (b : Bool) (node : Node) → IsPrintable node → IsPrintable (negate b node)
unfolding IsPrintable
negate-IsPrintable true node p = p
negate-IsPrintable false node p = p

expression-GoodTo :
    (fuel n : ℕ) (is_op : Token → Bool) (op : Nodes → Node) (operand : Parser Node)
    → ((n : Node) (ns : Nodes)
        → IsPrintable n
        → ArePrintable ns
        → IsPrintable (op (cons_node n ns)))
    → ((token : Token) → is_op token ≡ true → token ≡ eof → ⊥)
    → n ≤ fuel
    → GoodTo n operand
    → GoodTo n (expression fuel is_op op operand)
expression-GoodTo fuel n is_op op operand makes other enough good tokens h short =
    bind-Leaves _ (good tokens h short) λ node rest p ends less.
      bind-Leaves _
        (operands-Leaves fuel n is_op operand rest other good ends (omega arith) (omega arith))
        λ nodes left ps ends' less'.
          leaves _ left (combine-IsPrintable op node nodes makes p ps) ends' (omega arith)

parse_or_expression-GoodTo :
    (fuel n : ℕ) (operand : Parser Node)
    → n ≤ fuel
    → GoodTo n operand
    → GoodTo n (parse_or_expression fuel operand)
unfolding parse_or_expression parse_and_expression IsPrintable
parse_or_expression-GoodTo fuel n operand enough good =
    expression-GoodTo fuel n is_or or_node (parse_and_expression fuel operand)
      (λ n ns p ps. (p, ps)) (λ token is_op e. cc) enough
      (expression-GoodTo fuel n is_and and_node operand (λ n ns p ps. (p, ps)) (λ token is_op e. cc)
        enough good)

parse_operation-GoodTo : (fuel : ℕ) → GoodTo fuel (parse_operation fuel)
unfolding parse_operation
parse_operation-GoodTo zero [] h short = absurd h
parse_operation-GoodTo zero (token ∷ tokens) h short = absurd (omega arith)
parse_operation-GoodTo (suc fuel) [] h short = absurd h
parse_operation-GoodTo (suc fuel) (token ∷ tokens) h short =
    let inner =
      parse_or_expression-GoodTo fuel fuel (parse_operation fuel) (omega arith)
        (parse_operation-GoodTo fuel) in
    bind-Leaves _ (collapse-Leaves false (token ∷ tokens) h) λ negated rest any ends less.
      bind-Leaves _ (operation-Leaves fuel _ rest inner ends (omega arith))
        λ node left p ends' less'.
          leaves _ left (negate-IsPrintable negated node p) ends' (omega arith)

-- Parse returned an error about the text, or a selector that was not printed yet and has no operator
-- without operands.
abbrev pub Returns : Parsed SelectorRoot → Type 0
Returns (ok sel) = IsPrintable sel.root × (sel.cached_string ≡ none)
Returns (fail e) = Unit
Returns panic = ⊥
Returns out_of_fuel = ⊥

only_eof-Returns :
    (node : Node) (tokens : List Token) → IsPrintable node → Returns (only_eof node tokens)
only_eof-Returns node [] p = tt
only_eof-Returns node (token ∷ []) p = (p, refl)
only_eof-Returns node (token ∷ other ∷ tokens) p = tt

bind-Returns :
    {n : ℕ} {m : Parsed (Node × List Token)}
    → Leaves IsPrintable n m
    → Returns (m >>= λ (node, rest). only_eof node rest)
bind-Returns (leaves node rest p ends short) = only_eof-Returns node rest p
bind-Returns (refused e) = tt

parse_tokens-Returns : (tokens : List Token) → EndsInEof tokens → Returns (parse_tokens tokens)
unfolding IsPrintable
parse_tokens-Returns [] h = absurd h
parse_tokens-Returns (token ∷ tokens) h =
    let fuel = suc (suc (length tokens)) in
    let good =
      parse_or_expression-GoodTo fuel fuel (parse_operation fuel) (omega arith)
        (parse_operation-GoodTo fuel) in
    elim (Bool-cases (is_eof token)) [
      | inl ended ↦ rw ended (tt, refl)
      | inr more ↦ rw more (bind-Returns (good (token ∷ tokens) h (omega arith)))
    ]

parse_result-Returns : (t : Tokens) → Tokenized t → Returns (parse_result t)
parse_result-Returns (Tokens.ok tokens) h = parse_tokens-Returns tokens h
parse_result-Returns (Tokens.err e) h = tt

-- Parse returns a selector or an error for every text: it never indexes tokens out of range, and the
-- nesting of parentheses and the loops over operands and values end. No operator of the selector is
-- without operands, and its text is not cached yet.
pub parse-Returns : (selector : Text) → Returns (parse selector)
unfolding parse
parse-Returns selector = parse_result-Returns (tokenize selector) (tokenize_lem selector)

-- Every selector that Parse returns has a text: the one written down node by node.
pub string-parse :
    (selector : Text) (sel : SelectorRoot)
    → parse selector ≡ ok sel
    → string sel ≡ some (text_of sel.root, record sel { cached_string = some (text_of sel.root) })
unfolding string
string-parse selector sel e =
    let (p, fresh) = rw e at (parse-Returns selector) in rw fresh (string-text_of sel.root p)

-- ===== src/Selector/Tokenizer/Progress.antt =====
-- What a match leaves of the input is shorter.
use zyzxlibcalico_go.Prelude.{
  ℕ, zero, suc, ◌+◌, ◌≤◌, ◌<◌, ◌≡◌, refl, Option, none, some, [], ◌∷◌, length, arith,
}
use zyzxlibcalico_go.Prelude.Options.{◌>>=◌}
use zyzxlibcalico_go.Selector.Text.{Text}
use zyzxlibcalico_go.Selector.Tokenizer.{
  Token, label, has, not_in, in_set, contains, starts_with, ends_with, all, global, bytes,
  trim_left, skip_space, after, span_label, not_empty, label_key, at_boundary, has_expr, call_expr,
  not_in_expr, in_expr, contains_expr, with_expr, identifier, or_else, operator, operand,
}

-- What is left behind a match is shorter than `n`.
abbrev pub Below : ℕ → Option (Token × Text) → Type 0
Below n o = (token : Token) (rest : Text) → o ≡ some (token, rest) → length rest < n

bind-Below :
    {A : Type 0} (n : ℕ) (m : Option A) (f : A → Option (Token × Text))
    → ((a : A) → m ≡ some a → Below n (f a))
    → Below n (m >>= f)
bind-Below n none f h token rest e = cc
bind-Below n (some a) f h token rest e = h a refl token rest e

some-Below : (n : ℕ) (token : Token) (text : Text) → length text < n → Below n (some (token, text))
some-Below n token text h other rest e = ground arith

or_else-Below :
    (n : ℕ) (a b : Option (Token × Text)) → Below n a → Below n b → Below n (or_else a b)
or_else-Below n none b h k token rest e = k token rest e
or_else-Below n (some x) b h k token rest e = h token rest e

length-skip_space : (text : Text) → length (skip_space text) ≤ length text
unfolding skip_space
length-skip_space [] = omega arith
length-skip_space (c ∷ text) = ground (arith, length-skip_space text)

pub length-trim_left : (text : Text) → length (trim_left text) ≤ length text
unfolding trim_left
length-trim_left [] = omega arith
length-trim_left (c ∷ text) = ground (arith, length-trim_left text)

length-after :
    (lit text rest : Text) → after lit text ≡ some rest → length rest + length lit ≡ length text
unfolding after
length-after [] text rest h = ground arith
length-after (d ∷ lit) [] rest h = cc
length-after (d ∷ lit) (c ∷ text) rest h = ground (arith, length-after lit text rest)

length-span_label :
    (n : ℕ) (text : Text)
    → length (span_label n text).0 + length (span_label n text).1 ≡ length text
unfolding span_label
length-span_label zero text = omega arith
length-span_label (suc n) [] = refl
length-span_label (suc n) (c ∷ text) = ground (arith, length-span_label n text)

not_empty-lt :
    (p : Text × Text) (name rest : Text)
    → not_empty p ≡ some (name, rest)
    → length rest < length p.0 + length p.1
not_empty-lt ([], text) name rest h = cc
not_empty-lt (c ∷ found_name, text) name rest h = ground arith

label_key-lt : (text : Text) (p : Text × Text) → label_key text ≡ some p → length p.1 < length text
unfolding label_key
label_key-lt text (name, rest) h =
    rw (← length-span_label 512 text) (not_empty-lt (span_label 512 text) name rest h)

length-at_boundary : (text rest : Text) → at_boundary text ≡ some rest → length rest ≤ length text
length-at_boundary [] rest h = ground arith
length-at_boundary (c ∷ text) rest h = ground arith

module _ (text : Text) where
  has_expr-Below : Below (length text) (has_expr text)
  unfolding has_expr
  has_expr-Below = bind-Below _ (after (bytes "has(") text) _ λ a at_a.
      bind-Below _ (label_key (skip_space a)) _ λ p at_p.
        bind-Below _ (after (bytes ")") (skip_space p.1)) _ λ b at_b. some-Below _ (has p.0) b (
          omega (
            arith,
            length-after (bytes "has(") text a at_a,
            length-skip_space a,
            label_key-lt (skip_space a) p at_p,
            length-skip_space p.1,
            length-after (bytes ")") (skip_space p.1) b at_b,
          ))

  call_expr-Below : (token : Token) (name : Text) → Below (length text) (call_expr token name text)
  unfolding call_expr
  call_expr-Below token name = bind-Below _ (after name text) _ λ a at_a.
      bind-Below _ (after (bytes ")") (skip_space a)) _ λ b at_b. some-Below _ token b (
        omega (
          arith,
          length-after name text a at_a,
          length-skip_space a,
          length-after (bytes ")") (skip_space a) b at_b,
        ))

  with_expr-Below : (token : Token) (name : Text) → Below (length text) (with_expr token name text)
  unfolding with_expr
  with_expr-Below token name = bind-Below _ (after name text) _ λ a at_a.
      bind-Below _ (after (bytes "with") (skip_space a)) _ λ b at_b. some-Below _ token b (
        omega (
          arith,
          length-after name text a at_a,
          length-skip_space a,
          length-after (bytes "with") (skip_space a) b at_b,
        ))

  not_in_expr-Below : Below (length text) (not_in_expr text)
  unfolding not_in_expr
  not_in_expr-Below = bind-Below _ (after (bytes "not") text) _ λ a at_a.
      bind-Below _ (after (bytes "in") (skip_space a)) _ λ b at_b.
        bind-Below _ (at_boundary b) _ λ d at_d. some-Below _ not_in d (
          omega (
            arith,
            length-after (bytes "not") text a at_a,
            length-skip_space a,
            length-after (bytes "in") (skip_space a) b at_b,
            length-at_boundary b d at_d,
          ))

  in_expr-Below : Below (length text) (in_expr text)
  unfolding in_expr
  in_expr-Below = bind-Below _ (after (bytes "in") text) _ λ a at_a.
      bind-Below _ (at_boundary a) _ λ b at_b.
        some-Below _ in_set b
          (omega (arith, length-after (bytes "in") text a at_a, length-at_boundary a b at_b))

  contains_expr-Below : Below (length text) (contains_expr text)
  unfolding contains_expr
  contains_expr-Below =
      bind-Below _ (after (bytes "contains") text) _ λ a at_a.
        some-Below _ contains a (omega (arith, length-after (bytes "contains") text a at_a))

  identifier-Below : Below (length text) (identifier text)
  unfolding identifier
  identifier-Below =
      bind-Below _ (label_key text) _
        λ p at_p. some-Below _ (label p.0) p.1 (label_key-lt text p at_p)

  pub operator-Below : Below (length text) (operator text)
  unfolding operator
  operator-Below = or_else-Below _ _ _ contains_expr-Below (
      or_else-Below _ _ _ (with_expr-Below starts_with (bytes "starts")) (
        or_else-Below _ _ _ (with_expr-Below ends_with (bytes "ends"))
          (or_else-Below _ _ _ not_in_expr-Below in_expr-Below)))

  pub operand-Below : Below (length text) (operand text)
  unfolding operand
  operand-Below = or_else-Below _ _ _ has_expr-Below (
      or_else-Below _ _ _ (call_expr-Below all (bytes "all("))
        (or_else-Below _ _ _ (call_expr-Below global (bytes "global(")) identifier-Below))

-- ===== src/Selector/Tokenizer/Total.antt =====
-- Every round of the tokenizer makes the input shorter, so that the loop ends.
use zyzxlibcalico_go.Selector.Tokenizer.Progress.{
  Below, length-trim_left, operator-Below, operand-Below,
}
use zyzxlibcalico_go.Prelude.{
  ℕ, zero, suc, ◌≤◌, ◌<◌, ◌≡◌, refl, Bool, true, false, Option, none, some, List, [], ◌∷◌, length,
  leb, ◌==◌, arith, Bool-cases, inl, inr,
}
use zyzxlibcalico_go.Prelude.Options.{>>=-eq-some}
use zyzxlibcalico_go.Selector.Text.{Text}
use zyzxlibcalico_go.Selector.Tokenizer.{
  Token, TokenError, Tokens, eq, ne, not_op, and_op, or_op, expected_eq, expected_and, expected_or,
  ok, err, eof, trim_left, operator, operand, Step, found, wrong, switch, cases, or_wrong,
  word_step, up_to, quoted, doubled, step, is_label_token, infinite_loop, out_of_fuel, continue,
  round, add_token, tokenize_from, tokenize,
}

-- What a round finds leaves less than `n`, and its errors are those of a wrong text.
abbrev IsWrongText : TokenError → Type 0
IsWrongText infinite_loop = ⊥
IsWrongText out_of_fuel = ⊥
IsWrongText _ = Unit

abbrev Advances : ℕ → Step → Type 0
Advances n (found token rest) = length rest < n
Advances n (wrong e) = IsWrongText e

or_wrong-Advances :
    (n : ℕ) (e : TokenError) (o : Option (Token × Text))
    → IsWrongText e
    → Below n o
    → Advances n (or_wrong e o)
or_wrong-Advances n e none h b = h
or_wrong-Advances n e (some (token, rest)) h b = b token rest refl

word_step-Advances : (b : Bool) (text : Text) → Advances (length text) (word_step b text)
word_step-Advances true text = or_wrong-Advances _ _ (operator text) tt (operator-Below text)
word_step-Advances false text = or_wrong-Advances _ _ (operand text) tt (operand-Below text)

length-up_to :
    (quote : ℕ) (text value rest : Text)
    → up_to quote text ≡ some (value, rest)
    → length rest < length text
unfolding up_to
length-up_to quote [] value rest h = cc
length-up_to quote (c ∷ text) value rest h = elim (Bool-cases (c == quote)) [
  | inl same ↦ let e = rw same at h in ground arith
  | inr other ↦
      let (p, found_later, e) = >>=-eq-some (up_to quote text) _ (rw other at h) in
      ground (arith, length-up_to quote text p.0 p.1 found_later)
]

quoted-Advances :
    (n : ℕ) (o : Option (Text × Text))
    → ((value rest : Text) → o ≡ some (value, rest) → length rest < n)
    → Advances n (quoted o)
quoted-Advances n none h = tt
quoted-Advances n (some (value, rest)) h = h value rest refl

doubled-Advances :
    (c : ℕ) (token : Token) (otherwise : Step) (text : Text)
    → Advances (suc (length text)) otherwise
    → Advances (suc (length text)) (doubled c token otherwise text)
doubled-Advances c token otherwise [] h = h
doubled-Advances c token otherwise (d ∷ text) h = elim (Bool-cases (d == c)) [
  | inl same ↦ rw same (omega arith)
  | inr other ↦ rw other h
]

abbrev AllAdvance : ℕ → List (Bool × Step) → Type 0
AllAdvance n [] = Unit
AllAdvance n ((test, case) ∷ others) = Advances n case × AllAdvance n others

switch-Advances :
    (n : ℕ) (list : List (Bool × Step)) (default : Step)
    → AllAdvance n list
    → Advances n default
    → Advances n (switch list default)
switch-Advances n [] default all_cases h = h
switch-Advances n ((true, case) ∷ list) default (first, others) h = first
switch-Advances n ((false, case) ∷ list) default (first, others) h =
    switch-Advances n list default others h

step-Advances :
    (last : Option Token) (c : ℕ) (text : Text) → Advances (suc (length text)) (step last c text)
unfolding step
step-Advances last c text =
    let short : length text < suc (length text) = omega arith in
    let value : (v rest : Text) → up_to c text ≡ some (v, rest) → length rest < suc (length text) =
      λ v rest e. omega (arith, length-up_to c text v rest e) in
    switch-Advances (suc (length text)) (cases c text) (word_step (is_label_token last) (c ∷ text))
      (
        short,
        (
          short,
          (
            quoted-Advances _ (up_to c text) value,
            (
              short,
              (
                short,
                (
                  short,
                  (
                    doubled-Advances b'=' eq (wrong expected_eq) text tt,
                    (
                      doubled-Advances b'=' ne (found not_op text) text short,
                      (
                        doubled-Advances b'&' and_op (wrong expected_and) text tt,
                        (doubled-Advances b'|' or_op (wrong expected_or) text tt, tt),
                      ),
                    ),
                  ),
                ),
              ),
            ),
          ),
        ),
      )
      (word_step-Advances (is_label_token last) (c ∷ text))

-- The last token is EOF.
abbrev pub EndsInEof : List Token → Type 0
EndsInEof [] = ⊥
EndsInEof (token ∷ []) = token ≡ eof
EndsInEof (token ∷ other ∷ tokens) = EndsInEof (other ∷ tokens)

abbrev pub Tokenized : Tokens → Type 0
Tokenized (ok tokens) = EndsInEof tokens
Tokenized (err e) = IsWrongText e

add_token-Tokenized : (token : Token) (t : Tokens) → Tokenized t → Tokenized (add_token token t)
add_token-Tokenized token (ok []) h = absurd h
add_token-Tokenized token (ok (u ∷ tokens)) h = h
add_token-Tokenized token (err e) h = h

continue-Tokenized :
    (n start : ℕ) (again : Token → Text → Tokens) (s : Step)
    → Advances n s
    → n ≤ start
    → ((token : Token) (text : Text) → length text < n → Tokenized (again token text))
    → Tokenized (continue start again s)
continue-Tokenized n start again (wrong e) h below rest = h
continue-Tokenized n start again (found token text) h below rest =
    let shorter : leb start (length text) ≡ false = ground arith in
    rw shorter (add_token-Tokenized token (again token text) (rest token text h))

round-Tokenized :
    (again : Token → Text → Tokens) (last : Option Token) (start : ℕ) (text : Text)
    → length text ≤ start
    → ((token : Token) (rest : Text) → length rest < start → Tokenized (again token rest))
    → Tokenized (round again last start text)
round-Tokenized again last start [] below rest = refl
round-Tokenized again last start (c ∷ text) below rest =
    continue-Tokenized (suc (length text)) start again (step last c text)
      (step-Advances last c text) below λ token left e. rest token left (omega arith)

tokenize_from-Tokenized :
    (fuel : ℕ) (last : Option Token) (input : Text)
    → length input < fuel
    → Tokenized (tokenize_from fuel last input)
unfolding tokenize_from
tokenize_from-Tokenized zero last input h = absurd (omega arith)
tokenize_from-Tokenized (suc fuel) last input h =
    round-Tokenized (λ token text. tokenize_from fuel (some token) text) last (length input)
      (trim_left input) (length-trim_left input)
      λ token rest e. tokenize_from-Tokenized fuel (some token) rest (omega arith)

-- Tokenize ends on every input: it returns tokens of which the last is EOF, or an error about the
-- text. It never reports an infinite loop, and a round for each byte and one more are enough.
pub tokenize_lem : (input : Text) → Tokenized (tokenize input)
unfolding tokenize
tokenize_lem input = tokenize_from-Tokenized (suc (length input)) none input (omega arith)

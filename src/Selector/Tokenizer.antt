-- ===== src/Selector/Tokenizer.antt =====
-- lib/selector/tokenizer/tokenizer.go. The regular expressions are matchers: each takes a text and
-- returns what is left of it behind the match.
pub mod Progress
pub mod Total
use Prim.Native.Char.{code}
use mathlib.Core.Option
use zyzxlibcalico_go.Prelude.{
  ℕ, zero, suc, String, Bool, true, false, not, ◌&&◌, ◌||◌, Option, none, some, List, [], ◌∷◌,
  length, leb, ◌==◌, if◌then◌else◌,
}
use zyzxlibcalico_go.Prelude.Options.{◌>>=◌}
use zyzxlibcalico_go.Selector.Text.{Text}

pub data Token : Type 0 where
  label string_literal has : Text → Token
  l_brace r_brace comma eq ne in_set not_op not_in contains starts_with ends_with : Token
  all l_paren r_paren and_op or_op global eof : Token

pub data TokenError : Type 0 where
  unterminated_string expected_eq expected_and expected_or unexpected_after_label : TokenError
  unexpected_characters infinite_loop out_of_fuel : TokenError

pub data Tokens : Type 0 where
  ok : List Token → Tokens
  err : TokenError → Tokens

-- The bytes of ASCII text.
abbrev pub bytes : String → Text
bytes String.[] = []
bytes (String.◌∷◌ c s) = code c ∷ bytes s

-- \s
unfoldable pub is_space : ℕ → Bool
is_space c = c == 9 || c == 10 || c == 12 || c == 13 || c == 32

-- What \b tells apart.
unfoldable pub is_word : ℕ → Bool
is_word c =
    leb b'a' c && leb c b'z' || leb b'A' c && leb c b'Z' || leb b'0' c && leb c b'9' || c == b'_'

-- [a-zA-Z0-9_./-]
unfoldable pub is_label : ℕ → Bool
is_label c = is_word c || c == b'.' || c == b'/' || c == b'-'

-- strings.TrimLeft(input, " \t")
unfoldable pub trim_left : Text → Text
trim_left [] = []
trim_left (c ∷ text) = let rest = trim_left text in if c == 32 || c == 9 then rest else c ∷ text

-- \s*
unfoldable pub skip_space : Text → Text
skip_space [] = []
skip_space (c ∷ text) = let rest = skip_space text in if is_space c then rest else c ∷ text

-- The text behind a literal.
unfoldable pub after : Text → Text → Option Text
after [] text = some text
after (d ∷ lit) [] = none
after (d ∷ lit) (c ∷ text) = let rest = after lit text in if c == d then rest else none

-- At most `n` characters of a label, and the rest.
unfoldable pub span_label : ℕ → Text → Text × Text
span_label zero text = ([], text)
span_label (suc n) [] = ([], [])
span_label (suc n) (c ∷ text) =
    let (name, rest) = span_label n text in if is_label c then (c ∷ name, rest) else ([], c ∷ text)

abbrev pub not_empty : Text × Text → Option (Text × Text)
not_empty ([], rest) = none
not_empty (c ∷ name, rest) = some (c ∷ name, rest)

-- LabelKeyMatcher
unfoldable pub label_key : Text → Option (Text × Text)
label_key text = not_empty (span_label 512 text)

abbrev pub at_boundary : Text → Option Text
at_boundary [] = some []
at_boundary (c ∷ text) = if is_word c then none else some (c ∷ text)

-- hasExpr, allExpr, globalExpr, notInExpr and inExpr
unfoldable pub has_expr : Text → Option (Token × Text)
has_expr text = do
  text ← after (bytes "has(") text
  (name, text) ← label_key (skip_space text)
  text ← after (bytes ")") (skip_space text)
  some (has name, text)

unfoldable pub call_expr : Token → Text → Text → Option (Token × Text)
call_expr token name text = do
  text ← after name text
  text ← after (bytes ")") (skip_space text)
  some (token, text)

unfoldable pub not_in_expr : Text → Option (Token × Text)
not_in_expr text = do
  text ← after (bytes "not") text
  text ← after (bytes "in") (skip_space text)
  text ← at_boundary text
  some (not_in, text)

unfoldable pub in_expr : Text → Option (Token × Text)
in_expr text = do text ← after (bytes "in") text; text ← at_boundary text; some (in_set, text)

unfoldable pub contains_expr : Text → Option (Token × Text)
contains_expr text = do text ← after (bytes "contains") text; some (contains, text)

-- startsWithRegex and endsWithRegex
unfoldable pub with_expr : Token → Text → Text → Option (Token × Text)
with_expr token name text = do
  text ← after name text
  text ← after (bytes "with") (skip_space text)
  some (token, text)

unfoldable pub identifier : Text → Option (Token × Text)
identifier text = do (name, text) ← label_key text; some (label name, text)

-- The first alternative that matches.
abbrev pub or_else : Option (Token × Text) → Option (Token × Text) → Option (Token × Text)
or_else none other = other
or_else (some found) other = some found

-- What follows a label, and what stands elsewhere.
unfoldable pub operator : Text → Option (Token × Text)
operator text = or_else (contains_expr text) (
    or_else (with_expr starts_with (bytes "starts") text) (
      or_else (with_expr ends_with (bytes "ends") text)
        (or_else (not_in_expr text) (in_expr text))))

unfoldable pub operand : Text → Option (Token × Text)
operand text = or_else (has_expr text) (
    or_else (call_expr all (bytes "all(") text)
      (or_else (call_expr global (bytes "global(") text) (identifier text)))

-- One round of the loop.
pub data Step : Type 0 where
  found : Token → Text → Step
  wrong : TokenError → Step

abbrev pub or_wrong : TokenError → Option (Token × Text) → Step
or_wrong e none = wrong e
or_wrong e (some (token, text)) = found token text

abbrev pub is_label_token : Option Token → Bool
is_label_token (some (label name)) = true
is_label_token _ = false

abbrev pub word_step : Bool → Text → Step
word_step true text = or_wrong unexpected_after_label (operator text)
word_step false text = or_wrong unexpected_characters (operand text)

-- The text up to the quote, and behind it.
unfoldable pub up_to : ℕ → Text → Option (Text × Text)
up_to quote [] = none
up_to quote (c ∷ text) =
    let more = (do (value, rest) ← up_to quote text; some (c ∷ value, rest)) in
    if c == quote then some ([], text) else more

abbrev pub quoted : Option (Text × Text) → Step
quoted none = wrong unterminated_string
quoted (some (value, text)) = found (string_literal value) text

abbrev pub doubled : ℕ → Token → Step → Text → Step
doubled c token otherwise [] = otherwise
doubled c token otherwise (d ∷ text) = if d == c then found token text else otherwise

-- The first case whose test holds.
abbrev pub switch : List (Bool × Step) → Step → Step
switch [] default = default
switch ((test, case) ∷ others) default = if test then case else switch others default

-- The cases of the switch on the first byte.
abbrev pub cases : ℕ → Text → List (Bool × Step)
cases c text =
    (c == b'(', found l_paren text)
    ∷ (c == b')', found r_paren text)
    ∷ (c == b'"' || c == 39, quoted (up_to c text))
    ∷ (c == b'{', found l_brace text)
    ∷ (c == b'}', found r_brace text)
    ∷ (c == b',', found comma text)
    ∷ (c == b'=', doubled b'=' eq (wrong expected_eq) text)
    ∷ (c == b'!', doubled b'=' ne (found not_op text) text)
    ∷ (c == b'&', doubled b'&' and_op (wrong expected_and) text)
    ∷ (c == b'|', doubled b'|' or_op (wrong expected_or) text)
    ∷ []

-- The switch, behind the last token.
unfoldable pub step : Option Token → ℕ → Text → Step
step last c text = switch (cases c text) (word_step (is_label_token last) (c ∷ text))

abbrev pub add_token : Token → Tokens → Tokens
add_token token (ok tokens) = ok (token ∷ tokens)
add_token token (err e) = err e

-- The check at the end of a round, on the lengths before and behind it.
abbrev pub continue : ℕ → (Token → Text → Tokens) → Step → Tokens
continue start again (wrong e) = err e
continue start again (found token text) =
    let rest = again token text in
    if leb start (length text) then err infinite_loop else add_token token rest

abbrev pub round : (Token → Text → Tokens) → Option Token → ℕ → Text → Tokens
round again last start [] = ok (eof ∷ [])
round again last start (c ∷ text) = continue start again (step last c text)

-- The loop, from the last token on.
unfoldable pub tokenize_from : ℕ → Option Token → Text → Tokens
tokenize_from zero last input = err out_of_fuel
tokenize_from (suc fuel) last input =
    round (λ token text. tokenize_from fuel (some token) text) last (length input) (trim_left input)

unfoldable pub tokenize : Text → Tokens
tokenize input = tokenize_from (suc (length input)) none input

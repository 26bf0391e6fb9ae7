-- ===== src/Selector/Text.antt =====
-- Go strings as the lists of their bytes, with the comparisons that the selectors use.
use zyzxlibcalico_go.Prelude.{
  ℕ, ◌-◌, ◌≡◌, ◌↔◌, refl, Bool, true, false, ◌&&◌, ◌||◌, List, [], ◌∷◌, length, drop, ltb, leb,
  ◌==◌, if◌then◌else◌, arith, Bool-cases, inl, inr,
}

abbrev pub Text : Type 0
Text = List ℕ

-- a == b
unfoldable pub text_eq : Text → Text → Bool
text_eq [] [] = true
text_eq [] (d ∷ b) = false
text_eq (c ∷ a) [] = false
text_eq (c ∷ a) (d ∷ b) = c == d && text_eq a b

-- a < b
unfoldable pub text_lt : Text → Text → Bool
text_lt [] [] = false
text_lt [] (d ∷ b) = true
text_lt (c ∷ a) [] = false
text_lt (c ∷ a) (d ∷ b) = if c == d then text_lt a b else ltb c d

-- strings.HasPrefix
unfoldable pub has_prefix : Text → Text → Bool
has_prefix text [] = true
has_prefix [] (d ∷ prefix) = false
has_prefix (c ∷ text) (d ∷ prefix) = c == d && has_prefix text prefix

-- strings.HasSuffix
unfoldable pub has_suffix : Text → Text → Bool
has_suffix text suffix =
    leb (length suffix) (length text) && text_eq (drop (length text - length suffix) text) suffix

-- strings.Contains
unfoldable pub contains_text : Text → Text → Bool
contains_text [] part = has_prefix [] part
contains_text (c ∷ text) part = has_prefix (c ∷ text) part || contains_text text part

pub text_eq_iff : (a b : Text) → (text_eq a b ≡ true) ↔ (a ≡ b)
unfolding text_eq
text_eq_iff [] [] = (λ h. refl, λ h. refl)
text_eq_iff [] (d ∷ b) = (λ h. cc, λ h. cc)
text_eq_iff (c ∷ a) [] = (λ h. cc, λ h. cc)
text_eq_iff (c ∷ a) (d ∷ b) =
    (λ h. ground (arith, text_eq_iff a b), λ h. ground (arith, text_eq_iff a b))

pub text_lt_irrefl : (a : Text) → text_lt a a ≡ false
unfolding text_lt
text_lt_irrefl [] = refl
text_lt_irrefl (c ∷ a) = ground (arith, text_lt_irrefl a)

pub text_lt_trans : (a b c : Text) → text_lt a b ≡ true → text_lt b c ≡ true → text_lt a c ≡ true
unfolding text_lt
text_lt_trans [] [] c h k = cc
text_lt_trans [] (y ∷ b) [] h k = cc
text_lt_trans [] (y ∷ b) (z ∷ c) h k = refl
text_lt_trans (x ∷ a) [] c h k = cc
text_lt_trans (x ∷ a) (y ∷ b) [] h k = cc
text_lt_trans (x ∷ a) (y ∷ b) (z ∷ c) h k = ground (arith, text_lt_trans a b c)

pub text_lt_total : (a b : Text) → text_lt a b ≡ false → text_eq b a ≡ false → text_lt b a ≡ true
unfolding text_lt text_eq
text_lt_total [] [] h k = cc
text_lt_total [] (y ∷ b) h k = cc
text_lt_total (x ∷ a) [] h k = refl
text_lt_total (x ∷ a) (y ∷ b) h k = ground (arith, text_lt_total a b)

pub text_lt_asym : (a b : Text) → text_lt a b ≡ true → text_lt b a ≡ false
text_lt_asym a b h = elim (Bool-cases (text_lt b a)) [
  | inl back ↦ cc (text_lt_trans a b a h back, text_lt_irrefl a)
  | inr done ↦ done
]

pub text_lt_not_trans :
    (a b c : Text) → text_lt a b ≡ false → text_lt b c ≡ false → text_lt a c ≡ false
unfolding text_lt
text_lt_not_trans [] [] c h k = k
text_lt_not_trans [] (y ∷ b) c h k = cc
text_lt_not_trans (x ∷ a) [] [] h k = refl
text_lt_not_trans (x ∷ a) [] (z ∷ c) h k = cc
text_lt_not_trans (x ∷ a) (y ∷ b) [] h k = refl
text_lt_not_trans (x ∷ a) (y ∷ b) (z ∷ c) h k = ground (arith, text_lt_not_trans a b c)

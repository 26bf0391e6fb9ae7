-- ===== src/Prelude/Dict.antt =====
-- Go's maps with string keys, as association lists. Iteration takes the order of the list.
use Prim.Native.String.{String}
use text.Mathlib.Text.{◌==◌ as str_eq}
use text.Mathlib.TextEquality.{eq_iff}
use mathlib.Core.Path.{◌≡◌, refl}
use mathlib.Core.Option.{Option, none, some}
use mathlib.Core.List.{List, [], ◌∷◌}
use native.Mathlib.Omega.{arith}
use zyzxlibcalico_go.Prelude.Tests.{if◌then◌else◌}

abbrev pub Dict {ℓ} : Type ℓ → Type ℓ
Dict V = List (String × V)

module _ {ℓ} {V : Type ℓ} where
  -- m[k], with `none` for a missing key
  unfoldable pub lookup : String → Dict V → Option V
  lookup key [] = none
  lookup key ((k, v) ∷ entries) = if str_eq k key then some v else lookup key entries

  -- m[k] = v
  unfoldable pub insert : String → V → Dict V → Dict V
  insert key new [] = (key, new) ∷ []
  insert key new ((k, v) ∷ entries) =
      let rest = insert key new entries in
      if str_eq k key then (key, new) ∷ entries else (k, v) ∷ rest

  -- delete(m, k)
  unfoldable pub delete : String → Dict V → Dict V
  delete key [] = []
  delete key ((k, v) ∷ entries) =
      let rest = delete key entries in if str_eq k key then rest else (k, v) ∷ rest

  pub lookup-insert :
      (key other : String) (new : V) (entries : Dict V)
      → lookup other (insert key new entries)
        ≡ (if str_eq key other then some new else lookup other entries)
  unfolding insert lookup
  lookup-insert key other new [] = refl
  lookup-insert key other new ((k, v) ∷ entries) =
      ground
        (arith, lookup-insert key other new entries, eq_iff k key, eq_iff k other, eq_iff key other)

  pub lookup-delete :
      (key other : String) (entries : Dict V)
      → lookup other (delete key entries)
        ≡ (if str_eq key other then none else lookup other entries)
  unfolding delete lookup
  lookup-delete key other [] = ground arith
  lookup-delete key other ((k, v) ∷ entries) =
      ground
        (arith, lookup-delete key other entries, eq_iff k key, eq_iff k other, eq_iff key other)

pub str_eq_comm : (k j : String) → str_eq k j ≡ str_eq j k
str_eq_comm k j = ground (arith, eq_iff k j, eq_iff j k)

-- ===== src/Ipam/Datastore/Tables.antt =====
-- Tables of values with the revisions that wrote them, and tests of keys, for a server in memory.
use text.Mathlib.Text.{◌==◌ as str_eq}
use text.Mathlib.TextEquality.{eq_iff}
use zyzxlibcalico_go.Prelude.{
  ℕ, ◌≡◌, ◌↔◌, ◌⊎◌, inl, inr, refl, ap, String, Bool, true, false, ◌&&◌, Option, none, some, List,
  [], ◌∷◌, ◌==◌, ==_iff, if◌then◌else◌, arith, Bool-cases,
}
use zyzxlibcalico_go.Ipam.Address.{Ip, v4, v6, IpNet}

abbrev pub Table : Type 0 → Type 0 → Type 0
Table K V = List (K × (V × ℕ))

module _ {K V : Type 0} (same : K → K → Bool) where
  abbrev pub find : K → Table K V → Option (V × ℕ)
  find k [] = none
  find k ((j, e) ∷ t) = if same j k then some e else find k t

  abbrev pub save : K → V × ℕ → Table K V → Table K V
  save k e [] = (k, e) ∷ []
  save k e ((j, f) ∷ t) = let rest = save k e t in if same j k then (k, e) ∷ t else (j, f) ∷ rest

  abbrev pub remove : K → Table K V → Table K V
  remove k [] = []
  remove k ((j, f) ∷ t) = let rest = remove k t in if same j k then rest else (j, f) ∷ rest

  module _ (right : (j k : K) → (same j k ≡ true) ↔ (j ≡ k)) where
    pub find-save : (k : K) (e : V × ℕ) (t : Table K V) → find k (save k e t) ≡ some e
    find-save k e [] = rw ((right k k).1 refl) refl
    find-save k e ((j, f) ∷ t) = elim (Bool-cases (same j k)) [
      | inl here ↦ rw here (rw ((right k k).1 refl) refl)
      | inr there ↦ rw there (rw there (find-save k e t))
    ]

    find-save_other :
        (k i : K) (e : V × ℕ) (t : Table K V) → same k i ≡ false → find i (save k e t) ≡ find i t
    find-save_other k i e [] apart = rw apart refl
    find-save_other k i e ((j, f) ∷ t) apart = elim (Bool-cases (same j k)) [
      | inl here ↦
          (let other : same j i ≡ false = rw ((right j k).0 here) apart in
            rw here (rw apart (rw other refl)))
      | inr there ↦ rw there (rw (find-save_other k i e t apart) refl)
    ]

    pub find-remove : (k : K) (t : Table K V) → find k (remove k t) ≡ none
    find-remove k [] = refl
    find-remove k ((j, f) ∷ t) = elim (Bool-cases (same j k)) [
      | inl here ↦ rw here (find-remove k t)
      | inr there ↦ rw there (rw there (find-remove k t))
    ]

    find-remove_other :
        (k i : K) (t : Table K V) → same k i ≡ false → find i (remove k t) ≡ find i t
    find-remove_other k i [] apart = refl
    find-remove_other k i ((j, f) ∷ t) apart = elim (Bool-cases (same j k)) [
      | inl here ↦
          (let other : same j i ≡ false = rw ((right j k).0 here) apart in
            rw here (rw other (find-remove_other k i t apart)))
      | inr there ↦ rw there (rw (find-remove_other k i t apart) refl)
    ]

abbrev pub ip_same : Ip → Ip → Bool
ip_same (v4 m) (v4 n) = m == n
ip_same (v6 m) (v6 n) = m == n
ip_same _ _ = false

abbrev pub net_same : IpNet → IpNet → Bool
net_same a b = ip_same a.ip b.ip && (a.ones == b.ones) && (a.size == b.size)

abbrev pub pair_same : String × IpNet → String × IpNet → Bool
pair_same a b = str_eq a.0 b.0 && net_same a.1 b.1

pub ip_same_iff : (a b : Ip) → (ip_same a b ≡ true) ↔ (a ≡ b)
ip_same_iff (v4 m) (v4 n) = (λ h. ap v4 ((==_iff m n).0 h), λ e. ground arith)
ip_same_iff (v6 m) (v6 n) = (λ h. ap v6 ((==_iff m n).0 h), λ e. ground arith)
ip_same_iff (v4 m) (v6 n) = (λ h. cc, λ e. absurd cc)
ip_same_iff (v6 m) (v4 n) = (λ h. cc, λ e. absurd cc)

pub net_same_iff : (a b : IpNet) → (net_same a b ≡ true) ↔ (a ≡ b)
net_same_iff a b = ground (arith, ip_same_iff a.ip b.ip, ==_iff a.ones b.ones, ==_iff a.size b.size)

pub pair_same_iff : (a b : String × IpNet) → (pair_same a b ≡ true) ↔ (a ≡ b)
pair_same_iff a b = ground (arith, eq_iff a.0 b.0, net_same_iff a.1 b.1)

abbrev pub unit_same : Unit {0} → Unit {0} → Bool
unit_same a b = true

pub unit_same_iff : (a b : Unit {0}) → (unit_same a b ≡ true) ↔ (a ≡ b)
unit_same_iff a b = (λ h. refl, λ e. refl)

module _ {K V : Type 0} (same : K → K → Bool)
    (right : (j k : K) → (same j k ≡ true) ↔ (j ≡ k)) where
  pub found_other :
      (k i : K) (e : V × ℕ) (t : Table K V)
      → (k ≡ i) ⊎ (find same i (save same k e t) ≡ find same i t)
  found_other k i e t = elim (Bool-cases (same k i)) [
    | inl h ↦ inl ((right k i).0 h)
    | inr h ↦ inr (find-save_other same right k i e t h)
  ]

  pub left_other :
      (k i : K) (t : Table K V) → (k ≡ i) ⊎ (find same i (remove same k t) ≡ find same i t)
  left_other k i t = elim (Bool-cases (same k i)) [
    | inl h ↦ inl ((right k i).0 h)
    | inr h ↦ inr (find-remove_other same right k i t h)
  ]

-- ===== src/Ipam/Client/Config/Valid.antt =====
-- The configuration that GetIPAMConfig and SetIPAMConfig of lib/ipam/ipam.go read and write among other
-- clients, and the limit that autoAssign makes of it.
use mathlib.Core.Path.{subst}
use zyzxlibcalico_go.Prelude.{
  ℕ, ◌≤◌, ◌<◌, ◌≡◌, refl, ap, ◌∙◌, ◌⊎◌, inl, inr, if◌then◌else◌, Bool-cases, ◌==◌, ==_iff, ltb,
  Bool, true, false, not, ◌&&◌, Option, arith, none, some,
}
use zyzxlibcalico_go.Prelude.Integers.{ℤ, pos, negsuc, pos_part, is_zero, is_negative, same_int→≡}
use zyzxlibcalico_go.Ipam.Datastore.{ipam_config, IpamConfig, valid_config, Etcd, IsLawful}
use zyzxlibcalico_go.Ipam.Datastore.Moves.{Kept, IsStore, Moves, Moves-refl}
use zyzxlibcalico_go.Ipam.Datastore.Programs.{returning}
use zyzxlibcalico_go.Ipam.Datastore.Programs.Logic.{Ensures, Ensures-moved, Ensures->>=, Ensures-if}
use zyzxlibcalico_go.Ipam.Datastore.Programs.Rules.{Ensures-get, Ensures-apply}
use zyzxlibcalico_go.Ipam.Datastore.Programs.Missing.{Ensures-get_missing}
use zyzxlibcalico_go.Ipam.ReaderWriter.{IpamError, Attempt, done, failed, is_does_not_exist}
use zyzxlibcalico_go.Ipam.ReaderWriter.Claiming.{OnDone}
use zyzxlibcalico_go.Ipam.Client.Config.{
  default_config, checked_config, stored_config, get_ipam_config, equal_bool, equal_config,
  merged_limit, applied, apply_config, old_config, change_config, set_ipam_config, max_num_blocks,
}

abbrev config_or_default : Option (IpamConfig × ℕ) → IpamConfig
config_or_default none = default_config
config_or_default (some (c, n)) = c

-- The configuration of the store: the default one if there is none.
abbrev pub current_config : (E : Etcd) → E.State → IpamConfig
current_config E s = config_or_default (E.get (ipam_config, tt) s)

-- How SetIPAMConfig ends.
abbrev pub Accepted : (E : Etcd) → Bool → IpamConfig → E.State → Attempt (Unit {0}) → Type 0
Accepted E windows cfg s (done u) = (current_config E s ≡ cfg) × (valid_config cfg ≡ true)
Accepted E windows cfg s (failed e) = elim e [
  | IpamError.store_error e ↦ Unit
  | IpamError.strict_affinity_required ↦
      (windows ≡ true) × ((current_config E s).strict_affinity ≡ false)
  | IpamError.invalid_config ↦ valid_config cfg ≡ false
  | _ ↦ ⊥
]

-- The configuration of the store is valid.
abbrev pub StoresValid : (E : Etcd) → E.State → Type 0
StoresValid E s =
    (c : IpamConfig) (n : ℕ) → E.get (ipam_config, tt) s ≡ some (c, n) → valid_config c ≡ true

-- Affinity was strict at one moment, if the client runs on Windows.
abbrev pub WasStrict : (E : Etcd) → Kept → Bool → E.State → E.State → Type 0
WasStrict E K windows before after =
    (windows ≡ false)
    ⊎ ((s : E.State) × Moves E K before s
        × Moves E K s after
        × ((current_config E s).strict_affinity ≡ true))

-- How GetIPAMConfig ends.
abbrev pub Gets : (E : Etcd) → Bool → E.State → Attempt IpamConfig → Type 0
Gets E windows s (done c) =
    (current_config E s ≡ c)
    × (valid_config c ≡ true)
    × ((windows ≡ false) ⊎ (c.strict_affinity ≡ true))
Gets E windows s (failed e) = elim e [
  | IpamError.store_error e ↦ Unit
  | IpamError.strict_affinity_required ↦
      (windows ≡ true) × ((current_config E s).strict_affinity ≡ false)
  | _ ↦ ⊥
]

equal_bool→≡ : (a b : Bool) → equal_bool a b ≡ true → a ≡ b
equal_bool→≡ true true h = refl
equal_bool→≡ true false h = cc
equal_bool→≡ false true h = cc
equal_bool→≡ false false h = refl

all_three : (a b c : Bool) → (a && b && c) ≡ true → (a ≡ true) × (b ≡ true) × (c ≡ true)
all_three a b c h = (ground (arith, h), ground (arith, h), ground (arith, h))

equal_config→≡ : (a b : IpamConfig) → equal_config a b ≡ true → a ≡ b
equal_config→≡ a b h =
    let (strict, auto, most) = all_three _ _ _ h in
    let strict_same = equal_bool→≡ a.strict_affinity b.strict_affinity strict in
    let auto_same = equal_bool→≡ a.auto_allocate_blocks b.auto_allocate_blocks auto in
    let most_same = same_int→≡ a.max_blocks_per_host b.max_blocks_per_host most in cc

module _ (E : Etcd) (K : Kept) (lawful : IsLawful E) (windows : Bool) where
  abbrev IsGet : E.State → Attempt IpamConfig → Type 0
  IsGet s r = Gets E windows s r

  checked_config_lem :
      (c : IpamConfig) (s : E.State)
      → current_config E s ≡ c
      → valid_config c ≡ true
      → Ensures E K IsGet s (checked_config windows c)
  unfolding Ensures
  checked_config_lem c s is valid =
      Ensures-if E K IsGet s (windows && not c.strict_affinity) _ _
        (λ t. (ground (arith, t), ap (λ c. c.strict_affinity) is ∙ ground (arith, t)))
        (λ t. (is, valid, grind (arith, t)))

  -- GetIPAMConfig returns the configuration of the store, which is valid, or an error that its cause
  -- explains.
  pub get_ipam_config_lem : (s : E.State) → Ensures E K IsGet s (get_ipam_config windows)
  unfolding get_ipam_config Ensures
  get_ipam_config_lem s =
      Ensures-get_missing E K lawful IsGet ipam_config tt (stored_config windows) s (λ s1 m. tt)
        (λ s1 m gone. checked_config_lem default_config s1 (ap config_or_default gone) refl)
        (λ s1 c n m at.
          checked_config_lem c s1 (ap config_or_default at)
            (m.store.good (ipam_config, tt) c n at).0)

  module _ (cfg : IpamConfig) where
    abbrev Post : E.State → Attempt (Unit {0}) → Type 0
    Post s r = Accepted E windows cfg s r

    apply_config_lem :
        (s : E.State) (rev : Option ℕ)
        → valid_config cfg ≡ true
        → Ensures E K Post s (apply_config cfg rev)
    unfolding Ensures
    apply_config_lem s rev valid =
        Ensures-apply E K lawful Post ipam_config tt applied cfg s rev valid (λ s1 old n m at. tt)
          (λ s1 e current m. tt) (λ s1 m s2 m2 at. (ap config_or_default at, valid))

    change_config_lem :
        (s : E.State) (r : Attempt IpamConfig)
        → IsGet s r
        → Ensures E K Post s (change_config cfg r)
    unfolding Ensures
    change_config_lem s (done current) (is, valid, strict) =
        Ensures-if E K Post s (equal_config current cfg) _ _
          (λ same.
            (let e = equal_config→≡ current cfg same in
              (is ∙ e, subst (λ c. valid_config c ≡ true) e valid)))
          (λ differs.
            Ensures-if E K Post s (valid_config cfg) _ _
              (λ ok.
                Ensures-get E K lawful Post ipam_config tt (old_config cfg) s
                  (λ s1 e current m.
                    Ensures-if E K Post s1 (is_does_not_exist e) _ _
                      (λ c. apply_config_lem s1 none ok) (λ c. tt))
                  (λ s1 old n m at. apply_config_lem s1 (some n) ok))
              (λ bad. bad))
    change_config_lem s (failed e) explained = go e explained
      where
        go :
            (e : IpamError)
            → Gets E windows s (failed e)
            → Ensures E K Post s (returning (failed e))
        go (IpamError.store_error e) x = tt
        go IpamError.strict_affinity_required x = x
        go _ x = absurd x

  module _ (cfg : IpamConfig) (s0 : E.State) where
    Ends : E.State → Attempt (Unit {0}) → Type 0
    Ends s r = Accepted E windows cfg s r × OnDone E K (λ s u. WasStrict E K windows s0 s) s r

    done-Ends :
        (s1 s : E.State) (c : IpamConfig) (r : Attempt (Unit {0}))
        → IsGet s1 (done c)
        → Moves E K s0 s1
        → Moves E K s1 s
        → Accepted E windows cfg s r
        → Ends s r
    unfolding Ends
    done-Ends s1 s c (failed e) x m m2 accepted = (accepted, tt)
    done-Ends s1 s c (done u) (is, valid, strict) m m2 accepted = (
      accepted,
      elim strict [
        | inl other ↦ inl other
        | inr strict ↦ inr (s1, m, m2, ap (λ c. c.strict_affinity) is ∙ strict)
      ],
    )

    change_config-Ends :
        (s1 : E.State) (r : Attempt IpamConfig)
        → Moves E K s0 s1
        → IsGet s1 r
        → Ensures E K Ends s1 (change_config cfg r)
    unfolding Ensures Ends
    change_config-Ends s1 (failed e) m x = (change_config_lem cfg s1 (failed e) x, tt)
    change_config-Ends s1 (done c) m x =
        Ensures-moved E K (λ s r. Accepted E windows cfg s r) Ends s1 s1
          (change_config cfg (done c)) (λ s2 r2 m2 accepted. done-Ends s1 s2 c r2 x m m2 accepted)
          (Moves-refl E K s1 m.store) (change_config_lem cfg s1 (done c) x)

    set_ipam_config-Ends : IsStore E s0 → Ensures E K Ends s0 (set_ipam_config windows cfg)
    unfolding set_ipam_config
    set_ipam_config-Ends g =
        Ensures->>= E K IsGet Ends s0 (get_ipam_config windows) (change_config cfg) g
          (get_ipam_config_lem s0) (λ s1 r m x. change_config-Ends s1 r m x)

    -- SetIPAMConfig is done only with a configuration that is valid and is then the one of the store,
    -- on Windows after affinity was strict, and an error that it returns has its cause.
    pub set_ipam_config_lem :
        IsStore E s0
        → Ensures E K
            (λ s r.
              Accepted E windows cfg s r
              × OnDone E K (λ s u. WasStrict E K windows s0 s) s r
              × StoresValid E s)
            s0
            (set_ipam_config windows cfg)
    unfolding Ends
    set_ipam_config_lem g =
        Ensures-moved E K Ends _ s0 s0 (set_ipam_config windows cfg)
          (λ s1 r m x. (x.0, x.1, λ c n at. (m.store.good (ipam_config, tt) c n at).0))
          (Moves-refl E K s0 g) (set_ipam_config-Ends g)

-- A limit of blocks, by its sign. A positive one comes of no negative request, is no greater than
-- either limit that is positive, and is one of them, or 20 if neither is positive. A negative one is the
-- request's, or the configuration's if the request's is zero.
abbrev pub LimitOf : ℤ → ℤ → ℤ → Type 0
LimitOf (pos n) global requested =
    (0 < n)
    × (is_negative requested ≡ false)
    × ((pos_part global ≡ 0) ⊎ (n ≤ pos_part global))
    × ((pos_part requested ≡ 0) ⊎ (n ≤ pos_part requested))
    × ((n ≡ pos_part global)
        ⊎ (n ≡ pos_part requested)
        ⊎ ((n ≡ 20) × (pos_part global ≡ 0) × (pos_part requested ≡ 0)))
LimitOf (negsuc n) global requested =
    (requested ≡ negsuc n) ⊎ ((requested ≡ pos 0) × (global ≡ negsuc n))

-- The limit of blocks is never zero. A negative one is the request's, or the configuration's if the
-- request's is zero. A positive one comes of no negative request, is no greater than either limit that
-- is positive, and is one of them, or 20 if neither is positive.
pub max_num_blocks_lem :
    (config : IpamConfig) (requested : ℤ)
    → LimitOf (max_num_blocks config requested) config.max_blocks_per_host requested
unfolding max_num_blocks
max_num_blocks_lem config requested = go config.max_blocks_per_host requested
  where
    go :
        (global requested : ℤ)
        → LimitOf
            (let limit = merged_limit global requested in if is_zero limit then pos 20 else limit)
            global
            requested
    go (pos g) (pos r) = elim (Bool-cases (ltb 0 g && ltb 0 r && ltb g r)) [
      | inl smaller ↦
          (let set : (g == 0) ≡ false = ground (arith, smaller) in
            rw smaller (rw set (ground arith, refl, inr (omega arith), grind arith, inl refl)))
      | inr other ↦ rw other (elim (Bool-cases (r == 0)) [
        | inl unset ↦ rw unset (elim (Bool-cases (g == 0)) [
          | inl zero_too ↦
              rw zero_too (omega arith, refl, inl (ground arith), inl (ground arith), grind arith)
          | inr set ↦ rw set (ground arith, refl, inr (omega arith), inl (ground arith), inl refl)
        ])
        | inr set ↦
            rw set (rw set (ground arith, refl, grind arith, inr (omega arith), inr (inl refl)))
      ])
    ]
    go (pos g) (negsuc r) = elim (Bool-cases (ltb 0 g)) [
      | inl set ↦ rw set (inl refl)
      | inr unset ↦ rw unset (inl refl)
    ]
    go (negsuc g) (pos r) = elim (Bool-cases (r == 0)) [
      | inl unset ↦ rw unset (inr (ap pos ((==_iff r 0).0 unset), refl))
      | inr set ↦ rw set (rw set (ground arith, refl, inl refl, inr (omega arith), inr (inl refl)))
    ]
    go (negsuc g) (negsuc r) = inl refl

-- ===== src/Ipam/Datastore/Programs.antt =====
-- A client of the datastore as a program: what it computes between its requests. Between any two of
-- them, other clients may change the store.
pub mod Logic
pub mod Rules
pub mod Missing
use zyzxlibcalico_go.Prelude.{ℕ, zero, suc, List, [], Bool}
use zyzxlibcalico_go.Ipam.Datastore.{
  Kind, KeyOf, Key, Etcd, KvPair, Reply, Fate, create, update, apply, delete_kvp, get, list,
  ListReply,
}

pub data Request (r : Kind) : Type 0 where
  create_request update_request apply_request delete_request : KvPair r → Request r
  get_request : KeyOf r → Request r

-- `panicking` is a panic.
pub data Program (A : Type 0) : Type 0 where
  returning : A → Program A
  panicking : Program A
  asking : (r : Kind) → Request r → (Reply r → Program A) → Program A
  listing : (r : Kind) → (KeyOf r → Bool) → (ListReply r → Program A) → Program A

infixl 5 ◌>>=◌
unfoldable pub ◌>>=◌ : {A B : Type 0} → Program A → (A → Program B) → Program B
returning a >>= f = f a
panicking >>= f = panicking
asking r q k >>= f = asking r q (λ reply. k reply >>= f)
listing r keep k >>= f = listing r keep (λ reply. k reply >>= f)

module _ (E : Etcd) where
  abbrev pub serve : (r : Kind) → Fate → Request r → E.State → Reply r × E.State
  serve r fate (create_request d) s = create E r fate d s
  serve r fate (update_request d) s = update E r fate d s
  serve r fate (apply_request d) s = apply E r fate d s
  serve r fate (delete_request d) s = delete_kvp E r fate d s
  serve r fate (get_request k) s = get E r fate k s

  -- What the others do before a request, and the fate of that request.
  pub record Turn : Type 0 where
    pub others : E.State → E.State
    pub fate : Fate

  pub data Ended (A : Type 0) : Type 0 where
    returned : A → Ended A
    panicked : Ended A

  -- A run of a program against the turns from the `t`-th on.
  unfoldable pub run : {A : Type 0} → (ℕ → Turn) → ℕ → Program A → E.State → Ended A × E.State
  run turns t (returning a) s = (returned a, s)
  run turns t panicking s = (panicked, s)
  run turns t (asking r q k) s =
      let (reply, s') = serve r (turns t).fate q ((turns t).others s) in
      run turns (suc t) (k reply) s'
  run turns t (listing r keep k) s =
      let s1 = (turns t).others s in run turns (suc t) (k (list E r (turns t).fate keep s1)) s1

-- ===== src/Revoke/Lru.antt =====
-- internal/revoke/lru.go: a cache of bounded size. The linked nodes and their index are the list of the
-- nodes from head to tail, in which a key stands once.
use egauth.Base.{
  ℕ, ◌≡◌, refl, Bool, false, List, [], ◌∷◌, if◌then◌else◌, eqb, Option, none, some, zero, suc, take,
  arith, Option-cases, inl, inr,
}
use egauth.Base.Maps.{Map, get, delete, get-delete, has_key}

pub record Lru (K V : Type 0) : Type 0 where
  pub capacity : ℕ
  pub nodes : Map K V

module _ {K V : Type 0} (dec : Discrete K) where
  abbrev pub new_lru : ℕ → Lru K V
  new_lru capacity = record { capacity = capacity; nodes = [] }

  abbrev pub cached : K → Lru K V → Option V
  cached k l = get dec k l.nodes

  -- `get`: the node that is found moves to the front.
  unfoldable pub lru_get : K → Lru K V → Lru K V × Option V
  lru_get k l = elim (cached k l) [
    | none ↦ (l, none)
    | some v ↦ (record l { nodes = (k, v) ∷ delete dec k l.nodes }, some v)
  ]

  -- `put`: a new node may push out the tail until no more than `capacity` are left.
  unfoldable pub lru_put : K → V → Lru K V → Lru K V
  lru_put k v l = elim (cached k l) [
    | some w ↦ record l { nodes = (k, v) ∷ delete dec k l.nodes }
    | none ↦ record l { nodes = take l.capacity ((k, v) ∷ l.nodes) }
  ]

  unfoldable pub lru_remove : K → Lru K V → Lru K V
  lru_remove k l = record l { nodes = delete dec k l.nodes }

  unfoldable pub lru_remove_each : List K → Lru K V → Lru K V
  lru_remove_each [] l = l
  lru_remove_each (k ∷ ks) l = lru_remove_each ks (lru_remove k l)

  -- The loop of `removeWhere` over the keys.
  unfoldable pub lru_remove_where : (K → V → Bool) → List K → Lru K V → Lru K V
  lru_remove_where p [] l = l
  lru_remove_where p (k ∷ ks) l =
      let hit : Bool = elim (cached k l) [ none ↦ false | some v ↦ p k v ] in
      lru_remove_where p ks (if hit then lru_remove k l else l)

  get-take :
      (n : ℕ) (k : K) (v : V) (m : Map K V) → get dec k (take n m) ≡ some v → get dec k m ≡ some v
  unfolding get
  get-take zero k v m e = absurd (ground arith)
  get-take (suc n) k v [] e = absurd (ground arith)
  get-take (suc n) k v ((j, w) ∷ m) e = ground (arith, get-take n k v m)

  pub cached-lru_get : (k j : K) (l : Lru K V) → cached j (lru_get k l).0 ≡ cached j l
  unfolding lru_get get
  cached-lru_get k j l = elim (Option-cases (cached k l)) [
    | inl e ↦ rw (e, lru_get) refl
    | inr (v, e) ↦
        rw (e, lru_get)
          (elim (dec k j) [
            | yes same ↦ ground arith
            | no other ↦ ground (arith, get-delete dec k j l.nodes)
          ])
  ]

  -- A put keeps the value of its key, and at most what was there under another.
  pub cached-lru_put :
      (k j : K) (v w : V) (l : Lru K V)
      → cached j (lru_put k v l) ≡ some w
      → (if eqb dec k j then some v else cached j l) ≡ some w
  unfolding lru_put get
  cached-lru_put k j v w l e = elim (Option-cases (cached k l)) [
    | inl f ↦ ground (arith, get-take l.capacity j w ((k, v) ∷ l.nodes))
    | inr (x, f) ↦ ground (arith, get-delete dec k j l.nodes)
  ]

  pub cached-lru_remove :
      (k j : K) (l : Lru K V)
      → cached j (lru_remove k l) ≡ (if eqb dec k j then none else cached j l)
  unfolding lru_remove
  cached-lru_remove k j l = get-delete dec k j l.nodes

  pub cached-lru_remove_where :
      (p : K → V → Bool) (ks : List K) (j : K) (w : V) (l : Lru K V)
      → cached j (lru_remove_where p ks l) ≡ some w
      → cached j l ≡ some w
  unfolding lru_remove_where
  cached-lru_remove_where p [] j w l e = e
  cached-lru_remove_where p (k ∷ ks) j w l e = ground (
    arith,
    cached-lru_remove_where p ks j w (lru_remove k l),
    cached-lru_remove_where p ks j w l,
    cached-lru_remove k j l,
  )

  pub cached-lru_remove_each :
      (ks : List K) (j : K) (l : Lru K V)
      → cached j (lru_remove_each ks l) ≡ (if has_key dec ks j then none else cached j l)
  unfolding lru_remove_each
  cached-lru_remove_each [] j l = refl
  cached-lru_remove_each (k ∷ ks) j l =
      ground (arith, cached-lru_remove_each ks j (lru_remove k l), cached-lru_remove k j l)

-- ===== src/Ceremony/Store/Oldest.antt =====
-- An eviction takes the oldest of the candidates.
use egauth.Base.{
  ℕ, zero, suc, ◌-◌, ◌≡◌, refl, sym, ap, ◌∙◌, Bool, true, false, not, ◌||◌, List, [], ◌∷◌, eqb, ltb,
  ◌==◌, length, drop, none, some, arith, Option-cases, Bool-cases, inl, inr,
}
use egauth.Base.Maps.{Map, get, keys, has_key}
use egauth.Ceremony.Store.{
  Key, key_discrete, CeremonyEntry, CeremonyStore, bucket_of, entry_at, keys_in, is_live,
  candidates, newer, sort_candidates, victims,
}
use egauth.Ceremony.Store.Indexed.{IsIndexed, bucket_keys}
use egauth.Ceremony.Store.Victims.{
  once_each, once_each-candidates, once_each-bucket_keys, once_each-sort_candidates,
}
use egauth.Ceremony.Store.Sorted.{is_sorted-sort_candidates, get-sort_candidates, sorted-drop}

get-candidates :
    (keep : Key) (now : ℕ) (same : CeremonyEntry → Bool) (s : CeremonyStore) (ks : List Key)
    (k : Key) (x : CeremonyEntry)
    → get key_discrete k (candidates keep now same s ks) ≡ some x
    → entry_at k s ≡ some x
unfolding candidates get
get-candidates keep now same s [] k x g = absurd (ground arith)
get-candidates keep now same s (j ∷ ks) k x g = elim (Option-cases (entry_at j s)) [
  | inl f ↦ get-candidates keep now same s ks k x (ground arith)
  | inr (e, f) ↦
      elim (Bool-cases (eqb key_discrete j keep || not (is_live e now) || not (same e))) [
        | inl out ↦ get-candidates keep now same s ks k x (ground arith)
        | inr out ↦ elim (key_discrete j k) [
          | yes eq ↦ ground arith
          | no other ↦ get-candidates keep now same s ks k x (ground arith)
        ]
      ]
]

-- A live record of the test, other than the one to keep, is a candidate.
candidates-get :
    (keep : Key) (now : ℕ) (same : CeremonyEntry → Bool) (s : CeremonyStore) (ks : List Key)
    (k : Key) (e : CeremonyEntry)
    → has_key key_discrete ks k ≡ true
    → entry_at k s ≡ some e
    → (eqb key_discrete k keep || not (is_live e now) || not (same e)) ≡ false
    → get key_discrete k (candidates keep now same s ks) ≡ some e
unfolding candidates get
candidates-get keep now same s [] k e i at fits = absurd (ground arith)
candidates-get keep now same s (j ∷ ks) k e i at fits = elim (key_discrete j k) [
  | yes eq ↦ ground arith
  | no other ↦ elim (Option-cases (entry_at j s)) [
    | inl f ↦ ground (arith, candidates-get keep now same s ks k e)
    | inr (x, f) ↦ ground (arith, candidates-get keep now same s ks k e)
  ]
]

bucket_keys-has :
    (m : Map Key CeremonyEntry) (k : Key) (e : CeremonyEntry)
    → get key_discrete k m ≡ some e
    → has_key key_discrete (bucket_keys (bucket_of k) m) k ≡ true
unfolding bucket_keys get
bucket_keys-has [] k e g = absurd (ground arith)
bucket_keys-has ((j, x) ∷ m) k e g = elim (key_discrete j k) [
  | yes eq ↦ ground (arith, ap bucket_of eq)
  | no other ↦ ground (arith, bucket_keys-has m k e)
]

get-drop :
    (n : ℕ) (cs : List (Key × CeremonyEntry)) (k : Key) (x : CeremonyEntry)
    → once_each (keys cs) ≡ true
    → get key_discrete k (drop n cs) ≡ some x
    → (has_key key_discrete (keys cs) k ≡ true) × (get key_discrete k cs ≡ some x)
unfolding keys once_each get
get-drop zero [] k x o g = absurd (ground arith)
get-drop zero ((j, d) ∷ ds) k x o g = elim (key_discrete j k) [
  | yes eq ↦ (ground arith, ground arith)
  | no other ↦
      let (i, h) = get-drop zero ds k x (ground arith) (ground arith) in
      (ground arith, ground arith)
]
get-drop (suc n) [] k x o g = absurd (ground arith)
get-drop (suc n) ((j, d) ∷ ds) k x o g =
    let (i, h) = get-drop n ds k x (ground arith) g in (ground arith, ground arith)

get-has_key :
    (cs : List (Key × CeremonyEntry)) (k : Key)
    → has_key key_discrete (keys cs) k ≡ true
    → (x : CeremonyEntry) × (get key_discrete k cs ≡ some x)
unfolding keys get
get-has_key [] k i = absurd (ground arith)
get-has_key ((j, d) ∷ ds) k i = elim (key_discrete j k) [
  | yes eq ↦ (d, ground arith)
  | no other ↦ let (x, g) = get-has_key ds k (ground arith) in (x, ground arith)
]

missing-has_key :
    (cs : List (Key × CeremonyEntry)) (k : Key)
    → has_key key_discrete (keys cs) k ≡ false
    → get key_discrete k cs ≡ none
unfolding keys get
missing-has_key [] k i = refl
missing-has_key ((j, d) ∷ ds) k i = ground (arith, missing-has_key ds k)

-- In a store whose records, buckets and counts agree, a live record of the bucket that passes the test of
-- an eviction, that is not the one to keep and that the eviction leaves was created after each record
-- that the eviction removes, or at the same instant and put no earlier.
pub victims-oldest :
    (keep : Key) (now : ℕ) (same : CeremonyEntry → Bool) (limit : ℕ) (s : CeremonyStore) (k v : Key)
    (e : CeremonyEntry)
    → IsIndexed s
    → bucket_of k ≡ bucket_of keep
    → entry_at k s ≡ some e
    → (eqb key_discrete k keep || not (is_live e now) || not (same e)) ≡ false
    → has_key key_discrete (victims keep now same limit s) k ≡ false
    → has_key key_discrete (victims keep now same limit s) v ≡ true
    → (f : CeremonyEntry) × (entry_at v s ≡ some f) × (newer e f ≡ true)
unfolding victims
victims-oldest keep now same limit s k v e w bucket at fits left taken =
    let others = candidates keep now same s (keys_in (bucket_of keep) s) in
    let once : once_each (keys others) ≡ true =
      once_each-candidates keep now same s (keys_in (bucket_of keep) s) (
        ap once_each (w.bucketed (bucket_of keep))
        ∙ once_each-bucket_keys (bucket_of keep) s.rows w.distinct) in
    elim (Bool-cases (limit == 0 || ltb (length others) limit)) [
      | inl few ↦ absurd (ground arith)
      | inr many ↦
          let sorted = sort_candidates others in
          let rest = drop (limit - 1) sorted in
          let (f, tail) = get-has_key rest v (ground arith) in
          let (_, found) =
            get-drop (limit - 1) sorted v f (once_each-sort_candidates others ∙ once) tail in
          let listed : has_key key_discrete (keys_in (bucket_of keep) s) k ≡ true =
            ap (λ ks. has_key key_discrete ks k) (w.bucketed (bucket_of keep))
            ∙ ap (λ b. has_key key_discrete (bucket_keys b s.rows) k) (sym bucket)
            ∙ bucket_keys-has s.rows k e at in
          let mine =
            candidates-get keep now same s (keys_in (bucket_of keep) s) k e listed at fits in
          (
            f,
            get-candidates keep now same s (keys_in (bucket_of keep) s) v f
                (sym (get-sort_candidates others v once) ∙ found),
            sorted-drop e f (limit - 1) sorted k v (is_sorted-sort_candidates others)
                (get-sort_candidates others k once ∙ mine) (missing-has_key rest k (ground arith))
                tail,
          )
    ]

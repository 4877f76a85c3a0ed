-- ===== src/Ceremony/Store/Victims.antt =====
-- The records that an eviction removes: how many, and that each is live, of the scope and named once.
use egauth.Base.{
  ℕ, zero, suc, ◌+◌, ◌-◌, ◌≤◌, ◌≡◌, refl, ap, Bool, true, false, not, ◌&&◌, ◌||◌, List, [], ◌∷◌,
  Bytes, eqb, length, drop, if◌then◌else◌, none, some, arith, Option-cases, Bool-cases, inl, inr,
  bytes_discrete,
}
use egauth.Base.Maps.{Map, get, keys, has_key}
use egauth.Base.Counts.{absent, count_where, is_distinct}
use egauth.Ceremony.Store.{
  Key, key_discrete, CeremonyEntry, BucketKey, bucket_discrete, ScopeKey, scope_key_discrete,
  CeremonyStore, bucket_of, scope_of, entry_at, is_live, candidates, insert_candidate,
  sort_candidates, in_scope,
}
use egauth.Ceremony.Store.Indexed.{bucket_keys, of_scope}

-- A record is of a scope and live.
abbrev pub live_in : ScopeKey → ℕ → Key → CeremonyEntry → Bool
live_in sk now k e = of_scope sk k e && is_live e now

of_scope-eq :
    (bk : BucketKey) (h : Bytes) (k : Key) (e : CeremonyEntry)
    → of_scope (record { bucket = bk; scope = h }) k e
      ≡ (eqb bucket_discrete (bucket_of k) bk && in_scope h e)
of_scope-eq bk h k e =
    elim (scope_key_discrete (scope_of k e) (record { bucket = bk; scope = h })) [
      | yes same ↦
          ground (arith, ap (λ (x : ScopeKey). x.bucket) same, ap (λ (x : ScopeKey). x.scope) same)
      | no other ↦ elim (bucket_discrete (bucket_of k) bk) [
        | no b ↦ ground arith
        | yes b ↦ elim (bytes_discrete e.row.scope_hash h) [
          | no x ↦ ground arith
          | yes x ↦ absurd (other (λ i. record { bucket = b i; scope = x i }))
        ]
      ]
    ]

-- The records of a scope that are live, all but one at most, are candidates.
pub candidates-count :
    (keep : Key) (now : ℕ) (h : Bytes) (bk : BucketKey) (s : CeremonyStore)
    (m : Map Key CeremonyEntry)
    → is_distinct key_discrete m ≡ true
    → ((k : Key) (e : CeremonyEntry) → get key_discrete k m ≡ some e → entry_at k s ≡ some e)
    → count_where (live_in (record { bucket = bk; scope = h }) now) m
      ≤ length (candidates keep now (in_scope h) s (bucket_keys bk m))
        + (if absent (get key_discrete keep m) then 0 else 1)
unfolding count_where candidates bucket_keys is_distinct get
candidates-count keep now h bk s [] d inside = omega arith
candidates-count keep now h bk s ((k, e) ∷ m) d inside =
    let at : entry_at k s ≡ some e = inside k e (ground arith) in
    let rest =
      candidates-count keep now h bk s m (ground arith) (λ j x f. inside j x (ground arith)) in
    elim (Bool-cases (eqb bucket_discrete (bucket_of k) bk)) [
      | inl b ↦ elim (key_discrete k keep) [
        | yes same ↦ ground (arith, of_scope-eq bk h k e)
        | no other ↦ ground (arith, of_scope-eq bk h k e)
      ]
      | inr b ↦ ground (arith, of_scope-eq bk h k e)
    ]

length-insert_candidate :
    (c : Key × CeremonyEntry) (cs : List (Key × CeremonyEntry))
    → length (insert_candidate c cs) ≡ suc (length cs)
unfolding insert_candidate
length-insert_candidate c [] = refl
length-insert_candidate c (d ∷ ds) = ground (arith, length-insert_candidate c ds)

pub length-sort_candidates :
    (cs : List (Key × CeremonyEntry)) → length (sort_candidates cs) ≡ length cs
unfolding sort_candidates
length-sort_candidates [] = refl
length-sort_candidates (c ∷ cs) =
    ground (arith, length-insert_candidate c (sort_candidates cs), length-sort_candidates cs)

has_key-insert_candidate :
    (c : Key × CeremonyEntry) (cs : List (Key × CeremonyEntry)) (k : Key)
    → has_key key_discrete (keys (insert_candidate c cs)) k
      ≡ (eqb key_discrete (c.0) k || has_key key_discrete (keys cs) k)
unfolding insert_candidate keys
has_key-insert_candidate (j, e) [] k = refl
has_key-insert_candidate (j, e) ((i, x) ∷ ds) k =
    ground (arith, has_key-insert_candidate (j, e) ds k)

pub has_key-sort_candidates :
    (cs : List (Key × CeremonyEntry)) (k : Key)
    → has_key key_discrete (keys (sort_candidates cs)) k ≡ has_key key_discrete (keys cs) k
unfolding sort_candidates keys
has_key-sort_candidates [] k = refl
has_key-sort_candidates ((j, e) ∷ cs) k =
    ground
      (arith, has_key-insert_candidate (j, e) (sort_candidates cs) k, has_key-sort_candidates cs k)

-- No key stands twice in a list.
unfoldable pub once_each : List Key → Bool
once_each [] = true
once_each (k ∷ ks) = not (has_key key_discrete ks k) && once_each ks

once_each-insert_candidate :
    (c : Key × CeremonyEntry) (cs : List (Key × CeremonyEntry))
    → once_each (keys (insert_candidate c cs))
      ≡ (not (has_key key_discrete (keys cs) (c.0)) && once_each (keys cs))
unfolding insert_candidate keys once_each
once_each-insert_candidate (j, e) [] = refl
once_each-insert_candidate (j, e) ((i, x) ∷ ds) = elim (key_discrete i j) [
  | yes same ↦
      ground (arith, once_each-insert_candidate (j, e) ds, has_key-insert_candidate (j, e) ds i)
  | no other ↦
      ground (arith, once_each-insert_candidate (j, e) ds, has_key-insert_candidate (j, e) ds i)
]

pub once_each-sort_candidates :
    (cs : List (Key × CeremonyEntry)) → once_each (keys (sort_candidates cs)) ≡ once_each (keys cs)
unfolding sort_candidates keys once_each
once_each-sort_candidates [] = refl
once_each-sort_candidates ((j, e) ∷ cs) = ground (
  arith,
  once_each-insert_candidate (j, e) (sort_candidates cs),
  once_each-sort_candidates cs,
  has_key-sort_candidates cs j,
)

-- A part of a list that was left out does not matter to what the rest holds.
pub has_key-drop :
    (n : ℕ) (cs : List (Key × CeremonyEntry)) (k : Key)
    → has_key key_discrete (keys (drop n cs)) k ≡ true
    → has_key key_discrete (keys cs) k ≡ true
unfolding keys
has_key-drop zero cs k i = i
has_key-drop (suc n) [] k i = i
has_key-drop (suc n) ((j, e) ∷ cs) k i = ground (arith, has_key-drop n cs k)

pub once_each-drop :
    (n : ℕ) (cs : List (Key × CeremonyEntry))
    → once_each (keys cs) ≡ true
    → once_each (keys (drop n cs)) ≡ true
unfolding keys once_each
once_each-drop zero cs o = o
once_each-drop (suc n) [] o = o
once_each-drop (suc n) ((j, e) ∷ cs) o = once_each-drop n cs (ground arith)

pub length-keys-drop :
    (n : ℕ) (cs : List (Key × CeremonyEntry)) → length (keys (drop n cs)) ≡ length cs - n
unfolding keys
length-keys-drop zero [] = omega arith
length-keys-drop zero ((j, e) ∷ cs) = omega (arith, length-keys-drop zero cs)
length-keys-drop (suc n) [] = omega arith
length-keys-drop (suc n) ((j, e) ∷ cs) = omega (arith, length-keys-drop n cs)

-- A candidate is live, of the bucket and of the scope.
pub candidate-live_in :
    (keep : Key) (now : ℕ) (h : Bytes) (bk : BucketKey) (s : CeremonyStore)
    (m : Map Key CeremonyEntry) (k : Key)
    → has_key key_discrete (keys (candidates keep now (in_scope h) s (bucket_keys bk m))) k ≡ true
    → (e : CeremonyEntry) × (entry_at k s ≡ some e)
      × (live_in (record { bucket = bk; scope = h }) now k e ≡ true)
unfolding candidates bucket_keys keys
candidate-live_in keep now h bk s [] k i = absurd (ground arith)
candidate-live_in keep now h bk s ((j, x) ∷ m) k i =
    elim (Bool-cases (eqb bucket_discrete (bucket_of j) bk)) [
      | inr b ↦ candidate-live_in keep now h bk s m k (ground arith)
      | inl b ↦ elim (Option-cases (entry_at j s)) [
        | inl f ↦ candidate-live_in keep now h bk s m k (ground arith)
        | inr (e, f) ↦ elim (key_discrete j k) [
          | no other ↦ candidate-live_in keep now h bk s m k (ground arith)
          | yes same ↦
              elim (Bool-cases
                (eqb key_discrete j keep || not (is_live e now) || not (in_scope h e))) [
                  | inl out ↦ candidate-live_in keep now h bk s m k (ground arith)
                  | inr out ↦ (e, ground arith, ground (arith, of_scope-eq bk h j e))
                ]
        ]
      ]
    ]

has_key-candidates :
    (keep : Key) (now : ℕ) (same : CeremonyEntry → Bool) (s : CeremonyStore) (ks : List Key)
    (k : Key)
    → has_key key_discrete (keys (candidates keep now same s ks)) k ≡ true
    → has_key key_discrete ks k ≡ true
unfolding candidates keys
has_key-candidates keep now same s [] k i = i
has_key-candidates keep now same s (j ∷ ks) k i = elim (Option-cases (entry_at j s)) [
  | inl f ↦ ground (arith, has_key-candidates keep now same s ks k)
  | inr (e, f) ↦ ground (arith, has_key-candidates keep now same s ks k)
]

pub once_each-candidates :
    (keep : Key) (now : ℕ) (same : CeremonyEntry → Bool) (s : CeremonyStore) (ks : List Key)
    → once_each ks ≡ true
    → once_each (keys (candidates keep now same s ks)) ≡ true
unfolding candidates keys once_each
once_each-candidates keep now same s [] o = refl
once_each-candidates keep now same s (j ∷ ks) o = elim (Option-cases (entry_at j s)) [
  | inl f ↦ ground (arith, once_each-candidates keep now same s ks)
  | inr (e, f) ↦
      ground
        (arith, once_each-candidates keep now same s ks, has_key-candidates keep now same s ks j)
]

has_key-bucket_keys :
    (bk : BucketKey) (m : Map Key CeremonyEntry) (k : Key)
    → get key_discrete k m ≡ none
    → has_key key_discrete (bucket_keys bk m) k ≡ false
unfolding bucket_keys get
has_key-bucket_keys bk [] k e = refl
has_key-bucket_keys bk ((j, x) ∷ m) k e = ground (arith, has_key-bucket_keys bk m k)

pub once_each-bucket_keys :
    (bk : BucketKey) (m : Map Key CeremonyEntry)
    → is_distinct key_discrete m ≡ true
    → once_each (bucket_keys bk m) ≡ true
unfolding bucket_keys once_each is_distinct
once_each-bucket_keys bk [] d = refl
once_each-bucket_keys bk ((j, x) ∷ m) d = elim (Option-cases (get key_discrete j m)) [
  | inl f ↦ ground (arith, once_each-bucket_keys bk m, has_key-bucket_keys bk m j f)
  | inr (y, f) ↦ absurd (ground arith)
]

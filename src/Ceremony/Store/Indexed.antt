-- ===== src/Ceremony/Store/Indexed.antt =====
-- The records, the buckets and the counts of the scopes agree.
use egauth.Base.{
  ℕ, ◌+◌, ◌-◌, ◌≡◌, refl, sym, ◌∙◌, Bool, true, false, List, [], ◌∷◌, eqb, ◌==◌, is_empty,
  if◌then◌else◌, none, some, arith, Option-cases, Bool-cases, inl, inr,
}
use egauth.Base.Maps.{Map, get, put, delete, get-put, get-delete}
use egauth.Base.Counts.{
  count_where, is_distinct, is_distinct-put, is_distinct-delete, count_where-put,
  count_where-replaced, count_where-delete,
}
use egauth.Ceremony.Store.{
  Key, key_discrete, CeremonyEntry, BucketKey, bucket_discrete, ScopeKey, scope_key_discrete,
  CeremonyStore, new_ceremony_store, bucket_of, scope_of, entry_at, keys_in, scope_count, add_key,
  remove_key, insert_entry, remove_entry, remove_each,
}
use egauth.Ceremony.Store.Calls.{key_of_row, charged}

-- The keys of a bucket, from the records.
unfoldable pub bucket_keys : BucketKey → Map Key CeremonyEntry → List Key
bucket_keys bk [] = []
bucket_keys bk ((k, e) ∷ m) =
    let rest = bucket_keys bk m in if eqb bucket_discrete (bucket_of k) bk then k ∷ rest else rest

-- A record is of a scope.
abbrev pub of_scope : ScopeKey → Key → CeremonyEntry → Bool
of_scope sk k e = eqb scope_key_discrete (scope_of k e) sk

pub record IsIndexed (s : CeremonyStore) : Type 0 where
  pub keyed : (k : Key) (e : CeremonyEntry) → entry_at k s ≡ some e → key_of_row e.row ≡ k
  pub bucketed : (bk : BucketKey) → keys_in bk s ≡ bucket_keys bk s.rows
  pub counted : (sk : ScopeKey) → scope_count sk s ≡ count_where (of_scope sk) s.rows
  pub distinct : is_distinct key_discrete s.rows ≡ true

pub new_ceremony_store-IsIndexed : IsIndexed new_ceremony_store
unfolding get bucket_keys count_where is_distinct
new_ceremony_store-IsIndexed = record {
  keyed = λ k e f. cc;
  bucketed = λ bk. refl;
  counted = λ sk. refl;
  distinct = refl;
}

bucket_keys-put :
    (bk : BucketKey) (k : Key) (e : CeremonyEntry) (m : Map Key CeremonyEntry)
    → get key_discrete k m ≡ none
    → bucket_keys bk (put key_discrete k e m) ≡ (
        if eqb bucket_discrete (bucket_of k) bk
        then add_key k (bucket_keys bk m)
        else bucket_keys bk m)
unfolding bucket_keys put get add_key
bucket_keys-put bk k e [] f = refl
bucket_keys-put bk k e ((j, x) ∷ m) f = ground (arith, bucket_keys-put bk k e m)

bucket_keys-replaced :
    (bk : BucketKey) (k : Key) (e x : CeremonyEntry) (m : Map Key CeremonyEntry)
    → get key_discrete k m ≡ some x
    → bucket_keys bk (put key_discrete k e m) ≡ bucket_keys bk m
unfolding bucket_keys put get
bucket_keys-replaced bk k e x [] f = absurd (ground arith)
bucket_keys-replaced bk k e x ((j, y) ∷ m) f = elim (key_discrete j k) [
  | yes same ↦ ground arith
  | no other ↦ ground (arith, bucket_keys-replaced bk k e x m)
]

bucket_keys-delete :
    (bk : BucketKey) (k : Key) (m : Map Key CeremonyEntry)
    → bucket_keys bk (delete key_discrete k m) ≡ remove_key k (bucket_keys bk m)
unfolding bucket_keys delete remove_key
bucket_keys-delete bk k [] = refl
bucket_keys-delete bk k ((j, x) ∷ m) = ground (arith, bucket_keys-delete bk k m)

-- Removing a key of another bucket leaves the bucket.
remove_key-other :
    (bk : BucketKey) (k : Key) (m : Map Key CeremonyEntry)
    → eqb bucket_discrete (bucket_of k) bk ≡ false
    → remove_key k (bucket_keys bk m) ≡ bucket_keys bk m
unfolding bucket_keys remove_key
remove_key-other bk k [] f = refl
remove_key-other bk k ((j, x) ∷ m) f = elim (key_discrete j k) [
  | yes same ↦ ground (arith, remove_key-other bk k m)
  | no other ↦ ground (arith, remove_key-other bk k m)
]

pub insert_entry-IsIndexed :
    (k : Key) (e : CeremonyEntry) (n : ℕ) (s : CeremonyStore)
    → IsIndexed s
    → entry_at k s ≡ none
    → key_of_row e.row ≡ k
    → IsIndexed (insert_entry k e (record s { seq = n }))
unfolding insert_entry
insert_entry-IsIndexed k e n s w fresh named = record {
  keyed = λ j x f. elim (key_discrete k j) [
    | yes same ↦ ground (arith, get-put key_discrete k j e s.rows)
    | no other ↦ w.keyed j x (ground (arith, get-put key_discrete k j e s.rows))
  ];
  bucketed = λ bk. ground (
    arith,
    get-put bucket_discrete (bucket_of k) bk (add_key k (keys_in (bucket_of k) s)) s.buckets,
    bucket_keys-put bk k e s.rows fresh,
    w.bucketed bk,
    w.bucketed (bucket_of k),
  );
  counted = λ sk. ground (
    arith,
    get-put scope_key_discrete (scope_of k e) sk (scope_count (scope_of k e) s + 1) s.scopes,
    count_where-put key_discrete (of_scope sk) k e s.rows fresh,
    w.counted sk,
    w.counted (scope_of k e),
  );
  distinct = is_distinct-put key_discrete k e s.rows w.distinct;
}

-- A record, its key in the bucket and its count, left out.
abbrev without : Key → CeremonyEntry → CeremonyStore → CeremonyStore
without k e s = record s {
  rows = delete key_discrete k s.rows;
  buckets =
      if is_empty (remove_key k (keys_in (bucket_of k) s))
      then delete bucket_discrete (bucket_of k) s.buckets
      else put bucket_discrete (bucket_of k) (remove_key k (keys_in (bucket_of k) s)) s.buckets;
  scopes =
      if scope_count (scope_of k e) s - 1 == 0
      then delete scope_key_discrete (scope_of k e) s.scopes
      else put scope_key_discrete (scope_of k e) (scope_count (scope_of k e) s - 1) s.scopes;
}

keys_in-without :
    (k : Key) (e : CeremonyEntry) (s : CeremonyStore) (bk : BucketKey)
    → keys_in bk (without k e s) ≡ (
        if eqb bucket_discrete (bucket_of k) bk
        then remove_key k (keys_in (bucket_of k) s)
        else keys_in bk s)
keys_in-without k e s bk = elim (Bool-cases (is_empty (remove_key k (keys_in (bucket_of k) s)))) [
  | inl f ↦ ground (arith, get-delete bucket_discrete (bucket_of k) bk s.buckets)
  | inr f ↦ ground (
    arith,
    get-put bucket_discrete (bucket_of k) bk (remove_key k (keys_in (bucket_of k) s)) s.buckets,
  )
]

scope_count-without :
    (k : Key) (e : CeremonyEntry) (s : CeremonyStore) (sk : ScopeKey)
    → scope_count sk (without k e s)
      ≡ (if of_scope sk k e then scope_count (scope_of k e) s - 1 else scope_count sk s)
scope_count-without k e s sk = elim (Bool-cases (scope_count (scope_of k e) s - 1 == 0)) [
  | inl f ↦ ground (arith, get-delete scope_key_discrete (scope_of k e) sk s.scopes)
  | inr f ↦ ground (
    arith,
    get-put scope_key_discrete (scope_of k e) sk (scope_count (scope_of k e) s - 1) s.scopes,
  )
]

without-IsIndexed :
    (k : Key) (e : CeremonyEntry) (s : CeremonyStore)
    → IsIndexed s
    → entry_at k s ≡ some e
    → IsIndexed (without k e s)
without-IsIndexed k e s w at = record {
  keyed = λ j x f. w.keyed j x (ground (arith, get-delete key_discrete k j s.rows));
  bucketed = λ bk. elim (Bool-cases (eqb bucket_discrete (bucket_of k) bk)) [
    | inl f ↦ ground (
      arith,
      keys_in-without k e s bk,
      bucket_keys-delete bk k s.rows,
      w.bucketed bk,
      w.bucketed (bucket_of k),
    )
    | inr f ↦ ground (
      arith,
      keys_in-without k e s bk,
      bucket_keys-delete bk k s.rows,
      w.bucketed bk,
      remove_key-other bk k s.rows f,
    )
  ];
  counted = λ sk. ground (
    arith,
    scope_count-without k e s sk,
    count_where-delete key_discrete (of_scope sk) k e s.rows w.distinct at,
    w.counted sk,
    w.counted (scope_of k e),
  );
  distinct = is_distinct-delete key_discrete k s.rows w.distinct;
}

pub remove_entry-IsIndexed :
    (k : Key) (s : CeremonyStore) → IsIndexed s → IsIndexed (remove_entry k s)
unfolding remove_entry
remove_entry-IsIndexed k s w = elim (Option-cases (entry_at k s)) [
  | inl f ↦ rw (f, remove_entry) w
  | inr (e, f) ↦ rw (f, remove_entry) (without-IsIndexed k e s w f)
]

pub remove_each-IsIndexed :
    (ks : List Key) (s : CeremonyStore) → IsIndexed s → IsIndexed (remove_each ks s)
unfolding remove_each
remove_each-IsIndexed [] s w = w
remove_each-IsIndexed (k ∷ ks) s w =
    remove_each-IsIndexed ks (remove_entry k s) (remove_entry-IsIndexed k s w)

pub charged-IsIndexed :
    (k : Key) (e : CeremonyEntry) (s : CeremonyStore)
    → IsIndexed s
    → entry_at k s ≡ some e
    → IsIndexed (record s { rows = put key_discrete k (charged e) s.rows })
charged-IsIndexed k e s w at = record {
  keyed = λ j x f. elim (key_discrete k j) [
    | yes same ↦ ground (arith, get-put key_discrete k j (charged e) s.rows, w.keyed k e at)
    | no other ↦ w.keyed j x (ground (arith, get-put key_discrete k j (charged e) s.rows))
  ];
  bucketed = λ bk. w.bucketed bk ∙ sym (bucket_keys-replaced bk k (charged e) e s.rows at);
  counted = λ sk.
      w.counted sk
      ∙ sym (count_where-replaced key_discrete (of_scope sk) k (charged e) e s.rows at refl);
  distinct = is_distinct-put key_discrete k (charged e) s.rows w.distinct;
}

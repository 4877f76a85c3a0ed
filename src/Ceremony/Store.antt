-- ===== src/Ceremony/Store.antt =====
-- store/ceremony/memory/store.go: records by tenant, kind and handle, with the keys of each tenant and
-- kind, the number of records of each scope, and the marks of stateless handles. A `*entry` is the
-- entry that `rows` has under its key, so a bucket is the list of its keys. `ctx` tells that the
-- context is done, and `now` is the reading of the store's clock.
pub mod Calls
pub mod Sweeps
pub mod Single
pub mod Failures
pub mod Indexed
pub mod Writes
pub mod Run
pub mod Victims
pub mod Cap
pub mod Newest
pub mod Sorted
pub mod Oldest
use egauth.Base.{
  ℕ, zero, ◌+◌, ◌-◌, ◌%◌, ◌^◌, Bool, true, false, not, ◌&&◌, ◌||◌, List, [], ◌∷◌, ◌++◌, Bytes,
  length, is_empty, if◌then◌else◌, any, eqb, ltb, leb, ◌==◌, Option, none, some, Result, ok, err,
  ◌>>=◌, ◌>>◌, refuse_if, bytes_discrete, drop,
}
use egauth.Base.Maps.{Map, get, put, delete, keys}
use egauth.Sessions.Store.{micro, next_seq}
use egauth.Ceremony.Kind.{Kind, kind_discrete, kind_valid, stateless}
use egauth.Ceremony.Kind.Limits.{max_live_per_scope, max_live_per_tenant, max_attempts}
use egauth.Ceremony.Record.{
  CeremonyError, ceremony_cancelled, invalid_ceremony, handle_too_short, stored_kind,
  ceremony_conflict, ceremony_not_found, handle_hash_len, CeremonyRow, Record, restore_ceremony,
  validate_record,
}

pub record Key : Type 0 where
  pub tenant : Bytes
  pub kind : Kind
  pub handle : Bytes

unfoldable pub key_discrete : Discrete Key
unfolding bytes_discrete kind_discrete
key_discrete = hlevel (bytes_discrete, kind_discrete)

pub record CeremonyEntry : Type 0 where
  pub row : CeremonyRow
  pub seq : ℕ

pub record BucketKey : Type 0 where
  pub tenant : Bytes
  pub kind : Kind

unfoldable pub bucket_discrete : Discrete BucketKey
unfolding bytes_discrete kind_discrete
bucket_discrete = hlevel (bytes_discrete, kind_discrete)

pub record ScopeKey : Type 0 where
  pub bucket : BucketKey
  pub scope : Bytes

unfoldable pub scope_key_discrete : Discrete ScopeKey
unfolding bytes_discrete bucket_discrete
scope_key_discrete = hlevel (bytes_discrete, bucket_discrete)

pub record CeremonyStore : Type 0 where
  pub seq : ℕ
  pub rows : Map Key CeremonyEntry
  pub buckets : Map BucketKey (List Key)
  pub scopes : Map ScopeKey ℕ
  pub consumed : Map Key ℕ

abbrev pub new_ceremony_store : CeremonyStore
new_ceremony_store = record { seq = 0; rows = []; buckets = []; scopes = []; consumed = [] }

abbrev pub bucket_of : Key → BucketKey
bucket_of k = record { tenant = k.tenant; kind = k.kind }

abbrev pub scope_of : Key → CeremonyEntry → ScopeKey
scope_of k e = record { bucket = bucket_of k; scope = e.row.scope_hash }

abbrev pub entry_at : Key → CeremonyStore → Option CeremonyEntry
entry_at k s = get key_discrete k s.rows

-- `s.buckets[bk]`, empty for a key that is not there.
abbrev pub keys_in : BucketKey → CeremonyStore → List Key
keys_in bk s = elim (get bucket_discrete bk s.buckets) [ none ↦ [] | some ks ↦ ks ]

-- `s.scopes[sk]`, 0 for a key that is not there.
abbrev pub scope_count : ScopeKey → CeremonyStore → ℕ
scope_count sk s = elim (get scope_key_discrete sk s.scopes) [ none ↦ 0 | some n ↦ n ]

-- A key enters a bucket once.
unfoldable pub add_key : Key → List Key → List Key
add_key k [] = k ∷ []
add_key k (j ∷ js) = if eqb key_discrete j k then j ∷ js else j ∷ add_key k js

unfoldable pub remove_key : Key → List Key → List Key
remove_key k [] = []
remove_key k (j ∷ js) = if eqb key_discrete j k then remove_key k js else j ∷ remove_key k js

-- `insert`.
unfoldable pub insert_entry : Key → CeremonyEntry → CeremonyStore → CeremonyStore
insert_entry k e s = record s {
  rows = put key_discrete k e s.rows;
  buckets = put bucket_discrete (bucket_of k) (add_key k (keys_in (bucket_of k) s)) s.buckets;
  scopes = put scope_key_discrete (scope_of k e) (scope_count (scope_of k e) s + 1) s.scopes;
}

-- `remove`; an empty bucket and a count that reaches 0 are deleted.
unfoldable pub remove_entry : Key → CeremonyStore → CeremonyStore
remove_entry k s = elim (entry_at k s) [
  | none ↦ s
  | some e ↦
      let left = remove_key k (keys_in (bucket_of k) s) in
      let n = scope_count (scope_of k e) s - 1 in
      record s {
        rows = delete key_discrete k s.rows;
        buckets =
            if is_empty left
            then delete bucket_discrete (bucket_of k) s.buckets
            else put bucket_discrete (bucket_of k) left s.buckets;
        scopes =
            if n == 0
            then delete scope_key_discrete (scope_of k e) s.scopes
            else put scope_key_discrete (scope_of k e) n s.scopes;
      }
]

unfoldable pub remove_each : List Key → CeremonyStore → CeremonyStore
remove_each [] s = s
remove_each (k ∷ ks) s = remove_each ks (remove_entry k s)

abbrev pub is_live : CeremonyEntry → ℕ → Bool
is_live e now = ltb now e.row.expires

-- The loop of `evict` over a bucket.
unfoldable pub candidates :
    Key → ℕ → (CeremonyEntry → Bool) → CeremonyStore → List Key → List (Key × CeremonyEntry)
candidates keep now same s [] = []
candidates keep now same s (k ∷ ks) =
    let rest = candidates keep now same s ks in
    elim (entry_at k s) [
      | none ↦ rest
      | some e ↦
          if eqb key_discrete k keep || not (is_live e now) || not (same e)
          then rest
          else (k, e) ∷ rest
    ]

-- The order of the sort: the newest first.
abbrev pub newer : CeremonyEntry → CeremonyEntry → Bool
newer a b =
    if a.row.created_at == b.row.created_at
    then leb b.seq a.seq
    else ltb b.row.created_at a.row.created_at

unfoldable pub insert_candidate :
    Key × CeremonyEntry → List (Key × CeremonyEntry) → List (Key × CeremonyEntry)
insert_candidate c [] = c ∷ []
insert_candidate c (d ∷ ds) = if newer (c.1) (d.1) then c ∷ d ∷ ds else d ∷ insert_candidate c ds

unfoldable pub sort_candidates : List (Key × CeremonyEntry) → List (Key × CeremonyEntry)
sort_candidates [] = []
sort_candidates (c ∷ cs) = insert_candidate c (sort_candidates cs)

-- The keys of the candidates that `evict` removes.
unfoldable pub victims : Key → ℕ → (CeremonyEntry → Bool) → ℕ → CeremonyStore → List Key
victims keep now same limit s =
    let others = candidates keep now same s (keys_in (bucket_of keep) s) in
    if limit == 0 || ltb (length others) limit
    then []
    else keys (drop (limit - 1) (sort_candidates others))

-- `evict`, with the number of the victims.
unfoldable pub evict : Key → ℕ → (CeremonyEntry → Bool) → ℕ → CeremonyStore → CeremonyStore × ℕ
evict keep now same limit s =
    let vs = victims keep now same limit s in (remove_each vs s, length vs)

abbrev pub in_scope : Bytes → CeremonyEntry → Bool
in_scope h e = eqb bytes_discrete e.row.scope_hash h

-- ===== src/Ceremony/Store/Cap.antt =====
-- A put keeps the live records of its scope within the cap of its kind.
use egauth.Base.{
  ℕ, ◌+◌, ◌-◌, ◌≤◌, ◌<◌, ◌≡◌, refl, sym, ◌∙◌, Bool, true, false, ◌&&◌, ◌||◌, List, [], ◌∷◌, Bytes,
  ltb, ◌==◌, length, drop, if◌then◌else◌, some, ok, arith, Option-cases, Bool-cases, inl, inr,
}
use egauth.Base.Maps.{delete, keys, has_key}
use egauth.Base.Counts.{count_where, count_where-delete, count_where_mono}
use egauth.Ceremony.Kind.{kind_valid, stateless}
use egauth.Ceremony.Kind.Bounds.{stored_limits}
use egauth.Ceremony.Kind.Limits.{max_live_per_scope, max_live_per_tenant}
use egauth.Ceremony.Record.{Record, validate_record, check_ceremony_row}
use egauth.Ceremony.Store.{
  Key, key_discrete, CeremonyEntry, ScopeKey, CeremonyStore, bucket_of, entry_at, keys_in,
  scope_count, remove_entry, remove_each, candidates, sort_candidates, victims, evict, in_scope,
}
use egauth.Ceremony.Store.Calls.{cap_scope, cap_tenant, put_record, key_of_row}
use egauth.Ceremony.Store.Single.{entry_at-remove_entry}
use egauth.Ceremony.Store.Indexed.{IsIndexed, bucket_keys, of_scope, remove_entry-IsIndexed}
use egauth.Ceremony.Store.Victims.{
  live_in, candidates-count, length-sort_candidates, has_key-sort_candidates, once_each,
  once_each-sort_candidates, has_key-drop, once_each-drop, length-keys-drop, candidate-live_in,
  once_each-candidates, once_each-bucket_keys,
}
use egauth.Ceremony.Store.Writes.{stored, stored-IsIndexed, scoped, put-eq-ok, cap_scope-IsIndexed}

-- How many records of a scope are live.
unfoldable pub live_count : ScopeKey → ℕ → CeremonyStore → ℕ
live_count sk now s = count_where (live_in sk now) s.rows

rows-remove_entry :
    (k : Key) (e : CeremonyEntry) (s : CeremonyStore)
    → entry_at k s ≡ some e
    → (remove_entry k s).rows ≡ delete key_discrete k s.rows
unfolding remove_entry
rows-remove_entry k e s f = rw (f, remove_entry) refl

live_count-remove_entry :
    (sk : ScopeKey) (now : ℕ) (k : Key) (e : CeremonyEntry) (s : CeremonyStore)
    → IsIndexed s
    → entry_at k s ≡ some e
    → live_count sk now s ≡ (
        if live_in sk now k e
        then live_count sk now (remove_entry k s) + 1
        else live_count sk now (remove_entry k s))
unfolding live_count
live_count-remove_entry sk now k e s w f =
    rw (rows-remove_entry k e s f)
      (count_where-delete key_discrete (live_in sk now) k e s.rows w.distinct f)

remove_entry-live_count :
    (sk : ScopeKey) (now : ℕ) (k : Key) (s : CeremonyStore)
    → IsIndexed s
    → live_count sk now (remove_entry k s) ≤ live_count sk now s
unfolding remove_entry
remove_entry-live_count sk now k s w = elim (Option-cases (entry_at k s)) [
  | inl f ↦ rw (f, remove_entry) (omega arith)
  | inr (e, f) ↦ ground (arith, live_count-remove_entry sk now k e s w f)
]

remove_each-live_count :
    (sk : ScopeKey) (now : ℕ) (ks : List Key) (s : CeremonyStore)
    → IsIndexed s
    → live_count sk now (remove_each ks s) ≤ live_count sk now s
unfolding remove_each
remove_each-live_count sk now [] s w = omega arith
remove_each-live_count sk now (k ∷ ks) s w = omega (
  arith,
  remove_each-live_count sk now ks (remove_entry k s) (remove_entry-IsIndexed k s w),
  remove_entry-live_count sk now k s w,
)

-- Removing records that are live, of the scope and named once takes off as many.
remove_each-count :
    (sk : ScopeKey) (now : ℕ) (ks : List Key) (s : CeremonyStore)
    → IsIndexed s
    → once_each ks ≡ true
    → ((k : Key)
        → has_key key_discrete ks k ≡ true
        → (e : CeremonyEntry) × (entry_at k s ≡ some e) × (live_in sk now k e ≡ true))
    → live_count sk now (remove_each ks s) + length ks ≡ live_count sk now s
unfolding remove_each once_each
remove_each-count sk now [] s w o there = omega arith
remove_each-count sk now (k ∷ ks) s w o there =
    let (e, at, live) = there k (ground arith) in
    let rest =
      remove_each-count sk now ks (remove_entry k s) (remove_entry-IsIndexed k s w) (ground arith)
        (λ j i.
          let (x, at_j, live_j) = there j (ground arith) in
          (x, ground (arith, entry_at-remove_entry k j s), live_j)) in
    ground (arith, rest, live_count-remove_entry sk now k e s w at)

-- What is left after an eviction within a scope.
evict-live_count :
    (k : Key) (now : ℕ) (h : Bytes) (limit : ℕ) (s : CeremonyStore)
    → IsIndexed s
    → 0 < limit
    → live_count
        (record { bucket = bucket_of k; scope = h })
        now
        (evict k now (in_scope h) limit s).0
      ≤ limit
unfolding evict victims live_count remove_each
evict-live_count k now h limit s w positive =
    let sk : ScopeKey = record { bucket = bucket_of k; scope = h } in
    let others = candidates k now (in_scope h) s (bucket_keys (bucket_of k) s.rows) in
    let found = candidates-count k now h (bucket_of k) s s.rows w.distinct (λ j e f. f) in
    rw (w.bucketed (bucket_of k)) (elim (Bool-cases (limit == 0 || ltb (length others) limit)) [
      | inl few ↦ rw few (ground (arith, found))
      | inr many ↦
          let vs = keys (drop (limit - 1) (sort_candidates others)) in
          let counted =
            remove_each-count sk now vs s w
              (once_each-drop (limit - 1) (sort_candidates others) (
                once_each-sort_candidates others
                ∙ once_each-candidates k now (in_scope h) s (bucket_keys (bucket_of k) s.rows)
                    (once_each-bucket_keys (bucket_of k) s.rows w.distinct)))
              (λ j i. candidate-live_in k now h (bucket_of k) s s.rows j (
                sym (has_key-sort_candidates others j)
                ∙ has_key-drop (limit - 1) (sort_candidates others) j i)) in
          let taken = length-keys-drop (limit - 1) (sort_candidates others) in
          let all = length-sort_candidates others in
          rw many (ground (arith, found, counted, taken, all))
    ])

live_count-within :
    (sk : ScopeKey) (now : ℕ) (s : CeremonyStore)
    → live_count sk now s ≤ count_where (of_scope sk) s.rows
unfolding live_count
live_count-within sk now s =
    count_where_mono (live_in sk now) (of_scope sk) s.rows (λ k e l. ground arith)

-- A scope whose count is within the cap has no more live records, and an eviction brings another to it.
cap_scope-live_count :
    (k : Key) (now : ℕ) (h : Bytes) (s : CeremonyStore)
    → IsIndexed s
    → 0 < max_live_per_scope k.kind
    → live_count (record { bucket = bucket_of k; scope = h }) now (cap_scope k now h s).0
      ≤ max_live_per_scope k.kind
unfolding cap_scope
cap_scope-live_count k now h s w positive =
    let sk : ScopeKey = record { bucket = bucket_of k; scope = h } in
    elim (Bool-cases (ltb (max_live_per_scope k.kind) (scope_count sk s))) [
      | inl over ↦ rw over (evict-live_count k now h (max_live_per_scope k.kind) s w positive)
      | inr within ↦ rw within (ground (arith, w.counted sk, live_count-within sk now s))
    ]

cap_tenant-live_count :
    (sk : ScopeKey) (k : Key) (now : ℕ) (s : CeremonyStore)
    → IsIndexed s
    → live_count sk now (cap_tenant k now s).0 ≤ live_count sk now s
unfolding cap_tenant evict
cap_tenant-live_count sk k now s w =
    elim (Bool-cases (
      ltb 0 (max_live_per_tenant k.kind)
      && ltb (max_live_per_tenant k.kind) (length (keys_in (bucket_of k) s)))) [
        | inl over ↦ rw over (remove_each-live_count sk now _ s w)
        | inr within ↦ rw within (omega arith)
      ]

put-kind :
    (ctx : Bool) (now n : ℕ) (r : Record) (s s' : CeremonyStore)
    → put_record ctx now r s ≡ ok (s', n)
    → (kind_valid r.fields.kind ≡ true) × (stateless r.fields.kind ≡ false)
unfolding put_record validate_record check_ceremony_row
put-kind ctx now n r s s' e = (ground arith, ground arith)

-- After a successful Put, in a store whose records, buckets and counts agree, no more records of the
-- tenant, kind and scope of the record are live at the instant of the Put than the cap of the kind.
pub put-capped :
    (ctx : Bool) (now n : ℕ) (r : Record) (s s' : CeremonyStore)
    → IsIndexed s
    → put_record ctx now r s ≡ ok (s', n)
    → live_count
        (record { bucket = bucket_of (key_of_row r.fields); scope = r.fields.scope_hash })
        now
        s'
      ≤ max_live_per_scope r.fields.kind
put-capped ctx now n r s s' w e =
    let k = key_of_row r.fields in
    let sk : ScopeKey = record { bucket = bucket_of k; scope = r.fields.scope_hash } in
    let stored_w = stored-IsIndexed r s w in
    let (known, kept) = put-kind ctx now n r s s' e in
    let (_, caps, _) = stored_limits r.fields.kind known in
    let within =
      cap_scope-live_count k now r.fields.scope_hash (stored r s) stored_w (ground arith) in
    let less =
      cap_tenant-live_count sk k now (scoped now r s)
        (cap_scope-IsIndexed k now r.fields.scope_hash (stored r s) stored_w) in
    rw (put-eq-ok ctx now n r s s' e) (omega (arith, within, less))

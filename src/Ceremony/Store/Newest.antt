-- ===== src/Ceremony/Store/Newest.antt =====
-- A put keeps its own record.
use egauth.Base.{
  ℕ, ◌-◌, ◌≡◌, refl, ◌∙◌, Bool, true, false, ◌||◌, List, [], ◌∷◌, Bytes, ltb, ◌==◌, length, some,
  ok, arith, Option-cases, Bool-cases, inl, inr,
}
use egauth.Base.Maps.{keys, get-put, has_key}
use egauth.Sessions.Store.{next_seq}
use egauth.Ceremony.Kind.Limits.{max_live_per_scope, max_live_per_tenant}
use egauth.Ceremony.Record.{Record}
use egauth.Ceremony.Store.{
  Key, key_discrete, CeremonyEntry, CeremonyStore, bucket_of, entry_at, keys_in, insert_entry,
  remove_entry, remove_each, candidates, sort_candidates, victims, evict, in_scope,
}
use egauth.Ceremony.Store.Calls.{cap_scope, cap_tenant, put_record, key_of_row, stored_row}
use egauth.Ceremony.Store.Single.{entry_at-remove_entry}
use egauth.Ceremony.Store.Victims.{has_key-sort_candidates, has_key-drop}
use egauth.Ceremony.Store.Writes.{stored, scoped, put-eq-ok}

candidates-keep :
    (keep : Key) (now : ℕ) (same : CeremonyEntry → Bool) (s : CeremonyStore) (ks : List Key)
    → has_key key_discrete (keys (candidates keep now same s ks)) keep ≡ false
unfolding candidates keys
candidates-keep keep now same s [] = refl
candidates-keep keep now same s (j ∷ ks) = elim (Option-cases (entry_at j s)) [
  | inl f ↦ ground (arith, candidates-keep keep now same s ks)
  | inr (e, f) ↦ ground (arith, candidates-keep keep now same s ks)
]

victims-keep :
    (keep : Key) (now : ℕ) (same : CeremonyEntry → Bool) (limit : ℕ) (s : CeremonyStore)
    → has_key key_discrete (victims keep now same limit s) keep ≡ false
unfolding victims
victims-keep keep now same limit s =
    let others = candidates keep now same s (keys_in (bucket_of keep) s) in
    elim (Bool-cases (limit == 0 || ltb (length others) limit)) [
      | inl few ↦ rw few refl
      | inr many ↦ rw many (
          ground (
            arith,
            has_key-drop (limit - 1) (sort_candidates others) keep,
            has_key-sort_candidates others keep,
            candidates-keep keep now same s (keys_in (bucket_of keep) s),
          ))
    ]

entry_at-remove_each :
    (ks : List Key) (k : Key) (s : CeremonyStore)
    → has_key key_discrete ks k ≡ false
    → entry_at k (remove_each ks s) ≡ entry_at k s
unfolding remove_each
entry_at-remove_each [] k s i = refl
entry_at-remove_each (j ∷ ks) k s i =
    ground (arith, entry_at-remove_each ks k (remove_entry j s), entry_at-remove_entry j k s)

evict-keep :
    (keep : Key) (now : ℕ) (same : CeremonyEntry → Bool) (limit : ℕ) (s : CeremonyStore)
    → entry_at keep (evict keep now same limit s).0 ≡ entry_at keep s
unfolding evict
evict-keep keep now same limit s =
    entry_at-remove_each (victims keep now same limit s) keep s (victims-keep keep now same limit s)

cap_scope-keep :
    (k : Key) (now : ℕ) (h : Bytes) (s : CeremonyStore)
    → entry_at k (cap_scope k now h s).0 ≡ entry_at k s
unfolding cap_scope
cap_scope-keep k now h s =
    ground (arith, evict-keep k now (in_scope h) (max_live_per_scope k.kind) s)

cap_tenant-keep :
    (k : Key) (now : ℕ) (s : CeremonyStore) → entry_at k (cap_tenant k now s).0 ≡ entry_at k s
unfolding cap_tenant
cap_tenant-keep k now s =
    ground (arith, evict-keep k now (λ e. true) (max_live_per_tenant k.kind) s)

-- After a successful Put the record stands under its key with its instants to the microsecond, whatever
-- was evicted.
put-stores :
    (ctx : Bool) (now n : ℕ) (r : Record) (s s' : CeremonyStore)
    → put_record ctx now r s ≡ ok (s', n)
    → (e : CeremonyEntry) × (entry_at (key_of_row r.fields) s' ≡ some e) × (e.row ≡ stored_row r)
unfolding insert_entry
put-stores ctx now n r s s' f =
    let k = key_of_row r.fields in
    let t = remove_entry k s in
    let e : CeremonyEntry = record { row = stored_row r; seq = next_seq t.seq } in
    (
      e,
      rw (put-eq-ok ctx now n r s s' f) (
          cap_tenant-keep k now (scoped now r s)
          ∙ cap_scope-keep k now r.fields.scope_hash (stored r s)
          ∙ ground (arith, get-put key_discrete k k e t.rows)),
      refl,
    )

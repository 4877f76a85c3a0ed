-- ===== src/Ceremony/Store/Calls.antt =====
-- store/ceremony/memory/store.go: Put, Peek, Consume, RecordFailure and MarkConsumed.
use egauth.Base.{
  ℕ, ◌+◌, ◌-◌, Bool, true, false, not, ◌&&◌, Bytes, length, if◌then◌else◌, ltb, ◌==◌, Option, none,
  some, Result, ok, err, ◌>>=◌, ◌>>◌, refuse_if,
}
use egauth.Base.Maps.{get, put}
use egauth.Sessions.Store.{micro, next_seq}
use egauth.Ceremony.Kind.{Kind, kind_valid, stateless}
use egauth.Ceremony.Kind.Limits.{max_live_per_scope, max_live_per_tenant, max_attempts}
use egauth.Ceremony.Record.{
  CeremonyError, ceremony_cancelled, invalid_ceremony, handle_too_short, stored_kind,
  ceremony_conflict, ceremony_not_found, handle_hash_len, CeremonyRow, Record, restore_ceremony,
  validate_record,
}
use egauth.Ceremony.Store.{
  Key, key_discrete, CeremonyEntry, CeremonyStore, bucket_of, entry_at, keys_in, scope_count,
  insert_entry, remove_entry, is_live, evict, in_scope,
}

-- The row that `Put` stores.
unfoldable pub stored_row : Record → CeremonyRow
stored_row r = record r.fields {
  pending = r.pending;
  expires = micro r.fields.expires;
  created_at = micro r.fields.created_at;
}

abbrev pub key_of_row : CeremonyRow → Key
key_of_row r = record { tenant = r.tenant; kind = r.kind; handle = r.handle_hash }

-- The eviction of `Put` within the scope, and that within the tenant.
unfoldable pub cap_scope : Key → ℕ → Bytes → CeremonyStore → CeremonyStore × ℕ
cap_scope k now scope s =
    if ltb (max_live_per_scope k.kind)
      (scope_count (record { bucket = bucket_of k; scope = scope }) s)
    then evict k now (in_scope scope) (max_live_per_scope k.kind) s
    else (s, 0)

unfoldable pub cap_tenant : Key → ℕ → CeremonyStore → CeremonyStore × ℕ
cap_tenant k now s =
    if ltb 0 (max_live_per_tenant k.kind)
      && ltb (max_live_per_tenant k.kind) (length (keys_in (bucket_of k) s))
    then evict k now (λ e. true) (max_live_per_tenant k.kind) s
    else (s, 0)

-- `live`.
unfoldable pub live_entry : Key → ℕ → CeremonyStore → Option CeremonyEntry
live_entry k now s = elim (entry_at k s) [
  | none ↦ none
  | some e ↦ if is_live e now then some e else none
]

unfoldable pub put_record :
    Bool → ℕ → Record → CeremonyStore → Result CeremonyError (CeremonyStore × ℕ)
put_record ctx now r s = do
  refuse_if ctx ceremony_cancelled
  validate_record r
  let k = key_of_row r.fields
  refuse_if (elim (live_entry k now s) [ none ↦ false | some e ↦ true ]) ceremony_conflict
  let t = remove_entry k s
  let n = next_seq t.seq
  let added = insert_entry k (record { row = stored_row r; seq = n }) (record t { seq = n })
  let (u, m) = cap_scope k now r.fields.scope_hash added
  let (v, l) = cap_tenant k now u
  ok (v, m + l)

-- `lookupKey`.
unfoldable pub lookup_key : Bytes → Kind → Bytes → Result CeremonyError Key
lookup_key t k handle = do
  refuse_if (ltb (length handle) handle_hash_len) handle_too_short
  ok (record { tenant = t; kind = k; handle = handle })

abbrev pub live_or_missing : Option CeremonyEntry → Result CeremonyError CeremonyEntry
live_or_missing none = err ceremony_not_found
live_or_missing (some e) = ok e

unfoldable pub peek : Bool → ℕ → Bytes → Kind → Bytes → CeremonyStore → Result CeremonyError Record
peek ctx now t k handle s = do
  refuse_if ctx ceremony_cancelled
  kk ← lookup_key t k handle
  e ← live_or_missing (live_entry kk now s)
  restore_ceremony e.row

-- `Consume`; the record is removed even if it does not restore.
unfoldable pub consume :
    Bool
    → ℕ
    → Bytes
    → Kind
    → Bytes
    → CeremonyStore
    → Result CeremonyError (CeremonyStore × Result CeremonyError Record)
consume ctx now t k handle s = do
  refuse_if ctx ceremony_cancelled
  kk ← lookup_key t k handle
  e ← live_or_missing (live_entry kk now s)
  ok (remove_entry kk s, restore_ceremony e.row)

abbrev pub charged : CeremonyEntry → CeremonyEntry
charged e = record e { row = record e.row { attempts = e.row.attempts + 1 } }

unfoldable pub record_failure :
    Bool → ℕ → Bytes → Kind → Bytes → CeremonyStore → Result CeremonyError (CeremonyStore × ℕ)
record_failure ctx now t k handle s = do
  refuse_if ctx ceremony_cancelled
  kk ← lookup_key t k handle
  e ← live_or_missing (live_entry kk now s)
  let remaining = max_attempts k - e.row.attempts - 1
  ok (
      if remaining == 0
      then (remove_entry kk s, 0)
      else (record s { rows = put key_discrete kk (charged e) s.rows }, remaining))

unfoldable pub mark_consumed :
    Bool
    → ℕ
    → Bytes
    → Kind
    → Bytes
    → ℕ
    → CeremonyStore
    → Result CeremonyError (CeremonyStore × Bool)
mark_consumed ctx now t k handle until s = do
  refuse_if ctx ceremony_cancelled
  refuse_if (not (kind_valid k)) invalid_ceremony
  refuse_if (not (stateless k)) stored_kind
  kk ← lookup_key t k handle
  let used : Bool = (elim (get key_discrete kk s.consumed) [
    | none ↦ false
    | some prev ↦ ltb now prev
  ])
  ok (
      if used
      then (s, false)
      else (record s { consumed = put key_discrete kk (micro until) s.consumed }, true))

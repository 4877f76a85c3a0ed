-- ===== src/Ceremony/Store/Writes.antt =====
-- Every write of a ceremony store keeps its records, buckets and counts in agreement.
use egauth.Base.{
  ℕ, ◌≡◌, refl, Bool, true, not, ◌&&◌, ◌||◌, List, [], ◌∷◌, Bytes, is_empty, any, eqb, ltb, leb,
  ◌==◌, ◌-◌, length, ok, arith, Option-cases, Bool-cases, inl, inr, bytes_discrete,
}
use egauth.Base.Maps.{Map, keys, put}
use egauth.Sessions.Store.{next_seq}
use egauth.Ceremony.Kind.{Kind, kind_discrete}
use egauth.Ceremony.Kind.Limits.{max_live_per_scope, max_live_per_tenant, max_attempts}
use egauth.Ceremony.Record.{Record}
use egauth.Ceremony.Store.{
  Key, key_discrete, CeremonyEntry, CeremonyStore, bucket_of, entry_at, keys_in, scope_count,
  insert_entry, remove_entry, victims, evict, in_scope, is_live,
}
use egauth.Ceremony.Store.Calls.{
  cap_scope, cap_tenant, live_entry, put_record, record_failure, mark_consumed, stored_row,
  key_of_row, charged, lookup_key,
}
use egauth.Ceremony.Store.Sweeps.{
  remove_where, unmark_where, erase_tenant_ceremonies, reap_expired_ceremonies, delete_for_scope,
}
use egauth.Ceremony.Store.Single.{entry_at-remove_entry}
use egauth.Ceremony.Store.Indexed.{
  IsIndexed, insert_entry-IsIndexed, remove_entry-IsIndexed, remove_each-IsIndexed,
  charged-IsIndexed,
}

evict-IsIndexed :
    (k : Key) (now : ℕ) (same : CeremonyEntry → Bool) (limit : ℕ) (s : CeremonyStore)
    → IsIndexed s
    → IsIndexed (evict k now same limit s).0
unfolding evict
evict-IsIndexed k now same limit s w = remove_each-IsIndexed (victims k now same limit s) s w

pub cap_scope-IsIndexed :
    (k : Key) (now : ℕ) (scope : Bytes) (s : CeremonyStore)
    → IsIndexed s
    → IsIndexed (cap_scope k now scope s).0
unfolding cap_scope
cap_scope-IsIndexed k now scope s w =
    elim (Bool-cases (
      ltb (max_live_per_scope k.kind)
        (scope_count (record { bucket = bucket_of k; scope = scope }) s))) [
          | inl e ↦ rw e (evict-IsIndexed k now (in_scope scope) (max_live_per_scope k.kind) s w)
          | inr e ↦ rw e w
        ]

cap_tenant-IsIndexed :
    (k : Key) (now : ℕ) (s : CeremonyStore) → IsIndexed s → IsIndexed (cap_tenant k now s).0
unfolding cap_tenant
cap_tenant-IsIndexed k now s w =
    elim (Bool-cases (
      ltb 0 (max_live_per_tenant k.kind)
      && ltb (max_live_per_tenant k.kind) (length (keys_in (bucket_of k) s)))) [
        | inl e ↦ rw e (evict-IsIndexed k now (λ x. true) (max_live_per_tenant k.kind) s w)
        | inr e ↦ rw e w
      ]

-- A mark changes no record.
same_rows-IsIndexed :
    (s t : CeremonyStore)
    → IsIndexed s
    → t.rows ≡ s.rows
    → t.buckets ≡ s.buckets
    → t.scopes ≡ s.scopes
    → IsIndexed t
same_rows-IsIndexed s t w e f g = record {
  keyed = rw e w.keyed;
  bucketed = rw (e, f) w.bucketed;
  counted = rw (e, g) w.counted;
  distinct = rw e w.distinct;
}

-- The store that Put hands to the caps.
abbrev pub stored : Record → CeremonyStore → CeremonyStore
stored r s =
    let t = remove_entry (key_of_row r.fields) s in
    insert_entry (key_of_row r.fields) (record { row = stored_row r; seq = next_seq t.seq })
      (record t { seq = next_seq t.seq })

pub stored-IsIndexed : (r : Record) (s : CeremonyStore) → IsIndexed s → IsIndexed (stored r s)
unfolding stored_row
stored-IsIndexed r s w =
    let k = key_of_row r.fields in
    insert_entry-IsIndexed k _ _ (remove_entry k s) (remove_entry-IsIndexed k s w)
      (ground (arith, entry_at-remove_entry k k s)) refl

-- The store after the eviction within the scope.
abbrev pub scoped : ℕ → Record → CeremonyStore → CeremonyStore
scoped now r s = (cap_scope (key_of_row r.fields) now r.fields.scope_hash (stored r s)).0

pub put-eq-ok :
    (ctx : Bool) (now n : ℕ) (r : Record) (s s' : CeremonyStore)
    → put_record ctx now r s ≡ ok (s', n)
    → s' ≡ (cap_tenant (key_of_row r.fields) now (scoped now r s)).0
unfolding put_record
put-eq-ok ctx now n r s s' e = ground arith

pub put-IsIndexed :
    (ctx : Bool) (now n : ℕ) (r : Record) (s s' : CeremonyStore)
    → IsIndexed s
    → put_record ctx now r s ≡ ok (s', n)
    → IsIndexed s'
put-IsIndexed ctx now n r s s' w e =
    let k = key_of_row r.fields in
    rw (put-eq-ok ctx now n r s s' e) (
      cap_tenant-IsIndexed k now (scoped now r s)
        (cap_scope-IsIndexed k now r.fields.scope_hash (stored r s) (stored-IsIndexed r s w)))

remove_where-IsIndexed :
    (p : Key → CeremonyEntry → Bool) (ks : List Key) (s : CeremonyStore)
    → IsIndexed s
    → IsIndexed (remove_where p ks s).0
unfolding remove_where
remove_where-IsIndexed p [] s w = w
remove_where-IsIndexed p (k ∷ ks) s w = elim (Option-cases (entry_at k s)) [
  | inl e ↦ rw e (remove_where-IsIndexed p ks s w)
  | inr (x, e) ↦ rw e (elim (Bool-cases (p k x)) [
    | inl l ↦ rw l (remove_where-IsIndexed p ks _ (remove_entry-IsIndexed k s w))
    | inr l ↦ rw l (remove_where-IsIndexed p ks s w)
  ])
]

unmark_where-IsIndexed :
    (p : Key → ℕ → Bool) (m : Map Key ℕ) (s : CeremonyStore)
    → IsIndexed s
    → IsIndexed (unmark_where p m s).0
unfolding unmark_where
unmark_where-IsIndexed p [] s w = w
unmark_where-IsIndexed p ((k, until) ∷ m) s w = elim (Bool-cases (p k until)) [
  | inl l ↦ rw l (unmark_where-IsIndexed p m _ (same_rows-IsIndexed s _ w refl refl refl))
  | inr l ↦ rw l (unmark_where-IsIndexed p m s w)
]

pub failure-IsIndexed :
    (ctx : Bool) (now n : ℕ) (t : Bytes) (k : Kind) (handle : Bytes) (s s' : CeremonyStore)
    → IsIndexed s
    → record_failure ctx now t k handle s ≡ ok (s', n)
    → IsIndexed s'
unfolding record_failure lookup_key live_entry
failure-IsIndexed ctx now n t k handle s s' w f =
    let key : Key = record { tenant = t; kind = k; handle = handle } in
    elim (Option-cases (entry_at key s)) [
      | inl g ↦ absurd (ground arith)
      | inr (e, g) ↦ elim (Bool-cases (max_attempts k - e.row.attempts - 1 == 0)) [
        | inl z ↦
            let left : s' ≡ remove_entry key s = ground arith in
            rw left (remove_entry-IsIndexed key s w)
        | inr z ↦
            let left : s' ≡ record s { rows = put key_discrete key (charged e) s.rows } =
              ground arith in
            rw left (charged-IsIndexed key e s w g)
      ]
    ]

pub mark-IsIndexed :
    (ctx first : Bool) (now until : ℕ) (t : Bytes) (k : Kind) (handle : Bytes)
    (s s' : CeremonyStore)
    → IsIndexed s
    → mark_consumed ctx now t k handle until s ≡ ok (s', first)
    → IsIndexed s'
unfolding mark_consumed lookup_key
mark-IsIndexed ctx first now until t k handle s s' w e =
    same_rows-IsIndexed s s' w (ground arith) (ground arith) (ground arith)

pub erase-IsIndexed :
    (ctx : Bool) (t : Bytes) (s s' : CeremonyStore)
    → IsIndexed s
    → erase_tenant_ceremonies ctx t s ≡ ok s'
    → IsIndexed s'
unfolding erase_tenant_ceremonies
erase-IsIndexed ctx t s s' w e =
    let u = (remove_where (λ k x. eqb bytes_discrete k.tenant t) (keys s.rows) s).0 in
    let left : s' ≡ (unmark_where (λ k until. eqb bytes_discrete k.tenant t) u.consumed u).0 =
      ground arith in
    rw left (unmark_where-IsIndexed _ u.consumed u (remove_where-IsIndexed _ (keys s.rows) s w))

pub reap-IsIndexed :
    (ctx : Bool) (now n : ℕ) (s s' : CeremonyStore)
    → IsIndexed s
    → reap_expired_ceremonies ctx now s ≡ ok (s', n)
    → IsIndexed s'
unfolding reap_expired_ceremonies
reap-IsIndexed ctx now n s s' w e =
    let u = (remove_where (λ k x. not (is_live x now)) (keys s.rows) s).0 in
    let left : s' ≡ (unmark_where (λ k until. leb until now) u.consumed u).0 = ground arith in
    rw left (unmark_where-IsIndexed _ u.consumed u (remove_where-IsIndexed _ (keys s.rows) s w))

pub delete-IsIndexed :
    (ctx : Bool) (n : ℕ) (t scope : Bytes) (kinds : List Kind) (s s' : CeremonyStore)
    → IsIndexed s
    → delete_for_scope ctx t scope kinds s ≡ ok (s', n)
    → IsIndexed s'
unfolding delete_for_scope
delete-IsIndexed ctx n t scope kinds s s' w e = elim (Bool-cases (is_empty scope)) [
  | inl z ↦ let left : s' ≡ s = ground arith in rw left w
  | inr z ↦
      let left : s'
          ≡ (remove_where
              (λ k x.
                eqb bytes_discrete k.tenant t
                && in_scope scope x
                && (is_empty kinds || any (λ j. eqb kind_discrete j k.kind) kinds))
              (keys s.rows) s).0 =
        ground arith in
      rw left (remove_where-IsIndexed _ (keys s.rows) s w)
]

-- ===== src/Ceremony/Store/Single.antt =====
-- A record is consumed once, and a stateless handle is marked once.
use egauth.Base.{
  ℕ, ◌≡◌, refl, Bool, true, false, Bytes, eqb, ltb, if◌then◌else◌, none, some, Result, ok, is_ok,
  arith, Option-cases, Bool-cases, inl, inr,
}
use egauth.Base.Maps.{get, put, get-put, get-delete}
use egauth.Sessions.Store.{micro}
use egauth.Ceremony.Kind.{Kind, kind_valid, stateless}
use egauth.Ceremony.Record.{CeremonyError, Record, restore_ceremony}
use egauth.Ceremony.Store.{
  Key, key_discrete, CeremonyEntry, CeremonyStore, entry_at, remove_entry, is_live,
}
use egauth.Ceremony.Store.Calls.{
  live_entry, lookup_key, peek, consume, record_failure, mark_consumed,
}

pub entry_at-remove_entry :
    (k j : Key) (s : CeremonyStore)
    → entry_at j (remove_entry k s) ≡ (if eqb key_discrete k j then none else entry_at j s)
unfolding remove_entry
entry_at-remove_entry k j s = elim (Option-cases (entry_at k s)) [
  | inl e ↦
      rw (e, remove_entry)
        (elim (key_discrete k j) [ yes same ↦ ground arith | no other ↦ ground arith ])
  | inr (x, e) ↦ rw (e, remove_entry) (get-delete key_discrete k j s.rows)
]

-- A key with no entry is not found.
peek_missing :
    (ctx : Bool) (now : ℕ) (t : Bytes) (k : Kind) (handle : Bytes) (s : CeremonyStore)
    → entry_at (record { tenant = t; kind = k; handle = handle }) s ≡ none
    → is_ok (peek ctx now t k handle s) ≡ false
unfolding peek lookup_key live_entry
peek_missing ctx now t k handle s e = ground arith

consume_missing :
    (ctx : Bool) (now : ℕ) (t : Bytes) (k : Kind) (handle : Bytes) (s : CeremonyStore)
    → entry_at (record { tenant = t; kind = k; handle = handle }) s ≡ none
    → is_ok (consume ctx now t k handle s) ≡ false
unfolding consume lookup_key live_entry
consume_missing ctx now t k handle s e = ground arith

pub consume-eq-ok :
    (ctx : Bool) (now : ℕ) (t : Bytes) (k : Kind) (handle : Bytes) (s s' : CeremonyStore)
    (r : Result CeremonyError Record)
    → consume ctx now t k handle s ≡ ok (s', r)
    → (s' ≡ remove_entry (record { tenant = t; kind = k; handle = handle }) s)
      × ((e : CeremonyEntry) × (entry_at (record { tenant = t; kind = k; handle = handle }) s
            ≡ some e)
          × (is_live e now ≡ true)
          × (r ≡ restore_ceremony e.row))
unfolding consume lookup_key live_entry
consume-eq-ok ctx now t k handle s s' r e =
    elim (Option-cases (entry_at (record { tenant = t; kind = k; handle = handle }) s)) [
      | inl f ↦ absurd (ground arith)
      | inr (x, f) ↦ (ground arith, (x, f, ground arith, ground arith))
    ]

failure_missing :
    (ctx : Bool) (now : ℕ) (t : Bytes) (k : Kind) (handle : Bytes) (s : CeremonyStore)
    → entry_at (record { tenant = t; kind = k; handle = handle }) s ≡ none
    → is_ok (record_failure ctx now t k handle s) ≡ false
unfolding record_failure lookup_key live_entry
failure_missing ctx now t k handle s e = ground arith

peek-consume :
    (ctx : Bool) (now : ℕ) (t : Bytes) (k : Kind) (handle : Bytes) (s s' : CeremonyStore)
    (r : Result CeremonyError Record)
    → consume ctx now t k handle s ≡ ok (s', r)
    → peek ctx now t k handle s ≡ r
unfolding consume peek lookup_key live_entry
peek-consume ctx now t k handle s s' r e = ground arith

-- What Consume returns is what Peek returns just before; afterwards Consume, Peek and RecordFailure find no record of
-- its tenant, kind and handle, whatever the context and the clock, and each other record is as it was.
pub consume_ends :
    (ctx ctx' : Bool) (now now' : ℕ) (t : Bytes) (k : Kind) (handle : Bytes) (j : Key)
    (s s' : CeremonyStore) (r : Result CeremonyError Record)
    → consume ctx now t k handle s ≡ ok (s', r)
    → (peek ctx now t k handle s ≡ r)
      × (is_ok (consume ctx' now' t k handle s') ≡ false)
      × (is_ok (peek ctx' now' t k handle s') ≡ false)
      × (is_ok (record_failure ctx' now' t k handle s') ≡ false)
      × (entry_at j s' ≡ (
          if eqb key_discrete (record { tenant = t; kind = k; handle = handle }) j
          then none
          else entry_at j s))
consume_ends ctx ctx' now now' t k handle j s s' r e =
    let key : Key = record { tenant = t; kind = k; handle = handle } in
    let (left, (x, at, live, restored)) = consume-eq-ok ctx now t k handle s s' r e in
    let gone : entry_at key s' ≡ none = rw left (ground (arith, entry_at-remove_entry key key s)) in
    (
      peek-consume ctx now t k handle s s' r e,
      consume_missing ctx' now' t k handle s' gone,
      peek_missing ctx' now' t k handle s' gone,
      failure_missing ctx' now' t k handle s' gone,
      rw left (entry_at-remove_entry key j s),
    )

mark-eq-first :
    (ctx : Bool) (now until : ℕ) (t : Bytes) (k : Kind) (handle : Bytes) (s s' : CeremonyStore)
    → mark_consumed ctx now t k handle until s ≡ ok (s', true)
    → (s' ≡ record s {
      consumed =
          put key_discrete
            (record { tenant = t; kind = k; handle = handle })
            (micro until)
            s.consumed;
    })
      × (kind_valid k ≡ true)
      × (stateless k ≡ true)
      × (lookup_key t k handle ≡ ok (record { tenant = t; kind = k; handle = handle }))
unfolding mark_consumed lookup_key
mark-eq-first ctx now until t k handle s s' e =
    elim (Option-cases
      (get key_discrete (record { tenant = t; kind = k; handle = handle }) s.consumed)) [
        | inl f ↦ (ground arith, ground arith, ground arith, ground arith)
        | inr (prev, f) ↦ (ground arith, ground arith, ground arith, ground arith)
      ]

-- Once MarkConsumed has marked a handle, a later call before the end of the mark, to the microsecond,
-- reports that it was not the first and changes nothing, and the first call after the end reports that
-- it was.
pub mark_once :
    (ctx : Bool) (now now' until until' : ℕ) (t : Bytes) (k : Kind) (handle : Bytes)
    (s s' : CeremonyStore)
    → mark_consumed ctx now t k handle until s ≡ ok (s', true)
    → mark_consumed false now' t k handle until' s'
      ≡ ok (
          if ltb now' (micro until) then (s', false) else (
            record s' {
              consumed =
                  put key_discrete
                    (record { tenant = t; kind = k; handle = handle })
                    (micro until')
                    s'.consumed;
            },
            true,
          ))
unfolding mark_consumed
mark_once ctx now now' until until' t k handle s s' e =
    let key : Key = record { tenant = t; kind = k; handle = handle } in
    let (built, known, free, found) = mark-eq-first ctx now until t k handle s s' e in
    let at : get key_discrete key s'.consumed ≡ some (micro until) =
      rw built (ground (arith, get-put key_discrete key key (micro until) s.consumed)) in
    elim (Bool-cases (ltb now' (micro until))) [
      | inl l ↦ rw (known, free, found, at, l) refl
      | inr l ↦ rw (known, free, found, at, l) refl
    ]

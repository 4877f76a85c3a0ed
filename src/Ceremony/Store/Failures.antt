-- ===== src/Ceremony/Store/Failures.antt =====
-- Failed verifications use up a record.
use mathlib.Core.Path.{subst}
use egauth.Base.{
  any, ℕ, suc, ◌+◌, ◌-◌, ◌<◌, ◌≤◌, ◌≡◌, Bool, true, false, not, ◌&&◌, ◌||◌, List, [], ◌∷◌, Bytes,
  length, ltb, leb, ◌==◌, if◌then◌else◌, Option, none, some, ok, err, arith, Option-cases,
  Bool-cases, inl, inr,
}
use egauth.Base.Maps.{get-put}
use egauth.Ceremony.Kind.{Kind, kind_valid, stateless}
use egauth.Ceremony.Kind.Limits.{max_attempts}
use egauth.Ceremony.Kind.Bounds.{stored_limits}
use egauth.Ceremony.Record.{handle_hash_len}
use egauth.Ceremony.Store.{Key, key_discrete, CeremonyEntry, CeremonyStore, entry_at, is_live}
use egauth.Ceremony.Store.Calls.{live_entry, lookup_key, record_failure, charged}
use egauth.Ceremony.Store.Single.{entry_at-remove_entry}

-- The store after a failure is charged; on an error it is unchanged.
unfoldable pub charge : Bytes → Kind → Bytes → ℕ → CeremonyStore → CeremonyStore
charge t k handle now s = elim (record_failure false now t k handle s) [
  | err e ↦ s
  | ok (s', n) ↦ s'
]

unfoldable pub charge_each : Bytes → Kind → Bytes → List ℕ → CeremonyStore → CeremonyStore
charge_each t k handle [] s = s
charge_each t k handle (now ∷ nows) s = charge_each t k handle nows (charge t k handle now s)

-- A failure that RecordFailure charges is of a live record, and the number that it returns is the bound
-- of the kind less the failures charged so far, this one included, or 0; at 0 the record is gone, and
-- above it the record has one failure more and is otherwise as it was.
record_failure-counts :
    (ctx : Bool) (now n : ℕ) (t : Bytes) (k : Kind) (handle : Bytes) (s s' : CeremonyStore)
    → record_failure ctx now t k handle s ≡ ok (s', n)
    → (e : CeremonyEntry) × (live_entry (record { tenant = t; kind = k; handle = handle }) now s
        ≡ some e)
      × (n ≡ max_attempts k - (e.row.attempts + 1))
      × (entry_at (record { tenant = t; kind = k; handle = handle }) s'
          ≡ (if n == 0 then none else some (charged e)))
unfolding record_failure lookup_key live_entry
record_failure-counts ctx now n t k handle s s' f =
    let key : Key = record { tenant = t; kind = k; handle = handle } in
    elim (Option-cases (entry_at key s)) [
      | inl g ↦ absurd (ground arith)
      | inr (e, g) ↦ (
        e,
        ground arith,
        ground arith,
        elim (Bool-cases (max_attempts k - e.row.attempts - 1 == 0)) [
          | inl z ↦ ground (arith, entry_at-remove_entry key key s)
          | inr z ↦ ground (arith, get-put key_discrete key key (charged e) s.rows)
        ],
      )
    ]

-- After a number of charges: no entry, one that has expired by an instant, or one with as many failures.
abbrev spent : Kind → ℕ → ℕ → Option CeremonyEntry → Bool
spent k now n none = true
spent k now n (some e) =
    not (is_live e now) || (leb n e.row.attempts && (n == 0 || ltb e.row.attempts (max_attempts k)))

charge-spent :
    (t : Bytes) (k : Kind) (handle : Bytes) (m now n : ℕ) (s : CeremonyStore)
    → leb handle_hash_len (length handle) ≡ true
    → m ≤ now
    → spent k now n (entry_at (record { tenant = t; kind = k; handle = handle }) s) ≡ true
    → spent k now
        (suc n)
        (entry_at (record { tenant = t; kind = k; handle = handle }) (charge t k handle m s))
      ≡ true
unfolding charge record_failure lookup_key live_entry
charge-spent t k handle m now n s long before u =
    let key : Key = record { tenant = t; kind = k; handle = handle } in
    elim (Option-cases (entry_at key s)) [
      | inl g ↦ ground arith
      | inr (e, g) ↦ elim (Bool-cases (max_attempts k - e.row.attempts - 1 == 0)) [
        | inl z ↦ ground (arith, entry_at-remove_entry key key s)
        | inr z ↦ ground (arith, get-put key_discrete key key (charged e) s.rows)
      ]
    ]

charge_each-spent :
    (t : Bytes) (k : Kind) (handle : Bytes) (ms : List ℕ) (now n total : ℕ) (s : CeremonyStore)
    → total ≡ n + length ms
    → leb handle_hash_len (length handle) ≡ true
    → any (λ m. ltb now m) ms ≡ false
    → spent k now n (entry_at (record { tenant = t; kind = k; handle = handle }) s) ≡ true
    → spent k now total
        (entry_at (record { tenant = t; kind = k; handle = handle }) (charge_each t k handle ms s))
      ≡ true
unfolding charge_each
charge_each-spent t k handle [] now n total s sum long before u =
    subst
      (λ x. spent k now x (entry_at (record { tenant = t; kind = k; handle = handle }) s) ≡ true)
      (omega (arith, sum)) u
charge_each-spent t k handle (m ∷ ms) now n total s sum long before u =
    charge_each-spent t k handle ms now (suc n) total (charge t k handle m s) (omega (arith, sum))
      long (ground arith) (charge-spent t k handle m now n s long (ground arith) u)

spent-live_entry :
    (k : Kind) (key : Key) (now n : ℕ) (s : CeremonyStore)
    → spent k now n (entry_at key s) ≡ true
    → 0 < n
    → max_attempts k ≤ n
    → live_entry key now s ≡ none
unfolding live_entry
spent-live_entry k key now n s u some_made enough = ground arith

-- Once as many failures as the bound of a stored kind were charged, whichever of them found the record
-- live, no call finds it live at an instant that is not before the charges.
pub exhausted :
    (t : Bytes) (k : Kind) (handle : Bytes) (ms : List ℕ) (now : ℕ) (s : CeremonyStore)
    → kind_valid k ≡ true
    → stateless k ≡ false
    → leb handle_hash_len (length handle) ≡ true
    → any (λ m. ltb now m) ms ≡ false
    → max_attempts k ≤ length ms
    → live_entry
        (record { tenant = t; kind = k; handle = handle })
        now
        (charge_each t k handle ms s)
      ≡ none
exhausted t k handle ms now s known stored long before enough =
    let key : Key = record { tenant = t; kind = k; handle = handle } in
    let (_, _, bound) = stored_limits k known in
    spent-live_entry k key now (length ms) (charge_each t k handle ms s)
      (charge_each-spent t k handle ms now 0 (length ms) s (omega arith) long before
        (elim (Option-cases (entry_at key s)) [ inl e ↦ ground arith | inr (x, e) ↦ ground arith ]))
      (ground arith) enough

-- ===== src/Sessions/Store/Steps.antt =====
-- What Touch and Replace passed and wrote, and that they keep the invariant.
use egauth.Base.{
  ℕ, ◌≡◌, refl, Bool, true, Bytes, if◌then◌else◌, ◌==◌, none, some, ok, arith, Option-cases, inl,
  inr, bytes_discrete, ℕ_discrete,
}
use egauth.Base.Maps.{put, get-put, get-delete}
use egauth.Sessions.Record.{Row, check_row, restore}
use egauth.Sessions.Store.{Store, row_at, id_of, live, end_session, row_of, micro}
use egauth.Sessions.Store.Calls.{lookup, touch, touched, replace, same_session, found}
use egauth.Sessions.Store.Invariant.{IsConsistent, end_session-IsConsistent}
use egauth.Sessions.Store.Kept.{stored, stored-IsConsistent, lookup-own}

-- A touched row still passes the checks of a row, and its idle expiry only grew.
touched-check_row :
    (r : Row) (until : ℕ)
    → check_row r ≡ true
    → check_row (record r { idle_expires_at = touched r until }) ≡ true
unfolding check_row touched
touched-check_row r until good = ground arith

pub touch-eq-ok :
    (ctx : Bool) (clk : ℕ) (t hash : Bytes) (until : ℕ) (s s' : Store) (n : ℕ)
    → touch ctx clk t hash until s ≡ ok (s', n)
    → (r : Row) × (lookup t hash (micro clk) s ≡ some r)
      × (n ≡ touched r (micro until))
      × (s' ≡ record s { rows = put ℕ_discrete r.id (record r { idle_expires_at = n }) s.rows })
unfolding touch
touch-eq-ok ctx clk t hash until s s' n e = elim (Option-cases (lookup t hash (micro clk) s)) [
  | inl f ↦ ground arith
  | inr (r, f) ↦ (r, f, ground arith, ground arith)
]

-- A row written over the one of its id, with the same digest.
same_digest-IsConsistent :
    (r next : Row) (s : Store)
    → IsConsistent s
    → row_at r.id s ≡ some r
    → check_row next ≡ true
    → next.id ≡ r.id
    → next.token_hash ≡ r.token_hash
    → IsConsistent (record s { rows = put ℕ_discrete r.id next s.rows })
same_digest-IsConsistent r next s w at good named digest = record {
  indexed = λ h k f.
      let (x, found, hash) = w.indexed h k f in
      elim (ℕ_discrete r.id k) [
        | yes eq ↦ (next, ground (arith, get-put ℕ_discrete r.id k next s.rows), ground arith)
        | no other ↦ (x, ground (arith, get-put ℕ_discrete r.id k next s.rows), hash)
      ];
  listed = λ k x f. elim (ℕ_discrete r.id k) [
    | yes eq ↦
        let (_, own, _) = w.listed r.id r at in
        ground (arith, get-put ℕ_discrete r.id k next s.rows)
    | no other ↦ w.listed k x (ground (arith, get-put ℕ_discrete r.id k next s.rows))
  ];
}

pub touch-IsConsistent :
    (ctx : Bool) (clk : ℕ) (t hash : Bytes) (until : ℕ) (s s' : Store) (n : ℕ)
    → IsConsistent s
    → touch ctx clk t hash until s ≡ ok (s', n)
    → IsConsistent s'
touch-IsConsistent ctx clk t hash until s s' n w e =
    let (r, found, count, eq) = touch-eq-ok ctx clk t hash until s s' n e in
    let (at, _, _, good) = lookup-own t hash (micro clk) s r w found in
    rw eq (
      same_digest-IsConsistent r (record r { idle_expires_at = n }) s w at
        (rw count (touched-check_row r (micro until) good)) refl refl)

pub replace-eq-ok :
    (ctx : Bool) (clk : ℕ) (next : Row) (previous : ℕ) (s s' : Store)
    → replace ctx clk next previous s ≡ ok s'
    → (r : Row) × (row_at previous s ≡ some r)
      × (live r (micro clk) ≡ true)
      × (same_session r next ≡ true)
      × (check_row (row_of next) ≡ true)
      × (row_at (row_of next).id s ≡ none)
      × (id_of (row_of next).token_hash s ≡ none)
      × (s' ≡ stored (row_of next) (end_session previous (micro clk) s))
unfolding replace restore
replace-eq-ok ctx clk next previous s s' e = elim (Option-cases (row_at previous s)) [
  | inl f ↦ ground arith
  | inr (r, f) ↦
      (r, f, ground arith, ground arith, ground arith, ground arith, ground arith, ground arith)
]

pub row_at-end_session :
    (id now k : ℕ) (s : Store)
    → row_at k (end_session id now s) ≡ (if id == k then none else row_at k s)
unfolding end_session
row_at-end_session id now k s = elim (Option-cases (row_at id s)) [
  | inl e ↦ ground arith
  | inr (r, e) ↦ ground (arith, get-delete ℕ_discrete id k s.rows)
]

id_of-end_session :
    (id now : ℕ) (h : Bytes) (s : Store) → id_of h s ≡ none → id_of h (end_session id now s) ≡ none
unfolding end_session
id_of-end_session id now h s e = elim (Option-cases (row_at id s)) [
  | inl f ↦ ground arith
  | inr (r, f) ↦ ground (arith, get-delete bytes_discrete r.token_hash h s.by_hash)
]

pub replace-IsConsistent :
    (ctx : Bool) (clk : ℕ) (next : Row) (previous : ℕ) (s s' : Store)
    → IsConsistent s
    → replace ctx clk next previous s ≡ ok s'
    → IsConsistent s'
replace-IsConsistent ctx clk next previous s s' w e =
    let (r, at, _, _, good, fresh, unused, eq) = replace-eq-ok ctx clk next previous s s' e in
    rw eq (
      stored-IsConsistent (row_of next) (end_session previous (micro clk) s)
        (end_session-IsConsistent previous (micro clk) s w) good
        (ground (arith, row_at-end_session previous (micro clk) (row_of next).id s))
        (id_of-end_session previous (micro clk) (row_of next).token_hash s unused))

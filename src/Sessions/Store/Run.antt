-- ===== src/Sessions/Store/Run.antt =====
-- The writes of a session store as a step relation, and the invariant over any run of them.
use egauth.Base.{
  ℕ, ◌≡◌, ◌≢◌, some, Bool, List, [], ◌∷◌, Bytes, eqb, ok, arith, Option-cases, Bool-cases, inl, inr,
  bytes_discrete, ◌⊎◌,
}
use egauth.Base.Maps.{keys}
use egauth.Core.Policy.{Subject}
use egauth.Core.Pending.{subject_discrete}
use egauth.Sessions.Record.{Row}
use egauth.Sessions.Store.{
  Store, row_at, id_of, live, end_session, end_where, create, erase_tenant, micro, reap_rows,
  reap_expired, new_store,
}
use egauth.Sessions.Store.Calls.{
  touch, rotate, replace, revoke, revoke_session, revoke_for_subject, delete_for_subject, is_victim,
}
use egauth.Sessions.Store.Invariant.{
  IsConsistent, dropped-IsConsistent, end_session-IsConsistent, end_where-IsConsistent,
  new_store-IsConsistent,
}
use egauth.Sessions.Store.Kept.{create-IsConsistent, rotate-IsConsistent}
use egauth.Sessions.Store.Steps.{touch-IsConsistent, replace-IsConsistent}

reap_rows-IsConsistent :
    (ids : List ℕ) (now : ℕ) (s : Store) → IsConsistent s → IsConsistent ((reap_rows ids now s).0)
unfolding reap_rows
reap_rows-IsConsistent [] now s w = w
reap_rows-IsConsistent (id ∷ ids) now s w = elim (Option-cases (row_at id s)) [
  | inl e ↦ rw e (reap_rows-IsConsistent ids now s w)
  | inr (r, e) ↦ rw e (elim (Bool-cases (live r now)) [
    | inl l ↦ rw l (reap_rows-IsConsistent ids now s w)
    | inr l ↦ rw l (reap_rows-IsConsistent ids now _ (dropped-IsConsistent id r s w e))
  ])
]

pub reap_expired-eq-ok :
    (ctx : Bool) (clk : ℕ) (s s' : Store) (n : ℕ)
    → reap_expired ctx clk s ≡ ok (s', n)
    → (s'.rows ≡ (reap_rows (keys s.rows) (micro clk) s).0.rows)
      × (s'.by_hash ≡ (reap_rows (keys s.rows) (micro clk) s).0.by_hash)
unfolding reap_expired
reap_expired-eq-ok ctx clk s s' n e = ground arith

reap_expired-IsConsistent :
    (ctx : Bool) (clk : ℕ) (s s' : Store) (n : ℕ)
    → IsConsistent s
    → reap_expired ctx clk s ≡ ok (s', n)
    → IsConsistent s'
reap_expired-IsConsistent ctx clk s s' n w e =
    let (rows, index) = reap_expired-eq-ok ctx clk s s' n e in
    let rest = reap_rows-IsConsistent (keys s.rows) (micro clk) s w in
    record { indexed = rw (rows, index) rest.indexed; listed = rw (rows, index) rest.listed }

-- The successful writes.
pub data Step : Store → Store → Type 0 where
  created : (ctx : Bool) (r : Row) {s s' : Store} → create ctx r s ≡ ok s' → Step s s'
  touches :
      (ctx : Bool) (clk : ℕ) (t hash : Bytes) (until n : ℕ) {s s' : Store}
      → touch ctx clk t hash until s ≡ ok (s', n)
      → Step s s'
  rotated :
      (ctx : Bool) (clk : ℕ) (next : Row) (previous : Bytes) {s s' : Store}
      → rotate ctx clk next previous s ≡ ok s'
      → Step s s'
  replaced :
      (ctx : Bool) (clk : ℕ) (next : Row) (previous : ℕ) {s s' : Store}
      → replace ctx clk next previous s ≡ ok s'
      → Step s s'
  revoked :
      (ctx : Bool) (clk : ℕ) (t hash : Bytes) {s s' : Store}
      → revoke ctx clk t hash s ≡ ok s'
      → Step s s'
  session_revoked :
      (ctx : Bool) (clk : ℕ) (sub : Subject) (id : ℕ) {s s' : Store}
      → revoke_session ctx clk sub id s ≡ ok s'
      → Step s s'
  subject_revoked :
      (ctx : Bool) (clk : ℕ) (sub : Subject) (except : ℕ) {s s' : Store}
      → revoke_for_subject ctx clk sub except s ≡ ok s'
      → Step s s'
  subject_deleted :
      (ctx : Bool) (clk : ℕ) (sub : Subject) {s s' : Store}
      → delete_for_subject ctx clk sub s ≡ ok s'
      → Step s s'
  tenant_erased :
      (ctx : Bool) (clk : ℕ) (t : Bytes) {s s' : Store}
      → erase_tenant ctx clk t s ≡ ok s'
      → Step s s'
  reaped : (ctx : Bool) (clk n : ℕ) {s s' : Store} → reap_expired ctx clk s ≡ ok (s', n) → Step s s'

-- The stores that a new store reaches.
pub data Run : Store → Type 0 where
  start : Run new_store
  after : {s s' : Store} → Run s → Step s s' → Run s'

-- Revoke ends the row of the digest if its tenant is the one given; if the digest leads to no such
-- row, nothing changes.
pub revoke-eq-ok :
    (ctx : Bool) (clk : ℕ) (t hash : Bytes) (s s' : Store)
    → revoke ctx clk t hash s ≡ ok s'
    → ((s' ≡ s)
        × ((id : ℕ) (r : Row)
            → row_at id s ≡ some r
            → id_of hash s ≡ some id
            → r.subject.tenant ≢ t))
      ⊎ ((id : ℕ) × (r : Row) × (s' ≡ end_session id (micro clk) s)
          × (id_of hash s ≡ some id)
          × (row_at id s ≡ some r)
          × (r.subject.tenant ≡ t))
unfolding revoke
revoke-eq-ok ctx clk t hash s s' e = elim (Option-cases (id_of hash s)) [
  | inl f ↦ inl (ground arith, λ id r at h. absurd (ground arith))
  | inr (id, f) ↦ elim (Option-cases (row_at id s)) [
    | inl g ↦ inl (ground arith, λ k x at h. absurd (ground arith))
    | inr (r, g) ↦ elim (Bool-cases (eqb bytes_discrete r.subject.tenant t)) [
      | inl h ↦ inr (id, r, ground arith, f, g, ground arith)
      | inr h ↦ inl (ground arith, λ k x at i. ground arith)
    ]
  ]
]

pub revoke_session-eq-ok :
    (ctx : Bool) (clk : ℕ) (sub : Subject) (id : ℕ) (s s' : Store)
    → revoke_session ctx clk sub id s ≡ ok s'
    → ((s' ≡ s) × ((r : Row) → row_at id s ≡ some r → r.subject ≢ sub))
      ⊎ ((r : Row) × (s' ≡ end_session id (micro clk) s)
          × (row_at id s ≡ some r)
          × (r.subject ≡ sub))
unfolding revoke_session
revoke_session-eq-ok ctx clk sub id s s' e = elim (Option-cases (row_at id s)) [
  | inl g ↦ inl (ground arith, λ r at. absurd (ground arith))
  | inr (r, g) ↦ elim (Bool-cases (eqb subject_discrete r.subject sub)) [
    | inl h ↦ inr (r, ground arith, g, ground arith)
    | inr h ↦ inl (ground arith, λ x at. ground arith)
  ]
]

pub revoke_for_subject-eq-ok :
    (ctx : Bool) (clk : ℕ) (sub : Subject) (except : ℕ) (s s' : Store)
    → revoke_for_subject ctx clk sub except s ≡ ok s'
    → s' ≡ end_where (is_victim sub except) (micro clk) s
unfolding revoke_for_subject
revoke_for_subject-eq-ok ctx clk sub except s s' e = ground arith

pub delete_for_subject-eq-ok :
    (ctx : Bool) (clk : ℕ) (sub : Subject) (s s' : Store)
    → delete_for_subject ctx clk sub s ≡ ok s'
    → s' ≡ end_where (λ r. eqb subject_discrete r.subject sub) (micro clk) s
unfolding delete_for_subject
delete_for_subject-eq-ok ctx clk sub s s' e = ground arith

pub erase_tenant-eq-ok :
    (ctx : Bool) (clk : ℕ) (t : Bytes) (s s' : Store)
    → erase_tenant ctx clk t s ≡ ok s'
    → s' ≡ end_where (λ r. eqb bytes_discrete r.subject.tenant t) (micro clk) s
unfolding erase_tenant
erase_tenant-eq-ok ctx clk t s s' e = ground arith

Step-IsConsistent : {s s' : Store} → Step s s' → IsConsistent s → IsConsistent s'
Step-IsConsistent (created ctx r {s} {s'} e) w = create-IsConsistent ctx r s s' w e
Step-IsConsistent (touches ctx clk t hash until n {s} {s'} e) w =
    touch-IsConsistent ctx clk t hash until s s' n w e
Step-IsConsistent (rotated ctx clk next previous {s} {s'} e) w =
    rotate-IsConsistent ctx clk next previous s s' w e
Step-IsConsistent (replaced ctx clk next previous {s} {s'} e) w =
    replace-IsConsistent ctx clk next previous s s' w e
Step-IsConsistent (revoked ctx clk t hash {s} {s'} e) w =
    elim (revoke-eq-ok ctx clk t hash s s' e) [
      | inl (eq, _) ↦ rw eq w
      | inr (id, _, eq, _, _, _) ↦ rw eq (end_session-IsConsistent id (micro clk) s w)
    ]
Step-IsConsistent (session_revoked ctx clk sub id {s} {s'} e) w =
    elim (revoke_session-eq-ok ctx clk sub id s s' e) [
      | inl (eq, _) ↦ rw eq w
      | inr (_, eq, _, _) ↦ rw eq (end_session-IsConsistent id (micro clk) s w)
    ]
Step-IsConsistent (subject_revoked ctx clk sub except {s} {s'} e) w =
    rw (revoke_for_subject-eq-ok ctx clk sub except s s' e)
      (end_where-IsConsistent _ (micro clk) s w)
Step-IsConsistent (subject_deleted ctx clk sub {s} {s'} e) w =
    rw (delete_for_subject-eq-ok ctx clk sub s s' e) (end_where-IsConsistent _ (micro clk) s w)
Step-IsConsistent (tenant_erased ctx clk t {s} {s'} e) w =
    rw (erase_tenant-eq-ok ctx clk t s s' e) (end_where-IsConsistent _ (micro clk) s w)
Step-IsConsistent (reaped ctx clk n {s} {s'} e) w = reap_expired-IsConsistent ctx clk s s' n w e

-- In every store that a new one reaches by successful creates, touches, rotations, replacements,
-- revocations, erasures and reaps, a digest leads to a row with that digest, every row is reached by
-- its own digest, is under its own id, and passes the checks of a row.
pub Run-IsConsistent : (s : Store) → Run s → IsConsistent s
Run-IsConsistent s start = new_store-IsConsistent
Run-IsConsistent s (after r step) = Step-IsConsistent step (Run-IsConsistent _ r)

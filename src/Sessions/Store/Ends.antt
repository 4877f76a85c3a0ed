-- ===== src/Sessions/Store/Ends.antt =====
-- Which sessions the revocations, erasures and reaps of a session store end.
use egauth.Base.{
  ℕ, ◌≡◌, refl, Bool, not, List, [], ◌∷◌, Bytes, if◌then◌else◌, ◌==◌, arith, Option-cases,
  Bool-cases, inl, inr, bytes_discrete, ℕ_discrete, ◌∙◌, ap, eqb, leb, ◌&&◌, ◌||◌, ok,
}
use egauth.Base.Maps.{keys, delete, get-delete, has_key, has_key-keys}
use egauth.Core.Policy.{Subject}
use egauth.Core.Pending.{subject_discrete}
use egauth.Sessions.Record.{Row}
use egauth.Sessions.Store.{Store, row_at, live, end_where, reap_rows, micro}
use egauth.Sessions.Store.Calls.{revoke, revoke_session}
use egauth.Sessions.Store.Invariant.{IsConsistent}
use egauth.Sessions.Store.Steps.{row_at-end_session}
use egauth.Sessions.Store.Run.{revoke-eq-ok, revoke_session-eq-ok}
use egauth.Sessions.Store.Ended.{row_at-end_where}
use egauth.Sessions.Store.Spec.{view, unless, Ends}

-- Ending the rows that pass a test.
pub end_where-Ends :
    (p : Row → Bool) (now : ℕ) (s s' : Store) → s' ≡ end_where p now s → Ends p (view s) (view s')
end_where-Ends p now s s' e k = ap (row_at k) e ∙ row_at-end_where p now k s ∙ ground arith

-- The row that Revoke ends is the one of the digest, if its tenant is the one given.
pub revoke-Ends :
    (ctx : Bool) (clk : ℕ) (t hash : Bytes) (s s' : Store)
    → IsConsistent s
    → revoke ctx clk t hash s ≡ ok s'
    → Ends
        (λ r. eqb bytes_discrete r.token_hash hash && eqb bytes_discrete r.subject.tenant t)
        (view s)
        (view s')
revoke-Ends ctx clk t hash s s' w e k = elim (revoke-eq-ok ctx clk t hash s s' e) [
  | inl (same, missed) ↦ ap (row_at k) same ∙ elim (Option-cases (row_at k s)) [
    | inl f ↦ ground arith
    | inr (x, f) ↦ let (named, back, _) = w.listed k x f in ground (arith, missed k x)
  ]
  | inr (id, r, same, at, row, tenant) ↦
      let (q, at_q, digest) = w.indexed hash id at in
      ap (row_at k) same
      ∙ row_at-end_session id (micro clk) k s
      ∙ elim (Option-cases (row_at k s)) [
        | inl f ↦ ground arith
        | inr (x, f) ↦ let (named, back, _) = w.listed k x f in ground arith
      ]
]

pub revoke_session-Ends :
    (ctx : Bool) (clk : ℕ) (sub : Subject) (id : ℕ) (s s' : Store)
    → IsConsistent s
    → revoke_session ctx clk sub id s ≡ ok s'
    → Ends (λ r. r.id == id && eqb subject_discrete r.subject sub) (view s) (view s')
revoke_session-Ends ctx clk sub id s s' w e k = elim (revoke_session-eq-ok ctx clk sub id s s' e) [
  | inl (same, missed) ↦ ap (row_at k) same ∙ elim (Option-cases (row_at k s)) [
    | inl f ↦ ground arith
    | inr (x, f) ↦ let (named, _, _) = w.listed k x f in ground (arith, missed x)
  ]
  | inr (r, same, row, owner) ↦
      ap (row_at k) same
      ∙ row_at-end_session id (micro clk) k s
      ∙ elim (Option-cases (row_at k s)) [
        | inl f ↦ ground arith
        | inr (x, f) ↦ let (named, _, _) = w.listed k x f in ground arith
      ]
]

row_at-reap_rows :
    (ids : List ℕ) (now k : ℕ) (s : Store)
    → row_at k (reap_rows ids now s).0 ≡ (
        if has_key ℕ_discrete ids k
        then unless (λ r. not (live r now)) (row_at k s)
        else row_at k s)
unfolding reap_rows
row_at-reap_rows [] now k s = refl
row_at-reap_rows (id ∷ ids) now k s = elim (Option-cases (row_at id s)) [
  | inl e ↦ rw e (ground (arith, row_at-reap_rows ids now k s))
  | inr (r, e) ↦ rw e (elim (Bool-cases (live r now)) [
    | inl l ↦ rw l (ground (arith, row_at-reap_rows ids now k s))
    | inr l ↦
        let dropped : Store = record s {
          rows = delete ℕ_discrete id s.rows;
          by_hash = delete bytes_discrete r.token_hash s.by_hash;
        } in
        rw l
          (row_at-reap_rows ids now k dropped ∙ ground (arith, get-delete ℕ_discrete id k s.rows))
  ])
]

pub reaped-Ends :
    (now : ℕ) (s s' : Store)
    → s'.rows ≡ (reap_rows (keys s.rows) now s).0.rows
    → Ends (λ r. leb r.idle_expires_at now || leb r.absolute_expires_at now) (view s) (view s')
unfolding live
reaped-Ends now s s' e k = rw e (
    row_at-reap_rows (keys s.rows) now k s ∙ elim (Option-cases (row_at k s)) [
      | inl f ↦ ground arith
      | inr (r, f) ↦ ground (arith, has_key-keys ℕ_discrete s.rows k r f)
    ])

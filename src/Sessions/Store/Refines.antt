-- ===== src/Sessions/Store/Refines.antt =====
-- The session store implements its specification.
use egauth.Base.{
  ℕ, ◌≡◌, ◌↔◌, Bool, true, Bytes, none, some, arith, inl, inr, ℕ_discrete, sym, ◌∙◌, ap, ok,
}
use egauth.Base.Maps.{get-put}
use egauth.Sessions.Record.{Row}
use egauth.Sessions.Store.{Store, row_at, id_of, live, end_session, row_of, micro, create}
use egauth.Sessions.Store.Calls.{lookup, same_session, touched, touch, rotate, replace}
use egauth.Sessions.Store.Invariant.{IsConsistent}
use egauth.Sessions.Store.Kept.{create-eq-ok, rotate-eq-ok, lookup-own, lookup-eq-some}
use egauth.Sessions.Store.Steps.{row_at-end_session, touch-eq-ok, replace-eq-ok}
use egauth.Sessions.Store.Run.{
  Step, created, touches, rotated, replaced, revoked, session_revoked, subject_revoked,
  subject_deleted, tenant_erased, reaped, revoke_for_subject-eq-ok, delete_for_subject-eq-ok,
  erase_tenant-eq-ok, reap_expired-eq-ok,
}
use egauth.Sessions.Store.Ends.{end_where-Ends, revoke-Ends, revoke_session-Ends, reaped-Ends}
use egauth.Sessions.Store.Spec.{
  view, OnlyAt, IsFresh, IsNamed, Opens, Touches, Rotates, Replaces, Specified,
}

unused-IsFresh : (h : Bytes) (s : Store) → IsConsistent s → id_of h s ≡ none → IsFresh h (view s)
unused-IsFresh h s w e k x f same = let (_, back, _) = w.listed k x f in absurd (ground arith)

owned-OnlyAt :
    (id : ℕ) (h : Bytes) (s : Store) → IsConsistent s → id_of h s ≡ some id → OnlyAt id h (view s)
owned-OnlyAt id h s w e k x f same = let (_, back, _) = w.listed k x f in ground arith

same_session-eq :
    (r next : Row)
    → same_session r next ≡ true
    → ((row_of next).subject ≡ r.subject) × ((row_of next).lineage ≡ r.lineage)
unfolding same_session row_of
same_session-eq r next e = (ground arith, ground arith)

lookup-IsNamed :
    (t hash : Bytes) (now : ℕ) (s : Store) (r : Row)
    → IsConsistent s
    → lookup t hash now s ≡ some r
    → IsNamed t hash now (view s) r
lookup-IsNamed t hash now s r w e =
    let (at, digest, _, _) = lookup-own t hash now s r w e in
    let (_, _, _, tenant, alive) = lookup-eq-some t hash now s r e in
    record { stands = at; digest = digest; tenant = tenant; alive = alive }

create-Opens :
    (ctx : Bool) (r : Row) (s s' : Store)
    → IsConsistent s
    → create ctx r s ≡ ok s'
    → Opens (row_of r) (view s) (view s')
create-Opens ctx r s s' w e =
    let (good, fresh, unused, same) = create-eq-ok ctx r s s' e in
    record {
      new_id = fresh;
      new_digest = unused-IsFresh _ s w unused;
      written = λ k.
          ap (row_at k) same ∙ ground (arith, get-put ℕ_discrete (row_of r).id k (row_of r) s.rows);
    }

touch-Touches :
    (ctx : Bool) (clk : ℕ) (t hash : Bytes) (until : ℕ) (s s' : Store) (n : ℕ)
    → IsConsistent s
    → touch ctx clk t hash until s ≡ ok (s', n)
    → Touches t hash (micro clk) (micro until) n (view s) (view s')
unfolding touched
touch-Touches ctx clk t hash until s s' n w e =
    let (r, found, count, same) = touch-eq-ok ctx clk t hash until s s' n e in
    let next : Row = record r { idle_expires_at = n } in
    record {
      row = r;
      named = lookup-IsNamed t hash (micro clk) s r w found;
      never_back = ground arith;
      bounded = ground arith;
      reached = ground arith;
      written = λ k. ap (row_at k) same ∙ ground (arith, get-put ℕ_discrete r.id k next s.rows);
    }

rotate-Rotates :
    (ctx : Bool) (clk : ℕ) (next : Row) (previous : Bytes) (s s' : Store)
    → IsConsistent s
    → rotate ctx clk next previous s ≡ ok s'
    → Rotates next.subject.tenant previous (micro clk) (row_of next) (view s) (view s')
rotate-Rotates ctx clk next previous s s' w e =
    let (r, found, same, session, bound, free, good, eq) =
      rotate-eq-ok ctx clk next previous s s' e in
    let kept : Row = record (row_of next) { created_at = r.created_at } in
    let (subject, lineage) = same_session-eq r next session in
    record {
      row = r;
      named = lookup-IsNamed next.subject.tenant previous (micro clk) s r w found;
      same_id = sym same;
      same_subject = subject;
      same_lineage = lineage;
      no_later = ground arith;
      own_digest = elim free [
        | inl unused ↦ λ k x f h. absurd (unused-IsFresh kept.token_hash s w unused k x f h)
        | inr own ↦ owned-OnlyAt r.id kept.token_hash s w own
      ];
      written = λ k. ap (row_at k) eq ∙ ground (arith, same, get-put ℕ_discrete r.id k kept s.rows);
    }

replace-Replaces :
    (ctx : Bool) (clk : ℕ) (next : Row) (previous : ℕ) (s s' : Store)
    → IsConsistent s
    → replace ctx clk next previous s ≡ ok s'
    → Replaces previous (micro clk) (row_of next) (view s) (view s')
replace-Replaces ctx clk next previous s s' w e =
    let (r, at, alive, session, good, fresh, unused, eq) =
      replace-eq-ok ctx clk next previous s s' e in
    let (subject, lineage) = same_session-eq r next session in
    record {
      row = r;
      stands = at;
      alive = alive;
      same_subject = subject;
      same_lineage = lineage;
      new_id = fresh;
      new_digest = unused-IsFresh _ s w unused;
      written = λ k.
          ap (row_at k) eq
          ∙ ground (
            arith,
            get-put ℕ_discrete (row_of next).id k (row_of next)
                (end_session previous (micro clk) s).rows,
            row_at-end_session previous (micro clk) k s,
          );
    }

-- Each successful write of a store whose rows and digests agree does to the sessions what the
-- specification says of that operation and its arguments: Create opens the given one, Touch moves the
-- idle end of the live one named, Rotate carries it on under a new digest, Replace puts one in the
-- place of another, and Revoke, RevokeSession, RevokeForSubject, DeleteForSubject, EraseTenant and
-- ReapExpired end exactly the sessions of the digest and tenant, of the id and subject, of the subject
-- outside the excepted lineage, of the subject, of the tenant, or expired; every other one stays.
pub Step-refines :
    {s s' : Store} → IsConsistent s → (step : Step s s') → Specified step (view s) (view s')
Step-refines {s} {s'} w (created ctx r e) = create-Opens ctx r s s' w e
Step-refines {s} {s'} w (touches ctx clk t hash until n e) =
    touch-Touches ctx clk t hash until s s' n w e
Step-refines {s} {s'} w (rotated ctx clk next previous e) =
    rotate-Rotates ctx clk next previous s s' w e
Step-refines {s} {s'} w (replaced ctx clk next previous e) =
    replace-Replaces ctx clk next previous s s' w e
Step-refines {s} {s'} w (revoked ctx clk t hash e) = revoke-Ends ctx clk t hash s s' w e
Step-refines {s} {s'} w (session_revoked ctx clk sub id e) =
    revoke_session-Ends ctx clk sub id s s' w e
Step-refines {s} {s'} w (subject_revoked ctx clk sub except e) =
    end_where-Ends _ (micro clk) s s' (revoke_for_subject-eq-ok ctx clk sub except s s' e)
Step-refines {s} {s'} w (subject_deleted ctx clk sub e) =
    end_where-Ends _ (micro clk) s s' (delete_for_subject-eq-ok ctx clk sub s s' e)
Step-refines {s} {s'} w (tenant_erased ctx clk t e) =
    end_where-Ends _ (micro clk) s s' (erase_tenant-eq-ok ctx clk t s s' e)
Step-refines {s} {s'} w (reaped ctx clk n e) =
    let (rows, _) = reap_expired-eq-ok ctx clk s s' n e in reaped-Ends (micro clk) s s' rows

-- In a store whose rows and digests agree, a lookup of a tenant and a digest finds exactly the session of
-- the specification that has this tenant and this digest and is live at the time.
pub lookup-view :
    (t hash : Bytes) (now : ℕ) (s : Store) (r : Row)
    → IsConsistent s
    → (lookup t hash now s ≡ some r) ↔ (
        (view s r.id ≡ some r)
        × (r.token_hash ≡ hash)
        × (r.subject.tenant ≡ t)
        × (live r now ≡ true))
unfolding lookup
lookup-view t hash now s r w = (
  λ e.
      let (at, digest, _, _) = lookup-own t hash now s r w e in
      let (_, _, _, tenant, alive) = lookup-eq-some t hash now s r e in (at, digest, tenant, alive),
  λ (at, digest, tenant, alive). let (_, back, _) = w.listed r.id r at in ground arith,
)

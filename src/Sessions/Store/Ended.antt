-- ===== src/Sessions/Store/Ended.antt =====
-- What the ends of sessions leave behind: which rows, which digests, and the answers of a lookup.
use egauth.Base.{
  ℕ, ◌≤◌, ◌≡◌, refl, ◌≢◌, Bool, true, false, ◌||◌, List, [], ◌∷◌, Bytes, if◌then◌else◌, eqb, ◌==◌,
  none, some, ok, arith, Option-cases, Bool-cases, inl, inr, bytes_discrete, ℕ_discrete, sym, ◌∙◌,
  ap,
}
use egauth.Base.Maps.{keys, get-put, get-delete, has_key, holds, keys_where, has_key-matching}
use egauth.Core.Policy.{Subject}
use egauth.Sessions.Record.{Row, check_row, restore}
use egauth.Sessions.Store.{
  Store, row_at, id_of, live, end_session, end_each, end_where, row_of, insert_id, sort_ids, micro,
}
use egauth.Sessions.Store.Calls.{
  lookup, touch, touched, rotate, revoke, revoke_for_subject, is_victim, same_session, found,
  get_session,
}
use egauth.Sessions.Store.Invariant.{IsConsistent}
use egauth.Sessions.Store.Kept.{id_of-moved, rotate-eq-ok, lookup-own, lookup-eq-some}
use egauth.Sessions.Store.Steps.{row_at-end_session, touch-eq-ok}
use egauth.Sessions.Store.Run.{revoke_for_subject-eq-ok}

has_key-insert_id :
    (n : ℕ) (ms : List ℕ) (k : ℕ)
    → has_key ℕ_discrete (insert_id n ms) k ≡ (n == k || has_key ℕ_discrete ms k)
unfolding insert_id
has_key-insert_id n [] k = ground arith
has_key-insert_id n (m ∷ ms) k = ground (arith, has_key-insert_id n ms k)

has_key-sort_ids :
    (ns : List ℕ) (k : ℕ) → has_key ℕ_discrete (sort_ids ns) k ≡ has_key ℕ_discrete ns k
unfolding sort_ids
has_key-sort_ids [] k = refl
has_key-sort_ids (n ∷ ns) k =
    ground (arith, has_key-insert_id n (sort_ids ns) k, has_key-sort_ids ns k)

row_at-end_each :
    (ids : List ℕ) (now k : ℕ) (s : Store)
    → row_at k (end_each ids now s) ≡ (if has_key ℕ_discrete ids k then none else row_at k s)
unfolding end_each
row_at-end_each [] now k s = refl
row_at-end_each (id ∷ ids) now k s =
    row_at-end_each ids now k (end_session id now s) ∙ ground (arith, row_at-end_session id now k s)

pub row_at-end_where :
    (match : Row → Bool) (now k : ℕ) (s : Store)
    → row_at k (end_where match now s)
      ≡ (if holds ℕ_discrete match s.rows k then none else row_at k s)
unfolding end_where
row_at-end_where match now k s =
    row_at-end_each (sort_ids (keys_where ℕ_discrete match s.rows (keys s.rows))) now k s
    ∙ ground (
      arith,
      has_key-sort_ids (keys_where ℕ_discrete match s.rows (keys s.rows)) k,
      has_key-matching ℕ_discrete match s.rows k,
    )

-- A successful RevokeForSubject leaves no row of the subject, save those of the excepted lineage
-- when one is given, and every other row as it was.
row_at-revoke_for_subject :
    (ctx : Bool) (clk : ℕ) (sub : Subject) (except : ℕ) (s s' : Store) (k : ℕ)
    → revoke_for_subject ctx clk sub except s ≡ ok s'
    → row_at k s' ≡ (if holds ℕ_discrete (is_victim sub except) s.rows k then none else row_at k s)
row_at-revoke_for_subject ctx clk sub except s s' k e =
    ap (row_at k) (revoke_for_subject-eq-ok ctx clk sub except s s' e)
    ∙ row_at-end_where (is_victim sub except) (micro clk) k s

-- In a consistent store, after a successful Revoke of a tenant and a digest, no lookup of that tenant
-- and digest finds a row, whatever the time.
pub revoke-lookup :
    (ctx : Bool) (clk now : ℕ) (t hash : Bytes) (s s' : Store)
    → IsConsistent s
    → revoke ctx clk t hash s ≡ ok s'
    → lookup t hash now s' ≡ none
unfolding revoke lookup end_session
revoke-lookup ctx clk now t hash s s' w e = elim (Option-cases (id_of hash s)) [
  | inl f ↦ ground arith
  | inr (id, f) ↦
      let (r, at, digest) = w.indexed hash id f in
      elim (Bool-cases (eqb bytes_discrete r.subject.tenant t)) [
        | inl h ↦ ground (arith, get-delete bytes_discrete r.token_hash hash s.by_hash)
        | inr h ↦ ground arith
      ]
]

-- What a lookup in a consistent store finds is a row of the tenant and of the digest, live at the
-- time and past the checks of a row, so that Get restores it.
get_session-lookup :
    (clk : ℕ) (t hash : Bytes) (s : Store) (r : Row)
    → IsConsistent s
    → lookup t hash (micro clk) s ≡ some r
    → (get_session false clk t hash s ≡ ok r)
      × (r.subject.tenant ≡ t)
      × (r.token_hash ≡ hash)
      × (live r (micro clk) ≡ true)
unfolding get_session restore
get_session-lookup clk t hash s r w e =
    let (id, _, _, tenant, alive) = lookup-eq-some t hash (micro clk) s r e in
    let (_, digest, _, good) = lookup-own t hash (micro clk) s r w e in
    (ground arith, tenant, digest, alive)

-- In a consistent store, a successful Rotate to another digest ends the previous one for every tenant
-- and time, and puts the new record under the new digest, with the id, subject, lineage and creation
-- time of the old row and an absolute expiry no later than the old one.
pub rotate-lookup :
    (ctx : Bool) (clk now : ℕ) (next : Row) (t previous : Bytes) (s s' : Store)
    → IsConsistent s
    → rotate ctx clk next previous s ≡ ok s'
    → next.token_hash ≢ previous
    → (lookup t previous now s' ≡ none)
      × ((r : Row) × (r' : Row) × (lookup next.subject.tenant previous (micro clk) s ≡ some r)
          × (id_of next.token_hash s' ≡ some r.id)
          × (row_at r.id s' ≡ some r')
          × (r'.token_hash ≡ next.token_hash)
          × (r'.id ≡ r.id)
          × (r'.subject ≡ r.subject)
          × (r'.lineage ≡ r.lineage)
          × (r'.created_at ≡ r.created_at)
          × (r'.absolute_expires_at ≤ r.absolute_expires_at))
unfolding lookup same_session row_of
rotate-lookup ctx clk now next t previous s s' w e ne =
    let (r, found, same, session, bound, free, good, eq) =
      rotate-eq-ok ctx clk next previous s s' e in
    let (at, digest, _, _) = lookup-own next.subject.tenant previous (micro clk) s r w found in
    let kept : Row = record (row_of next) { created_at = r.created_at } in
    (
      ground (arith, id_of-moved r kept s previous),
      (
        r,
        kept,
        found,
        ground (arith, id_of-moved r kept s next.token_hash),
        ground (arith, get-put ℕ_discrete r.id r.id kept s.rows),
        refl,
        sym same,
        ground arith,
        ground arith,
        refl,
        ground arith,
      ),
    )

-- A successful Touch answers the idle expiry it wrote, which is no earlier than the one of the live
-- row it found and, in a consistent store, no later than that row's absolute expiry; under every
-- other id the rows are as they were.
touch-bounds :
    (ctx : Bool) (clk : ℕ) (t hash : Bytes) (until : ℕ) (s s' : Store) (n k : ℕ)
    → IsConsistent s
    → touch ctx clk t hash until s ≡ ok (s', n)
    → (r : Row) × (lookup t hash (micro clk) s ≡ some r)
      × (row_at k s' ≡ (if r.id == k then some (record r { idle_expires_at = n }) else row_at k s))
      × (r.idle_expires_at ≤ n)
      × (n ≤ r.absolute_expires_at)
unfolding touched check_row
touch-bounds ctx clk t hash until s s' n k w e =
    let (r, found, count, eq) = touch-eq-ok ctx clk t hash until s s' n e in
    let (at, _, _, good) = lookup-own t hash (micro clk) s r w found in
    (
      r,
      found,
      ground (arith, get-put ℕ_discrete r.id k (record r { idle_expires_at = n }) s.rows),
      ground arith,
      ground arith,
    )

-- ===== src/Sessions/Store/Spec.antt =====
-- The specification of a session store: a partial map from ids to rows, with no index of digests, and
-- what each operation does to it.
use egauth.Base.{
  ℕ, ◌≤◌, ◌≡◌, ◌≢◌, ◌⊎◌, Bool, true, not, ◌&&◌, ◌||◌, Bytes, eqb, leb, ◌==◌, if◌then◌else◌, Option,
  none, some, bytes_discrete,
}
use egauth.Core.Policy.{uuid_nil}
use egauth.Core.Pending.{subject_discrete}
use egauth.Sessions.Record.{Row}
use egauth.Sessions.Store.{Store, row_at, live, row_of, micro}
use egauth.Sessions.Store.Run.{
  Step, created, touches, rotated, replaced, revoked, session_revoked, subject_revoked,
  subject_deleted, tenant_erased, reaped,
}

abbrev pub View : Type 0
View = ℕ → Option Row

abbrev pub view : Store → View
view s id = row_at id s

-- Only the session of an id may have a digest.
abbrev pub OnlyAt : ℕ → Bytes → View → Type 0
OnlyAt id h v = (k : ℕ) (x : Row) → v k ≡ some x → x.token_hash ≡ h → k ≡ id

abbrev pub IsFresh : Bytes → View → Type 0
IsFresh h v = (k : ℕ) (x : Row) → v k ≡ some x → x.token_hash ≢ h

-- The live session of a tenant and a digest.
pub record IsNamed (t h : Bytes) (now : ℕ) (v : View) (r : Row) : Type 0 where
  pub stands : v r.id ≡ some r
  pub digest : r.token_hash ≡ h
  pub tenant : r.subject.tenant ≡ t
  pub alive : live r now ≡ true

-- A session that ends if its row passes a test.
abbrev pub unless : (Row → Bool) → Option Row → Option Row
unless p none = none
unless p (some r) = if p r then none else some r

-- Exactly the sessions whose row passes a test end.
abbrev pub Ends : (Row → Bool) → View → View → Type 0
Ends p v w = (k : ℕ) → w k ≡ unless p (v k)

-- One session is written under its id, and no other changes.
abbrev pub Writes : Row → View → View → Type 0
Writes r v w = (k : ℕ) → w k ≡ (if r.id == k then some r else v k)

-- A session opens under a new id and a new digest.
pub record Opens (r : Row) (v w : View) : Type 0 where
  pub new_id : v r.id ≡ none
  pub new_digest : IsFresh r.token_hash v
  pub written : Writes r v w

-- The idle end of a live session moves to `until`, but not behind the absolute end and never back.
pub record Touches (t h : Bytes) (now until n : ℕ) (v w : View) : Type 0 where
  pub row : Row
  pub named : IsNamed t h now v row
  pub never_back : row.idle_expires_at ≤ n
  pub bounded : (n ≡ row.idle_expires_at) ⊎ ((n ≤ until) × (n ≤ row.absolute_expires_at))
  pub reached : (until ≤ n) ⊎ (row.absolute_expires_at ≤ n)
  pub written : Writes (record row { idle_expires_at = n }) v w

-- The live session of the previous digest goes on as `next`: same id, subject, lineage and creation,
-- an absolute end no later, under a digest that no other session has.
pub record Rotates (t previous : Bytes) (now : ℕ) (next : Row) (v w : View) : Type 0 where
  pub row : Row
  pub named : IsNamed t previous now v row
  pub same_id : next.id ≡ row.id
  pub same_subject : next.subject ≡ row.subject
  pub same_lineage : next.lineage ≡ row.lineage
  pub no_later : next.absolute_expires_at ≤ row.absolute_expires_at
  pub own_digest : OnlyAt row.id next.token_hash v
  pub written : Writes (record next { created_at = row.created_at }) v w

-- The live session of the previous id ends, and one of the same subject and lineage opens under a new
-- id and a new digest.
pub record Replaces (previous now : ℕ) (next : Row) (v w : View) : Type 0 where
  pub row : Row
  pub stands : v previous ≡ some row
  pub alive : live row now ≡ true
  pub same_subject : next.subject ≡ row.subject
  pub same_lineage : next.lineage ≡ row.lineage
  pub new_id : v next.id ≡ none
  pub new_digest : IsFresh next.token_hash v
  pub written :
      (k : ℕ) → w k ≡ (if next.id == k then some next else (if previous == k then none else v k))

-- What each operation does to the sessions, by its own arguments.
abbrev pub Specified : {s s' : Store} → Step s s' → View → View → Type 0
Specified (created ctx r e) v w = Opens (row_of r) v w
Specified (touches ctx clk t hash until n e) v w = Touches t hash (micro clk) (micro until) n v w
Specified (rotated ctx clk next previous e) v w =
    Rotates next.subject.tenant previous (micro clk) (row_of next) v w
Specified (replaced ctx clk next previous e) v w = Replaces previous (micro clk) (row_of next) v w
Specified (revoked ctx clk t hash e) v w =
    Ends (λ r. eqb bytes_discrete r.token_hash hash && eqb bytes_discrete r.subject.tenant t) v w
Specified (session_revoked ctx clk sub id e) v w =
    Ends (λ r. r.id == id && eqb subject_discrete r.subject sub) v w
Specified (subject_revoked ctx clk sub except e) v w =
    Ends
      (λ r. eqb subject_discrete r.subject sub && (except == uuid_nil || not (r.lineage == except)))
      v w
Specified (subject_deleted ctx clk sub e) v w = Ends (λ r. eqb subject_discrete r.subject sub) v w
Specified (tenant_erased ctx clk t e) v w = Ends (λ r. eqb bytes_discrete r.subject.tenant t) v w
Specified (reaped ctx clk n e) v w =
    Ends (λ r. leb r.idle_expires_at (micro clk) || leb r.absolute_expires_at (micro clk)) v w

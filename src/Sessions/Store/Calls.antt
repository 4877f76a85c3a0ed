-- ===== src/Sessions/Store/Calls.antt =====
-- store/sessions/memory/store.go: Get, Touch, Rotate, Replace and the revocations.
use egauth.Base.{
  ℕ, Bool, false, not, ◌&&◌, ◌||◌, Bytes, if◌then◌else◌, eqb, ltb, ◌==◌, Option, none, some, Result,
  ok, err, ◌>>=◌, ◌>>◌, refuse_if, bytes_discrete, ℕ_discrete,
}
use egauth.Base.Maps.{put, delete}
use egauth.Core.Policy.{Subject, uuid_nil}
use egauth.Core.Pending.{subject_discrete}
use egauth.Sessions.Record.{
  StoreError, cancelled, invalid_record, conflict, not_found, Row, restore,
}
use egauth.Sessions.Store.{
  Store, micro, row_at, id_of, live, end_session, end_where, row_of, is_some,
}

-- An id in `by_hash` with no row would be a nil dereference in the source.
unfoldable pub lookup : Bytes → Bytes → ℕ → Store → Option Row
lookup t hash now s = elim (id_of hash s) [
  | none ↦ none
  | some id ↦ elim (row_at id s) [
    | none ↦ none
    | some r ↦
        if not (eqb bytes_discrete r.subject.tenant t) || not (live r now) then none else some r
  ]
]

abbrev pub found : {A : Type 0} → Option A → StoreError → Result StoreError A
found none e = err e
found (some a) e = ok a

unfoldable pub get_session : Bool → ℕ → Bytes → Bytes → Store → Result StoreError Row
get_session ctx clk t hash s = do
  refuse_if ctx cancelled
  r ← found (lookup t hash (micro clk) s) not_found
  restore r

-- The new idle expiry: never past the absolute one, and never earlier.
unfoldable pub touched : Row → ℕ → ℕ
touched r until =
    let capped = (if ltb r.absolute_expires_at until then r.absolute_expires_at else until) in
    if ltb r.idle_expires_at capped then capped else r.idle_expires_at

unfoldable pub touch : Bool → ℕ → Bytes → Bytes → ℕ → Store → Result StoreError (Store × ℕ)
touch ctx clk t hash until s = do
  refuse_if ctx cancelled
  r ← found (lookup t hash (micro clk) s) not_found
  let idle = touched r (micro until)
  ok (record s { rows = put ℕ_discrete r.id (record r { idle_expires_at = idle }) s.rows }, idle)

unfoldable pub same_session : Row → Row → Bool
same_session r next = eqb subject_discrete r.subject next.subject && r.lineage == next.lineage

-- `next` and `previous` are the fields of the `RotateRequest`.
unfoldable pub rotate : Bool → ℕ → Row → Bytes → Store → Result StoreError Store
rotate ctx clk next previous s = do
  refuse_if ctx cancelled
  refuse_if (next.id == uuid_nil) invalid_record
  r ← found (lookup next.subject.tenant previous (micro clk) s) conflict
  let row = row_of next
  refuse_if
      (not (r.id == row.id)
        || not (same_session r next)
        || ltb r.absolute_expires_at row.absolute_expires_at)
      conflict
  refuse_if (elim (id_of row.token_hash s) [ none ↦ false | some owner ↦ not (owner == r.id) ])
      conflict
  kept ← restore (record row { created_at = r.created_at })
  ok (record s {
    rows = put ℕ_discrete r.id kept s.rows;
    by_hash =
        put bytes_discrete kept.token_hash kept.id (delete bytes_discrete r.token_hash s.by_hash);
  })

unfoldable pub replace : Bool → ℕ → Row → ℕ → Store → Result StoreError Store
replace ctx clk next previous s = do
  refuse_if ctx cancelled
  refuse_if (next.id == uuid_nil) invalid_record
  row ← restore (row_of next)
  r ← found (row_at previous s) conflict
  refuse_if (not (live r (micro clk)) || row.id == previous || not (same_session r next)) conflict
  refuse_if (is_some (row_at row.id s)) conflict
  refuse_if (is_some (id_of row.token_hash s)) conflict
  let ended = end_session previous (micro clk) s
  ok (record ended {
    rows = put ℕ_discrete row.id row ended.rows;
    by_hash = put bytes_discrete row.token_hash row.id ended.by_hash;
  })

unfoldable pub revoke : Bool → ℕ → Bytes → Bytes → Store → Result StoreError Store
revoke ctx clk t hash s = do
  refuse_if ctx cancelled
  ok (elim (id_of hash s) [
    | none ↦ s
    | some id ↦ elim (row_at id s) [
      | none ↦ s
      | some r ↦ if eqb bytes_discrete r.subject.tenant t then end_session id (micro clk) s else s
    ]
  ])

unfoldable pub revoke_session : Bool → ℕ → Subject → ℕ → Store → Result StoreError Store
revoke_session ctx clk sub id s = do
  refuse_if ctx cancelled
  ok (elim (row_at id s) [
    | none ↦ s
    | some r ↦ if eqb subject_discrete r.subject sub then end_session id (micro clk) s else s
  ])

abbrev pub is_victim : Subject → ℕ → Row → Bool
is_victim sub except r =
    eqb subject_discrete r.subject sub && (except == uuid_nil || not (r.lineage == except))

unfoldable pub revoke_for_subject : Bool → ℕ → Subject → ℕ → Store → Result StoreError Store
revoke_for_subject ctx clk sub except s = do
  refuse_if ctx cancelled
  ok (end_where (is_victim sub except) (micro clk) s)

unfoldable pub delete_for_subject : Bool → ℕ → Subject → Store → Result StoreError Store
delete_for_subject ctx clk sub s = do
  refuse_if ctx cancelled
  ok (end_where (λ r. eqb subject_discrete r.subject sub) (micro clk) s)

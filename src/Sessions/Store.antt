-- ===== src/Sessions/Store.antt =====
-- store/sessions/memory/store.go: rows by id, ids by token digest, and the feed of revocations.
-- Each operation is one critical section of the mutex. `ctx` tells that the context is done, and
-- `clk` is the reading of the store's clock; a `*Row` in the map is the row under its id.
pub mod Calls
pub mod Invariant
pub mod Kept
pub mod Steps
pub mod Run
pub mod Ended
pub mod Spec
pub mod Ends
pub mod Refines
use egauth.Base.{
  ℕ, zero, suc, ◌+◌, ◌-◌, ◌*◌, ◌/◌, ◌%◌, ◌^◌, Bool, true, false, not, ◌&&◌, ◌||◌, List, [], ◌∷◌,
  ◌++◌, Bytes, length, is_empty, if◌then◌else◌, eqb, ltb, leb, ◌==◌, Option, none, some, Result, ok,
  err, ◌>>=◌, ◌>>◌, refuse_if, bytes_discrete, ℕ_discrete, drop,
}
use egauth.Base.Maps.{Map, get, put, delete, keys, keys_where}
use egauth.Core.Policy.{Subject, uuid_nil}
use egauth.Core.Pending.{subject_discrete}
use egauth.Sessions.Record.{
  StoreError, cancelled, invalid_record, conflict, not_found, Row, restore,
}

pub record Revocation : Type 0 where
  pub seq : ℕ
  pub tenant : Bytes
  pub session : ℕ
  pub at : ℕ
  pub expires : ℕ

pub record Store : Type 0 where
  pub rows : Map ℕ Row
  pub by_hash : Map Bytes ℕ
  pub feed : List Revocation
  pub seq : ℕ

abbrev pub new_store : Store
new_store = record { rows = []; by_hash = []; feed = []; seq = 0 }

-- `Truncate(time.Microsecond)`.
abbrev pub micro : ℕ → ℕ
micro t = t / 1000 * 1000

abbrev pub row_at : ℕ → Store → Option Row
row_at id s = get ℕ_discrete id s.rows

abbrev pub id_of : Bytes → Store → Option ℕ
id_of h s = get bytes_discrete h s.by_hash

unfoldable pub live : Row → ℕ → Bool
live r now = ltb now r.idle_expires_at && ltb now r.absolute_expires_at

-- `s.seq++` on uint64.
abbrev pub next_seq : ℕ → ℕ
next_seq n = (n + 1) % 2 ^ 64

unfoldable pub end_session : ℕ → ℕ → Store → Store
end_session id now s = elim (row_at id s) [
  | none ↦ s
  | some r ↦ record {
    rows = delete ℕ_discrete id s.rows;
    by_hash = delete bytes_discrete r.token_hash s.by_hash;
    feed =
        s.feed
        ++ (record {
          seq = next_seq s.seq;
          tenant = r.subject.tenant;
          session = id;
          at = now;
          expires = r.absolute_expires_at;
        }
            ∷ []);
    seq = next_seq s.seq;
  }
]

unfoldable pub insert_id : ℕ → List ℕ → List ℕ
insert_id n [] = n ∷ []
insert_id n (m ∷ ms) = if leb n m then n ∷ m ∷ ms else m ∷ insert_id n ms

-- The order of the ids' texts is that of their numbers.
unfoldable pub sort_ids : List ℕ → List ℕ
sort_ids [] = []
sort_ids (n ∷ ns) = insert_id n (sort_ids ns)

unfoldable pub end_each : List ℕ → ℕ → Store → Store
end_each [] now s = s
end_each (id ∷ ids) now s = end_each ids now (end_session id now s)

unfoldable pub end_where : (Row → Bool) → ℕ → Store → Store
end_where match now s = end_each (sort_ids (keys_where ℕ_discrete match s.rows (keys s.rows))) now s

-- The loop of `ReapExpired` over the ids; the count is how many rows it deleted.
unfoldable pub reap_rows : List ℕ → ℕ → Store → Store × ℕ
reap_rows [] now s = (s, 0)
reap_rows (id ∷ ids) now s =
    let gone : Bool = elim (row_at id s) [ none ↦ false | some r ↦ not (live r now) ] in
    let hash : Bytes = elim (row_at id s) [ none ↦ [] | some r ↦ r.token_hash ] in
    let dropped : Store = record s {
      rows = delete ℕ_discrete id s.rows;
      by_hash = delete bytes_discrete hash s.by_hash;
    } in
    let (t, n) = reap_rows ids now (if gone then dropped else s) in (t, if gone then n + 1 else n)

unfoldable pub kept_feed : ℕ → List Revocation → List Revocation
kept_feed now [] = []
kept_feed now (r ∷ rs) = if ltb now r.expires then r ∷ kept_feed now rs else kept_feed now rs

unfoldable pub reap_expired : Bool → ℕ → Store → Result StoreError (Store × ℕ)
reap_expired ctx clk s = do
  refuse_if ctx cancelled
  let (t, n) = reap_rows (keys s.rows) (micro clk) s
  let kept = kept_feed (micro clk) s.feed
  ok (record t { feed = kept }, n + (length s.feed - length kept))

unfoldable pub erase_tenant : Bool → ℕ → Bytes → Store → Result StoreError Store
erase_tenant ctx clk t s = do
  refuse_if ctx cancelled
  ok (end_where (λ r. eqb bytes_discrete r.subject.tenant t) (micro clk) s)

-- `rowOf`.
unfoldable pub row_of : Row → Row
row_of r = record r {
  idle_expires_at = micro r.idle_expires_at;
  absolute_expires_at = micro r.absolute_expires_at;
  checked_at = micro r.checked_at;
  created_at = micro r.created_at;
}

abbrev pub is_some : {A : Type 0} → Option A → Bool
is_some none = false
is_some (some a) = true

-- The zero record is refused by `IsZero`.
unfoldable pub create : Bool → Row → Store → Result StoreError Store
create ctx r s = do
  refuse_if ctx cancelled
  refuse_if (r.id == uuid_nil) invalid_record
  row ← restore (row_of r)
  refuse_if (is_some (row_at row.id s)) conflict
  refuse_if (is_some (id_of row.token_hash s)) conflict
  ok (record s {
    rows = put ℕ_discrete row.id row s.rows;
    by_hash = put bytes_discrete row.token_hash row.id s.by_hash;
  })

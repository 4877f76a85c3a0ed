-- ===== src/Sessions/Feed.antt =====
-- store/sessions/memory/store.go, RevocationsSince: the feed from a cursor on. A `store.Cursor` is its
-- position; `slices.BinarySearchFunc` is the loop of the standard library.
pub mod Since
pub mod Rising
use egauth.Base.{
  ℕ, zero, suc, ◌+◌, ◌*◌, ◌/◌, ◌%◌, ◌^◌, Bool, true, false, List, [], ◌∷◌, length, drop,
  if◌then◌else◌, ltb, leb, Result, ok, err, ◌>>=◌, ◌>>◌, refuse_if,
}
use egauth.Sessions.Record.{StoreError, cancelled}
use egauth.Sessions.Store.{Store, Revocation, next_seq}

-- The sequence number at an index; an index out of range would panic.
unfoldable pub seq_at : ℕ → List Revocation → ℕ
seq_at k [] = 0
seq_at zero (r ∷ rs) = r.seq
seq_at (suc k) (r ∷ rs) = seq_at k rs

-- The loop between `i` and `j`; the fuel is the number of rounds.
unfoldable pub search : ℕ → ℕ → List Revocation → ℕ → ℕ → ℕ
search zero pos feed i j = i
search (suc n) pos feed i j =
    let h = (i + j) / 2 in
    let low = ltb (seq_at h feed) pos in
    let rest = search n pos feed (if low then h + 1 else i) (if low then j else h) in
    if ltb i j then rest else i

unfoldable pub last_seq : ℕ → List Revocation → ℕ
last_seq c [] = c
last_seq c (r ∷ rs) = last_seq r.seq rs

-- The entries of `s.feed[i:]`, and the cursor after the last of them.
unfoldable pub revocations_since : Bool → ℕ → Store → Result StoreError (List Revocation × ℕ)
revocations_since ctx c s = do
  refuse_if ctx cancelled
  let out = drop (search (length s.feed) (next_seq c) s.feed 0 (length s.feed)) s.feed
  ok (out, last_seq c out)

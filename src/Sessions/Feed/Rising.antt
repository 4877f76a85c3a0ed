-- ===== src/Sessions/Feed/Rising.antt =====
-- The sequence numbers of the feed rise, whatever ends a session.
use egauth.Base.{
  ℕ, suc, ◌+◌, ◌≤◌, ◌<◌, ◌^◌, ◌≡◌, refl, Bool, List, [], ◌∷◌, ◌++◌, length, ltb, Option-cases,
  Bool-cases, inl, inr, arith, ℕ_discrete,
}
use egauth.Base.Maps.{Map, keys, keys_where}
use egauth.Sessions.Record.{Row}
use egauth.Sessions.Store.{
  Store, Revocation, end_session, end_each, end_where, sort_ids, insert_id, row_at, kept_feed,
}
use egauth.Sessions.Feed.Since.{IsRising, IsFeed}

length-insert_id : (n : ℕ) (ms : List ℕ) → length (insert_id n ms) ≡ suc (length ms)
unfolding insert_id
length-insert_id n [] = refl
length-insert_id n (m ∷ ms) = ground (arith, length-insert_id n ms)

length-sort_ids : (ns : List ℕ) → length (sort_ids ns) ≡ length ns
unfolding sort_ids
length-sort_ids [] = refl
length-sort_ids (n ∷ ns) = ground (arith, length-insert_id n (sort_ids ns), length-sort_ids ns)

length-keys_where :
    (p : Row → Bool) (m : Map ℕ Row) (ks : List ℕ)
    → length (keys_where ℕ_discrete p m ks) ≤ length ks
unfolding keys_where
length-keys_where p m [] = ground arith
length-keys_where p m (k ∷ ks) = ground (arith, length-keys_where p m ks)

length-keys : (m : Map ℕ Row) → length (keys m) ≡ length m
unfolding keys
length-keys [] = refl
length-keys ((k, v) ∷ m) = ground (arith, length-keys m)

IsRising-weaken : (a b c : ℕ) (rs : List Revocation) → IsRising b rs c → a ≤ b → IsRising a rs c
unfolding IsRising
IsRising-weaken a b c [] w h = ground arith
IsRising-weaken a b c (r ∷ rs) (lt, w) h = (ground arith, w)

IsRising-append :
    (b c : ℕ) (rs : List Revocation) (v : Revocation)
    → IsRising b rs c
    → c < v.seq
    → IsRising b (rs ++ (v ∷ [])) v.seq
unfolding IsRising
IsRising-append b c [] v w h = (ground arith, ground arith)
IsRising-append b c (r ∷ rs) v (lt, w) h = (lt, IsRising-append r.seq c rs v w h)

kept_feed-IsRising :
    (now b c : ℕ) (rs : List Revocation) → IsRising b rs c → IsRising b (kept_feed now rs) c
unfolding IsRising kept_feed
kept_feed-IsRising now b c [] w = w
kept_feed-IsRising now b c (r ∷ rs) (lt, w) = elim (Bool-cases (ltb now r.expires)) [
  | inl e ↦ rw e (lt, kept_feed-IsRising now r.seq c rs w)
  | inr e ↦ rw e (
      IsRising-weaken b r.seq c (kept_feed now rs) (kept_feed-IsRising now r.seq c rs w)
        (ground arith))
]

end_session-IsFeed :
    (id now : ℕ) (s : Store)
    → IsFeed s
    → s.seq + 1 < 2 ^ 64
    → IsFeed (end_session id now s) × ((end_session id now s).seq ≤ s.seq + 1)
unfolding end_session
end_session-IsFeed id now s w h = elim (Option-cases (row_at id s)) [
  | inl e ↦ rw (e, end_session) (w, ground arith)
  | inr (r, e) ↦
      rw (e, end_session) (IsRising-append 0 s.seq s.feed _ w (ground arith), ground arith)
]

end_each-IsFeed :
    (ids : List ℕ) (now : ℕ) (s : Store)
    → IsFeed s
    → s.seq + length ids < 2 ^ 64
    → IsFeed (end_each ids now s)
unfolding end_each
end_each-IsFeed [] now s w h = w
end_each-IsFeed (id ∷ ids) now s w h =
    let (keeps, small) = end_session-IsFeed id now s w (ground arith) in
    end_each-IsFeed ids now (end_session id now s) keeps (ground arith)

-- Whatever sessions are ended together, the numbers of the feed still rise, as long as the counter
-- and the number of rows together stay below 2^64.
pub end_where-IsFeed :
    (match : Row → Bool) (now : ℕ) (s : Store)
    → IsFeed s
    → s.seq + length s.rows < 2 ^ 64
    → IsFeed (end_where match now s)
unfolding end_where
end_where-IsFeed match now s w h =
    end_each-IsFeed (sort_ids (keys_where ℕ_discrete match s.rows (keys s.rows))) now s w (
      ground (
        arith,
        length-sort_ids (keys_where ℕ_discrete match s.rows (keys s.rows)),
        length-keys_where match s.rows (keys s.rows),
        length-keys s.rows,
      ))

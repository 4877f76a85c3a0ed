-- ===== src/Sessions/Feed/Since.antt =====
-- The binary search of RevocationsSince finds the entries after the cursor.
use egauth.Base.{
  ℕ, zero, suc, ◌+◌, ◌≤◌, ◌<◌, ◌/◌, ◌-◌, ◌^◌, ◌≡◌, refl, false, List, [], ◌∷◌, ◌++◌, length, drop,
  if◌then◌else◌, ltb, Bool-cases, inl, inr, arith, ok, sym, ◌∙◌, ap,
}
use egauth.Sessions.Store.{Store, Revocation, next_seq}
use egauth.Sessions.Feed.{seq_at, search, last_seq, revocations_since}

-- Sequence numbers that rise from above `b` to at most `c`.
unfoldable pub IsRising : ℕ → List Revocation → ℕ → Type 0
IsRising b [] c = b ≤ c
IsRising b (r ∷ rs) c = (b < r.seq) × IsRising r.seq rs c

abbrev pub IsFeed : Store → Type 0
IsFeed s = IsRising 0 s.feed s.seq

-- The entries from a sequence number on.
unfoldable pub from_seq : ℕ → List Revocation → List Revocation
from_seq pos [] = []
from_seq pos (r ∷ rs) = if ltb r.seq pos then from_seq pos rs else r ∷ from_seq pos rs

count_below : ℕ → List Revocation → ℕ
count_below pos [] = 0
count_below pos (r ∷ rs) = if ltb r.seq pos then suc (count_below pos rs) else 0

seq_at-IsRising :
    (b c k : ℕ) (rs : List Revocation) → IsRising b rs c → k < length rs → b < seq_at k rs
unfolding IsRising seq_at
seq_at-IsRising b c k [] w h = ground arith
seq_at-IsRising b c zero (r ∷ rs) (lt, w) h = lt
seq_at-IsRising b c (suc k) (r ∷ rs) (lt, w) h = ground (arith, seq_at-IsRising r.seq c k rs w)

seq_at-count_below :
    (b c pos k : ℕ) (rs : List Revocation)
    → IsRising b rs c
    → k < length rs
    → ltb (seq_at k rs) pos ≡ ltb k (count_below pos rs)
unfolding IsRising seq_at count_below
seq_at-count_below b c pos k [] w h = ground arith
seq_at-count_below b c pos zero (r ∷ rs) (lt, w) h = ground arith
seq_at-count_below b c pos (suc k) (r ∷ rs) (lt, w) h =
    ground (arith, seq_at-count_below r.seq c pos k rs w, seq_at-IsRising r.seq c k rs w)

count_below-bound : (pos : ℕ) (rs : List Revocation) → count_below pos rs ≤ length rs
unfolding count_below
count_below-bound pos [] = ground arith
count_below-bound pos (r ∷ rs) = ground (arith, count_below-bound pos rs)

search_lem :
    (c pos n i j : ℕ) (rs : List Revocation)
    → IsRising 0 rs c
    → i ≤ count_below pos rs
    → count_below pos rs ≤ j
    → j ≤ length rs
    → j - i ≤ n
    → search n pos rs i j ≡ count_below pos rs
unfolding search
search_lem c pos zero i j rs w lo hi top fuel = ground arith
search_lem c pos (suc n) i j rs w lo hi top fuel = elim (Bool-cases (ltb i j)) [
  | inr e ↦ ground arith
  | inl e ↦ elim (Bool-cases (ltb (seq_at ((i + j) / 2) rs) pos)) [
    | inl f ↦ ground (
      arith,
      search_lem c pos n ((i + j) / 2 + 1) j rs w,
      seq_at-count_below 0 c pos ((i + j) / 2) rs w,
    )
    | inr f ↦ ground (
      arith,
      search_lem c pos n i ((i + j) / 2) rs w,
      seq_at-count_below 0 c pos ((i + j) / 2) rs w,
    )
  ]
]

from_seq_all :
    (b c pos : ℕ) (rs : List Revocation) → IsRising b rs c → pos ≤ b + 1 → from_seq pos rs ≡ rs
unfolding from_seq IsRising
from_seq_all b c pos [] w h = refl
from_seq_all b c pos (r ∷ rs) (lt, w) h = ground (arith, from_seq_all r.seq c pos rs w)

drop-count_below :
    (b c pos : ℕ) (rs : List Revocation)
    → IsRising b rs c
    → drop (count_below pos rs) rs ≡ from_seq pos rs
unfolding count_below from_seq IsRising
drop-count_below b c pos [] w = ground arith
drop-count_below b c pos (r ∷ rs) (lt, w) = elim (Bool-cases (ltb r.seq pos)) [
  | inl e ↦ rw e (drop-count_below r.seq c pos rs w)
  | inr e ↦ rw e (ap (λ l. r ∷ l) (sym (from_seq_all r.seq c pos rs w (ground arith))))
]

-- When the sequence numbers of the feed rise, RevocationsSince answers the entries after the cursor,
-- in the order of the feed, and the cursor after the last of them, for every cursor that is not the
-- last number of 64 bits.
pub revocations_since_lem :
    (s : Store) (c : ℕ)
    → IsFeed s
    → c + 1 < 2 ^ 64
    → revocations_since false c s
      ≡ ok (from_seq (c + 1) s.feed, last_seq c (from_seq (c + 1) s.feed))
unfolding revocations_since
revocations_since_lem s c w small =
    let pos : next_seq c ≡ c + 1 = ground arith in
    let at : search (length s.feed) (c + 1) s.feed 0 (length s.feed) ≡ count_below (c + 1) s.feed =
      search_lem s.seq (c + 1) (length s.feed) 0 (length s.feed) s.feed w (ground arith)
        (count_below-bound (c + 1) s.feed) (ground arith) (ground arith) in
    rw (pos, at, drop-count_below 0 s.seq (c + 1) s.feed w) refl

last_seq-bounds :
    (b d : ℕ) (rs : List Revocation)
    → IsRising b rs d
    → (b ≤ last_seq b rs) × (last_seq b rs ≤ d) × (from_seq (last_seq b rs + 1) rs ≡ [])
unfolding last_seq from_seq IsRising
last_seq-bounds b d [] w = (ground arith, w, refl)
last_seq-bounds b d (r ∷ rs) (lt, w) =
    let (lo, hi, none_left) = last_seq-bounds r.seq d rs w in (ground arith, hi, ground arith)

from_seq_none : (pos : ℕ) → from_seq pos [] ≡ []
unfolding from_seq
from_seq_none pos = refl

from_seq_skip :
    (pos : ℕ) (r : Revocation) (rs : List Revocation)
    → r.seq < pos
    → from_seq pos (r ∷ rs) ≡ from_seq pos rs
unfolding from_seq
from_seq_skip pos r rs h = ground arith

last_seq-from_seq :
    (b c d : ℕ) (rs : List Revocation)
    → IsRising b rs d
    → c ≤ d
    → (c ≤ last_seq c (from_seq (c + 1) rs))
      × (last_seq c (from_seq (c + 1) rs) ≤ d)
      × (from_seq (last_seq c (from_seq (c + 1) rs) + 1) rs ≡ [])
unfolding last_seq IsRising
last_seq-from_seq b c d [] w h = rw (from_seq_none (c + 1)) (ground arith, h, from_seq_none _)
last_seq-from_seq b c d (r ∷ rs) (lt, w) h = elim (Bool-cases (ltb r.seq (c + 1))) [
  | inl e ↦
      let (lo, hi, none_left) = last_seq-from_seq r.seq c d rs w h in
      rw (from_seq_skip (c + 1) r rs (ground arith))
        (lo, hi, from_seq_skip _ r rs (ground arith) ∙ none_left)
  | inr e ↦
      let (lo, hi, none_left) = last_seq-bounds r.seq d rs w in
      rw (from_seq_all c d (c + 1) (r ∷ rs) (ground arith, w) (ground arith))
        (ground arith, hi, from_seq_skip _ r rs (ground arith) ∙ none_left)
]

from_seq-append :
    (pos : ℕ) (rs more : List Revocation)
    → from_seq pos (rs ++ more) ≡ from_seq pos rs ++ from_seq pos more
unfolding from_seq
from_seq-append pos [] more = refl
from_seq-append pos (r ∷ rs) more = ground (arith, from_seq-append pos rs more)

-- A reader that comes back with the cursor it was given reads exactly what the feed gained in between:
-- when the numbers of both feeds rise below 2^64 and the first cursor is no later than the first
-- store's number, the second answer is the added entries.
pub revocations_since_resumes :
    (s s' : Store) (c c' : ℕ) (out more : List Revocation)
    → IsFeed s
    → IsFeed s'
    → s'.feed ≡ s.feed ++ more
    → IsRising s.seq more s'.seq
    → c ≤ s.seq
    → s.seq + 1 < 2 ^ 64
    → revocations_since false c s ≡ ok (out, c')
    → revocations_since false c' s' ≡ ok (more, last_seq c' more)
revocations_since_resumes s s' c c' out more w w' grown rise le small e =
    let first = revocations_since_lem s c w (ground arith) in
    let cursor : c' ≡ last_seq c (from_seq (c + 1) s.feed) = ground arith in
    let (_, hi, none_left) = last_seq-from_seq 0 c s.seq s.feed w le in
    let added : from_seq (c' + 1) s'.feed ≡ more =
      ap (from_seq (c' + 1)) grown
      ∙ from_seq-append (c' + 1) s.feed more
      ∙ rw (cursor, none_left) (from_seq_all s.seq s'.seq _ more rise (ground arith)) in
    revocations_since_lem s' c' w' (ground arith) ∙ rw added refl

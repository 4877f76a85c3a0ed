-- ===== src/Ceremony/Store/Sorted.antt =====
-- The sort of the candidates: the newest first, and each with its own entry.
use egauth.Base.{
  ℕ, zero, suc, ◌≡◌, refl, Bool, true, false, not, ◌&&◌, ◌||◌, List, [], ◌∷◌, eqb, any, drop,
  if◌then◌else◌, none, some, arith,
}
use egauth.Base.Maps.{get, keys, has_key}
use egauth.Ceremony.Store.{
  Key, key_discrete, CeremonyEntry, newer, insert_candidate, sort_candidates,
}
use egauth.Ceremony.Store.Victims.{once_each, has_key-sort_candidates}

newer_trans : (a b c : CeremonyEntry) → newer a b ≡ true → newer b c ≡ true → newer a c ≡ true
newer_trans a b c f g = ground arith

newer_total : (a b : CeremonyEntry) → newer a b ≡ false → newer b a ≡ true
newer_total a b f = ground arith

-- Some entry of a list is not older.
abbrev unordered : CeremonyEntry → List (Key × CeremonyEntry) → Bool
unordered e cs = any (λ d. not (newer e (d.1))) cs

abbrev is_sorted : List (Key × CeremonyEntry) → Bool
is_sorted [] = true
is_sorted (c ∷ cs) = not (unordered (c.1) cs) && is_sorted cs

unordered_trans :
    (a b : CeremonyEntry) (cs : List (Key × CeremonyEntry))
    → newer a b ≡ true
    → unordered b cs ≡ false
    → unordered a cs ≡ false
unordered_trans a b [] f g = refl
unordered_trans a b ((k, c) ∷ cs) f g = ground (arith, newer_trans a b c, unordered_trans a b cs)

unordered-insert_candidate :
    (e : CeremonyEntry) (c : Key × CeremonyEntry) (cs : List (Key × CeremonyEntry))
    → unordered e (insert_candidate c cs) ≡ (not (newer e (c.1)) || unordered e cs)
unfolding insert_candidate
unordered-insert_candidate e c [] = refl
unordered-insert_candidate e c (d ∷ ds) = ground (arith, unordered-insert_candidate e c ds)

is_sorted-insert_candidate :
    (c : Key × CeremonyEntry) (cs : List (Key × CeremonyEntry))
    → is_sorted cs ≡ true
    → is_sorted (insert_candidate c cs) ≡ true
unfolding insert_candidate
is_sorted-insert_candidate c [] o = refl
is_sorted-insert_candidate c (d ∷ ds) o = ground (
  arith,
  is_sorted-insert_candidate c ds,
  newer_total (c.1) (d.1),
  unordered_trans (c.1) (d.1) ds,
  unordered-insert_candidate (d.1) c ds,
)

pub is_sorted-sort_candidates :
    (cs : List (Key × CeremonyEntry)) → is_sorted (sort_candidates cs) ≡ true
unfolding sort_candidates
is_sorted-sort_candidates [] = refl
is_sorted-sort_candidates (c ∷ cs) =
    is_sorted-insert_candidate c (sort_candidates cs) (is_sorted-sort_candidates cs)

get-insert_candidate :
    (k : Key) (e : CeremonyEntry) (cs : List (Key × CeremonyEntry)) (j : Key)
    → has_key key_discrete (keys cs) k ≡ false
    → get key_discrete j (insert_candidate (k, e) cs)
      ≡ (if eqb key_discrete k j then some e else get key_discrete j cs)
unfolding insert_candidate keys get
get-insert_candidate k e [] j i = refl
get-insert_candidate k e ((l, d) ∷ ds) j i = ground (arith, get-insert_candidate k e ds j)

pub get-sort_candidates :
    (cs : List (Key × CeremonyEntry)) (j : Key)
    → once_each (keys cs) ≡ true
    → get key_discrete j (sort_candidates cs) ≡ get key_discrete j cs
unfolding sort_candidates keys once_each get
get-sort_candidates [] j o = refl
get-sort_candidates ((k, e) ∷ cs) j o = ground (
  arith,
  get-insert_candidate k e (sort_candidates cs) j,
  get-sort_candidates cs j,
  has_key-sort_candidates cs k,
)

ordered-drop :
    (e f : CeremonyEntry) (n : ℕ) (cs : List (Key × CeremonyEntry)) (v : Key)
    → unordered e cs ≡ false
    → get key_discrete v (drop n cs) ≡ some f
    → newer e f ≡ true
unfolding get
ordered-drop e f zero [] v o g = absurd (ground arith)
ordered-drop e f zero ((k, d) ∷ ds) v o g = ground (arith, ordered-drop e f zero ds v)
ordered-drop e f (suc n) [] v o g = absurd (ground arith)
ordered-drop e f (suc n) ((k, d) ∷ ds) v o g = ordered-drop e f n ds v (ground arith) g

-- What stands before a tail of a sorted list is newer than what stands in it.
pub sorted-drop :
    (e f : CeremonyEntry) (n : ℕ) (cs : List (Key × CeremonyEntry)) (k v : Key)
    → is_sorted cs ≡ true
    → get key_discrete k cs ≡ some e
    → get key_discrete k (drop n cs) ≡ none
    → get key_discrete v (drop n cs) ≡ some f
    → newer e f ≡ true
unfolding get
sorted-drop e f zero cs k v o g h i = absurd (ground arith)
sorted-drop e f (suc n) [] k v o g h i = absurd (ground arith)
sorted-drop e f (suc n) ((j, d) ∷ ds) k v o g h i = elim (key_discrete j k) [
  | yes same ↦ ground (arith, ordered-drop e f n ds v)
  | no other ↦ sorted-drop e f n ds k v (ground arith) (ground arith) h i
]

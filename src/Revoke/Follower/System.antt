-- ===== src/Revoke/Follower/System.antt =====
-- A cache that follows a change feed, and its source, in any order of their critical sections.
use egauth.Base.{
  ℕ, ◌-◌, ◌≤◌, ◌≡◌, ◌⊎◌, Bool, true, List, [], ◌∷◌, ◌++◌, if◌then◌else◌, eqb, some, take, drop,
  length, ℕ_discrete,
}
use egauth.Base.Maps.{Map, get, put, delete, has_key}
use egauth.Revoke.Lru.{cached}
use egauth.Revoke.Follower.{
  Follower, Note, new_follower, begin_get, end_get, forget, forget_where, apply_page, restart,
  caught_up,
}

-- The source has a value of each key and the log of the keys that changed; lookups that read it are
-- under their numbers, first with what they noted, then with what they read.
pub record System (K V : Type 0) : Type 0 where
  pub value : K → V
  pub log : List K
  pub follower : Follower K V
  pub notes : Map ℕ (Note K)
  pub answers : Map ℕ (Note K × V)

module _ {K V : Type 0} (dec : Discrete K) where
  -- A value of a key is the present one, unless the log names the key from a position on.
  abbrev pub Recent : System K V → K → V → ℕ → Type 0
  Recent s k v c = (s.value k ≡ v) ⊎ (has_key dec (drop c s.log) k ≡ true)

  pub record IsSound (s : System K V) : Type 0 where
    pub known : s.follower.cursor ≤ length s.log
    pub entries :
        (k : K) (v : V) → cached dec k s.follower.entries ≡ some v → Recent s k v s.follower.cursor
    pub noted : (i : ℕ) (n : Note K) → get ℕ_discrete i s.notes ≡ some n → n.since ≤ length s.log
    pub answered :
        (i : ℕ) (n : Note K) (v : V)
        → get ℕ_discrete i s.answers ≡ some (n, v)
        → (n.since ≤ length s.log) × Recent s n.key v n.since

  -- A page that the feed answers: the changes between two positions.
  pub record IsPage (s : System K V) (changed : List K) (next : ℕ) : Type 0 where
    pub reached : next ≤ length s.log
    pub all : changed ≡ take (next - s.follower.cursor) (drop s.follower.cursor s.log)

  pub data Move : System K V → System K V → Type 0 where
    changes :
        {s : System K V} (k : K) (v : V)
        → Move s (record s {
          value = λ j. if eqb dec k j then v else s.value j;
          log = s.log ++ (k ∷ []);
        })
    begins :
        {s : System K V} (i now : ℕ) (k : K)
        → Move s (record s {
          follower = (begin_get dec now k s.follower).0;
          notes = put ℕ_discrete i (begin_get dec now k s.follower).1.1 s.notes;
        })
    reads :
        {s : System K V} (i : ℕ) (n : Note K)
        → get ℕ_discrete i s.notes ≡ some n
        → Move s (record s { answers = put ℕ_discrete i (n, s.value n.key) s.answers })
    lands :
        {s : System K V} (i now : ℕ) (n : Note K) (v : V)
        → get ℕ_discrete i s.answers ≡ some (n, v)
        → Move s (record s {
          follower = end_get dec now n v s.follower;
          answers = delete ℕ_discrete i s.answers;
        })
    forgets : {s : System K V} (k : K) → Move s (record s { follower = forget dec k s.follower })
    forgets_where :
        {s : System K V} (p : K → V → Bool)
        → Move s (record s { follower = forget_where dec p s.follower })
    polls :
        {s : System K V} (changed : List K) (next : ℕ)
        → IsPage s changed next
        → Move s (record s { follower = apply_page dec changed next s.follower })
    restarts : {s : System K V} → Move s (record s { follower = restart dec s.follower })
    catches_up :
        {s : System K V} (began : ℕ)
        → Move s (record s { follower = caught_up dec began s.follower })

  -- The systems that a new cache over a source reaches.
  pub data Moves : System K V → Type 0 where
    starts :
        (value : K → V) (capacity : ℕ)
        → Moves (record {
          value = value;
          log = [];
          follower = new_follower dec capacity;
          notes = [];
          answers = [];
        })
    moves : {s t : System K V} → Moves s → Move s t → Moves t

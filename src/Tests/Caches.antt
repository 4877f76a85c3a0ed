-- ===== src/Tests/Caches.antt =====
-- A cache that follows a feed, and a family that is revoked while it is asked for.
use egauth.Base.{
  ℕ, ◌+◌, ◌*◌, ◌≡◌, ◌⊎◌, refl, true, false, [], ◌∷◌, if◌then◌else◌, eqb, some, is_ok, drop,
  ℕ_discrete,
}
use egauth.Base.Maps.{get, put, delete, has_key}
use egauth.Core.Policy.{second}
use egauth.Revoke.Lru.{lru_put, lru_get}
use egauth.Revoke.Follower.{Note, is_fresh, new_follower, begin_get, end_get, caught_up}
use egauth.Revoke.Follower.System.{
  System, Moves, starts, moves, begins, reads, lands, changes, catches_up,
}
use egauth.Revoke.Follower.Sound.{hit-Recent}
use egauth.Revoke.Families.{live_family, revoke_family-live_family}
use egauth.Tokens.Store.Families.{family_state}
use egauth.Tests.Login.{start_at, user, acme}
use egauth.Tests.Tokens.{two_tokens, ended_tokens, revoke_family-two}

abbrev epochs : ℕ → ℕ
epochs k = 3

abbrev quiet : System ℕ ℕ
quiet = record {
  value = epochs;
  log = [];
  follower = new_follower ℕ_discrete 2;
  notes = [];
  answers = [];
}

abbrev polled : System ℕ ℕ
polled = record quiet { follower = caught_up ℕ_discrete start_at quiet.follower }

abbrev note : Note ℕ
note = record { key = 7; since = 0; at_gen = 0; was_fresh = true }

abbrev asked : System ℕ ℕ
asked = record polled {
  follower = (begin_get ℕ_discrete (start_at + second) 7 polled.follower).0;
  notes =
      put ℕ_discrete 1 (begin_get ℕ_discrete (start_at + second) 7 polled.follower).1.1
        polled.notes;
}

asked-note : get ℕ_discrete 1 asked.notes ≡ some note
unfolding begin_get is_fresh caught_up get put ℕ_discrete
asked-note = refl

abbrev read : System ℕ ℕ
read = record asked { answers = put ℕ_discrete 1 (note, 3) asked.answers }

read-answer : get ℕ_discrete 1 read.answers ≡ some (note, 3)
unfolding get put ℕ_discrete
read-answer = refl

abbrev landed : System ℕ ℕ
landed = record read {
  follower = end_get ℕ_discrete (start_at + second) note 3 read.follower;
  answers = delete ℕ_discrete 1 read.answers;
}

-- The epoch of the user changes while it is cached.
abbrev changed : System ℕ ℕ
changed = record landed { value = λ j. if eqb ℕ_discrete 7 j then 4 else epochs j; log = 7 ∷ [] }

changed-Moves : Moves ℕ_discrete changed
changed-Moves =
    moves
      (moves
        (moves
          (moves (moves (starts epochs 2) (catches_up start_at)) (begins 1 (start_at + second) 7))
          (reads 1 note asked-note))
        (lands 1 (start_at + second) note 3 read-answer))
      (changes 7 4)

hit-Recent_example :
    (changed.value 7 ≡ 3) ⊎ (has_key ℕ_discrete (drop changed.follower.cursor changed.log) 7 ≡ true)
unfolding begin_get end_get is_fresh caught_up lru_put lru_get get delete ℕ_discrete
hit-Recent_example = hit-Recent ℕ_discrete changed (start_at + 2 * second) 7 3 changed-Moves refl

revoke_family-live_family_example :
    is_ok (live_family user 21 (start_at + 91 * second) (family_state false acme 31 ended_tokens))
    ≡ false
revoke_family-live_family_example =
    revoke_family-live_family false false start_at 31 21 (start_at + 91 * second) user two_tokens
      ended_tokens revoke_family-two

-- ===== src/Revoke/Follower.antt =====
-- internal/revoke/revoke.go: the follower, one critical section of its mutex at a time. `Get` is begun,
-- reads the store and ends; a poll is the pages that it applies, and its end. A cursor is its position.
pub mod Pages
pub mod System
pub mod Recency
pub mod Sound
use egauth.Base.{
  ℕ, zero, suc, ◌+◌, ◌-◌, ◌*◌, ◌%◌, ◌^◌, Bool, true, false, not, ◌&&◌, ◌||◌, List, [], ◌∷◌,
  if◌then◌else◌, eqb, ltb, leb, ◌==◌, Option, none, some, take,
}
use egauth.Base.Maps.{Map, keys}
use egauth.Core.Policy.{second, zero_time}
use egauth.Core.Attrs.{time_sub}
use egauth.Sessions.Store.{next_seq}
use egauth.Revoke.Lru.{
  Lru, new_lru, lru_get, lru_put, lru_remove, lru_remove_each, lru_remove_where,
}

abbrev pub poll_bound : ℕ
poll_bound = 3 * (2 * second)

abbrev pub default_capacity : ℕ
default_capacity = 10000

-- The fields that the mutex guards; the feed and the lookup are those of the source that is followed.
pub record Follower (K V : Type 0) : Type 0 where
  pub cursor : ℕ
  pub gen : ℕ
  pub polled : Bool
  pub last_poll : ℕ
  pub entries : Lru K V

-- `freshLocked`.
unfoldable pub is_fresh : {K V : Type 0} → Follower K V → ℕ → Bool
is_fresh f now = f.polled && leb f.last_poll now && ltb (time_sub now f.last_poll) poll_bound

-- What `get` noted before it read the store.
pub record Note (K : Type 0) : Type 0 where
  pub key : K
  pub since : ℕ
  pub at_gen : ℕ
  pub was_fresh : Bool

module _ {K V : Type 0} (dec : Discrete K) where
  -- `newFollower`, for a capacity that is not negative.
  abbrev pub new_follower : ℕ → Follower K V
  new_follower capacity = record {
    cursor = 0;
    gen = 0;
    polled = false;
    last_poll = zero_time;
    entries = new_lru dec (if capacity == 0 then default_capacity else capacity);
  }

  -- The first section of `get`: the entry, or none after noting the position.
  unfoldable pub begin_get : ℕ → K → Follower K V → Follower K V × (Option V × Note K)
  begin_get now k f =
      let note : Note K = record {
        key = k;
        since = f.cursor;
        at_gen = f.gen;
        was_fresh = is_fresh f now;
      } in
      if is_fresh f now
      then (record f { entries = (lru_get dec k f.entries).0 }, ((lru_get dec k f.entries).1, note))
      else (f, (none, note))

  -- The last section of `get`, for an answer of the store: it is cached if no poll was applied and
  -- nothing was forgotten in between.
  unfoldable pub end_get : ℕ → Note K → V → Follower K V → Follower K V
  end_get now note v f =
      if note.was_fresh && (f.gen == note.at_gen && f.cursor == note.since && is_fresh f now)
      then record f { entries = lru_put dec note.key v f.entries }
      else f

  unfoldable pub forget : K → Follower K V → Follower K V
  forget k f = record f { entries = lru_remove dec k f.entries; gen = next_seq f.gen }

  unfoldable pub forget_where : (K → V → Bool) → Follower K V → Follower K V
  forget_where p f = record f {
    entries = lru_remove_where dec p (keys f.entries.nodes) f.entries;
    gen = next_seq f.gen;
  }

  -- A page of `Poll`, as the feed answers it from the cursor of the follower.
  unfoldable pub apply_page : List K → ℕ → Follower K V → Follower K V
  apply_page changed next f = record f {
    entries = lru_remove_each dec changed f.entries;
    cursor = if ltb f.cursor next then next else f.cursor;
    gen = next_seq f.gen;
  }

  -- `Poll` on a cursor that the store no longer retains.
  unfoldable pub restart : Follower K V → Follower K V
  restart f = record f {
    entries = new_lru dec f.entries.capacity;
    cursor = 0;
    gen = next_seq f.gen;
  }

  -- The end of a poll that began at an instant and is caught up.
  unfoldable pub caught_up : ℕ → Follower K V → Follower K V
  caught_up began f = record f { polled = true; last_poll = began }

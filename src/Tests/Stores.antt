-- ===== src/Tests/Stores.antt =====
-- A store of two sessions of one user: created, touched, rotated, revoked and read from the feed.
use egauth.Base.{
  ◌↔◌, Option, ◌<◌, ℕ, ◌+◌, ◌*◌, ◌≤◌, true, false, ◌≡◌, refl, [], ◌∷◌, Bytes, ok, none, some, arith,
  bytes_discrete, ℕ_discrete,
}
use egauth.Base.Maps.{get, put, delete, keys, keys_where}
use egauth.Core.Policy.{second}
use egauth.Core.Pending.{subject_discrete}
use egauth.Sessions.Record.{Row, check_row, restore}
use egauth.Sessions.Store.{
  Store, Revocation, new_store, micro, row_at, id_of, live, end_session, end_each, end_where,
  insert_id, sort_ids, create, row_of,
}
use egauth.Sessions.Store.Calls.{
  lookup, touch, touched, rotate, same_session, revoke, revoke_for_subject, is_victim,
}
use egauth.Sessions.Store.Invariant.{IsConsistent}
use egauth.Sessions.Store.Run.{Run, start, after, created, Run-IsConsistent}
use egauth.Sessions.Store.Ended.{revoke-lookup, rotate-lookup}
use egauth.Sessions.Store.Spec.{view, Opens}
use egauth.Sessions.Store.Refines.{lookup-view, Step-refines}
use egauth.Sessions.Feed.{revocations_since, seq_at, search, last_seq}
use egauth.Sessions.Feed.Since.{
  IsRising, IsFeed, from_seq, revocations_since_lem, revocations_since_resumes,
}
use egauth.Sessions.Feed.Rising.{end_where-IsFeed}
use egauth.Sessions.Record.{Spec, new_record, max_clock_skew}
use egauth.Sessions.Record.Bounds.{new_record-bounds}
use egauth.Core.Attrs.{SessionAttrs}
use egauth.Tests.Login.{start_at, user, acme, session}

abbrev pub digest : ℕ → Bytes
digest b =
    b ∷ b ∷ b ∷ b ∷ b ∷ b ∷ b ∷ b ∷ b ∷ b ∷ b ∷ b ∷ b ∷ b ∷ b ∷ b ∷ b ∷ b ∷ b ∷ b ∷ b ∷ b ∷ b ∷ b
    ∷ b ∷ b ∷ b ∷ b ∷ b ∷ b ∷ b ∷ b ∷ []

abbrev first : Row
first = record {
  id = 11;
  token_hash = digest 1;
  subject = user;
  lineage = 21;
  sealed = 1 ∷ [];
  app_claims = [];
  security_epoch = 3;
  client_fingerprint = [];
  idle_expires_at = start_at + 600 * second;
  absolute_expires_at = start_at + 3600 * second;
  checked_at = start_at;
  created_at = start_at;
}

abbrev other : Row
other = record first { id = 12; token_hash = digest 2; lineage = 22 }

abbrev one : Store
one = record new_store { rows = (11, first) ∷ []; by_hash = (digest 1, 11) ∷ [] }

abbrev two : Store
two = record new_store {
  rows = (11, first) ∷ (12, other) ∷ [];
  by_hash = (digest 1, 11) ∷ (digest 2, 12) ∷ [];
}

abbrev now : ℕ
now = start_at + 60 * second

create-one : create false first new_store ≡ ok one
unfolding create row_of restore check_row get put
create-one = refl

create-two : create false other one ≡ ok two
unfolding create row_of restore check_row get put bytes_discrete ℕ_discrete
create-two = refl

two-Run : Run two
two-Run = after (after start (created false first create-one)) (created false other create-two)

two-IsConsistent : IsConsistent two
two-IsConsistent = Run-IsConsistent two two-Run

Run-IsConsistent_example : IsConsistent two
Run-IsConsistent_example = Run-IsConsistent two two-Run

lookup-first : lookup acme (digest 1) (micro now) two ≡ some first
unfolding lookup get live bytes_discrete ℕ_discrete
lookup-first = refl

lookup-view_example : (lookup acme (digest 1) (micro now) two ≡ some first) ↔ (
    (view two 11 ≡ some first)
    × (first.token_hash ≡ digest 1)
    × (first.subject.tenant ≡ acme)
    × (live first (micro now) ≡ true))
lookup-view_example = lookup-view acme (digest 1) (micro now) two first two-IsConsistent

Step-refines_example : Opens (row_of other) (view one) (view two)
Step-refines_example =
    Step-refines (Run-IsConsistent one (after start (created false first create-one)))
      (created false other create-two)

abbrev until : ℕ
until = start_at + 9000 * second

-- The idle expiry is capped at the absolute one.
abbrev touched_two : Store
touched_two = record two {
  rows = (11, record first { idle_expires_at = start_at + 3600 * second }) ∷ (12, other) ∷ [];
}

touch-first : touch false now acme (digest 1) until two ≡ ok (touched_two, start_at + 3600 * second)
unfolding touch touched lookup get put live bytes_discrete ℕ_discrete
touch-first = refl

abbrev next_first : Row
next_first = record first {
  token_hash = digest 3;
  idle_expires_at = start_at + 660 * second;
  checked_at = now;
  created_at = now;
}

abbrev rotated_two : Store
rotated_two = record two {
  rows = (11, record next_first { created_at = start_at }) ∷ (12, other) ∷ [];
  by_hash = (digest 2, 12) ∷ (digest 3, 11) ∷ [];
}

rotate-first : rotate false now next_first (digest 1) two ≡ ok rotated_two
unfolding rotate restore check_row row_of same_session lookup get put delete live bytes_discrete
    ℕ_discrete subject_discrete
rotate-first = refl

rotate-lookup_example :
    (lookup acme (digest 1) (now + 5) rotated_two ≡ none)
    × ((r : Row) × (r' : Row) × (lookup acme (digest 1) (micro now) two ≡ some r)
        × (id_of (digest 3) rotated_two ≡ some r.id)
        × (row_at r.id rotated_two ≡ some r')
        × (r'.token_hash ≡ digest 3)
        × (r'.id ≡ r.id)
        × (r'.subject ≡ r.subject)
        × (r'.lineage ≡ r.lineage)
        × (r'.created_at ≡ r.created_at)
        × (r'.absolute_expires_at ≤ r.absolute_expires_at))
rotate-lookup_example =
    rotate-lookup false now (now + 5) next_first acme (digest 1) two rotated_two two-IsConsistent
      rotate-first (ground arith)

abbrev ended : ℕ → ℕ → Revocation
ended n id = record {
  seq = n;
  tenant = acme;
  session = id;
  at = now;
  expires = start_at + 3600 * second;
}

abbrev revoked_first : Store
revoked_first = record {
  rows = (12, other) ∷ [];
  by_hash = (digest 2, 12) ∷ [];
  feed = ended 1 11 ∷ [];
  seq = 1;
}

revoke-first : revoke false now acme (digest 1) two ≡ ok revoked_first
unfolding revoke end_session get delete bytes_discrete ℕ_discrete
revoke-first = refl

revoke-lookup_example : lookup acme (digest 1) (now + 5) revoked_first ≡ none
revoke-lookup_example =
    revoke-lookup false now (now + 5) acme (digest 1) two revoked_first two-IsConsistent
      revoke-first

-- Every session of the user but those of the lineage 21.
abbrev kept_first : Store
kept_first = record {
  rows = (11, first) ∷ [];
  by_hash = (digest 1, 11) ∷ [];
  feed = ended 1 12 ∷ [];
  seq = 1;
}

revoke_for_subject-other : revoke_for_subject false now user 21 two ≡ ok kept_first
unfolding revoke_for_subject end_where end_each end_session sort_ids insert_id keys keys_where get
    delete bytes_discrete ℕ_discrete subject_discrete
revoke_for_subject-other = refl

abbrev all_ended : Store
all_ended = record { rows = []; by_hash = []; feed = ended 1 11 ∷ ended 2 12 ∷ []; seq = 2 }

revocations_since_lem_example :
    revocations_since false 1 all_ended
    ≡ ok (from_seq (1 + 1) all_ended.feed, last_seq 1 (from_seq (1 + 1) all_ended.feed))
unfolding IsRising
revocations_since_lem_example =
    revocations_since_lem all_ended 1 (ground arith, (ground arith, ground arith)) (ground arith)

revocations_since-first : revocations_since false 0 revoked_first ≡ ok (ended 1 11 ∷ [], 1)
unfolding revocations_since search seq_at last_seq
revocations_since-first = refl

revocations_since_resumes_example :
    revocations_since false 1 all_ended ≡ ok (ended 2 12 ∷ [], last_seq 1 (ended 2 12 ∷ []))
unfolding IsRising
revocations_since_resumes_example =
    revocations_since_resumes revoked_first all_ended 0 1 (ended 1 11 ∷ []) (ended 2 12 ∷ [])
      (ground arith, ground arith) (ground arith, (ground arith, ground arith)) refl
      (ground arith, ground arith) (ground arith) (ground arith) revocations_since-first

end_where-IsFeed_example : IsFeed (end_where (is_victim user 0) now two)
unfolding IsRising
end_where-IsFeed_example = end_where-IsFeed (is_victim user 0) now two (ground arith) (ground arith)

abbrev spec : Spec
spec = record {
  id = 11;
  token_hash = digest 1;
  attrs = session;
  app_claims = [];
  client_fingerprint = [];
  idle_ttl = 600 * second;
  max_lifetime = 3600 * second;
  now = now;
}

-- A sealer that writes the version.
abbrev sealer : SessionAttrs → Option Bytes
sealer a = some (a.version ∷ [])

abbrev spec_row : Row
spec_row = record first {
  lineage = 99;
  idle_expires_at = start_at + 660 * second;
  absolute_expires_at = start_at + 3610 * second;
  checked_at = now;
  created_at = now;
}

new_record-spec : new_record spec sealer ≡ ok spec_row
unfolding new_record restore check_row
new_record-spec = refl

new_record-bounds_example :
    (spec_row.subject ≡ session.subject)
    × (spec_row.lineage ≡ session.lineage)
    × (spec_row.security_epoch ≡ session.epoch)
    × (sealer session ≡ some spec_row.sealed)
    × (spec_row.absolute_expires_at ≡ session.created_at + spec.max_lifetime)
    × (now < spec_row.absolute_expires_at)
    × (now < spec_row.idle_expires_at)
    × (spec_row.idle_expires_at ≤ now + spec.idle_ttl)
    × (spec_row.idle_expires_at ≤ spec_row.absolute_expires_at)
    × (session.created_at ≤ now + max_clock_skew)
    × (check_row spec_row ≡ true)
new_record-bounds_example = new_record-bounds spec sealer spec_row new_record-spec

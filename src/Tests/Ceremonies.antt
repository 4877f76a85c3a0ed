-- ===== src/Tests/Ceremonies.antt =====
-- A login parked for its second factor: put, charged, consumed, and evicted by later ones.
use egauth.Base.{
  ℕ, Option, ◌+◌, ◌*◌, ◌≤◌, ◌<◌, true, false, not, ◌||◌, ◌≡◌, refl, [], ◌∷◌, Bytes, ok, is_ok, none,
  some, if◌then◌else◌, leb, ltb, eqb, bytes_discrete, ℕ_discrete, arith,
}
use egauth.Base.Maps.{get, put, delete, keys}
use egauth.Core.Policy.{second}
use egauth.Core.Codec.{be_bytes}
use egauth.Sessions.Store.{micro}
use egauth.Ceremony.Kind.{
  mfa_flow, oauth_state, kind_valid, kind_scope, stateless, scope_discrete, kind_discrete,
  admits_session,
}
use egauth.Ceremony.Kind.Limits.{
  ttl, max_attempts, max_live_per_scope, max_live_per_tenant, kind_expires_at,
}
use egauth.Ceremony.Record.{
  CeremonySpec, PendingBinding, Record, CeremonyRow, subject_scope, new_ceremony_record,
  restore_ceremony, check_ceremony_row, validate_record, scoped_to,
}
use egauth.Ceremony.Record.Bounds.{new_ceremony_record-bounds}
use egauth.Ceremony.Store.{
  Key, CeremonyEntry, CeremonyStore, new_ceremony_store, key_discrete, bucket_discrete,
  scope_key_discrete, entry_at, bucket_of, insert_entry, add_key, remove_entry, remove_key,
  candidates, insert_candidate, sort_candidates, victims, newer, in_scope,
}
use egauth.Ceremony.Store.Calls.{
  cap_scope, cap_tenant, live_entry, lookup_key, put_record, consume, peek, record_failure,
  mark_consumed, stored_row,
}
use egauth.Ceremony.Store.Single.{consume_ends, mark_once}
use egauth.Ceremony.Store.Failures.{charge_each, exhausted}
use egauth.Ceremony.Store.Indexed.{IsIndexed}
use egauth.Ceremony.Store.Run.{Reached, fresh, changed, puts, Reached-IsIndexed}
use egauth.Ceremony.Store.Cap.{live_count, put-capped}
use egauth.Ceremony.Store.Oldest.{victims-oldest}
use egauth.Tests.Login.{start_at, user, acme}
use egauth.Tests.Stores.{digest}

abbrev login : CeremonySpec
login = record {
  kind = mfa_flow;
  handle_hash = digest 1;
  scope = subject_scope user;
  pending = 5 ∷ [];
  payload = [];
  now = start_at;
}

abbrev binding : PendingBinding
binding = record { tenant = acme; subject = user; expires = start_at + 200 * second }

abbrev opener : Bytes → Option PendingBinding
opener b = some binding

abbrev row : CeremonyRow
row = record {
  tenant = acme;
  kind = mfa_flow;
  handle_hash = digest 1;
  scope_hash = 0 ∷ 0 ∷ 0 ∷ 0 ∷ 0 ∷ 0 ∷ 0 ∷ 0 ∷ 0 ∷ 0 ∷ 0 ∷ 0 ∷ 0 ∷ 0 ∷ 0 ∷ user.user ∷ [];
  pending = 5 ∷ [];
  payload = [];
  attempts = 0;
  expires = start_at + 200 * second;
  created_at = start_at;
}

abbrev parked : Record
parked = record { pending = 5 ∷ []; fields = row }

new_ceremony_record-login : new_ceremony_record login opener ≡ ok parked
unfolding new_ceremony_record subject_scope restore_ceremony check_ceremony_row kind_valid stateless
    kind_scope scope_discrete kind_expires_at admits_session ttl max_attempts be_bytes
    bytes_discrete ℕ_discrete
new_ceremony_record-login = refl

new_ceremony_record-bounds_example :
    (row.tenant ≡ acme)
    × (scoped_to parked (subject_scope user) ≡ true)
    × (row.attempts ≡ 0)
    × (validate_record parked ≡ ok tt)
    × (start_at < row.expires)
    × (row.expires ≤ start_at + ttl mfa_flow)
    × ((not (admits_session mfa_flow) || leb row.expires (start_at + 200 * second)) ≡ true)
new_ceremony_record-bounds_example =
    new_ceremony_record-bounds login opener binding parked refl new_ceremony_record-login

abbrev key_at : ℕ → Key
key_at b = record { tenant = acme; kind = mfa_flow; handle = digest b }

abbrev row_at_age : ℕ → ℕ → CeremonyRow
row_at_age b age = record row { handle_hash = digest b; created_at = start_at + age * second }

abbrev record_at : ℕ → ℕ → Record
record_at b age = record { pending = 5 ∷ []; fields = row_at_age b age }

abbrev entry : ℕ → ℕ → ℕ → CeremonyEntry
entry b age n = record { row = row_at_age b age; seq = n }

abbrev one_login : CeremonyStore
one_login = record {
  seq = 1;
  rows = (key_at 1, entry 1 0 1) ∷ [];
  buckets = (bucket_of (key_at 1), key_at 1 ∷ []) ∷ [];
  scopes = (record { bucket = bucket_of (key_at 1); scope = row.scope_hash }, 1) ∷ [];
  consumed = [];
}

put-one : put_record false start_at (record_at 1 0) new_ceremony_store ≡ ok (one_login, 0)
unfolding put_record validate_record check_ceremony_row kind_valid stateless kind_scope
    scope_discrete kind_expires_at ttl max_attempts max_live_per_scope max_live_per_tenant
    live_entry remove_entry insert_entry add_key cap_scope cap_tenant stored_row get put
    bytes_discrete ℕ_discrete kind_discrete key_discrete bucket_discrete scope_key_discrete
put-one = refl

abbrev two_logins : CeremonyStore
two_logins = record {
  seq = 2;
  rows = (key_at 1, entry 1 0 1) ∷ (key_at 2, entry 2 10 2) ∷ [];
  buckets = (bucket_of (key_at 1), key_at 1 ∷ key_at 2 ∷ []) ∷ [];
  scopes = (record { bucket = bucket_of (key_at 1); scope = row.scope_hash }, 2) ∷ [];
  consumed = [];
}

put-two : put_record false (start_at + 10 * second) (record_at 2 10) one_login ≡ ok (two_logins, 0)
unfolding put_record validate_record check_ceremony_row kind_valid stateless kind_scope
    scope_discrete kind_expires_at ttl max_attempts max_live_per_scope max_live_per_tenant
    live_entry remove_entry insert_entry add_key cap_scope cap_tenant stored_row get put
    bytes_discrete ℕ_discrete kind_discrete key_discrete bucket_discrete scope_key_discrete
put-two = refl

two_logins-Reached : Reached two_logins
two_logins-Reached =
    changed
      (changed fresh
        (puts {s = new_ceremony_store} {s' = one_login} false start_at 0 (record_at 1 0) put-one))
      (puts {s = one_login} {s' = two_logins} false (start_at + 10 * second) 0 (record_at 2 10)
        put-two)

Reached-IsIndexed_example : IsIndexed two_logins
Reached-IsIndexed_example = Reached-IsIndexed two_logins two_logins-Reached

put-capped_example :
    live_count
      (record { bucket = bucket_of (key_at 2); scope = row.scope_hash })
      (start_at + 10 * second)
      two_logins
    ≤ max_live_per_scope mfa_flow
put-capped_example =
    put-capped false (start_at + 10 * second) 0 (record_at 2 10) one_login two_logins
      (Reached-IsIndexed one_login (
        changed fresh (
          puts {s = new_ceremony_store} {s' = one_login} false start_at 0 (record_at 1 0) put-one)))
      put-two

-- Within a limit of two, the third record leaves the second and takes the first.
victims-oldest_example :
    (f : CeremonyEntry) × (entry_at (key_at 1) two_logins ≡ some f)
    × (newer (entry 2 10 2) f ≡ true)
unfolding victims candidates sort_candidates insert_candidate keys get bytes_discrete ℕ_discrete
    kind_discrete key_discrete bucket_discrete
victims-oldest_example =
    victims-oldest (key_at 3) (start_at + 20 * second) (in_scope row.scope_hash) 2 two_logins
      (key_at 2) (key_at 1) (entry 2 10 2) (Reached-IsIndexed two_logins two_logins-Reached) refl
      refl refl refl refl

abbrev second_login : CeremonyStore
second_login = record {
  seq = 2;
  rows = (key_at 2, entry 2 10 2) ∷ [];
  buckets = (bucket_of (key_at 1), key_at 2 ∷ []) ∷ [];
  scopes = (record { bucket = bucket_of (key_at 1); scope = row.scope_hash }, 1) ∷ [];
  consumed = [];
}

consume-first :
    consume false (start_at + 20 * second) acme mfa_flow (digest 1) two_logins
    ≡ ok (second_login, ok (record_at 1 0))
unfolding consume lookup_key live_entry remove_entry remove_key restore_ceremony check_ceremony_row
    kind_valid stateless kind_scope scope_discrete ttl max_attempts get put delete bytes_discrete
    ℕ_discrete kind_discrete key_discrete bucket_discrete scope_key_discrete
consume-first = refl

consume_ends_example :
    (peek false (start_at + 20 * second) acme mfa_flow (digest 1) two_logins ≡ ok (record_at 1 0))
    × (is_ok (consume false (start_at + 20 * second) acme mfa_flow (digest 1) second_login) ≡ false)
    × (is_ok (peek false (start_at + 20 * second) acme mfa_flow (digest 1) second_login) ≡ false)
    × (is_ok (record_failure false (start_at + 20 * second) acme mfa_flow (digest 1) second_login)
        ≡ false)
    × (entry_at (key_at 2) second_login
        ≡ (if eqb key_discrete (key_at 1) (key_at 2) then none else entry_at (key_at 2) two_logins))
consume_ends_example =
    consume_ends false false (start_at + 20 * second) (start_at + 20 * second) acme mfa_flow
      (digest 1) (key_at 2) two_logins second_login (ok (record_at 1 0)) consume-first

abbrev five_charges : CeremonyStore
five_charges =
    charge_each acme mfa_flow (digest 1)
      ((start_at + 20 * second)
        ∷ (start_at + 21 * second)
        ∷ (start_at + 22 * second)
        ∷ (start_at + 23 * second)
        ∷ (start_at + 24 * second)
        ∷ [])
      two_logins

exhausted_example : live_entry (key_at 1) (start_at + 30 * second) five_charges ≡ none
unfolding kind_valid stateless kind_scope scope_discrete max_attempts
exhausted_example =
    exhausted acme mfa_flow (digest 1)
      ((start_at + 20 * second)
        ∷ (start_at + 21 * second)
        ∷ (start_at + 22 * second)
        ∷ (start_at + 23 * second)
        ∷ (start_at + 24 * second)
        ∷ [])
      (start_at + 30 * second) two_logins refl refl refl refl (omega arith)

abbrev marked : CeremonyStore
marked = record two_logins {
  consumed =
      (record { tenant = acme; kind = oauth_state; handle = digest 7 }, start_at + 540 * second)
      ∷ [];
}

mark-first :
    mark_consumed false start_at acme oauth_state (digest 7) (start_at + 540 * second) two_logins
    ≡ ok (marked, true)
unfolding mark_consumed lookup_key kind_valid stateless kind_scope scope_discrete get put
mark-first = refl

mark_once_example :
    mark_consumed false
      (start_at + 10 * second)
      acme
      oauth_state
      (digest 7)
      (start_at + 540 * second)
      marked
    ≡ ok (
        if ltb (start_at + 10 * second) (micro (start_at + 540 * second))
        then (marked, false)
        else (
          record marked {
            consumed =
                put key_discrete
                  (record { tenant = acme; kind = oauth_state; handle = digest 7 })
                  (micro (start_at + 540 * second))
                  marked.consumed;
          },
          true,
        ))
mark_once_example =
    mark_once false start_at (start_at + 10 * second) (start_at + 540 * second)
      (start_at + 540 * second) acme oauth_state (digest 7) two_logins marked mark-first

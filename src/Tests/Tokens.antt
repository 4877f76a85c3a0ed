-- ===== src/Tests/Tokens.antt =====
-- A family of refresh tokens: created, rotated, and revoked by a reuse.
use egauth.Base.{
  Option, ◌<◌, ◌≤◌, ◌+◌, ◌*◌, true, false, ◌≡◌, refl, [], ◌∷◌, Bytes, ok, err, is_ok, some, arith,
  bytes_discrete, ℕ_discrete,
}
use egauth.Base.Maps.{get, put}
use egauth.Core.Policy.{second}
use egauth.Core.Pending.{subject_discrete}
use egauth.Tokens.Record.{RefreshRow, restore_refresh, check_refresh_row, reused}
use egauth.Tokens.Store.{
  Token, TokenStore, FamilyKey, family_discrete, new_token_store, new_token, refresh_row_of, insert,
  create_family, lookup_token, replayable, get_token, continues, replay, rotate_token,
  consume_for_rotation, RotationResult, revoke_key, mark_revoked, rows_of, latest_end,
  revoke_family,
}
use egauth.Tokens.Store.Reuse.{revoke_family_ends, consume_reuse_ends}
use egauth.Tokens.Store.Rotation.{Rotated, consume-Rotated, consume_once}
use egauth.Tokens.Record.{RefreshSpec, new_refresh_record}
use egauth.Tokens.Record.Bounds.{new_refresh_record-bounds}
use egauth.Core.Attrs.{SessionAttrs}
use egauth.Tests.Login.{start_at, user, acme, session}
use egauth.Tests.Stores.{digest}

abbrev pub first_row : RefreshRow
first_row = record {
  token_hash = digest 1;
  family = 31;
  subject = user;
  lineage = 21;
  sealed = 1 ∷ [];
  app_claims = [];
  security_epoch = 3;
  client_fingerprint = 8 ∷ [];
  idle_expires_at = start_at + 600 * second;
  family_expires_at = start_at + 3600 * second;
  created_at = start_at;
}

abbrev pub second_row : RefreshRow
second_row = record first_row { token_hash = digest 2; created_at = start_at + 60 * second }

abbrev pub third_row : RefreshRow
third_row = record first_row { token_hash = digest 3; client_fingerprint = 9 ∷ [] }

abbrev pub key : FamilyKey
key = record { tenant = acme; family = 31 }

abbrev pub one_token : TokenStore
one_token = record new_token_store {
  tokens = (digest 1, new_token first_row) ∷ [];
  families = (key, digest 1 ∷ []) ∷ [];
}

abbrev pub used_first : Token
used_first = record (new_token first_row) {
  consumed_at = start_at + 60 * second;
  consumed_by = 8 ∷ [];
}

abbrev pub two_tokens : TokenStore
two_tokens = record new_token_store {
  tokens = (digest 1, used_first) ∷ (digest 2, new_token second_row) ∷ [];
  families = (key, digest 1 ∷ digest 2 ∷ []) ∷ [];
}

pub create_family-first : create_family false first_row new_token_store ≡ ok one_token
unfolding create_family insert restore_refresh check_refresh_row refresh_row_of get put
create_family-first = refl

abbrev second_rotation : RotationResult
second_rotation = record { family = second_row.family; consumed_at = start_at + 60 * second }

pub rotate-second :
    consume_for_rotation false (start_at + 60 * second) second_row (digest 1) one_token
    ≡ (two_tokens, ok second_rotation)
unfolding consume_for_rotation rotate_token insert restore_refresh check_refresh_row refresh_row_of
    lookup_token replayable continues get put bytes_discrete ℕ_discrete subject_discrete
    family_discrete
rotate-second = refl

consume-Rotated_example :
    Rotated (start_at + 60 * second) second_rotation second_row (digest 1) one_token two_tokens
consume-Rotated_example =
    consume-Rotated false (start_at + 60 * second) second_rotation second_row (digest 1) one_token
      two_tokens rotate-second

consume_once_example :
    is_ok ((consume_for_rotation false (start_at + 90 * second) third_row (digest 1) two_tokens).1)
    ≡ false
consume_once_example =
    consume_once false false (start_at + 60 * second) (start_at + 90 * second) second_rotation
      second_row third_row (digest 1) one_token two_tokens (ground arith) rotate-second

-- Another client presents the first token half a minute later.
third-reused :
    (consume_for_rotation false (start_at + 90 * second) third_row (digest 1) two_tokens).1
    ≡ err reused
unfolding consume_for_rotation replay lookup_token replayable continues get put bytes_discrete
    ℕ_discrete subject_discrete family_discrete
third-reused = refl

consume_reuse_ends_example :
    (is_ok (
        get_token false
          (start_at + 91 * second)
          acme
          (digest 2)
          ((consume_for_rotation false (start_at + 90 * second) third_row (digest 1) two_tokens).0))
      ≡ false)
    × (is_ok (
          (consume_for_rotation false (start_at + 91 * second) third_row (digest 2) (
            (consume_for_rotation false
              (start_at + 90 * second)
              third_row
              (digest 1)
              two_tokens).0)).1)
        ≡ false)
unfolding get bytes_discrete ℕ_discrete family_discrete
consume_reuse_ends_example =
    consume_reuse_ends false false (start_at + 90 * second) (start_at + 91 * second) third_row
      third_row (digest 1) acme (digest 2) two_tokens third-reused refl

abbrev pub ended_tokens : TokenStore
ended_tokens = record two_tokens {
  tokens =
      (digest 1, record used_first { revoked = true })
      ∷ (digest 2, record (new_token second_row) { revoked = true })
      ∷ [];
  feed = record { seq = 1; family = key; at = start_at; expires = start_at + 3600 * second } ∷ [];
  seq = 1;
}

pub revoke_family-two : revoke_family false start_at acme 31 two_tokens ≡ ok ended_tokens
unfolding revoke_family revoke_key mark_revoked rows_of latest_end get put bytes_discrete ℕ_discrete
    family_discrete
revoke_family-two = refl

revoke_family_ends_example :
    (is_ok (get_token false (start_at + 91 * second) acme (digest 2) ended_tokens) ≡ false)
    × (is_ok (
          (consume_for_rotation false (start_at + 91 * second) third_row (digest 2) ended_tokens).1)
        ≡ false)
unfolding get bytes_discrete ℕ_discrete family_discrete
revoke_family_ends_example =
    revoke_family_ends false false start_at (start_at + 91 * second) 31 acme acme (digest 2)
      third_row two_tokens ended_tokens revoke_family-two refl

abbrev spec : RefreshSpec
spec = record {
  token_hash = digest 1;
  family = 31;
  attrs = session;
  app_claims = [];
  client_fingerprint = 8 ∷ [];
  idle_ttl = 600 * second;
  max_lifetime = 3600 * second;
  now = start_at + 10 * second;
}

-- A sealer that writes the version.
abbrev sealer : SessionAttrs → Option Bytes
sealer a = some (a.version ∷ [])

abbrev spec_row : RefreshRow
spec_row = record first_row {
  lineage = 99;
  idle_expires_at = start_at + 610 * second;
  family_expires_at = start_at + 3610 * second;
  created_at = start_at + 10 * second;
}

new_refresh_record-spec : new_refresh_record spec sealer ≡ ok spec_row
unfolding new_refresh_record restore_refresh check_refresh_row
new_refresh_record-spec = refl

new_refresh_record-bounds_example :
    (spec_row.subject ≡ session.subject)
    × (spec_row.lineage ≡ session.lineage)
    × (spec_row.security_epoch ≡ session.epoch)
    × (sealer session ≡ some spec_row.sealed)
    × (spec_row.family_expires_at ≡ session.created_at + spec.max_lifetime)
    × (spec.now < spec_row.family_expires_at)
    × (spec.now < spec_row.idle_expires_at)
    × (spec_row.idle_expires_at ≤ spec.now + spec.idle_ttl)
    × (spec_row.idle_expires_at ≤ spec_row.family_expires_at)
    × (check_refresh_row spec_row ≡ true)
new_refresh_record-bounds_example =
    new_refresh_record-bounds spec sealer spec_row new_refresh_record-spec

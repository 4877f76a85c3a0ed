-- ===== src/Tokens/Store/Keys.antt =====
-- store/tokens/memory/store.go: the operations on API keys.
pub mod Lookup
use egauth.Base.{
  ℕ, Bool, true, false, not, ◌&&◌, ◌||◌, List, [], ◌∷◌, Bytes, if◌then◌else◌, eqb, ltb, leb, ◌==◌,
  Option, none, some, Result, ok, err, ◌>>=◌, ◌>>◌, refuse_if, ℕ_discrete,
}
use egauth.Base.Maps.{Map, get, put}
use egauth.Core.Policy.{Subject, zero_time}
use egauth.Core.Pending.{subject_discrete}
use egauth.Sessions.Store.{micro, is_some}
use egauth.Tokens.ApiKey.{ApiKey, validate_key}
use egauth.Tokens.Record.{TokenError, token_cancelled, bad_record, token_conflict, token_not_found}
use egauth.Tokens.Store.{KeyRef, ref_discrete, TokenStore}

-- `cloneKey`; the zero time truncates to itself.
unfoldable pub key_row_of : ApiKey → ApiKey
key_row_of k = record k {
  created_at = micro k.created_at;
  expires_at = if k.expires_at == zero_time then zero_time else micro k.expires_at;
  revoked_at = if k.revoked_at == zero_time then zero_time else micro k.revoked_at;
}

abbrev pub ref_of : ApiKey → KeyRef
ref_of k = record { tenant = k.owner.tenant; hash = k.key_hash }

unfoldable pub create_api_key : Bool → ApiKey → TokenStore → Result TokenError TokenStore
create_api_key ctx k s = do
  refuse_if ctx token_cancelled
  refuse_if (not (validate_key k)) bad_record
  refuse_if (is_some (get ref_discrete (ref_of k) s.keys)) token_conflict
  refuse_if (is_some (get ℕ_discrete k.id s.key_ids)) token_conflict
  ok (record s {
    keys = put ref_discrete (ref_of k) (key_row_of k) s.keys;
    key_ids = put ℕ_discrete k.id (ref_of k) s.key_ids;
  })

unfoldable pub get_api_key : Bool → ℕ → Bytes → Bytes → TokenStore → Result TokenError ApiKey
get_api_key ctx clk t hash s = do
  refuse_if ctx token_cancelled
  elim (get ref_discrete (record { tenant = t; hash = hash }) s.keys) [
    | none ↦ err token_not_found
    | some k ↦ do
      refuse_if (not (k.expires_at == zero_time) && leb k.expires_at (micro clk)) token_not_found
      ok (key_row_of k)
  ]

abbrev pub key_before : ApiKey → ApiKey → Bool
key_before a b =
    if a.created_at == b.created_at then leb a.id b.id else ltb a.created_at b.created_at

unfoldable pub insert_key : ApiKey → List ApiKey → List ApiKey
insert_key k [] = k ∷ []
insert_key k (j ∷ js) = if key_before k j then k ∷ j ∷ js else j ∷ insert_key k js

-- The loop of `ListAPIKeys`, and its sort by creation and id.
unfoldable pub keys_of_owner : Subject → Map KeyRef ApiKey → List ApiKey
keys_of_owner owner [] = []
keys_of_owner owner ((ref, k) ∷ m) =
    if eqb subject_discrete k.owner owner
    then insert_key (key_row_of k) (keys_of_owner owner m)
    else keys_of_owner owner m

unfoldable pub list_api_keys : Bool → Subject → TokenStore → Result TokenError (List ApiKey)
list_api_keys ctx owner s = do refuse_if ctx token_cancelled; ok (keys_of_owner owner s.keys)

-- An id whose reference leads to no key would be a nil dereference.
unfoldable pub revoke_api_key : Bool → ℕ → Subject → ℕ → TokenStore → Result TokenError TokenStore
revoke_api_key ctx clk owner id s = do
  refuse_if ctx token_cancelled
  elim (get ℕ_discrete id s.key_ids) [
    | none ↦ err token_not_found
    | some ref ↦ elim (get ref_discrete ref s.keys) [
      | none ↦ err token_not_found
      | some k ↦ do
        refuse_if (not (eqb subject_discrete k.owner owner)) token_not_found
        ok (
            if k.revoked_at == zero_time
            then record s {
              keys = put ref_discrete ref (record k { revoked_at = micro clk }) s.keys;
            }
            else s)
    ]
  ]

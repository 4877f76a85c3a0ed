-- ===== src/Tokens/ApiKey.antt =====
-- store/tokens/apikey.go: API keys and what makes one complete.
use egauth.Base.{ℕ, Bool, not, ◌&&◌, ◌||◌, Bytes, length, is_empty, ltb, ◌==◌}
use egauth.Core.Policy.{Subject, subject_is_zero, uuid_nil, zero_time}
use egauth.Sessions.Record.{hash_len, max_app_claims_len}

pub record ApiKey : Type 0 where
  pub id : ℕ
  pub owner : Subject
  pub kind : Bytes
  pub name : Bytes
  pub key_hash : Bytes
  pub app_claims : Bytes
  pub created_epoch : ℕ
  pub created_at : ℕ
  pub expires_at : ℕ
  pub revoked_at : ℕ

abbrev pub max_label_len : ℕ
max_label_len = 128

-- `Validate`, true for a nil error.
unfoldable pub validate_key : ApiKey → Bool
validate_key k =
    not (k.id == uuid_nil)
    && not (subject_is_zero k.owner)
    && not
        (is_empty k.kind || ltb max_label_len (length k.kind) || ltb max_label_len (length k.name))
    && length k.key_hash == hash_len
    && not (ltb max_app_claims_len (length k.app_claims))
    && not (k.created_at == zero_time)
    && not (not (k.expires_at == zero_time) && not (ltb k.created_at k.expires_at))

-- ===== src/Sessions/Record.antt =====
-- store/sessions/record.go: the persisted session row, its checks, and how it is derived.
pub mod Bounds
use egauth.Base.{
  ℕ, ◌+◌, ◌-◌, ◌*◌, Bool, not, ◌&&◌, ◌||◌, Bytes, length, is_empty, if◌then◌else◌, ltb, leb, ◌==◌,
  Option, none, some, Result, ok, err, ◌>>=◌, ◌>>◌, refuse_if,
}
use egauth.Core.Policy.{Subject, subject_is_zero, uuid_nil, zero_time, second}
use egauth.Core.Attrs.{SessionAttrs}

-- The errors of the store and of its records.
pub data StoreError : Type 0 where
  cancelled invalid_record lifetime_exceeded conflict not_found : StoreError

abbrev pub max_clock_skew : ℕ
max_clock_skew = 60 * second

abbrev pub hash_len : ℕ
hash_len = 32

abbrev pub max_fingerprint_len : ℕ
max_fingerprint_len = 64

abbrev pub max_app_claims_len : ℕ
max_app_claims_len = 16 * 1024

-- A `Row`; a `Record` has the same fields, and is a row that `restore` accepted.
pub record Row : Type 0 where
  pub id : ℕ
  pub token_hash : Bytes
  pub subject : Subject
  pub lineage : ℕ
  pub sealed : Bytes
  pub app_claims : Bytes
  pub security_epoch : ℕ
  pub client_fingerprint : Bytes
  pub idle_expires_at : ℕ
  pub absolute_expires_at : ℕ
  pub checked_at : ℕ
  pub created_at : ℕ

-- `checkRow`, true for a nil error.
unfoldable pub check_row : Row → Bool
check_row r =
    not (r.id == uuid_nil || r.lineage == uuid_nil)
    && length r.token_hash == hash_len
    && not (subject_is_zero r.subject)
    && not (is_empty r.sealed)
    && not (ltb max_app_claims_len (length r.app_claims))
    && not (ltb max_fingerprint_len (length r.client_fingerprint))
    && not (
        r.created_at == zero_time
        || r.checked_at == zero_time
        || r.idle_expires_at == zero_time
        || r.absolute_expires_at == zero_time)
    && not
        (ltb r.absolute_expires_at r.created_at || ltb r.checked_at (r.created_at - max_clock_skew))
    && not (not (ltb r.checked_at r.idle_expires_at) || ltb r.absolute_expires_at r.idle_expires_at)

unfoldable pub restore : Row → Result StoreError Row
restore r = do refuse_if (not (check_row r)) invalid_record; ok r

-- The fields of `Spec`; a negative duration is 0, which is refused as well.
pub record Spec : Type 0 where
  pub id : ℕ
  pub token_hash : Bytes
  pub attrs : SessionAttrs
  pub app_claims : Bytes
  pub client_fingerprint : Bytes
  pub idle_ttl : ℕ
  pub max_lifetime : ℕ
  pub now : ℕ

-- `NewRecord`, with the sealer that the caller passes; `none` is a sealer that fails.
unfoldable pub new_record : Spec → (SessionAttrs → Option Bytes) → Result StoreError Row
new_record s seal = do
  refuse_if (s.attrs.version == 0 || s.attrs.created_at == zero_time) invalid_record
  refuse_if (s.idle_ttl == 0 || s.max_lifetime == 0 || s.now == zero_time) invalid_record
  refuse_if (ltb s.now (s.attrs.created_at - max_clock_skew)) invalid_record
  let end_at = s.attrs.created_at + s.max_lifetime
  refuse_if (leb end_at s.now) lifetime_exceeded
  let idle = (if ltb end_at (s.now + s.idle_ttl) then end_at else s.now + s.idle_ttl)
  sealed ← (elim (seal s.attrs) [ none ↦ err invalid_record | some b ↦ ok b ])
  restore (record {
    id = s.id;
    token_hash = s.token_hash;
    subject = s.attrs.subject;
    lineage = s.attrs.lineage;
    sealed = sealed;
    app_claims = s.app_claims;
    security_epoch = s.attrs.epoch;
    client_fingerprint = s.client_fingerprint;
    idle_expires_at = idle;
    absolute_expires_at = end_at;
    checked_at = s.now;
    created_at = s.now;
  })

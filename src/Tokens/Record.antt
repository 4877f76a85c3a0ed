-- ===== src/Tokens/Record.antt =====
-- store/tokens/record.go and errors.go: the persisted refresh row and its checks.
pub mod Bounds
use egauth.Base.{
  ℕ, ◌+◌, ◌-◌, ◌*◌, Bool, true, false, not, ◌&&◌, ◌||◌, Bytes, length, is_empty, if◌then◌else◌, ltb,
  leb, ◌==◌, Option, none, some, Result, ok, err, ◌>>=◌, ◌>>◌, refuse_if,
}
use egauth.Core.Policy.{Subject, subject_is_zero, uuid_nil, zero_time}
use egauth.Core.Attrs.{SessionAttrs}
use egauth.Sessions.Record.{max_clock_skew, hash_len, max_fingerprint_len, max_app_claims_len}

-- The errors of the store and of its records.
pub data TokenError : Type 0 where
  token_cancelled bad_record lineage_ended token_conflict token_not_found reused : TokenError
  concurrent family_revoked : TokenError

-- A `RefreshRow`; a `RefreshRecord` has the same fields.
pub record RefreshRow : Type 0 where
  pub token_hash : Bytes
  pub family : ℕ
  pub subject : Subject
  pub lineage : ℕ
  pub sealed : Bytes
  pub app_claims : Bytes
  pub security_epoch : ℕ
  pub client_fingerprint : Bytes
  pub idle_expires_at : ℕ
  pub family_expires_at : ℕ
  pub created_at : ℕ

-- `checkRefreshRow`, true for a nil error.
unfoldable pub check_refresh_row : RefreshRow → Bool
check_refresh_row r =
    length r.token_hash == hash_len
    && not (r.family == uuid_nil || r.lineage == uuid_nil)
    && not (subject_is_zero r.subject)
    && not (is_empty r.sealed)
    && not (ltb max_app_claims_len (length r.app_claims))
    && not (ltb max_fingerprint_len (length r.client_fingerprint))
    && not (
        r.created_at == zero_time
        || r.idle_expires_at == zero_time
        || r.family_expires_at == zero_time)
    && not (not (ltb r.created_at r.idle_expires_at) || ltb r.family_expires_at r.idle_expires_at)

unfoldable pub restore_refresh : RefreshRow → Result TokenError RefreshRow
restore_refresh r = do refuse_if (not (check_refresh_row r)) bad_record; ok r

-- The fields of `RefreshSpec`; a negative duration is 0, which is refused as well.
pub record RefreshSpec : Type 0 where
  pub token_hash : Bytes
  pub family : ℕ
  pub attrs : SessionAttrs
  pub app_claims : Bytes
  pub client_fingerprint : Bytes
  pub idle_ttl : ℕ
  pub max_lifetime : ℕ
  pub now : ℕ

-- `NewRefreshRecord`, with the sealer that the caller passes; `none` is a sealer that fails.
unfoldable pub new_refresh_record :
    RefreshSpec → (SessionAttrs → Option Bytes) → Result TokenError RefreshRow
new_refresh_record s seal = do
  refuse_if (s.attrs.version == 0 || s.attrs.created_at == zero_time) bad_record
  refuse_if (s.idle_ttl == 0 || s.max_lifetime == 0 || s.now == zero_time) bad_record
  refuse_if (ltb s.now (s.attrs.created_at - max_clock_skew)) bad_record
  let family_end = s.attrs.created_at + s.max_lifetime
  refuse_if (leb family_end s.now) lineage_ended
  let idle_end = (if ltb family_end (s.now + s.idle_ttl) then family_end else s.now + s.idle_ttl)
  sealed ← (elim (seal s.attrs) [ none ↦ err bad_record | some b ↦ ok b ])
  restore_refresh (record {
    token_hash = s.token_hash;
    family = s.family;
    subject = s.attrs.subject;
    lineage = s.attrs.lineage;
    sealed = sealed;
    app_claims = s.app_claims;
    security_epoch = s.attrs.epoch;
    client_fingerprint = s.client_fingerprint;
    idle_expires_at = idle_end;
    family_expires_at = family_end;
    created_at = s.now;
  })

-- ===== src/Core/Attrs.antt =====
-- internal/core/attrs.go: the sealed session state, and the reauthentication Pending of a session.
use egauth.Base.{
  ℕ, ◌+◌, ◌-◌, min, Bool, true, false, not, ◌&&◌, ◌||◌, List, [], Bytes, if◌then◌else◌, leb, ltb,
  ◌==◌, any, is_empty,
}
use egauth.Core.Factor.{Factor, contains, has_role, role_primary, role_second, multi_factor, valid}
use egauth.Core.Policy.{
  Subject, canon_time, zero_time, zero_subject, uuid_nil, subject_is_zero, transport_valid,
}
use egauth.Core.Pending.{
  CredentialUse, Pending, zero_pending, codec_version, pending_ttl, is_passkey_factor,
}

pub record SessionAttrs : Type 0 where
  pub version : ℕ
  pub lineage : ℕ
  pub subject : Subject
  pub factors : List Factor
  pub credential_ids : List CredentialUse
  pub primary_at : ℕ
  pub second_at : ℕ
  pub epoch : ℕ
  pub must_change : Bool
  pub remember : Bool
  pub return_to : Bytes
  pub transport : ℕ
  pub provider : Bytes
  pub created_at : ℕ
  pub claims_fetched_at : ℕ

abbrev pub zero_attrs : SessionAttrs
zero_attrs = record {
  version = 0;
  lineage = uuid_nil;
  subject = zero_subject;
  factors = [];
  credential_ids = [];
  primary_at = zero_time;
  second_at = zero_time;
  epoch = 0;
  must_change = false;
  remember = false;
  return_to = [];
  transport = 0;
  provider = [];
  created_at = zero_time;
  claims_fetched_at = zero_time;
}

-- The largest `time.Duration`, at which `Time.Sub` saturates.
abbrev pub max_duration : ℕ
max_duration = 9223372036854775807

-- `now.Sub(t)`, with 0 for a negative difference: it is compared with positive durations only.
abbrev pub time_sub : ℕ → ℕ → ℕ
time_sub now t = min (now - t) max_duration

unfoldable pub attrs_has_factor : SessionAttrs → Factor → Bool
attrs_has_factor a f = valid f && contains a.factors f

unfoldable pub attrs_multi_factor : SessionAttrs → Bool
attrs_multi_factor a = multi_factor a.factors

-- A negative `d` is 0, which is refused as well.
unfoldable pub fresh_within : SessionAttrs → ℕ → ℕ → Bool
fresh_within a d now =
    if d == 0 || a.primary_at == zero_time || ltb d (time_sub now a.primary_at)
    then false
    else (if has_role a.factors role_second || multi_factor a.factors
        then not (a.second_at == zero_time) && leb (time_sub now a.second_at) d
        else true)

unfoldable pub pending_for_reauth : SessionAttrs → ℕ → Pending
pending_for_reauth a now = if a.version == 0 then zero_pending else record zero_pending {
  version = codec_version;
  tenant = a.subject.tenant;
  subject = a.subject;
  epoch_at_bind = a.epoch;
  remember = a.remember;
  transport = a.transport;
  reauth_of = a.lineage;
  expires_at = canon_time (now + pending_ttl);
}

-- One credential use in `checkAttrs` of codec.go.
abbrev pub use_ok : List Factor → CredentialUse → Bool
use_ok fs u = is_passkey_factor u.factor && not (is_empty u.id) && contains fs u.factor

-- `checkAttrs` of codec.go, true for a nil error.
unfoldable pub check_attrs : SessionAttrs → Bool
check_attrs a =
    not (
      a.lineage == uuid_nil
      || subject_is_zero a.subject
      || not (has_role a.factors role_primary)
      || not (transport_valid a.transport))
    && not (any (λ u. not (use_ok a.factors u)) a.credential_ids)

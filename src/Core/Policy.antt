-- ===== src/Core/Policy.antt =====
-- internal/core/tenant.go, policy.go, errors.go: subjects, policy values and the account state.
-- A UUID is the number that its 16 bytes spell, `uuid_nil` is uuid.Nil. A byte string that is nil
-- or empty is `[]`. An instant is the number of nanoseconds since Go's zero time, which is 0.
use egauth.Base.{
  ℕ, Bool, true, false, not, ◌&&◌, ◌||◌, List, [], Bytes, any, length, is_empty, ltb, leb, ◌==◌,
  Result, ok, ◌>>◌, refuse_if,
}
use egauth.Core.Factor.{Factor, add_new, sort_factors}

-- The sentinels. `errors.Join(sentinel, detail)` is the sentinel.
pub data Error : Type 0 where
  invalid_tenant invalid_factor invalid_verified invalid_argument tenant_mismatch : Error
  subject_mismatch not_bound already_bound not_identifying same_credential : Error
  provider_mismatch no_primary pending_expired reauth_pending lineage_mismatch : Error
  account_unusable epoch_stale reauth_required factor_required claims_unavailable : Error
  claims_subject_unknown claims_too_large malformed : Error

abbrev pub uuid_nil : ℕ
uuid_nil = 0

abbrev pub zero_time : ℕ
zero_time = 0

abbrev pub max_tenant_len : ℕ
max_tenant_len = 128

abbrev pub tenant_byte : ℕ → Bool
tenant_byte c =
    (leb b'a' c && leb c b'z')
    || (leb b'A' c && leb c b'Z')
    || (leb b'0' c && leb c b'9')
    || c == b'.'
    || c == b'_'
    || c == b'-'

-- A tenant is its identifier; the single tenant is `[]`.
unfoldable pub parse_tenant_id : Bytes → Result Error Bytes
parse_tenant_id s = do
  refuse_if (is_empty s || ltb max_tenant_len (length s)) invalid_tenant
  refuse_if (any (λ c. not (tenant_byte c)) s) invalid_tenant
  ok s

pub record Subject : Type 0 where
  pub tenant : Bytes
  pub user : ℕ

abbrev pub subject_is_zero : Subject → Bool
subject_is_zero s = s.user == uuid_nil

abbrev pub zero_subject : Subject
zero_subject = record { tenant = []; user = uuid_nil }

abbrev pub transport_cookies : ℕ
transport_cookies = 1

abbrev pub transport_bearer : ℕ
transport_bearer = 2

-- A transport is its byte.
abbrev pub transport_valid : ℕ → Bool
transport_valid t = t == transport_cookies || t == transport_bearer

-- In the next three, the first constructor stands for the zero value and for any unknown one.
pub data RememberIntent : Type 0 where
  no_intent remember_declined remember_requested : RememberIntent

pub data RememberMePolicy : Type 0 where
  no_policy remember_user_choice remember_always remember_never : RememberMePolicy

pub data ClaimsOutcome : Type 0 where
  no_outcome claims_refreshed claims_kept_stale claims_outage claims_unknown_subject : ClaimsOutcome
  claims_oversized : ClaimsOutcome

pub record AccountState : Type 0 where
  pub account_exists : Bool
  pub disabled : Bool
  pub deleted : Bool
  pub must_change : Bool
  pub email_verified : Bool
  pub epoch : ℕ

unfoldable pub usable : AccountState → Bool
usable s = s.account_exists && not s.disabled && not s.deleted

pub record MfaDecision : Type 0 where
  pub loaded : Bool
  pub enrolled : List Factor

abbrev pub zero_mfa_decision : MfaDecision
zero_mfa_decision = record { loaded = false; enrolled = [] }

unfoldable pub new_mfa_decision : List Factor → MfaDecision
new_mfa_decision enrolled = record { loaded = true; enrolled = sort_factors (add_new [] enrolled) }

unfoldable pub mfa_required : MfaDecision → Bool
mfa_required d = not d.loaded || not (is_empty d.enrolled)

-- `canonTime` drops the monotonic reading and the location, and keeps the instant.
abbrev pub canon_time : ℕ → ℕ
canon_time t = t

abbrev pub second : ℕ
second = 1000000000

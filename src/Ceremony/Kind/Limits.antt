-- ===== src/Ceremony/Kind/Limits.antt =====
-- store/ceremony/kind.go: the lifetimes, caps and attempt bounds of the kinds.
use egauth.Base.{ℕ, ◌+◌, ◌-◌, ◌*◌, not, ◌&&◌, if◌then◌else◌, ltb}
use egauth.Core.Policy.{zero_time}
use egauth.Core.Pending.{pending_ttl}
use egauth.Ceremony.Kind.{
  Kind, minute, kind_valid, admits_session, no_kind, mfa_flow, passkey_registration, mfa_passkey,
  magic_link, email_code, sms_code, phone_verification, password_reset, pending_registration,
  email_verification, email_change, recovery_email, security_revert, exchange, discoverable_passkey,
  username_first_passkey, oauth_state, external_login, password_reset_code,
}

-- The lifetimes that others are set by.
abbrev pub mfa_flow_ttl : ℕ
mfa_flow_ttl = 5 * minute

abbrev pub exchange_ttl : ℕ
exchange_ttl = 1 * minute

unfoldable pub ttl : Kind → ℕ
ttl mfa_flow = mfa_flow_ttl
ttl passkey_registration = 5 * minute
ttl mfa_passkey = 5 * minute
ttl magic_link = pending_ttl - mfa_flow_ttl
ttl email_code = pending_ttl - mfa_flow_ttl
ttl sms_code = pending_ttl - mfa_flow_ttl
ttl phone_verification = 10 * minute
ttl password_reset = 60 * minute
ttl pending_registration = pending_ttl - mfa_flow_ttl
ttl email_verification = 24 * 60 * minute
ttl email_change = 60 * minute
ttl recovery_email = 60 * minute
ttl security_revert = 7 * 24 * 60 * minute
ttl exchange = exchange_ttl
ttl discoverable_passkey = 5 * minute
ttl username_first_passkey = 5 * minute
ttl oauth_state = pending_ttl - exchange_ttl - mfa_flow_ttl
ttl external_login = 5 * minute
ttl password_reset_code = 10 * minute
ttl no_kind = 0

unfoldable pub max_live_per_scope : Kind → ℕ
max_live_per_scope mfa_flow = 5
max_live_per_scope passkey_registration = 5
max_live_per_scope mfa_passkey = 5
max_live_per_scope magic_link = 3
max_live_per_scope email_code = 3
max_live_per_scope sms_code = 3
max_live_per_scope phone_verification = 3
max_live_per_scope password_reset = 3
max_live_per_scope pending_registration = 3
max_live_per_scope email_verification = 3
max_live_per_scope email_change = 3
max_live_per_scope recovery_email = 3
max_live_per_scope security_revert = 5
max_live_per_scope exchange = 5
max_live_per_scope discoverable_passkey = 0
max_live_per_scope username_first_passkey = 0
max_live_per_scope oauth_state = 0
max_live_per_scope external_login = 0
max_live_per_scope password_reset_code = 3
max_live_per_scope no_kind = 0

unfoldable pub max_live_per_tenant : Kind → ℕ
max_live_per_tenant mfa_flow = 0
max_live_per_tenant passkey_registration = 0
max_live_per_tenant mfa_passkey = 0
max_live_per_tenant magic_link = 0
max_live_per_tenant email_code = 0
max_live_per_tenant sms_code = 0
max_live_per_tenant phone_verification = 0
max_live_per_tenant password_reset = 0
max_live_per_tenant pending_registration = 10000
max_live_per_tenant email_verification = 0
max_live_per_tenant email_change = 0
max_live_per_tenant recovery_email = 0
max_live_per_tenant security_revert = 0
max_live_per_tenant exchange = 0
max_live_per_tenant discoverable_passkey = 0
max_live_per_tenant username_first_passkey = 0
max_live_per_tenant oauth_state = 0
max_live_per_tenant external_login = 0
max_live_per_tenant password_reset_code = 0
max_live_per_tenant no_kind = 0

unfoldable pub max_attempts : Kind → ℕ
max_attempts mfa_flow = 5
max_attempts passkey_registration = 3
max_attempts mfa_passkey = 5
max_attempts magic_link = 3
max_attempts email_code = 5
max_attempts sms_code = 5
max_attempts phone_verification = 5
max_attempts password_reset = 3
max_attempts pending_registration = 3
max_attempts email_verification = 3
max_attempts email_change = 3
max_attempts recovery_email = 3
max_attempts security_revert = 3
max_attempts exchange = 3
max_attempts discoverable_passkey = 0
max_attempts username_first_passkey = 0
max_attempts oauth_state = 0
max_attempts external_login = 0
max_attempts password_reset_code = 5
max_attempts no_kind = 0

unfoldable pub kind_expires_at : Kind → ℕ → ℕ → ℕ
kind_expires_at k pending_end now =
    if not (kind_valid k)
    then zero_time
    else (if admits_session k && ltb pending_end (now + ttl k) then pending_end else now + ttl k)

-- ===== src/Ceremony/Kind/Bounds.antt =====
-- The expiry of a ceremony, and the limits of its kind.
use egauth.Base.{ℕ, ◌+◌, ◌≤◌, ◌<◌, ◌≡◌, refl, true, false, arith, min, ◌==◌, Bool-cases, inl, inr}
use egauth.Core.Pending.{pending_ttl}
use egauth.Ceremony.Kind.{
  Kind, kind_valid, kind_scope, stateless, admits_session, scope_discrete, no_kind, mfa_flow,
  passkey_registration, mfa_passkey, magic_link, email_code, sms_code, phone_verification,
  password_reset, pending_registration, email_verification, email_change, recovery_email,
  security_revert, exchange, discoverable_passkey, username_first_passkey, oauth_state,
  external_login, password_reset_code,
}
use egauth.Ceremony.Kind.Limits.{ttl, max_live_per_scope, max_attempts, kind_expires_at}

-- An artefact of a declared kind ends no later than the lifetime of its kind after its creation and, if
-- the kind admits a session, no later than its Pending; it ends at one of these two instants, and at the
-- former unless the kind admits a session.
pub kind_expires_at-bounds :
    (k : Kind) (pending_end now : ℕ)
    → kind_valid k ≡ true
    → (kind_expires_at k pending_end now ≤ now + ttl k)
      × (kind_expires_at k pending_end now ≡ (elim (admits_session k) [
        | true ↦ min pending_end (now + ttl k)
        | false ↦ now + ttl k
      ]))
unfolding kind_expires_at
kind_expires_at-bounds k pending_end now v = (
  ground arith,
  elim (Bool-cases (admits_session k)) [ inl a ↦ ground arith | inr a ↦ ground arith ],
)

-- A stored kind has a positive lifetime, keeps at least one record of a scope, and allows at least one
-- failure; a stateless kind keeps no record and allows none.
pub stored_limits :
    (k : Kind)
    → kind_valid k ≡ true
    → (0 < ttl k)
      × ((max_live_per_scope k == 0) ≡ stateless k)
      × ((max_attempts k == 0) ≡ stateless k)
unfolding kind_valid stateless kind_scope ttl max_live_per_scope max_attempts scope_discrete
stored_limits mfa_flow v = (ground arith, refl, refl)
stored_limits passkey_registration v = (ground arith, refl, refl)
stored_limits mfa_passkey v = (ground arith, refl, refl)
stored_limits magic_link v = (ground arith, refl, refl)
stored_limits email_code v = (ground arith, refl, refl)
stored_limits sms_code v = (ground arith, refl, refl)
stored_limits phone_verification v = (ground arith, refl, refl)
stored_limits password_reset v = (ground arith, refl, refl)
stored_limits pending_registration v = (ground arith, refl, refl)
stored_limits email_verification v = (ground arith, refl, refl)
stored_limits email_change v = (ground arith, refl, refl)
stored_limits recovery_email v = (ground arith, refl, refl)
stored_limits security_revert v = (ground arith, refl, refl)
stored_limits exchange v = (ground arith, refl, refl)
stored_limits discoverable_passkey v = (ground arith, refl, refl)
stored_limits username_first_passkey v = (ground arith, refl, refl)
stored_limits oauth_state v = (ground arith, refl, refl)
stored_limits external_login v = (ground arith, refl, refl)
stored_limits password_reset_code v = (ground arith, refl, refl)
stored_limits no_kind v = absurd (ground arith)

-- The lifetime of a kind that admits a session leaves room in the lifetime of a Pending for an MFA flow
-- after it and, if the kind is stateless, for an exchange between the two.
ttl_chain :
    (k : Kind)
    → admits_session k ≡ true
    → (ttl k + ttl mfa_flow ≤ pending_ttl)
      × (stateless k ≡ true → ttl k + ttl exchange + ttl mfa_flow ≤ pending_ttl)
unfolding admits_session stateless kind_scope ttl
ttl_chain mfa_flow a = (ground arith, λ free. ground arith)
ttl_chain passkey_registration a = absurd (ground arith)
ttl_chain mfa_passkey a = (ground arith, λ free. ground arith)
ttl_chain magic_link a = (ground arith, λ free. ground arith)
ttl_chain email_code a = (ground arith, λ free. ground arith)
ttl_chain sms_code a = (ground arith, λ free. ground arith)
ttl_chain phone_verification a = absurd (ground arith)
ttl_chain password_reset a = absurd (ground arith)
ttl_chain pending_registration a = (ground arith, λ free. ground arith)
ttl_chain email_verification a = absurd (ground arith)
ttl_chain email_change a = absurd (ground arith)
ttl_chain recovery_email a = absurd (ground arith)
ttl_chain security_revert a = absurd (ground arith)
ttl_chain exchange a = (ground arith, λ free. ground arith)
ttl_chain discoverable_passkey a = (ground arith, λ free. ground arith)
ttl_chain username_first_passkey a = (ground arith, λ free. ground arith)
ttl_chain oauth_state a = (ground arith, λ free. ground arith)
ttl_chain external_login a = (ground arith, λ free. ground arith)
ttl_chain password_reset_code a = absurd (ground arith)
ttl_chain no_kind a = absurd (ground arith)

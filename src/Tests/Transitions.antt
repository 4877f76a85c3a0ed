-- ===== src/Tests/Transitions.antt =====
-- Runs of internal/core: the login of Login, then a reauthentication, an enrolment and a renewal.
use egauth.Base.{
  ℕ, ◌+◌, ◌*◌, ◌≤◌, true, false, ◌⊎◌, ◌≡◌, ◌≢◌, ◌↔◌, refl, [], ◌∷◌, ok, is_ok, arith,
  bytes_discrete, ℕ_discrete,
}
use egauth.Core.Factor.{
  password, totp, factor_table, role, code, sort_factors, insert_factor, code_le, leb_bytes,
  contains, add_new, union_factors, has_role, multi_factor, role_discrete, factor_discrete,
}
use egauth.Core.Policy.{
  AccountState, usable, MfaDecision, mfa_required, claims_refreshed, second, uuid_nil, zero_time,
}
use egauth.Core.Verified.{Verified, new_verified}
use egauth.Core.Verified.Shape.{HasShape, new_verified_iff}
use egauth.Core.Pending.{
  Pending, subject_discrete, factor_set, factor_set_from, credential_uses, verified_uses,
  pending_primary_at, pending_second_at, latest_from,
}
use egauth.Core.Pending.Invariant.{IsPending}
use egauth.Core.Attrs.{SessionAttrs, pending_for_reauth, fresh_within, time_sub}
use egauth.Core.Transitions.{
  admit, admitted, reauthenticate, reauthenticated_attrs, merge_uses, factor_enrolled, check_bumped,
  renew, claims_instant,
}
use egauth.Core.Transitions.Admitted.{IsAdmitted}
use egauth.Core.Transitions.Admit.{IsAdmissible, IsSession, admit-admitted_iff}
use egauth.Core.Transitions.Lineage.{enrols}
use egauth.Core.Transitions.Kept.{Keeps, Step-Keeps}
use egauth.Core.Transitions.Freshness.{
  reauthenticate-fresh_within, factor_enrolled-fresh_within, renew-fresh_within,
}
use egauth.Core.Reach.{Journey-IsPending}
use egauth.Tests.Login.{
  start_at, account, full, mfa, session, password_verified, totp_spec, full-Journey,
}

admit-admitted_iff_example :
    (admit full account mfa 99 (start_at + 10 * second) ≡ ok (admitted session)) ↔ (
      IsAdmissible full account mfa (start_at + 10 * second)
      × ((mfa_required mfa ≡ false) ⊎ (multi_factor (factor_set full) ≡ true))
      × IsAdmitted full account 99 (start_at + 10 * second) session)
admit-admitted_iff_example = admit-admitted_iff full account mfa 99 (start_at + 10 * second) session

Journey-IsPending_example : IsPending full
Journey-IsPending_example = Journey-IsPending full full-Journey

new_verified_iff_example : (is_ok (new_verified totp_spec) ≡ true) ↔ (
    (totp_spec.subject.user ≢ uuid_nil)
    × (totp_spec.at ≢ zero_time)
    × HasShape totp_spec.factors totp_spec.credential_id totp_spec.identifies totp_spec.provider)
new_verified_iff_example = new_verified_iff totp_spec

-- An hour later the password is verified again.
abbrev again_at : ℕ
again_at = start_at + 3600 * second

abbrev again_verified : Verified
again_verified = record password_verified { at = again_at }

abbrev again : Pending
again = record (pending_for_reauth session again_at) { verified = again_verified ∷ [] }

abbrev no_mfa : MfaDecision
no_mfa = record { loaded = true; enrolled = [] }

abbrev refreshed : SessionAttrs
refreshed = record session { primary_at = again_at }

reauthenticate-refreshed : reauthenticate session again account no_mfa again_at ≡ ok refreshed
unfolding reauthenticate reauthenticated_attrs pending_for_reauth subject_discrete bytes_discrete
    ℕ_discrete usable mfa_required has_role role factor_table role_discrete multi_factor contains
    factor_discrete factor_set factor_set_from union_factors add_new sort_factors insert_factor
    code_le leb_bytes code credential_uses verified_uses pending_primary_at pending_second_at
    latest_from merge_uses
reauthenticate-refreshed = refl

reauthenticate-fresh_within_example :
    (refreshed.second_at ≡ session.second_at)
    × (session.second_at ≢ zero_time)
    × (time_sub again_at session.second_at ≤ 7200 * second)
unfolding multi_factor has_role role factor_table role_discrete contains factor_discrete
    pending_for_reauth fresh_within
reauthenticate-fresh_within_example =
    reauthenticate-fresh_within session again account no_mfa again_at (7200 * second) again_at
      refreshed refl refl reauthenticate-refreshed refl

-- A session of the password alone, which enrols a TOTP factor.
abbrev single : SessionAttrs
single = record session { factors = password ∷ []; second_at = zero_time }

abbrev bumped : AccountState
bumped = record account { epoch = 4 }

abbrev enrolled : SessionAttrs
enrolled = record single { factors = password ∷ totp ∷ []; epoch = 4 }

factor_enrolled-enrolled : factor_enrolled single totp bumped ≡ ok enrolled
unfolding factor_enrolled check_bumped usable role factor_table role_discrete contains
    factor_discrete union_factors add_new sort_factors insert_factor code_le leb_bytes code
factor_enrolled-enrolled = refl

factor_enrolled-fresh_within_example :
    (enrolled.primary_at ≡ single.primary_at)
    × (enrolled.second_at ≡ single.second_at)
    × ((fresh_within enrolled (60 * second) again_at ≡ true) ↔ (
        (60 * second ≢ 0)
        × (single.primary_at ≢ zero_time)
        × (time_sub again_at single.primary_at ≤ 60 * second)
        × (single.second_at ≢ zero_time)
        × (time_sub again_at single.second_at ≤ 60 * second)))
factor_enrolled-fresh_within_example =
    factor_enrolled-fresh_within single totp bumped enrolled (60 * second) again_at
      factor_enrolled-enrolled

Step-Keeps_example : Keeps bumped single enrolled
Step-Keeps_example = Step-Keeps (enrols totp factor_enrolled-enrolled)

single-IsSession : IsSession single
unfolding has_role role factor_table role_discrete
single-IsSession = record {
  versioned = refl;
  lineaged = ground arith;
  named = ground arith;
  identified = refl;
  transported = refl;
  uses = tt;
  dated = ground arith;
}

abbrev renewed_session : SessionAttrs
renewed_session = record session { claims_fetched_at = again_at }

renew-renewed : renew session account mfa claims_refreshed again_at ≡ ok renewed_session
unfolding renew claims_instant usable mfa_required multi_factor has_role role factor_table
    role_discrete contains factor_discrete
renew-renewed = refl

renew-fresh_within_example :
    (fresh_within renewed_session (60 * second) again_at
      ≡ fresh_within session (60 * second) again_at)
    × (renewed_session.factors ≡ session.factors)
    × ((mfa_required mfa ≡ false) ⊎ (multi_factor renewed_session.factors ≡ true))
renew-fresh_within_example =
    renew-fresh_within session account mfa claims_refreshed again_at (60 * second) again_at
      renewed_session renew-renewed

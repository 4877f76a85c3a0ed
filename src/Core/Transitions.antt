-- ===== src/Core/Transitions.antt =====
-- internal/core/transitions.go: every transition of a session, and the result of `Admit`.
pub mod Admitted
pub mod Admit
pub mod Lineage
pub mod Kept
pub mod Freshness
use egauth.Base.{
  ℕ, ◌+◌, ◌%◌, ◌^◌, Bool, true, false, not, ◌&&◌, ◌||◌, List, [], ◌∷◌, ◌++◌, Bytes, any,
  if◌then◌else◌, leb, eqb, ◌==◌, Result, ok, err, ◌>>◌, ◌>>=◌, refuse_if,
}
use egauth.Core.Factor.{
  Factor, has_role, role_primary, role_second, multi_factor, union_factors, role, role_discrete,
  password,
}
use egauth.Core.Policy.{
  Error, invalid_argument, pending_expired, not_bound, reauth_pending, no_primary, account_unusable,
  epoch_stale, lineage_mismatch, subject_mismatch, factor_required, reauth_required, invalid_factor,
  claims_unavailable, claims_subject_unknown, claims_too_large, AccountState, usable, MfaDecision,
  mfa_required, ClaimsOutcome, no_outcome, claims_refreshed, claims_kept_stale, claims_outage,
  claims_unknown_subject, claims_oversized, canon_time, transport_valid, zero_time, uuid_nil,
}
use egauth.Core.Pending.{
  CredentialUse, Pending, codec_version, is_bound, factor_set, credential_uses, pending_primary_at,
  pending_second_at, same_credential_use, subject_discrete,
}
use egauth.Core.Attrs.{SessionAttrs}

-- `Admission` with `session` true, or false with the Pending and the factors that it needs.
pub data Admission : Type 0 where
  admitted : SessionAttrs → Admission
  needs_factor : Pending → List Factor → Admission

-- The attributes that `Admit` builds; `fresh` is the new random lineage.
unfoldable pub admitted_attrs : Pending → AccountState → ℕ → ℕ → SessionAttrs
admitted_attrs p st fresh now = record {
  version = codec_version;
  lineage = fresh;
  subject = p.subject;
  factors = factor_set p;
  credential_ids = credential_uses p;
  primary_at = pending_primary_at p;
  second_at = pending_second_at p;
  epoch = st.epoch;
  must_change = st.must_change;
  remember = p.remember;
  return_to = p.return_to;
  transport = p.transport;
  provider = p.provider;
  created_at = canon_time now;
  claims_fetched_at = canon_time now;
}

-- `fresh` is the result of `uuid.New()`.
unfoldable pub admit : Pending → AccountState → MfaDecision → ℕ → ℕ → Result Error Admission
admit p st mfa fresh now = do
  refuse_if
      (p.version == 0 || not (transport_valid p.transport) || not mfa.loaded || now == zero_time)
      invalid_argument
  refuse_if (leb p.expires_at now) pending_expired
  refuse_if (not (is_bound p)) not_bound
  refuse_if (not (p.reauth_of == uuid_nil)) reauth_pending
  refuse_if (not (has_role (factor_set p) role_primary)) no_primary
  refuse_if (not (usable st)) account_unusable
  refuse_if (not (st.epoch == p.epoch_at_bind)) epoch_stale
  ok (
      if mfa_required mfa && not (multi_factor (factor_set p))
      then needs_factor p mfa.enrolled
      else admitted (admitted_attrs p st fresh now))

-- The loop that keeps one copy of each credential use.
unfoldable pub merge_uses : List CredentialUse → List CredentialUse → List CredentialUse
merge_uses out [] = out
merge_uses out (u ∷ us) =
    merge_uses (if any (same_credential_use u.factor u.id) out then out else out ++ (u ∷ [])) us

-- The attributes that `Reauthenticate` builds.
unfoldable pub reauthenticated_attrs : SessionAttrs → Pending → AccountState → SessionAttrs
reauthenticated_attrs a p st = record a {
  factors = union_factors a.factors (factor_set p);
  credential_ids = merge_uses a.credential_ids (credential_uses p);
  primary_at = pending_primary_at p;
  second_at = if pending_second_at p == zero_time then a.second_at else pending_second_at p;
  must_change = a.must_change || st.must_change;
}

unfoldable pub reauthenticate :
    SessionAttrs → Pending → AccountState → MfaDecision → ℕ → Result Error SessionAttrs
reauthenticate a p st mfa now = do
  refuse_if (a.version == 0 || p.version == 0 || not mfa.loaded || now == zero_time)
      invalid_argument
  refuse_if (p.reauth_of == uuid_nil || not (p.reauth_of == a.lineage)) lineage_mismatch
  refuse_if (not (eqb subject_discrete p.subject a.subject)) subject_mismatch
  refuse_if (leb p.expires_at now) pending_expired
  refuse_if (not (has_role (factor_set p) role_primary)) no_primary
  refuse_if (not (usable st)) account_unusable
  refuse_if (not (st.epoch == a.epoch) || not (st.epoch == p.epoch_at_bind)) epoch_stale
  refuse_if (mfa_required mfa && not (multi_factor (factor_set p))) factor_required
  ok (reauthenticated_attrs a p st)

-- `a.epoch + 1` on uint64.
abbrev pub next_epoch : ℕ → ℕ
next_epoch e = (e + 1) % 2 ^ 64

unfoldable pub check_bumped : SessionAttrs → AccountState → Result Error (Unit {0})
check_bumped a st = do
  refuse_if (not (usable st)) account_unusable
  refuse_if (not (st.epoch == next_epoch a.epoch)) epoch_stale

unfoldable pub factor_enrolled : SessionAttrs → Factor → AccountState → Result Error SessionAttrs
factor_enrolled a f st = do
  refuse_if (a.version == 0) invalid_argument
  refuse_if (not (eqb role_discrete (role f) role_second)) invalid_factor
  check_bumped a st
  ok (record a {
    factors = union_factors a.factors (f ∷ []);
    epoch = st.epoch;
    must_change = a.must_change || st.must_change;
  })

unfoldable pub password_changed : SessionAttrs → AccountState → ℕ → Result Error SessionAttrs
password_changed a st now = do
  refuse_if (a.version == 0 || now == zero_time) invalid_argument
  check_bumped a st
  ok (record a {
    factors = union_factors a.factors (password ∷ []);
    primary_at = canon_time now;
    must_change = false;
    epoch = st.epoch;
  })

-- The instant of the last claims fetch under each outcome.
unfoldable pub claims_instant : ClaimsOutcome → ℕ → ℕ → Result Error ℕ
claims_instant claims_refreshed fetched now = ok (canon_time now)
claims_instant claims_kept_stale fetched now = ok fetched
claims_instant claims_outage fetched now = err claims_unavailable
claims_instant claims_unknown_subject fetched now = err claims_subject_unknown
claims_instant claims_oversized fetched now = err claims_too_large
claims_instant no_outcome fetched now = err invalid_argument

unfoldable pub renew :
    SessionAttrs → AccountState → MfaDecision → ClaimsOutcome → ℕ → Result Error SessionAttrs
renew a st mfa claims now = do
  refuse_if (a.version == 0 || not mfa.loaded || now == zero_time) invalid_argument
  refuse_if (not (usable st)) account_unusable
  refuse_if (not (a.epoch == st.epoch)) epoch_stale
  refuse_if (mfa_required mfa && not (multi_factor a.factors)) reauth_required
  fetched ← claims_instant claims a.claims_fetched_at now
  ok (record a { claims_fetched_at = fetched; must_change = a.must_change || st.must_change })

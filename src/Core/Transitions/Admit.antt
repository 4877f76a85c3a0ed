-- ===== src/Core/Transitions/Admit.antt =====
-- `Admit`: when it starts a session, when it asks for a factor, and what it puts in the session.
use egauth.Base.{
  ℕ, ◌<◌, true, false, not, ◌&&◌, ◌≡◌, refl, ◌≢◌, ◌⊎◌, ◌↔◌, List, [], ◌∷◌, All, any, ok, arith,
  if◌then◌else◌,
}
use egauth.Core.Factor.{Factor, has_role, role_primary, multi_factor}
use egauth.Core.Policy.{
  AccountState, usable, MfaDecision, mfa_required, uuid_nil, zero_time, transport_valid,
}
use egauth.Core.Pending.{CredentialUse, Pending, codec_version, factor_set}
use egauth.Core.Pending.Invariant.{IsPending}
use egauth.Core.Pending.Uses.{ClashFree}
use egauth.Core.Pending.FactorSet.{IsUse, credential_uses-IsUse, pending_primary_at_pos}
use egauth.Core.Attrs.{SessionAttrs, check_attrs, use_ok}
use egauth.Core.Transitions.{Admission, admitted, needs_factor, admit, admitted_attrs}
use egauth.Core.Transitions.Admitted.{IsAdmitted, admitted_attrs-IsAdmitted, IsAdmitted-eq}

-- The conditions of an admission, none of which depends on the order of the checks.
pub record IsAdmissible (p : Pending) (st : AccountState) (mfa : MfaDecision) (now : ℕ)
    : Type 0 where
  pub versioned : p.version ≢ 0
  pub transported : transport_valid p.transport ≡ true
  pub decided : mfa.loaded ≡ true
  pub dated : now ≢ zero_time
  pub alive : now < p.expires_at
  pub bound : p.subject.user ≢ uuid_nil
  pub login : p.reauth_of ≡ uuid_nil
  pub identified : has_role (factor_set p) role_primary ≡ true
  pub account : (st.account_exists ≡ true) × (st.disabled ≡ false) × (st.deleted ≡ false)
  pub current : st.epoch ≡ p.epoch_at_bind

admit-IsAdmissible :
    (p : Pending) (st : AccountState) (mfa : MfaDecision) (fresh now : ℕ) (r : Admission)
    → admit p st mfa fresh now ≡ ok r
    → IsAdmissible p st mfa now
unfolding admit usable
admit-IsAdmissible p st mfa fresh now r e = record {
  versioned = ground arith;
  transported = ground arith;
  decided = ground arith;
  dated = ground arith;
  alive = ground arith;
  bound = ground arith;
  login = ground arith;
  identified = ground arith;
  account = (ground arith, ground arith, ground arith);
  current = ground arith;
}

admit_of_IsAdmissible :
    (p : Pending) (st : AccountState) (mfa : MfaDecision) (fresh now : ℕ)
    → IsAdmissible p st mfa now
    → admit p st mfa fresh now
      ≡ ok (
          if mfa_required mfa && not (multi_factor (factor_set p))
          then needs_factor p mfa.enrolled
          else admitted (admitted_attrs p st fresh now))
unfolding admit usable
admit_of_IsAdmissible p st mfa fresh now h = ground arith

pub admit-admitted :
    (p : Pending) (st : AccountState) (mfa : MfaDecision) (fresh now : ℕ) (a : SessionAttrs)
    → admit p st mfa fresh now ≡ ok (admitted a)
    → IsAdmissible p st mfa now
      × ((mfa_required mfa ≡ false) ⊎ (multi_factor (factor_set p) ≡ true))
      × (a ≡ admitted_attrs p st fresh now)
admit-admitted p st mfa fresh now a e =
    let h = admit-IsAdmissible p st mfa fresh now (admitted a) e in
    (
      h,
      ground (arith, admit_of_IsAdmissible p st mfa fresh now h),
      ground (arith, admit_of_IsAdmissible p st mfa fresh now h),
    )

-- `Admit` starts a session exactly if the Pending, the account and the clock satisfy every
-- condition of an admission, a required second factor is there, and the session says field by field
-- what the Pending, the account and the clock determine: its factors are those that the verifications
-- yielded, its instants the latest of the primary and of the strong verifications, its epoch and its
-- duty to change the password the account's, its lineage the new one, and it is created now.
pub admit-admitted_iff :
    (p : Pending) (st : AccountState) (mfa : MfaDecision) (fresh now : ℕ) (a : SessionAttrs)
    → (admit p st mfa fresh now ≡ ok (admitted a)) ↔ (
        IsAdmissible p st mfa now
        × ((mfa_required mfa ≡ false) ⊎ (multi_factor (factor_set p) ≡ true))
        × IsAdmitted p st fresh now a)
admit-admitted_iff p st mfa fresh now a = (
  λ e.
      let (h, enough, built) = admit-admitted p st mfa fresh now a e in
      (h, enough, rw built (admitted_attrs-IsAdmitted p st fresh now)),
  λ (h, enough, says).
      ground
        (arith, admit_of_IsAdmissible p st mfa fresh now h, IsAdmitted-eq p st fresh now a says),
)

-- What every session satisfies: the current version, a lineage, a user, a primary factor, a known
-- transport, uses of its own passkey factors only, and the instant of a primary verification.
pub record IsSession (a : SessionAttrs) : Type 0 where
  pub versioned : a.version ≡ codec_version
  pub lineaged : a.lineage ≢ uuid_nil
  pub named : a.subject.user ≢ uuid_nil
  pub identified : has_role a.factors role_primary ≡ true
  pub transported : transport_valid a.transport ≡ true
  pub uses : All (IsUse a.factors) a.credential_ids
  pub dated : a.primary_at ≢ zero_time

uses_ok :
    (fs : List Factor) (us : List CredentialUse)
    → All (IsUse fs) us
    → any (λ u. not (use_ok fs u)) us ≡ false
uses_ok fs [] h = refl
uses_ok fs (u ∷ us) h = ground (arith, uses_ok fs us h.1, h.0)

-- Such a session passes the check that `Seal` and `Unseal` make.
pub IsSession-check_attrs : (a : SessionAttrs) → IsSession a → check_attrs a ≡ true
unfolding check_attrs
IsSession-check_attrs a w = ground (
  arith,
  uses_ok a.factors a.credential_ids w.uses,
  w.lineaged,
  w.named,
  w.identified,
  w.transported,
)

-- A session admitted from a well-formed Pending, under a lineage that is not nil, is a session, and
-- no credential serves it as passkey and as step-up.
pub admit-IsSession :
    (p : Pending) (st : AccountState) (mfa : MfaDecision) (fresh now : ℕ) (a : SessionAttrs)
    → IsPending p
    → fresh ≢ uuid_nil
    → admit p st mfa fresh now ≡ ok (admitted a)
    → IsSession a × ClashFree a.credential_ids
unfolding admitted_attrs
admit-IsSession p st mfa fresh now a w f e =
    let (h, _, built) = admit-admitted p st mfa fresh now a e in
    rw built (
      record {
        versioned = refl;
        lineaged = f;
        named = h.bound;
        identified = h.identified;
        transported = h.transported;
        uses = credential_uses-IsUse p;
        dated = pending_primary_at_pos p w h.identified;
      },
      w.distinct,
    )

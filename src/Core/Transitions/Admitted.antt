-- ===== src/Core/Transitions/Admitted.antt =====
-- The attributes of a session that `Admit` starts, field by field.
use egauth.Base.{ℕ, ◌≡◌, refl, any, arith}
use egauth.Core.Factor.{Factor, contains}
use egauth.Core.Policy.{AccountState}
use egauth.Core.Pending.{
  Pending, factor_set, credential_uses, verified_uses, pending_primary_at, pending_second_at,
  is_primary, is_strong,
}
use egauth.Core.Pending.FactorSet.{
  IsLatest, contains-factor_set, pending_primary_at-IsLatest, pending_second_at-IsLatest,
}
use egauth.Core.Attrs.{SessionAttrs}
use egauth.Core.Transitions.{admitted_attrs}

-- What a session that was just admitted says, field by field. It holds a factor exactly if one of
-- the verifications yielded it, its first instant is the latest of the primary verifications and its
-- second one that of the second and multi-factor ones; epoch and duty to change the password are the
-- account's.
pub record IsAdmitted (p : Pending) (st : AccountState) (fresh now : ℕ) (a : SessionAttrs)
    : Type 0 where
  pub versioned : a.version ≡ 1
  pub lineaged : a.lineage ≡ fresh
  pub subject : a.subject ≡ p.subject
  pub factors : a.factors ≡ factor_set p
  pub yielded : (f : Factor) → contains a.factors f ≡ any (λ v. contains v.factors f) p.verified
  pub uses : a.credential_ids ≡ verified_uses p.verified
  pub first : a.primary_at ≡ pending_primary_at p
  pub first_latest : IsLatest is_primary p.verified a.primary_at
  pub second : a.second_at ≡ pending_second_at p
  pub second_latest : IsLatest is_strong p.verified a.second_at
  pub epoch : a.epoch ≡ st.epoch
  pub must_change : a.must_change ≡ st.must_change
  pub remember : a.remember ≡ p.remember
  pub return_to : a.return_to ≡ p.return_to
  pub transport : a.transport ≡ p.transport
  pub provider : a.provider ≡ p.provider
  pub created : a.created_at ≡ now
  pub fetched : a.claims_fetched_at ≡ now

pub admitted_attrs-IsAdmitted :
    (p : Pending) (st : AccountState) (fresh now : ℕ)
    → IsAdmitted p st fresh now (admitted_attrs p st fresh now)
unfolding admitted_attrs credential_uses
admitted_attrs-IsAdmitted p st fresh now = record {
  versioned = refl;
  lineaged = refl;
  subject = refl;
  factors = refl;
  yielded = contains-factor_set p;
  uses = refl;
  first = refl;
  first_latest = pending_primary_at-IsLatest p;
  second = refl;
  second_latest = pending_second_at-IsLatest p;
  epoch = refl;
  must_change = refl;
  remember = refl;
  return_to = refl;
  transport = refl;
  provider = refl;
  created = refl;
  fetched = refl;
}

pub IsAdmitted-eq :
    (p : Pending) (st : AccountState) (fresh now : ℕ) (a : SessionAttrs)
    → IsAdmitted p st fresh now a
    → a ≡ admitted_attrs p st fresh now
unfolding admitted_attrs credential_uses
IsAdmitted-eq p st fresh now a h = ground (
  arith, h.versioned, h.lineaged, h.subject, h.factors, h.uses, h.first, h.second, h.epoch,
  h.must_change, h.remember, h.return_to, h.transport, h.provider, h.created, h.fetched,
)

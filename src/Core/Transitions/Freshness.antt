-- ===== src/Core/Transitions/Freshness.antt =====
-- Which transitions make a session fresh, and which change whether it is multi-factor.
use egauth.Base.{ℕ, ◌≤◌, true, false, ◌≡◌, ◌↔◌, refl, ◌≢◌, ◌⊎◌, List, [], ◌∷◌, any, ok, arith}
use egauth.Core.Factor.{
  Factor, has_role, role_primary, role_second, multi_factor, union_factors, passkey,
  user_verification,
}
use egauth.Core.Factor.Sets.{has_role-union_factors, contains-union_factors}
use egauth.Core.Policy.{AccountState, MfaDecision, mfa_required, zero_time, ClaimsOutcome}
use egauth.Core.Pending.{Pending, factor_set, is_strong, pending_second_at}
use egauth.Core.Pending.FactorSet.{latest_from_none}
use egauth.Core.Attrs.{SessionAttrs, fresh_within, time_sub}
use egauth.Core.Transitions.{reauthenticate, reauthenticated_attrs, factor_enrolled, renew}
use egauth.Core.Transitions.Lineage.{reauthenticate-eq-ok, factor_enrolled-eq-ok, renew-eq-ok}

multi_factor-union_factors :
    (a b : List Factor) → multi_factor a ≡ true → multi_factor (union_factors a b) ≡ true
unfolding multi_factor
multi_factor-union_factors a b h = ground (
  arith,
  has_role-union_factors a b role_primary,
  has_role-union_factors a b role_second,
  contains-union_factors a b passkey,
  contains-union_factors a b user_verification,
)

-- When a multi-factor session is reauthenticated and none of the verifications holds a second factor
-- or is multi-factor, the instant of the second factor stays the old one, and the session is then
-- fresh within `d` only if that old instant is set and lies at most `d` back.
pub reauthenticate-fresh_within :
    (a : SessionAttrs) (p : Pending) (st : AccountState) (mfa : MfaDecision) (now d later : ℕ)
    (n : SessionAttrs)
    → multi_factor a.factors ≡ true
    → any is_strong p.verified ≡ false
    → reauthenticate a p st mfa now ≡ ok n
    → fresh_within n d later ≡ true
    → (n.second_at ≡ a.second_at) × (a.second_at ≢ zero_time) × (time_sub later a.second_at ≤ d)
unfolding reauthenticated_attrs fresh_within pending_second_at
reauthenticate-fresh_within a p st mfa now d later n m weak e f =
    let built = (reauthenticate-eq-ok a p st mfa now n e).0 in
    let never : pending_second_at p ≡ zero_time =
      latest_from_none is_strong zero_time p.verified weak in
    let strong = multi_factor-union_factors a.factors (factor_set p) m in
    let still : n.second_at ≡ a.second_at = rw built (ground arith) in
    (still, ground arith, ground arith)

-- Enrolling a second factor moves neither instant of the session, and afterwards the session is fresh
-- exactly if the instant of its first factor and that of its second one, which are the old ones, are
-- both set and lie at most `d` back: enrolment is no verification.
pub factor_enrolled-fresh_within :
    (a : SessionAttrs) (f : Factor) (st : AccountState) (n : SessionAttrs) (d now : ℕ)
    → factor_enrolled a f st ≡ ok n
    → (n.primary_at ≡ a.primary_at)
      × (n.second_at ≡ a.second_at)
      × ((fresh_within n d now ≡ true) ↔ (
          (d ≢ 0)
          × (a.primary_at ≢ zero_time)
          × (time_sub now a.primary_at ≤ d)
          × (a.second_at ≢ zero_time)
          × (time_sub now a.second_at ≤ d)))
unfolding fresh_within has_role
factor_enrolled-fresh_within a f st n d now e =
    let (built, second, _, _) = factor_enrolled-eq-ok a f st n e in
    let strong : has_role n.factors role_second ≡ true =
      rw built (ground (arith, has_role-union_factors a.factors (f ∷ []) role_second)) in
    let first : n.primary_at ≡ a.primary_at = rw built refl in
    let later : n.second_at ≡ a.second_at = rw built refl in
    (
      first,
      later,
      (
        λ h. (ground arith, ground arith, ground arith, ground arith, ground arith),
        λ h. ground arith,
      ),
    )

-- A successful renewal keeps the factors and every answer about freshness, and when the decision
-- requires a second factor the renewed session is multi-factor.
pub renew-fresh_within :
    (a : SessionAttrs) (st : AccountState) (mfa : MfaDecision) (claims : ClaimsOutcome)
    (now d later : ℕ) (n : SessionAttrs)
    → renew a st mfa claims now ≡ ok n
    → (fresh_within n d later ≡ fresh_within a d later)
      × (n.factors ≡ a.factors)
      × ((mfa_required mfa ≡ false) ⊎ (multi_factor n.factors ≡ true))
unfolding fresh_within
renew-fresh_within a st mfa claims now d later n e =
    let (built, _, _, enough) = renew-eq-ok a st mfa claims now n e in rw built (refl, refl, enough)

-- ===== src/Core/Transitions/Lineage.antt =====
-- The life of a session after its admission: what each transition keeps and what it may change.
use egauth.Base.{ℕ, ◌<◌, true, false, ◌||◌, ◌≡◌, ◌≢◌, ◌⊎◌, [], ◌∷◌, ok, arith}
use egauth.Core.Factor.{
  Factor, has_role, role_primary, role_second, role, multi_factor, union_factors, password,
}
use egauth.Core.Policy.{AccountState, usable, MfaDecision, mfa_required, zero_time, ClaimsOutcome}
use egauth.Core.Pending.{Pending, factor_set}
use egauth.Core.Pending.Invariant.{IsPending}
use egauth.Core.Attrs.{SessionAttrs}
use egauth.Core.Transitions.{
  reauthenticate, reauthenticated_attrs, factor_enrolled, password_changed, renew, check_bumped,
  next_epoch,
}

-- One transition of a session under the account state `st`.
pub data Step (st : AccountState) : SessionAttrs → SessionAttrs → Type 0 where
  reauthenticates :
      {a n : SessionAttrs} (p : Pending) (mfa : MfaDecision) (now : ℕ)
      → IsPending p
      → reauthenticate a p st mfa now ≡ ok n
      → Step st a n
  enrols : {a n : SessionAttrs} (f : Factor) → factor_enrolled a f st ≡ ok n → Step st a n
  changes_password : {a n : SessionAttrs} (now : ℕ) → password_changed a st now ≡ ok n → Step st a n
  renews :
      {a n : SessionAttrs} (mfa : MfaDecision) (claims : ClaimsOutcome) (now : ℕ)
      → renew a st mfa claims now ≡ ok n
      → Step st a n

pub reauthenticate-eq-ok :
    (a : SessionAttrs) (p : Pending) (st : AccountState) (mfa : MfaDecision) (now : ℕ)
    (n : SessionAttrs)
    → reauthenticate a p st mfa now ≡ ok n
    → (n ≡ reauthenticated_attrs a p st)
      × (p.reauth_of ≡ a.lineage)
      × (p.subject ≡ a.subject)
      × (now < p.expires_at)
      × (has_role (factor_set p) role_primary ≡ true)
      × (usable st ≡ true)
      × (st.epoch ≡ a.epoch)
      × (st.epoch ≡ p.epoch_at_bind)
      × ((mfa_required mfa ≡ false) ⊎ (multi_factor (factor_set p) ≡ true))
unfolding reauthenticate
reauthenticate-eq-ok a p st mfa now n e = (
  ground arith,
  ground arith,
  ground arith,
  ground arith,
  ground arith,
  ground arith,
  ground arith,
  ground arith,
  ground arith,
)

pub factor_enrolled-eq-ok :
    (a : SessionAttrs) (f : Factor) (st : AccountState) (n : SessionAttrs)
    → factor_enrolled a f st ≡ ok n
    → (n ≡ record a {
      factors = union_factors a.factors (f ∷ []);
      epoch = st.epoch;
      must_change = a.must_change || st.must_change;
    })
      × (role f ≡ role_second)
      × (usable st ≡ true)
      × (st.epoch ≡ next_epoch a.epoch)
unfolding factor_enrolled check_bumped
factor_enrolled-eq-ok a f st n e = (ground arith, ground arith, ground arith, ground arith)

pub password_changed-eq-ok :
    (a : SessionAttrs) (st : AccountState) (now : ℕ) (n : SessionAttrs)
    → password_changed a st now ≡ ok n
    → (n ≡ record a {
      factors = union_factors a.factors (password ∷ []);
      primary_at = now;
      must_change = false;
      epoch = st.epoch;
    })
      × (now ≢ zero_time)
      × (usable st ≡ true)
      × (st.epoch ≡ next_epoch a.epoch)
unfolding password_changed check_bumped
password_changed-eq-ok a st now n e = (ground arith, ground arith, ground arith, ground arith)

pub renew-eq-ok :
    (a : SessionAttrs) (st : AccountState) (mfa : MfaDecision) (claims : ClaimsOutcome) (now : ℕ)
    (n : SessionAttrs)
    → renew a st mfa claims now ≡ ok n
    → (n ≡ record a {
      claims_fetched_at = n.claims_fetched_at;
      must_change = a.must_change || st.must_change;
    })
      × (usable st ≡ true)
      × (a.epoch ≡ st.epoch)
      × ((mfa_required mfa ≡ false) ⊎ (multi_factor a.factors ≡ true))
unfolding renew
renew-eq-ok a st mfa claims now n e = (ground arith, ground arith, ground arith, ground arith)

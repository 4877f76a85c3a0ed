-- ===== src/Core/Pending/FactorSet.antt =====
-- What the factor set and the instants of a Pending say of its verifications.
use egauth.Base.{
  ℕ, ◌<◌, ◌≤◌, Bool, true, false, ◌||◌, ◌≡◌, refl, ◌≢◌, List, [], ◌∷◌, any, All, arith, ◌∙◌,
  Bool-cases, inl, inr, Bytes, is_empty, All-append, ◌&&◌, ltb, ◌==◌, ◌⊎◌,
}
use egauth.Core.Factor.{
  Factor, FactorRole, contains, has_role, union_factors, role_primary, passkey, passkey_step_up,
  factor_discrete,
}
use egauth.Core.Factor.Sets.{any-union_factors}
use egauth.Core.Policy.{Subject, zero_time}
use egauth.Core.Verified.{Verified}
use egauth.Core.Pending.{
  CredentialUse, Pending, factor_set_from, factor_set, latest_from, is_primary, pending_primary_at,
  is_strong, pending_second_at, passkey_uses, verified_uses, credential_uses, is_passkey_factor,
}
use egauth.Core.Pending.Invariant.{Entry, IsPending}

pub any-factor_set_from :
    (q : Factor → Bool) (out : List Factor) (vs : List Verified)
    → any q (factor_set_from out vs) ≡ (any q out || any (λ v. any q v.factors) vs)
unfolding factor_set_from
any-factor_set_from q out [] = ground arith
any-factor_set_from q out (v ∷ vs) = ground (
  arith,
  any-factor_set_from q (union_factors out v.factors) vs,
  any-union_factors q out v.factors,
)

-- The set holds what one of the verifications yielded.
has_role-factor_set :
    (p : Pending) (r : FactorRole)
    → has_role (factor_set p) r ≡ any (λ v. has_role v.factors r) p.verified
unfolding has_role factor_set
has_role-factor_set p r = any-factor_set_from _ [] p.verified

-- The factor set of a Pending holds a factor exactly if one of its verifications yielded it.
pub contains-factor_set :
    (p : Pending) (f : Factor)
    → contains (factor_set p) f ≡ any (λ v. contains v.factors f) p.verified
unfolding contains factor_set
contains-factor_set p f = any-factor_set_from _ [] p.verified

latest_from-le : (m : Verified → Bool) (t : ℕ) (vs : List Verified) → t ≤ latest_from m t vs
unfolding latest_from
latest_from-le m t [] = omega arith
latest_from-le m t (v ∷ vs) = ground (arith, latest_from-le m t vs, latest_from-le m v.at vs)

-- An instant is the latest of the verifications that match: none of them lies later, and it is that
-- of one of them, or there is none and it is the zero time.
abbrev pub IsLatest : (Verified → Bool) → List Verified → ℕ → Type 0
IsLatest m vs t =
    (any (λ v. m v && ltb t v.at) vs ≡ false)
    × ((any (λ v. m v && v.at == t) vs ≡ true) ⊎ (t ≡ zero_time))

latest_from-last :
    (m : Verified → Bool) (t : ℕ) (vs : List Verified)
    → any (λ v. m v && ltb (latest_from m t vs) v.at) vs ≡ false
unfolding latest_from
latest_from-last m t [] = refl
latest_from-last m t (v ∷ vs) = elim (Bool-cases (m v && ltb t v.at)) [
  | inl e ↦ ground (arith, latest_from-last m v.at vs, latest_from-le m v.at vs)
  | inr e ↦ ground (arith, latest_from-last m t vs, latest_from-le m t vs)
]

latest_from-reached :
    (m : Verified → Bool) (t : ℕ) (vs : List Verified)
    → (any (λ v. m v && v.at == latest_from m t vs) vs ≡ true) ⊎ (latest_from m t vs ≡ t)
unfolding latest_from
latest_from-reached m t [] = inr refl
latest_from-reached m t (v ∷ vs) = elim (Bool-cases (m v && ltb t v.at)) [
  | inl e ↦ inl (ground (arith, latest_from-reached m v.at vs))
  | inr e ↦ ground (arith, latest_from-reached m t vs)
]

pub pending_primary_at-IsLatest :
    (p : Pending) → IsLatest is_primary p.verified (pending_primary_at p)
unfolding pending_primary_at
pending_primary_at-IsLatest p = (
  latest_from-last is_primary zero_time p.verified,
  latest_from-reached is_primary zero_time p.verified,
)

pub pending_second_at-IsLatest : (p : Pending) → IsLatest is_strong p.verified (pending_second_at p)
unfolding pending_second_at
pending_second_at-IsLatest p = (
  latest_from-last is_strong zero_time p.verified,
  latest_from-reached is_strong zero_time p.verified,
)

-- No match leaves the start.
pub latest_from_none :
    (m : Verified → Bool) (t : ℕ) (vs : List Verified) → any m vs ≡ false → latest_from m t vs ≡ t
unfolding latest_from
latest_from_none m t [] h = refl
latest_from_none m t (v ∷ vs) h = ground (arith, latest_from_none m t vs)

-- A match that is dated makes the latest instant a real one.
latest_from_some :
    (m : Verified → Bool) (t : ℕ) (s : Subject) (provider : Bytes) (expiry : ℕ) (vs : List Verified)
    → All (Entry s provider expiry) vs
    → any m vs ≡ true
    → 0 < latest_from m t vs
unfolding latest_from
latest_from_some m t s provider expiry [] a h = absurd (ground arith)
latest_from_some m t s provider expiry (v ∷ vs) a h = elim (Bool-cases (m v)) [
  | inl e ↦ ground (arith, a.0.0.dated, latest_from-le m t vs, latest_from-le m v.at vs)
  | inr e ↦ ground (arith, latest_from_some m t s provider expiry vs a.1)
]

pub pending_primary_at_pos :
    (p : Pending)
    → IsPending p
    → has_role (factor_set p) role_primary ≡ true
    → pending_primary_at p ≢ zero_time
unfolding pending_primary_at
pending_primary_at_pos p w h e =
    let some_match =
      latest_from_some is_primary zero_time p.subject p.provider p.expires_at p.verified w.entries
        (ground (arith, has_role-factor_set p role_primary)) in
    omega arith

-- What a stored credential use satisfies beside a set of factors.
abbrev pub IsUse : List Factor → CredentialUse → Type 0
IsUse fs u = (is_passkey_factor u.factor ≡ true) × (u.id ≢ []) × (contains fs u.factor ≡ true)

passkey_uses-IsUse :
    (fs : List Factor) (id : Bytes) (gs : List Factor)
    → id ≢ []
    → ((f : Factor) → contains gs f ≡ true → contains fs f ≡ true)
    → All (IsUse fs) (passkey_uses id gs)
unfolding passkey_uses contains factor_discrete
passkey_uses-IsUse fs id [] n h = tt
passkey_uses-IsUse fs id (passkey ∷ gs) n h =
    ((refl, n, h passkey refl), passkey_uses-IsUse fs id gs n (λ f e. h f (ground arith)))
passkey_uses-IsUse fs id (passkey_step_up ∷ gs) n h =
    ((refl, n, h passkey_step_up refl), passkey_uses-IsUse fs id gs n (λ f e. h f (ground arith)))
passkey_uses-IsUse fs id (g ∷ gs) n h = passkey_uses-IsUse fs id gs n (λ f e. h f (ground arith))

verified_uses-IsUse :
    (fs : List Factor) (vs : List Verified)
    → ((f : Factor) → any (λ v. contains v.factors f) vs ≡ true → contains fs f ≡ true)
    → All (IsUse fs) (verified_uses vs)
unfolding verified_uses
verified_uses-IsUse fs [] h = tt
verified_uses-IsUse fs (v ∷ vs) h =
    let rest = verified_uses-IsUse fs vs (λ f e. h f (ground arith)) in
    elim (Bool-cases (is_empty v.credential_id)) [
      | inl e ↦ rw e rest
      | inr e ↦ rw e (
          All-append (IsUse fs) (passkey_uses v.credential_id v.factors) (verified_uses vs)
            (passkey_uses-IsUse fs v.credential_id v.factors (ground arith)
              (λ f k. h f (ground arith)))
            rest)
    ]

-- Each credential use of a Pending is that of a passkey factor which the Pending verified.
pub credential_uses-IsUse : (p : Pending) → All (IsUse (factor_set p)) (credential_uses p)
unfolding credential_uses
credential_uses-IsUse p =
    verified_uses-IsUse (factor_set p) p.verified (λ f e. contains-factor_set p f ∙ e)

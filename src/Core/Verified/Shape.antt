-- ===== src/Core/Verified/Shape.antt =====
-- Which sets of factors one verification may yield.
use egauth.Base.{
  ℕ, ◌+◌, ◌≤◌, Bool, true, false, ◌≡◌, refl, ◌≢◌, ◌↔◌, List, [], ◌∷◌, ◌++◌, Bytes, length, ok,
  is_ok, some, arith, Option-cases, inl, inr, any-append, eqb, if◌then◌else◌,
}
use egauth.Core.Factor.{
  Factor, unset, password, email_link, email_code, sms_code, federated, external, passkey,
  user_verification, totp, recovery_code, passkey_step_up, role, valid, factor_table, contains,
  factor_discrete, sort_factors, insert_factor, code_le, leb_bytes, code,
}
use egauth.Core.Policy.{uuid_nil, zero_time}
use egauth.Core.Verified.{
  Verified, VerifiedSpec, new_verified, verified_of, Counts, no_counts, tally, count_roles,
  check_combination, check_verified_shape,
}

-- One factor alone: no credential and no provider but where the factor has one, and a second factor
-- never identifies.
abbrev pub SingleShape : Factor → Bytes → Bool → Bytes → Type 0
SingleShape totp cred identifies provider = (cred ≡ []) × (identifies ≡ false) × (provider ≡ [])
SingleShape recovery_code cred identifies provider =
    (cred ≡ []) × (identifies ≡ false) × (provider ≡ [])
SingleShape passkey_step_up cred identifies provider =
    (cred ≢ []) × (identifies ≡ false) × (provider ≡ [])
SingleShape federated cred identifies provider = (cred ≡ []) × (provider ≢ [])
SingleShape external cred identifies provider = (cred ≡ []) × (provider ≢ [])
SingleShape password cred identifies provider = (cred ≡ []) × (provider ≡ [])
SingleShape email_link cred identifies provider = (cred ≡ []) × (provider ≡ [])
SingleShape email_code cred identifies provider = (cred ≡ []) × (provider ≡ [])
SingleShape sms_code cred identifies provider = (cred ≡ []) × (provider ≡ [])
SingleShape _ cred identifies provider = ⊥

-- A passkey comes with user verification, and nothing else comes with anything.
abbrev pub HasShape : List Factor → Bytes → Bool → Bytes → Type 0
HasShape (f ∷ []) cred identifies provider = SingleShape f cred identifies provider
HasShape (passkey ∷ user_verification ∷ []) cred identifies provider = (cred ≢ []) × (provider ≡ [])
HasShape (user_verification ∷ passkey ∷ []) cred identifies provider = (cred ≢ []) × (provider ≡ [])
HasShape _ cred identifies provider = ⊥

abbrev total : Counts → ℕ
total c = c.primary + c.seconds + c.uv

total-tally : (f : Factor) (c : Counts) → valid f ≡ true → total (tally (role f) c) ≡ total c + 1
unfolding valid role tally factor_table
total-tally unset c h = cc
total-tally _ c h = omega arith

total-count_roles :
    (fs seen : List Factor) (c c' : Counts)
    → count_roles seen c fs ≡ some c'
    → total c' ≡ total c + length fs
unfolding count_roles
total-count_roles [] seen c c' h = ground arith
total-count_roles (f ∷ fs) seen c c' h =
    ground (arith, total-tally f c, total-count_roles fs (seen ++ (f ∷ [])) (tally (role f) c) c')

-- User verification is counted once at most.
abbrev room : List Factor → ℕ
room seen = if contains seen user_verification then 0 else 1

room_step :
    (f : Factor) (seen : List Factor) (c : Counts)
    → contains seen f ≡ false
    → (tally (role f) c).uv + room (seen ++ (f ∷ [])) ≤ c.uv + room seen
unfolding contains factor_discrete role factor_table tally
room_step unset seen c h =
    ground (arith, any-append (λ g. eqb factor_discrete g user_verification) seen (unset ∷ []))
room_step f seen c h =
    ground (arith, any-append (λ g. eqb factor_discrete g user_verification) seen (f ∷ []))

uv-count_roles :
    (fs seen : List Factor) (c c' : Counts)
    → count_roles seen c fs ≡ some c'
    → c'.uv ≤ c.uv + room seen
unfolding count_roles
uv-count_roles [] seen c c' h = ground arith
uv-count_roles (f ∷ fs) seen c c' h =
    ground (arith, room_step f seen c, uv-count_roles fs (seen ++ (f ∷ [])) (tally (role f) c) c')

check_combination-total :
    (c : Counts) (pk identifies : Bool)
    → c.uv ≤ 1
    → check_combination c pk identifies ≡ ok tt
    → total c ≤ 2
unfolding check_combination
check_combination-total c pk identifies u h = ground arith

single_shape :
    (f : Factor) (cred : Bytes) (identifies : Bool) (provider : Bytes)
    → (check_verified_shape (f ∷ []) cred identifies provider ≡ ok tt)
      ↔ HasShape (f ∷ []) cred identifies provider
unfolding check_verified_shape count_roles check_combination tally role valid factor_table contains
    factor_discrete
single_shape unset cred identifies provider = ground arith
single_shape _ cred identifies provider = ground arith

long_shape :
    (f g h : Factor) (fs : List Factor) (cred : Bytes) (identifies : Bool) (provider : Bytes)
    → ¬ (check_verified_shape (f ∷ g ∷ h ∷ fs) cred identifies provider ≡ ok tt)
unfolding check_verified_shape
long_shape f g h fs cred identifies provider e =
    elim (Option-cases (count_roles [] no_counts (f ∷ g ∷ h ∷ fs))) [
      | inl n ↦ ground arith
      | inr (c, s) ↦ ground (
        arith,
        total-count_roles (f ∷ g ∷ h ∷ fs) [] no_counts c s,
        uv-count_roles (f ∷ g ∷ h ∷ fs) [] no_counts c s,
        check_combination-total c (contains (f ∷ g ∷ h ∷ fs) passkey) identifies,
      )
    ]

pair_shape :
    (f g : Factor) (cred : Bytes) (identifies : Bool) (provider : Bytes)
    → (check_verified_shape (f ∷ g ∷ []) cred identifies provider ≡ ok tt)
      ↔ HasShape (f ∷ g ∷ []) cred identifies provider
unfolding check_verified_shape count_roles check_combination tally role valid factor_table contains
    factor_discrete
pair_shape unset unset cred identifies provider = ground arith
pair_shape _ _ cred identifies provider = ground arith

long_no_shape :
    (f g h : Factor) (fs : List Factor) (cred : Bytes) (identifies : Bool) (provider : Bytes)
    → ¬ HasShape (f ∷ g ∷ h ∷ fs) cred identifies provider
long_no_shape passkey unset h fs cred identifies provider x = x
long_no_shape passkey _ h fs cred identifies provider x = x
long_no_shape user_verification unset h fs cred identifies provider x = x
long_no_shape user_verification _ h fs cred identifies provider x = x
long_no_shape _ _ h fs cred identifies provider x = x

-- The checks of the code accept exactly the listed shapes.
shape_iff :
    (fs : List Factor) (cred : Bytes) (identifies : Bool) (provider : Bytes)
    → (check_verified_shape fs cred identifies provider ≡ ok tt)
      ↔ HasShape fs cred identifies provider
shape_iff [] cred identifies provider = (unfold check_verified_shape in (λ e. cc), λ x. absurd x)
shape_iff (f ∷ []) cred identifies provider = single_shape f cred identifies provider
shape_iff (f ∷ g ∷ []) cred identifies provider = pair_shape f g cred identifies provider
shape_iff (f ∷ g ∷ h ∷ fs) cred identifies provider = (
  λ e. absurd (long_shape f g h fs cred identifies provider e),
  λ x. absurd (long_no_shape f g h fs cred identifies provider x),
)

-- Sorting by code keeps the shape.
sort_factors-HasShape :
    (fs : List Factor) (cred : Bytes) (identifies : Bool) (provider : Bytes)
    → HasShape fs cred identifies provider
    → HasShape (sort_factors fs) cred identifies provider
unfolding sort_factors insert_factor code_le leb_bytes code
sort_factors-HasShape [] cred identifies provider x = x
sort_factors-HasShape (f ∷ []) cred identifies provider x = x
sort_factors-HasShape (passkey ∷ user_verification ∷ []) cred identifies provider x = x
sort_factors-HasShape (user_verification ∷ passkey ∷ []) cred identifies provider x = x
sort_factors-HasShape (passkey ∷ unset ∷ []) cred identifies provider x = absurd x
sort_factors-HasShape (user_verification ∷ unset ∷ []) cred identifies provider x = absurd x
sort_factors-HasShape (passkey ∷ g ∷ []) cred identifies provider x = absurd x
sort_factors-HasShape (user_verification ∷ g ∷ []) cred identifies provider x = absurd x
sort_factors-HasShape (f ∷ g ∷ []) cred identifies provider x = absurd x
sort_factors-HasShape (f ∷ g ∷ h ∷ fs) cred identifies provider x =
    absurd (long_no_shape f g h fs cred identifies provider x)

-- What every Verified satisfies, since `new_verified` alone builds one.
pub record IsVerified (v : Verified) : Type 0 where
  pub named : v.subject.user ≢ uuid_nil
  pub dated : v.at ≢ zero_time
  pub shaped : HasShape v.factors v.credential_id v.identifies v.provider

-- `NewVerified` accepts a spec exactly if it names a user and an instant and has one of the shapes:
-- one second factor that does not identify, one primary factor, or a passkey with user verification,
-- each with a credential and a provider exactly where the factor has one.
pub new_verified_iff :
    (s : VerifiedSpec)
    → (is_ok (new_verified s) ≡ true) ↔ (
        (s.subject.user ≢ uuid_nil)
        × (s.at ≢ zero_time)
        × HasShape s.factors s.credential_id s.identifies s.provider)
unfolding new_verified
new_verified_iff s = ground (arith, shape_iff s.factors s.credential_id s.identifies s.provider)

-- What a successful call passed, and what it returns.
new_verified-eq-ok :
    (s : VerifiedSpec) (v : Verified)
    → new_verified s ≡ ok v
    → (v ≡ verified_of s)
      × (s.subject.user ≢ uuid_nil)
      × (s.at ≢ zero_time)
      × (check_verified_shape s.factors s.credential_id s.identifies s.provider ≡ ok tt)
unfolding new_verified
new_verified-eq-ok s v e = ground arith

-- Whatever `new_verified` returns is a well-formed verification of the spec's subject.
pub new_verified-IsVerified :
    (s : VerifiedSpec) (v : Verified)
    → new_verified s ≡ ok v
    → IsVerified v × (v.subject ≡ s.subject) × (v.at ≡ s.at)
unfolding verified_of
new_verified-IsVerified s v e =
    let (built, named, dated, checked) = new_verified-eq-ok s v e in
    rw built (
      record {
        named = named;
        dated = dated;
        shaped =
            sort_factors-HasShape s.factors s.credential_id s.identifies s.provider
              ((shape_iff s.factors s.credential_id s.identifies s.provider).0 checked);
      },
      refl,
      refl,
    )

-- ===== src/Core/Reach/Canonical.antt =====
-- The factors of every session are known and in the order that the codec demands.
use egauth.Base.{
  ℕ, ◌<◌, ◌^◌, ◌≡◌, refl, Bool, true, false, not, List, [], ◌∷◌, Bytes, any, All, arith, ◌∙◌, ok,
}
use egauth.Core.Factor.{
  Factor, unset, password, passkey, user_verification, valid, role, role_second, factor_table,
  union_factors,
}
use egauth.Core.Factor.Order.{IsAscending, union_factors-IsAscending}
use egauth.Core.Factor.Sets.{any-union_factors}
use egauth.Core.Policy.{Subject}
use egauth.Core.Verified.{Verified}
use egauth.Core.Verified.Shape.{HasShape}
use egauth.Core.Pending.{Pending, CredentialUse, factor_set_from, factor_set, is_passkey_factor}
use egauth.Core.Pending.Invariant.{Entry, IsPending}
use egauth.Core.Pending.FactorSet.{any-factor_set_from, IsUse}
use egauth.Core.Attrs.{SessionAttrs}
use egauth.Core.Codec.{tenant_ok}
use egauth.Core.Codec.Factors.{AllValid}
use egauth.Core.Transitions.{admitted_attrs, reauthenticated_attrs}
use egauth.Core.Transitions.Admit.{admit-admitted}
use egauth.Core.Transitions.Lineage.{
  reauthenticate-eq-ok, factor_enrolled-eq-ok, password_changed-eq-ok, renew-eq-ok,
}
use egauth.Core.Sealed.{seal, unseal}
use egauth.Core.Sealed.Attrs.{UsesValid}
use egauth.Core.Sealed.RoundTrip.{unseal-seal}
use egauth.Core.Reach.{
  Live, admits, reauthenticated, enrolled, changed, renewed, Journey-IsPending, Live-IsSession,
}

abbrev unknown : Factor → Bool
unknown f = not (valid f)

HasShape-known :
    (fs : List Factor) (cred : Bytes) (identifies : Bool) (provider : Bytes)
    → HasShape fs cred identifies provider
    → any unknown fs ≡ false
unfolding valid factor_table
HasShape-known [] cred identifies provider s = absurd s
HasShape-known (unset ∷ []) cred identifies provider s = absurd s
HasShape-known (f ∷ []) cred identifies provider s = refl
HasShape-known (passkey ∷ user_verification ∷ []) cred identifies provider s = refl
HasShape-known (user_verification ∷ passkey ∷ []) cred identifies provider s = refl
HasShape-known _ cred identifies provider s = absurd s

entries-known :
    (s : Subject) (provider : Bytes) (expiry : ℕ) (vs : List Verified)
    → All (Entry s provider expiry) vs
    → any (λ v. any unknown v.factors) vs ≡ false
entries-known s provider expiry [] a = refl
entries-known s provider expiry (v ∷ vs) a = ground (
  arith,
  HasShape-known v.factors v.credential_id v.identifies v.provider a.0.0.shaped,
  entries-known s provider expiry vs a.1,
)

factor_set-known : (p : Pending) → IsPending p → any unknown (factor_set p) ≡ false
unfolding factor_set
factor_set-known p w =
    any-factor_set_from unknown [] p.verified
    ∙ entries-known p.subject p.provider p.expires_at p.verified w.entries

factor_set_from-IsAscending :
    (out : List Factor) (vs : List Verified)
    → IsAscending out
    → IsAscending (factor_set_from out vs)
unfolding factor_set_from
factor_set_from-IsAscending out [] a = a
factor_set_from-IsAscending out (v ∷ vs) a =
    factor_set_from-IsAscending (union_factors out v.factors) vs
      (union_factors-IsAscending out v.factors)

second_known : (f : Factor) → role f ≡ role_second → unknown f ≡ false
unfolding role valid factor_table
second_known unset h = cc
second_known _ h = refl

-- What the codec demands of the factors of a session.
abbrev Canonical : List Factor → Type 0
Canonical fs = (any unknown fs ≡ false) × IsAscending fs

union-Canonical :
    (a b : List Factor)
    → any unknown a ≡ false
    → any unknown b ≡ false
    → Canonical (union_factors a b)
union-Canonical a b h k =
    (ground (arith, any-union_factors unknown a b), union_factors-IsAscending a b)

Live-Canonical : {a : SessionAttrs} → Live a → Canonical a.factors
unfolding admitted_attrs reauthenticated_attrs factor_set
Live-Canonical {a} (admits p st mfa fresh now j f e) =
    let (_, _, built) = admit-admitted p st mfa fresh now a e in
    rw built
      (factor_set-known p (Journey-IsPending p j), factor_set_from-IsAscending [] p.verified tt)
Live-Canonical {a = n} (reauthenticated a p st mfa now l j e) =
    rw (reauthenticate-eq-ok a p st mfa now n e).0 (
      union-Canonical a.factors (factor_set p) (Live-Canonical l).0
        (factor_set-known p (Journey-IsPending p j)))
Live-Canonical {a = n} (enrolled a f st l e) =
    let (built, second, _, _) = factor_enrolled-eq-ok a f st n e in
    rw built (
      union-Canonical a.factors (f ∷ []) (Live-Canonical l).0
        (ground (arith, second_known f second)))
Live-Canonical {a = n} (changed a st now l e) = rw (password_changed-eq-ok a st now n e).0 (
    union-Canonical a.factors (password ∷ []) (Live-Canonical l).0
      (unfold valid factor_table in refl))
Live-Canonical {a = n} (renewed a st mfa claims now l e) =
    rw (renew-eq-ok a st mfa claims now n e).0 (Live-Canonical l)

AllValid-of_known : (fs : List Factor) → any unknown fs ≡ false → AllValid fs
AllValid-of_known [] h = tt
AllValid-of_known (f ∷ fs) h = (ground arith, AllValid-of_known fs (ground arith))

passkey_known : (f : Factor) → is_passkey_factor f ≡ true → valid f ≡ true
unfolding valid factor_table
passkey_known unset h = cc
passkey_known _ h = ground arith

UsesValid-of_IsUse : (fs : List Factor) (us : List CredentialUse) → All (IsUse fs) us → UsesValid us
UsesValid-of_IsUse fs [] h = tt
UsesValid-of_IsUse fs (u ∷ us) h = (passkey_known u.factor h.0.0, UsesValid-of_IsUse fs us h.1)

-- Every session that the operations produce survives being sealed and unsealed, as long as its
-- numbers have the sizes of their types and its tenant was parsed.
pub Live-unseal-seal :
    (a : SessionAttrs) (s : Bytes)
    → Live a
    → a.lineage < 2 ^ 128
    → a.subject.user < 2 ^ 128
    → a.epoch < 2 ^ 64
    → tenant_ok a.subject.tenant ≡ true
    → seal a ≡ ok s
    → unseal s ≡ ok a
Live-unseal-seal a s l lineage user epoch tenant e =
    let (known, ordered) = Live-Canonical l in
    let session = (Live-IsSession a l).0 in
    unseal-seal a s
      (record {
        versioned = session.versioned;
        lineage = lineage;
        user = user;
        tenant = tenant;
        epoch = epoch;
        known = AllValid-of_known a.factors known;
        ordered = ordered;
        uses = UsesValid-of_IsUse a.factors a.credential_ids session.uses;
      })
      e

-- ===== src/Core/Transitions/Kept.antt =====
-- What every transition keeps: the identity of the session, its factors, and its validity.
use egauth.Base.{
  true, ◌≡◌, refl, ◌⊎◌, inl, inr, List, [], ◌∷◌, ◌++◌, All, any, arith, Bool-cases, sym, All-append,
}
use egauth.Core.Factor.{Factor, contains, has_role, role_primary, union_factors, password}
use egauth.Core.Factor.Sets.{has_role-union_factors, contains-union_factors}
use egauth.Core.Policy.{AccountState}
use egauth.Core.Pending.{CredentialUse, factor_set, credential_uses, same_credential_use}
use egauth.Core.Pending.FactorSet.{IsUse, credential_uses-IsUse, pending_primary_at_pos}
use egauth.Core.Attrs.{SessionAttrs}
use egauth.Core.Transitions.{reauthenticated_attrs, merge_uses, next_epoch}
use egauth.Core.Transitions.Admit.{IsSession}
use egauth.Core.Transitions.Lineage.{
  Step, reauthenticates, enrols, changes_password, renews, reauthenticate-eq-ok,
  factor_enrolled-eq-ok, password_changed-eq-ok, renew-eq-ok,
}

-- The parts of a session that no transition may change, and those that it changes one way only.
pub record Keeps (st : AccountState) (a n : SessionAttrs) : Type 0 where
  pub version : n.version ≡ a.version
  pub lineage : n.lineage ≡ a.lineage
  pub subject : n.subject ≡ a.subject
  pub transport : n.transport ≡ a.transport
  pub remember : n.remember ≡ a.remember
  pub return_to : n.return_to ≡ a.return_to
  pub provider : n.provider ≡ a.provider
  pub created_at : n.created_at ≡ a.created_at
  pub factors : (f : Factor) → contains a.factors f ≡ true → contains n.factors f ≡ true
  pub current : n.epoch ≡ st.epoch
  pub advance : (n.epoch ≡ a.epoch) ⊎ (n.epoch ≡ next_epoch a.epoch)

contains-union_left :
    (a b : List Factor) (f : Factor) → contains a f ≡ true → contains (union_factors a b) f ≡ true
contains-union_left a b f h = ground (arith, contains-union_factors a b f)

-- Every transition keeps the lineage, the subject, the transport, the remember-me decision, the
-- return target, the provider and the creation instant, loses no factor, and leaves the session at the
-- account's epoch, which is the session's own or the next one.
pub Step-Keeps : {st : AccountState} {a n : SessionAttrs} → Step st a n → Keeps st a n
unfolding reauthenticated_attrs
Step-Keeps {st} {a} {n} (reauthenticates p mfa now w e) =
    let (built, _, _, _, _, _, current, _, _) = reauthenticate-eq-ok a p st mfa now n e in
    rw built (record {
      version = refl;
      lineage = refl;
      subject = refl;
      transport = refl;
      remember = refl;
      return_to = refl;
      provider = refl;
      created_at = refl;
      factors = λ f h. contains-union_left a.factors (factor_set p) f h;
      current = sym current;
      advance = inl refl;
    })
Step-Keeps {st} {a} {n} (enrols f e) =
    let (built, _, _, next) = factor_enrolled-eq-ok a f st n e in
    rw built (record {
      version = refl;
      lineage = refl;
      subject = refl;
      transport = refl;
      remember = refl;
      return_to = refl;
      provider = refl;
      created_at = refl;
      factors = λ g h. contains-union_left a.factors (f ∷ []) g h;
      current = refl;
      advance = inr next;
    })
Step-Keeps {st} {a} {n} (changes_password now e) =
    let (built, _, _, next) = password_changed-eq-ok a st now n e in
    rw built (record {
      version = refl;
      lineage = refl;
      subject = refl;
      transport = refl;
      remember = refl;
      return_to = refl;
      provider = refl;
      created_at = refl;
      factors = λ g h. contains-union_left a.factors (password ∷ []) g h;
      current = refl;
      advance = inr next;
    })
Step-Keeps {st} {a} {n} (renews mfa claims now e) =
    let (built, _, current, _) = renew-eq-ok a st mfa claims now n e in
    rw built (record {
      version = refl;
      lineage = refl;
      subject = refl;
      transport = refl;
      remember = refl;
      return_to = refl;
      provider = refl;
      created_at = refl;
      factors = λ f h. h;
      current = current;
      advance = inl refl;
    })

IsUse-union :
    (a b : List Factor) (us : List CredentialUse)
    → All (IsUse a) us
    → All (IsUse (union_factors a b)) us
IsUse-union a b [] h = tt
IsUse-union a b (u ∷ us) h =
    ((h.0.0, h.0.1, contains-union_left a b u.factor h.0.2), IsUse-union a b us h.1)

IsUse-union_right :
    (a b : List Factor) (us : List CredentialUse)
    → All (IsUse b) us
    → All (IsUse (union_factors a b)) us
IsUse-union_right a b [] h = tt
IsUse-union_right a b (u ∷ us) h = (
  (h.0.0, h.0.1, ground (arith, contains-union_factors a b u.factor, h.0.2)),
  IsUse-union_right a b us h.1,
)

IsUse-merge_uses :
    (fs : List Factor) (out us : List CredentialUse)
    → All (IsUse fs) out
    → All (IsUse fs) us
    → All (IsUse fs) (merge_uses out us)
unfolding merge_uses
IsUse-merge_uses fs out [] h k = h
IsUse-merge_uses fs out (u ∷ us) h k =
    elim (Bool-cases (any (same_credential_use u.factor u.id) out)) [
      | inl e ↦ rw e (IsUse-merge_uses fs out us h k.1)
      | inr e ↦ rw e (
          IsUse-merge_uses fs (out ++ (u ∷ [])) us (All-append (IsUse fs) out (u ∷ []) h (k.0, tt))
            k.1)
    ]

has_role-union_left :
    (a b : List Factor)
    → has_role a role_primary ≡ true
    → has_role (union_factors a b) role_primary ≡ true
has_role-union_left a b h = ground (arith, has_role-union_factors a b role_primary)

-- Every transition of a session gives a session: it can still be sealed, and it is still dated.
pub Step-IsSession :
    {st : AccountState} {a n : SessionAttrs} → Step st a n → IsSession a → IsSession n
unfolding reauthenticated_attrs
Step-IsSession {st} {a} {n} (reauthenticates p mfa now w e) s =
    let (built, _, _, _, primary, _, _, _, _) = reauthenticate-eq-ok a p st mfa now n e in
    rw built (record {
      versioned = s.versioned;
      lineaged = s.lineaged;
      named = s.named;
      identified = has_role-union_left a.factors (factor_set p) s.identified;
      transported = s.transported;
      uses =
          IsUse-merge_uses (union_factors a.factors (factor_set p)) a.credential_ids
            (credential_uses p) (IsUse-union a.factors (factor_set p) a.credential_ids s.uses)
            (IsUse-union_right a.factors (factor_set p) (credential_uses p)
              (credential_uses-IsUse p));
      dated = pending_primary_at_pos p w primary;
    })
Step-IsSession {st} {a} {n} (enrols f e) s = rw (factor_enrolled-eq-ok a f st n e).0 (record {
  versioned = s.versioned;
  lineaged = s.lineaged;
  named = s.named;
  identified = has_role-union_left a.factors (f ∷ []) s.identified;
  transported = s.transported;
  uses = IsUse-union a.factors (f ∷ []) a.credential_ids s.uses;
  dated = s.dated;
})
Step-IsSession {st} {a} {n} (changes_password now e) s =
    let (built, dated, _, _) = password_changed-eq-ok a st now n e in
    rw built (record {
      versioned = s.versioned;
      lineaged = s.lineaged;
      named = s.named;
      identified = has_role-union_left a.factors (password ∷ []) s.identified;
      transported = s.transported;
      uses = IsUse-union a.factors (password ∷ []) a.credential_ids s.uses;
      dated = dated;
    })
Step-IsSession {st} {a} {n} (renews mfa claims now e) s =
    rw (renew-eq-ok a st mfa claims now n e).0 (record {
      versioned = s.versioned;
      lineaged = s.lineaged;
      named = s.named;
      identified = s.identified;
      transported = s.transported;
      uses = s.uses;
      dated = s.dated;
    })

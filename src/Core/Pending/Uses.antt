-- ===== src/Core/Pending/Uses.antt =====
-- The passkey credentials that the verifications of a Pending used.
use egauth.Base.{
  Bool, true, false, ◌≡◌, refl, List, [], ◌∷◌, ◌++◌, Bytes, is_empty, any, any-append, arith,
  if◌then◌else◌,
}
use mathlib.Core.List.{append-nil, append_assoc}
use egauth.Core.Factor.{Factor, passkey, passkey_step_up, user_verification, factor_discrete}
use egauth.Core.Verified.{Verified}
use egauth.Core.Verified.Shape.{HasShape}
use egauth.Core.Pending.{
  CredentialUse, same_credential_use, credential_clash, passkey_uses, verified_uses,
}

abbrev pub has_use : Factor → Bytes → List CredentialUse → Bool
has_use f id us = any (same_credential_use f id) us

-- No credential serves as the passkey and as the passkey step-up.
abbrev pub ClashFree : List CredentialUse → Type 0
ClashFree us = (id : Bytes) → has_use passkey id us ≡ true → has_use passkey_step_up id us ≡ false

ClashFree-append_passkey :
    (us : List CredentialUse) (cred : Bytes)
    → ClashFree us
    → has_use passkey_step_up cred us ≡ false
    → ClashFree (us ++ (record { factor = passkey; id = cred } ∷ []))
unfolding same_credential_use factor_discrete
ClashFree-append_passkey us cred c h id e = ground (
  arith,
  any-append (same_credential_use passkey id) us (record { factor = passkey; id = cred } ∷ []),
  any-append (same_credential_use passkey_step_up id) us
      (record { factor = passkey; id = cred } ∷ []),
  c id,
)

ClashFree-append_step_up :
    (us : List CredentialUse) (cred : Bytes)
    → ClashFree us
    → has_use passkey cred us ≡ false
    → ClashFree (us ++ (record { factor = passkey_step_up; id = cred } ∷ []))
unfolding same_credential_use factor_discrete
ClashFree-append_step_up us cred c h id e = ground (
  arith,
  any-append (same_credential_use passkey id) us
      (record { factor = passkey_step_up; id = cred } ∷ []),
  any-append (same_credential_use passkey_step_up id) us
      (record { factor = passkey_step_up; id = cred } ∷ []),
  c id,
)

ClashFree-append_none : (us xs : List CredentialUse) → ClashFree us → xs ≡ [] → ClashFree (us ++ xs)
ClashFree-append_none us xs c e = rw (e, append-nil us) c

-- The uses of one verification, as `verified_uses` builds them.
abbrev pub uses_of : List Factor → Bytes → List CredentialUse
uses_of fs cred = if is_empty cred then [] else passkey_uses cred fs ++ []

-- A verification of one of the shapes that passes the clash test keeps the uses apart.
pub ClashFree-append_uses :
    (us : List CredentialUse) (fs : List Factor) (cred : Bytes) (identifies : Bool)
    (provider : Bytes)
    → HasShape fs cred identifies provider
    → ClashFree us
    → any (λ f. credential_clash us f cred) fs ≡ false
    → ClashFree (us ++ uses_of fs cred)
unfolding passkey_uses credential_clash
ClashFree-append_uses us (passkey_step_up ∷ []) [] identifies provider s c h =
    ClashFree-append_none us [] c refl
ClashFree-append_uses us (passkey_step_up ∷ []) (b ∷ bs) identifies provider s c h =
    ClashFree-append_step_up us (b ∷ bs) c (ground arith)
ClashFree-append_uses us (passkey ∷ user_verification ∷ []) [] identifies provider s c h =
    ClashFree-append_none us [] c refl
ClashFree-append_uses us (passkey ∷ user_verification ∷ []) (b ∷ bs) identifies provider s c h =
    ClashFree-append_passkey us (b ∷ bs) c (ground arith)
ClashFree-append_uses us (user_verification ∷ passkey ∷ []) [] identifies provider s c h =
    ClashFree-append_none us [] c refl
ClashFree-append_uses us (user_verification ∷ passkey ∷ []) (b ∷ bs) identifies provider s c h =
    ClashFree-append_passkey us (b ∷ bs) c (ground arith)
ClashFree-append_uses us (passkey ∷ []) cred identifies provider s c h = absurd s
ClashFree-append_uses us (f ∷ []) cred identifies provider s c h =
    ClashFree-append_none us _ c (ground arith)
ClashFree-append_uses us fs cred identifies provider s c h = absurd s

pub verified_uses-append :
    (vs : List Verified) (v : Verified)
    → verified_uses (vs ++ (v ∷ [])) ≡ verified_uses vs ++ uses_of v.factors v.credential_id
unfolding verified_uses
verified_uses-append [] v = refl
verified_uses-append (w ∷ vs) v = ground (
  arith,
  verified_uses-append vs v,
  append_assoc (passkey_uses w.credential_id w.factors) (verified_uses vs)
      (uses_of v.factors v.credential_id),
)

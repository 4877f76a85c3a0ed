-- ===== src/Core/Pending.antt =====
-- internal/core/pending.go and the credential helpers of attrs.go: verifications, and the
-- pre-session state that collects them.

pub mod Uses
pub mod Invariant
pub mod FactorSet
use egauth.Base.{
  ℕ, ◌+◌, ◌*◌, Bool, true, false, not, ◌&&◌, ◌||◌, List, [], ◌∷◌, ◌++◌, Bytes, any, length,
  is_empty, if◌then◌else◌, eqb, ltb, leb, ◌==◌, Result, ok, err, ◌>>◌, ◌>>=◌, refuse_if,
  bytes_discrete, ℕ_discrete,
}
use egauth.Core.Factor.{
  Factor, contains, has_role, role_primary, role_second, multi_factor, passkey, passkey_step_up,
  union_factors, factor_discrete,
}
use egauth.Core.Policy.{
  Error, invalid_argument, tenant_mismatch, pending_expired, not_bound, not_identifying,
  subject_mismatch, epoch_stale, same_credential, provider_mismatch, already_bound, Subject,
  subject_is_zero, zero_subject, AccountState, canon_time, RememberIntent, no_intent,
  remember_declined, remember_requested, RememberMePolicy, no_policy, remember_user_choice,
  remember_always, remember_never, transport_valid, zero_time, uuid_nil, second,
}
use egauth.Core.Verified.{Verified}

unfoldable pub subject_discrete : Discrete Subject
unfolding bytes_discrete ℕ_discrete
subject_discrete = hlevel (bytes_discrete, ℕ_discrete)

abbrev pub codec_version : ℕ
codec_version = 1

-- 15 minutes.
abbrev pub pending_ttl : ℕ
pending_ttl = 15 * 60 * second

abbrev pub bind_hash_len : ℕ
bind_hash_len = 32

pub record CredentialUse : Type 0 where
  pub factor : Factor
  pub id : Bytes

-- The other passkey factor, in `credentialClash`.
unfoldable pub same_credential_use : Factor → Bytes → CredentialUse → Bool
same_credential_use f id u = eqb factor_discrete u.factor f && eqb bytes_discrete u.id id

unfoldable pub credential_clash : List CredentialUse → Factor → Bytes → Bool
credential_clash existing passkey id = any (same_credential_use passkey_step_up id) existing
credential_clash existing passkey_step_up id = any (same_credential_use passkey id) existing
credential_clash existing _ id = false

-- `version` is 0 in the zero Pending and `codec_version` in any other.
pub record Pending : Type 0 where
  pub version : ℕ
  pub tenant : Bytes
  pub subject : Subject
  pub epoch_at_bind : ℕ
  pub verified : List Verified
  pub remember : Bool
  pub return_to : Bytes
  pub transport : ℕ
  pub provider : Bytes
  pub reauth_of : ℕ
  pub bind_hash : Bytes
  pub expires_at : ℕ

abbrev pub zero_pending : Pending
zero_pending = record {
  version = 0;
  tenant = [];
  subject = zero_subject;
  epoch_at_bind = 0;
  verified = [];
  remember = false;
  return_to = [];
  transport = 0;
  provider = [];
  reauth_of = uuid_nil;
  bind_hash = [];
  expires_at = zero_time;
}

abbrev pub is_bound : Pending → Bool
is_bound p = not (subject_is_zero p.subject)

unfoldable pub remember_decision : RememberIntent → RememberMePolicy → Result Error Bool
remember_decision remember_requested remember_user_choice = ok true
remember_decision i remember_user_choice = ok false
remember_decision i remember_always = ok true
remember_decision i remember_never = ok false
remember_decision i no_policy = err invalid_argument

abbrev pub is_intent : RememberIntent → Bool
is_intent no_intent = false
is_intent _ = true

unfoldable pub new_pending :
    Bytes → RememberIntent → Bytes → ℕ → RememberMePolicy → ℕ → Result Error Pending
unfolding remember_decision
new_pending t intent return_to tr pol now = do
  refuse_if (not (is_intent intent)) invalid_argument
  refuse_if (not (transport_valid tr)) invalid_argument
  rem ← remember_decision intent pol
  refuse_if (now == zero_time) invalid_argument
  ok (record zero_pending {
    version = codec_version;
    tenant = t;
    remember = rem;
    return_to = return_to;
    transport = tr;
    expires_at = canon_time (now + pending_ttl);
  })

unfoldable pub bind : Pending → Subject → AccountState → Result Error Pending
bind p s st = do
  refuse_if (p.version == 0 || subject_is_zero s) invalid_argument
  refuse_if (not (eqb bytes_discrete s.tenant p.tenant)) tenant_mismatch
  refuse_if (is_bound p) already_bound
  ok (record p { subject = s; epoch_at_bind = st.epoch })

unfoldable pub with_bind_hash : Pending → Bytes → Result Error Pending
with_bind_hash p h = do
  refuse_if (p.version == 0 || not (length h == bind_hash_len) || not (is_empty p.bind_hash))
      invalid_argument
  ok (record p { bind_hash = h })

unfoldable pub factor_set_from : List Factor → List Verified → List Factor
factor_set_from out [] = out
factor_set_from out (v ∷ vs) = factor_set_from (union_factors out v.factors) vs

unfoldable pub factor_set : Pending → List Factor
factor_set p = factor_set_from [] p.verified

abbrev pub is_passkey_factor : Factor → Bool
is_passkey_factor passkey = true
is_passkey_factor passkey_step_up = true
is_passkey_factor _ = false

unfoldable pub passkey_uses : Bytes → List Factor → List CredentialUse
passkey_uses id [] = []
passkey_uses id (f ∷ fs) =
    if is_passkey_factor f
    then record { factor = f; id = id } ∷ passkey_uses id fs
    else passkey_uses id fs

unfoldable pub verified_uses : List Verified → List CredentialUse
verified_uses [] = []
verified_uses (v ∷ vs) =
    if is_empty v.credential_id
    then verified_uses vs
    else passkey_uses v.credential_id v.factors ++ verified_uses vs

unfoldable pub credential_uses : Pending → List CredentialUse
credential_uses p = verified_uses p.verified

-- The subject and epoch that `Add` leaves: it binds an unbound Pending, and checks a bound one.
unfoldable pub add_binding : Pending → Verified → AccountState → Result Error Pending
add_binding p v st =
    if not (is_bound p)
    then (do
      refuse_if (has_role v.factors role_second) not_bound
      refuse_if (not v.identifies) not_identifying
      ok (record p { subject = v.subject; epoch_at_bind = st.epoch }))
    else (do
      refuse_if (not (eqb subject_discrete v.subject p.subject)) subject_mismatch
      refuse_if (not (st.epoch == p.epoch_at_bind)) epoch_stale
      ok p)

unfoldable pub add_provider : Pending → Verified → Result Error Bytes
add_provider p v = if is_empty v.provider then ok p.provider else (do
  refuse_if (not (is_empty p.provider) && not (eqb bytes_discrete p.provider v.provider))
      provider_mismatch
  ok v.provider)

unfoldable pub add : Pending → Verified → AccountState → Result Error Pending
add p v st = do
  refuse_if (p.version == 0 || is_empty v.factors) invalid_argument
  refuse_if (not (eqb bytes_discrete v.subject.tenant p.tenant)) tenant_mismatch
  refuse_if (leb p.expires_at v.at) pending_expired
  n ← add_binding p v st
  refuse_if (any (λ f. credential_clash (credential_uses p) f v.credential_id) v.factors)
      same_credential
  provider ← add_provider p v
  ok (record n { provider = provider; verified = p.verified ++ (v ∷ []) })

-- The latest instant of the verifications that match.
unfoldable pub latest_from : (Verified → Bool) → ℕ → List Verified → ℕ
latest_from match t [] = t
latest_from match t (v ∷ vs) = latest_from match (if match v && ltb t v.at then v.at else t) vs

abbrev pub is_primary : Verified → Bool
is_primary v = has_role v.factors role_primary

abbrev pub is_strong : Verified → Bool
is_strong v = has_role v.factors role_second || multi_factor v.factors

unfoldable pub pending_primary_at : Pending → ℕ
pending_primary_at p = latest_from is_primary zero_time p.verified

unfoldable pub pending_second_at : Pending → ℕ
pending_second_at p = latest_from is_strong zero_time p.verified

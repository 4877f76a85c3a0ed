-- ===== src/Core/Codec/Fields.antt =====
-- internal/core/codec.go: the fields of a sealed session and of a sealed Pending, in their order.
use egauth.Base.{
  ℕ, zero, suc, List, [], ◌∷◌, ◌++◌, Bytes, Option, none, some, length, if◌then◌else◌,
}
use egauth.Core.Factor.{code}
use egauth.Core.Policy.{Subject, zero_subject, subject_is_zero}
use egauth.Core.Verified.{Verified}
use egauth.Core.Pending.{CredentialUse, Pending, codec_version}
use egauth.Core.Attrs.{SessionAttrs}
use egauth.Core.Codec.{
  Decoder, ◌>>=◌, return, append_uvarint, put_bytes, put_u64, put_bool, put_uuid, put_time,
  put_subject, put_factors, get_count, get_bytes, get_u64, get_bool, get_uuid, get_time,
  get_transport, get_subject, get_factor, get_factors,
}

unfoldable pub put_each_use : List CredentialUse → Bytes
put_each_use [] = []
put_each_use (u ∷ us) = put_bytes (code u.factor) ++ (put_bytes u.id ++ put_each_use us)

unfoldable pub put_uses : List CredentialUse → Bytes
put_uses us = append_uvarint (length us) ++ put_each_use us

-- The loop of `Unseal` over the credential uses.
unfoldable pub get_each_use : ℕ → List CredentialUse → Decoder (List CredentialUse)
get_each_use zero out b = some (out, b)
get_each_use (suc n) out b = elim (get_factor b) [
  | none ↦ none
  | some (f, rest) ↦ elim (get_bytes rest) [
    | none ↦ none
    | some (id, left) ↦ get_each_use n (out ++ (record { factor = f; id = id } ∷ [])) left
  ]
]

unfoldable pub get_uses : Decoder (List CredentialUse)
get_uses = get_count >>= λ n. get_each_use n []

-- The encoded instants of a session.
pub record Times : Type 0 where
  pub primary : Bytes
  pub second : Bytes
  pub created : Bytes
  pub fetched : Bytes

unfoldable pub put_attrs : SessionAttrs → Times → Bytes
put_attrs a t =
    put_uuid a.lineage
    ++ (put_subject a.subject.tenant a.subject.user
        ++ (put_factors a.factors
            ++ (put_uses a.credential_ids
                ++ (t.primary
                    ++ (t.second
                        ++ (put_u64 a.epoch
                            ++ (put_bool a.must_change
                                ++ (put_bool a.remember
                                    ++ (put_bytes a.return_to
                                        ++ (put_bytes (a.transport ∷ [])
                                            ++ (put_bytes a.provider
                                                ++ (t.created ++ t.fetched))))))))))))

unfoldable pub get_attrs : Decoder SessionAttrs
get_attrs = do
  lineage ← get_uuid
  subject ← get_subject
  factors ← get_factors
  uses ← get_uses
  primary_at ← get_time
  second_at ← get_time
  epoch ← get_u64
  must_change ← get_bool
  remember ← get_bool
  return_to ← get_bytes
  transport ← get_transport
  provider ← get_bytes
  created_at ← get_time
  claims_fetched_at ← get_time
  return (record {
    version = codec_version;
    lineage = lineage;
    subject = subject;
    factors = factors;
    credential_ids = uses;
    primary_at = primary_at;
    second_at = second_at;
    epoch = epoch;
    must_change = must_change;
    remember = remember;
    return_to = return_to;
    transport = transport;
    provider = provider;
    created_at = created_at;
    claims_fetched_at = claims_fetched_at;
  })

-- One verification of a Pending; its instant is encoded by the caller.
unfoldable pub put_verified : Verified → Bytes → Bytes
put_verified v at =
    put_factors v.factors
    ++ (put_bytes v.credential_id ++ (put_bool v.identifies ++ (put_bytes v.provider ++ at)))

unfoldable pub put_each_verified : List Verified → Option Bytes
put_each_verified [] = some []
put_each_verified (v ∷ vs) = elim (put_time v.at) [
  | none ↦ none
  | some at ↦ elim (put_each_verified vs) [
    | none ↦ none
    | some rest ↦ some (put_verified v at ++ rest)
  ]
]

unfoldable pub put_pending : Pending → Bytes → Bytes → Bytes
put_pending p entries expiry =
    put_subject p.tenant p.subject.user
    ++ (put_u64 p.epoch_at_bind
        ++ ((append_uvarint (length p.verified) ++ entries)
            ++ (put_bool p.remember
                ++ (put_bytes p.return_to
                    ++ (put_bytes (p.transport ∷ [])
                        ++ (put_bytes p.provider
                            ++ (put_uuid p.reauth_of ++ (put_bytes p.bind_hash ++ expiry))))))))

unfoldable pub get_verified : Subject → Decoder Verified
get_verified s = do
  factors ← get_factors
  credential_id ← get_bytes
  identifies ← get_bool
  provider ← get_bytes
  at ← get_time
  return (record {
    subject = s;
    factors = factors;
    credential_id = credential_id;
    identifies = identifies;
    provider = provider;
    at = at;
  })

-- The loop of `UnsealPending` over the verifications.
unfoldable pub get_each_verified : Subject → ℕ → List Verified → Decoder (List Verified)
get_each_verified s zero out b = some (out, b)
get_each_verified s (suc n) out b = elim (get_verified s b) [
  | none ↦ none
  | some (v, rest) ↦ get_each_verified s n (out ++ (v ∷ [])) rest
]

-- The subject of a decoded Pending: the zero one if no user was encoded.
abbrev pub bound_subject : Subject → Subject
bound_subject s = if subject_is_zero s then zero_subject else s

unfoldable pub get_entries : Subject → Decoder (List Verified)
get_entries s = get_count >>= λ n. get_each_verified s n []

unfoldable pub get_pending : Decoder Pending
get_pending = do
  bound ← get_subject
  epoch_at_bind ← get_u64
  verified ← get_entries (bound_subject bound)
  remember ← get_bool
  return_to ← get_bytes
  transport ← get_transport
  provider ← get_bytes
  reauth_of ← get_uuid
  bind_hash ← get_bytes
  expires_at ← get_time
  return (record {
    version = codec_version;
    tenant = bound.tenant;
    subject = bound_subject bound;
    epoch_at_bind = epoch_at_bind;
    verified = verified;
    remember = remember;
    return_to = return_to;
    transport = transport;
    provider = provider;
    reauth_of = reauth_of;
    bind_hash = bind_hash;
    expires_at = expires_at;
  })

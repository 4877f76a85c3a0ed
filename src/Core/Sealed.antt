-- ===== src/Core/Sealed.antt =====
-- internal/core/codec.go: `Seal`, `Unseal`, `SealPending` and `UnsealPending`. A sealed value is its
-- bytes.
pub mod Attrs
pub mod RoundTrip
use egauth.Base.{
  ℕ, ◌+◌, Bool, true, false, not, ◌&&◌, ◌||◌, List, [], ◌∷◌, ◌++◌, Bytes, Option, none, some,
  length, is_empty, any, if◌then◌else◌, eqb, bytes_discrete, ltb, ◌==◌, Result, ok, err, is_ok,
  ◌>>=◌, ◌>>◌, refuse_if,
}
use egauth.Core.Policy.{Error, invalid_argument, malformed, transport_valid, zero_time}
use egauth.Core.Verified.{Verified, check_verified_shape}
use egauth.Core.Pending.{Pending, codec_version, is_bound}
use egauth.Core.Attrs.{SessionAttrs, check_attrs}
use egauth.Core.Codec.{Decoder, max_sealed_len, tag_attrs, tag_pending, put_time}
use egauth.Core.Codec.Fields.{
  Times, put_attrs, get_attrs, put_each_verified, put_pending, get_pending,
}

abbrev pub in_range : Option Bytes → Result Error Bytes
in_range none = err malformed
in_range (some b) = ok b

-- `finish`.
unfoldable pub finish : Bytes → Result Error Bytes
finish b = do refuse_if (ltb max_sealed_len (length b)) malformed; ok b

unfoldable pub seal : SessionAttrs → Result Error Bytes
seal a = do
  refuse_if (a.version == 0) invalid_argument
  refuse_if (not (check_attrs a)) invalid_argument
  primary ← in_range (put_time a.primary_at)
  second ← in_range (put_time a.second_at)
  created ← in_range (put_time a.created_at)
  fetched ← in_range (put_time a.claims_fetched_at)
  finish (
      codec_version
      ∷ tag_attrs
      ∷ put_attrs a
          (record { primary = primary; second = second; created = created; fetched = fetched }))

-- `newDecoder`: the bytes behind the version and the tag.
unfoldable pub new_decoder : ℕ → Bytes → Result Error Bytes
new_decoder tag [] = err malformed
new_decoder tag (v ∷ []) = err malformed
new_decoder tag (v ∷ t ∷ b) = do
  refuse_if (ltb max_sealed_len (length (v ∷ t ∷ b))) malformed
  refuse_if (not (v == codec_version)) malformed
  refuse_if (not (t == tag)) malformed
  ok b

-- Runs a decoder; `done` refuses bytes that are left.
abbrev pub decode {ℓ} : {A : Type ℓ} → (Bytes → Option (A × Bytes)) → Bytes → Result Error A
decode d b = elim (d b) [
  | none ↦ err malformed
  | some (a, rest) ↦ if is_empty rest then ok a else err malformed
]

-- `canonical`.
abbrev pub canonical : Bytes → Result Error Bytes → Result Error (Unit {0})
canonical input (err _) = err malformed
canonical input (ok out) = refuse_if (not (eqb bytes_discrete out input)) malformed

unfoldable pub unseal : Bytes → Result Error SessionAttrs
unseal s = do
  b ← new_decoder tag_attrs s
  a ← decode get_attrs b
  refuse_if (not (check_attrs a)) malformed
  canonical s (seal a)
  ok a

abbrev pub verified_ok : Verified → Bool
verified_ok v =
    not (v.at == zero_time)
    && is_ok (check_verified_shape v.factors v.credential_id v.identifies v.provider)

-- `checkPending`, true for a nil error.
unfoldable pub check_pending : Pending → Bool
check_pending p =
    not (
      not (transport_valid p.transport)
      || p.expires_at == zero_time
      || (not (is_empty p.verified) && not (is_bound p)))
    && not (any (λ v. not (verified_ok v)) p.verified)

unfoldable pub seal_pending : Pending → Result Error Bytes
seal_pending p = do
  refuse_if (p.version == 0) invalid_argument
  refuse_if (not (check_pending p)) invalid_argument
  entries ← in_range (put_each_verified p.verified)
  expiry ← in_range (put_time p.expires_at)
  finish (codec_version ∷ tag_pending ∷ put_pending p entries expiry)

unfoldable pub unseal_pending : Bytes → Result Error Pending
unseal_pending s = do
  b ← new_decoder tag_pending s
  p ← decode get_pending b
  refuse_if (not (check_pending p)) malformed
  canonical s (seal_pending p)
  ok p

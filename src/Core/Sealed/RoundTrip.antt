-- ===== src/Core/Sealed/RoundTrip.antt =====
-- What `Unseal` and `UnsealPending` read of the bytes that `Seal` and `SealPending` wrote.
use egauth.Base.{◌≡◌, refl, true, [], ◌∷◌, Bytes, Option, none, some, arith, ok, err}
use mathlib.Core.List.{append-nil}
use egauth.Core.Policy.{malformed}
use egauth.Core.Pending.{Pending}
use egauth.Core.Attrs.{SessionAttrs, check_attrs}
use egauth.Core.Codec.{put_time, tag_attrs}
use egauth.Core.Codec.Reads.{Fits, Fits-append}
use egauth.Core.Codec.Fields.{Times, put_attrs, get_attrs}
use egauth.Core.Sealed.Attrs.{IsSealable, IsTimes, get_attrs-Reads}
use egauth.Core.Sealed.{seal, unseal, finish, new_decoder, decode, seal_pending, unseal_pending}

-- What a successful `seal` passed, and what it wrote.
record Sealing (a : SessionAttrs) (s : Bytes) : Type 0 where
  times : Times
  encoded : IsTimes a times
  checked : check_attrs a ≡ true
  written : s ≡ 1 ∷ tag_attrs ∷ put_attrs a times
  short : Fits s

seal-Sealing : (a : SessionAttrs) (s : Bytes) → seal a ≡ ok s → Sealing a s
unfolding seal finish
seal-Sealing a s e =
    go (put_time a.primary_at) (put_time a.second_at) (put_time a.created_at)
      (put_time a.claims_fetched_at) refl refl refl refl
  where
    go :
        (p q r u : Option Bytes)
        → put_time a.primary_at ≡ p
        → put_time a.second_at ≡ q
        → put_time a.created_at ≡ r
        → put_time a.claims_fetched_at ≡ u
        → Sealing a s
    go (some p) (some q) (some r) (some u) hp hq hr hu = record {
      times = record { primary = p; second = q; created = r; fetched = u };
      encoded = record { primary = hp; second = hq; created = hr; fetched = hu };
      checked = ground arith;
      written = ground arith;
      short = ground arith;
    }
    go none q r u hp hq hr hu = absurd (ground arith)
    go p none r u hp hq hr hu = absurd (ground arith)
    go p q none u hp hq hr hu = absurd (ground arith)
    go p q r none hp hq hr hu = absurd (ground arith)

decode_all :
    (a : SessionAttrs) (t : Times)
    → IsSealable a
    → IsTimes a t
    → Fits (put_attrs a t)
    → decode get_attrs (put_attrs a t) ≡ ok a
decode_all a t s w f =
    let e = get_attrs-Reads a t s w f [] in
    let read : get_attrs (put_attrs a t) ≡ some (a, []) = rw append-nil at e in
    rw (read, decode) refl

-- Every session that `Seal` accepts is read back by `Unseal` as it was, if its numbers have the
-- sizes of their types, its tenant was parsed, and its factors are known and in canonical order.
pub unseal-seal : (a : SessionAttrs) (s : Bytes) → IsSealable a → seal a ≡ ok s → unseal s ≡ ok a
unfolding unseal new_decoder
unseal-seal a s w e =
    let i = seal-Sealing a s e in
    let parts = Fits-append (1 ∷ tag_attrs ∷ []) (put_attrs a i.times) (rw i.written at i.short) in
    ground (arith, decode_all a i.times w i.encoded parts.1, i.written, i.checked, i.short)

-- A sealed session is never read as a Pending.
unseal_pending_other_tag :
    (a : SessionAttrs) (s : Bytes) → seal a ≡ ok s → unseal_pending s ≡ err malformed
unfolding unseal_pending new_decoder
unseal_pending_other_tag a s e = ground (arith, (seal-Sealing a s e).written)

-- A sealed Pending is never read as a session.
pub unseal_other_tag : (p : Pending) (s : Bytes) → seal_pending p ≡ ok s → unseal s ≡ err malformed
unfolding unseal new_decoder seal_pending finish
unseal_other_tag p s e = ground arith

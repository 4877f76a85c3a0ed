-- ===== src/Core/Reach.antt =====
-- Every value that the transitions of internal/core can produce: a `Verified` comes from
-- `new_verified`, a Pending from a login or a reauthentication, a session from an admission. The
-- fields are unexported, so that besides these only `Unseal` and `UnsealPending` build a session or a
-- Pending, from bytes that `Seal` and `SealPending` wrote; those values are not in `Live` and `Journey`.
pub mod Canonical
use egauth.Base.{
  ℕ, ◌≡◌, refl, ◌≢◌, Bytes, ok, err, is_ok, ◌⊎◌, inl, inr, true, if◌then◌else◌, Option, none, some,
  arith,
}
use egauth.Core.Factor.{Factor}
use egauth.Core.Policy.{
  Subject, AccountState, MfaDecision, RememberIntent, RememberMePolicy, ClaimsOutcome, uuid_nil,
  malformed,
}
use egauth.Core.Verified.{Verified, VerifiedSpec, new_verified}
use egauth.Core.Verified.Shape.{new_verified-IsVerified}
use egauth.Core.Pending.{Pending, codec_version, new_pending, bind, with_bind_hash, add}
use egauth.Core.Pending.Invariant.{
  IsPending, new_pending-IsPending, bind-IsPending, with_bind_hash-IsPending, add-IsPending,
  empty-IsPending,
}
use egauth.Core.Attrs.{SessionAttrs, pending_for_reauth, check_attrs}
use egauth.Core.Transitions.{
  admit, admitted, reauthenticate, factor_enrolled, password_changed, renew,
}
use egauth.Core.Codec.{put_time}
use egauth.Core.Sealed.{seal, finish}
use egauth.Core.Transitions.Admit.{IsSession, admit-IsSession, IsSession-check_attrs}
use egauth.Core.Transitions.Lineage.{reauthenticates, enrols, changes_password, renews}
use egauth.Core.Transitions.Kept.{Step-IsSession}

mutual
  pub data Journey : Pending → Type 0 where
    begins :
        {p : Pending} (t : Bytes) (i : RememberIntent) (r : Bytes) (tr : ℕ) (pol : RememberMePolicy)
        (now : ℕ)
        → new_pending t i r tr pol now ≡ ok p
        → Journey p
    reopens :
        {p : Pending} (a : SessionAttrs) (now : ℕ)
        → Live a
        → p ≡ pending_for_reauth a now
        → Journey p
    binds :
        {n : Pending} (p : Pending) (s : Subject) (st : AccountState)
        → Journey p
        → bind p s st ≡ ok n
        → Journey n
    hashes :
        {n : Pending} (p : Pending) (h : Bytes) → Journey p → with_bind_hash p h ≡ ok n → Journey n
    adds :
        {n : Pending} (p : Pending) (s : VerifiedSpec) (v : Verified) (st : AccountState)
        → Journey p
        → new_verified s ≡ ok v
        → add p v st ≡ ok n
        → Journey n

  pub data Live : SessionAttrs → Type 0 where
    admits :
        {a : SessionAttrs} (p : Pending) (st : AccountState) (mfa : MfaDecision) (fresh now : ℕ)
        → Journey p
        → fresh ≢ uuid_nil
        → admit p st mfa fresh now ≡ ok (admitted a)
        → Live a
    reauthenticated :
        {n : SessionAttrs} (a : SessionAttrs) (p : Pending) (st : AccountState) (mfa : MfaDecision)
        (now : ℕ)
        → Live a
        → Journey p
        → reauthenticate a p st mfa now ≡ ok n
        → Live n
    enrolled :
        {n : SessionAttrs} (a : SessionAttrs) (f : Factor) (st : AccountState)
        → Live a
        → factor_enrolled a f st ≡ ok n
        → Live n
    changed :
        {n : SessionAttrs} (a : SessionAttrs) (st : AccountState) (now : ℕ)
        → Live a
        → password_changed a st now ≡ ok n
        → Live n
    renewed :
        {n : SessionAttrs} (a : SessionAttrs) (st : AccountState) (mfa : MfaDecision)
        (claims : ClaimsOutcome) (now : ℕ)
        → Live a
        → renew a st mfa claims now ≡ ok n
        → Live n

-- The reauthentication Pending of a session.
pending_for_reauth-IsPending :
    (a : SessionAttrs) (now : ℕ) → IsSession a → IsPending (pending_for_reauth a now)
unfolding pending_for_reauth
pending_for_reauth-IsPending a now s =
    rw s.versioned (empty-IsPending _ refl s.transported refl (λ _. refl))

mutual
  Journey-valid : {p : Pending} → Journey p → IsPending p
  Journey-valid {p} (begins t i r tr pol now e) = new_pending-IsPending t i r tr pol now p e
  Journey-valid (reopens a now l e) = rw e (pending_for_reauth-IsPending a now (Live-valid l))
  Journey-valid {p = n} (binds p s st j e) = bind-IsPending p s st n (Journey-valid j) e
  Journey-valid {p = n} (hashes p h j e) = with_bind_hash-IsPending p h n (Journey-valid j) e
  Journey-valid {p = n} (adds p s v st j u e) =
      add-IsPending p v st n (Journey-valid j) (new_verified-IsVerified s v u).0 e

  Live-valid : {a : SessionAttrs} → Live a → IsSession a
  Live-valid {a} (admits p st mfa fresh now j f e) =
      (admit-IsSession p st mfa fresh now a (Journey-valid j) f e).0
  Live-valid (reauthenticated a p st mfa now l j e) =
      Step-IsSession (reauthenticates p mfa now (Journey-valid j) e) (Live-valid l)
  Live-valid (enrolled a f st l e) = Step-IsSession (enrols f e) (Live-valid l)
  Live-valid (changed a st now l e) = Step-IsSession (changes_password now e) (Live-valid l)
  Live-valid (renewed a st mfa claims now l e) =
      Step-IsSession (renews mfa claims now e) (Live-valid l)

-- Every Pending that the operations produce satisfies its invariant.
pub Journey-IsPending : (p : Pending) → Journey p → IsPending p
Journey-IsPending p j = Journey-valid j

-- A session of the current version that passes the check is sealed, or refused as malformed.
seal-checked :
    (a : SessionAttrs)
    → a.version ≡ codec_version
    → check_attrs a ≡ true
    → (is_ok (seal a) ≡ true) ⊎ (seal a ≡ err malformed)
unfolding seal finish
seal-checked a v c =
    go (put_time a.primary_at) (put_time a.second_at) (put_time a.created_at)
      (put_time a.claims_fetched_at) refl refl refl refl
  where
    go :
        (p q r u : Option Bytes)
        → put_time a.primary_at ≡ p
        → put_time a.second_at ≡ q
        → put_time a.created_at ≡ r
        → put_time a.claims_fetched_at ≡ u
        → (is_ok (seal a) ≡ true) ⊎ (seal a ≡ err malformed)
    go (some p) (some q) (some r) (some u) hp hq hr hu = ground arith
    go none q r u hp hq hr hu = ground arith
    go (some p) none r u hp hq hr hu = ground arith
    go (some p) (some q) none u hp hq hr hu = ground arith
    go (some p) (some q) (some r) none hp hq hr hu = ground arith

pub Live-IsSession :
    (a : SessionAttrs)
    → Live a
    → IsSession a × (check_attrs a ≡ true) × ((is_ok (seal a) ≡ true) ⊎ (seal a ≡ err malformed))
Live-IsSession a l =
    let session = Live-valid l in
    let checked = IsSession-check_attrs a session in
    (session, checked, seal-checked a session.versioned checked)

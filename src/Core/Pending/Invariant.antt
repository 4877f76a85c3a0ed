-- ===== src/Core/Pending/Invariant.antt =====
-- The invariant of a Pending, and that every operation keeps it.
use egauth.Base.{
  ℕ, ◌+◌, ◌<◌, true, false, ◌≡◌, refl, ◌≢◌, ◌⊎◌, inl, inr, List, [], ◌∷◌, ◌++◌, Bytes, ok, any, All,
  All-append, arith, ap, sym, ◌∙◌,
}
use egauth.Core.Policy.{
  RememberIntent, RememberMePolicy, Subject, AccountState, uuid_nil, transport_valid,
}
use egauth.Core.Verified.{Verified}
use egauth.Core.Verified.Shape.{IsVerified}
use egauth.Core.Pending.Uses.{ClashFree, uses_of, ClashFree-append_uses, verified_uses-append}
use egauth.Core.Pending.{
  Pending, zero_pending, pending_ttl, credential_clash, verified_uses, credential_uses, add,
  add_binding, add_provider, bind, with_bind_hash, new_pending, codec_version,
}

-- What an entry of a Pending bound to `s`, with this provider and expiry, satisfies.
abbrev pub Entry : Subject → Bytes → ℕ → Verified → Type 0
Entry s provider expiry v =
    IsVerified v × (v.subject ≡ s) × (v.at < expiry) × ((v.provider ≡ []) ⊎ (v.provider ≡ provider))

pub record IsPending (p : Pending) : Type 0 where
  pub versioned : p.version ≡ codec_version
  pub transported : transport_valid p.transport ≡ true
  pub homed : p.subject.user ≢ uuid_nil → p.subject.tenant ≡ p.tenant
  pub entries : All (Entry p.subject p.provider p.expires_at) p.verified
  pub distinct : ClashFree (credential_uses p)

-- What a successful `add` passed, and what it returns.
record Added (p : Pending) (v : Verified) (st : AccountState) (n : Pending) : Type 0 where
  versioned : p.version ≢ 0
  homed : v.subject.tenant ≡ p.tenant
  alive : v.at < p.expires_at
  bound : n.subject ≡ v.subject
  agreed : (p.subject ≡ v.subject) ⊎ (p.subject.user ≡ uuid_nil)
  clashless : any (λ f. credential_clash (credential_uses p) f v.credential_id) v.factors ≡ false
  provided :
      (v.provider ≡ []) × (n.provider ≡ p.provider)
      ⊎ (n.provider ≡ v.provider) × ((p.provider ≡ []) ⊎ (p.provider ≡ v.provider))
  appended : n.verified ≡ p.verified ++ (v ∷ [])
  kept :
      (n.version ≡ p.version)
      × (n.tenant ≡ p.tenant)
      × (n.transport ≡ p.transport)
      × (n.expires_at ≡ p.expires_at)

add-Added :
    (p : Pending) (v : Verified) (st : AccountState) (n : Pending)
    → add p v st ≡ ok n
    → Added p v st n
unfolding add add_binding add_provider
add-Added p v st n e = record {
  versioned = ground arith;
  homed = ground arith;
  alive = ground arith;
  bound = ground arith;
  agreed = ground arith;
  clashless = ground arith;
  provided = ground arith;
  appended = ground arith;
  kept = (ground arith, ground arith, ground arith, ground arith);
}

-- An unbound Pending has no entry.
entries_of_unbound :
    (s : Subject) (provider : Bytes) (expiry : ℕ) (vs : List Verified)
    → s.user ≡ uuid_nil
    → All (Entry s provider expiry) vs
    → vs ≡ []
entries_of_unbound s provider expiry [] h a = refl
entries_of_unbound s provider expiry (v ∷ vs) h a =
    absurd (a.0.0.named (ap (λ (t : Subject). t.user) a.0.1 ∙ h))

All-Entry_provider :
    (s : Subject) (old new : Bytes) (expiry : ℕ) (vs : List Verified)
    → (old ≡ []) ⊎ (old ≡ new)
    → All (Entry s old expiry) vs
    → All (Entry s new expiry) vs
All-Entry_provider s old new expiry [] h a = tt
All-Entry_provider s old new expiry (v ∷ vs) h a =
    ((a.0.0, a.0.1, a.0.2, ground arith), All-Entry_provider s old new expiry vs h a.1)

provided_agrees :
    (p : Pending) (v : Verified) (n : Pending)
    → (v.provider ≡ []) × (n.provider ≡ p.provider)
      ⊎ (n.provider ≡ v.provider) × ((p.provider ≡ []) ⊎ (p.provider ≡ v.provider))
    → (p.provider ≡ []) ⊎ (p.provider ≡ n.provider)
provided_agrees p v n h = ground arith

new_provider :
    (p : Pending) (v : Verified) (n : Pending)
    → (v.provider ≡ []) × (n.provider ≡ p.provider)
      ⊎ (n.provider ≡ v.provider) × ((p.provider ≡ []) ⊎ (p.provider ≡ v.provider))
    → (v.provider ≡ []) ⊎ (v.provider ≡ n.provider)
new_provider p v n h = ground arith

credential_uses-add :
    (p : Pending) (v : Verified) (n : Pending)
    → n.verified ≡ p.verified ++ (v ∷ [])
    → credential_uses n ≡ credential_uses p ++ uses_of v.factors v.credential_id
unfolding credential_uses
credential_uses-add p v n e = ap verified_uses e ∙ verified_uses-append p.verified v

old_entries :
    (p : Pending) (v : Verified) (st : AccountState) (n : Pending)
    → IsPending p
    → Added p v st n
    → All (Entry n.subject n.provider n.expires_at) p.verified
old_entries p v st n w a = elim a.agreed [
  | inl e ↦
      rw (a.bound, ← e, a.kept.3)
        (All-Entry_provider p.subject p.provider n.provider p.expires_at p.verified
          (provided_agrees p v n a.provided) w.entries)
  | inr e ↦ rw (entries_of_unbound p.subject p.provider p.expires_at p.verified e w.entries) tt
]

-- A successful `add` of a well-formed verification to a Pending that satisfies the invariant gives a
-- Pending that satisfies it.
pub add-IsPending :
    (p : Pending) (v : Verified) (st : AccountState) (n : Pending)
    → IsPending p
    → IsVerified v
    → add p v st ≡ ok n
    → IsPending n
add-IsPending p v st n w u e =
    let a = add-Added p v st n e in
    record {
      versioned = a.kept.0 ∙ w.versioned;
      transported = ap transport_valid a.kept.2 ∙ w.transported;
      homed = λ _. ap (λ (s : Subject). s.tenant) a.bound ∙ a.homed ∙ sym a.kept.1;
      entries = rw a.appended (
          All-append (Entry n.subject n.provider n.expires_at) p.verified (v ∷ [])
            (old_entries p v st n w a)
            ((u, sym a.bound, rw a.kept.3 a.alive, new_provider p v n a.provided), tt));
      distinct = rw (credential_uses-add p v n a.appended) (
          ClashFree-append_uses (credential_uses p) v.factors v.credential_id v.identifies
            v.provider u.shaped w.distinct a.clashless);
    }

-- Every other operation on a Pending keeps the invariant too.
bind-eq-ok :
    (p : Pending) (s : Subject) (st : AccountState) (n : Pending)
    → bind p s st ≡ ok n
    → (n ≡ record p { subject = s; epoch_at_bind = st.epoch })
      × (s.tenant ≡ p.tenant)
      × (p.subject.user ≡ uuid_nil)
unfolding bind
bind-eq-ok p s st n e = (ground arith, ground arith, ground arith)

pub bind-IsPending :
    (p : Pending) (s : Subject) (st : AccountState) (n : Pending)
    → IsPending p
    → bind p s st ≡ ok n
    → IsPending n
unfolding credential_uses
bind-IsPending p s st n w e =
    let (built, home, free) = bind-eq-ok p s st n e in
    rw built (record {
      versioned = w.versioned;
      transported = w.transported;
      homed = λ _. home;
      entries =
          rw (entries_of_unbound p.subject p.provider p.expires_at p.verified free w.entries) tt;
      distinct = w.distinct;
    })

with_bind_hash-eq-ok :
    (p : Pending) (h : Bytes) (n : Pending)
    → with_bind_hash p h ≡ ok n
    → n ≡ record p { bind_hash = h }
unfolding with_bind_hash
with_bind_hash-eq-ok p h n e = ground arith

pub with_bind_hash-IsPending :
    (p : Pending) (h : Bytes) (n : Pending) → IsPending p → with_bind_hash p h ≡ ok n → IsPending n
unfolding credential_uses
with_bind_hash-IsPending p h n w e = rw (with_bind_hash-eq-ok p h n e) (record {
  versioned = w.versioned;
  transported = w.transported;
  homed = w.homed;
  entries = w.entries;
  distinct = w.distinct;
})

-- What a new login Pending holds: nothing is verified and nobody is bound.
new_pending-eq-ok :
    (t : Bytes) (i : RememberIntent) (r : Bytes) (tr : ℕ) (pol : RememberMePolicy) (now : ℕ)
    (n : Pending)
    → new_pending t i r tr pol now ≡ ok n
    → (n ≡ record zero_pending {
      version = codec_version;
      tenant = t;
      remember = n.remember;
      return_to = r;
      transport = tr;
      expires_at = now + pending_ttl;
    })
      × (transport_valid tr ≡ true)
unfolding new_pending
new_pending-eq-ok t i r tr pol now n e = (ground arith, ground arith)

-- An empty Pending is well formed.
pub empty-IsPending :
    (p : Pending)
    → p.version ≡ codec_version
    → transport_valid p.transport ≡ true
    → p.verified ≡ []
    → (p.subject.user ≢ uuid_nil → p.subject.tenant ≡ p.tenant)
    → IsPending p
unfolding credential_uses verified_uses
empty-IsPending p ver tr e home = record {
  versioned = ver;
  transported = tr;
  homed = home;
  entries = rw e tt;
  distinct = rw e (λ id h. refl);
}

pub new_pending-IsPending :
    (t : Bytes) (i : RememberIntent) (r : Bytes) (tr : ℕ) (pol : RememberMePolicy) (now : ℕ)
    (n : Pending)
    → new_pending t i r tr pol now ≡ ok n
    → IsPending n
new_pending-IsPending t i r tr pol now n e =
    let (built, valid) = new_pending-eq-ok t i r tr pol now n e in
    rw built (empty-IsPending _ refl valid refl (λ h. absurd (h refl)))

-- ===== src/Core/Sealed/Attrs.antt =====
-- A sealed session is read back as it was.
use egauth.Base.{
  ℕ, ◌^◌, ◌<◌, ◌≤◌, ◌≡◌, refl, ap, sym, ◌∙◌, true, List, [], ◌∷◌, ◌++◌, some, length, length-append,
  arith, All,
}
use mathlib.Core.List.{append_assoc, append-nil}
use egauth.Core.Factor.{code, valid}
use egauth.Core.Factor.Order.{IsAscending}
use egauth.Core.Pending.{CredentialUse, codec_version}
use egauth.Core.Attrs.{SessionAttrs}
use egauth.Core.Codec.{
  ◌>>=◌, append_uvarint, put_bytes, put_u64, put_bool, put_uuid, put_time, put_subject, put_factors,
  tenant_ok,
}
use egauth.Core.Codec.Reads.{
  Reads, Fits, Fits-append, get_bytes-Reads, get_count-Reads, get_u64-Reads, get_uuid-Reads,
  get_bool-Reads, get_time-Reads, get_transport-Reads, get_subject-Reads,
}
use egauth.Core.Codec.Factors.{AllValid, get_factor-Reads, get_factors-Reads, pos-put_bytes}
use egauth.Core.Codec.Fields.{
  Times, put_each_use, put_uses, get_each_use, get_uses, put_attrs, get_attrs,
}

abbrev pub UsesValid : List CredentialUse → Type 0
UsesValid us = All (λ u. valid u.factor ≡ true) us

get_each_use-Reads :
    (us out : List CredentialUse)
    → UsesValid us
    → Fits (put_each_use us)
    → Reads (get_each_use (length us) out) (put_each_use us) (out ++ us)
unfolding get_each_use put_each_use
get_each_use-Reads [] out v h rest = rw append-nil refl
get_each_use-Reads (u ∷ us) out v h rest =
    let (h1, h2) = Fits-append (put_bytes (code u.factor)) (put_bytes u.id ++ put_each_use us) h in
    let (h3, h4) = Fits-append (put_bytes u.id) (put_each_use us) h2 in
    rw
      (
        append_assoc (put_bytes (code u.factor)) (put_bytes u.id ++ put_each_use us) rest,
        append_assoc (put_bytes u.id) (put_each_use us) rest,
        get_factor-Reads u.factor v.0 h1 (put_bytes u.id ++ (put_each_use us ++ rest)),
        get_each_use,
        get_bytes-Reads u.id h3 (put_each_use us ++ rest),
      )
      (get_each_use-Reads us (out ++ (u ∷ [])) v.1 h4 rest
        ∙ ap (λ (l : List CredentialUse). some (l, rest)) (append_assoc out (u ∷ []) us))

length-put_each_use : (us : List CredentialUse) → length us ≤ length (put_each_use us)
unfolding put_each_use
length-put_each_use [] = omega arith
length-put_each_use (u ∷ us) = omega (
  arith,
  length-append (put_bytes (code u.factor)) (put_bytes u.id ++ put_each_use us),
  length-append (put_bytes u.id) (put_each_use us),
  pos-put_bytes (code u.factor),
  length-put_each_use us,
)

get_uses-Reads :
    (us : List CredentialUse) → UsesValid us → Fits (put_uses us) → Reads get_uses (put_uses us) us
unfolding get_uses put_uses
get_uses-Reads us v h rest =
    let h2 = (Fits-append (append_uvarint (length us)) (put_each_use us) h).1 in
    rw
      (
        append_assoc (append_uvarint (length us)) (put_each_use us) rest,
        get_count-Reads (length us) (put_each_use us) (length-put_each_use us) h2 rest,
        ◌>>=◌,
      )
      (get_each_use-Reads us [] v h2 rest)

-- The bounds that the field's types set, and what the transitions keep of the factors.
pub record IsSealable (a : SessionAttrs) : Type 0 where
  pub versioned : a.version ≡ codec_version
  pub lineage : a.lineage < 2 ^ 128
  pub user : a.subject.user < 2 ^ 128
  pub tenant : tenant_ok a.subject.tenant ≡ true
  pub epoch : a.epoch < 2 ^ 64
  pub known : AllValid a.factors
  pub ordered : IsAscending a.factors
  pub uses : UsesValid a.credential_ids

-- The four instants were encoded.
pub record IsTimes (a : SessionAttrs) (t : Times) : Type 0 where
  pub primary : put_time a.primary_at ≡ some t.primary
  pub second : put_time a.second_at ≡ some t.second
  pub created : put_time a.created_at ≡ some t.created
  pub fetched : put_time a.claims_fetched_at ≡ some t.fetched

pub get_attrs-Reads :
    (a : SessionAttrs) (t : Times)
    → IsSealable a
    → IsTimes a t
    → Fits (put_attrs a t)
    → Reads get_attrs (put_attrs a t) a
unfolding get_attrs put_attrs
get_attrs-Reads a t s w f rest =
    let (f1, g1) = Fits-append (put_uuid a.lineage) _ f in
    let (f2, g2) = Fits-append (put_subject a.subject.tenant a.subject.user) _ g1 in
    let (f3, g3) = Fits-append (put_factors a.factors) _ g2 in
    let (f4, g4) = Fits-append (put_uses a.credential_ids) _ g3 in
    let (f5, g5) = Fits-append t.primary _ g4 in
    let (f6, g6) = Fits-append t.second _ g5 in
    let (f7, g7) = Fits-append (put_u64 a.epoch) _ g6 in
    let (f8, g8) = Fits-append (put_bool a.must_change) _ g7 in
    let (f9, g9) = Fits-append (put_bool a.remember) _ g8 in
    let (f10, g10) = Fits-append (put_bytes a.return_to) _ g9 in
    let (f11, g11) = Fits-append (put_bytes (a.transport ∷ [])) _ g10 in
    let (f12, g12) = Fits-append (put_bytes a.provider) _ g11 in
    let (f13, f14) = Fits-append t.created t.fetched g12 in
    simp
      (
        append_assoc,
        ◌>>=◌,
        get_uuid-Reads a.lineage s.lineage f1,
        get_subject-Reads a.subject s.tenant s.user f2,
        get_factors-Reads a.factors s.known s.ordered f3,
        get_uses-Reads a.credential_ids s.uses f4,
        get_time-Reads a.primary_at t.primary w.primary f5,
        get_time-Reads a.second_at t.second w.second f6,
        get_u64-Reads a.epoch s.epoch f7,
        get_bool-Reads a.must_change f8,
        get_bool-Reads a.remember f9,
        get_bytes-Reads a.return_to f10,
        get_transport-Reads a.transport f11,
        get_bytes-Reads a.provider f12,
        get_time-Reads a.created_at t.created w.created f13,
        get_time-Reads a.claims_fetched_at t.fetched w.fetched f14,
      )
      (ap (λ (v : ℕ). some (record a { version = v }, rest)) (sym s.versioned))

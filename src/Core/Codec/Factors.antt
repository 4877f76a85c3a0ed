-- ===== src/Core/Codec/Factors.antt =====
-- Factor lists and credential uses are read back.
use egauth.Base.{
  ◌≤◌, ◌≡◌, refl, ap, ◌∙◌, true, false, List, [], ◌∷◌, ◌++◌, Bytes, some, length, length-append,
  bytes_discrete, arith, Bool-cases, inl, inr, ltb, All,
}
use mathlib.Core.List.{append_assoc, append-nil}
use egauth.Core.Factor.{Factor, unset, code, valid, factor_table, factor_by_code, find_code}
use egauth.Core.Factor.Order.{IsAscending}
use egauth.Core.Codec.{
  ◌>>=◌, append_uvarint, uvarint_rounds, put_bytes, put_codes, put_factors, known, get_factor,
  breaks_order, get_factors_from, get_factors,
}
use egauth.Core.Codec.Reads.{Reads, Fits, Fits-append, get_bytes-Reads, get_count-Reads}

abbrev pub AllValid : List Factor → Type 0
AllValid fs = All (λ f. valid f ≡ true) fs

factor_by_code-code : (f : Factor) → valid f ≡ true → factor_by_code (code f) ≡ some f
unfolding factor_by_code find_code code valid factor_table bytes_discrete
factor_by_code-code unset h = cc
factor_by_code-code _ h = refl

pub get_factor-Reads :
    (f : Factor)
    → valid f ≡ true
    → Fits (put_bytes (code f))
    → Reads get_factor (put_bytes (code f)) f
unfolding get_factor known
get_factor-Reads f v h rest =
    rw (get_bytes-Reads (code f) h rest, ◌>>=◌) (rw (factor_by_code-code f v, known) refl)

breaks_order-ascending :
    (out : List Factor) (f : Factor) (fs : List Factor)
    → IsAscending (out ++ (f ∷ fs))
    → breaks_order out f ≡ false
unfolding breaks_order
breaks_order-ascending [] f fs a = refl
breaks_order-ascending (x ∷ []) f fs a = a.0
breaks_order-ascending (x ∷ y ∷ ys) f fs a = breaks_order-ascending (y ∷ ys) f fs a.1

get_factors_from-Reads :
    (fs out : List Factor)
    → AllValid fs
    → IsAscending (out ++ fs)
    → Fits (put_codes fs)
    → Reads (get_factors_from (length fs) out) (put_codes fs) (out ++ fs)
unfolding get_factors_from put_codes
get_factors_from-Reads [] out v a h rest = rw append-nil refl
get_factors_from-Reads (f ∷ fs) out v a h rest =
    let (h1, h2) = Fits-append (put_bytes (code f)) (put_codes fs) h in
    rw
      (
        append_assoc (put_bytes (code f)) (put_codes fs) rest,
        get_factor-Reads f v.0 h1 (put_codes fs ++ rest),
        get_factors_from,
        breaks_order-ascending out f fs a,
      )
      (get_factors_from-Reads fs (out ++ (f ∷ [])) v.1 (rw append_assoc a) h2 rest
        ∙ ap (λ (l : List Factor). some (l, rest)) (append_assoc out (f ∷ []) fs))

pub pos-put_bytes : (p : Bytes) → 1 ≤ length (put_bytes p)
unfolding put_bytes append_uvarint uvarint_rounds
pos-put_bytes p = elim (Bool-cases (ltb (length p) 128)) [
  | inl e ↦ rw e (omega arith)
  | inr e ↦ rw e (omega arith)
]

length-put_codes : (fs : List Factor) → length fs ≤ length (put_codes fs)
unfolding put_codes
length-put_codes [] = omega arith
length-put_codes (f ∷ fs) = omega (
  arith,
  length-append (put_bytes (code f)) (put_codes fs),
  pos-put_bytes (code f),
  length-put_codes fs,
)

pub get_factors-Reads :
    (fs : List Factor)
    → AllValid fs
    → IsAscending fs
    → Fits (put_factors fs)
    → Reads get_factors (put_factors fs) fs
unfolding get_factors put_factors
get_factors-Reads fs v a h rest =
    let h2 = (Fits-append (append_uvarint (length fs)) (put_codes fs) h).1 in
    rw
      (
        append_assoc (append_uvarint (length fs)) (put_codes fs) rest,
        get_count-Reads (length fs) (put_codes fs) (length-put_codes fs) h2 rest,
        ◌>>=◌,
      )
      (get_factors_from-Reads fs [] v a h2 rest)

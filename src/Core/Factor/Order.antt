-- ===== src/Core/Factor/Order.antt =====
-- Unions of factor sets are strictly ordered by code.
use egauth.Base.{
  ◌≡◌, refl, false, ◌&&◌, not, List, [], ◌∷◌, ◌++◌, any-append, arith, eqb, ◌∙◌, Bool-cases, inl,
  inr,
}
use egauth.Core.Factor.{
  Factor, unset, password, email_link, email_code, sms_code, federated, external, passkey,
  user_verification, totp, recovery_code, passkey_step_up, code, code_le, leb_bytes,
  factor_discrete, insert_factor, sort_factors, contains, add_new, union_factors,
}
use egauth.Core.Factor.Sets.{any-sort_factors}

-- The code of each factor is below that of the next.
abbrev pub IsAscending : List Factor → Type 0
IsAscending [] = Unit
IsAscending (x ∷ []) = Unit
IsAscending (x ∷ y ∷ ys) = (code_le y x ≡ false) × IsAscending (y ∷ ys)

antisymmetric :
    (f g : Factor) → (code_le f g && code_le g f && not (eqb factor_discrete f g)) ≡ false
unfolding code_le leb_bytes code factor_discrete
antisymmetric unset unset = refl
antisymmetric unset _ = refl
antisymmetric password unset = refl
antisymmetric password _ = refl
antisymmetric email_link unset = refl
antisymmetric email_link _ = refl
antisymmetric email_code unset = refl
antisymmetric email_code _ = refl
antisymmetric sms_code unset = refl
antisymmetric sms_code _ = refl
antisymmetric federated unset = refl
antisymmetric federated _ = refl
antisymmetric external unset = refl
antisymmetric external _ = refl
antisymmetric passkey unset = refl
antisymmetric passkey _ = refl
antisymmetric user_verification unset = refl
antisymmetric user_verification _ = refl
antisymmetric totp unset = refl
antisymmetric totp _ = refl
antisymmetric recovery_code unset = refl
antisymmetric recovery_code _ = refl
antisymmetric passkey_step_up unset = refl
antisymmetric passkey_step_up _ = refl

contains-sort_factors :
    (fs : List Factor) (f : Factor) → contains (sort_factors fs) f ≡ contains fs f
unfolding contains
contains-sort_factors fs f = any-sort_factors _ fs

abbrev IsDistinct : List Factor → Type 0
IsDistinct [] = Unit
IsDistinct (x ∷ xs) = (contains xs x ≡ false) × IsDistinct xs

IsDistinct-append :
    (xs : List Factor) (f : Factor)
    → IsDistinct xs
    → contains xs f ≡ false
    → IsDistinct (xs ++ (f ∷ []))
unfolding contains
IsDistinct-append [] f d h = (refl, tt)
IsDistinct-append (x ∷ xs) f d h = (
  ground (arith, any-append (λ g. eqb factor_discrete g x) xs (f ∷ [])),
  IsDistinct-append xs f d.1 (ground arith),
)

add_new-IsDistinct : (out fs : List Factor) → IsDistinct out → IsDistinct (add_new out fs)
unfolding add_new
add_new-IsDistinct out [] d = d
add_new-IsDistinct out (f ∷ fs) d = elim (Bool-cases (contains out f)) [
  | inl e ↦ rw e (add_new-IsDistinct out fs d)
  | inr e ↦ rw e (add_new-IsDistinct (out ++ (f ∷ [])) fs (IsDistinct-append out f d e))
]

abbrev Above : Factor → List Factor → Type 0
Above g [] = Unit
Above g (k ∷ ks) = code_le k g ≡ false

cons-IsAscending :
    (g : Factor) (ks : List Factor) → Above g ks → IsAscending ks → IsAscending (g ∷ ks)
cons-IsAscending g [] h a = tt
cons-IsAscending g (k ∷ ks) h a = (h, a)

Above-tail : (g : Factor) (ks : List Factor) → IsAscending (g ∷ ks) → Above g ks × IsAscending ks
Above-tail g [] a = (tt, tt)
Above-tail g (k ∷ ks) a = (a.0, a.1)

Above-insert_factor :
    (g f : Factor) (gs : List Factor)
    → Above g gs
    → code_le f g ≡ false
    → Above g (insert_factor f gs)
unfolding insert_factor
Above-insert_factor g f [] h e = e
Above-insert_factor g f (k ∷ gs) h e = ground arith

insert_factor-IsAscending :
    (f : Factor) (gs : List Factor)
    → contains gs f ≡ false
    → IsAscending gs
    → IsAscending (insert_factor f gs)
unfolding insert_factor contains
insert_factor-IsAscending f [] h a = tt
insert_factor-IsAscending f (g ∷ gs) h a =
    let (above, rest) = Above-tail g gs a in
    elim (Bool-cases (code_le f g)) [
      | inl e ↦ rw e (ground (arith, antisymmetric f g), a)
      | inr e ↦ rw e (
          cons-IsAscending g (insert_factor f gs) (Above-insert_factor g f gs above e)
            (insert_factor-IsAscending f gs (ground arith) rest))
    ]

sort_factors-IsAscending : (fs : List Factor) → IsDistinct fs → IsAscending (sort_factors fs)
unfolding sort_factors
sort_factors-IsAscending [] d = tt
sort_factors-IsAscending (f ∷ fs) d =
    insert_factor-IsAscending f (sort_factors fs) (contains-sort_factors fs f ∙ d.0)
      (sort_factors-IsAscending fs d.1)

-- The union of any two lists of factors is strictly ordered by code.
pub union_factors-IsAscending : (a b : List Factor) → IsAscending (union_factors a b)
unfolding union_factors
union_factors-IsAscending a b =
    sort_factors-IsAscending (add_new [] (a ++ b)) (add_new-IsDistinct [] (a ++ b) tt)

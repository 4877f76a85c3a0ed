-- ===== src/Core/Factor.antt =====
-- internal/core/factor.go: the closed set of factors, their roles, and factor sets ordered by code.
-- `unset` is the zero Factor. A map lookup by code is a function by clauses.
pub mod Sets
pub mod Order
use egauth.Base.{
  Bool, true, false, ◌&&◌, ◌||◌, List, [], ◌∷◌, ◌++◌, Option, none, some, Bytes, codes, any,
  if◌then◌else◌, eqb, ltb, ◌==◌, bytes_discrete, ◌≡◌,
}

pub data FactorRole : Type 0 where
  no_role role_primary role_second role_qualifier : FactorRole

unfoldable pub role_discrete : Discrete FactorRole
role_discrete = hlevel

pub data Factor : Type 0 where
  unset password email_link email_code sms_code federated external passkey : Factor
  user_verification totp recovery_code passkey_step_up : Factor

unfoldable pub factor_discrete : Discrete Factor
factor_discrete = hlevel

-- The persisted identifier.
unfoldable pub code : Factor → Bytes
code unset = []
code password = codes "pwd"
code email_link = codes "email_link"
code email_code = codes "email_code"
code sms_code = codes "sms_code"
code federated = codes "fed"
code external = codes "ext"
code passkey = codes "pk"
code user_verification = codes "uv"
code totp = codes "totp"
code recovery_code = codes "rc"
code passkey_step_up = codes "pk_stepup"

-- The role and the AMR value of a factor, `none` for a code that the table lacks.
unfoldable pub factor_table : Factor → Option (FactorRole × Bytes)
factor_table unset = none
factor_table password = some (role_primary, codes "pwd")
factor_table email_link = some (role_primary, codes "email")
factor_table email_code = some (role_primary, codes "otp")
factor_table sms_code = some (role_primary, codes "sms")
factor_table federated = some (role_primary, codes "fed")
factor_table external = some (role_primary, codes "ext")
factor_table passkey = some (role_primary, codes "hwk")
factor_table user_verification = some (role_qualifier, codes "user")
factor_table totp = some (role_second, codes "otp")
factor_table recovery_code = some (role_second, codes "rc")
factor_table passkey_step_up = some (role_second, codes "hwk")

unfoldable pub valid : Factor → Bool
unfolding factor_table
valid f = elim (factor_table f) [ none ↦ false | some _ ↦ true ]

unfoldable pub role : Factor → FactorRole
unfolding factor_table
role f = elim (factor_table f) [ none ↦ no_role | some (r, _) ↦ r ]

unfoldable pub amr : Factor → Bytes
unfolding factor_table
amr f = elim (factor_table f) [ none ↦ [] | some (_, a) ↦ a ]

abbrev pub known_factors : List Factor
known_factors =
    email_code ∷ email_link ∷ external ∷ federated ∷ passkey ∷ passkey_step_up ∷ password
    ∷ recovery_code ∷ sms_code ∷ totp ∷ user_verification ∷ []

-- The search of the table for a code.
unfoldable pub find_code : Bytes → List Factor → Option Factor
find_code c [] = none
find_code c (f ∷ fs) = if eqb bytes_discrete (code f) c then some f else find_code c fs

unfoldable pub factor_by_code : Bytes → Option Factor
factor_by_code c = find_code c known_factors

-- `strings.Compare(a, b) <= 0`.
unfoldable pub leb_bytes : Bytes → Bytes → Bool
leb_bytes [] ys = true
leb_bytes (x ∷ xs) [] = false
leb_bytes (x ∷ xs) (y ∷ ys) = if x == y then leb_bytes xs ys else ltb x y

-- The order of `sortFactors`.
unfoldable pub code_le : Factor → Factor → Bool
unfolding leb_bytes code
code_le f g = leb_bytes (code f) (code g)

unfoldable pub insert_factor : Factor → List Factor → List Factor
insert_factor f [] = f ∷ []
insert_factor f (g ∷ gs) = if code_le f g then f ∷ g ∷ gs else g ∷ insert_factor f gs

unfoldable pub sort_factors : List Factor → List Factor
sort_factors [] = []
sort_factors (f ∷ fs) = insert_factor f (sort_factors fs)

-- `slices.Contains` on factors.
unfoldable pub contains : List Factor → Factor → Bool
contains fs f = any (λ g. eqb factor_discrete g f) fs

-- The loop that appends each factor which is not there yet.
unfoldable pub add_new : List Factor → List Factor → List Factor
add_new out [] = out
add_new out (f ∷ fs) = add_new (if contains out f then out else out ++ (f ∷ [])) fs

unfoldable pub union_factors : List Factor → List Factor → List Factor
union_factors a b = sort_factors (add_new [] (a ++ b))

unfoldable pub has_role : List Factor → FactorRole → Bool
has_role fs r = any (λ f. eqb role_discrete (role f) r) fs

unfoldable pub multi_factor : List Factor → Bool
multi_factor fs =
    if has_role fs role_primary && has_role fs role_second
    then true
    else contains fs passkey && contains fs user_verification

-- The loop of `amrOf`: each value once, the empty one never.
unfoldable pub amr_values : List Bytes → List Factor → List Bytes
amr_values out [] = out
amr_values out (f ∷ fs) =
    amr_values
      (if eqb bytes_discrete (amr f) [] || any (λ v. eqb bytes_discrete v (amr f)) out
        then out
        else out ++ (amr f ∷ []))
      fs

unfoldable pub amr_of : List Factor → List Bytes
amr_of fs = if multi_factor fs then amr_values [] fs ++ (codes "mfa" ∷ []) else amr_values [] fs

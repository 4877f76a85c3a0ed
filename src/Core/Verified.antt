-- ===== src/Core/Verified.antt =====
-- internal/core/pending.go: `Verified`, the result of one verification, and its shape rules.
pub mod Shape
use egauth.Base.{
  ℕ, ◌+◌, Bool, true, false, not, ◌&&◌, ◌||◌, List, [], ◌∷◌, ◌++◌, Bytes, is_empty, if◌then◌else◌,
  ◌==◌, Result, ok, err, ◌>>◌, ◌>>=◌, refuse_if, Option, none, some,
}
use egauth.Core.Factor.{
  Factor, FactorRole, no_role, role_primary, role_second, role_qualifier, role, valid, contains,
  sort_factors, passkey, passkey_step_up, federated, external,
}
use egauth.Core.Policy.{Error, invalid_verified, Subject, subject_is_zero, zero_time, canon_time}

pub record Verified : Type 0 where
  pub subject : Subject
  pub factors : List Factor
  pub credential_id : Bytes
  pub identifies : Bool
  pub provider : Bytes
  pub at : ℕ

-- The fields of `VerifiedSpec`.
pub record VerifiedSpec : Type 0 where
  pub subject : Subject
  pub factors : List Factor
  pub credential_id : Bytes
  pub identifies : Bool
  pub provider : Bytes
  pub at : ℕ

pub data ShapeError : Type 0 where
  no_factor bad_factor second_identifies bad_combination credential_mismatch : ShapeError
  shape_provider_mismatch : ShapeError

pub record Counts : Type 0 where
  pub primary : ℕ
  pub seconds : ℕ
  pub uv : ℕ

abbrev pub no_counts : Counts
no_counts = record { primary = 0; seconds = 0; uv = 0 }

unfoldable pub tally : FactorRole → Counts → Counts
tally role_primary c = record c { primary = c.primary + 1 }
tally role_second c = record c { seconds = c.seconds + 1 }
tally role_qualifier c = record c { uv = c.uv + 1 }
tally no_role c = c

-- The loop over the factors; `seen` is `fs[:i]`. `none` for an invalid or repeated factor.
unfoldable pub count_roles : List Factor → Counts → List Factor → Option Counts
count_roles seen c [] = some c
count_roles seen c (f ∷ fs) =
    if not (valid f) || contains seen f
    then none
    else count_roles (seen ++ (f ∷ [])) (tally (role f) c) fs

abbrev pub bool_eq : Bool → Bool → Bool
bool_eq true b = b
bool_eq false b = not b

-- The switch over the counts.
unfoldable pub check_combination : Counts → Bool → Bool → Result ShapeError (Unit {0})
check_combination c has_pk identifies =
    if c.seconds == 1 && c.primary == 0 && c.uv == 0
    then refuse_if identifies second_identifies
    else (if c.primary == 1 && c.seconds == 0 && bool_eq (c.uv == 1) has_pk
        then ok tt
        else err bad_combination)

unfoldable pub check_verified_shape :
    List Factor → Bytes → Bool → Bytes → Result ShapeError (Unit {0})
check_verified_shape fs credential_id identifies provider = do
  refuse_if (is_empty fs) no_factor
  c ← (elim (count_roles [] no_counts fs) [ none ↦ err bad_factor | some c ↦ ok c ])
  check_combination c (contains fs passkey) identifies
  refuse_if
      (not (
        bool_eq (contains fs passkey || contains fs passkey_step_up)
          (not (is_empty credential_id))))
      credential_mismatch
  refuse_if
      (not (bool_eq (contains fs federated || contains fs external) (not (is_empty provider))))
      shape_provider_mismatch

-- The value that `NewVerified` builds.
unfoldable pub verified_of : VerifiedSpec → Verified
verified_of s = record {
  subject = s.subject;
  factors = sort_factors s.factors;
  credential_id = s.credential_id;
  identifies = s.identifies;
  provider = s.provider;
  at = canon_time s.at;
}

unfoldable pub new_verified : VerifiedSpec → Result Error Verified
new_verified s = do
  refuse_if (subject_is_zero s.subject || s.at == zero_time) invalid_verified
  elim (check_verified_shape s.factors s.credential_id s.identifies s.provider) [
    | err _ ↦ err invalid_verified
    | ok _ ↦ ok (verified_of s)
  ]

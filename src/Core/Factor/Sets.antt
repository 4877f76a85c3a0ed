-- ===== src/Core/Factor/Sets.antt =====
-- Unions of factor sets: what they hold, and that they are ordered by code.
use egauth.Base.{◌≡◌, refl, Bool, true, ◌||◌, List, [], ◌∷◌, ◌++◌, any, any-append, arith, ◌∙◌}
use egauth.Core.Factor.{
  Factor, FactorRole, insert_factor, sort_factors, contains, add_new, union_factors, has_role,
}

module _ (p : Factor → Bool) where
  any-insert_factor :
      (f : Factor) (gs : List Factor) → any p (insert_factor f gs) ≡ (p f || any p gs)
  unfolding insert_factor
  any-insert_factor f [] = refl
  any-insert_factor f (g ∷ gs) = ground (arith, any-insert_factor f gs)

  pub any-sort_factors : (fs : List Factor) → any p (sort_factors fs) ≡ any p fs
  unfolding sort_factors
  any-sort_factors [] = refl
  any-sort_factors (f ∷ fs) =
      ground (arith, any-insert_factor f (sort_factors fs), any-sort_factors fs)

  -- A factor that a list holds passes a test only if one of the list does.
  any_of_contains :
      (f : Factor) (fs : List Factor) → contains fs f ≡ true → (p f || any p fs) ≡ any p fs
  unfolding contains
  any_of_contains f [] h = ground arith
  any_of_contains f (g ∷ gs) h = ground (arith, any_of_contains f gs)

  any-add_new : (out fs : List Factor) → any p (add_new out fs) ≡ (any p out || any p fs)
  unfolding add_new
  any-add_new out [] = ground arith
  any-add_new out (f ∷ fs) = ground (
    arith,
    any-add_new out fs,
    any-add_new (out ++ (f ∷ [])) fs,
    any_of_contains f out,
    any-append p out (f ∷ []),
  )

  -- A test passes on a union exactly if it passes on one of the two.
  pub any-union_factors : (a b : List Factor) → any p (union_factors a b) ≡ (any p a || any p b)
  unfolding union_factors
  any-union_factors a b =
      any-sort_factors (add_new [] (a ++ b)) ∙ any-add_new [] (a ++ b) ∙ any-append p a b

-- A union has a factor of a role exactly if one of the two lists has one.
pub has_role-union_factors :
    (a b : List Factor) (r : FactorRole)
    → has_role (union_factors a b) r ≡ (has_role a r || has_role b r)
unfolding has_role
has_role-union_factors a b r = any-union_factors _ a b

pub contains-union_factors :
    (a b : List Factor) (f : Factor)
    → contains (union_factors a b) f ≡ (contains a f || contains b f)
unfolding contains
contains-union_factors a b f = any-union_factors _ a b

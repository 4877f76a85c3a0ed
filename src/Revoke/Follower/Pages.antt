-- ===== src/Revoke/Follower/Pages.antt =====
-- The log of a change feed and the pages of it.
use mathlib.Core.Path.{subst}
use egauth.Base.{
  ℕ, zero, suc, ◌+◌, ◌≤◌, ◌≡◌, refl, sym, ◌∙◌, true, false, ◌||◌, List, [], ◌∷◌, ◌++◌, eqb, take,
  drop, length, any-append, arith,
}
use egauth.Base.Maps.{has_key}

module _ {K : Type 0} (dec : Discrete K) where
  pub drop-snoc :
      (c : ℕ) (xs : List K) (k j : K)
      → c ≤ length xs
      → has_key dec (drop c (xs ++ (k ∷ []))) j ≡ (has_key dec (drop c xs) j || eqb dec k j)
  drop-snoc zero xs k j b = any-append (λ x. eqb dec x j) xs (k ∷ []) ∙ ground arith
  drop-snoc (suc c) [] k j b = absurd (omega (arith, b))
  drop-snoc (suc c) (x ∷ xs) k j b = drop-snoc c xs k j (omega (arith, b))

  has_key-take-drop :
      (n : ℕ) (xs : List K) (k : K)
      → has_key dec xs k ≡ (has_key dec (take n xs) k || has_key dec (drop n xs) k)
  has_key-take-drop zero xs k = refl
  has_key-take-drop (suc n) [] k = refl
  has_key-take-drop (suc n) (x ∷ xs) k = ground (arith, has_key-take-drop n xs k)

  -- What a page leaves out stands after it.
  pub page-drop :
      (c d next : ℕ) (xs : List K) (k : K)
      → next ≡ c + d
      → has_key dec (drop c xs) k ≡ true
      → has_key dec (take d (drop c xs)) k ≡ false
      → has_key dec (drop next xs) k ≡ true
  page-drop zero d next xs k e i o =
      let same : next ≡ d = omega (arith, e) in
      subst (λ n. has_key dec (drop n xs) k ≡ true) (sym same)
        (ground (arith, has_key-take-drop d xs k))
  page-drop (suc c) d next [] k e i o = absurd (ground arith)
  page-drop (suc c) d zero (x ∷ xs) k e i o = absurd (omega (arith, e))
  page-drop (suc c) d (suc next) (x ∷ xs) k e i o = page-drop c d next xs k (omega (arith, e)) i o

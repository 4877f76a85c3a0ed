-- ===== src/Base/Maps.antt =====
-- A Go map as an association list over keys with a decidable equality. The order of the list stands
-- for the order of iteration, which no result may depend on.
use mathlib.Core.Path.{◌≡◌, refl}
use mathlib.Core.Logic.{inl, inr}
use mathlib.Core.Bool.{Bool, true, false, ◌&&◌}
use mathlib.Core.List.{List, [], ◌∷◌}
use mathlib.Core.Option.{Option, none, some}
use native.Mathlib.Omega.{arith}
use egauth.Base.Tests.{if◌then◌else◌, eqb, Option-cases}
use egauth.Base.Lists.{any}

abbrev pub Map : Type 0 → Type 0 → Type 0
Map K V = List (K × V)

module _ {K V : Type 0} (dec : Discrete K) where
  unfoldable pub get : K → Map K V → Option V
  get k [] = none
  get k ((j, v) ∷ m) = if eqb dec j k then some v else get k m

  unfoldable pub put : K → V → Map K V → Map K V
  put k v [] = (k, v) ∷ []
  put k v ((j, w) ∷ m) = if eqb dec j k then (k, v) ∷ m else (j, w) ∷ put k v m

  unfoldable pub delete : K → Map K V → Map K V
  delete k [] = []
  delete k ((j, w) ∷ m) = if eqb dec j k then delete k m else (j, w) ∷ delete k m

  -- The keys whose values pass a test, as `for k, v := range m` meets them.
  unfoldable pub keys_where : (V → Bool) → Map K V → List K → List K
  keys_where p m [] = []
  keys_where p m (k ∷ ks) =
      if (elim (get k m) [ none ↦ false | some v ↦ p v ])
      then k ∷ keys_where p m ks
      else keys_where p m ks

  pub get-put :
      (k j : K) (v : V) (m : Map K V)
      → get j (put k v m) ≡ (if eqb dec k j then some v else get j m)
  unfolding get put
  get-put k j v [] = refl
  get-put k j v ((i, w) ∷ m) = ground (arith, get-put k j v m)

  pub get-delete :
      (k j : K) (m : Map K V) → get j (delete k m) ≡ (if eqb dec k j then none else get j m)
  unfolding get delete
  get-delete k j [] = ground arith
  get-delete k j ((i, w) ∷ m) = ground (arith, get-delete k j m)

unfoldable pub keys : {K V : Type 0} → Map K V → List K
keys [] = []
keys ((k, v) ∷ m) = k ∷ keys m

abbrev pub has_key : {K : Type 0} → Discrete K → List K → K → Bool
has_key dec ks k = any (λ j. eqb dec j k) ks

module _ {K V : Type 0} (dec : Discrete K) where
  -- Whether the value of a key, if there is one, passes a test.
  abbrev pub holds : (V → Bool) → Map K V → K → Bool
  holds p m k = elim (get dec k m) [ none ↦ false | some v ↦ p v ]

  has_key-keys_where :
      (p : V → Bool) (m : Map K V) (ks : List K) (k : K)
      → has_key dec (keys_where dec p m ks) k ≡ (has_key dec ks k && holds p m k)
  unfolding keys_where
  has_key-keys_where p m [] k = refl
  has_key-keys_where p m (j ∷ ks) k = ground (arith, has_key-keys_where p m ks k)

  pub has_key-keys :
      (m : Map K V) (k : K) (v : V) → get dec k m ≡ some v → has_key dec (keys m) k ≡ true
  unfolding get keys
  has_key-keys [] k v e = ground arith
  has_key-keys ((j, w) ∷ m) k v e = ground (arith, has_key-keys m k v)

  -- The keys found are those whose value passes the test.
  pub has_key-matching :
      (p : V → Bool) (m : Map K V) (k : K)
      → has_key dec (keys_where dec p m (keys m)) k ≡ holds p m k
  has_key-matching p m k = elim (Option-cases (get dec k m)) [
    | inl e ↦ ground (arith, has_key-keys_where p m (keys m) k)
    | inr (v, e) ↦ ground (arith, has_key-keys_where p m (keys m) k, has_key-keys m k v)
  ]

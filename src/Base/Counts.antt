-- ===== src/Base/Counts.antt =====
-- Maps whose keys are distinct, and the number of their entries that pass a test.
use Prim.Native.Nat.{ℕ, ◌+◌, ◌≤◌}
use mathlib.Core.Path.{◌≡◌, refl}
use mathlib.Core.Bool.{Bool, true, false, ◌&&◌}
use mathlib.Core.List.{[], ◌∷◌}
use mathlib.Core.Option.{Option, none, some}
use native.Mathlib.Omega.{arith}
use egauth.Base.Tests.{if◌then◌else◌}
use egauth.Base.Maps.{Map, get, put, delete, get-put, get-delete}

abbrev pub absent : {V : Type 0} → Option V → Bool
absent none = true
absent (some v) = false

module _ {K V : Type 0} where
  unfoldable pub count_where : (K → V → Bool) → Map K V → ℕ
  count_where p [] = 0
  count_where p ((k, v) ∷ m) = let n = count_where p m in if p k v then n + 1 else n

  pub count_where_mono :
      (p q : K → V → Bool) (m : Map K V)
      → ((k : K) (v : V) → p k v ≡ true → q k v ≡ true)
      → count_where p m ≤ count_where q m
  unfolding count_where
  count_where_mono p q [] f = omega arith
  count_where_mono p q ((k, v) ∷ m) f = ground (arith, count_where_mono p q m f, f k v)

module _ {K V : Type 0} (dec : Discrete K) where
  unfoldable pub is_distinct : Map K V → Bool
  is_distinct [] = true
  is_distinct ((k, v) ∷ m) = absent (get dec k m) && is_distinct m

  pub is_distinct-put :
      (k : K) (v : V) (m : Map K V) → is_distinct m ≡ true → is_distinct (put dec k v m) ≡ true
  unfolding is_distinct put get
  is_distinct-put k v [] d = refl
  is_distinct-put k v ((j, w) ∷ m) d = elim (dec j k) [
    | yes same ↦ ground arith
    | no other ↦ ground (arith, is_distinct-put k v m, get-put dec k j v m)
  ]

  pub is_distinct-delete :
      (k : K) (m : Map K V) → is_distinct m ≡ true → is_distinct (delete dec k m) ≡ true
  unfolding is_distinct delete
  is_distinct-delete k [] d = refl
  is_distinct-delete k ((j, w) ∷ m) d = ground (arith, is_distinct-delete k m, get-delete dec k j m)

  -- A new key adds one if its entry passes.
  pub count_where-put :
      (p : K → V → Bool) (k : K) (v : V) (m : Map K V)
      → get dec k m ≡ none
      → count_where p (put dec k v m) ≡ (if p k v then count_where p m + 1 else count_where p m)
  unfolding get put count_where
  count_where-put p k v [] e = refl
  count_where-put p k v ((j, w) ∷ m) e = ground (arith, count_where-put p k v m)

  -- Another value that passes as the old one did changes nothing.
  pub count_where-replaced :
      (p : K → V → Bool) (k : K) (v w : V) (m : Map K V)
      → get dec k m ≡ some w
      → p k v ≡ p k w
      → count_where p (put dec k v m) ≡ count_where p m
  unfolding get put count_where
  count_where-replaced p k v w [] e f = absurd (ground arith)
  count_where-replaced p k v w ((j, x) ∷ m) e f = elim (dec j k) [
    | yes same ↦ ground arith
    | no other ↦ ground (arith, count_where-replaced p k v w m)
  ]

  count_where-delete_absent :
      (p : K → V → Bool) (k : K) (m : Map K V)
      → get dec k m ≡ none
      → count_where p (delete dec k m) ≡ count_where p m
  unfolding get delete count_where
  count_where-delete_absent p k [] e = refl
  count_where-delete_absent p k ((j, x) ∷ m) e = ground (arith, count_where-delete_absent p k m)

  pub count_where-delete :
      (p : K → V → Bool) (k : K) (v : V) (m : Map K V)
      → is_distinct m ≡ true
      → get dec k m ≡ some v
      → count_where p m
        ≡ (if p k v then count_where p (delete dec k m) + 1 else count_where p (delete dec k m))
  unfolding get delete count_where is_distinct
  count_where-delete p k v [] d e = absurd (ground arith)
  count_where-delete p k v ((j, x) ∷ m) d e = elim (dec j k) [
    | yes same ↦ ground (arith, count_where-delete_absent p k m)
    | no other ↦ ground (arith, count_where-delete p k v m)
  ]

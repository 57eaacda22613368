-- ===== src/Common/Lists.antt =====
-- Lists measured by native numbers, and predicates by recursion on a list.
use Prim.Native.Nat.{ℕ, suc, ◌+◌}
use mathlib.Core.Path.{◌≡◌, refl, subst}
use mathlib.Core.Bool.{Bool, true, false, ◌||◌}
use mathlib.Core.Logic.{inl, inr}
use mathlib.Core.Option.{Option, none, some}
use mathlib.Core.List.{List, [], ◌∷◌, ◌++◌}
use native.Mathlib.Omega.{arith}
use hotello_backend.Common.Tests.{if◌then◌else◌, Bool-cases}

module _ {ℓ} {A : Type ℓ} where
  abbrev pub length : List A → ℕ
  length [] = 0
  length (x ∷ xs) = suc (length xs)

  -- `xs.filter(test)`
  unfoldable pub filter : (A → Bool) → List A → List A
  filter test [] = []
  filter test (x ∷ xs) = let rest = filter test xs in if test x then x ∷ rest else rest

  -- `xs.find(test)`: the first element that passes
  unfoldable pub find : (A → Bool) → List A → Option A
  find test [] = none
  find test (x ∷ xs) = if test x then some x else find test xs

  -- `xs.some(test)`
  unfoldable pub any : (A → Bool) → List A → Bool
  any test [] = false
  any test (x ∷ xs) = test x || any test xs

  -- how many elements pass
  unfoldable pub count : (A → Bool) → List A → ℕ
  count test [] = 0
  count test (x ∷ xs) = if test x then suc (count test xs) else count test xs

  pub length-filter : (test : A → Bool) (xs : List A) → length (filter test xs) ≡ count test xs
  unfolding filter count
  length-filter test [] = refl
  length-filter test (x ∷ xs) = ground (arith, length-filter test xs)

  pub length-append : (xs ys : List A) → length (xs ++ ys) ≡ length xs + length ys
  length-append [] ys = omega arith
  length-append (x ∷ xs) ys = omega (arith, length-append xs ys)

  abbrev pub All {κ} : (A → Type κ) → List A → Type κ
  All P [] = Unit
  All P (x ∷ xs) = P x × All P xs

  pub find-holds : (test : A → Bool) (xs : List A) (x : A) → find test xs ≡ some x → test x ≡ true
  unfolding find
  find-holds test [] x h = cc
  find-holds test (y ∷ xs) x h = ground (arith, find-holds test xs x)

  pub find-All {κ} :
      (P : A → Type κ) (test : A → Bool) (xs : List A) (x : A)
      → All P xs
      → find test xs ≡ some x
      → P x
  unfolding find
  find-All P test [] x a h = cc
  find-All P test (y ∷ xs) x (p, a) h = elim (Bool-cases (test y)) [
    | inl e ↦ let same : some y ≡ some x = rw (e, find) at h in subst P (cc) p
    | inr e ↦ find-All P test xs x a (rw (e, find) at h)
  ]

-- ===== src/Base/Chunks.antt =====
-- The loop that takes elements from the front of a list for as long as their number and their size
-- together fit.
use Prim.Native.Nat.{ℕ, ◌+◌, ◌≤◌}
use mathlib.Core.Path.{◌≡◌, refl, ap₂, ◌∙◌}
use mathlib.Core.Bool.{Bool, true, false}
use mathlib.Core.Logic.{inl, inr}
use mathlib.Core.List.{List, [], ◌∷◌, ◌++◌}
use native.Mathlib.Omega.{arith}
use blobs_db.Base.Tests.{if◌then◌else◌, Bool-cases}
use blobs_db.Base.Lists.{length, is_empty, all}
use blobs_db.Base.Sums.{sum}

module _ {A : Type 0} (size : A → ℕ) (fits : ℕ → ℕ → Bool) where
  -- The size and the number of those taken before are counted on: what is taken, and what is left.
  unfoldable pub take_fitting : ℕ → ℕ → List A → List A × List A
  take_fitting total n [] = ([], [])
  take_fitting total n (x ∷ xs) =
      let (taken, left) = take_fitting (total + size x) (n + 1) xs in
      if fits (total + size x) (n + 1) then (x ∷ taken, left) else ([], x ∷ xs)

  pub append-take_fitting :
      (total n : ℕ) (xs : List A) → (take_fitting total n xs).0 ++ (take_fitting total n xs).1 ≡ xs
  unfolding take_fitting
  append-take_fitting total n [] = refl
  append-take_fitting total n (x ∷ xs) =
      ground (arith, append-take_fitting (total + size x) (n + 1) xs)

  length-left : (total n : ℕ) (xs : List A) → length (take_fitting total n xs).1 ≤ length xs
  unfolding take_fitting
  length-left total n [] = omega arith
  length-left total n (x ∷ xs) = ground (arith, length-left (total + size x) (n + 1) xs)

  pub take_fitting-fits :
      (total n : ℕ) (xs : List A)
      → fits total n ≡ true
      → fits (total + sum size (take_fitting total n xs).0) (n + length (take_fitting total n xs).0)
        ≡ true
  unfolding take_fitting
  take_fitting-fits total n [] h = ap₂ fits (omega arith) (omega arith) ∙ h
  take_fitting-fits total n (x ∷ xs) h = elim (Bool-cases (fits (total + size x) (n + 1))) [
    | inl y ↦
        rw y
          (ap₂ fits (omega arith) (omega arith) ∙ take_fitting-fits (total + size x) (n + 1) xs y)
    | inr m ↦ rw m (ap₂ fits (omega arith) (omega arith) ∙ h)
  ]

  -- An element that fits by itself.
  abbrev pub fits_alone : A → Bool
  fits_alone x = fits (size x) 1

  pub all-left :
      (total n : ℕ) (xs : List A)
      → all fits_alone xs ≡ true
      → all fits_alone (take_fitting total n xs).1 ≡ true
  unfolding take_fitting
  all-left total n [] a = refl
  all-left total n (x ∷ xs) a = ground (arith, all-left (total + size x) (n + 1) xs)

  -- At least one element is taken, if it fits by itself.
  pub take_fitting-some :
      (x : A) (xs : List A)
      → fits_alone x ≡ true
      → (is_empty (take_fitting 0 0 (x ∷ xs)).0 ≡ false)
        × (length (take_fitting 0 0 (x ∷ xs)).1 ≤ length xs)
  unfolding take_fitting
  take_fitting-some x xs h =
      let first : fits (0 + size x) (0 + 1) ≡ true = ap₂ fits (omega arith) (omega arith) ∙ h in
      ground (arith, first, length-left (0 + size x) (0 + 1) xs)

-- ===== src/Base/Perms.antt =====
-- What a permutation of a list keeps: sums over it, and tests of all its elements.
use Prim.Native.Nat.{ℕ}
use mathlib.Core.Path.{◌≡◌, refl, ap, ◌∙◌}
use mathlib.Core.Bool.{Bool}
use mathlib.Core.List.{List, Perm, Permᴰ}
use mathlib.Core.Logic.{∥∥₁_elim}
use native.Mathlib.Nat.{ℕ_set}
use native.Mathlib.Omega.{arith}
use blobs_db.Base.Sums.{sum}
use blobs_db.Base.Lists.{all}

Bool-set : IsSet Bool
Bool-set = hlevel

module _ {ℓ} {A : Type ℓ} where
  sum-permᴰ : (f : A → ℕ) {xs ys : List A} → Permᴰ xs ys → sum f xs ≡ sum f ys
  sum-permᴰ f Permᴰ.nil = refl
  sum-permᴰ f (Permᴰ.cons e p) = omega (arith, ap f e, sum-permᴰ f p)
  sum-permᴰ f (Permᴰ.swap e e') = omega (arith, ap f e, ap f e')
  sum-permᴰ f (Permᴰ.trans p q) = sum-permᴰ f p ∙ sum-permᴰ f q

  pub sum-perm : (f : A → ℕ) {xs ys : List A} → Perm xs ys → sum f xs ≡ sum f ys
  sum-perm f p = ∥∥₁_elim p (ℕ_set _ _) (sum-permᴰ f)

  all-permᴰ : (f : A → Bool) {xs ys : List A} → Permᴰ xs ys → all f xs ≡ all f ys
  all-permᴰ f Permᴰ.nil = refl
  all-permᴰ f (Permᴰ.cons e p) = ground (arith, ap f e, all-permᴰ f p)
  all-permᴰ f (Permᴰ.swap e e') = ground (arith, ap f e, ap f e')
  all-permᴰ f (Permᴰ.trans p q) = all-permᴰ f p ∙ all-permᴰ f q

  pub all-perm : (f : A → Bool) {xs ys : List A} → Perm xs ys → all f xs ≡ all f ys
  all-perm f p = ∥∥₁_elim p (Bool-set _ _) (all-permᴰ f)

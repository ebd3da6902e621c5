-- ===== src/Prelude/Sort.antt =====
-- Go's `sort.SliceStable`, as insertion from the right: equal elements keep their order.
use mathlib.Core.List.{Perm}
use mathlib.Core.List.Perm
use dmq_lib.Prelude.Tests.{if◌then◌else◌, Bool-cases}
use mathlib.Core.Path.{◌≡◌}
use mathlib.Core.Logic.{inl, inr}
use mathlib.Core.Bool.{Bool, true, false}
use mathlib.Core.List.{List, [], ◌∷◌}
use native.Mathlib.Omega.{arith}

module _ {ℓ} {A : Type ℓ} (less : A → A → Bool) where
  unfoldable pub insert_sorted : A → List A → List A
  insert_sorted x [] = x ∷ []
  insert_sorted x (y ∷ ys) =
      let rest = insert_sorted x ys in if less y x then y ∷ rest else x ∷ y ∷ ys

  unfoldable pub slice_stable : List A → List A
  unfolding insert_sorted
  slice_stable [] = []
  slice_stable (x ∷ xs) = insert_sorted x (slice_stable xs)

  pub insert_sorted-perm : (x : A) (ys : List A) → Perm (insert_sorted x ys) (x ∷ ys)
  unfolding insert_sorted
  insert_sorted-perm x [] = Perm.rfl
  insert_sorted-perm x (y ∷ ys) = elim (Bool-cases (less y x)) [
    | inl e ↦ rw e (Perm.trans (Perm.cons y (insert_sorted-perm x ys)) (Perm.swap x y ys))
    | inr e ↦ rw e Perm.rfl
  ]

  -- Sorting rearranges.
  pub slice_stable-perm : (xs : List A) → Perm (slice_stable xs) xs
  unfolding slice_stable
  slice_stable-perm [] = Perm.rfl
  slice_stable-perm (x ∷ xs) =
      Perm.trans (insert_sorted-perm x (slice_stable xs)) (Perm.cons x (slice_stable-perm xs))

  -- No element stands before one that is less.
  abbrev pub IsSorted : List A → Type 0
  IsSorted [] = Unit
  IsSorted (x ∷ []) = Unit
  IsSorted (x ∷ y ∷ ys) = (less y x ≡ false) × IsSorted (y ∷ ys)

  module _ (asymmetric : (x y : A) → less x y ≡ true → less y x ≡ false) where
    insert_sorted-IsSorted : (x : A) (ys : List A) → IsSorted ys → IsSorted (insert_sorted x ys)
    unfolding insert_sorted
    insert_sorted-IsSorted x [] h = tt
    insert_sorted-IsSorted x (y ∷ []) h = ground (arith, asymmetric y x)
    insert_sorted-IsSorted x (y ∷ z ∷ ys) h =
        ground (arith, asymmetric y x, insert_sorted-IsSorted x (z ∷ ys) h.1)

    pub slice_stable-IsSorted : (xs : List A) → IsSorted (slice_stable xs)
    unfolding slice_stable
    slice_stable-IsSorted [] = tt
    slice_stable-IsSorted (x ∷ xs) =
        insert_sorted-IsSorted x (slice_stable xs) (slice_stable-IsSorted xs)

  -- Where the order is transitive, two comparable elements may be inserted in either order.
  module _ (transitive : (x y z : A) → less x y ≡ true → less y z ≡ true → less x z ≡ true) where
    pub insert_sorted_swap :
        (x y : A) (ys : List A)
        → less x y ≡ true
        → less y x ≡ false
        → insert_sorted x (insert_sorted y ys) ≡ insert_sorted y (insert_sorted x ys)
    unfolding insert_sorted
    insert_sorted_swap x y [] h k = ground arith
    insert_sorted_swap x y (z ∷ ys) h k =
        ground (arith, transitive z x y, insert_sorted_swap x y ys h k)

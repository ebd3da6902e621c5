-- ===== src/Prelude/Dict.antt =====
-- Go's maps as association lists. The order of a map's entries is Go's to choose at each `range`;
-- the loops of the program that are modelled do not depend on it, or sort what they collect.
use mathlib.Core.Path.{◌≡◌, refl}
use mathlib.Core.Bool.{Bool, true, false}
use mathlib.Core.Option.{Option, none, some}
use mathlib.Core.List.{List, [], ◌∷◌}
use native.Mathlib.Omega.{arith}
use dmq_lib.Prelude.Tests.{if◌then◌else◌}
use dmq_lib.Prelude.Equality.{Eq, ◌==◌, ==_iff}

abbrev pub Dict {ℓ κ} : Type ℓ → Type κ → Type (ℓ ⊔ κ)
Dict K V = List (K × V)

module _ {ℓ κ} {K : Type ℓ} {V : Type κ} ⦃e : Eq K⦄ where
  -- v, ok := m[k]
  unfoldable pub lookup : K → Dict K V → Option V
  lookup k [] = none
  lookup k ((j, v) ∷ m) = if j == k then some v else lookup k m

  -- _, ok := m[k]
  unfoldable pub has : K → Dict K V → Bool
  has k [] = false
  has k ((j, v) ∷ m) = if j == k then true else has k m

  -- for k, v := range m { if !keep(k, v) { delete(m, k) } }
  unfoldable pub retain : (K → V → Bool) → Dict K V → Dict K V
  retain keep [] = []
  retain keep ((j, v) ∷ m) = let rest = retain keep m in if keep j v then (j, v) ∷ rest else rest

  -- delete(m, k)
  unfoldable pub delete : K → Dict K V → Dict K V
  delete k [] = []
  delete k ((j, v) ∷ m) = let rest = delete k m in if j == k then rest else (j, v) ∷ rest

  -- m[k] = v
  unfoldable pub insert : K → V → Dict K V → Dict K V
  insert k v [] = (k, v) ∷ []
  insert k v ((j, w) ∷ m) = let rest = insert k v m in if j == k then (k, v) ∷ m else (j, w) ∷ rest

  pub lookup-delete :
      (k j : K) (m : Dict K V) → lookup j (delete k m) ≡ (if k == j then none else lookup j m)
  unfolding lookup delete
  lookup-delete k j [] = ground arith
  lookup-delete k j ((i, w) ∷ m) =
      ground (arith, ==_iff k j, ==_iff i k, ==_iff i j, lookup-delete k j m)

  pub lookup-insert :
      (key other : K) (new : V) (d : Dict K V)
      → lookup other (insert key new d) ≡ (if key == other then some new else lookup other d)
  unfolding lookup insert
  lookup-insert key other new [] = refl
  lookup-insert key other new ((i, old) ∷ d) =
      ground (arith, lookup-insert key other new d, ==_iff i other, ==_iff key other, ==_iff i key)

  pub has-insert :
      (k j : K) (v : V) (m : Dict K V) → has j (insert k v m) ≡ (if k == j then true else has j m)
  unfolding has insert
  has-insert k j v [] = refl
  has-insert k j v ((i, w) ∷ m) =
      ground (arith, ==_iff k j, ==_iff i k, ==_iff i j, has-insert k j v m)

  pub has-delete :
      (k j : K) (m : Dict K V) → has j (delete k m) ≡ (if k == j then false else has j m)
  unfolding has delete
  has-delete k j [] = ground arith
  has-delete k j ((i, w) ∷ m) = ground (arith, ==_iff k j, ==_iff i k, ==_iff i j, has-delete k j m)

  pub has-lookup : (k : K) (m : Dict K V) (v : V) → lookup k m ≡ some v → has k m ≡ true
  unfolding has lookup
  has-lookup k [] v h = cc
  has-lookup k ((i, w) ∷ m) v h = ground (arith, has-lookup k m v)

  -- Keys stay distinct.
  abbrev pub IsMap : Dict K V → Type 0
  IsMap [] = Unit
  IsMap ((k, v) ∷ m) = (has k m ≡ false) × IsMap m

  pub insert-IsMap : (k : K) (v : V) (m : Dict K V) → IsMap m → IsMap (insert k v m)
  unfolding has insert
  insert-IsMap k v [] h = (refl, tt)
  insert-IsMap k v ((i, w) ∷ m) h =
      ground (arith, ==_iff i k, ==_iff k i, has-insert k i v m, insert-IsMap k v m h.1)

  pub has-retain-false :
      (keep : K → V → Bool) (k : K) (m : Dict K V) → has k m ≡ false → has k (retain keep m) ≡ false
  unfolding has retain
  has-retain-false keep k [] h = refl
  has-retain-false keep k ((i, w) ∷ m) h = ground (arith, has-retain-false keep k m)

  pub retain-IsMap : (keep : K → V → Bool) (m : Dict K V) → IsMap m → IsMap (retain keep m)
  unfolding retain
  retain-IsMap keep [] h = tt
  retain-IsMap keep ((i, w) ∷ m) h =
      ground (arith, has-retain-false keep i m, retain-IsMap keep m h.1)

  pub lookup-has-false : (k : K) (m : Dict K V) → has k m ≡ false → lookup k m ≡ none
  unfolding has lookup
  lookup-has-false k [] h = refl
  lookup-has-false k ((i, w) ∷ m) h = ground (arith, lookup-has-false k m)

  -- An entry that the test keeps is still found, and one that it drops is not.
  abbrev pub filtered : (K → V → Bool) → K → Option V → Option V
  filtered keep k none = none
  filtered keep k (some v) = if keep k v then some v else none

  pub lookup-retain :
      (keep : K → V → Bool) (k : K) (m : Dict K V)
      → IsMap m
      → lookup k (retain keep m) ≡ filtered keep k (lookup k m)
  unfolding lookup retain
  lookup-retain keep k [] h = refl
  lookup-retain keep k ((i, w) ∷ m) h = ground (
    arith,
    ==_iff i k,
    lookup-retain keep k m h.1,
    lookup-has-false k (retain keep m),
    has-retain-false keep k m,
  )

  pub delete-IsMap : (k : K) (m : Dict K V) → IsMap m → IsMap (delete k m)
  unfolding delete
  delete-IsMap k [] h = tt
  delete-IsMap k ((i, w) ∷ m) h =
      ground (arith, h.0, has-delete k i m, ==_iff k i, delete-IsMap k m h.1)

  -- A key that is not there is deleted by nothing.
  pub delete-absent : (k : K) (m : Dict K V) → has k m ≡ false → delete k m ≡ m
  unfolding has delete
  delete-absent k [] h = refl
  delete-absent k ((i, w) ∷ m) h = ground (arith, delete-absent k m)

  pub has-lookup-none : (k : K) (m : Dict K V) → lookup k m ≡ none → has k m ≡ false
  unfolding lookup has
  has-lookup-none k [] h = refl
  has-lookup-none k ((i, w) ∷ m) h = ground (arith, has-lookup-none k m)

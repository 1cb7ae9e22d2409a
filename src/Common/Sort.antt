-- ===== src/Common/Sort.antt =====
-- `sorted(xs, key=…)`: a stable sort, by insertion, for an order given as a Boolean test.
use mathlib.Core.Path.{◌≡◌, refl}
use mathlib.Core.Bool.{Bool, true, false, ◌||◌}
use mathlib.Core.List.{List, [], ◌∷◌}
use Prim.Native.Nat.{suc}
use native.Mathlib.Omega.{arith}
use actioneer_pulse.Common.Tests.{if◌then◌else◌}
use actioneer_pulse.Common.Lists.{length, any, All, count}

module _ {ℓ} {A : Type ℓ} (le : A → A → Bool) where
  -- The element goes before the first that is not below it, so equal ones keep their order.
  unfoldable pub insert_by : A → List A → List A
  insert_by a [] = a ∷ []
  insert_by a (x ∷ xs) = if le a x then a ∷ x ∷ xs else x ∷ insert_by a xs

  unfoldable pub sort_by : List A → List A
  unfolding insert_by
  sort_by [] = []
  sort_by (x ∷ xs) = insert_by x (sort_by xs)

  -- Neighbours are in order.
  abbrev pub IsAscending : List A → Type 0
  IsAscending [] = Unit
  IsAscending (x ∷ []) = Unit
  IsAscending (x ∷ y ∷ xs) = (le x y ≡ true) × IsAscending (y ∷ xs)

  pub length-insert_by : (a : A) (xs : List A) → length (insert_by a xs) ≡ suc (length xs)
  unfolding insert_by
  length-insert_by a [] = refl
  length-insert_by a (x ∷ xs) = ground (arith, length-insert_by a xs)

  pub length-sort_by : (xs : List A) → length (sort_by xs) ≡ length xs
  unfolding sort_by
  length-sort_by [] = refl
  length-sort_by (x ∷ xs) = ground (arith, length-insert_by x (sort_by xs), length-sort_by xs)

  any-insert_by : (p : A → Bool) (a : A) (xs : List A) → any p (insert_by a xs) ≡ (p a || any p xs)
  unfolding insert_by
  any-insert_by p a [] = refl
  any-insert_by p a (x ∷ xs) = ground (arith, any-insert_by p a xs)

  pub any-sort_by : (p : A → Bool) (xs : List A) → any p (sort_by xs) ≡ any p xs
  unfolding sort_by
  any-sort_by p [] = refl
  any-sort_by p (x ∷ xs) = ground (arith, any-insert_by p x (sort_by xs), any-sort_by p xs)

  count-insert_by :
      (p : A → Bool) (a : A) (xs : List A)
      → count p (insert_by a xs) ≡ (if p a then suc (count p xs) else count p xs)
  unfolding insert_by
  count-insert_by p a [] = refl
  count-insert_by p a (x ∷ xs) = ground (arith, count-insert_by p a xs)

  -- As many elements of each kind as before.
  pub count-sort_by : (p : A → Bool) (xs : List A) → count p (sort_by xs) ≡ count p xs
  unfolding sort_by
  count-sort_by p [] = refl
  count-sort_by p (x ∷ xs) = ground (arith, count-insert_by p x (sort_by xs), count-sort_by p xs)

  All-insert_by {κ} :
      (P : A → Type κ) (a : A) (xs : List A) → P a → All P xs → All P (insert_by a xs)
  unfolding insert_by
  All-insert_by P a [] h t = (h, tt)
  All-insert_by P a (x ∷ xs) h t = ground (arith, All-insert_by P a xs h t.1)

  pub All-sort_by {κ} : (P : A → Type κ) (xs : List A) → All P xs → All P (sort_by xs)
  unfolding sort_by
  All-sort_by P [] t = tt
  All-sort_by P (x ∷ xs) t = All-insert_by P x (sort_by xs) t.0 (All-sort_by P xs t.1)

  module _ (total : (a b : A) → le a b ≡ false → le b a ≡ true) where
    insert_by-IsAscending : (a : A) (xs : List A) → IsAscending xs → IsAscending (insert_by a xs)
    unfolding insert_by
    insert_by-IsAscending a [] h = tt
    insert_by-IsAscending a (x ∷ []) h = ground (arith, total a x)
    insert_by-IsAscending a (x ∷ y ∷ xs) h =
        ground (arith, total a x, insert_by-IsAscending a (y ∷ xs) h.1)

    -- For a total order the result is in order.
    pub sort_by-IsAscending : (xs : List A) → IsAscending (sort_by xs)
    unfolding sort_by
    sort_by-IsAscending [] = tt
    sort_by-IsAscending (x ∷ xs) = insert_by-IsAscending x (sort_by xs) (sort_by-IsAscending xs)

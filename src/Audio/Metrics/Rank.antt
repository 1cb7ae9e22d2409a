-- ===== src/Audio/Metrics/Rank.antt =====
-- `percentile` is a nearest rank.
use actioneer_pulse.Common.{
  true, false, some, List, [], ◌∷◌, count, length, get_elem?, ℕ, zero, suc, ◌+◌, ◌-◌, ◌*◌, ◌≤◌, ◌<◌,
  ◌≡◌, refl, min, arith,
}
use actioneer_pulse.Common.Int.{ℤ, leb_ℤ, ◌≤ℤ◌, round_quot}
use actioneer_pulse.Common.Sort.{
  sort_by, IsAscending, sort_by-IsAscending, count-sort_by, length-sort_by,
}
use actioneer_pulse.Audio.Metrics.{percentile}

leb_ℤ-total : (a b : ℤ) → leb_ℤ a b ≡ false → leb_ℤ b a ≡ true
leb_ℤ-total a b h = ground arith

-- In an ascending list the element at i has i before it that are no greater, and itself.
ascending_count_le_below :
    (xs : List ℤ) (i : ℕ) (v b : ℤ)
    → IsAscending leb_ℤ (b ∷ xs)
    → get_elem? xs i ≡ some v
    → (b ≤ℤ v) × (suc i ≤ count (λ x. leb_ℤ x v) xs)
ascending_count_le_below [] i v b h e = cc
ascending_count_le_below (x ∷ xs) zero v b h e = ground arith
ascending_count_le_below (x ∷ xs) (suc i) v b h e =
    ground (arith, ascending_count_le_below xs i v x h.1)

ascending_count_le :
    (xs : List ℤ) (i : ℕ) (v : ℤ)
    → IsAscending leb_ℤ xs
    → get_elem? xs i ≡ some v
    → suc i ≤ count (λ x. leb_ℤ x v) xs
ascending_count_le [] i v h e = cc
ascending_count_le (x ∷ xs) zero v h e = ground arith
ascending_count_le (x ∷ xs) (suc i) v h e = ground (arith, ascending_count_le_below xs i v x h)

-- Behind b no element is less than w.
ascending_all_ge :
    (ys : List ℤ) (w b : ℤ)
    → IsAscending leb_ℤ (b ∷ ys)
    → w ≤ℤ b
    → count (λ x. leb_ℤ w x) ys ≡ length ys
ascending_all_ge [] w b a l = refl
ascending_all_ge (y ∷ ys) w b a l = ground (arith, ascending_all_ge ys w y a.1)

-- In an ascending list only the i elements before the one at i can be less than it.
ascending_count_ge :
    (xs : List ℤ) (i : ℕ) (v : ℤ)
    → IsAscending leb_ℤ xs
    → get_elem? xs i ≡ some v
    → length xs ≤ i + count (λ x. leb_ℤ v x) xs
ascending_count_ge [] i v h e = cc
ascending_count_ge (x ∷ xs) zero v h e = ground (arith, ascending_all_ge xs v x h)
ascending_count_ge (x ∷ []) (suc i) v h e = cc
ascending_count_ge (x ∷ y ∷ xs) (suc i) v h e = ground (arith, ascending_count_ge (y ∷ xs) i v h.1)

get_elem?_total : (xs : List ℤ) (i : ℕ) → i < length xs → (v : ℤ) × (get_elem? xs i ≡ some v)
get_elem?_total [] i h = absurd (omega arith)
get_elem?_total (x ∷ xs) zero h = (x, refl)
get_elem?_total (x ∷ xs) (suc i) h = get_elem?_total xs i (omega arith)

abbrev pub rank : List ℤ → ℕ → ℕ
rank values pct = min (length values - 1) (round_quot (pct * (length values - 1)) 100)

rank_in_sorted :
    (values : List ℤ) (r : ℕ) (v : ℤ)
    → get_elem? (sort_by leb_ℤ values) r ≡ some v
    → (suc r ≤ count (λ x. leb_ℤ x v) values) × (length values ≤ r + count (λ x. leb_ℤ v x) values)
rank_in_sorted values r v e =
    let ascending = sort_by-IsAscending leb_ℤ leb_ℤ-total values in
    (
      omega (
        arith,
        ascending_count_le (sort_by leb_ℤ values) r v ascending e,
        count-sort_by leb_ℤ (λ x. leb_ℤ x v) values,
      ),
      omega (
        arith,
        ascending_count_ge (sort_by leb_ℤ values) r v ascending e,
        count-sort_by leb_ℤ (λ x. leb_ℤ v x) values,
        length-sort_by leb_ℤ values,
      ),
    )

-- Of values that are not empty a percentile exists: it is a value v such that at least rank + 1 of
-- the values are v or less, and at most rank of them are less than v, where the rank is the
-- percentage of the last index, rounded, and the last index at most.
pub percentile_total :
    (values : List ℤ) (pct : ℕ)
    → 0 < length values
    → (v : ℤ) × (percentile values pct ≡ some v)
      × (suc (rank values pct) ≤ count (λ x. leb_ℤ x v) values)
      × (length values ≤ rank values pct + count (λ x. leb_ℤ v x) values)
unfolding percentile
percentile_total values pct h =
    let within : rank values pct < length (sort_by leb_ℤ values) =
      omega (arith, length-sort_by leb_ℤ values) in
    let (v, e) = get_elem?_total (sort_by leb_ℤ values) (rank values pct) within in
    let bounds = rank_in_sorted values (rank values pct) v e in (v, e, bounds.0, bounds.1)

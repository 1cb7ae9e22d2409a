-- ===== src/Audio/Intervals/Measure.antt =====
-- `total` as a count of instants.
use actioneer_pulse.Common.{
  Bool, true, false, List, [], ◌∷◌, if◌then◌else◌, ◌||◌, not, ◌≡◌, refl, sym, ◌∙◌, ap, arith, ℕ,
  zero, suc, ◌+◌, ◌≤◌, All,
}
use actioneer_pulse.Common.Int.{
  ℤ, pos, max_ℤ, ◌≤ℤ◌, ◌<ℤ◌, ◌-ℤ◌, ◌+ℤ◌, int_laws, pos_part, neg_part, -ℤ_parts, +ℤ_parts,
  parts-pos, eq_of_parts,
}
use actioneer_pulse.Audio.Intervals.{Interval, interval_le, merge_from, merge_ordered, merge, total}
use actioneer_pulse.Common.Sort.{sort_by, All-sort_by}
use actioneer_pulse.Audio.Intervals.Cover.{
  holds, covered, IsProper, SeparatedAfter, IsSeparated, covered_before, SeparatedAfter-IsSeparated,
}
use actioneer_pulse.Audio.Intervals.Merge.{covered-merge, merge-IsSeparated}

-- How many of the instants lo, lo + 1, …, lo + n - 1 pass the test.
pub instants : ℤ → ℕ → (ℤ → Bool) → ℕ
instants lo zero p = 0
instants lo (suc n) p = let rest = instants (lo +ℤ pos 1) n p in if p lo then suc rest else rest

pub instants-congr :
    (lo : ℤ) (n : ℕ) (p q : ℤ → Bool) → ((x : ℤ) → p x ≡ q x) → instants lo n p ≡ instants lo n q
unfolding instants
instants-congr lo zero p q h = refl
instants-congr lo (suc n) p q h = ground (arith, h lo, instants-congr (lo +ℤ pos 1) n p q h)

-- It is enough that the tests agree in the range.
pub instants-congr_in :
    (lo : ℤ) (n : ℕ) (p q : ℤ → Bool)
    → ((x : ℤ) → lo ≤ℤ x → x <ℤ lo +ℤ pos n → p x ≡ q x)
    → instants lo n p ≡ instants lo n q
unfolding instants
instants-congr_in lo zero p q h = refl
instants-congr_in lo (suc n) p q h = ground (
  arith,
  h lo (omega arith) (omega int_laws),
  instants-congr_in (lo +ℤ pos 1) n p q (λ x a b. h x (omega int_laws) (omega int_laws)),
)

pub instants-le : (lo : ℤ) (n : ℕ) (p : ℤ → Bool) → instants lo n p ≤ n
unfolding instants
instants-le lo zero p = omega arith
instants-le lo (suc n) p = ground (arith, instants-le (lo +ℤ pos 1) n p)

-- Every instant passes the test or its opposite.
pub instants-not :
    (lo : ℤ) (n : ℕ) (p : ℤ → Bool) → instants lo n p + instants lo n (λ x. not (p x)) ≡ n
unfolding instants
instants-not lo zero p = omega arith
instants-not lo (suc n) p = ground (arith, instants-not (lo +ℤ pos 1) n p)

instants-or :
    (lo : ℤ) (n : ℕ) (p q : ℤ → Bool)
    → ((x : ℤ) → p x ≡ true → q x ≡ false)
    → instants lo n (λ x. p x || q x) ≡ instants lo n p + instants lo n q
unfolding instants
instants-or lo zero p q h = omega arith
instants-or lo (suc n) p q h = ground (arith, h lo, instants-or (lo +ℤ pos 1) n p q h)

instants_none : (lo : ℤ) (n : ℕ) (p : ℤ → Bool) → ((x : ℤ) → p x ≡ false) → instants lo n p ≡ 0
unfolding instants
instants_none lo zero p h = refl
instants_none lo (suc n) p h = ground (arith, h lo, instants_none (lo +ℤ pos 1) n p h)

-- An interval that ends inside the range counts for its part of the range.
instants_one_parts :
    (lo : ℤ) (n : ℕ) (s e : ℤ)
    → s ≤ℤ e
    → e ≤ℤ lo +ℤ pos n
    → instants lo n (λ x. holds x (s, e)) + pos_part (max_ℤ lo s) + neg_part (max_ℤ lo e)
      ≡ pos_part (max_ℤ lo e) + neg_part (max_ℤ lo s)
unfolding instants
instants_one_parts lo zero s e a b = ground (arith, parts-pos 0, +ℤ_parts lo (pos 0))
instants_one_parts lo (suc n) s e a b = ground (
  arith,
  parts-pos 1,
  parts-pos n,
  parts-pos (suc n),
  +ℤ_parts lo (pos 1),
  +ℤ_parts lo (pos (suc n)),
  +ℤ_parts (lo +ℤ pos 1) (pos n),
  instants_one_parts (lo +ℤ pos 1) n s e a,
)

-- An interval inside the range counts for its length.
instants_inside :
    (lo : ℤ) (n : ℕ) (s e : ℤ)
    → lo ≤ℤ s
    → s ≤ℤ e
    → e ≤ℤ lo +ℤ pos n
    → pos (instants lo n (λ x. holds x (s, e))) ≡ e -ℤ s
instants_inside lo n s e l a b = ground (
  arith,
  instants_one_parts lo n s e a b,
  parts-pos (instants lo n (λ x. holds x (s, e))),
  -ℤ_parts e s,
  eq_of_parts (pos (instants lo n (λ x. holds x (s, e)))) (e -ℤ s),
)

-- The intervals lie in the range of n instants from lo.
abbrev pub Inside : ℤ → ℕ → List Interval → Type 0
Inside lo n ivs = All (λ i. (lo ≤ℤ i.0) × (i.1 ≤ℤ lo +ℤ pos n)) ivs

apart :
    (s e : ℤ) (rest : List Interval)
    → SeparatedAfter e rest
    → (x : ℤ) → holds x (s, e) ≡ true
    → covered x rest ≡ false
apart s e rest h x c = covered_before x e rest h (ground arith)

total_of_IsSeparated :
    (lo : ℤ) (n : ℕ) (ivs : List Interval)
    → IsSeparated ivs
    → Inside lo n ivs
    → total ivs ≡ pos (instants lo n (λ x. covered x ivs))
unfolding total
total_of_IsSeparated lo n [] h b = ap pos (sym (instants_none lo n (λ x. false) (λ x. refl)))
total_of_IsSeparated lo n ((s, e) ∷ rest) h b =
    rw
      (
        ← instants_inside lo n s e b.0.0 h.0 b.0.1,
        total_of_IsSeparated lo n rest (SeparatedAfter-IsSeparated e rest h.1) b.1,
        instants-or lo n (λ x. holds x (s, e)) (λ x. covered x rest) (apart s e rest h.1),
      )
      (omega int_laws)

merge_from-Inside :
    (lo : ℤ) (n : ℕ) (ls le : ℤ) (rest : List Interval)
    → lo ≤ℤ ls
    → le ≤ℤ lo +ℤ pos n
    → Inside lo n rest
    → Inside lo n (merge_from ls le rest)
unfolding merge_from
merge_from-Inside lo n ls le [] a b h = ((a, b), tt)
merge_from-Inside lo n ls le ((s, e) ∷ rest) a b h =
    ground (arith, merge_from-Inside lo n ls (max_ℤ le e) rest a, merge_from-Inside lo n s e rest)

merge_ordered-Inside :
    (lo : ℤ) (n : ℕ) (ivs : List Interval) → Inside lo n ivs → Inside lo n (merge_ordered ivs)
unfolding merge_ordered
merge_ordered-Inside lo n [] h = tt
merge_ordered-Inside lo n ((s, e) ∷ rest) h = merge_from-Inside lo n s e rest h.0.0 h.0.1 h.1

pub merge-Inside :
    (lo : ℤ) (n : ℕ) (ivs : List Interval) → Inside lo n ivs → Inside lo n (merge ivs)
unfolding merge
merge-Inside lo n ivs h =
    merge_ordered-Inside lo n (sort_by interval_le ivs) (All-sort_by interval_le _ ivs h)

-- For intervals that do not end before they start and that lie in a range, the total of their merge
-- is the number of instants of the range that at least one of them covers.
pub total-merge :
    (lo : ℤ) (n : ℕ) (ivs : List Interval)
    → IsProper ivs
    → Inside lo n ivs
    → total (merge ivs) ≡ pos (instants lo n (λ x. covered x ivs))
total-merge lo n ivs p b =
    total_of_IsSeparated lo n (merge ivs) (merge-IsSeparated ivs p) (merge-Inside lo n ivs b)
    ∙ ap pos (instants-congr lo n _ _ (λ x. covered-merge x ivs))

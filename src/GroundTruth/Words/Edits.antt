-- ===== src/GroundTruth/Words/Edits.antt =====
-- The rows of the table against edit scripts: the distance is the cost of the cheapest script.
use native.Mathlib.Decide.{dec_le}
use actioneer_pulse.Common.{
  Bool, List, [], ◌∷◌, ◌≡◌, refl, arith, ℕ, suc, ◌+◌, ◌≤◌, min, length, ap, subst,
}
use actioneer_pulse.GroundTruth.Words.{
  cost, fill_row, next_row, rows_from, range_from, last, distance,
}

module _ {A : Type 0} (eq : A → A → Bool) where
  -- A way to turn one list into another, word by word from the front.
  pub data Script : List A → List A → Type 0 where
    done : Script [] []
    remove : {x : A} {xs ys : List A} → Script xs ys → Script (x ∷ xs) ys
    add : {y : A} {xs ys : List A} → Script xs ys → Script xs (y ∷ ys)
    replace : {x y : A} {xs ys : List A} → Script xs ys → Script (x ∷ xs) (y ∷ ys)

  -- A word replaced by an equal one costs nothing.
  unfoldable pub price : {xs ys : List A} → Script xs ys → ℕ
  price done = 0
  price (remove s) = price s + 1
  price (add s) = price s + 1
  price (replace {x} {y} s) = price s + cost eq x y

  -- The recursive distance.
  unfoldable lev : List A → List A → ℕ
  lev [] ys = length ys
  lev (x ∷ xs) [] = suc (length xs)
  lev (x ∷ xs) (y ∷ ys) =
      min (min (lev xs (y ∷ ys) + 1) (lev (x ∷ xs) ys + 1)) (lev xs ys + cost eq x y)

  lev-nil : (xs : List A) → lev xs [] ≡ length xs
  unfolding lev
  lev-nil [] = refl
  lev-nil (x ∷ xs) = refl

  lev-le-price : {xs ys : List A} (s : Script xs ys) → lev xs ys ≤ price s
  unfolding lev price
  lev-le-price done = omega arith
  lev-le-price (remove {xs} {ys = []} s) = omega (arith, lev-le-price s, lev-nil xs)
  lev-le-price (remove {ys = y ∷ ys} s) = omega (arith, lev-le-price s)
  lev-le-price (add {xs = []} s) = omega (arith, lev-le-price s)
  lev-le-price (add {xs = x ∷ xs} s) = omega (arith, lev-le-price s)
  lev-le-price (replace s) = omega (arith, lev-le-price s)

  IsPriced : List A → List A → ℕ → Type 0
  IsPriced xs ys c = (s : Script xs ys) × (price s ≡ c)

  IsPriced-min :
      (xs ys : List A) (c d : ℕ) → IsPriced xs ys c → IsPriced xs ys d → IsPriced xs ys (min c d)
  unfolding IsPriced
  IsPriced-min xs ys c d s t = elim (dec_le c d) [
    | yes h ↦ (s.0, omega (arith, s.1))
    | no h ↦ (t.0, omega (arith, t.1))
  ]

  lev_attained : (xs ys : List A) → IsPriced xs ys (lev xs ys)
  unfolding lev price IsPriced
  lev_attained [] [] = (done, refl)
  lev_attained [] (y ∷ ys) = let (s, e) = lev_attained [] ys in (add s, omega arith)
  lev_attained (x ∷ xs) [] =
      let (s, e) = lev_attained xs [] in (remove s, omega (arith, lev-nil xs))
  lev_attained (x ∷ xs) (y ∷ ys) =
      let (r, er) = lev_attained xs (y ∷ ys) in
      let (s, es) = lev_attained (x ∷ xs) ys in
      let (t, et) = lev_attained xs ys in
      IsPriced-min _ _ _ _ (IsPriced-min _ _ _ _ (remove r, omega arith) (add s, omega arith))
        (replace t, omega arith)

  abbrev reverse_onto : List A → List A → List A
  reverse_onto [] ys = ys
  reverse_onto (x ∷ xs) ys = reverse_onto xs (x ∷ ys)

  -- A script read backwards, before another.
  backwards :
      {xs ys us vs : List A} (s : Script xs ys) (t : Script us vs)
      → IsPriced (reverse_onto xs us) (reverse_onto ys vs) (price s + price t)
  unfolding price IsPriced
  backwards done t = (t, omega arith)
  backwards (remove s) t = let (r, e) = backwards s (remove t) in (r, omega (arith, e))
  backwards (add s) t = let (r, e) = backwards s (add t) in (r, omega (arith, e))
  backwards (replace s) t = let (r, e) = backwards s (replace t) in (r, omega (arith, e))

  -- The cells of a row to the right of column `acc`, for the words read so far, the last first.
  abbrev cells : List A → List A → List A → List ℕ
  cells rs acc [] = []
  cells rs acc (h ∷ hyp) = lev rs (h ∷ acc) ∷ cells rs (h ∷ acc) hyp

  fill_row-cells :
      (r : A) (rs acc hyp : List A)
      → fill_row eq r hyp (lev rs acc) (lev (r ∷ rs) acc) (cells rs acc hyp)
        ≡ cells (r ∷ rs) acc hyp
  unfolding fill_row lev
  fill_row-cells r rs acc [] = refl
  fill_row-cells r rs acc (h ∷ hyp) =
      ap (λ row. lev (r ∷ rs) (h ∷ acc) ∷ row) (fill_row-cells r rs (h ∷ acc) hyp)

  abbrev row_of : List A → List A → List ℕ
  row_of rs hyp = lev rs [] ∷ cells rs [] hyp

  next_row-row_of :
      (r : A) (rs hyp : List A)
      → next_row eq (suc (length rs)) r hyp (row_of rs hyp) ≡ row_of (r ∷ rs) hyp
  unfolding next_row lev
  next_row-row_of r rs hyp = ap (λ row. suc (length rs) ∷ row) (fill_row-cells r rs [] hyp)

  rows_from-row_of :
      (rs ref hyp : List A)
      → rows_from eq (suc (length rs)) ref hyp (row_of rs hyp) ≡ row_of (reverse_onto ref rs) hyp
  unfolding rows_from
  rows_from-row_of rs [] hyp = refl
  rows_from-row_of rs (r ∷ ref) hyp =
      rw (next_row-row_of r rs hyp) (rows_from-row_of (r ∷ rs) ref hyp)

  range_from-cells :
      (acc hyp : List A) → range_from (length acc) hyp ≡ lev [] acc ∷ cells [] acc hyp
  unfolding range_from lev
  range_from-cells acc [] = refl
  range_from-cells acc (h ∷ hyp) = ap (λ row. length acc ∷ row) (range_from-cells (h ∷ acc) hyp)

  last-cells :
      (rs acc hyp : List A) → last (lev rs acc ∷ cells rs acc hyp) ≡ lev rs (reverse_onto hyp acc)
  unfolding last
  last-cells rs acc [] = refl
  last-cells rs acc (h ∷ hyp) = last-cells rs (h ∷ acc) hyp

  distance-lev :
      (ref hyp : List A) → distance eq ref hyp ≡ lev (reverse_onto ref []) (reverse_onto hyp [])
  unfolding distance
  distance-lev ref hyp =
      rw (range_from-cells [] hyp, rows_from-row_of [] ref hyp)
        (last-cells (reverse_onto ref []) [] hyp)

  reverse-twice : (xs ys : List A) → reverse_onto (reverse_onto xs ys) [] ≡ reverse_onto ys xs
  reverse-twice [] ys = refl
  reverse-twice (x ∷ xs) ys = reverse-twice xs (x ∷ ys)

  onto_same :
      (xs ys us vs : List A) (c : ℕ) → us ≡ xs → vs ≡ ys → IsPriced us vs c → IsPriced xs ys c
  onto_same xs ys us vs c p q s =
      subst (λ zs. IsPriced zs ys c) p (subst (λ zs. IsPriced us zs c) q s)

  unreverse :
      (xs ys : List A) (c : ℕ)
      → IsPriced (reverse_onto xs []) (reverse_onto ys []) c
      → IsPriced xs ys c
  unfolding IsPriced price
  unreverse xs ys c (s, e) =
      let (r, f) = backwards s done in
      onto_same xs ys _ _ c (reverse-twice xs []) (reverse-twice ys []) (r, omega (arith, e, f))

  lev-reverse-le :
      (xs ys : List A) (t : Script xs ys) → lev (reverse_onto xs []) (reverse_onto ys []) ≤ price t
  unfolding IsPriced price
  lev-reverse-le xs ys t = let (r, e) = backwards t done in omega (arith, e, lev-le-price r)

  -- What `wer` counts is the cost of a cheapest way to turn the reference into the hypothesis by
  -- removing, adding and replacing words: some script has this cost and no script costs less.
  pub distance-Script :
      (ref hyp : List A)
      → ((s : Script ref hyp) × (price s ≡ distance eq ref hyp))
        × ((t : Script ref hyp) → distance eq ref hyp ≤ price t)
  unfolding IsPriced
  distance-Script ref hyp = rw (distance-lev ref hyp) (
    unreverse ref hyp _ (lev_attained (reverse_onto ref []) (reverse_onto hyp [])),
    λ t. lev-reverse-le ref hyp t,
  )

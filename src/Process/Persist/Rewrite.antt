-- ===== src/Process/Persist/Rewrite.antt =====
-- A deletion and an insertion under one condition.
use mathlib.Core.List.{append-nil}
use actioneer_pulse.Common.{
  Bool, true, false, not, List, [], ◌∷◌, ◌≡◌, refl, arith, filter, filter-append, All,
}
use actioneer_pulse.Process.Persist.{rewrite}

module _ {R : Type 0} (mine : R → Bool) where
  keep_none : (rows : List R) → All (λ r. mine r ≡ true) rows → filter (λ r. not (mine r)) rows ≡ []
  keep_none [] h = refl
  keep_none (r ∷ rows) h = ground (arith, keep_none rows)

  keep_twice :
      (rows : List R)
      → filter (λ r. not (mine r)) (filter (λ r. not (mine r)) rows)
        ≡ filter (λ r. not (mine r)) rows
  keep_twice [] = refl
  keep_twice (r ∷ rows) = ground (arith, keep_twice rows)

  pub rewrite-again :
      (new rows : List R)
      → All (λ r. mine r ≡ true) new
      → rewrite mine new (rewrite mine new rows) ≡ rewrite mine new rows
  unfolding rewrite
  rewrite-again new rows h =
      rw
        (
          filter-append (λ r. not (mine r)) (filter (λ r. not (mine r)) rows) new,
          keep_twice rows,
          keep_none new h,
          append-nil (filter (λ r. not (mine r)) rows),
        )
        refl

  module _ (theirs : R → Bool) (apart : (r : R) → mine r ≡ true → theirs r ≡ false) where
    theirs_kept :
        (rows : List R) → filter theirs (filter (λ r. not (mine r)) rows) ≡ filter theirs rows
    theirs_kept [] = refl
    theirs_kept (r ∷ rows) = ground (arith, apart r, theirs_kept rows)

    theirs_none : (new : List R) → All (λ r. mine r ≡ true) new → filter theirs new ≡ []
    theirs_none [] h = refl
    theirs_none (r ∷ new) h = ground (arith, apart r, theirs_none new)

    -- Rows that are not rewritten stay.
    pub rewrite-theirs :
        (new rows : List R)
        → All (λ r. mine r ≡ true) new
        → filter theirs (rewrite mine new rows) ≡ filter theirs rows
    unfolding rewrite
    rewrite-theirs new rows h =
        rw
          (
            filter-append theirs (filter (λ r. not (mine r)) rows) new,
            theirs_kept rows,
            theirs_none new h,
            append-nil (filter theirs rows),
          )
          refl

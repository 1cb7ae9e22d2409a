-- ===== src/Ingest/Calls.antt =====
-- The rows that `upsert_call` leaves.
use mathlib.Core.List.{append-nil, map-append}
use actioneer_pulse.Common.{
  Bool, true, false, String, Option, List, [], ◌∷◌, ◌≡◌, refl, arith, any, count, any-append, subst,
  count-append, sym, map, ◌++◌, ◌||◌, str_eq, str_eq_iff, str_eq_refl, if◌then◌else◌, ℕ, ◌≤◌, ◌+◌,
  Bool-cases, inl, inr,
}
use actioneer_pulse.Model.Value.{Conversions}
use actioneer_pulse.Ingest.{
  Batch, Call, named, traced, renamed, promoted, update_first, touched, new_call, upsert_call,
}

-- No id is held by two calls.
abbrev pub IsUnique : List Call → Type 0
IsUnique calls = (e : String) → count (named e) calls ≤ 1

-- The key of a row.
abbrev pub key : Call → String
key row = row.id

map-update_first :
    (p : Call → Bool) (f : Call → Call)
    → ((row : Call) → key (f row) ≡ key row)
    → (calls : List Call) → map key (update_first p f calls) ≡ map key calls
unfolding update_first
map-update_first p f kept [] = refl
map-update_first p f kept (row ∷ calls) = ground (arith, kept row, map-update_first p f kept calls)

count-any : {A : Type 0} (p : A → Bool) (xs : List A) → any p xs ≡ false → count p xs ≡ 0
count-any p [] h = refl
count-any p (x ∷ xs) h = ground (arith, count-any p xs)

count_pos : {A : Type 0} (p : A → Bool) (xs : List A) → any p xs ≡ true → 1 ≤ count p xs
count_pos p [] h = ground arith
count_pos p (x ∷ xs) h = ground (arith, count_pos p xs)

-- An id that no call holds can be given to one.
one_more :
    (e call_id : String) (calls : List Call)
    → any (named call_id) calls ≡ false
    → count (named e) calls ≤ 1
    → count (named e) calls + (if str_eq call_id e then 1 else 0) ≤ 1
one_more e call_id calls n h = elim (Bool-cases (str_eq call_id e)) [
  | inr d ↦ rw d (omega arith)
  | inl d ↦
      let same = (str_eq_iff call_id e).0 d in
      let absent : count (named e) calls ≡ 0 =
        subst (λ x. count (named x) calls ≡ 0) same (count-any _ calls n) in
      rw (d, absent) (omega arith)
]

module _ (script : String → Option String) (now : ℕ) (b : Batch) where
  named-touched : (e : String) (row : Call) → named e (touched script now b row) ≡ named e row
  unfolding touched
  named-touched e row = refl

  count-update_first :
      (e : String) (p : Call → Bool) (calls : List Call)
      → count (named e) (update_first p (touched script now b) calls) ≡ count (named e) calls
  unfolding update_first
  count-update_first e p [] = refl
  count-update_first e p (row ∷ calls) =
      ground (arith, named-touched e row, count-update_first e p calls)

  any-update_first :
      (e : String) (p : Call → Bool) (calls : List Call)
      → any (named e) (update_first p (touched script now b) calls) ≡ any (named e) calls
  unfolding update_first
  any-update_first e p [] = refl
  any-update_first e p (row ∷ calls) =
      ground (arith, named-touched e row, any-update_first e p calls)

  -- A call that is given a new id: one more call holds it, and no other id is held more often.
  count-promote :
      (e call_id : String) (p : Call → Bool) (calls : List Call)
      → any p calls ≡ true
      → any (named call_id) calls ≡ false
      → count (named e) (update_first p (λ row. touched script now b (renamed call_id row)) calls)
        ≤ count (named e) calls + (if str_eq call_id e then 1 else 0)
  unfolding update_first
  count-promote e call_id p [] h n = ground arith
  count-promote e call_id p (row ∷ calls) h n =
      ground (arith, named-touched e (renamed call_id row), count-promote e call_id p calls)

  any-promote :
      (call_id : String) (p : Call → Bool) (calls : List Call)
      → any p calls ≡ true
      → any
          (named call_id)
          (update_first p (λ row. touched script now b (renamed call_id row)) calls)
        ≡ true
  unfolding update_first
  any-promote call_id p [] h = ground arith
  any-promote call_id p (row ∷ calls) h = ground (
    arith,
    named-touched call_id (renamed call_id row),
    str_eq_refl call_id,
    any-promote call_id p calls,
  )

  traced-promoted :
      (calls : List Call) → promoted b calls ≡ true → any (traced b.trace_id) calls ≡ true
  unfolding promoted
  traced-promoted calls h = ground arith

  module _ ⦃c : Conversions⦄ (id call_id : String) (calls : List Call) where
    abbrev row : List Call
    row = touched script now b (new_call id b call_id) ∷ []

    abbrev after : List Call
    after = upsert_call script now id b call_id calls

    named-new_call :
        (e : String) → named e (touched script now b (new_call id b call_id)) ≡ str_eq call_id e
    unfolding touched new_call
    named-new_call e = refl

    -- Where no two calls share an id, after `upsert_call` of a batch some call has the batch's id and
    -- again no two calls share an id. The rows keep their keys and their order: none is dropped, and
    -- one row, under the new key, is added at the end exactly when no call has the batch's id and none
    -- of its trace is found to take it.
    pub upsert_call-IsUnique :
        IsUnique calls
        → (any (named call_id) after ≡ true)
          × IsUnique after
          × (map key after
              ≡ map key calls
                ++ (if any (named call_id) calls || promoted b calls then [] else id ∷ []))
    unfolding upsert_call new_call touched
    upsert_call-IsUnique h = elim (Bool-cases (any (named call_id) calls)) [
      | inl known ↦ rw known (
        rw (any-update_first call_id (named call_id) calls) known,
        λ e. rw (count-update_first e (named call_id) calls) (h e),
        rw (map-update_first (named call_id) (touched script now b) (λ r. refl) calls)
            (sym (append-nil (map key calls))),
      )
      | inr new ↦ elim (Bool-cases (promoted b calls)) [
        | inl held ↦
            let t = traced-promoted calls held in
            rw (new, held)
              (
                any-promote call_id (traced b.trace_id) calls t,
                λ e. omega (
                  arith,
                  count-promote e call_id (traced b.trace_id) calls t new,
                  one_more e call_id calls new (h e),
                ),
                rw
                    (map-update_first (traced b.trace_id)
                      (λ r. touched script now b (renamed call_id r)) (λ r. refl) calls)
                    (sym (append-nil (map key calls))),
              )
        | inr free ↦
            rw (new, free)
              (
                ground (
                  arith,
                  any-append (named call_id) calls row,
                  named-new_call call_id,
                  str_eq_refl call_id,
                ),
                λ e. ground (
                  arith,
                  count-append (named e) calls row,
                  named-new_call e,
                  one_more e call_id calls new (h e),
                ),
                map-append key calls row,
              )
      ]
    ]

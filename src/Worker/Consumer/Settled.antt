-- ===== src/Worker/Consumer/Settled.antt =====
-- Every record that is polled is settled: by the first attempt that comes to its end, or buried.
use actioneer_pulse.Common.{
  Bool, true, false, String, Option, none, some, List, [], ◌∷◌, ◌++◌, ◌≡◌, refl, subst, arith, ℕ,
  zero, suc, ◌+◌, ◌<◌, Bool-cases, Option-cases, inl, inr, ◌⊎◌, truthy?,
}
use actioneer_pulse.Bus.{Record}
use actioneer_pulse.Worker.Consumer.{
  Work, Loop, done, failed, enqueued, dead, attempt, attempts, consume_one, consume_all,
}

module _ {W : Type 0} (handle : ℕ → Record → W → Option (Option String × W))
    (sends : ℕ → String → Bool) where
  -- Attempt k of a record succeeds: it is handled and, if it asks for a judge, the request is taken.
  pub data Success (r : Record) (k : ℕ) (s : Work W) : Work W → Type 0 where
    unjudged :
        {judge : Option String} {after : W}
        → handle k r s.world ≡ some (judge, after)
        → truthy? judge ≡ none
        → Success r k s (record { world = after; judge_queue = s.judge_queue })
    judged :
        {judge : Option String} {call_id : String} {after : W}
        → handle k r s.world ≡ some (judge, after)
        → truthy? judge ≡ some call_id
        → sends k call_id ≡ true
        → Success r k s (record { world = after; judge_queue = enqueued r call_id s.judge_queue })

  -- It fails: the handling raises and changes nothing, or it is committed and the request is refused.
  pub data Failure (r : Record) (k : ℕ) (s : Work W) : Work W → Type 0 where
    rolled_back : handle k r s.world ≡ none → Failure r k s s
    unsent :
        {judge : Option String} {call_id : String} {after : W}
        → handle k r s.world ≡ some (judge, after)
        → truthy? judge ≡ some call_id
        → sends k call_id ≡ false
        → Failure r k s (record { world = after; judge_queue = s.judge_queue })

  -- Attempts a, a + 1, …, b - 1 fail one after the other.
  pub data Failures (r : Record) : ℕ → ℕ → Work W → Work W → Type 0 where
    no_more : {a : ℕ} {s : Work W} → Failures r a a s s
    one_more :
        {a b : ℕ} {s t u : Work W} → Failure r a s t → Failures r (suc a) b t u → Failures r a b s u

  attempt-cases :
      (k : ℕ) (r : Record) (s : Work W)
      → ((t : Work W) × (attempt handle sends k r s ≡ done t) × Success r k s t)
        ⊎ ((t : Work W) × (attempt handle sends k r s ≡ failed t) × Failure r k s t)
  unfolding attempt
  attempt-cases k r s = elim (Option-cases (handle k r s.world)) [
    | inl e ↦ inr (s, rw (attempt, e) refl, rolled_back e)
    | inr ((judge, after), e) ↦ elim (Option-cases (truthy? judge)) [
      | inl quiet ↦ inl (_, rw (attempt, e, quiet) refl, unjudged e quiet)
      | inr (call_id, asked) ↦ elim (Bool-cases (sends k call_id)) [
        | inl sent ↦ inl (_, rw (attempt, e, asked, sent) refl, judged e asked sent)
        | inr lost ↦ inr (_, rw (attempt, e, asked, lost) refl, unsent e asked lost)
      ]
    ]
  ]

  -- A success after failures, before attempt b.
  Succeeds : Record → ℕ → ℕ → Work W → Work W → Type 0
  Succeeds r a b s t = (k : ℕ) × (u : Work W) × (k < b) × Failures r a k s u × Success r k u t

  attempts-cases :
      (n a : ℕ) (r : Record) (s : Work W)
      → ((t : Work W) × (attempts handle sends n a r s ≡ done t) × Succeeds r a (a + n) s t)
        ⊎ ((t : Work W) × (attempts handle sends n a r s ≡ failed t) × Failures r a (a + n) s t)
  unfolding attempts Succeeds
  attempts-cases zero a r s = inr (s, refl, subst (λ b. Failures r a b s s) (omega arith) no_more)
  attempts-cases (suc n) a r s = elim (attempt-cases a r s) [
    | inl (t, e, ok) ↦ inl (t, rw (attempts, e) refl, (a, s, omega arith, no_more, ok))
    | inr (t, e, bad) ↦
        let shift : suc a + n ≡ a + suc n = omega arith in
        elim (attempts-cases n (suc a) r t) [
          | inl (v, f, (k, u, lt, fails, ok)) ↦
              inl (v, rw (attempts, e) f, (k, u, omega (arith, lt), one_more bad fails, ok))
          | inr (v, f, fails) ↦ inr (
            v,
            rw (attempts, e) f,
            one_more bad (subst (λ b. Failures r (suc a) b t v) shift fails),
          )
        ]
  ]

  module _ (dlq_topic : String) where
    -- What may become of one record. In both cases its offset is committed.
    pub data Outcome (max_retries : ℕ) (r : Record) (s : Loop W) : Loop W → Type 0 where
      handled :
          {k : ℕ} {u t : Work W}
          → k < max_retries
          → Failures r 0 k s.work u
          → Success r k u t
          → Outcome max_retries r s (record {
            work = t;
            dead_letters = s.dead_letters;
            committed = s.committed ++ r ∷ [];
          })
      buried :
          {t : Work W}
          → Failures r 0 max_retries s.work t
          → Outcome max_retries r s (record {
            work = t;
            dead_letters = s.dead_letters ++ dead dlq_topic r ∷ [];
            committed = s.committed ++ r ∷ [];
          })

    -- The records of a list, one after the other.
    pub data Outcomes (max_retries : ℕ) : List Record → Loop W → Loop W → Type 0 where
      finished : {s : Loop W} → Outcomes max_retries [] s s
      then :
          {r : Record} {rs : List Record} {s t u : Loop W}
          → Outcome max_retries r s t
          → Outcomes max_retries rs t u
          → Outcomes max_retries (r ∷ rs) s u

    consume_one-Outcome :
        (n : ℕ) (r : Record) (s : Loop W) → Outcome n r s (consume_one handle sends dlq_topic n r s)
    unfolding consume_one Succeeds
    consume_one-Outcome n r s = elim (attempts-cases n 0 r s.work) [
      | inl (t, e, (k, u, lt, fails, ok)) ↦
          rw (consume_one, e) (handled (omega (arith, lt)) fails ok)
      | inr (t, e, fails) ↦
          rw (consume_one, e) (buried (subst (λ b. Failures r 0 b s.work t) (omega arith) fails))
    ]

    -- Each record that is polled is settled, in its order. Either one of at most `max_retries` attempts
    -- succeeds: it is handled and its judge request, if it makes one, is taken. Or every attempt fails
    -- and the record goes to the dead letters. An attempt before that either was rolled back, or was
    -- committed and its judge request refused. The loop comes to the end of any list of records.
    pub consume_all-Outcomes :
        (n : ℕ) (rs : List Record) (s : Loop W)
        → Outcomes n rs s (consume_all handle sends dlq_topic n rs s)
    unfolding consume_all
    consume_all-Outcomes n [] s = finished
    consume_all-Outcomes n (r ∷ rs) s =
        then (consume_one-Outcome n r s) (consume_all-Outcomes n rs _)

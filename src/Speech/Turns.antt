-- ===== src/Speech/Turns.antt =====
-- The turns of a transcribed call.
use actioneer_pulse.Common.{
  Bool, true, false, not, String, Option, none, some, List, [], ◌∷◌, ◌&&◌, ◌||◌, is_some, truthy,
  map, filter, filter_map, str_eq, str_eq_iff, ap, subst, sym, if◌then◌else◌, ◌≡◌, refl, ℕ, ◌+◌,
  arith,
}
use actioneer_pulse.Common.Int.{ℤ, pos}
use actioneer_pulse.Common.Dict.{Dict}
use actioneer_pulse.Common.Sort.{sort_by}
use actioneer_pulse.Model.{Utterance, Turn}
use actioneer_pulse.Model.Value.{Value, Conversions}
use actioneer_pulse.Speech.{Word, said, utterance_le, spoken_turn, turns_from, build_turns}

-- From n on the turns are numbered one by one, and each has a caller's or an agent's text.
abbrev pub IsDialogue : ℕ → List Turn → Type 0
IsDialogue n [] = Unit
IsDialogue n (t ∷ ts) =
    (t.turn_index ≡ pos n)
    × ((is_some t.transcript || is_some t.llm_spoken) ≡ true)
    × IsDialogue (n + 1) ts

abbrev pub heard : Dict (List Word) → String → Utterance → Bool
heard words channel u = truthy (said words u) && str_eq u.channel channel

abbrev pub answer : Turn → Option Value
answer t = t.llm_spoken

-- The texts that the agent says in these utterances.
abbrev pub agent_texts : Dict (List Word) → List Utterance → List Value
agent_texts words us = map (λ u. Value.text (said words u)) (filter (heard words "agent") us)

or_true : (b : Bool) → (b || true) ≡ true
or_true true = refl
or_true false = refl

not_both : (channel : String) → str_eq channel "caller" ≡ true → str_eq channel "agent" ≡ false
unfolding str_eq
not_both channel h =
    let e : channel ≡ "caller" = (str_eq_iff channel "caller").0 h in
    subst (λ x. str_eq x "agent" ≡ false) (sym e) refl

module _ ⦃c : Conversions⦄ where
  if-IsDialogue :
      (n : ℕ) (silent caller agent : Bool) (a b c : List Turn)
      → IsDialogue n a
      → IsDialogue n b
      → IsDialogue n c
      → IsDialogue n (if silent then a else if caller then b else if agent then c else a)
  if-IsDialogue n true caller agent a b c ha hb hc = ha
  if-IsDialogue n false true agent a b c ha hb hc = hb
  if-IsDialogue n false false true a b c ha hb hc = hc
  if-IsDialogue n false false false a b c ha hb hc = ha

  turns_from-IsDialogue :
      (words : Dict (List Word)) (n : ℕ) (pending : Option (String × ℤ)) (us : List Utterance)
      → IsDialogue n (turns_from words n pending us)
  unfolding turns_from spoken_turn
  turns_from-IsDialogue words n none [] = tt
  turns_from-IsDialogue words n (some p) [] = (refl, refl, tt)
  turns_from-IsDialogue words n pending (u ∷ us) =
      if-IsDialogue n (not (truthy (said words u))) (str_eq u.channel "caller")
        (str_eq u.channel "agent") _ _ _ (turns_from-IsDialogue words n pending us)
        (turns_from-IsDialogue words n (some (said words u, u.t_end)) us)
        (refl, or_true _, turns_from-IsDialogue words (n + 1) none us)

  if-answers :
      (f : Utterance → Value) (u : Utterance) (us : List Utterance) (spoken caller agent : Bool)
      (a b c : List Turn)
      → (caller ≡ true → agent ≡ false)
      → filter_map answer a ≡ map f us
      → filter_map answer b ≡ map f us
      → filter_map answer c ≡ f u ∷ map f us
      → filter_map answer (if not spoken then a else if caller then b else if agent then c else a)
        ≡ map f (if spoken && agent then u ∷ us else us)
  if-answers f u us spoken caller agent a b c apart ha hb hc = ground (arith, apart, ha, hb, hc)

  turns_from-answers :
      (words : Dict (List Word)) (n : ℕ) (pending : Option (String × ℤ)) (us : List Utterance)
      → filter_map answer (turns_from words n pending us) ≡ agent_texts words us
  unfolding turns_from spoken_turn
  turns_from-answers words n none [] = refl
  turns_from-answers words n (some p) [] = refl
  turns_from-answers words n pending (u ∷ us) =
      let told = λ (x : Utterance). Value.text (said words x) in
      if-answers told u (filter (heard words "agent") us) (truthy (said words u))
        (str_eq u.channel "caller") (str_eq u.channel "agent") _ _ _ (not_both u.channel)
        (turns_from-answers words n pending us)
        (turns_from-answers words n (some (said words u, u.t_end)) us)
        (ap (λ vs. told u ∷ vs) (turns_from-answers words (n + 1) none us))

  -- For any utterances and words, the turns of a transcribed call carry the indices 0, 1, 2, … in
  -- this order, each of them has a caller's or an agent's text, and the agent's texts are, turn by
  -- turn, what is said in the utterances of the agent with words in their window, in the order of
  -- their starts: nothing that the agent says is dropped, merged or changed.
  pub build_turns-IsDialogue :
      (utterances : List Utterance) (words : Dict (List Word))
      → IsDialogue 0 (build_turns utterances words)
        × (filter_map answer (build_turns utterances words)
            ≡ agent_texts words (sort_by utterance_le utterances))
  unfolding build_turns
  build_turns-IsDialogue utterances words =
      let us = sort_by utterance_le utterances in
      (turns_from-IsDialogue words 0 none us, turns_from-answers words 0 none us)

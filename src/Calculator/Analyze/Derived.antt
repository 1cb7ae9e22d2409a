-- ===== src/Calculator/Analyze/Derived.antt =====
-- What the switches of `analyze` change.
use actioneer_pulse.Common.{
  arith, map, ap, Bool, true, false, not, Option, none, [], ◌&&◌, nonempty, get_or, ◌≡◌, ℕ,
}
use actioneer_pulse.Common.Int.{ℤ, pos}
use actioneer_pulse.Model.{Trace, TrustReason}
use actioneer_pulse.Model.Value.{Conversions}
use actioneer_pulse.Calculator.Report.{
  MetricConfig, reasons_of, audio_reasons, trace_reasons, trust_report,
}
use actioneer_pulse.Calculator.Report.Reasons.{names, reasons_of_iff}
use actioneer_pulse.Calculator.Turns.{turn_spans}
use actioneer_pulse.Calculator.Derive.{turns_from_events}
use actioneer_pulse.Calculator.Analyze.{analyze, build_turns}

-- The other name of a missing audio.
abbrev pub disabled : TrustReason → TrustReason
disabled TrustReason.audio_missing = TrustReason.audio_disabled
disabled r = r

reasons_of-disabled :
    (trace : Trace) (cfg : MetricConfig) (derived : Bool)
    → reasons_of trace none cfg false derived
      ≡ map disabled (reasons_of trace none cfg true derived)
unfolding reasons_of audio_reasons trace_reasons
reasons_of-disabled trace cfg derived = ground arith

module _ ⦃c : Conversions⦄ where
  -- An analysis with the audio overlay switched off is the analysis of a call whose audio is missing,
  -- in the turns, the metrics and every part of the report, but for one thing: where the reasons of
  -- the latter name the missing audio, those of the former name the disabled overlay. The one names
  -- it, and the other does not.
  pub analyze_disabled :
      (version : ℕ) (trace : Trace) (cfg : MetricConfig) (t0 : Option ℤ)
      → let off = analyze version trace none cfg t0 false in
        let lost = analyze version trace none cfg t0 true in
        (off
          ≡ record lost { trust = record lost.trust { reasons = map disabled lost.trust.reasons } })
        × (names TrustReason.audio_disabled off.trust.reasons ≡ true)
        × (names TrustReason.audio_missing off.trust.reasons ≡ false)
        × (names TrustReason.audio_missing lost.trust.reasons ≡ true)
        × (names TrustReason.audio_disabled lost.trust.reasons ≡ false)
  unfolding analyze trust_report
  analyze_disabled version trace cfg t0 =
      let derived =
        not (nonempty (build_turns 0 (turn_spans trace.spans) trace.spans [] (get_or t0 (pos 0))))
        && nonempty (turns_from_events trace) in
      let off = reasons_of_iff trace none cfg false derived in
      let lost = reasons_of_iff trace none cfg true derived in
      (
        ap
            (λ reasons.
              let a = analyze version trace none cfg t0 true in
              record a { trust = record a.trust { reasons = reasons } })
            (reasons_of-disabled trace cfg derived),
        off.1,
        off.0,
        lost.0,
        lost.1,
      )

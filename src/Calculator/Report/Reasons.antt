-- ===== src/Calculator/Report/Reasons.antt =====
-- Exactly when the trust report names each reason.
use actioneer_pulse.Common.{
  Bool, false, not, Option, List, ◌&&◌, any, is_some, nonempty, ◌==◌, ◌≡◌, ℕ, arith,
}
use actioneer_pulse.Common.Int.{pos, ltb_ℤ}
use actioneer_pulse.Model.{Trace, AudioAnalysis, TrustReason}
use actioneer_pulse.Calculator.Report.{
  MetricConfig, reasons_of, untimed, is_s2s, is_partial, coverage_of, dropped_events,
}

abbrev reason_code : TrustReason → ℕ
reason_code TrustReason.telemetry_truncated = 0
reason_code TrustReason.trace_missing = 1
reason_code TrustReason.trace_not_applicable = 2
reason_code TrustReason.audio_missing = 3
reason_code TrustReason.audio_disabled = 4
reason_code TrustReason.artifact_missing = 5
reason_code TrustReason.audio_partial = 6
reason_code TrustReason.producer_schema_unsupported = 7
reason_code TrustReason.gate_timeout = 8
reason_code TrustReason.timing_missing = 9
reason_code TrustReason.turns_derived = 10

-- `r in reasons`
abbrev pub names : TrustReason → List TrustReason → Bool
names r reasons = any (λ x. reason_code r == reason_code x) reasons

-- For any trace, audio, thresholds and switches: a missing audio is named as an outage when the
-- overlay is on and as a choice when it is off; an empty trace is named as not applicable for a
-- speech-to-speech engine and as missing for any other; spans without any clock are named when
-- there are spans; partial audio, dropped events and derived turns are named exactly when they
-- occur; and no other reason is ever named here.
pub reasons_of_iff :
    (trace : Trace) (audio : Option AudioAnalysis) (cfg : MetricConfig) (enabled derived : Bool)
    → let r = reasons_of trace audio cfg enabled derived in
      (names TrustReason.audio_missing r ≡ (not (is_some audio) && enabled))
      × (names TrustReason.audio_disabled r ≡ (not (is_some audio) && not enabled))
      × (names TrustReason.trace_missing r
          ≡ (not (nonempty trace.spans) && not (is_s2s trace.header.engine)))
      × (names TrustReason.trace_not_applicable r
          ≡ (not (nonempty trace.spans) && is_s2s trace.header.engine))
      × (names TrustReason.timing_missing r ≡ (nonempty trace.spans && untimed trace.spans))
      × (names TrustReason.audio_partial r
          ≡ is_partial (coverage_of audio) cfg.partial_coverage_threshold)
      × (names TrustReason.telemetry_truncated r ≡ ltb_ℤ (pos 0) (dropped_events trace.header))
      × (names TrustReason.turns_derived r ≡ derived)
      × (names TrustReason.artifact_missing r ≡ false)
      × (names TrustReason.producer_schema_unsupported r ≡ false)
      × (names TrustReason.gate_timeout r ≡ false)
unfolding reasons_of
reasons_of_iff trace audio cfg enabled derived = ground arith

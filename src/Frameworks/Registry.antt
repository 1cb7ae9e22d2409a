-- ===== src/Frameworks/Registry.antt =====
-- The registered frameworks: src/voiceobs/frameworks/__init__.py, and `framework_for` of base.py.
use actioneer_pulse.Common.{Bool, String, Option, List, [], ◌∷◌, find, ℕ}
use actioneer_pulse.Common.Int.{ℤ}
use actioneer_pulse.Model.{Trace}
use actioneer_pulse.Model.Value.{Conversions}
use actioneer_pulse.Frameworks.Otlp.{Payload}
use actioneer_pulse.Frameworks.Generic.{to_trace}
use actioneer_pulse.Frameworks.Livekit.{Metrics, livekit_matches, livekit_trace}
use actioneer_pulse.Frameworks.Pipecat.{pipecat, pipecat_matches}

-- A framework has the default calculator.
pub record Framework : Type 0 where
  pub name : String
  pub version : ℕ
  pub matches : Payload → Bool
  pub to_trace : Payload → Option Trace

module _ ⦃c : Conversions⦄ (loads : String → Option Metrics) (grain : ℤ → ℤ) where
  unfoldable pub registry : List Framework
  registry =
      record {
        name = "livekit";
        version = 1;
        matches = livekit_matches;
        to_trace = livekit_trace loads grain;
      }
      ∷ record {
        name = "pipecat";
        version = 1;
        matches = pipecat_matches;
        to_trace = to_trace pipecat grain;
      }
      ∷ []

  unfoldable pub framework_for : Payload → Option Framework
  unfolding registry
  framework_for payload = find (λ f. f.matches payload) registry

-- ===== src/Frameworks/Otlp.antt =====
-- src/voiceobs/frameworks/otlp.py: the export's attribute values and spans. An export is what the
-- JSON decoder made of it; times are nanoseconds.
use actioneer_pulse.Common.{Bool, String, Option, none, some, List, [], ◌∷◌, ℕ, map, flat_map}
use actioneer_pulse.Common.Int.{ℤ}
use actioneer_pulse.Common.Dict.{Dict, insert}
use actioneer_pulse.Model.Value.{Value, Conversions, str_of}

-- An AnyValue by the first key that `unwrap` asks for; int64 has been read as a number.
mutual
  pub data AnyValue : Type 0 where
    unset : AnyValue
    string_value : String → AnyValue
    bool_value : Bool → AnyValue
    int_value : ℤ → AnyValue
    double_value : ℤ → AnyValue
    array_value : AnyValues → AnyValue
    kvlist_value : KeyValues → AnyValue

  pub data AnyValues : Type 0 where
    end : AnyValues
    also : AnyValue → AnyValues → AnyValues

  pub data KeyValues : Type 0 where
    none_left : KeyValues
    key_value : String → AnyValue → KeyValues → KeyValues

module _ ⦃c : Conversions⦄ where
  unfoldable mutual
    pub unwrap : AnyValue → Value
    unwrap unset = Value.null
    unwrap (string_value s) = Value.text s
    unwrap (bool_value b) = Value.flag b
    unwrap (int_value n) = Value.int n
    unwrap (double_value x) = Value.real x
    unwrap (array_value vs) = Value.items (unwrap_all vs)
    unwrap (kvlist_value kvs) = Value.fields (map (λ kv. (kv.0, str_of kv.1)) (flatten [] kvs))

    pub unwrap_all : AnyValues → List String
    unwrap_all end = []
    unwrap_all (also v vs) = str_of (unwrap v) ∷ unwrap_all vs

    pub flatten : Dict Value → KeyValues → Dict Value
    flatten flat none_left = flat
    flatten flat (key_value k v kvs) = flatten (insert k (unwrap v) flat) kvs

  unfoldable pub attrs_to_dict : Option KeyValues → Dict Value
  unfolding flatten
  attrs_to_dict none = []
  attrs_to_dict (some kvs) = flatten [] kvs

pub record OtlpEvent : Type 0 where
  pub name : String
  pub time : ℕ
  pub attributes : Option KeyValues

-- A span of the export. `status_code` is the text of `status.code`, empty where it is missing.
pub record OtlpSpan : Type 0 where
  pub span_id : String
  pub trace_id : Option String
  pub parent_span_id : Option String
  pub name : String
  pub start_time : ℕ
  pub end_time : Option ℕ
  pub status_code : String
  pub attributes : Option KeyValues
  pub events : List OtlpEvent

-- `none` is the empty dict.
pub record Resource : Type 0 where
  pub attributes : Option KeyValues

pub record ResourceSpans : Type 0 where
  pub resource : Option Resource
  pub scope_spans : List (List OtlpSpan)

-- The `resourceSpans` of an export.
abbrev pub Payload : Type 0
Payload = List ResourceSpans

abbrev pub resource_attributes : Option Resource → Option KeyValues
resource_attributes none = none
resource_attributes (some r) = r.attributes

-- The spans of all scopes in their order.
abbrev pub all_spans : List (List OtlpSpan) → List OtlpSpan
all_spans scopes = flat_map (λ spans. spans) scopes

module _ ⦃c : Conversions⦄ where
  unfoldable pub iter_spans : Payload → List (Dict Value × OtlpSpan)
  unfolding attrs_to_dict
  iter_spans payload =
      flat_map
        (λ rs.
          map (λ s. (attrs_to_dict (resource_attributes rs.resource), s))
            (all_spans rs.scope_spans))
        payload

  unfoldable pub span_events : OtlpSpan → List (String × ℕ × Dict Value)
  unfolding attrs_to_dict
  span_events s = map (λ e. (e.name, e.time, attrs_to_dict e.attributes)) s.events

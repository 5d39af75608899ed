-- ===== src/Types/Error.antt =====
-- src/types/error.rs: typed failures.
pub mod Wire
use ldp_protocol.Common.{
  String, Bool, true, false, Option, none, some, if◌then◌else◌, ◌==◌, [], ◌∷◌, ◌++◌,
}
use ldp_protocol.Common.Text.{◌<>◌}
use ldp_protocol.Externals.{json, skip_none, Externals}
use ldp_protocol.Json.{required, optional, as_value, as_is, ◌>>=◌}

pub data FailureCategory : Type 0 where
  identity_failure capability_failure policy_failure runtime_failure : FailureCategory
  quality_failure session_failure transport_failure security_failure : FailureCategory

pub data ErrorSeverity : Type 0 where
  warning error fatal : ErrorSeverity

-- `{:?}` of a category.
abbrev pub debug : FailureCategory → String
debug identity_failure = "Identity"
debug capability_failure = "Capability"
debug policy_failure = "Policy"
debug runtime_failure = "Runtime"
debug quality_failure = "Quality"
debug session_failure = "Session"
debug transport_failure = "Transport"
debug security_failure = "Security"

-- serde's names, under rename_all = "snake_case", and their reading.
abbrev pub category_name : FailureCategory → String
category_name identity_failure = "identity"
category_name capability_failure = "capability"
category_name policy_failure = "policy"
category_name runtime_failure = "runtime"
category_name quality_failure = "quality"
category_name session_failure = "session"
category_name transport_failure = "transport"
category_name security_failure = "security"

abbrev pub parse_category : String → Option FailureCategory
parse_category s =
    if s == "identity"
    then some identity_failure
    else if s == "capability"
    then some capability_failure
    else if s == "policy"
    then some policy_failure
    else if s == "runtime"
    then some runtime_failure
    else if s == "quality"
    then some quality_failure
    else if s == "session"
    then some session_failure
    else if s == "transport"
    then some transport_failure
    else if s == "security"
    then some security_failure
    else none

abbrev pub severity_name : ErrorSeverity → String
severity_name warning = "warning"
severity_name error = "error"
severity_name fatal = "fatal"

abbrev pub parse_severity : String → Option ErrorSeverity
parse_severity s =
    if s == "warning"
    then some warning
    else if s == "error"
    then some error
    else if s == "fatal"
    then some fatal
    else none

module _ ⦃ext : Externals⦄ where
  pub record LdpError : Type 0 where
    pub code : String
    pub category : FailureCategory
    pub message : String
    pub severity : ErrorSeverity
    pub retryable : Bool
    pub partial_output : Option ext.Value

  unfoldable pub identity : String → String → LdpError
  identity code message = record {
    code = code;
    category = identity_failure;
    message = message;
    severity = error;
    retryable = false;
    partial_output = none;
  }

  unfoldable pub capability : String → String → LdpError
  capability code message = record {
    code = code;
    category = capability_failure;
    message = message;
    severity = error;
    retryable = false;
    partial_output = none;
  }

  unfoldable pub policy : String → String → LdpError
  policy code message = record {
    code = code;
    category = policy_failure;
    message = message;
    severity = fatal;
    retryable = false;
    partial_output = none;
  }

  unfoldable pub runtime : String → String → LdpError
  runtime code message = record {
    code = code;
    category = runtime_failure;
    message = message;
    severity = error;
    retryable = true;
    partial_output = none;
  }

  unfoldable pub quality : String → String → LdpError
  quality code message = record {
    code = code;
    category = quality_failure;
    message = message;
    severity = warning;
    retryable = false;
    partial_output = none;
  }

  unfoldable pub session : String → String → LdpError
  session code message = record {
    code = code;
    category = session_failure;
    message = message;
    severity = error;
    retryable = true;
    partial_output = none;
  }

  unfoldable pub transport : String → String → LdpError
  transport code message = record {
    code = code;
    category = transport_failure;
    message = message;
    severity = warning;
    retryable = true;
    partial_output = none;
  }

  unfoldable pub security : String → String → LdpError
  security code message = record {
    code = code;
    category = security_failure;
    message = message;
    severity = fatal;
    retryable = false;
    partial_output = none;
  }

  unfoldable pub with_partial_output : LdpError → ext.Value → LdpError
  with_partial_output e output = record e { partial_output = some output }

  -- Display
  unfoldable pub to_string : LdpError → String
  to_string e = "[" <> debug e.category <> "] " <> e.code <> ": " <> e.message

  -- The derived Serialize and Deserialize.
  unfoldable pub to_value : LdpError → ext.Value
  to_value e = json (
      (("code", ext.string e.code)
        ∷ ("category", ext.string (category_name e.category))
        ∷ ("message", ext.string e.message)
        ∷ ("severity", ext.string (severity_name e.severity))
        ∷ ("retryable", ext.bool e.retryable)
        ∷ [])
      ++ skip_none "partial_output" as_is e.partial_output)

  unfoldable pub from_value : ext.Value → Option LdpError
  from_value v = do
    code ← required ext.as_str "code" v
    category ← required (λ x. ext.as_str x >>= parse_category) "category" v
    message ← required ext.as_str "message" v
    severity ← required (λ x. ext.as_str x >>= parse_severity) "severity" v
    retryable ← required ext.as_bool "retryable" v
    partial_output ← optional as_value "partial_output" v
    some (record {
      code = code;
      category = category;
      message = message;
      severity = severity;
      retryable = retryable;
      partial_output = partial_output;
    })

-- ===== src/Server.antt =====
-- src/server.rs: the server's state, which has the fields of `LdpServer` and, beside them, how often
-- the clock and the generator of identifiers were read; what makes one, and what only reads it.
pub mod Handlers
pub mod Frame
pub mod Gate
pub mod Sessions
pub mod Proposals
pub mod Readable
pub mod Tasks
pub mod Answers
pub mod Cancellation
pub mod View
pub mod Refines
pub mod Concurrent
use ldp_protocol.Common.{
  ℕ, String, Bool, true, false, not, Option, none, some, List, [], ◌∷◌, map, length, filter,
  unwrap_or, and_then, if◌then◌else◌, Result, ok, err, Exec, continue, ◌>>=◌, ◌>>◌, pure, raise,
}
use ldp_protocol.Common.HashMap
use ldp_protocol.Common.HashMap.{HashMap, insert, remove, values}
use ldp_protocol.Common.Text.{◌<>◌}
use ldp_protocol.Externals.{Externals, Entropy, utc_now, json, get}
use ldp_protocol.Types.Capability
use ldp_protocol.Types.Capability.{LdpCapability}
use ldp_protocol.Types.Error
use ldp_protocol.Types.Error.{LdpError}
use ldp_protocol.Types.Identity
use ldp_protocol.Types.Identity.{LdpIdentityCard}
use ldp_protocol.Types.Messages
use ldp_protocol.Types.Messages.{
  LdpEnvelope, LdpMessageBody, hello, capability_manifest, session_propose, session_accept,
  session_reject, task_submit, task_update, task_result, task_failed, task_cancel, session_close,
}
use ldp_protocol.Types.Payload
use ldp_protocol.Types.Payload.{PayloadMode, text, semantic_frame, negotiate_payload_mode}
use ldp_protocol.Types.Provenance
use ldp_protocol.Types.Provenance.{Provenance}
use ldp_protocol.Types.Session.{LdpSession, active}
use ldp_protocol.Types.Trust
use ldp_protocol.Types.Trust.{TrustDomain, trusts}
use ldp_protocol.Types.Verification.{self_verified}
use ldp_protocol.Signing.{verify_envelope, sign_if_configured}

pub data TaskRecordState : Type 0 where
  submitted working completed failed : TaskRecordState

-- `state == TaskRecordState::Completed`, by the derived PartialEq.
abbrev pub is_completed : TaskRecordState → Bool
is_completed submitted = false
is_completed working = false
is_completed completed = true
is_completed failed = false

module _ ⦃ext : Externals⦄ where
  pub record TaskRecord : Type 0 where
    pub task_id : String
    pub skill : String
    pub state : TaskRecordState
    pub output : Option ext.Value
    pub error : Option String

  pub record LdpServer : Type 0 where
    pub identity : LdpIdentityCard
    pub sessions : HashMap LdpSession
    pub tasks : HashMap TaskRecord
    pub handler : String → ext.Value → ext.Value
    pub signing_secret : Option String
    pub entropy : Entropy

  unfoldable pub new : LdpIdentityCard → (String → ext.Value → ext.Value) → Entropy → LdpServer
  new identity handler e = record {
    identity = identity;
    sessions = [];
    tasks = [];
    handler = handler;
    signing_secret = none;
    entropy = e;
  }

  unfoldable pub with_signing_secret : LdpServer → String → LdpServer
  with_signing_secret s secret = record s { signing_secret = some secret }

  abbrev pub echo_identity : String → String → LdpIdentityCard
  echo_identity delegate_id name = record {
    delegate_id = delegate_id;
    name = name;
    description = some "Echo test server";
    model_family = "TestModel";
    model_version = "1.0";
    weights_fingerprint = none;
    trust_domain = record { name = "test-domain"; allow_cross_domain = false; trusted_peers = [] };
    context_window = 4096;
    reasoning_profile = some "analytical";
    cost_profile = some "low";
    latency_profile = some "p50:100ms";
    jurisdiction = none;
    capabilities =
        record {
          name = "echo";
          description = some "Echoes input back";
          input_schema = none;
          output_schema = none;
          quality = none;
          domains = [];
        }
        ∷ [];
    supported_payload_modes = semantic_frame ∷ text ∷ [];
    endpoint = "";
    metadata = [];
  }

  unfoldable pub echo_server : String → String → Entropy → LdpServer
  unfolding new
  echo_server delegate_id name =
      new (echo_identity delegate_id name) (λ _ input. json (("echo", input) ∷ []))

  -- GET /ldp/identity
  unfoldable pub handle_identity_request : LdpServer → ext.Value
  handle_identity_request s = Identity.to_value s.identity

  -- GET /ldp/capabilities, and the payload of CAPABILITY_MANIFEST
  unfoldable pub handle_capabilities_request : LdpServer → ext.Value
  handle_capabilities_request s = json (
      ("capabilities", ext.array (map Capability.to_value s.identity.capabilities))
      ∷ ("supported_modes", Payload.modes_to_value s.identity.supported_payload_modes)
      ∷ [])

  unfoldable pub active_sessions : LdpServer → ℕ
  active_sessions s = length s.sessions

  unfoldable pub completed_tasks : LdpServer → ℕ
  completed_tasks s = length (filter (λ t. is_completed t.state) (values s.tasks))

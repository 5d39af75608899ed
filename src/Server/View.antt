-- ===== src/Server/View.antt =====
-- What the server (src/server.rs) promises, without its maps, messages, clock and signatures: an
-- abstract machine over the modes of the open sessions and the outputs of the tasks.
use ldp_protocol.Common.{
  String, Bool, true, Option, none, some, List, [], ◌∷◌, and_then, if◌then◌else◌, Result, ok, err,
  ◌==◌,
}
use ldp_protocol.Common.HashMap
use ldp_protocol.Externals.{Externals}
use ldp_protocol.Types.Identity.{LdpIdentityCard}
use ldp_protocol.Types.Messages.{
  LdpEnvelope, LdpMessageBody, hello, capability_manifest, session_propose, session_accept,
  session_reject, task_submit, task_update, task_result, task_failed, task_cancel, session_close,
}
use ldp_protocol.Types.Payload.{PayloadMode, text, negotiate_payload_mode}
use ldp_protocol.Types.Trust.{trusts}
use ldp_protocol.Signing.{sign_envelope}
use ldp_protocol.Server.{LdpServer, handle_capabilities_request}
use ldp_protocol.Server.Handlers.{handle_message, is_hello, remote_domain, requested_mode}

module _ ⦃ext : Externals⦄ where
  -- The open sessions with their modes, and the known tasks with their outputs.
  pub record View : Type 0 where
    pub sessions : String → Option PayloadMode
    pub tasks : String → Option ext.Value

  -- What a client makes of an answer, or of an error.
  pub data Reply : Type 0 where
    manifest : ext.Value → Reply
    accepted : String → PayloadMode → Reply
    rejected : Reply
    result : String → ext.Value → Reply
    failed : String → Reply
    acknowledged : Reply
    other : Reply
    refused : Reply

  -- What is fixed when a server starts.
  pub record Setup : Type 0 where
    pub identity : LdpIdentityCard
    pub handler : String → ext.Value → ext.Value
    pub signing_secret : Option String
    pub capabilities : ext.Value

  -- A function, changed at one key.
  abbrev pub update : {A : Type 0} → (String → Option A) → String → Option A → String → Option A
  update f k o j = if k == j then o else f j

  -- Without a secret every message is let in; with one, those that carry the right signature, and
  -- a greeting without any.
  abbrev pub is_admitted : Option String → LdpEnvelope → Bool
  is_admitted none e = true
  is_admitted (some secret) e = elim e.signature [
    | some sig ↦ sig == sign_envelope e secret
    | none ↦ is_hello e.body
  ]

  abbrev pub propose : Setup → String → ext.Value → View → Reply × View
  propose w id config v =
      if trusts w.identity.trust_domain (remote_domain config)
      then (let mode =
            (negotiate_payload_mode (requested_mode config ∷ text ∷ [])
              w.identity.supported_payload_modes).mode in
          (accepted id mode, record v { sessions = update v.sessions id (some mode) }))
      else (rejected, v)

  abbrev pub ask : String → Option ext.Value → Reply
  ask t none = refused
  ask t (some output) = result t output

  -- The abstract machine, for a message in a session.
  unfoldable pub react : Setup → String → LdpMessageBody → View → Reply × View
  react w id (hello _ _) v = (manifest w.capabilities, v)
  react w id (session_propose config) v = propose w id config v
  react w id (task_submit t skill input _) v =
      let output = w.handler skill input in
      (result t output, record v { tasks = update v.tasks t (some output) })
  react w id (task_update t _ _) v = (ask t (v.tasks t), v)
  react w id (task_cancel t) v = (failed t, record v { tasks = update v.tasks t none })
  react w id (session_close _) v = (acknowledged, record v { sessions = update v.sessions id none })
  react w id _ v = (refused, v)

  unfoldable pub receive : Setup → LdpEnvelope → View → Reply × View
  unfolding react
  receive w e v =
      if is_admitted w.signing_secret e then react w e.session_id e.body v else (refused, v)

  -- All answers to a sequence of messages, and what is left.
  unfoldable pub receive_all : Setup → List LdpEnvelope → View → List Reply × View
  unfolding receive
  receive_all w [] v = ([], v)
  receive_all w (e ∷ es) v =
      let (reply, v') = receive w e v in
      let (replies, v'') = receive_all w es v' in (reply ∷ replies, v'')

  -- The view of a server.
  unfoldable pub view : LdpServer → View
  view s = record {
    sessions = λ id. and_then (HashMap.get s.sessions id) (λ session. some session.payload.mode);
    tasks = λ t. and_then (HashMap.get s.tasks t) (λ found. found.output);
  }

  unfoldable pub setup : LdpServer → Setup
  setup s = record {
    identity = s.identity;
    handler = s.handler;
    signing_secret = s.signing_secret;
    capabilities = handle_capabilities_request s;
  }

  abbrev pub read_body : LdpMessageBody → Reply
  read_body (capability_manifest capabilities) = manifest capabilities
  read_body (session_accept id mode) = accepted id mode
  read_body (session_reject _ _) = rejected
  read_body (task_result t output _) = result t output
  read_body (task_failed t _) = failed t
  read_body (session_close _) = acknowledged
  read_body _ = other

  unfoldable pub read : Result LdpEnvelope → Reply
  read (ok r) = read_body r.body
  read (err _) = refused

  -- All answers of the server to a sequence of messages, and the server afterwards.
  unfoldable pub converse : LdpServer → List LdpEnvelope → List Reply × LdpServer
  unfolding read
  converse s [] = ([], s)
  converse s (e ∷ es) =
      let (answer, s') = handle_message e s in
      let (replies, s'') = converse s' es in (read answer ∷ replies, s'')

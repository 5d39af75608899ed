-- ===== src/Server/Handlers.antt =====
-- src/server.rs: the handlers of messages, each an action on the server's state, and
-- `handle_message`.
use ldp_protocol.Common.{
  ℕ, String, Bool, true, false, Option, none, some, [], ◌∷◌, unwrap_or, and_then, if◌then◌else◌,
  Result, ok, err, Exec, ◌>>=◌, ◌>>◌, raise,
}
use ldp_protocol.Common.HashMap
use ldp_protocol.Common.HashMap.{HashMap, insert, remove, values}
use ldp_protocol.Common.Text.{◌<>◌}
use ldp_protocol.Externals.{Externals, Entropy, utc_now, get}
use ldp_protocol.Types.Error
use ldp_protocol.Types.Error.{LdpError}
use ldp_protocol.Types.Messages
use ldp_protocol.Types.Messages.{
  LdpEnvelope, LdpMessageBody, hello, capability_manifest, session_propose, session_accept,
  session_reject, task_submit, task_update, task_result, task_failed, task_cancel, session_close,
}
use ldp_protocol.Types.Payload
use ldp_protocol.Types.Payload.{PayloadMode, text, semantic_frame, negotiate_payload_mode}
use ldp_protocol.Types.Provenance
use ldp_protocol.Types.Provenance.{Provenance}
use ldp_protocol.Types.Session.{LdpSession, active}
use ldp_protocol.Types.Trust.{trusts}
use ldp_protocol.Types.Verification.{self_verified}
use ldp_protocol.Signing.{verify_envelope, sign_if_configured}
use ldp_protocol.Server.{
  TaskRecordState, submitted, working, completed, failed, TaskRecord, LdpServer,
  handle_capabilities_request,
}

-- `format!("{:?}", state).to_lowercase()`
abbrev pub state_text : TaskRecordState → String
state_text submitted = "submitted"
state_text working = "working"
state_text completed = "completed"
state_text failed = "failed"

module _ ⦃ext : Externals⦄ where
  -- `Ok(LdpEnvelope::new(session_id, &self.identity.delegate_id, &envelope.from, body, mode))`
  unfoldable pub respond : LdpEnvelope → LdpMessageBody → PayloadMode → Exec LdpServer LdpEnvelope
  unfolding Messages.new
  respond envelope body mode s =
      let (response, e) =
        Messages.new envelope.session_id s.identity.delegate_id envelope.from body mode s.entropy in
      (ok response, record s { entropy = e })

  unfoldable pub handle_hello : LdpEnvelope → Exec LdpServer LdpEnvelope
  handle_hello envelope s =
      respond envelope (capability_manifest (handle_capabilities_request s)) text s

  -- What the handler reads from the proposed configuration.
  abbrev pub remote_domain : ext.Value → String
  remote_domain config = unwrap_or (and_then (get config "trust_domain") ext.as_str) "unknown"

  abbrev pub requested_mode : ext.Value → PayloadMode
  requested_mode config =
      unwrap_or (and_then (get config "payload_mode") Payload.from_value) semantic_frame

  abbrev pub requested_ttl : ext.Value → ℕ
  requested_ttl config = unwrap_or (and_then (get config "ttl_secs") ext.as_u64) 3600

  -- The early return: the domain of the proposer is not trusted.
  unfoldable pub reject_session : LdpEnvelope → String → Exec LdpServer LdpEnvelope
  reject_session envelope domain s =
      let reason =
        "Trust domain '" <> domain <> "' not trusted by '" <> s.identity.trust_domain.name <> "'" in
      respond envelope (session_reject reason (some (Error.policy "TRUST_VIOLATION" reason))) text s

  -- What follows the check: negotiate, create the session, store it and accept.
  unfoldable pub accept_session : LdpEnvelope → ext.Value → Exec LdpServer LdpEnvelope
  unfolding utc_now
  accept_session envelope config s =
      let negotiated =
        negotiate_payload_mode (requested_mode config ∷ text ∷ [])
          s.identity.supported_payload_modes in
      let (now, e) = utc_now s.entropy in
      let session : LdpSession = record {
        session_id = envelope.session_id;
        remote_url = "";
        remote_delegate_id = envelope.from;
        state = active;
        payload = negotiated;
        trust_domain = s.identity.trust_domain;
        created_at = now;
        last_used = now;
        ttl_secs = requested_ttl config;
        task_count = 0;
      } in
      respond envelope (session_accept envelope.session_id negotiated.mode) text
        (record s { sessions = insert s.sessions envelope.session_id session; entropy = e })

  unfoldable pub handle_session_propose : LdpEnvelope → ext.Value → Exec LdpServer LdpEnvelope
  handle_session_propose envelope config s =
      if trusts s.identity.trust_domain (remote_domain config)
      then accept_session envelope config s
      else reject_session envelope (remote_domain config) s

  -- The provenance of a result: this server's, verified by itself.
  unfoldable pub own_provenance : LdpServer → Provenance × Entropy
  unfolding Provenance.new
  own_provenance s =
      let (p, e) = Provenance.new s.identity.delegate_id s.identity.model_version s.entropy in
      (record p { verification_status = self_verified; verified = true }, e)

  -- The mode of the session that the envelope names, Text where there is none.
  unfoldable pub session_mode : LdpServer → String → PayloadMode
  session_mode s session_id = elim (HashMap.get s.sessions session_id) [
    | none ↦ text
    | some session ↦ session.payload.mode
  ]

  -- The record of a task that was run, put among the tasks.
  abbrev pub store_task : String → String → ext.Value → LdpServer → LdpServer
  store_task task_id skill output s =
      let done : TaskRecord = record {
        task_id = task_id;
        skill = skill;
        state = completed;
        output = some output;
        error = none;
      } in
      record s { tasks = insert s.tasks task_id done }

  -- What follows: the provenance, the session's mode and the answer.
  abbrev pub answer_submit : LdpEnvelope → String → ext.Value → Exec LdpServer LdpEnvelope
  answer_submit envelope task_id output s =
      let (provenance, e) = own_provenance s in
      respond envelope (task_result task_id output provenance) (session_mode s envelope.session_id)
        (record s { entropy = e })

  unfoldable pub handle_task_submit :
      LdpEnvelope → String → String → ext.Value → Exec LdpServer LdpEnvelope
  handle_task_submit envelope task_id skill input s =
      let output = s.handler skill input in
      answer_submit envelope task_id output (store_task task_id skill output s)

  -- The answer about a record, by its state.
  unfoldable pub status_body : LdpServer → String → TaskRecord → LdpMessageBody × Entropy
  unfolding own_provenance
  status_body s task_id record_of = elim record_of.state [
    | completed ↦
        (let (provenance, e) = own_provenance s in
          (task_result task_id (unwrap_or record_of.output ext.null) provenance, e))
    | failed ↦ (
      task_failed task_id (Error.runtime "TASK_FAILED" (unwrap_or record_of.error "unknown error")),
      s.entropy,
    )
    | submitted ↦ (task_update task_id none (some (state_text submitted)), s.entropy)
    | working ↦ (task_update task_id none (some (state_text working)), s.entropy)
  ]

  abbrev pub answer_status : Option TaskRecord → LdpEnvelope → String → Exec LdpServer LdpEnvelope
  answer_status none envelope task_id s = (err ("Unknown task: " <> task_id), s)
  answer_status (some found) envelope task_id s =
      let (body, e) = status_body s task_id found in
      respond envelope body text (record s { entropy = e })

  unfoldable pub handle_task_status_query : LdpEnvelope → String → Exec LdpServer LdpEnvelope
  unfolding status_body
  handle_task_status_query envelope task_id s =
      answer_status (HashMap.get s.tasks task_id) envelope task_id s

  unfoldable pub handle_task_cancel : LdpEnvelope → String → Exec LdpServer LdpEnvelope
  handle_task_cancel envelope task_id s =
      respond envelope (task_failed task_id (Error.runtime "CANCELLED" "Task cancelled by client"))
        text (record s { tasks = remove s.tasks task_id })

  unfoldable pub handle_session_close : LdpEnvelope → Exec LdpServer LdpEnvelope
  handle_session_close envelope s =
      respond envelope (session_close (some "acknowledged")) text
        (record s { sessions = remove s.sessions envelope.session_id })

  abbrev pub is_hello : LdpMessageBody → Bool
  is_hello (hello _ _) = true
  is_hello _ = false

  -- The first statement of `handle_message`.
  abbrev pub check_signature : Option String → LdpEnvelope → Result (Unit {0})
  check_signature none envelope = ok tt
  check_signature (some secret) envelope = elim envelope.signature [
    | some sig ↦
        (if verify_envelope envelope secret sig then ok tt else err "Invalid message signature")
    | none ↦
        (if is_hello envelope.body
          then ok tt
          else err "Message signature required but not provided")
  ]

  -- The `match` on the body.
  unfoldable pub dispatch : LdpEnvelope → LdpMessageBody → Exec LdpServer LdpEnvelope
  dispatch envelope (hello _ _) = handle_hello envelope
  dispatch envelope (session_propose config) = handle_session_propose envelope config
  dispatch envelope (task_submit task_id skill input _) =
      handle_task_submit envelope task_id skill input
  dispatch envelope (task_update task_id _ _) = handle_task_status_query envelope task_id
  dispatch envelope (task_cancel task_id) = handle_task_cancel envelope task_id
  dispatch envelope (session_close _) = handle_session_close envelope
  dispatch envelope _ = raise "Unhandled message type"

  abbrev pub check_incoming : LdpEnvelope → Exec LdpServer (Unit {0})
  check_incoming envelope s = (check_signature s.signing_secret envelope, s)

  abbrev pub sign_outgoing : LdpEnvelope → Exec LdpServer LdpEnvelope
  sign_outgoing response s = (ok (sign_if_configured s.signing_secret response), s)

  unfoldable pub handle_message : LdpEnvelope → Exec LdpServer LdpEnvelope
  handle_message envelope = do
    check_incoming envelope
    response ← dispatch envelope envelope.body
    sign_outgoing response

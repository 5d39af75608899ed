-- ===== src/Types/Messages/Json.antt =====
-- The derived Serialize and Deserialize of the bodies and the envelope of src/types/messages.rs. A
-- body is tagged internally: the name of its variant is one more field of its object.
pub mod Wire
use ldp_protocol.Common.{String, Option, none, some, List, [], ◌∷◌, ◌++◌, if◌then◌else◌, ◌==◌}
use ldp_protocol.Externals.{Externals, json, nullable, skip_none}
use ldp_protocol.Json.{required, optional, as_value, ◌>>=◌}
use ldp_protocol.Types.Contract
use ldp_protocol.Types.Error
use ldp_protocol.Types.Messages.{
  LdpEnvelope, LdpMessageBody, hello, capability_manifest, session_propose, session_accept,
  session_reject, task_submit, task_update, task_result, task_failed, task_cancel, attestation,
  session_close,
}
use ldp_protocol.Types.Payload
use ldp_protocol.Types.Provenance

module _ ⦃ext : Externals⦄ where
  -- The name of a variant, under rename_all = "SCREAMING_SNAKE_CASE", and its fields.
  abbrev pub tag : LdpMessageBody → String
  tag (hello _ _) = "HELLO"
  tag (capability_manifest _) = "CAPABILITY_MANIFEST"
  tag (session_propose _) = "SESSION_PROPOSE"
  tag (session_accept _ _) = "SESSION_ACCEPT"
  tag (session_reject _ _) = "SESSION_REJECT"
  tag (task_submit _ _ _ _) = "TASK_SUBMIT"
  tag (task_update _ _ _) = "TASK_UPDATE"
  tag (task_result _ _ _) = "TASK_RESULT"
  tag (task_failed _ _) = "TASK_FAILED"
  tag (task_cancel _) = "TASK_CANCEL"
  tag (attestation _ _) = "ATTESTATION"
  tag (session_close _) = "SESSION_CLOSE"

  abbrev pub fields : LdpMessageBody → List (String × ext.Value)
  fields (hello delegate_id supported_modes) =
      ("delegate_id", ext.string delegate_id)
      ∷ ("supported_modes", Payload.modes_to_value supported_modes)
      ∷ []
  fields (capability_manifest capabilities) = ("capabilities", capabilities) ∷ []
  fields (session_propose config) = ("config", config) ∷ []
  fields (session_accept session_id negotiated_mode) =
      ("session_id", ext.string session_id)
      ∷ ("negotiated_mode", Payload.to_value negotiated_mode)
      ∷ []
  fields (session_reject reason error) =
      ("reason", ext.string reason) ∷ skip_none "error" Error.to_value error
  fields (task_submit task_id skill input contract) =
      ("task_id", ext.string task_id)
      ∷ ("skill", ext.string skill)
      ∷ ("input", input)
      ∷ skip_none "contract" Contract.to_value contract
  fields (task_update task_id progress message) =
      ("task_id", ext.string task_id)
      ∷ ("progress", nullable ext.float progress)
      ∷ ("message", nullable ext.string message)
      ∷ []
  fields (task_result task_id output provenance) =
      ("task_id", ext.string task_id)
      ∷ ("output", output)
      ∷ ("provenance", Provenance.to_value provenance)
      ∷ []
  fields (task_failed task_id error) =
      ("task_id", ext.string task_id) ∷ ("error", Error.to_value error) ∷ []
  fields (task_cancel task_id) = ("task_id", ext.string task_id) ∷ []
  fields (attestation claim evidence) = ("claim", claim) ∷ ("evidence", evidence) ∷ []
  fields (session_close reason) = ("reason", nullable ext.string reason) ∷ []

  unfoldable pub body_to_value : LdpMessageBody → ext.Value
  body_to_value body = json (("type", ext.string (tag body)) ∷ fields body)

  -- The fields of the variant of a name.
  unfoldable pub read_variant : String → ext.Value → Option LdpMessageBody
  read_variant name v =
      if name == "HELLO"
      then (do
        delegate_id ← required ext.as_str "delegate_id" v
        supported_modes ← required Payload.modes_from_value "supported_modes" v
        some (hello delegate_id supported_modes))
      else if name == "CAPABILITY_MANIFEST"
      then (do
        capabilities ← required as_value "capabilities" v
        some (capability_manifest capabilities))
      else if name == "SESSION_PROPOSE"
      then (do config ← required as_value "config" v; some (session_propose config))
      else if name == "SESSION_ACCEPT"
      then (do
        session_id ← required ext.as_str "session_id" v
        negotiated_mode ← required Payload.from_value "negotiated_mode" v
        some (session_accept session_id negotiated_mode))
      else if name == "SESSION_REJECT"
      then (do
        reason ← required ext.as_str "reason" v
        error ← optional Error.from_value "error" v
        some (session_reject reason error))
      else if name == "TASK_SUBMIT"
      then (do
        task_id ← required ext.as_str "task_id" v
        skill ← required ext.as_str "skill" v
        input ← required as_value "input" v
        contract ← optional Contract.from_value "contract" v
        some (task_submit task_id skill input contract))
      else if name == "TASK_UPDATE"
      then (do
        task_id ← required ext.as_str "task_id" v
        progress ← optional ext.as_f64 "progress" v
        message ← optional ext.as_str "message" v
        some (task_update task_id progress message))
      else if name == "TASK_RESULT"
      then (do
        task_id ← required ext.as_str "task_id" v
        output ← required as_value "output" v
        provenance ← required Provenance.from_value "provenance" v
        some (task_result task_id output provenance))
      else if name == "TASK_FAILED"
      then (do
        task_id ← required ext.as_str "task_id" v
        error ← required Error.from_value "error" v
        some (task_failed task_id error))
      else if name == "TASK_CANCEL"
      then (do task_id ← required ext.as_str "task_id" v; some (task_cancel task_id))
      else if name == "ATTESTATION"
      then (do
        claim ← required as_value "claim" v
        evidence ← required as_value "evidence" v
        some (attestation claim evidence))
      else if name == "SESSION_CLOSE"
      then (do reason ← optional ext.as_str "reason" v; some (session_close reason))
      else none

  unfoldable pub body_from_value : ext.Value → Option LdpMessageBody
  unfolding read_variant
  body_from_value v = do name ← required ext.as_str "type" v; read_variant name v

  unfoldable pub to_value : LdpEnvelope → ext.Value
  to_value e = json (
      (("message_id", ext.string e.message_id)
        ∷ ("session_id", ext.string e.session_id)
        ∷ ("from", ext.string e.from)
        ∷ ("to", ext.string e.to)
        ∷ ("body", body_to_value e.body)
        ∷ ("payload_mode", Payload.to_value e.payload_mode)
        ∷ ("timestamp", ext.string e.timestamp)
        ∷ ("provenance", nullable Provenance.to_value e.provenance)
        ∷ skip_none "signature" ext.string e.signature)
      ++ (skip_none "signature_algorithm" ext.string e.signature_algorithm
          ++ skip_none "nonce" ext.string e.nonce))

  unfoldable pub from_value : ext.Value → Option LdpEnvelope
  from_value v = do
    message_id ← required ext.as_str "message_id" v
    session_id ← required ext.as_str "session_id" v
    from ← required ext.as_str "from" v
    to ← required ext.as_str "to" v
    body ← required body_from_value "body" v
    payload_mode ← required Payload.from_value "payload_mode" v
    timestamp ← required ext.as_str "timestamp" v
    provenance ← optional Provenance.from_value "provenance" v
    signature ← optional ext.as_str "signature" v
    signature_algorithm ← optional ext.as_str "signature_algorithm" v
    nonce ← optional ext.as_str "nonce" v
    some (record {
      message_id = message_id;
      session_id = session_id;
      from = from;
      to = to;
      body = body;
      payload_mode = payload_mode;
      timestamp = timestamp;
      provenance = provenance;
      signature = signature;
      signature_algorithm = signature_algorithm;
      nonce = nonce;
    })

-- ===== src/Types/Messages.antt =====
-- src/types/messages.rs: the message bodies and their envelope.
pub mod Json
use ldp_protocol.Common.{ℕ, String, Option, none, List}
use ldp_protocol.Externals.{Externals, Entropy, utc_now, new_v4}
use ldp_protocol.Types.Contract.{DelegationContract}
use ldp_protocol.Types.Error.{LdpError}
use ldp_protocol.Types.Payload.{PayloadMode}
use ldp_protocol.Types.Provenance.{Provenance}

module _ ⦃ext : Externals⦄ where
  -- The fields of a variant stand in the order of the source.
  pub data LdpMessageBody : Type 0 where
    hello : String → List PayloadMode → LdpMessageBody
    capability_manifest : ext.Value → LdpMessageBody
    session_propose : ext.Value → LdpMessageBody
    session_accept : String → PayloadMode → LdpMessageBody
    session_reject : String → Option LdpError → LdpMessageBody
    task_submit : String → String → ext.Value → Option DelegationContract → LdpMessageBody
    task_update : String → Option ext.Float → Option String → LdpMessageBody
    task_result : String → ext.Value → Provenance → LdpMessageBody
    task_failed : String → LdpError → LdpMessageBody
    task_cancel : String → LdpMessageBody
    attestation : ext.Value → ext.Value → LdpMessageBody
    session_close : Option String → LdpMessageBody

  -- std::mem::discriminant: the position of the variant.
  abbrev pub discriminant : LdpMessageBody → ℕ
  discriminant (hello _ _) = 0
  discriminant (capability_manifest _) = 1
  discriminant (session_propose _) = 2
  discriminant (session_accept _ _) = 3
  discriminant (session_reject _ _) = 4
  discriminant (task_submit _ _ _ _) = 5
  discriminant (task_update _ _ _) = 6
  discriminant (task_result _ _ _) = 7
  discriminant (task_failed _ _) = 8
  discriminant (task_cancel _) = 9
  discriminant (attestation _ _) = 10
  discriminant (session_close _) = 11

  pub record LdpEnvelope : Type 0 where
    pub message_id : String
    pub session_id : String
    pub from : String
    pub to : String
    pub body : LdpMessageBody
    pub payload_mode : PayloadMode
    pub timestamp : String
    pub provenance : Option Provenance
    pub signature : Option String
    pub signature_algorithm : Option String
    pub nonce : Option String

  unfoldable pub new :
      String → String → String → LdpMessageBody → PayloadMode → Entropy → LdpEnvelope × Entropy
  unfolding new_v4 utc_now
  new session_id from to body payload_mode e =
      let (id, e₁) = new_v4 e in
      let (now, e₂) = utc_now e₁ in
      (
        record {
          message_id = id;
          session_id = session_id;
          from = from;
          to = to;
          body = body;
          payload_mode = payload_mode;
          timestamp = ext.to_rfc3339 now;
          provenance = none;
          signature = none;
          signature_algorithm = none;
          nonce = none;
        },
        e₂,
      )

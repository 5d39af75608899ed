-- ===== src/Types/Session.antt =====
-- src/types/session.rs: sessions, their activity test, and their configuration.
pub mod Activity
use ldp_protocol.Common.{
  some, ℕ, String, Bool, true, false, Option, none, List, [], ◌∷◌, if◌then◌else◌,
}
use ldp_protocol.Common.Int.{ltb_ℤ, as_i64}
use ldp_protocol.Externals.{Externals, Entropy, utc_now}
use ldp_protocol.Json.{required, optional, ◌>>=◌}
use ldp_protocol.Types.Payload
use ldp_protocol.Types.Payload.{PayloadMode, semantic_frame, text, NegotiatedPayload}
use ldp_protocol.Types.Trust.{TrustDomain}

pub data SessionState : Type 0 where
  initiating proposed active suspended closed failed : SessionState

-- `state == SessionState::Active`, by the derived PartialEq.
abbrev pub is_state_active : SessionState → Bool
is_state_active initiating = false
is_state_active proposed = false
is_state_active active = true
is_state_active suspended = false
is_state_active closed = false
is_state_active failed = false

module _ ⦃ext : Externals⦄ where
  pub record LdpSession : Type 0 where
    pub session_id : String
    pub remote_url : String
    pub remote_delegate_id : String
    pub state : SessionState
    pub payload : NegotiatedPayload
    pub trust_domain : TrustDomain
    pub created_at : ext.Time
    pub last_used : ext.Time
    pub ttl_secs : ℕ
    pub task_count : ℕ

  -- The comparison of `is_active`, at the time that the clock answers.
  unfoldable pub is_fresh : LdpSession → ext.Time → Bool
  is_fresh s now = ltb_ℤ (ext.seconds_since now s.last_used) (as_i64 s.ttl_secs)

  -- The clock is read only where the state is Active.
  unfoldable pub is_active : LdpSession → Entropy → Bool × Entropy
  unfolding utc_now
  is_active s e =
      if is_state_active s.state
      then (let (now, e') = utc_now e in (is_fresh s now, e'))
      else (false, e)

  unfoldable pub touch : LdpSession → Entropy → LdpSession × Entropy
  unfolding utc_now
  touch s e = let (now, e') = utc_now e in (record s { last_used = now }, e')

pub record SessionConfig : Type 0 where
  pub preferred_payload_modes : List PayloadMode
  pub ttl_secs : ℕ
  pub required_trust_domain : Option String

-- SessionConfig::default
abbrev pub default : SessionConfig
default = record {
  preferred_payload_modes = semantic_frame ∷ text ∷ [];
  ttl_secs = 3600;
  required_trust_domain = none;
}

module _ ⦃ext : Externals⦄ where
  -- The derived Deserialize of the configuration.
  unfoldable pub config_from_value : ext.Value → Option SessionConfig
  config_from_value v = do
    preferred_payload_modes ← required Payload.modes_from_value "preferred_payload_modes" v
    ttl_secs ← required ext.as_u64 "ttl_secs" v
    required_trust_domain ← optional ext.as_str "required_trust_domain" v
    some (record {
      preferred_payload_modes = preferred_payload_modes;
      ttl_secs = ttl_secs;
      required_trust_domain = required_trust_domain;
    })

-- ===== src/SessionManager/Reading.antt =====
-- What each side of a handshake (src/session_manager.rs, src/server.rs) reads from the JSON that the
-- other side wrote.
use ldp_protocol.Common.{◌<◌, ◌^◌, ◌≡◌, refl, ok}
use ldp_protocol.Externals.{Externals, JsonLaws, json, get}
use ldp_protocol.Types.Messages.{capability_manifest}
use ldp_protocol.Types.Payload.{PayloadMode}
use ldp_protocol.Types.Payload.Wire.{from_value-to_value, modes_from_value-modes_to_value}
use ldp_protocol.Config.{LdpAdapterConfig}
use ldp_protocol.Client.{Http}
use ldp_protocol.Server.{LdpServer, handle_capabilities_request}
use ldp_protocol.Server.Handlers.{requested_mode, remote_domain, requested_ttl}
use ldp_protocol.SessionManager.{manifest_modes, proposal}

module _ ⦃ext : Externals⦄ ⦃http : Http⦄ (laws : JsonLaws) where
  -- What the server writes into its manifest is what the client reads there: the modes that the
  -- server supports, in their order.
  pub manifest_modes-handle_capabilities_request :
      (s : LdpServer)
      → manifest_modes (capability_manifest (handle_capabilities_request s))
        ≡ ok s.identity.supported_payload_modes
  unfolding handle_capabilities_request json get
  manifest_modes-handle_capabilities_request s =
      rw
        (
          laws.as_object-object,
          laws.map_get-insert,
          modes_from_value-modes_to_value laws s.identity.supported_payload_modes,
        )
        refl

  -- The server reads from the proposal the mode and the domain that the client put there.
  pub requested_mode-proposal :
      (config : LdpAdapterConfig) (mode : PayloadMode)
      → requested_mode (proposal config mode) ≡ mode
  unfolding proposal json get
  requested_mode-proposal config mode =
      rw (laws.as_object-object, laws.map_get-insert, laws.map_get-insert, laws.map_get-insert)
        (rw (from_value-to_value laws mode) refl)

  pub remote_domain-proposal :
      (config : LdpAdapterConfig) (mode : PayloadMode)
      → remote_domain (proposal config mode) ≡ config.trust_domain.name
  unfolding proposal json get
  remote_domain-proposal config mode =
      rw (laws.as_object-object, laws.map_get-insert) (rw laws.as_str-string refl)

  requested_ttl-proposal :
      (config : LdpAdapterConfig) (mode : PayloadMode)
      → config.session.ttl_secs < 2 ^ 64
      → requested_ttl (proposal config mode) ≡ config.session.ttl_secs
  unfolding proposal json get
  requested_ttl-proposal config mode small =
      rw (laws.as_object-object, laws.map_get-insert, laws.map_get-insert)
        (rw (laws.as_u64-number config.session.ttl_secs small) refl)

  -- What the client writes into a proposal is what the server reads there: the payload mode, the
  -- client's trust domain, and the lifetime, which fits 64 bits.
  pub proposal_round_trip :
      (config : LdpAdapterConfig) (mode : PayloadMode)
      → config.session.ttl_secs < 2 ^ 64
      → (requested_mode (proposal config mode) ≡ mode)
        × (remote_domain (proposal config mode) ≡ config.trust_domain.name)
        × (requested_ttl (proposal config mode) ≡ config.session.ttl_secs)
  proposal_round_trip config mode small = (
    requested_mode-proposal config mode,
    remote_domain-proposal config mode,
    requested_ttl-proposal config mode small,
  )

  -- What one side of a handshake writes is what the other side reads: the client reads from a
  -- manifest the modes that the server supports, in their order; the server reads from a proposal
  -- the payload mode, the client's trust domain, and the lifetime, if it fits 64 bits.
  pub handshake_round_trip :
      (s : LdpServer) (config : LdpAdapterConfig) (mode : PayloadMode)
      → config.session.ttl_secs < 2 ^ 64
      → (manifest_modes (capability_manifest (handle_capabilities_request s))
          ≡ ok s.identity.supported_payload_modes)
        × (requested_mode (proposal config mode) ≡ mode)
        × (remote_domain (proposal config mode) ≡ config.trust_domain.name)
        × (requested_ttl (proposal config mode) ≡ config.session.ttl_secs)
  handshake_round_trip s config mode small =
      let (modes, domain, ttl) = proposal_round_trip config mode small in
      (manifest_modes-handle_capabilities_request s, modes, domain, ttl)

-- ===== src/Integration/Discovery.antt =====
-- Discovery over the network of the integration tests (tests/ldp_integration.rs).
use ldp_protocol.Common.{
  String, ◌≡◌, ◌⊎◌, ◌↔◌, inl, inr, refl, true, false, Result, ok, err, arith, List, [], ◌∷◌, In,
  Bool-cases,
}
use ldp_protocol.Common.Text.{◌<>◌}
use ldp_protocol.Common.HashMap
use ldp_protocol.Common.HashMap.{HashMap}
use ldp_protocol.Externals.{Externals, JsonLaws, KindLaws}
use ldp_protocol.Types.Capability.{LdpCapability}
use ldp_protocol.Types.Identity
use ldp_protocol.Types.Identity.{LdpIdentityCard}
use ldp_protocol.Types.Identity.Wire.{IsCard}
use ldp_protocol.Types.Trust.Policy.{trusts_iff}
use ldp_protocol.Config.{LdpAdapterConfig}
use ldp_protocol.Client.{Http, endpoint, fetch_identity_card, read_get}
use ldp_protocol.Server.{LdpServer, handle_identity_request}
use ldp_protocol.Integration.{Transport, handle_connection, json_http}
use ldp_protocol.Protocol.{RemoteSkill, RemoteCapabilities}
use ldp_protocol.Adapter.{identity_to_capabilities}
use ldp_protocol.Adapter.Methods.{LdpAdapter, fetch_card, discover, admit, is_refused}

module _ ⦃ext : Externals⦄ where
  -- The configuration does not enforce trust domains; or the card's domain is the configuration's
  -- own, or is listed as a peer of a domain that allows requests across domains.
  abbrev pub IsTrusted : LdpAdapterConfig → LdpIdentityCard → Type 0
  IsTrusted config card =
      (config.enforce_trust_domains ≡ false)
      ⊎ ((config.trust_domain.name ≡ card.trust_domain.name)
          ⊎ (config.trust_domain.allow_cross_domain ≡ true)
            × In card.trust_domain.name config.trust_domain.trusted_peers)

  -- The skills are the capabilities in their order, each with its name, description and schemas.
  abbrev pub AreOffered : List LdpCapability → List RemoteSkill → Type 0
  AreOffered [] [] = Unit
  AreOffered (c ∷ cs) (s ∷ skills) =
      ((s.name ≡ c.name)
        × (s.description ≡ c.description)
        × (s.input_schema ≡ c.input_schema)
        × (s.output_schema ≡ c.output_schema))
      × AreOffered cs skills
  AreOffered _ _ = ⊥

  pub record Advertises (card : LdpIdentityCard) (caps : RemoteCapabilities) : Type 0 where
    pub name : caps.name ≡ card.name
    pub description : caps.description ≡ card.description
    pub skills : AreOffered card.capabilities caps.skills
    pub protocols : caps.protocols ≡ "ldp" ∷ []

  -- What a discovery of a card comes to.
  abbrev pub IsDiscovery : LdpAdapterConfig → LdpIdentityCard → Result RemoteCapabilities → Type 0
  IsDiscovery config card answer =
      (IsTrusted config card
        × (caps : RemoteCapabilities) × (answer ≡ ok caps)
        × Advertises card caps)
      ⊎ ((¬ IsTrusted config card)
          × (answer
              ≡ err (
                  "Trust domain '" <> card.trust_domain.name <> "' is not trusted by '"
                  <> config.trust_domain.name <> "'")))

  identity_to_capabilities-Advertises :
      (card : LdpIdentityCard) → Advertises card (identity_to_capabilities card)
  unfolding identity_to_capabilities
  identity_to_capabilities-Advertises card = record {
    name = refl;
    description = refl;
    skills = offered card.capabilities;
    protocols = refl;
  }
    where
      offered :
          (cs : List LdpCapability)
          → AreOffered cs (identity_to_capabilities (record card { capabilities = cs })).skills
      offered [] = tt
      offered (c ∷ cs) = ((refl, refl, refl, refl), offered cs)

  module _ ⦃http : Http⦄ where
    is_refused_iff :
        (config : LdpAdapterConfig) (card : LdpIdentityCard)
        → (is_refused config card ≡ false) ↔ IsTrusted config card
    is_refused_iff config card =
        ground (arith, trusts_iff config.trust_domain card.trust_domain.name)

    admit-IsDiscovery :
        (card : LdpIdentityCard) (s : LdpAdapter) → IsDiscovery s.config card (admit card s).0
    admit-IsDiscovery card s = elim (Bool-cases (is_refused s.config card)) [
      | inl refused ↦ inr (
        λ trusted. absurd (ground (arith, refused, (is_refused_iff s.config card).1 trusted)),
        rw refused refl,
      )
      | inr admitted ↦ inl (
        (is_refused_iff s.config card).0 admitted,
        _,
        rw admitted refl,
        identity_to_capabilities-Advertises card,
      )
    ]

module _ ⦃ext : Externals⦄ (laws : JsonLaws) (kinds : KindLaws) (via : Transport) (url : String)
    (path : via.path_of (endpoint url "/ldp/identity") ≡ "/ldp/identity") where
  fetch_identity_card-identity :
      (s : LdpServer)
      → IsCard s.identity
      → (m : HashMap String) × (fetch_identity_card ⦃http = json_http via⦄ url s
          ≡ (ok (record s.identity { metadata = m }), s))
        × ((k : String) → HashMap.get m k ≡ HashMap.get s.identity.metadata k)
  unfolding fetch_identity_card read_get handle_connection handle_identity_request
  fetch_identity_card-identity s h =
      let (m, run, same) = Identity.Wire.from_value-to_value laws kinds s.identity h in
      (m, rw (path, run) refl, same)

  -- Through the JSON of the integration tests' network, where the path of the identity's URL is the
  -- path of the identity, and for a server whose card JSON can carry, a discovery fails with the
  -- text of the code exactly where trust domains are enforced and the server's domain is neither
  -- the adapter's own nor among the peers of an adapter's domain that allows requests across
  -- domains; and gives otherwise the name, the description and the skills of the server's own card, each with its name,
  -- description and schemas, under the one protocol "ldp".
  pub discover-identity :
      (a : LdpAdapter ⦃http = json_http via⦄)
      → IsCard a.session_manager.net.identity
      → IsDiscovery a.config a.session_manager.net.identity
          (discover ⦃http = json_http via⦄ url a).0
  unfolding discover fetch_card identity_to_capabilities
  discover-identity a h =
      let (m, run, _) = fetch_identity_card-identity a.session_manager.net h in
      rw run (admit-IsDiscovery ⦃http = json_http via⦄ a.session_manager.net.identity a)

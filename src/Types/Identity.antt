-- ===== src/Types/Identity.antt =====
-- src/types/identity.rs: the identity card of a delegate, and its labels.
pub mod Labels
pub mod Metadata
pub mod Wire
use ldp_protocol.Common.{ℕ, String, Option, none, some, List, [], ◌∷◌, map}
use ldp_protocol.Common.HashMap.{HashMap, insert}
use ldp_protocol.Common.Text.{join, to_string}
use ldp_protocol.Externals.{Externals, json, nullable}
use ldp_protocol.Json.{required, optional, defaulted, list_of, ◌>>=◌}
use ldp_protocol.Types.Capability
use ldp_protocol.Types.Capability.{LdpCapability}
use ldp_protocol.Types.Payload
use ldp_protocol.Types.Payload.{PayloadMode}
use ldp_protocol.Types.Trust
use ldp_protocol.Types.Trust.{TrustDomain}

module _ ⦃ext : Externals⦄ where
  pub record LdpIdentityCard : Type 0 where
    pub delegate_id : String
    pub name : String
    pub description : Option String
    pub model_family : String
    pub model_version : String
    pub weights_fingerprint : Option String
    pub trust_domain : TrustDomain
    pub context_window : ℕ
    pub reasoning_profile : Option String
    pub cost_profile : Option String
    pub latency_profile : Option String
    pub jurisdiction : Option String
    pub capabilities : List LdpCapability
    pub supported_payload_modes : List PayloadMode
    pub endpoint : String
    pub metadata : HashMap String

-- `if let Some(ref v) = field { labels.insert(key, v.clone()); }`
abbrev pub insert_some : String → Option String → HashMap String → HashMap String
insert_some key none labels = labels
insert_some key (some v) labels = insert labels key v

module _ ⦃ext : Externals⦄ where
  -- The labels, each statement of the code a step on the map.
  unfoldable pub to_labels : LdpIdentityCard → HashMap String
  to_labels card =
      let m₁ = insert [] "ldp.delegate_id" card.delegate_id in
      let m₂ = insert m₁ "ldp.model_family" card.model_family in
      let m₃ = insert m₂ "ldp.model_version" card.model_version in
      let m₄ = insert m₃ "ldp.trust_domain" card.trust_domain.name in
      let m₅ = insert m₄ "ldp.context_window" (to_string card.context_window) in
      let m₆ = insert_some "ldp.weights_fingerprint" card.weights_fingerprint m₅ in
      let m₇ = insert_some "ldp.reasoning_profile" card.reasoning_profile m₆ in
      let m₈ = insert_some "ldp.cost_profile" card.cost_profile m₇ in
      let m₉ = insert_some "ldp.latency_profile" card.latency_profile m₈ in
      let m₁₀ = insert_some "ldp.jurisdiction" card.jurisdiction m₉ in
      insert m₁₀ "ldp.payload_modes" (join "," (map Payload.to_string card.supported_payload_modes))

  -- The entries of a map of texts, in the order in which it is iterated.
  abbrev pub text_entries : HashMap String → List (String × ext.Value)
  text_entries [] = []
  text_entries ((k, v) ∷ m) = (k, ext.string v) ∷ text_entries m

  -- The derived Serialize.
  unfoldable pub to_value : LdpIdentityCard → ext.Value
  unfolding json
  to_value card = json (
      ("delegate_id", ext.string card.delegate_id)
      ∷ ("name", ext.string card.name)
      ∷ ("description", nullable ext.string card.description)
      ∷ ("model_family", ext.string card.model_family)
      ∷ ("model_version", ext.string card.model_version)
      ∷ ("weights_fingerprint", nullable ext.string card.weights_fingerprint)
      ∷ ("trust_domain", Trust.to_value card.trust_domain)
      ∷ ("context_window", ext.number card.context_window)
      ∷ ("reasoning_profile", nullable ext.string card.reasoning_profile)
      ∷ ("cost_profile", nullable ext.string card.cost_profile)
      ∷ ("latency_profile", nullable ext.string card.latency_profile)
      ∷ ("jurisdiction", nullable ext.string card.jurisdiction)
      ∷ ("capabilities", ext.array (map Capability.to_value card.capabilities))
      ∷ ("supported_payload_modes", Payload.modes_to_value card.supported_payload_modes)
      ∷ ("endpoint", ext.string card.endpoint)
      ∷ ("metadata", json (text_entries card.metadata))
      ∷ [])

  -- A map of texts, from the entries of an object in their order.
  unfoldable pub read_entries : List (String × ext.Value) → Option (HashMap String)
  read_entries [] = some []
  read_entries ((k, v) ∷ es) = do
    text ← ext.as_str v
    rest ← read_entries es
    some (insert rest k text)

  abbrev pub texts_from_value : ext.Value → Option (HashMap String)
  texts_from_value v = ext.as_object v >>= λ m. read_entries (ext.map_entries m)

  -- The derived Deserialize.
  unfoldable pub from_value : ext.Value → Option LdpIdentityCard
  from_value v = do
    delegate_id ← required ext.as_str "delegate_id" v
    name ← required ext.as_str "name" v
    description ← optional ext.as_str "description" v
    model_family ← required ext.as_str "model_family" v
    model_version ← required ext.as_str "model_version" v
    weights_fingerprint ← optional ext.as_str "weights_fingerprint" v
    trust_domain ← required Trust.from_value "trust_domain" v
    context_window ← required ext.as_u64 "context_window" v
    reasoning_profile ← optional ext.as_str "reasoning_profile" v
    cost_profile ← optional ext.as_str "cost_profile" v
    latency_profile ← optional ext.as_str "latency_profile" v
    jurisdiction ← optional ext.as_str "jurisdiction" v
    capabilities ← required (list_of Capability.from_value) "capabilities" v
    supported_payload_modes ← required Payload.modes_from_value "supported_payload_modes" v
    endpoint ← required ext.as_str "endpoint" v
    metadata ← defaulted texts_from_value [] "metadata" v
    some (record {
      delegate_id = delegate_id;
      name = name;
      description = description;
      model_family = model_family;
      model_version = model_version;
      weights_fingerprint = weights_fingerprint;
      trust_domain = trust_domain;
      context_window = context_window;
      reasoning_profile = reasoning_profile;
      cost_profile = cost_profile;
      latency_profile = latency_profile;
      jurisdiction = jurisdiction;
      capabilities = capabilities;
      supported_payload_modes = supported_payload_modes;
      endpoint = endpoint;
      metadata = metadata;
    })

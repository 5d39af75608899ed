-- ===== src/Protocol.antt =====
-- src/protocol.rs: what an adapter takes and returns, and the registry of adapters.
pub mod Registry
use text.Mathlib.Text.{starts_with}
use ldp_protocol.Common.{
  ℕ, Exec, String, Bool, Option, none, some, List, [], ◌∷◌, ◌++◌, map, find, any, option_map, ◌==◌,
}
use ldp_protocol.Externals.{Externals}
use ldp_protocol.Types.Contract.{DelegationContract}
use ldp_protocol.Types.Error.{LdpError}

module _ ⦃ext : Externals⦄ where
  pub record RemoteSkill : Type 0 where
    pub name : String
    pub description : Option String
    pub input_schema : Option ext.Value
    pub output_schema : Option ext.Value

  pub record RemoteCapabilities : Type 0 where
    pub name : String
    pub description : Option String
    pub skills : List RemoteSkill
    pub protocols : List String

  pub record TaskRequest : Type 0 where
    pub skill : String
    pub input : ext.Value
    pub contract : Option DelegationContract

  pub data TaskEvent : Type 0 where
    progress : String → Option ext.Float → TaskEvent
    completed : ext.Value → TaskEvent
    failed : LdpError → TaskEvent

  pub data TaskStatus : Type 0 where
    submitted : TaskStatus
    working : TaskStatus
    completed : ext.Value → TaskStatus
    failed : LdpError → TaskStatus

pub record TaskHandle : Type 0 where
  pub task_id : String
  pub remote_url : String

module _ ⦃ext : Externals⦄ where
  -- A stream of events, as what its first rounds emit and whether it has ended with them: it may
  -- have no end.
  abbrev pub TaskStream : Type 0 → Type 0
  TaskStream S = ℕ → S → List TaskEvent × Bool × S

  -- The trait: an adapter of any kind, over the state that its methods work on.
  pub record ProtocolAdapter (S : Type 0) : Type 0 where
    pub discover : String → Exec S RemoteCapabilities
    pub invoke : String → TaskRequest → Exec S TaskHandle
    pub stream : String → TaskRequest → Exec S (TaskStream S)
    pub status : String → String → Exec S TaskStatus
    pub cancel : String → String → Exec S (Unit {0})

-- An entry of the registry: a name, an adapter and its URL prefixes.
pub record Registration {ℓ} (A : Type ℓ) : Type ℓ where
  pub name : String
  pub adapter : A
  pub url_prefixes : List String

-- ProtocolRegistry, over any type of adapters.
abbrev pub ProtocolRegistry {ℓ} : Type ℓ → Type ℓ
ProtocolRegistry A = List (Registration A)

module _ {ℓ} {A : Type ℓ} where
  unfoldable pub register : ProtocolRegistry A → String → A → List String → ProtocolRegistry A
  register registry name a url_prefixes =
      registry ++ record { name = name; adapter = a; url_prefixes = url_prefixes } ∷ []

  unfoldable pub adapter : ProtocolRegistry A → String → Option A
  unfolding find
  adapter registry name = option_map (λ r. r.adapter) (find (λ r. r.name == name) registry)

  -- The closure of `find` in `adapter_for_url`.
  abbrev pub handles : String → Registration A → Bool
  handles url r = any (λ p. starts_with url p) r.url_prefixes

  unfoldable pub adapter_for_url : ProtocolRegistry A → String → Option A
  unfolding find any
  adapter_for_url registry url = option_map (λ r. r.adapter) (find (handles url) registry)

  unfoldable pub protocols : ProtocolRegistry A → List String
  protocols registry = map (λ r. r.name) registry

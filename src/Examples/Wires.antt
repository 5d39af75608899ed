-- ===== src/Examples/Wires.antt =====
-- Runs of what is read from JSON (src/types, src/config.rs) and of the routing (src/plugin.rs).
use mathlib.Core.Option.{or_else}
use package.text.Mathlib.Text.{starts_with}
use ldp_protocol.Common.{
  ◌≡◌, refl, String, ◌==◌, option_map, true, false, none, some, [], ◌∷◌, arith, if◌then◌else◌,
  unwrap_or,
}
use ldp_protocol.Externals.{Entropy}
use ldp_protocol.Types.Contract.{DelegationContract}
use ldp_protocol.Types.Identity
use ldp_protocol.Types.Identity.{LdpIdentityCard}
use ldp_protocol.Types.Identity.Wire.{IsCard}
use ldp_protocol.Server.{echo_identity}
use ldp_protocol.Common.HashMap
use ldp_protocol.Common.HashMap.{HashMap}
use ldp_protocol.Types.Messages.{LdpEnvelope, task_submit}
use ldp_protocol.Types.Messages.Json.{to_value, from_value}
use ldp_protocol.Types.Messages.Json.Wire.{envelope_round_trip, IsBody}
use ldp_protocol.Types.Payload.{text}
use ldp_protocol.Types.Provenance
use ldp_protocol.Types.Provenance.{normalize}
use ldp_protocol.Types.Provenance.Wire.{older, plain, normalize-from_value-older}
use ldp_protocol.Types.Trust
use ldp_protocol.Types.Trust.{TrustDomain}
use ldp_protocol.Types.Verification.{unverified, self_verified}
use ldp_protocol.Config
use ldp_protocol.Config.{LdpAdapterConfig}
use ldp_protocol.Config.Defaults.{file, from_value-file}
use ldp_protocol.Protocol.{adapter, adapter_for_url}
use ldp_protocol.Adapter.Methods.{LdpAdapter}
use ldp_protocol.Plugin.{register_ldp}
use ldp_protocol.Plugin.Routing.{adapter-register_ldp}
use ldp_protocol.Examples.World.{Json, toy, toy_json, toy_kinds, toy_http, contract}

abbrev budgeted : DelegationContract
budgeted = record contract {
  policy = record contract.policy {
    budget = some (record { max_tokens = some 5000; max_cost_usd = some 3 });
  };
}

-- A task with a contract that has a budget.
abbrev submission : LdpEnvelope
submission = record {
  message_id = "m";
  session_id = "s";
  from = "client";
  to = "ldp:echo";
  body = task_submit "t" "echo" (Json.number 7) (some budgeted);
  payload_mode = text;
  timestamp = "50";
  provenance = some (plain "d1" "v1" text true);
  signature = some "signed";
  signature_algorithm = some "hmac-sha256";
  nonce = none;
}

submission-IsBody : IsBody submission.body
submission-IsBody = ((omega arith, refl), tt)

envelope_round_trip_example : from_value (to_value submission) ≡ some submission
envelope_round_trip_example =
    envelope_round_trip toy_json toy_kinds submission (submission-IsBody, (tt, tt, tt))

normalize-from_value-older_example :
    option_map normalize (Provenance.from_value (older "d1" "v1" text true))
    ≡ some (record (plain "d1" "v1" text true) {
      verification_status = if true then self_verified else unverified;
    })
normalize-from_value-older_example =
    normalize-from_value-older toy_json toy_kinds "d1" "v1" text true

abbrev partner : TrustDomain
partner = record { name = "partner"; allow_cross_domain = true; trusted_peers = "home" ∷ [] }

from_value-file_example :
    Config.from_value (file "d1" (some partner) none (some false) (some "secret"))
    ≡ some (record Config.default {
      delegate_id = "d1";
      trust_domain = unwrap_or (some partner) Trust.default;
      enforce_trust_domains = unwrap_or none true;
      attach_provenance = unwrap_or (some false) true;
      signing_secret = some "secret";
    })
from_value-file_example =
    from_value-file toy_json toy_kinds "d1" (some partner) none (some false) (some "secret")

-- A card with a capability that has one schema, and with metadata.
abbrev card : LdpIdentityCard
card = record (echo_identity "ldp:echo" "Echo") {
  trust_domain = partner;
  jurisdiction = some "eu";
  metadata = ("region", "north") ∷ ("tier", "2") ∷ [];
}

card-IsCard : IsCard card
unfolding HashMap.get
card-IsCard = record {
  context_window = omega arith;
  capabilities = ((tt, tt, tt), tt);
  metadata = (refl, (refl, tt));
}

from_value-to_value_example :
    (m : HashMap String) × (Identity.from_value (Identity.to_value card)
      ≡ some (record card { metadata = m }))
    × ((k : String) → HashMap.get m k ≡ HashMap.get card.metadata k)
from_value-to_value_example = Identity.Wire.from_value-to_value toy_json toy_kinds card card-IsCard

abbrev begun : Entropy
begun = record { reads = 0; uuids = 0 }

abbrev made : LdpAdapter
made = record {
  session_manager = record {
    sessions = [];
    config = unwrap_or none Config.default;
    net = [];
    entropy = begun;
  };
  config = unwrap_or none Config.default;
  contracts = [];
}

adapter-register_ldp_example :
    (adapter (register_ldp [] none [] begun) "ldp://host"
      ≡ or_else
          (adapter {A = LdpAdapter} [] "ldp://host")
          (if "ldp" == "ldp://host" then some made else none))
    × (adapter_for_url (register_ldp [] none [] begun) "ldp://host"
        ≡ or_else
            (adapter_for_url {A = LdpAdapter} [] "ldp://host")
            (if starts_with "ldp://host" "ldp://" then some made else none))
adapter-register_ldp_example = adapter-register_ldp [] none [] begun "ldp://host"

-- ===== src/Types/Identity/Labels.antt =====
-- What the labels of an identity card (src/types/identity.rs) say.
use mathlib.Core.Option.{or_else}
use ldp_protocol.Common.{
  [], String, ◌≡◌, refl, Bool, true, false, Option, none, some, map, if◌then◌else◌, ◌==◌,
  or_else-none,
}
use ldp_protocol.Common.HashMap
use ldp_protocol.Common.HashMap.{HashMap}
use ldp_protocol.Common.Text.{to_string, join}
use ldp_protocol.Externals.{Externals}
use ldp_protocol.Types.Identity.{LdpIdentityCard, insert_some, to_labels}
use ldp_protocol.Types.Payload

-- A label that is set only where there is a value.
get-insert_some :
    (k : String) (o : Option String) (m : HashMap String) (j : String)
    → HashMap.get (insert_some k o m) j
      ≡ (if k == j then or_else o (HashMap.get m j) else HashMap.get m j)
unfolding or_else
get-insert_some k none m j = go (k == j)
  where
    go : (b : Bool) → HashMap.get m j ≡ (if b then HashMap.get m j else HashMap.get m j)
    go true = refl
    go false = refl
get-insert_some k (some v) m j = HashMap.get-insert m k v j

get-nil : (k : String) → HashMap.get {V = String} [] k ≡ none
unfolding HashMap.get
get-nil k = refl

ruleset label_rules = (HashMap.get-insert, get-insert_some, get-nil, or_else-none)

module _ ⦃ext : Externals⦄ where
  -- Labels that say what a card says.
  abbrev pub AreLabels : LdpIdentityCard → HashMap String → Type 0
  AreLabels card labels =
      let label = HashMap.get labels in
      (label "ldp.delegate_id" ≡ some card.delegate_id)
      × (label "ldp.model_family" ≡ some card.model_family)
      × (label "ldp.model_version" ≡ some card.model_version)
      × (label "ldp.trust_domain" ≡ some card.trust_domain.name)
      × (label "ldp.context_window" ≡ some (to_string card.context_window))
      × (label "ldp.weights_fingerprint" ≡ card.weights_fingerprint)
      × (label "ldp.reasoning_profile" ≡ card.reasoning_profile)
      × (label "ldp.cost_profile" ≡ card.cost_profile)
      × (label "ldp.latency_profile" ≡ card.latency_profile)
      × (label "ldp.jurisdiction" ≡ card.jurisdiction)
      × (label "ldp.payload_modes"
          ≡ some (join "," (map Payload.to_string card.supported_payload_modes)))

  -- Each label of a card is the field that it is named after: the five that are always there, and
  -- the five that are there only where the card has the field; and the payload modes in their
  -- order, separated by commas.
  pub to_labels_lem : (card : LdpIdentityCard) → AreLabels card (to_labels card)
  unfolding to_labels
  to_labels_lem card = (
    simp label_rules,
    simp label_rules,
    simp label_rules,
    simp label_rules,
    simp label_rules,
    simp label_rules,
    simp label_rules,
    simp label_rules,
    simp label_rules,
    simp label_rules,
    simp label_rules,
  )

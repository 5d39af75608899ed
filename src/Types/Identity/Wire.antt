-- ===== src/Types/Identity/Wire.antt =====
-- An identity card (src/types/identity.rs) is read back from JSON as it was written, its metadata as a
-- map with the same lookups.
use mathlib.Core.Option.{or_else}
use ldp_protocol.Common.{String, ◌≡◌, refl, some, List, [], ◌∷◌, All, ◌<◌, ◌^◌}
use ldp_protocol.Common.HashMap
use ldp_protocol.Common.HashMap.{HashMap}
use ldp_protocol.Externals.{Externals, JsonLaws, KindLaws}
use ldp_protocol.Json.Reading.{entry, get-json, list_of-array, read_text_nullable}
use ldp_protocol.Types.Capability
use ldp_protocol.Types.Capability.{LdpCapability}
use ldp_protocol.Types.Capability.Wire.{IsCapability}
use ldp_protocol.Types.Identity.{LdpIdentityCard, to_value, from_value}
use ldp_protocol.Types.Identity.Metadata.{IsMap, texts_from_value-text_entries}
use ldp_protocol.Types.Payload.Wire.{modes_from_value-modes_to_value}
use ldp_protocol.Types.Trust

module _ ⦃ext : Externals⦄ where
  -- What the Rust type holds, with finite numbers and without schemas that are null; and metadata
  -- that is a map.
  pub record IsCard (card : LdpIdentityCard) : Type 0 where
    pub context_window : card.context_window < 2 ^ 64
    pub capabilities : All IsCapability card.capabilities
    pub metadata : IsMap card.metadata

  module _ (laws : JsonLaws) (kinds : KindLaws) where
    read_capabilities :
        (cs : List LdpCapability)
        → All IsCapability cs
        → All (λ c. Capability.from_value (Capability.to_value c) ≡ some c) cs
    read_capabilities [] h = tt
    read_capabilities (c ∷ cs) (first, rest) =
        (Capability.Wire.from_value-to_value laws kinds c first, read_capabilities cs rest)

    -- Any identity card that the Rust type can hold, with finite numbers and without schemas that are
    -- null, is read back from its JSON as it was written, but for the order in which its metadata is
    -- iterated: every name leads there to the same text.
    pub from_value-to_value :
        (card : LdpIdentityCard)
        → IsCard card
        → (m : HashMap String) × (from_value (to_value card) ≡ some (record card { metadata = m }))
          × ((k : String) → HashMap.get m k ≡ HashMap.get card.metadata k)
    unfolding from_value to_value entry or_else
    from_value-to_value card h =
        let (m, run, same) = texts_from_value-text_entries laws card.metadata h.metadata in
        (
          m,
          simp
              (
                get-json laws,
                laws.as_str-string,
                laws.as_u64-number card.context_window h.context_window,
                read_text_nullable laws kinds,
                Trust.Wire.from_value-to_value laws kinds,
                list_of-array Capability.to_value Capability.from_value laws card.capabilities
                    (read_capabilities card.capabilities h.capabilities),
                modes_from_value-modes_to_value laws,
                run,
              )
              refl,
          same,
        )

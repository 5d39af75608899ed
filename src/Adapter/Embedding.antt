-- ===== src/Adapter/Embedding.antt =====
-- How provenance travels inside an output (src/adapter.rs).
use ldp_protocol.Common.{
  String, ◌≡◌, ◌≢◌, refl, sym, true, false, none, some, [], ◌∷◌, inl, inr, Option-cases, Bool-cases,
  ◌==◌, eq_iff,
}
use ldp_protocol.Externals.{Externals, JsonLaws, get, json}
use ldp_protocol.Types.Provenance
use ldp_protocol.Types.Provenance.{Provenance}
use ldp_protocol.Config.{LdpAdapterConfig}
use ldp_protocol.Adapter.{embed_provenance}

module _ ⦃ext : Externals⦄ (laws : JsonLaws) where
  -- An output that is an object keeps its fields, but for one of the name of the new field.
  abbrev pub KeepsFields : ext.Value → ext.Value → Type 0
  KeepsFields output embedded =
      (m : ext.Map) (k : String)
      → ext.as_object output ≡ some m
      → k ≢ "ldp_provenance"
      → get embedded k ≡ get output k

  -- An output of another kind is kept as the field `result`.
  abbrev pub IsWrapped : ext.Value → ext.Value → Type 0
  IsWrapped output embedded = ext.as_object output ≡ none → get embedded "result" ≡ some output

  module _ (config : LdpAdapterConfig) (output : ext.Value) (p : Provenance) where
    embedded_object :
        (m : ext.Map)
        → config.attach_provenance ≡ true
        → ext.as_object output ≡ some m
        → embed_provenance config output p
          ≡ ext.object (ext.map_insert m "ldp_provenance" (Provenance.to_value p))
    unfolding embed_provenance
    embedded_object m attach h = rw (attach, h) refl

    embedded_other :
        config.attach_provenance ≡ true
        → ext.as_object output ≡ none
        → embed_provenance config output p
          ≡ json (("result", output) ∷ ("ldp_provenance", Provenance.to_value p) ∷ [])
    unfolding embed_provenance
    embedded_other attach h = rw (attach, h) refl

    provenance_read :
        config.attach_provenance ≡ true
        → get (embed_provenance config output p) "ldp_provenance" ≡ some (Provenance.to_value p)
    unfolding get json
    provenance_read attach = elim (Option-cases (ext.as_object output)) [
      | inl other ↦
          rw (embedded_other attach other, laws.as_object-object, laws.map_get-insert) refl
      | inr (m, h) ↦
          rw (embedded_object m attach h, laws.as_object-object, laws.map_get-insert) refl
    ]

    fields_kept :
        config.attach_provenance ≡ true → KeepsFields output (embed_provenance config output p)
    unfolding get
    fields_kept attach m k h other =
        rw (embedded_object m attach h, laws.as_object-object, laws.map_get-insert, h)
          (elim (Bool-cases ("ldp_provenance" == k)) [
            | inl same ↦ absurd (other (sym ((eq_iff "ldp_provenance" k).0 same)))
            | inr differ ↦ rw differ refl
          ])

    wrapped : config.attach_provenance ≡ true → IsWrapped output (embed_provenance config output p)
    unfolding get json
    wrapped attach h =
        rw
          (embedded_other attach h, laws.as_object-object, laws.map_get-insert, laws.map_get-insert)
          refl

    -- Where provenance is attached, a client reads it back from the output under "ldp_provenance",
    -- and the output itself too: its other fields where it is an object, and the field "result"
    -- where it is not. Where it is not attached, the output is unchanged.
    pub embed_provenance_lem :
        (config.attach_provenance ≡ false → embed_provenance config output p ≡ output)
        × (config.attach_provenance ≡ true
            → (get (embed_provenance config output p) "ldp_provenance"
                ≡ some (Provenance.to_value p))
              × KeepsFields output (embed_provenance config output p)
              × IsWrapped output (embed_provenance config output p))
    unfolding embed_provenance
    embed_provenance_lem = (
      λ detached. rw detached refl,
      λ attach. (provenance_read attach, fields_kept attach, wrapped attach),
    )

-- ===== src/Adapter/Discovery.antt =====
-- Whom the adapter discovers (src/adapter.rs).
use ldp_protocol.Common.{
  String, ◌≡◌, refl, sym, ap, ◌∙◌, ◌↔◌, ◌⊎◌, true, false, arith, Result, ok, err, continue,
}
use ldp_protocol.Externals.{Externals}
use ldp_protocol.Types.Identity.{LdpIdentityCard}
use ldp_protocol.Types.Trust.{trusts}
use ldp_protocol.Client.{Http, fetch_identity_card}
use ldp_protocol.Protocol.{RemoteCapabilities}
use ldp_protocol.Adapter.{identity_to_capabilities}
use ldp_protocol.Adapter.Methods.{LdpAdapter, admit, fetch_card, discover}

module _ ⦃ext : Externals⦄ ⦃http : Http⦄ where
  -- The card that the remote side answers, if its domain is trusted where that is enforced.
  abbrev pub IsDiscovered : LdpAdapter → Result LdpIdentityCard → RemoteCapabilities → Type 0
  IsDiscovered s answer caps =
      (card : LdpIdentityCard) × (answer ≡ ok card)
      × ((s.config.enforce_trust_domains ≡ false)
          ⊎ (trusts s.config.trust_domain card.trust_domain.name ≡ true))
      × (caps ≡ identity_to_capabilities card)

  -- A discovery succeeds exactly when the identity card can be fetched and its trust domain is
  -- trusted, or trust domains are not enforced; its result is what the card advertises.
  pub discover_iff :
      (url : String) (s : LdpAdapter) (caps : RemoteCapabilities)
      → ((discover url s).0 ≡ ok caps)
        ↔ IsDiscovered s (fetch_identity_card url s.session_manager.net).0 caps
  unfolding discover fetch_card
  discover_iff url s caps = go (fetch_identity_card url s.session_manager.net)
    where
      go :
          (p : Result LdpIdentityCard × http.Net)
          → ((continue
                (p.0, record s { session_manager = record s.session_manager { net = p.1 } })
                admit).0
              ≡ ok caps)
            ↔ IsDiscovered s p.0 caps
      go (err m, net) = (λ h. cc, λ (card, e, t, q). cc)
      go (ok card, net) = (
        λ h. (card, refl, ground arith, ground arith),
        λ (x, e, t, q).
            let same : card ≡ x = ground arith in
            let t' : (s.config.enforce_trust_domains ≡ false)
                ⊎ (trusts s.config.trust_domain card.trust_domain.name ≡ true) =
              rw same t in
            ground (arith, t', q ∙ ap identity_to_capabilities (sym same)),
      )

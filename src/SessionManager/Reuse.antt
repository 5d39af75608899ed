-- ===== src/SessionManager/Reuse.antt =====
-- A session for a URL, whatever is cached (src/session_manager.rs), with this crate's server
-- (src/server.rs) at the other end.
use ldp_protocol.Common.{
  Bool-cases, inl, inr, some, none, String, ◌≡◌, refl, ap, ◌∙◌, true, Option, none, some, ok,
}
use ldp_protocol.Common.HashMap
use ldp_protocol.Externals.{Externals, Entropy, JsonLaws, CtEqLaws}
use ldp_protocol.Types.Session.{LdpSession, is_active}
use ldp_protocol.Types.Trust.{trusts}
use ldp_protocol.Client.{Http}
use ldp_protocol.Server.{LdpServer}
use ldp_protocol.Server.Frame.{SameSetup}
use ldp_protocol.SessionManager.{
  SessionManager, establish_and_cache, get_or_establish, reuse_or_establish,
}
use ldp_protocol.SessionManager.Cache.{reuse_alive, reuse_dead}
use ldp_protocol.SessionManager.Delivery.{Delivers}
use ldp_protocol.SessionManager.Handshake.{establish_session-delivered}

module _ ⦃ext : Externals⦄ ⦃http : Http⦄ where
  module _ (url : String) (peer : http.Net → LdpServer) (d : Delivers url peer) where
    module _ (laws : JsonLaws) (ct : CtEqLaws) (s : SessionManager)
        (k : (peer s.net).signing_secret ≡ s.config.signing_secret)
        (trusted : trusts (peer s.net).identity.trust_domain s.config.trust_domain.name
          ≡ true) where
      -- Whatever is cached, there is a session; and the server is set up as before.
      pub record Ready : Type 0 where
        pub session : LdpSession
        pub after : SessionManager
        pub run : get_or_establish url s ≡ (ok session, after)
        pub setup : SameSetup (peer s.net) (peer after.net)

      established :
          (e : Entropy)
          → let s' = record s { entropy = e } in
            (session : LdpSession) × (after : SessionManager) × (establish_and_cache url s'
              ≡ (ok session, after))
            × SameSetup (peer s.net) (peer after.net)
      unfolding establish_and_cache
      established e =
          let (session, t, run, setup) =
            establish_session-delivered url peer d laws ct (record s { entropy = e }) k trusted in
          (
            session,
            record t { sessions = HashMap.insert t.sessions url session },
            rw run refl,
            setup,
          )

      pub get_or_establish-Ready : Ready
      unfolding get_or_establish
      get_or_establish-Ready = go (HashMap.get s.sessions url) refl
        where
          go : (o : Option LdpSession) → HashMap.get s.sessions url ≡ o → Ready
          go none h =
              let (session, after, run, setup) = established s.entropy in
              record {
                session = session;
                after = after;
                run = ap (λ o. reuse_or_establish o url s) h ∙ run;
                setup = setup;
              }
          go (some c) h = elim (Bool-cases (is_active c s.entropy).0) [
            | inl alive ↦ record {
              session = c;
              after = record s { entropy = (is_active c s.entropy).1 };
              run = ap (λ o. reuse_or_establish o url s) h ∙ reuse_alive url s c alive;
              setup = record { identity = refl; handler = refl; signing_secret = refl };
            }
            | inr dead ↦
                let (session, after, run, setup) = established (is_active c s.entropy).1 in
                record {
                  session = session;
                  after = after;
                  run = ap (λ o. reuse_or_establish o url s) h ∙ (reuse_dead url s c dead ∙ run);
                  setup = setup;
                }
          ]

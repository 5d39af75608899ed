-- ===== src/SessionManager/Halves.antt =====
-- The two messages of a handshake (establish_session of src/session_manager.rs), one by one: other
-- callers run while a client waits for an answer.
use ldp_protocol.Common.{
  String, List, ◌≡◌, refl, Result, ok, err, Exec, continue, ◌>>=◌, pure, lift,
}
use ldp_protocol.Externals.{Externals}
use ldp_protocol.Types.Messages.{LdpEnvelope, hello, session_propose}
use ldp_protocol.Types.Payload.{PayloadMode, text, negotiate_payload_mode}
use ldp_protocol.Types.Session.{LdpSession}
use ldp_protocol.Config.{LdpAdapterConfig}
use ldp_protocol.Client.{Http}
use ldp_protocol.SessionManager.{
  SessionManager, send_signed, manifest_modes, proposal, fresh_id, conclude, establish_session,
}
use ldp_protocol.SessionManager.Cache.{IsFresh, Yields-bind, Yields-conclude}
use ldp_protocol.SessionManager.Keeps.{
  Keeps, SameCache, Keeps-lift, Keeps-bind, Keeps-fresh_id, Keeps-send_signed, Keeps-conclude,
}

module _ ⦃ext : Externals⦄ ⦃http : Http⦄ where
  -- HELLO and its answer: the remote side's modes and its id.
  unfoldable pub greet : String → Exec SessionManager (List PayloadMode × String)
  greet url s =
      let config = s.config in
      (do
        response ←
            send_signed url "" url (hello config.delegate_id config.session.preferred_payload_modes)
              text
        modes ← lift (manifest_modes response.body)
        pure (modes, response.from))
        s

  -- The negotiation, SESSION_PROPOSE and its answer.
  abbrev propose_as :
      LdpAdapterConfig → String → List PayloadMode → String → Exec SessionManager LdpSession
  propose_as config url modes remote = do
    let negotiated = negotiate_payload_mode config.session.preferred_payload_modes modes
    session_id ← fresh_id
    response ←
        send_signed url session_id remote (session_propose (proposal config negotiated.mode)) text
    conclude url remote negotiated response.body

  unfoldable pub propose : String → List PayloadMode → String → Exec SessionManager LdpSession
  propose url modes remote s = propose_as s.config url modes remote s

  pub Keeps-greet : (url : String) → Keeps (greet url)
  unfolding greet
  Keeps-greet url = record {
    at = λ s.
        (Keeps-bind (send_signed url "" url _ _) _ (Keeps-send_signed url "" url _ _) λ r.
            Keeps-bind (lift (manifest_modes r.body)) _ (Keeps-lift _) λ modes. Keeps-lift _).at
          s;
  }

  pub Keeps-propose :
      (url : String) (modes : List PayloadMode) (remote : String) → Keeps (propose url modes remote)
  unfolding propose
  Keeps-propose url modes remote = record {
    at = λ s.
        (Keeps-bind fresh_id _ Keeps-fresh_id λ id.
            Keeps-bind (send_signed url id remote _ _) _ (Keeps-send_signed url id remote _ _)
              λ r. Keeps-conclude url remote _ r.body).at
          s;
  }

  pub propose-IsFresh :
      (url : String) (modes : List PayloadMode) (remote : String) (s : SessionManager)
      (session : LdpSession)
      → (propose url modes remote s).0 ≡ ok session
      → IsFresh url session
  unfolding propose
  propose-IsFresh url modes remote s session e =
      (Yields-bind (IsFresh url) fresh_id _ λ id. search (Yields-bind, Yields-conclude)).at s
        session e

  -- The handshake is the one and then the other.
  pub establish_session-greet :
      (url : String) (s : SessionManager)
      → establish_session url s ≡ continue (greet url s) (λ answer. propose url answer.0 answer.1)
  unfolding establish_session greet propose
  establish_session-greet url s =
      let hello = hello s.config.delegate_id s.config.session.preferred_payload_modes in
      let sent = send_signed url "" url hello text in
      go (sent s) ((Keeps-send_signed url "" url hello text).at s)
    where
      heard :
          (r : LdpEnvelope) (t : SessionManager) (modes : Result (List PayloadMode))
          → t.config ≡ s.config
          → continue (modes, t) (λ modes. propose_as s.config url modes r.from)
            ≡ continue {A = List PayloadMode × String}
                (continue (modes, t) (λ modes. pure (modes, r.from)))
                (λ answer. propose url answer.0 answer.1)
      heard r t (ok modes) same = rw same refl
      heard r t (err m) same = refl

      go :
          (p : Result LdpEnvelope × SessionManager)
          → SameCache s p.1
          → continue p
              (λ r. lift (manifest_modes r.body) >>= λ modes. propose_as s.config url modes r.from)
            ≡ continue {A = List PayloadMode × String}
                (continue p (λ r. lift (manifest_modes r.body) >>= λ modes. pure (modes, r.from)))
                (λ answer. propose url answer.0 answer.1)
      go (ok r, t) same = heard r t (manifest_modes r.body) same.config
      go (err m, t) same = refl

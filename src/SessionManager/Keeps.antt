-- ===== src/SessionManager/Keeps.antt =====
-- What the messages of a handshake (src/session_manager.rs) leave alone: the cache of sessions and
-- the configuration.
use ldp_protocol.Common.{
  String, ◌≡◌, refl, ◌∙◌, none, some, Result, ok, err, Exec, continue, ◌>>=◌, lift,
}
use ldp_protocol.Externals.{Externals}
use ldp_protocol.Types.Messages.{LdpEnvelope, LdpMessageBody, session_accept, session_reject}
use ldp_protocol.Types.Payload.{PayloadMode, NegotiatedPayload}
use ldp_protocol.Client.{Http}
use ldp_protocol.SessionManager.{
  SessionManager, send, make_envelope, send_signed, open_session, conclude, fresh_id,
  establish_session,
}

module _ ⦃ext : Externals⦄ ⦃http : Http⦄ where
  -- Two states with the same cache and configuration.
  pub record SameCache (s t : SessionManager) : Type 0 where
    pub sessions : t.sessions ≡ s.sessions
    pub config : t.config ≡ s.config

  -- An action that leaves the cache and the configuration alone, whether it fails or not.
  pub record Keeps {A : Type 0} (m : Exec SessionManager A) : Type 0 where
    pub at : (s : SessionManager) → SameCache s (m s).1

  Keeps-send : (url : String) (e : LdpEnvelope) → Keeps (send url e)
  unfolding send
  Keeps-send url e = record { at = λ s. record { sessions = refl; config = refl } }

  Keeps-make_envelope :
      (id to : String) (b : LdpMessageBody) (mode : PayloadMode)
      → Keeps (make_envelope id to b mode)
  unfolding make_envelope
  Keeps-make_envelope id to b mode = record { at = λ s. record { sessions = refl; config = refl } }

  pub Keeps-fresh_id : Keeps fresh_id
  unfolding fresh_id
  Keeps-fresh_id = record { at = λ s. record { sessions = refl; config = refl } }

  pub Keeps-lift : {A : Type 0} (r : Result A) → Keeps (lift r)
  Keeps-lift r = record { at = λ s. record { sessions = refl; config = refl } }

  Keeps-open_session :
      (url id remote : String) (n : NegotiatedPayload) → Keeps (open_session url id remote n)
  unfolding open_session
  Keeps-open_session url id remote n = record {
    at = λ s. record { sessions = refl; config = refl };
  }

  pub Keeps-bind :
      {A B : Type 0} (m : Exec SessionManager A) (f : A → Exec SessionManager B)
      → Keeps m
      → ((a : A) → Keeps (f a))
      → Keeps (m >>= f)
  Keeps-bind {A} {B} m f km kf = record { at = λ s. go s (m s) (km.at s) }
    where
      go :
          (s : SessionManager) (p : Result A × SessionManager)
          → SameCache s p.1
          → SameCache s (continue p f).1
      go s (ok a, t) h = record {
        sessions = ((kf a).at t).sessions ∙ h.sessions;
        config = ((kf a).at t).config ∙ h.config;
      }
      go s (err e, t) h = h

  pub Keeps-send_signed :
      (url id to : String) (b : LdpMessageBody) (mode : PayloadMode)
      → Keeps (send_signed url id to b mode)
  unfolding send_signed
  Keeps-send_signed url id to b mode =
      Keeps-bind (make_envelope id to b mode) _ (Keeps-make_envelope id to b mode)
        λ e. record { at = λ s. (Keeps-send url _).at s }

  pub Keeps-conclude :
      (url remote : String) (n : NegotiatedPayload) (b : LdpMessageBody)
      → Keeps (conclude url remote n b)
  unfolding conclude
  Keeps-conclude url remote n (session_accept id mode) = Keeps-open_session url id remote n
  Keeps-conclude url remote n (session_reject reason (some e)) = Keeps-lift (err _)
  Keeps-conclude url remote n (session_reject reason none) = Keeps-lift (err _)
  Keeps-conclude url remote n _ = Keeps-lift (err _)

  ruleset keeps_rules = (Keeps-lift, Keeps-fresh_id, Keeps-send_signed, Keeps-conclude, Keeps-bind)

  pub Keeps-establish_session : (url : String) → Keeps (establish_session url)
  unfolding establish_session
  Keeps-establish_session url = record {
    at = λ s.
        (Keeps-bind (send_signed url "" url _ _) _ (Keeps-send_signed url "" url _ _)
            λ r. search keeps_rules).at
          s;
  }

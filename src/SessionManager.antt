-- ===== src/SessionManager.antt =====
-- src/session_manager.rs: the cache of sessions and the handshake. An action works on the manager's
-- state: its sessions by URL and its configuration, with the network that its client talks to
-- and how often the clock and the generator of identifiers were read.
pub mod Keeps
pub mod Cache
pub mod Removal
pub mod Reading
pub mod Delivery
pub mod Handshake
pub mod Reuse
pub mod Closing
pub mod Halves
pub mod Callers
use ldp_protocol.Common.{
  ℕ, suc, ◌+◌, ◌%◌, ◌^◌, String, Bool, true, false, Option, none, some, List, [], ◌∷◌, map,
  unwrap_or, and_then, if◌then◌else◌, Result, ok, err, Exec, continue, ◌>>=◌, ◌>>◌, pure, raise,
  lift,
}
use ldp_protocol.Common.HashMap
use ldp_protocol.Common.HashMap.{HashMap, insert, remove, keys, values}
use ldp_protocol.Common.Text.{◌<>◌, to_string}
use ldp_protocol.Externals.{Externals, Entropy, utc_now, new_v4, json, get}
use ldp_protocol.Types.Error.{LdpError}
use ldp_protocol.Types.Messages
use ldp_protocol.Types.Messages.{
  LdpEnvelope, LdpMessageBody, discriminant, hello, capability_manifest, session_propose,
  session_accept, session_reject, session_close,
}
use ldp_protocol.Types.Payload
use ldp_protocol.Types.Payload.{PayloadMode, text, NegotiatedPayload, negotiate_payload_mode}
use ldp_protocol.Types.Session
use ldp_protocol.Types.Session.{LdpSession, active, is_active}
use ldp_protocol.Signing.{sign_if_configured}
use ldp_protocol.Config.{LdpAdapterConfig}
use ldp_protocol.Client.{Http, send_message}

module _ ⦃ext : Externals⦄ ⦃http : Http⦄ where
  pub record SessionManager : Type 0 where
    pub sessions : HashMap LdpSession
    pub config : LdpAdapterConfig
    pub net : http.Net
    pub entropy : Entropy

  unfoldable pub new : LdpAdapterConfig → http.Net → Entropy → SessionManager
  new config net e = record { sessions = []; config = config; net = net; entropy = e }

  -- `self.client.send_message(url, &message).await`
  unfoldable pub send : String → LdpEnvelope → Exec SessionManager LdpEnvelope
  send url message s =
      let (answer, net') = send_message url message s.net in (answer, record s { net = net' })

  -- `LdpEnvelope::new(…)` from this delegate.
  unfoldable pub make_envelope :
      String → String → LdpMessageBody → PayloadMode → Exec SessionManager LdpEnvelope
  unfolding Messages.new
  make_envelope session_id to body mode s =
      let (envelope, e) = Messages.new session_id s.config.delegate_id to body mode s.entropy in
      (ok envelope, record s { entropy = e })

  -- A message that is signed where signing is configured, and sent.
  unfoldable pub send_signed :
      String → String → String → LdpMessageBody → PayloadMode → Exec SessionManager LdpEnvelope
  send_signed url session_id to body mode = do
    envelope ← make_envelope session_id to body mode
    λ s. send url (sign_if_configured s.config.signing_secret envelope) s

  -- `{:?}` of a discriminant
  abbrev pub debug_discriminant : LdpMessageBody → String
  debug_discriminant b = "Discriminant(" <> to_string (discriminant b) <> ")"

  -- Step 2: the modes that a manifest lists; Text alone where it lists none that can be read.
  abbrev pub manifest_modes : LdpMessageBody → Result (List PayloadMode)
  manifest_modes (capability_manifest capabilities) = ok (
      unwrap_or (and_then (get capabilities "supported_modes") Payload.modes_from_value)
        (text ∷ []))
  manifest_modes other =
      err ("Expected CAPABILITY_MANIFEST response to HELLO, got: " <> debug_discriminant other)

  -- The configuration that SESSION_PROPOSE carries.
  unfoldable pub proposal : LdpAdapterConfig → PayloadMode → ext.Value
  proposal config mode = json (
      ("payload_mode", Payload.to_value mode)
      ∷ ("ttl_secs", ext.number config.session.ttl_secs)
      ∷ ("trust_domain", ext.string config.trust_domain.name)
      ∷ [])

  -- The session that is made of an acceptance.
  unfoldable pub open_session :
      String → String → String → NegotiatedPayload → Exec SessionManager LdpSession
  unfolding utc_now
  open_session url accepted_id remote_delegate_id negotiated s =
      let (now, e) = utc_now s.entropy in
      (
        ok (record {
          session_id = accepted_id;
          remote_url = url;
          remote_delegate_id = remote_delegate_id;
          state = active;
          payload = negotiated;
          trust_domain = s.config.trust_domain;
          created_at = now;
          last_used = now;
          ttl_secs = s.config.session.ttl_secs;
          task_count = 0;
        }),
        record s { entropy = e },
      )

  -- Step 6: what the answer to the proposal leads to.
  unfoldable pub conclude :
      String → String → NegotiatedPayload → LdpMessageBody → Exec SessionManager LdpSession
  conclude url remote_delegate_id negotiated (session_accept accepted_id negotiated_mode) =
      open_session url accepted_id remote_delegate_id negotiated
  conclude url remote_delegate_id negotiated (session_reject reason (some e)) =
      raise ("Session rejected: [" <> e.code <> "] " <> e.message)
  conclude url remote_delegate_id negotiated (session_reject reason none) =
      raise ("Session rejected by remote: " <> reason)
  conclude url remote_delegate_id negotiated other =
      raise ("Expected SESSION_ACCEPT/REJECT, got: " <> debug_discriminant other)

  unfoldable pub fresh_id : Exec SessionManager String
  unfolding new_v4
  fresh_id s = let (id, e) = new_v4 s.entropy in (ok id, record s { entropy = e })

  unfoldable pub establish_session : String → Exec SessionManager LdpSession
  establish_session url s =
      let config = s.config in
      let modes = config.session.preferred_payload_modes in
      (do
        hello_response ← send_signed url "" url (hello config.delegate_id modes) text
        remote_modes ← lift (manifest_modes hello_response.body)
        let negotiated = negotiate_payload_mode modes remote_modes
        session_id ← fresh_id
        propose_response ←
            send_signed url session_id hello_response.from
              (session_propose (proposal config negotiated.mode)) text
        conclude url hello_response.from negotiated propose_response.body)
        s

  -- Establish and cache.
  unfoldable pub establish_and_cache : String → Exec SessionManager LdpSession
  establish_and_cache url = do
    session ← establish_session url
    λ s. (ok session, record s { sessions = insert s.sessions url session })

  abbrev pub reuse_or_establish : Option LdpSession → String → Exec SessionManager LdpSession
  reuse_or_establish none url s = establish_and_cache url s
  reuse_or_establish (some session) url s =
      let (alive, e) = is_active session s.entropy in
      let s' : SessionManager = record s { entropy = e } in
      if alive then (ok session, s') else establish_and_cache url s'

  unfoldable pub get_or_establish : String → Exec SessionManager LdpSession
  get_or_establish url s = reuse_or_establish (HashMap.get s.sessions url) url s

  -- The timestamp and the count of a session in use; u64 arithmetic wraps.
  abbrev pub touch_session : LdpSession → Entropy → LdpSession × Entropy
  touch_session session e =
      let (touched, e') = Session.touch session e in
      (record touched { task_count = (touched.task_count + 1) % 2 ^ 64 }, e')

  abbrev pub touch_found : Option LdpSession → String → SessionManager → SessionManager
  touch_found none url s = s
  touch_found (some session) url s =
      let (touched, e) = touch_session session s.entropy in
      record s { sessions = insert s.sessions url touched; entropy = e }

  unfoldable pub touch : String → SessionManager → SessionManager
  touch url s = touch_found (HashMap.get s.sessions url) url s

  -- The message to the remote side, whose answer is dropped; it is not signed.
  unfoldable pub notify_close : String → LdpSession → SessionManager → SessionManager
  unfolding make_envelope send
  notify_close url session s =
      ((do
        close_msg ←
            make_envelope session.session_id session.remote_delegate_id (session_close none)
              session.payload.mode
        send url close_msg)
        s).1

  abbrev pub close_found : Option LdpSession → String → SessionManager → SessionManager
  close_found none url s = s
  close_found (some session) url s = notify_close url session s

  unfoldable pub close : String → Exec SessionManager (Unit {0})
  close url s = (
    ok tt,
    close_found (HashMap.get s.sessions url) url (record s { sessions = remove s.sessions url }),
  )

  unfoldable pub close_each : List String → SessionManager → SessionManager
  unfolding close
  close_each [] s = s
  close_each (url ∷ urls) s = close_each urls (close url s).1

  unfoldable pub close_all : SessionManager → SessionManager
  unfolding close_each
  close_all s = close_each (keys s.sessions) s

  -- The sessions that are active, each asked in turn.
  unfoldable pub count_active : List LdpSession → Entropy → ℕ × Entropy
  count_active [] e = (0, e)
  count_active (session ∷ rest) e =
      let (alive, e') = is_active session e in
      let (n, e'') = count_active rest e' in ((if alive then suc n else n), e'')

  unfoldable pub active_count : SessionManager → ℕ × SessionManager
  unfolding count_active
  active_count s =
      let (n, e) = count_active (values s.sessions) s.entropy in (n, record s { entropy = e })

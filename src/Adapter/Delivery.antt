-- ===== src/Adapter/Delivery.antt =====
-- Messages of the adapter (src/adapter.rs) over a network with the server of this crate
-- (src/server.rs) at its other end.
use mathlib.Core.Option.{or_else}
use ldp_protocol.Common.{
  String, ◌≡◌, refl, sym, ap, ◌∙◌, true, Option, none, some, [], ◌∷◌, arith, ok,
}
use ldp_protocol.Common.HashMap
use ldp_protocol.Externals.{Externals, Entropy, CtEqLaws}
use ldp_protocol.Types.Contract.{DelegationContract}
use ldp_protocol.Types.Messages
use ldp_protocol.Types.Messages.{LdpEnvelope, LdpMessageBody, task_submit, task_update, task_result}
use ldp_protocol.Types.Messages.Json.Wire.{IsBody}
use ldp_protocol.Types.Payload.{PayloadMode, text}
use ldp_protocol.Types.Provenance.{Provenance}
use ldp_protocol.Types.Session.{LdpSession}
use ldp_protocol.Signing.{sign_if_configured}
use ldp_protocol.Signing.Verify.{sign-fields}
use ldp_protocol.Config.{LdpAdapterConfig}
use ldp_protocol.Client.{Http, send_message, read_message}
use ldp_protocol.Server.{LdpServer}
use ldp_protocol.Server.Answers.{query-task_result}
use ldp_protocol.Server.Gate.{check_signature-sign}
use ldp_protocol.Server.Handlers.{check_signature, handle_message}
use ldp_protocol.Server.Readable.{sign-IsMessage}
use ldp_protocol.Server.Tasks.{IsDone, IsOwn}
use ldp_protocol.SessionManager.{SessionManager, send, touch, touch_found}
use ldp_protocol.SessionManager.Delivery.{Delivers}
use ldp_protocol.Adapter.{receive_provenance, stream_result, stream_event}
use ldp_protocol.Adapter.Methods.{
  LdpAdapter, send_signed, store_contract, finish_invoke, query, status_query,
}

module _ ⦃ext : Externals⦄ ⦃http : Http⦄ where
  pub stream_event-task_result :
      (config : LdpAdapterConfig) (c : Option DelegationContract) (r : LdpEnvelope) (t : String)
      (v : ext.Value) (p : Provenance) (e : Entropy)
      → r.body ≡ task_result t v p
      → let done = stream_result config c v (receive_provenance p) e in
        stream_event config c (ok r) e ≡ (done.0 ∷ [], true, done.1)
  unfolding stream_event
  stream_event-task_result config c r t v p e body = rw (body, stream_event) refl

  store_contract-frame :
      (id : String) (c : Option DelegationContract) (a : LdpAdapter)
      → ((store_contract id c a).session_manager ≡ a.session_manager)
        × ((store_contract id c a).config ≡ a.config)
  store_contract-frame id none a = (refl, refl)
  store_contract-frame id (some c) a = (refl, refl)

  touch-net : (url : String) (s : SessionManager) → (touch url s).net ≡ s.net
  unfolding touch
  touch-net url s = go (HashMap.get s.sessions url)
    where
      go : (o : Option LdpSession) → (touch_found o url s).net ≡ s.net
      go none = refl
      go (some session) = refl

  -- The contract on file after the last steps of `invoke`: the one that was given, or what was on
  -- file under that id before.
  pub finish_invoke-contracts :
      (url id : String) (c : Option DelegationContract) (a : LdpAdapter)
      → HashMap.get (finish_invoke url id c a).1.contracts id
        ≡ or_else c (HashMap.get a.contracts id)
  unfolding finish_invoke or_else
  finish_invoke-contracts url id none a = refl
  finish_invoke-contracts url id (some c) a = HashMap.get-insert_self a.contracts id c

  -- The last steps of `invoke` send nothing.
  pub finish_invoke-net :
      (url id : String) (c : Option DelegationContract) (a : LdpAdapter)
      → ((finish_invoke url id c a).1.session_manager.net ≡ a.session_manager.net)
        × ((finish_invoke url id c a).1.config ≡ a.config)
  unfolding finish_invoke
  finish_invoke-net url id c a =
      let (manager, config) = store_contract-frame id c a in
      (touch-net url _ ∙ ap (λ (s : SessionManager). s.net) manager, config)

  -- The server, as the adapter's network has it.
  abbrev pub remote : (http.Net → LdpServer) → LdpAdapter → LdpServer
  remote peer a = peer a.session_manager.net

  module _ (url : String) (peer : http.Net → LdpServer) (d : Delivers url peer)
      (ct : CtEqLaws) where
    -- A message of the adapter that the server answers.
    pub record Answered (id to : String) (body : LdpMessageBody) (mode : PayloadMode)
        (a : LdpAdapter) : Type 0 where
      pub sent : LdpEnvelope
      pub reply : LdpEnvelope
      pub after : LdpAdapter
      pub sent_body : sent.body ≡ body
      pub passed : check_signature (remote peer a).signing_secret sent ≡ ok tt
      pub run : send_signed url id to body mode a ≡ (ok reply, after)
      pub reply_ok : (handle_message sent (remote peer a)).0 ≡ ok reply
      pub after_remote : remote peer after ≡ (handle_message sent (remote peer a)).1
      pub after_config : after.config ≡ a.config
      pub after_contracts : after.contracts ≡ a.contracts

    pub send_signed-Answered :
        (id to : String) (body : LdpMessageBody) (mode : PayloadMode) (a : LdpAdapter)
        → IsBody body
        → (remote peer a).signing_secret ≡ a.config.signing_secret
        → ((e : LdpEnvelope)
            → e.body ≡ body
            → check_signature (remote peer a).signing_secret e ≡ ok tt
            → (r : LdpEnvelope) × ((handle_message e (remote peer a)).0 ≡ ok r))
        → Answered id to body mode a
    unfolding send_signed send send_message read_message Messages.new
    send_signed-Answered id to body mode a fits k answers =
        let e = (Messages.new id a.config.delegate_id to body mode a.session_manager.entropy).0 in
        let sent = sign_if_configured a.config.signing_secret e in
        let (_, _, same) = sign-fields a.config.signing_secret e in
        let passed : check_signature (remote peer a).signing_secret sent ≡ ok tt =
          rw k (check_signature-sign ct a.config.signing_secret e) in
        let carried = sign-IsMessage a.config.signing_secret e (fits, tt) in
        let (r, made) = answers sent same passed in
        let done = send_signed url id to body mode a in
        record {
          sent = sent;
          reply = r;
          after = done.1;
          sent_body = same;
          passed = passed;
          run = ap (λ h. (h, done.1)) (d.answer sent a.session_manager.net r carried made);
          reply_ok = made;
          after_remote = d.state sent a.session_manager.net carried;
          after_config = refl;
          after_contracts = refl;
        }

    -- The answer to a query for a task that is done.
    pub record Queried (t : String) (v : ext.Value) (a : LdpAdapter) : Type 0 where
      pub reply : LdpEnvelope
      pub after : LdpAdapter
      pub provenance : Provenance
      pub run : query url t a ≡ (ok reply, after)
      pub body : reply.body ≡ task_result t v provenance
      pub own : IsOwn (remote peer a).identity provenance
      pub after_config : after.config ≡ a.config
      pub after_contracts : after.contracts ≡ a.contracts

    pub query-Queried :
        (t : String) (v : ext.Value) (a : LdpAdapter)
        → (remote peer a).signing_secret ≡ a.config.signing_secret
        → IsDone v (HashMap.get (remote peer a).tasks t)
        → Queried t v a
    unfolding query
    query-Queried t v a k done =
        let q = send_signed-Answered "" url (status_query t) text a tt k (λ e b passed.
          let (r, _, made, _, _) =
            query-task_result e (remote peer a) t none (some "status_query") v b passed done in
          (r, made)) in
        let (r, p, made, body, own) =
          query-task_result q.sent (remote peer a) t none (some "status_query") v q.sent_body
            q.passed done in
        let same : r ≡ q.reply = ground (arith, made, q.reply_ok) in
        record {
          reply = q.reply;
          after = q.after;
          provenance = p;
          run = q.run;
          body = ap (λ (x : LdpEnvelope). x.body) (sym same) ∙ body;
          own = own;
          after_config = q.after_config;
          after_contracts = q.after_contracts;
        }

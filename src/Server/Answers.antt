-- ===== src/Server/Answers.antt =====
-- What the server (src/server.rs) answers to a submission and to a query, in the form in which a
-- client reads it.
use ldp_protocol.Common.{String, ◌≡◌, refl, Option, ok}
use ldp_protocol.Common.HashMap
use ldp_protocol.Externals.{Externals}
use ldp_protocol.Types.Contract.{DelegationContract}
use ldp_protocol.Types.Identity.{LdpIdentityCard}
use ldp_protocol.Types.Messages.{LdpEnvelope, LdpMessageBody, task_submit, task_update, task_result}
use ldp_protocol.Types.Provenance.{Provenance}
use ldp_protocol.Signing.{sign_if_configured}
use ldp_protocol.Server.{LdpServer}
use ldp_protocol.Server.Frame.{handle_message-ok, handle_message_state}
use ldp_protocol.Server.Handlers.{check_signature, handle_message}
use ldp_protocol.Server.Tasks.{
  IsOwn, ResultOf, IsDone, dispatch-submit, dispatch-query, sign-ResultOf,
}

module _ ⦃ext : Externals⦄ where
  ResultOf-body :
      (card : LdpIdentityCard) (t : String) (v : ext.Value) (b : LdpMessageBody)
      → ResultOf card t v b
      → (p : Provenance) × (b ≡ task_result t v p) × IsOwn card p
  ResultOf-body card t v (task_result i output p) (task, out, own) = (p, rw (task, out) refl, own)
  ResultOf-body card t v _ h = absurd h

  module _ (e : LdpEnvelope) (s : LdpServer) where
    -- A submission that passes the signature check is answered, and its task is done.
    pub submit-IsDone :
        (t skill : String) (input : ext.Value) (c : Option DelegationContract)
        → e.body ≡ task_submit t skill input c
        → check_signature s.signing_secret e ≡ ok tt
        → (r : LdpEnvelope) × ((handle_message e s).0 ≡ ok r)
          × IsDone (s.handler skill input) (HashMap.get (handle_message e s).1.tasks t)
    submit-IsDone t skill input c b passed =
        let (r, made, _, done) = dispatch-submit e s t skill input c in
        (
          sign_if_configured s.signing_secret r,
          handle_message-ok e s b passed r made,
          rw (handle_message_state e s b passed) done,
        )

    -- A query for a task that is done is answered with its output.
    pub query-task_result :
        (t : String) (p : Option ext.Float) (m : Option String) (v : ext.Value)
        → e.body ≡ task_update t p m
        → check_signature s.signing_secret e ≡ ok tt
        → IsDone v (HashMap.get s.tasks t)
        → (r : LdpEnvelope) × (p : Provenance) × ((handle_message e s).0 ≡ ok r)
          × (r.body ≡ task_result t v p)
          × IsOwn s.identity p
    query-task_result t p m v b passed done =
        let (r, made, result) = dispatch-query e s t p m v done in
        let r' = sign_if_configured s.signing_secret r in
        let (prov, body, own) =
          ResultOf-body s.identity t v r'.body
            (sign-ResultOf s.signing_secret s.identity t v r result) in
        (r', prov, handle_message-ok e s b passed r made, body, own)

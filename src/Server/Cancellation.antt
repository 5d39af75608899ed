-- ===== src/Server/Cancellation.antt =====
-- The cancelling of a task on the server (src/server.rs).
use ldp_protocol.Common.{String, ◌≡◌, refl, ap, ◌∙◌, Option, none, List, ok, err, All, continue}
use ldp_protocol.Common.HashMap
use ldp_protocol.Common.Text.{◌<>◌}
use ldp_protocol.Externals.{Externals}
use ldp_protocol.Types.Error.{runtime}
use ldp_protocol.Types.Messages.{LdpEnvelope, task_update, task_cancel, task_failed}
use ldp_protocol.Signing.{sign_if_configured}
use ldp_protocol.Server.{LdpServer}
use ldp_protocol.Server.Frame.{
  SameSetup_trans, handle_message-body, handle_message-ok, handle_message_state,
  handle_message-SameSetup,
}
use ldp_protocol.Server.Handlers.{
  respond, handle_task_status_query, answer_status, handle_task_cancel, check_signature,
  sign_outgoing, dispatch, handle_message,
}
use ldp_protocol.Server.Proposals.{sign-body}
use ldp_protocol.Server.Tasks.{serve, Leaves, serve-SameSetup, get-tasks-serve}

module _ ⦃ext : Externals⦄ where
  get-tasks-dispatch_cancel :
      (e : LdpEnvelope) (s : LdpServer) (t : String)
      → HashMap.get (dispatch e (task_cancel t) s).1.tasks t ≡ none
  unfolding dispatch handle_task_cancel respond
  get-tasks-dispatch_cancel e s t = HashMap.get-remove_self s.tasks t

  dispatch-query_none :
      (e : LdpEnvelope) (s : LdpServer) (t : String) (p : Option ext.Float) (m : Option String)
      → HashMap.get s.tasks t ≡ none
      → dispatch e (task_update t p m) s ≡ (err ("Unknown task: " <> t), s)
  unfolding dispatch handle_task_status_query
  dispatch-query_none e s t p m h = rw (h, answer_status)

  dispatch_cancel :
      (e : LdpEnvelope) (s : LdpServer) (t : String)
      → (r : LdpEnvelope) × ((dispatch e (task_cancel t) s).0 ≡ ok r)
        × (r.body ≡ task_failed t (runtime "CANCELLED" "Task cancelled by client"))
  unfolding dispatch handle_task_cancel respond
  dispatch_cancel e s t = (_, refl, refl)

  -- A cancellation that passes the signature check is answered with the failure CANCELLED for its
  -- task, known to the server or not; and every later query for the task that passes it is refused
  -- as one for an unknown task and changes nothing, whatever messages come between, as long as none
  -- of them submits or cancels that task.
  pub status_after_cancel :
      (e q : LdpEnvelope) (s : LdpServer) (es : List LdpEnvelope) (t : String)
      (p : Option ext.Float) (m : Option String)
      → e.body ≡ task_cancel t
      → q.body ≡ task_update t p m
      → check_signature s.signing_secret e ≡ ok tt
      → check_signature s.signing_secret q ≡ ok tt
      → All (λ x. Leaves t x.body) es
      → (r : LdpEnvelope) × ((handle_message e s).0 ≡ ok r)
        × (r.body ≡ task_failed t (runtime "CANCELLED" "Task cancelled by client"))
        × (handle_message q (serve (handle_message e s).1 es)
            ≡ (err ("Unknown task: " <> t), serve (handle_message e s).1 es))
  status_after_cancel e q s es t p m eb qb pe pq quiet =
      let s₁ = (handle_message e s).1 in
      let s₂ = serve s₁ es in
      let same = SameSetup_trans s s₁ s₂ (handle_message-SameSetup e s) (serve-SameSetup s₁ es) in
      let k = same.signing_secret in
      let gone : HashMap.get s₂.tasks t ≡ none =
        get-tasks-serve t s₁ es quiet
        ∙ (ap (λ (x : LdpServer). HashMap.get x.tasks t) (handle_message_state e s eb pe)
            ∙ get-tasks-dispatch_cancel e s t) in
      let (r, made, failed) = dispatch_cancel e s t in
      (
        sign_if_configured s.signing_secret r,
        handle_message-ok e s eb pe r made,
        sign-body s.signing_secret r ∙ failed,
        handle_message-body q s₂ qb (rw k pq)
            ∙ ap (λ d. continue d sign_outgoing) (dispatch-query_none q s₂ t p m gone),
      )

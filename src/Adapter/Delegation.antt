-- ===== src/Adapter/Delegation.antt =====
-- Delegating a task from end to end: the adapter (src/adapter.rs) over a network with the server of
-- this crate (src/server.rs) at its other end.
use mathlib.Core.Option.{or_else}
use mathlib.Core.Path.{subst}
use ldp_protocol.Common.{ℕ, suc, String, ◌≡◌, refl, sym, ap, ◌∙◌, true, [], ◌∷◌, ok}
use ldp_protocol.Common.HashMap
use ldp_protocol.Externals.{Externals, Entropy, JsonLaws, CtEqLaws}
use ldp_protocol.Types.Messages.{task_submit}
use ldp_protocol.Types.Messages.Json.Wire.{IsContractOption}
use ldp_protocol.Types.Provenance.{Provenance}
use ldp_protocol.Types.Trust.{trusts}
use ldp_protocol.Config.{LdpAdapterConfig}
use ldp_protocol.Client.{Http}
use ldp_protocol.Protocol.{TaskRequest, TaskHandle}
use ldp_protocol.Server.{LdpServer}
use ldp_protocol.Server.Answers.{submit-IsDone}
use ldp_protocol.Server.Frame.{SameSetup, SameSetup_trans, handle_message-SameSetup}
use ldp_protocol.Server.Handlers.{handle_message}
use ldp_protocol.Server.Tasks.{IsDone, IsOwn}
use ldp_protocol.SessionManager.{fresh_id}
use ldp_protocol.SessionManager.Delivery.{Delivers}
use ldp_protocol.SessionManager.Reuse.{get_or_establish-Ready}
use ldp_protocol.Adapter.{receive_provenance, stream_result, status_result, status_of}
use ldp_protocol.Adapter.Delivery.{
  remote, send_signed-Answered, query-Queried, finish_invoke-net, finish_invoke-contracts,
  stream_event-task_result,
}
use ldp_protocol.Adapter.Methods.{
  LdpAdapter, finish_invoke, invoke, poll, poll_rounds, stream, read_stream, status,
}
use ldp_protocol.Adapter.Submission.{invoke-Submitted}

module _ ⦃ext : Externals⦄ ⦃http : Http⦄ where
  module _ (url : String) (peer : http.Net → LdpServer) (d : Delivers url peer)
      (ct : CtEqLaws) where
    -- The adapter after a submission: a handle, whose task is done on the server.
    record Invoked (task : TaskRequest) (a : LdpAdapter) : Type 0 where
      handle : TaskHandle
      after : LdpAdapter
      run : invoke url task a ≡ (ok handle, after)
      setup : SameSetup (remote peer a) (remote peer after)
      secret : (remote peer after).signing_secret ≡ after.config.signing_secret
      done :
          IsDone
            ((remote peer a).handler task.skill task.input)
            (HashMap.get (remote peer after).tasks handle.task_id)
      after_config : after.config ≡ a.config
      filed :
          HashMap.get after.contracts handle.task_id
          ≡ or_else task.contract (HashMap.get a.contracts handle.task_id)

    module _ (laws : JsonLaws) (task : TaskRequest) (a : LdpAdapter)
        (same : a.session_manager.config ≡ a.config)
        (k : (remote peer a).signing_secret ≡ a.config.signing_secret)
        (trusted : trusts (remote peer a).identity.trust_domain a.config.trust_domain.name ≡ true)
        (fits : IsContractOption task.contract) where
      invoke-Invoked : Invoked task a
      unfolding invoke finish_invoke fresh_id
      invoke-Invoked =
          let m = a.session_manager in
          let ready =
            get_or_establish-Ready url peer d laws ct m
              (k ∙ ap (λ (c : LdpAdapterConfig). c.signing_secret) (sym same)) (rw same trusted) in
          let m₁ = ready.after in
          let id = ext.uuid_v4 m₁.entropy.uuids in
          let b : LdpAdapter = record a {
            session_manager = record m₁ {
              entropy = record m₁.entropy { uuids = suc m₁.entropy.uuids };
            };
          } in
          let secret : (remote peer b).signing_secret ≡ a.config.signing_secret =
            ready.setup.signing_secret ∙ k in
          let q =
            send_signed-Answered url peer d ct ready.session.session_id
              ready.session.remote_delegate_id (task_submit id task.skill task.input task.contract)
              ready.session.payload.mode b fits secret
              (λ e body passed.
                let (r, made, _) =
                  submit-IsDone e (remote peer b) id task.skill task.input task.contract body
                    passed in
                (r, made)) in
          let (_, _, done) =
            submit-IsDone q.sent (remote peer b) id task.skill task.input task.contract q.sent_body
              q.passed in
          let (net, config) = finish_invoke-net url id task.contract q.after in
          let there : remote peer (finish_invoke url id task.contract q.after).1
              ≡ (handle_message q.sent (remote peer b)).1 =
            ap peer net ∙ q.after_remote in
          let setup = SameSetup_trans (remote peer a) (remote peer b) _ ready.setup (
            subst (λ x. SameSetup (remote peer b) x) (sym there)
              (handle_message-SameSetup q.sent (remote peer b))) in
          record {
            handle = record { task_id = id; remote_url = url };
            after = (finish_invoke url id task.contract q.after).1;
            run = rw (ready.run, q.run) refl;
            setup = setup;
            secret =
                setup.signing_secret
                ∙ (k
                    ∙ ap (λ (c : LdpAdapterConfig). c.signing_secret)
                        (sym (config ∙ q.after_config)));
            done =
                subst
                  (λ (x : LdpServer).
                    IsDone ((remote peer a).handler task.skill task.input) (HashMap.get x.tasks id))
                  (sym there)
                  (subst
                    (λ h.
                      IsDone (h task.skill task.input)
                        (HashMap.get (handle_message q.sent (remote peer b)).1.tasks id))
                    ready.setup.handler done);
            after_config = config ∙ q.after_config;
            filed =
                finish_invoke-contracts url id task.contract q.after
                ∙ ap (λ m. or_else task.contract (HashMap.get m id)) q.after_contracts;
          }

      -- What the server's handler makes of the task.
      abbrev pub expected : ext.Value
      expected = (remote peer a).handler task.skill task.input

      -- Over a network that delivers the messages that JSON can carry to this crate's server and its
      -- answers back, with the same signing secret on both sides or none, with a server that trusts
      -- the client's domain, and from an adapter whose session manager has its configuration: a
      -- submission of a task whose contract JSON can carry, if it has one, succeeds, whatever
      -- sessions are cached; and asking for the status of the handle's task gives the result that the
      -- server's handler computes from the skill and the input, with the server's own provenance,
      -- checked against the contract that the task was given, or, where it was given none, against
      -- one that is on file under the handle's id from before. The handle names the URL.
      pub status-invoke :
          (handle : TaskHandle) × (p : Provenance) × (e : Entropy) × ((invoke url task a).0
            ≡ ok handle)
          × (handle.remote_url ≡ url)
          × IsOwn (remote peer a).identity p
          × ((status url handle.task_id (invoke url task a).1).0
              ≡ ok
                  (status_result a.config
                    (or_else task.contract (HashMap.get a.contracts handle.task_id))
                    expected
                    (receive_provenance p)
                    e).0)
      unfolding status status_of
      status-invoke =
          let i = invoke-Invoked in
          let q = query-Queried url peer d ct i.handle.task_id expected i.after i.secret i.done in
          (
            i.handle,
            q.provenance,
            q.after.session_manager.entropy,
            ap (λ x. x.0) i.run,
            (invoke-Submitted url task a i.handle (ap (λ x. x.0) i.run)).remote_url,
            subst (λ card. IsOwn card q.provenance) i.setup.identity q.own,
            rw (i.run, q.run, q.body, q.after_config, q.after_contracts, i.filed, i.after_config)
                refl,
          )

      -- Over a network that delivers the messages that JSON can carry to this crate's server and its
      -- answers back, with the same signing secret on both sides or none, with a server that trusts
      -- the client's domain, and from an adapter whose session manager has its configuration: a
      -- stream of the events of a task whose contract JSON can carry, if it has one, is exactly one
      -- event, for any number of rounds but none: the result that the server's handler computes, with
      -- the server's own provenance, checked against the contract of the task; and the stream has
      -- ended.
      pub stream_delegated :
          (n : ℕ)
          → (p : Provenance) × (e : Entropy) × IsOwn (remote peer a).identity p
            × ((read_stream (suc n) url task a).0
                ≡ ok (
                  (stream_result a.config task.contract expected (receive_provenance p) e).0 ∷ [],
                  true,
                ))
      unfolding read_stream stream poll_rounds poll
      stream_delegated n =
          let i = invoke-Invoked in
          let q = query-Queried url peer d ct i.handle.task_id expected i.after i.secret i.done in
          (
            q.provenance,
            q.after.session_manager.entropy,
            subst (λ card. IsOwn card q.provenance) i.setup.identity q.own,
            rw
                (
                  i.run,
                  q.run,
                  stream_event-task_result q.after.config task.contract q.reply i.handle.task_id
                      expected q.provenance q.after.session_manager.entropy q.body,
                  q.after_config,
                  i.after_config,
                )
                refl,
          )

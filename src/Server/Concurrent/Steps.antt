-- ===== src/Server/Concurrent/Steps.antt =====
-- One step of a handler (src/server.rs) next to the abstract machine.
use ldp_protocol.Common.{
  String, ◌≡◌, refl, sym, ap, ◌∙◌, Option, none, some, List, [], ◌∷◌, ◌++◌, Result, ok, err, arith,
  continue,
}
use ldp_protocol.Externals.{Externals, CtEqLaws}
use ldp_protocol.Types.Contract.{DelegationContract}
use ldp_protocol.Types.Messages.{LdpEnvelope, LdpMessageBody, task_submit}
use ldp_protocol.Server.{LdpServer}
use ldp_protocol.Server.Concurrent.{
  Phase, waiting, stored, finished, finish, start, advance, commits,
}
use ldp_protocol.Server.Frame.{handle_message-SameSetup}
use ldp_protocol.Server.Handlers.{
  check_signature, store_task, answer_submit, sign_outgoing, dispatch, handle_task_submit, respond,
  handle_message,
}
use ldp_protocol.Server.Refines.{
  dispatch-Refines, check_signature_iff, read-sign, handle_message-Refines, setup-SameSetup,
}
use ldp_protocol.Server.Sessions.{IsValid, dispatch-IsValid, handle_message-IsValid}
use ldp_protocol.Server.View.{
  View, Reply, Setup, react, receive, receive_all, view, setup, read, result,
}

module _ ⦃ext : Externals⦄ where
  pub receive_all-append :
      (w : Setup) (es ds : List LdpEnvelope) (v : View)
      → (receive_all w (es ++ ds) v).1 ≡ (receive_all w ds (receive_all w es v).1).1
  unfolding receive_all
  receive_all-append w [] ds v = refl
  receive_all-append w (e ∷ es) ds v = receive_all-append w es ds (receive w e v).1

  abbrev pub message : Phase → LdpEnvelope
  message (waiting e) = e
  message (stored e t output) = e
  message (finished e answer) = e

  -- The answer that is settled, as a client reads it.
  abbrev pub settled : Phase → Option Reply
  settled (waiting e) = none
  settled (stored e t output) = some (result t output)
  settled (finished e answer) = some (read answer)

  -- Where a settled answer comes from, in one step.
  abbrev pub From : Phase → LdpServer → Reply → Type 0
  From (waiting e) s r = (receive (setup s) e (view s)).0 ≡ r
  From phase s r = settled phase ≡ some r

  -- One step: the machine does the same with the message that takes effect, if any.
  pub record Advanced (phase : Phase) (s : LdpServer) (p : Phase × LdpServer) : Type 0 where
    pub valid : IsValid p.1
    pub fixed : setup p.1 ≡ setup s
    pub state : view p.1 ≡ (receive_all (setup s) (commits phase) (view s)).1
    pub answer : (r : Reply) → settled p.0 ≡ some r → From phase s r
    pub same : message p.0 ≡ message phase

  handled :
      (laws : CtEqLaws) (e : LdpEnvelope) (s : LdpServer)
      → IsValid s
      → Advanced (waiting e) s (finish e (handle_message e s))
  unfolding receive_all
  handled laws e s v =
      let (answer, state) = handle_message-Refines laws e s v in
      record {
        valid = handle_message-IsValid e s v;
        fixed = setup-SameSetup s (handle_message e s).1 (handle_message-SameSetup e s);
        state = state;
        answer = λ r q. sym answer ∙ ground (arith, q);
        same = refl;
      }

  handled_submit :
      (laws : CtEqLaws) (e : LdpEnvelope) (s : LdpServer) (t skill : String) (input : ext.Value)
      (c : Option DelegationContract)
      → IsValid s
      → check_signature s.signing_secret e ≡ ok tt
      → e.body ≡ task_submit t skill input c
      → Advanced
          (waiting e)
          s
          (stored e t (s.handler skill input), store_task t skill (s.handler skill input) s)
  unfolding receive_all receive react setup view dispatch handle_task_submit respond
  handled_submit laws e s t skill input c v passed body =
      let admitted = (check_signature_iff laws s.signing_secret e).0 passed in
      record {
        valid = record {
          sessions = v.sessions;
          tasks = (dispatch-IsValid e (task_submit t skill input c) s v).tasks;
        };
        fixed =
            setup-SameSetup s _ (record { identity = refl; handler = refl; signing_secret = refl });
        state = rw (admitted, body) (dispatch-Refines e (task_submit t skill input c) s v).1;
        answer = λ r q. rw (admitted, body) (ground (arith, q));
        same = refl;
      }

  -- The second part of a submission changes nothing that the machine sees.
  answered_submit :
      (e : LdpEnvelope) (t : String) (output : ext.Value) (s : LdpServer)
      → IsValid s
      → Advanced
          (stored e t output)
          s
          (finish e (continue (answer_submit e t output s) sign_outgoing))
  unfolding receive_all view respond read
  answered_submit e t output s v = record {
    valid = record { sessions = v.sessions; tasks = v.tasks };
    fixed = setup-SameSetup s _ (record { identity = refl; handler = refl; signing_secret = refl });
    state = refl;
    answer = λ r q. sym (ap some (read-sign (answer_submit e t output s))) ∙ q;
    same = refl;
  }

  pub advance-Advanced :
      (laws : CtEqLaws) (phase : Phase) (s : LdpServer)
      → IsValid s
      → Advanced phase s (advance phase s)
  unfolding advance receive_all
  advance-Advanced laws (waiting e) s v = go (check_signature s.signing_secret e) refl e.body refl
    where
      go :
          (r : Result (Unit {0}))
          → check_signature s.signing_secret e ≡ r
          → (b : LdpMessageBody) → e.body ≡ b
          → Advanced (waiting e) s (start r b e s)
      go (ok _) h (task_submit t skill input c) body =
          handled_submit laws e s t skill input c v h body
      go (ok _) h _ body = handled laws e s v
      go (err m) h b body = handled laws e s v
  advance-Advanced laws (stored e t output) s v = answered_submit e t output s v
  advance-Advanced laws (finished e answer) s v = record {
    valid = v;
    fixed = refl;
    state = refl;
    answer = λ r q. q;
    same = refl;
  }

-- ===== src/Server/Concurrent.antt =====
-- Several messages that a server handles at once (src/server.rs): a handler holds a lock for one
-- access to one map at a time, and other handlers run in between.
pub mod Steps
pub mod Linear
use ldp_protocol.Common.{
  ℕ, String, Bool, true, false, List, [], ◌∷◌, ◌++◌, eqb, if◌then◌else◌, Result, ok, err, continue,
}
use ldp_protocol.Externals.{Externals}
use ldp_protocol.Types.Messages.{LdpEnvelope, LdpMessageBody, task_submit}
use ldp_protocol.Server.{LdpServer}
use ldp_protocol.Server.Handlers.{
  check_signature, store_task, answer_submit, sign_outgoing, handle_message,
}

module _ ⦃ext : Externals⦄ where
  -- Where the handling of a message is. Only the handler of a submission takes two locks, one after
  -- the other: it stores the task, and then it reads the mode of the session.
  pub data Phase : Type 0 where
    waiting : LdpEnvelope → Phase
    stored : LdpEnvelope → String → ext.Value → Phase
    finished : LdpEnvelope → Result LdpEnvelope → Phase

  abbrev pub finish : LdpEnvelope → Result LdpEnvelope × LdpServer → Phase × LdpServer
  finish e (answer, s) = (finished e answer, s)

  -- Up to the end of the first lock, after the check of the signature.
  abbrev pub start :
      Result (Unit {0}) → LdpMessageBody → LdpEnvelope → LdpServer → Phase × LdpServer
  start (ok _) (task_submit t skill input _) e s =
      let output = s.handler skill input in (stored e t output, store_task t skill output s)
  start _ _ e s = finish e (handle_message e s)

  unfoldable pub advance : Phase → LdpServer → Phase × LdpServer
  advance (waiting e) s = start (check_signature s.signing_secret e) e.body e s
  advance (stored e t output) s = finish e (continue (answer_submit e t output s) sign_outgoing)
  advance (finished e answer) s = (finished e answer, s)

  -- The server, and where the messages are that it was sent.
  pub record World : Type 0 where
    pub server : LdpServer
    pub messages : ℕ → Phase

  -- One of the handlers, chosen by the scheduler, goes on.
  unfoldable pub move : ℕ → World → World
  move i w =
      let (phase, server) = advance (w.messages i) w.server in
      record { server = server; messages = λ j. if eqb i j then phase else w.messages j }

  -- The message that takes effect with a step: the one that goes on for the first time.
  abbrev pub commits : Phase → List LdpEnvelope
  commits (waiting e) = e ∷ []
  commits _ = []

  -- The worlds that the scheduler can reach, with the messages in the order in which they took
  -- effect.
  pub data Reach (first : World) : List LdpEnvelope → World → Type 0 where
    here : Reach first [] first
    next :
        {es : List LdpEnvelope} {w : World} (i : ℕ)
        → Reach first es w
        → Reach first (es ++ commits (w.messages i)) (move i w)

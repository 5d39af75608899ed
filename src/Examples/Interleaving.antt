-- ===== src/Examples/Interleaving.antt =====
-- Runs in which callers of a session manager (src/session_manager.rs), or handlers of a server
-- (src/server.rs), take turns.
use ldp_protocol.Common.{ℕ, zero, ◌≡◌, refl, none, some, [], ◌∷◌, String, option_map}
use ldp_protocol.Common.HashMap
use ldp_protocol.Common.HashMap.{HashMap}
use ldp_protocol.Externals.{get}
use ldp_protocol.Types.Messages.{LdpEnvelope, session_accept, task_update}
use ldp_protocol.Types.Payload.{text, negotiate_payload_mode}
use ldp_protocol.Client.{send_message, read_message}
use ldp_protocol.Server.Concurrent
use ldp_protocol.Server.Concurrent.{finish}
use ldp_protocol.Server.Concurrent.Linear.{IsLinear, Reach-IsLinear}
use ldp_protocol.Server.Sessions
use ldp_protocol.SessionManager.{send, send_signed, make_envelope, conclude, open_session, fresh_id}
use ldp_protocol.SessionManager.Callers.{
  Phase, asking, answered, World, move, moves, advance, Reach, here, next,
}
use ldp_protocol.SessionManager.Callers.Interleaved.{IsValid, Reach-IsValid}
use ldp_protocol.SessionManager.Halves.{greet, propose}
use ldp_protocol.Examples.Calling.{manager, manifest, answer}
use ldp_protocol.Examples.Serving.{server, message, submission}
use ldp_protocol.Examples.World.{toy, toy_http, toy_ct_eq}

-- Two callers that ask for one URL before either has a session, each message of the one followed by
-- the same message of the other.
abbrev both : World
both = record {
  manager =
      manager
        (manifest
          ∷ manifest
          ∷ answer (session_accept "first" text)
          ∷ answer (session_accept "second" text)
          ∷ [])
        [];
  callers = λ _. asking "http://a";
}

abbrev raced : World
raced = move 1 (move 0 (move 1 (move 0 (move 1 (move 0 (move 1 (move 0 both)))))))

both-IsValid : IsValid both
both-IsValid = record { cache = tt; callers = λ i. tt }

Reach-raced : Reach both raced
Reach-raced = turn (turn (turn (turn here)))
  where
    turn : {w : World} → Reach both w → Reach both (move 1 (move 0 w))
    turn r = next (next r (moves 0 _)) (moves 1 _)

Reach-IsValid_example : IsValid raced
Reach-IsValid_example = Reach-IsValid both-IsValid Reach-raced

-- Each has made a session of its own, and only the second one stays in the cache.
abbrev session_of : Phase → String
session_of (answered url session) = session.session_id
session_of _ = "none"

raced_run :
    (session_of (raced.callers 0) ≡ "first")
    × (session_of (raced.callers 1) ≡ "second")
    × (option_map (λ s. s.session_id) (HashMap.get raced.manager.sessions "http://a")
        ≡ some "second")
unfolding move advance greet propose send_signed make_envelope send send_message read_message
    fresh_id conclude open_session get negotiate_payload_mode HashMap.get HashMap.insert
raced_run = (refl, refl, refl)

-- A submission and a query for its task, which is answered after the task is stored and before the
-- submission is.
abbrev posted : ℕ → LdpEnvelope
posted zero = submission
posted _ = message (task_update "t" none none)

abbrev arriving : Concurrent.World
arriving = record { server = server; messages = λ i. Concurrent.waiting (posted i) }

abbrev overtaken : Concurrent.World
overtaken = Concurrent.move 0 (Concurrent.move 1 (Concurrent.move 0 arriving))

Reach-overtaken : Concurrent.Reach arriving (posted 0 ∷ posted 1 ∷ []) overtaken
unfolding Concurrent.move Concurrent.advance
Reach-overtaken = Concurrent.next 0 (Concurrent.next 1 (Concurrent.next 0 Concurrent.here))

server-IsValid : Sessions.IsValid server
server-IsValid = record { sessions = tt; tasks = tt }

Reach-IsLinear_example : IsLinear toy_ct_eq arriving (posted 0 ∷ posted 1 ∷ []) overtaken
Reach-IsLinear_example =
    Reach-IsLinear toy_ct_eq arriving server-IsValid (λ i. refl) Reach-overtaken

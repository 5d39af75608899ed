-- ===== src/Server/Sessions.antt =====
-- How the server (src/server.rs) opens and closes sessions, and what holds of all it has open.
use ldp_protocol.Common.{
  suc, filter, String, ◌≡◌, ◌≢◌, refl, ap, inl, inr, true, Option, none, some, List, [], ◌∷◌, All,
  length, Bool-cases,
}
use ldp_protocol.Common.HashMap
use ldp_protocol.Common.HashMap.{HashMap}
use ldp_protocol.Externals.{Externals}
use ldp_protocol.Types.Messages.{
  LdpEnvelope, LdpMessageBody, hello, session_propose, task_submit, task_update, task_cancel,
  session_close,
}
use ldp_protocol.Types.Payload.{is_implemented}
use ldp_protocol.Types.Payload.Negotiation.{is_implemented-negotiate_payload_mode}
use ldp_protocol.Types.Session.{LdpSession, active}
use ldp_protocol.Types.Trust.{TrustDomain, trusts}
use ldp_protocol.Server.{LdpServer, TaskRecord, completed, is_completed, completed_tasks}
use ldp_protocol.Server.Frame.{handle_message-cases}
use ldp_protocol.Server.Handlers.{
  respond, handle_hello, reject_session, accept_session, handle_session_propose, handle_task_submit,
  handle_task_status_query, answer_status, handle_task_cancel, handle_session_close, dispatch,
  handle_message, remote_domain,
}
use ldp_protocol.Server.Tasks.{serve}

module _ ⦃ext : Externals⦄ where
  -- A session under its key, on a server with a given trust domain.
  pub record IsOpen (home : TrustDomain) (entry : String × LdpSession) : Type 0 where
    pub keyed : entry.1.session_id ≡ entry.0
    pub state : entry.1.state ≡ active
    pub mode : is_implemented entry.1.payload.mode ≡ true
    pub trust_domain : entry.1.trust_domain ≡ home

  -- A task record under its key: every record that the server makes is of a completed task.
  pub record IsFinished (entry : String × TaskRecord) : Type 0 where
    pub keyed : entry.1.task_id ≡ entry.0
    pub state : entry.1.state ≡ completed
    pub output : entry.1.output ≢ none
    pub error : entry.1.error ≡ none

  pub record IsValid (s : LdpServer) : Type 0 where
    pub sessions : All (IsOpen s.identity.trust_domain) s.sessions
    pub tasks : All IsFinished s.tasks

  accept_session-IsValid :
      (e : LdpEnvelope) (c : ext.Value) (s : LdpServer)
      → IsValid s
      → IsValid (accept_session e c s).1
  unfolding accept_session respond
  accept_session-IsValid e c s v = record {
    sessions =
        HashMap.All-insert (IsOpen s.identity.trust_domain) s.sessions e.session_id _ v.sessions
          (record {
            keyed = refl;
            state = refl;
            mode = is_implemented-negotiate_payload_mode _ _;
            trust_domain = refl;
          });
    tasks = v.tasks;
  }

  handle_session_propose-IsValid :
      (e : LdpEnvelope) (c : ext.Value) (s : LdpServer)
      → IsValid s
      → IsValid (handle_session_propose e c s).1
  unfolding handle_session_propose reject_session respond
  handle_session_propose-IsValid e c s v =
      elim (Bool-cases (trusts s.identity.trust_domain (remote_domain c))) [
        | inl trusted ↦ rw trusted (accept_session-IsValid e c s v)
        | inr denied ↦ rw denied (record { sessions = v.sessions; tasks = v.tasks })
      ]

  pub dispatch-IsValid :
      (e : LdpEnvelope) (b : LdpMessageBody) (s : LdpServer)
      → IsValid s
      → IsValid (dispatch e b s).1
  unfolding dispatch handle_hello handle_task_submit handle_task_status_query handle_task_cancel
      handle_session_close respond
  dispatch-IsValid e (hello d m) s v = record { sessions = v.sessions; tasks = v.tasks }
  dispatch-IsValid e (session_propose c) s v = handle_session_propose-IsValid e c s v
  dispatch-IsValid e (task_submit t k i c) s v = record {
    sessions = v.sessions;
    tasks =
        HashMap.All-insert IsFinished s.tasks t _ v.tasks
          (record { keyed = refl; state = refl; output = cc; error = refl });
  }
  dispatch-IsValid e (task_update t p m) s v = query (HashMap.get s.tasks t)
    where
      query : (o : Option TaskRecord) → IsValid (answer_status o e t s).1
      query none = v
      query (some found) = record { sessions = v.sessions; tasks = v.tasks }
  dispatch-IsValid e (task_cancel t) s v = record {
    sessions = v.sessions;
    tasks = HashMap.All-remove IsFinished s.tasks t v.tasks;
  }
  dispatch-IsValid e (session_close r) s v = record {
    sessions = HashMap.All-remove _ s.sessions e.session_id v.sessions;
    tasks = v.tasks;
  }
  dispatch-IsValid e _ s v = v

  pub handle_message-IsValid :
      (e : LdpEnvelope) (s : LdpServer) → IsValid s → IsValid (handle_message e s).1
  handle_message-IsValid e s v = elim (handle_message-cases e s) [
    | inl (_, _, refused) ↦ rw refused v
    | inr (_, kept) ↦ rw kept (dispatch-IsValid e e.body s v)
  ]

  -- On a server that starts valid, whatever messages arrive, every session that the server holds
  -- is in state Active, filed under its own id, in an implemented payload mode and has the server's
  -- own trust domain; and every task record is of a completed task with its output.
  pub serve-IsValid : (s : LdpServer) (es : List LdpEnvelope) → IsValid s → IsValid (serve s es)
  unfolding serve
  serve-IsValid s [] v = v
  serve-IsValid s (e ∷ es) v =
      serve-IsValid (handle_message e s).1 es (handle_message-IsValid e s v)

  completed_tasks-length :
      (m : HashMap TaskRecord)
      → All IsFinished m
      → length (filter (λ t. is_completed t.state) (HashMap.values m)) ≡ length m
  unfolding filter
  completed_tasks-length [] v = refl
  completed_tasks-length ((k, t) ∷ m) v = rw v.0.state (ap suc (completed_tasks-length m v.1))

  -- On a server that starts valid, whatever messages arrive, the count of completed tasks is the
  -- number of its task records.
  pub completed_tasks-serve :
      (s : LdpServer) (es : List LdpEnvelope)
      → IsValid s
      → completed_tasks (serve s es) ≡ length (serve s es).tasks
  unfolding completed_tasks
  completed_tasks-serve s es v =
      completed_tasks-length (serve s es).tasks (serve-IsValid s es v).tasks

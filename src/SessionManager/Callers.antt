-- ===== src/SessionManager/Callers.antt =====
-- Several callers of one session manager (src/session_manager.rs): a method holds the lock on the
-- cache for one lookup, one insertion or one removal at a time, and other callers run in between,
-- also between the two messages of a handshake.
pub mod Interleaved
use ldp_protocol.Common.{
  ℕ, String, Bool, true, false, Option, none, some, List, [], ◌∷◌, eqb, if◌then◌else◌, Result, ok,
  err,
}
use ldp_protocol.Common.HashMap
use ldp_protocol.Common.HashMap.{insert, remove}
use ldp_protocol.Externals.{Externals}
use ldp_protocol.Types.Payload.{PayloadMode}
use ldp_protocol.Types.Session.{LdpSession, is_active}
use ldp_protocol.Client.{Http}
use ldp_protocol.SessionManager.{SessionManager, touch, notify_close}
use ldp_protocol.SessionManager.Halves.{greet, propose}

module _ ⦃ext : Externals⦄ ⦃http : Http⦄ where
  -- Where a caller of `get_or_establish`, `touch` or `close` is. A message and its answer are one
  -- step.
  pub data Phase : Type 0 where
    asking : String → Phase
    establishing : String → Phase
    proposing : String → List PayloadMode → String → Phase
    caching : String → LdpSession → Phase
    answered : String → LdpSession → Phase
    failed : String → String → Phase
    touching : String → Phase
    touched : Phase
    closing : String → Phase
    notifying : String → LdpSession → Phase
    closed : Phase

  -- The lookup under the read lock, with what was found.
  abbrev pub look_up : Option LdpSession → String → SessionManager → Phase × SessionManager
  look_up none url s = (establishing url, s)
  look_up (some session) url s =
      let (alive, e) = is_active session s.entropy in
      ((if alive then answered url session else establishing url), record s { entropy = e })

  -- After the answer to HELLO.
  abbrev pub greeted :
      String → Result (List PayloadMode × String) × SessionManager → Phase × SessionManager
  greeted url (ok (modes, remote), s) = (proposing url modes remote, s)
  greeted url (err m, s) = (failed url m, s)

  -- After the answer to SESSION_PROPOSE.
  abbrev pub shaken : String → Result LdpSession × SessionManager → Phase × SessionManager
  shaken url (ok session, s) = (caching url session, s)
  shaken url (err m, s) = (failed url m, s)

  -- The removal under the write lock, with what was removed.
  abbrev pub removed : Option LdpSession → String → SessionManager → Phase × SessionManager
  removed none url s = (closed, s)
  removed (some session) url s = (notifying url session, s)

  unfoldable pub advance : Phase → SessionManager → Phase × SessionManager
  advance (asking url) s = look_up (HashMap.get s.sessions url) url s
  advance (establishing url) s = greeted url (greet url s)
  advance (proposing url modes remote) s = shaken url (propose url modes remote s)
  advance (caching url session) s =
      (answered url session, record s { sessions = insert s.sessions url session })
  advance (touching url) s = (touched, touch url s)
  advance (closing url) s =
      removed (HashMap.get s.sessions url) url (record s { sessions = remove s.sessions url })
  advance (notifying url session) s = (closed, notify_close url session s)
  advance phase s = (phase, s)

  -- The manager, and where its callers are.
  pub record World : Type 0 where
    pub manager : SessionManager
    pub callers : ℕ → Phase

  -- One caller, chosen by the scheduler, goes on.
  unfoldable pub move : ℕ → World → World
  move i w =
      let (phase, manager) = advance (w.callers i) w.manager in
      record { manager = manager; callers = λ j. if eqb i j then phase else w.callers j }

  pub data Step : World → World → Type 0 where
    moves : (i : ℕ) (w : World) → Step w (move i w)

  pub data Reach (start : World) : World → Type 0 where
    here : Reach start start
    next : {w v : World} → Reach start w → Step w v → Reach start v

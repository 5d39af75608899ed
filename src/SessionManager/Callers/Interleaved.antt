-- ===== src/SessionManager/Callers/Interleaved.antt =====
-- What holds whatever the order in which the callers of a session manager run
-- (src/session_manager.rs).
use ldp_protocol.Common.{
  ℕ, String, ◌≡◌, refl, inl, inr, true, false, Option, none, some, Result, ok, err, Bool-cases,
  Bool, All, eqb, if◌then◌else◌, List,
}
use ldp_protocol.Common.HashMap
use ldp_protocol.Externals.{Externals}
use ldp_protocol.Types.Payload.{PayloadMode}
use ldp_protocol.Types.Session
use ldp_protocol.Types.Session.{LdpSession, active, is_active}
use ldp_protocol.Client.{Http}
use ldp_protocol.SessionManager.{SessionManager, touch, touch_found, notify_close}
use ldp_protocol.SessionManager.Cache.{IsFresh}
use ldp_protocol.SessionManager.Callers.{
  Phase, asking, establishing, proposing, greeted, caching, answered, failed, touching, touched,
  closing, notifying, closed, look_up, shaken, removed, advance, World, move, Step, moves, Reach,
  here, next,
}
use ldp_protocol.SessionManager.Halves.{greet, propose, Keeps-greet, Keeps-propose, propose-IsFresh}
use ldp_protocol.SessionManager.Keeps.{SameCache}

module _ ⦃ext : Externals⦄ ⦃http : Http⦄ where
  -- A session for a URL.
  pub record IsFor (url : String) (session : LdpSession) : Type 0 where
    pub remote_url : session.remote_url ≡ url
    pub state : session.state ≡ active

  abbrev pub IsFiled : String × LdpSession → Type 0
  IsFiled (url, session) = IsFor url session

  abbrev pub HoldsFor : Phase → Type 0
  HoldsFor (caching url session) = IsFor url session
  HoldsFor (answered url session) = IsFor url session
  HoldsFor (notifying url session) = IsFor url session
  HoldsFor _ = Unit

  pub record IsValid (w : World) : Type 0 where
    pub cache : All IsFiled w.manager.sessions
    pub callers : (i : ℕ) → HoldsFor (w.callers i)

  -- The cache and a caller's phase after a step.
  abbrev IsFine : Phase × SessionManager → Type 0
  IsFine (phase, s) = HoldsFor phase × All IsFiled s.sessions

  look_up-IsFine :
      (url : String) (s : SessionManager) (o : Option LdpSession)
      → HashMap.get s.sessions url ≡ o
      → All IsFiled s.sessions
      → IsFine (look_up o url s)
  look_up-IsFine url s none h all = (tt, all)
  look_up-IsFine url s (some c) h all = elim (Bool-cases (is_active c s.entropy).0) [
    | inl alive ↦ rw alive (HashMap.All-get IsFiled s.sessions url c all h, all)
    | inr dead ↦ rw dead (tt, all)
  ]

  shaken-IsFine :
      (url : String) (s : SessionManager) (p : Result LdpSession × SessionManager)
      → SameCache s p.1
      → ((x : LdpSession) → p.0 ≡ ok x → IsFresh url x)
      → All IsFiled s.sessions
      → IsFine (shaken url p)
  shaken-IsFine url s (ok x, t) same fresh all = (
    record { remote_url = (fresh x refl).remote_url; state = (fresh x refl).state },
    rw same.sessions all,
  )
  shaken-IsFine url s (err m, t) same fresh all = (tt, rw same.sessions all)

  greeted-IsFine :
      (url : String) (s : SessionManager) (p : Result (List PayloadMode × String) × SessionManager)
      → SameCache s p.1
      → All IsFiled s.sessions
      → IsFine (greeted url p)
  greeted-IsFine url s (ok (modes, remote), t) same all = (tt, rw same.sessions all)
  greeted-IsFine url s (err m, t) same all = (tt, rw same.sessions all)

  touch-IsFine :
      (url : String) (s : SessionManager)
      → All IsFiled s.sessions
      → All IsFiled (touch url s).sessions
  unfolding touch Session.touch
  touch-IsFine url s all = go (HashMap.get s.sessions url) refl
    where
      go :
          (o : Option LdpSession)
          → HashMap.get s.sessions url ≡ o
          → All IsFiled (touch_found o url s).sessions
      go none h = all
      go (some c) h =
          let f = HashMap.All-get IsFiled s.sessions url c all h in
          HashMap.All-insert IsFiled s.sessions url _ all
            (record { remote_url = f.remote_url; state = f.state })

  removed-IsFine :
      (url : String) (s : SessionManager) (o : Option LdpSession)
      → HashMap.get s.sessions url ≡ o
      → All IsFiled s.sessions
      → IsFine (removed o url (record s { sessions = HashMap.remove s.sessions url }))
  removed-IsFine url s none h all = (tt, HashMap.All-remove IsFiled s.sessions url all)
  removed-IsFine url s (some c) h all = (
    HashMap.All-get IsFiled s.sessions url c all h,
    HashMap.All-remove IsFiled s.sessions url all,
  )

  advance-IsFine :
      (phase : Phase) (s : SessionManager)
      → HoldsFor phase
      → All IsFiled s.sessions
      → IsFine (advance phase s)
  unfolding advance notify_close
  advance-IsFine (asking url) s h all = look_up-IsFine url s (HashMap.get s.sessions url) refl all
  advance-IsFine (establishing url) s h all =
      greeted-IsFine url s (greet url s) ((Keeps-greet url).at s) all
  advance-IsFine (proposing url modes remote) s h all =
      shaken-IsFine url s (propose url modes remote s) ((Keeps-propose url modes remote).at s)
        (propose-IsFresh url modes remote s) all
  advance-IsFine (caching url session) s h all =
      (h, HashMap.All-insert IsFiled s.sessions url session all h)
  advance-IsFine (touching url) s h all = (tt, touch-IsFine url s all)
  advance-IsFine (closing url) s h all = removed-IsFine url s (HashMap.get s.sessions url) refl all
  advance-IsFine (notifying url session) s h all = (tt, all)
  advance-IsFine (answered url session) s h all = (h, all)
  advance-IsFine (failed url m) s h all = (tt, all)
  advance-IsFine touched s h all = (tt, all)
  advance-IsFine closed s h all = (tt, all)

  pick : (b : Bool) (p q : Phase) → HoldsFor p → HoldsFor q → HoldsFor (if b then p else q)
  pick true p q hp hq = hp
  pick false p q hp hq = hq

  Step-IsValid : {w v : World} → Step w v → IsValid w → IsValid v
  unfolding move
  Step-IsValid (moves i w) h =
      let (mine, cache) = advance-IsFine (w.callers i) w.manager (h.callers i) h.cache in
      record { cache = cache; callers = λ j. pick (eqb i j) _ _ mine (h.callers j) }

  -- Whatever the order in which callers of get_or_establish, touch and close run, message by message
  -- and lock by lock, and whatever the network answers: every cached session is active and for its
  -- URL, and a caller is only ever given a session that is for the URL it asked for and in state
  -- Active.
  pub Reach-IsValid : {start w : World} → IsValid start → Reach start w → IsValid w
  Reach-IsValid h here = h
  Reach-IsValid h (next r st) = Step-IsValid st (Reach-IsValid h r)

-- ===== src/SessionManager/Cache.antt =====
-- What the session manager (src/session_manager.rs) keeps in its cache, and when it is used.
use ldp_protocol.Common.{
  String, ◌≡◌, ◌≢◌, ◌⊎◌, ◌^◌, ◌≤◌, ltb, refl, ap, ◌∙◌, inl, inr, true, false, Option, none, some,
  arith, Result, ok, err, Exec, continue, ◌>>=◌, Bool-cases,
}
use ldp_protocol.Common.HashMap
use ldp_protocol.Common.HashMap.{HashMap, insert, keys}
use ldp_protocol.Externals.{Externals, Entropy}
use ldp_protocol.Types.Messages.{LdpMessageBody, session_accept, session_reject}
use ldp_protocol.Types.Payload.{NegotiatedPayload}
use ldp_protocol.Types.Session.{LdpSession, active, is_active}
use ldp_protocol.Types.Session.Activity.{LessThan, is_active_iff}
use ldp_protocol.Client.{Http}
use ldp_protocol.SessionManager.{
  SessionManager, send_signed, open_session, conclude, establish_session, establish_and_cache,
  reuse_or_establish, get_or_establish,
}
use ldp_protocol.SessionManager.Keeps.{SameCache, Keeps-establish_session}

module _ ⦃ext : Externals⦄ ⦃http : Http⦄ where
  -- A session as the handshake makes it.
  pub record IsFresh (url : String) (session : LdpSession) : Type 0 where
    pub state : session.state ≡ active
    pub remote_url : session.remote_url ≡ url
    pub task_count : session.task_count ≡ 0

  -- Every result of an action satisfies P.
  pub record Yields {A : Type 0} (P : A → Type 0) (m : Exec SessionManager A) : Type 0 where
    pub at : (s : SessionManager) (a : A) → (m s).0 ≡ ok a → P a

  pub Yields-bind :
      {A B : Type 0} (P : B → Type 0) (m : Exec SessionManager A) (f : A → Exec SessionManager B)
      → ((a : A) → Yields P (f a))
      → Yields P (m >>= f)
  Yields-bind {A} {B} P m f h = record { at = λ s b e. go (m s) b e }
    where
      go : (p : Result A × SessionManager) (b : B) → (continue p f).0 ≡ ok b → P b
      go (ok a, t) b e = (h a).at t b e
      go (err e, t) b q = cc

  pub Yields-conclude :
      (url remote : String) (n : NegotiatedPayload) (b : LdpMessageBody)
      → Yields (IsFresh url) (conclude url remote n b)
  unfolding conclude open_session
  Yields-conclude url remote n (session_accept id mode) = record { at = λ s a e. ground arith }
  Yields-conclude url remote n (session_reject reason (some x)) = record { at = λ s a e. cc }
  Yields-conclude url remote n (session_reject reason none) = record { at = λ s a e. cc }
  Yields-conclude url remote n _ = record { at = λ s a e. cc }

  pub establish_session-IsFresh :
      (url : String) (s : SessionManager) (session : LdpSession)
      → (establish_session url s).0 ≡ ok session
      → IsFresh url session
  unfolding establish_session
  establish_session-IsFresh url s session e =
      (Yields-bind (IsFresh url) (send_signed url "" url _ _) _
          λ r. search (Yields-bind, Yields-conclude)).at
        s session e

  pub reuse_alive :
      (url : String) (s : SessionManager) (session : LdpSession)
      → (is_active session s.entropy).0 ≡ true
      → reuse_or_establish (some session) url s
        ≡ (ok session, record s { entropy = (is_active session s.entropy).1 })
  reuse_alive url s session alive = rw (alive, reuse_or_establish)

  pub reuse_dead :
      (url : String) (s : SessionManager) (session : LdpSession)
      → (is_active session s.entropy).0 ≡ false
      → reuse_or_establish (some session) url s
        ≡ establish_and_cache url (record s { entropy = (is_active session s.entropy).1 })
  reuse_dead url s session dead = rw (dead, reuse_or_establish)

  -- A cached session that is active is returned as it is: no message is sent, and nothing but the
  -- reading of the clock changes.
  pub get_or_establish_reuse :
      (url : String) (s : SessionManager) (session : LdpSession)
      → HashMap.get s.sessions url ≡ some session
      → (is_active session s.entropy).0 ≡ true
      → get_or_establish url s
        ≡ (ok session, record s { entropy = (is_active session s.entropy).1 })
  unfolding get_or_establish
  get_or_establish_reuse url s session cached alive =
      ap (λ o. reuse_or_establish o url s) cached ∙ reuse_alive url s session alive

  -- A handshake made the session, from a cache like this one.
  abbrev pub IsMade : String → SessionManager → LdpSession → Type 0
  IsMade url s session =
      (start : SessionManager) × (start.sessions ≡ s.sessions)
      × ((establish_session url start).0 ≡ ok session)
      × IsFresh url session

  -- What `establish_and_cache` does to the cache.
  establish_and_cache-ok :
      (url : String) (s : SessionManager) (session : LdpSession)
      → (establish_and_cache url s).0 ≡ ok session
      → ((establish_and_cache url s).1.sessions ≡ insert s.sessions url session)
        × IsMade url s session
  unfolding establish_and_cache
  establish_and_cache-ok url s session h =
      go (establish_session url s) ((Keeps-establish_session url).at s)
        (λ x e. (s, refl, e, establish_session-IsFresh url s x e)) h
    where
      store : LdpSession → Exec SessionManager LdpSession
      store x t = (ok x, record t { sessions = insert t.sessions url x })

      go :
          (p : Result LdpSession × SessionManager)
          → SameCache s p.1
          → ((x : LdpSession) → p.0 ≡ ok x → IsMade url s x)
          → (continue p store).0 ≡ ok session
          → ((continue p store).1.sessions ≡ insert s.sessions url session) × IsMade url s session
      go (ok x, t) same fresh e =
          let q : x ≡ session = ground arith in (rw (q, same.sessions), fresh session e)
      go (err m, t) same fresh e = cc

  -- The session was in the cache, and fewer seconds than its lifetime had passed since it was last
  -- used, or its lifetime is one that an i64 does not hold.
  abbrev pub IsReused : String → SessionManager → LdpSession → Type 0
  IsReused url s session =
      (HashMap.get s.sessions url ≡ some session)
      × (LessThan (ext.seconds_since (ext.clock s.entropy.reads) session.last_used) session.ttl_secs
          ⊎ (2 ^ 63 ≤ session.ttl_secs))

  -- The cache after a session was returned for a URL: it holds that session there, which is in state
  -- Active, and was either reused before it expired or made by a handshake; and the other
  -- sessions are those from before.
  pub record Cached (url : String) (s t : SessionManager) (session : LdpSession) : Type 0 where
    pub stored : HashMap.get t.sessions url ≡ some session
    pub state : session.state ≡ active
    pub origin : IsReused url s session ⊎ IsMade url s session
    pub others : (j : String) → url ≢ j → HashMap.get t.sessions j ≡ HashMap.get s.sessions j

  Cached-establish :
      (url : String) (s : SessionManager) (session : LdpSession)
      → (establish_and_cache url s).0 ≡ ok session
      → Cached url s (establish_and_cache url s).1 session
  Cached-establish url s session h =
      let (kept, made) = establish_and_cache-ok url s session h in
      record {
        stored = rw kept (HashMap.get-insert_self s.sessions url session);
        state = made.3.state;
        origin = inr made;
        others = λ j ne. rw kept (HashMap.get-insert_ne s.sessions url session j ne);
      }

  active_of_is_active :
      (session : LdpSession) (e : Entropy) → (is_active session e).0 ≡ true → session.state ≡ active
  unfolding is_active
  active_of_is_active session e h = ground arith

  reused_of_is_active :
      (session : LdpSession) (e : Entropy)
      → (is_active session e).0 ≡ true
      → LessThan (ext.seconds_since (ext.clock e.reads) session.last_used) session.ttl_secs
        ⊎ (2 ^ 63 ≤ session.ttl_secs)
  reused_of_is_active session e h = elim (Bool-cases (ltb session.ttl_secs (2 ^ 63))) [
    | inl small ↦ inl ((is_active_iff session e (ground (arith, small))).0 h).1
    | inr large ↦ inr (ground (arith, large))
  ]

  -- Whatever the network answers, a session that is returned for a URL is in state Active, is the
  -- one cached for that URL afterwards, and replaced no other session. Either it was cached for
  -- that URL before, and then fewer seconds than its lifetime have passed since it was last used,
  -- if its lifetime is below 2^63 seconds; or a handshake for that URL made it, with no task.
  pub get_or_establish-Cached :
      (url : String) (s : SessionManager) (session : LdpSession)
      → (get_or_establish url s).0 ≡ ok session
      → Cached url s (get_or_establish url s).1 session
  unfolding get_or_establish
  get_or_establish-Cached url s session h = go (HashMap.get s.sessions url) refl h
    where
      go :
          (o : Option LdpSession)
          → HashMap.get s.sessions url ≡ o
          → (reuse_or_establish o url s).0 ≡ ok session
          → Cached url s (reuse_or_establish o url s).1 session
      go none q p = Cached-establish url s session p
      go (some c) q p = elim (Bool-cases (is_active c s.entropy).0) [
        | inl alive ↦
            let r = reuse_alive url s c alive in
            let same : c ≡ session = ground (arith, ap (λ x. x.0) r) in
            rw r (record {
              stored = q ∙ ap some same;
              state = active_of_is_active session s.entropy (rw same at alive);
              origin =
                  inl (q ∙ ap some same, reused_of_is_active session s.entropy (rw same at alive));
              others = λ j ne. refl;
            })
        | inr dead ↦
            let r = reuse_dead url s c dead in
            let s' : SessionManager = record s { entropy = (is_active c s.entropy).1 } in
            let k = Cached-establish url s' session (rw r at p) in
            rw r (record {
              stored = k.stored;
              state = k.state;
              origin = inr (establish_and_cache-ok url s' session (rw r at p)).1;
              others = k.others;
            })
      ]

  establish_and_cache-err :
      (url : String) (s : SessionManager) (m : String)
      → (establish_and_cache url s).0 ≡ err m
      → (establish_and_cache url s).1.sessions ≡ s.sessions
  unfolding establish_and_cache
  establish_and_cache-err url s m h =
      go (establish_session url s) ((Keeps-establish_session url).at s) h
    where
      store : LdpSession → Exec SessionManager LdpSession
      store x t = (ok x, record t { sessions = insert t.sessions url x })

      go :
          (p : Result LdpSession × SessionManager)
          → SameCache s p.1
          → (continue p store).0 ≡ err m
          → (continue p store).1.sessions ≡ s.sessions
      go (ok x, t) same e = cc
      go (err _, t) same e = same.sessions

  -- A handshake that fails, at whatever step, leaves the cache as it was.
  pub get_or_establish-eq-err :
      (url : String) (s : SessionManager) (m : String)
      → (get_or_establish url s).0 ≡ err m
      → (get_or_establish url s).1.sessions ≡ s.sessions
  unfolding get_or_establish
  get_or_establish-eq-err url s m h = go (HashMap.get s.sessions url) h
    where
      go :
          (o : Option LdpSession)
          → (reuse_or_establish o url s).0 ≡ err m
          → (reuse_or_establish o url s).1.sessions ≡ s.sessions
      go none p = establish_and_cache-err url s m p
      go (some c) p = elim (Bool-cases (is_active c s.entropy).0) [
        | inl alive ↦ let r = reuse_alive url s c alive in absurd (ground (arith, ap (λ x. x.0) r))
        | inr dead ↦
            let r = reuse_dead url s c dead in
            let s' : SessionManager = record s { entropy = (is_active c s.entropy).1 } in
            rw r (establish_and_cache-err url s' m (rw r at p))
      ]

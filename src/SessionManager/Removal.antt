-- ===== src/SessionManager/Removal.antt =====
-- Closing sessions (src/session_manager.rs): what is left in the cache.
use ldp_protocol.Common.{
  String, ◌≡◌, refl, ◌⊎◌, inl, inr, Option, none, some, List, [], ◌∷◌, arith, ok, In,
}
use ldp_protocol.Common.HashMap
use ldp_protocol.Common.HashMap.{HashMap, insert, keys}
use ldp_protocol.Externals.{Externals}
use ldp_protocol.Types.Session.{LdpSession}
use ldp_protocol.Client.{Http}
use ldp_protocol.SessionManager.{
  SessionManager, close, close_each, close_all, notify_close, close_found,
}

module _ ⦃ext : Externals⦄ ⦃http : Http⦄ where
  close_found-sessions :
      (o : Option LdpSession) (url : String) (s : SessionManager)
      → (close_found o url s).sessions ≡ s.sessions
  unfolding notify_close
  close_found-sessions none url s = refl
  close_found-sessions (some session) url s = refl

  -- Closing a session always succeeds, also where the remote side cannot be reached or refuses,
  -- and takes exactly that session out of the cache.
  pub close_lem :
      (url : String) (s : SessionManager)
      → ((close url s).0 ≡ ok tt) × ((close url s).1.sessions ≡ HashMap.remove s.sessions url)
  unfolding close
  close_lem url s = (refl, close_found-sessions (HashMap.get s.sessions url) url _)

  after_close :
      (j url : String) (urls : List String) (s : SessionManager)
      → In j (url ∷ urls) ⊎ (HashMap.get s.sessions j ≡ none)
      → In j urls ⊎ (HashMap.get (close url s).1.sessions j ≡ none)
  after_close j url urls s (inl (inl here)) =
      inr (rw ((close_lem url s).1, here) (HashMap.get-remove_self s.sessions url))
  after_close j url urls s (inl (inr later)) = inl later
  after_close j url urls s (inr gone) =
      inr (rw (close_lem url s).1 (ground (arith, HashMap.get-remove s.sessions url j)))

  close_each-sessions :
      (urls : List String) (s : SessionManager) (j : String)
      → (In j urls ⊎ (HashMap.get s.sessions j ≡ none))
      → HashMap.get (close_each urls s).sessions j ≡ none
  unfolding close_each close
  close_each-sessions [] s j (inl absent) = absurd absent
  close_each-sessions [] s j (inr gone) = gone
  close_each-sessions (url ∷ urls) s j h =
      close_each-sessions urls (close url s).1 j (after_close j url urls s h)

  -- After `close_all` no session is cached.
  pub close_all_lem :
      (s : SessionManager) (j : String) → HashMap.get (close_all s).sessions j ≡ none
  unfolding close_all
  close_all_lem s j =
      close_each-sessions (keys s.sessions) s j (HashMap.mem-keys-cases s.sessions j)

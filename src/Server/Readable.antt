-- ===== src/Server/Readable.antt =====
-- What the server (src/server.rs) answers can be carried by JSON.
use mathlib.Core.Path.{subst}
use ldp_protocol.Common.{
  String, ◌≡◌, refl, Option, none, some, arith, Result, ok, err, true, false, Bool, if◌then◌else◌,
}
use ldp_protocol.Common.HashMap
use ldp_protocol.Externals.{Externals}
use ldp_protocol.Types.Error.{policy, runtime}
use ldp_protocol.Types.Messages.{
  LdpEnvelope, LdpMessageBody, hello, session_propose, task_submit, task_update, task_cancel,
  session_close,
}
use ldp_protocol.Types.Messages.Json.Wire.{IsBody, IsMessage}
use ldp_protocol.Types.Provenance
use ldp_protocol.Types.Trust.{trusts}
use ldp_protocol.Signing.{sign_if_configured, apply_signature}
use ldp_protocol.Server.{
  LdpServer, TaskRecord, TaskRecordState, submitted, working, completed, failed,
}
use ldp_protocol.Server.Frame.{handle_message-eq-ok}
use ldp_protocol.Server.Handlers.{
  respond, handle_hello, reject_session, accept_session, handle_session_propose, handle_task_submit,
  handle_task_status_query, answer_status, status_body, own_provenance, handle_task_cancel,
  handle_session_close, dispatch, handle_message, remote_domain,
}

module _ ⦃ext : Externals⦄ where
  -- A signature changes neither the body nor the provenance.
  pub sign-IsMessage :
      (k : Option String) (e : LdpEnvelope) → IsMessage e → IsMessage (sign_if_configured k e)
  unfolding sign_if_configured apply_signature
  sign-IsMessage none e h = h
  sign-IsMessage (some secret) e h = h

  -- An action whose answers JSON can carry.
  abbrev Carries : Result LdpEnvelope × LdpServer → Type 0
  Carries (ok r, t) = IsMessage r
  Carries (err m, t) = Unit

  status_body-IsBody :
      (s : LdpServer) (t : String) (found : TaskRecord) → IsBody (status_body s t found).0
  unfolding status_body own_provenance Provenance.new runtime
  status_body-IsBody s t found = go found.state refl
    where
      go : (state : TaskRecordState) → found.state ≡ state → IsBody (status_body s t found).0
      go submitted h = rw (h, status_body) tt
      go working h = rw (h, status_body) tt
      go completed h = rw (h, status_body) (tt, tt, tt)
      go failed h = rw (h, status_body) tt

  answer_status-Carries :
      (o : Option TaskRecord) (e : LdpEnvelope) (t : String) (s : LdpServer)
      → Carries (answer_status o e t s)
  unfolding respond
  answer_status-Carries none e t s = tt
  answer_status-Carries (some found) e t s = (status_body-IsBody s t found, tt)

  propose-Carries :
      (e : LdpEnvelope) (c : ext.Value) (s : LdpServer) (b : Bool)
      → Carries (if b then accept_session e c s else reject_session e (remote_domain c) s)
  unfolding accept_session reject_session respond policy
  propose-Carries e c s true = (tt, tt)
  propose-Carries e c s false = (tt, tt)

  dispatch-Carries :
      (e : LdpEnvelope) (b : LdpMessageBody) (s : LdpServer) → Carries (dispatch e b s)
  unfolding dispatch handle_hello handle_session_propose handle_task_submit handle_task_status_query
      handle_task_cancel handle_session_close respond runtime own_provenance Provenance.new
  dispatch-Carries e (hello d m) s = (tt, tt)
  dispatch-Carries e (session_propose c) s =
      propose-Carries e c s (trusts s.identity.trust_domain (remote_domain c))
  dispatch-Carries e (task_submit t k v c) s = ((tt, tt, tt), tt)
  dispatch-Carries e (task_update t p m) s = answer_status-Carries (HashMap.get s.tasks t) e t s
  dispatch-Carries e (task_cancel t) s = (tt, tt)
  dispatch-Carries e (session_close r) s = (tt, tt)
  dispatch-Carries e _ s = tt

  -- Whatever message the server answers, JSON can carry the answer: no number in it is infinite, and
  -- no partial output is null.
  pub handle_message-IsMessage :
      (e : LdpEnvelope) (s : LdpServer) (r : LdpEnvelope)
      → (handle_message e s).0 ≡ ok r
      → IsMessage r
  handle_message-IsMessage e s r h =
      let (r', made, signed) = handle_message-eq-ok e s r h in
      rw signed (
        sign-IsMessage s.signing_secret r'
          (go (dispatch e e.body s) (dispatch-Carries e e.body s) made))
    where
      go :
          {r' : LdpEnvelope} (p : Result LdpEnvelope × LdpServer)
          → Carries p
          → p.0 ≡ ok r'
          → IsMessage r'
      go {r'} (ok x, t) c h = let same : x ≡ r' = ground (arith, h) in subst IsMessage same c
      go (err m, t) c h = absurd (ground (arith, h))

-- ===== src/Adapter/Methods.antt =====
-- The methods of the adapter (src/adapter.rs) that send messages: discover, invoke, stream, status
-- and cancel.
use ldp_protocol.Common.{
  ℕ, zero, suc, String, Bool, true, false, not, ◌&&◌, Option, none, some, List, [], ◌++◌,
  if◌then◌else◌, Result, ok, err, Exec, ◌>>=◌, pure,
}
use ldp_protocol.Common.HashMap
use ldp_protocol.Common.HashMap.{HashMap, insert}
use ldp_protocol.Common.Text.{◌<>◌}
use ldp_protocol.Externals.{Externals, Entropy}
use ldp_protocol.Types.Contract.{DelegationContract}
use ldp_protocol.Types.Identity.{LdpIdentityCard}
use ldp_protocol.Types.Messages
use ldp_protocol.Types.Messages.{LdpEnvelope, LdpMessageBody, task_submit, task_update, task_cancel}
use ldp_protocol.Types.Payload.{PayloadMode, text}
use ldp_protocol.Types.Trust.{trusts}
use ldp_protocol.Signing.{sign_if_configured}
use ldp_protocol.Config.{LdpAdapterConfig}
use ldp_protocol.Client.{Http, fetch_identity_card}
use ldp_protocol.Protocol.{
  RemoteCapabilities, TaskRequest, TaskEvent, TaskStatus, TaskHandle, TaskStream, ProtocolAdapter,
}
use ldp_protocol.SessionManager
use ldp_protocol.SessionManager.{SessionManager, get_or_establish, fresh_id, send, touch}
use ldp_protocol.Adapter.{identity_to_capabilities, stream_event, status_of}

module _ ⦃ext : Externals⦄ ⦃http : Http⦄ where
  -- The session manager holds the state of the network, of the clock and of the identifiers.
  pub record LdpAdapter : Type 0 where
    pub session_manager : SessionManager
    pub config : LdpAdapterConfig
    pub contracts : HashMap DelegationContract

  -- LdpAdapter::with_client
  unfoldable pub with_client : LdpAdapterConfig → http.Net → Entropy → LdpAdapter
  with_client config net e = record {
    session_manager = SessionManager.new config net e;
    config = config;
    contracts = [];
  }

  -- LdpAdapter::new, whose client is a new one
  unfoldable pub new : LdpAdapterConfig → http.Net → Entropy → LdpAdapter
  unfolding with_client
  new config = with_client config

  -- An action of the session manager, and one that also leads the state on.
  abbrev pub on_manager : {A : Type 0} → Exec SessionManager A → Exec LdpAdapter A
  on_manager m s =
      let (r, manager) = m s.session_manager in (r, record s { session_manager = manager })

  -- `LdpEnvelope::new(…)` from this delegate, signed where signing is configured, and sent.
  unfoldable pub send_signed :
      String → String → String → LdpMessageBody → PayloadMode → Exec LdpAdapter LdpEnvelope
  unfolding Messages.new
  send_signed url session_id to body mode s =
      let manager = s.session_manager in
      let (envelope, e) =
        Messages.new session_id s.config.delegate_id to body mode manager.entropy in
      on_manager (send url (sign_if_configured s.config.signing_secret envelope))
        (record s { session_manager = record manager { entropy = e } })

  -- The text of a discovery that is refused.
  abbrev pub not_trusted : LdpAdapterConfig → LdpIdentityCard → String
  not_trusted config identity =
      "Trust domain '" <> identity.trust_domain.name <> "' is not trusted by '"
      <> config.trust_domain.name <> "'"

  -- The test of `discover`.
  abbrev pub is_refused : LdpAdapterConfig → LdpIdentityCard → Bool
  is_refused config identity =
      config.enforce_trust_domains && not (trusts config.trust_domain identity.trust_domain.name)

  unfoldable pub fetch_card : String → Exec LdpAdapter LdpIdentityCard
  fetch_card url s =
      let manager = s.session_manager in
      let (card, net') = fetch_identity_card url manager.net in
      (card, record s { session_manager = record manager { net = net' } })

  -- What `discover` makes of a card.
  abbrev pub admit : LdpIdentityCard → Exec LdpAdapter RemoteCapabilities
  admit identity s =
      if is_refused s.config identity
      then (err (not_trusted s.config identity), s)
      else (ok (identity_to_capabilities identity), s)

  unfoldable pub discover : String → Exec LdpAdapter RemoteCapabilities
  discover url = do identity ← fetch_card url; admit identity

  -- `if let Some(ref contract) = task.contract { contracts.insert(task_id, contract) }`
  abbrev pub store_contract : String → Option DelegationContract → LdpAdapter → LdpAdapter
  store_contract task_id none s = s
  store_contract task_id (some contract) s = record s {
    contracts = insert s.contracts task_id contract;
  }

  -- The last steps of `invoke`, after the answer: the contract is stored, the session touched.
  unfoldable pub finish_invoke :
      String → String → Option DelegationContract → Exec LdpAdapter TaskHandle
  finish_invoke url task_id contract s =
      let s' = store_contract task_id contract s in
      (
        ok (record { task_id = task_id; remote_url = url }),
        record s' { session_manager = touch url s'.session_manager },
      )

  unfoldable pub invoke : String → TaskRequest → Exec LdpAdapter TaskHandle
  invoke url task = do
    session ← on_manager (get_or_establish url)
    task_id ← on_manager fresh_id
    _ ←
        send_signed url session.session_id session.remote_delegate_id
          (task_submit task_id task.skill task.input task.contract) session.payload.mode
    finish_invoke url task_id task.contract

  -- The query that `stream` and `status` send.
  abbrev pub status_query : String → LdpMessageBody
  status_query task_id = task_update task_id none (some "status_query")

  -- What the query comes to, an error as a value.
  unfoldable pub query : String → String → LdpAdapter → Result LdpEnvelope × LdpAdapter
  query url task_id s = send_signed url "" url (status_query task_id) text s

  -- One round of the loop of `stream`.
  unfoldable pub poll :
      String → String → Option DelegationContract → LdpAdapter → List TaskEvent × Bool × LdpAdapter
  unfolding query
  poll url task_id contract s =
      let (answer, s') = query url task_id s in
      let manager = s'.session_manager in
      let (events, done, e) = stream_event s'.config contract answer manager.entropy in
      (events, done, record s' { session_manager = record manager { entropy = e } })

  -- The events of the first `fuel` rounds of the loop, and whether it has ended. The code's loop has
  -- no bound: it goes on as long as the remote side answers that the task is in progress.
  unfoldable pub poll_rounds :
      ℕ
      → String
      → String
      → Option DelegationContract
      → LdpAdapter
      → List TaskEvent × Bool × LdpAdapter
  poll_rounds zero url task_id contract s = ([], false, s)
  poll_rounds (suc fuel) url task_id contract s =
      let (events, done, s') = poll url task_id contract s in
      let rest = poll_rounds fuel url task_id contract s' in
      if done then (events, true, s') else (events ++ rest.0, rest.1, rest.2)

  -- The handle's task, with the contract that was given, polled.
  unfoldable pub stream : String → TaskRequest → Exec LdpAdapter (TaskStream LdpAdapter)
  stream url task = do
    handle ← invoke url task
    pure (λ fuel. poll_rounds fuel url handle.task_id task.contract)

  -- A reader of the first rounds of a stream.
  unfoldable pub read_stream : ℕ → String → TaskRequest → Exec LdpAdapter (List TaskEvent × Bool)
  unfolding stream invoke poll_rounds
  read_stream fuel url task = do
    events ← stream url task
    λ s. let (emitted, done, s') = events fuel s in (ok (emitted, done), s')

  unfoldable pub status : String → String → Exec LdpAdapter TaskStatus
  status url task_id = do
    answer ← query url task_id
    λ s.
        let manager = s.session_manager in
        let contract = HashMap.get s.contracts task_id in
        let (found, e) = status_of s.config contract answer.body manager.entropy in
        (ok found, record s { session_manager = record manager { entropy = e } })

  unfoldable pub cancel : String → String → Exec LdpAdapter (Unit {0})
  cancel url task_id = do _ ← send_signed url "" url (task_cancel task_id) text; pure tt

  -- `impl ProtocolAdapter for LdpAdapter`
  abbrev pub protocol_adapter : ProtocolAdapter LdpAdapter
  protocol_adapter = record {
    discover = discover;
    invoke = invoke;
    stream = stream;
    status = status;
    cancel = cancel;
  }

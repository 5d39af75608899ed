-- ===== src/Adapter/Submission.antt =====
-- What the adapter remembers of a task that it submitted (src/adapter.rs).
use mathlib.Core.Path.{subst}
use ldp_protocol.Common.{
  String, ◌≡◌, refl, ◌∙◌, Option, none, some, Result, ok, err, Exec, continue, ◌>>=◌, arith,
}
use ldp_protocol.Common.HashMap
use ldp_protocol.Externals.{Externals}
use ldp_protocol.Types.Contract.{DelegationContract}
use ldp_protocol.Client.{Http}
use ldp_protocol.Protocol.{TaskRequest, TaskHandle}
use ldp_protocol.SessionManager.{get_or_establish}
use ldp_protocol.Adapter.Methods.{LdpAdapter, on_manager, invoke, store_contract, finish_invoke}

module _ ⦃ext : Externals⦄ ⦃http : Http⦄ where
  -- Every result of an action satisfies P with the state that it leaves.
  record Ends {A : Type 0} (P : A → LdpAdapter → Type 0) (m : Exec LdpAdapter A) : Type 0 where
    at : (s : LdpAdapter) (a : A) → (m s).0 ≡ ok a → P a (m s).1

  Ends-bind :
      {A B : Type 0} (P : B → LdpAdapter → Type 0) (m : Exec LdpAdapter A)
      (f : A → Exec LdpAdapter B)
      → ((a : A) → Ends P (f a))
      → Ends P (m >>= f)
  Ends-bind {A} {B} P m f h = record { at = λ s b e. go (m s) b e }
    where
      go : (p : Result A × LdpAdapter) (b : B) → (continue p f).0 ≡ ok b → P b (continue p f).1
      go (ok a, t) b e = (h a).at t b e
      go (err e, t) b q = cc

  -- The handle names the URL, and a contract is filed under the handle's task.
  pub record Submitted (url : String) (given : Option DelegationContract) (handle : TaskHandle)
      (s : LdpAdapter) : Type 0 where
    pub remote_url : handle.remote_url ≡ url
    pub contract :
        (c : DelegationContract) → given ≡ some c → HashMap.get s.contracts handle.task_id ≡ some c

  store_contract-get :
      (task_id : String) (given : Option DelegationContract) (s : LdpAdapter)
      (c : DelegationContract)
      → given ≡ some c
      → HashMap.get (store_contract task_id given s).contracts task_id ≡ some c
  store_contract-get task_id none s c e = cc
  store_contract-get task_id (some d) s c e = HashMap.get-insert_self s.contracts task_id d ∙ e

  Ends-finish_invoke :
      (url task_id : String) (given : Option DelegationContract)
      → Ends (Submitted url given) (finish_invoke url task_id given)
  unfolding finish_invoke
  Ends-finish_invoke url task_id given = record {
    at = λ s handle e.
        let same : record { task_id = task_id; remote_url = url } ≡ handle = ground arith in
        subst (λ h. Submitted url given h (finish_invoke url task_id given s).1) same
          (record { remote_url = refl; contract = store_contract-get task_id given s });
  }

  -- A task that is submitted with a contract has the contract on file under the id of the handle,
  -- for `status` to find; the handle names the URL that it was submitted to.
  pub invoke-Submitted :
      (url : String) (task : TaskRequest) (s : LdpAdapter) (handle : TaskHandle)
      → (invoke url task s).0 ≡ ok handle
      → Submitted url task.contract handle (invoke url task s).1
  unfolding invoke
  invoke-Submitted url task s handle e =
      (Ends-bind (Submitted url task.contract) (on_manager (get_or_establish url)) _
          λ session. search (Ends-bind, Ends-finish_invoke)).at
        s handle e

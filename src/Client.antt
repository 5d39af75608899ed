-- ===== src/Client.antt =====
-- src/client.rs: messages over HTTP. The `reqwest` crate and the network behind it are an
-- interface: `Net` is whatever state the outside world has, and each request may change it.
pub mod Requests
use ldp_protocol.Common.{
  ℕ, String, Bool, ◌&&◌, not, Option, ltb, unwrap_or, if◌then◌else◌, Result, ok, err, Exec,
}
use ldp_protocol.Common.Text.{◌<>◌, trim_end_slashes}
use ldp_protocol.Externals.{Externals}
use ldp_protocol.Types.Identity.{LdpIdentityCard}
use ldp_protocol.Types.Messages.{LdpEnvelope}

-- What comes of a request: the text of reqwest's error; or a response with its status, the
-- status as text, its body (`none` where it cannot be read), and the body parsed as JSON.
pub data HttpResult (A : Type 0) : Type 0 where
  send_failed : String → HttpResult A
  response : ℕ → String → Option String → Result A → HttpResult A

pub record Http ⦃ext : Externals⦄ : Type 1 where
  pub Net : Type 0
  pub post : String → LdpEnvelope → Net → HttpResult LdpEnvelope × Net
  pub get_card : String → Net → HttpResult LdpIdentityCard × Net
  pub get_value : String → Net → HttpResult ext.Value × Net

-- StatusCode::is_success
abbrev pub is_success : ℕ → Bool
is_success status = not (ltb status 200) && ltb status 300

-- The three ways in which a request fails, with the texts of the code.
abbrev pub with_prefix : {A : Type 0} → String → Result A → Result A
with_prefix p (ok a) = ok a
with_prefix p (err e) = err (p <> e)

-- `format!("{}/…", url.trim_end_matches('/'))`
abbrev pub endpoint : String → String → String
endpoint url path = trim_end_slashes url <> path

-- The reading of the answer to a message.
unfoldable pub read_message : {A : Type 0} → HttpResult A → Result A
read_message (send_failed e) = err ("LDP HTTP request failed: " <> e)
read_message (response status shown body parsed) =
    if is_success status
    then with_prefix "Failed to parse LDP response: " parsed
    else err ("LDP request failed (" <> shown <> "): " <> unwrap_or body "unable to read body")

-- The reading of an answer to GET, which leaves the body of a failure unread.
unfoldable pub read_get : {A : Type 0} → String → String → String → HttpResult A → Result A
read_get failed refused unparsed (send_failed e) = err (failed <> e)
read_get failed refused unparsed (response status shown body parsed) =
    if is_success status then with_prefix unparsed parsed else err (refused <> shown <> ")")

module _ ⦃ext : Externals⦄ ⦃http : Http⦄ where
  unfoldable pub send_message : String → LdpEnvelope → Exec http.Net LdpEnvelope
  unfolding read_message
  send_message url message net =
      let (answer, net') = http.post (endpoint url "/ldp/messages") message net in
      (read_message answer, net')

  unfoldable pub fetch_identity_card : String → Exec http.Net LdpIdentityCard
  unfolding read_get
  fetch_identity_card url net =
      let (answer, net') = http.get_card (endpoint url "/ldp/identity") net in
      (
        read_get "Failed to fetch identity card: " "Identity card fetch failed ("
            "Failed to parse identity card: " answer,
        net',
      )

  abbrev pub or_card : String → HttpResult LdpIdentityCard → Exec http.Net LdpIdentityCard
  or_card url (send_failed e) net = fetch_identity_card url net
  or_card url (response status shown body parsed) net =
      if is_success status
      then (with_prefix "Failed to parse identity: " parsed, net)
      else fetch_identity_card url net

  unfoldable pub fetch_identity_wellknown : String → Exec http.Net LdpIdentityCard
  fetch_identity_wellknown url net =
      let (answer, net') = http.get_card (endpoint url "/.well-known/ldp-identity") net in
      or_card url answer net'

  unfoldable pub fetch_capabilities : String → Exec http.Net ext.Value
  unfolding read_get
  fetch_capabilities url net =
      let (answer, net') = http.get_value (endpoint url "/ldp/capabilities") net in
      (
        read_get "Failed to fetch capabilities: " "Capabilities fetch failed ("
            "Failed to parse capabilities: " answer,
        net',
      )

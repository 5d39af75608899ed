-- ===== src/Client/Requests.antt =====
-- When a request of the client (src/client.rs) succeeds.
use ldp_protocol.Common.{ℕ, ◌≤◌, ◌<◌, String, ◌≡◌, refl, ◌↔◌, Option, arith, ok, err}
use ldp_protocol.Externals.{Externals}
use ldp_protocol.Types.Identity.{LdpIdentityCard}
use ldp_protocol.Types.Messages.{LdpEnvelope}
use ldp_protocol.Client.{
  HttpResult, Http, send_failed, response, endpoint, read_message, read_get, send_message,
  fetch_identity_card,
}

-- A response with a status of success, from 200 to 299, whose body parses.
abbrev pub IsGood : {A : Type 0} → HttpResult A → A → Type 0
IsGood answer a =
    (status : ℕ) × (shown : String) × (body : Option String) × (answer
      ≡ response status shown body (ok a))
    × (200 ≤ status)
    × (status < 300)

read_message_iff :
    {A : Type 0} (answer : HttpResult A) (a : A) → (read_message answer ≡ ok a) ↔ IsGood answer a
unfolding read_message
read_message_iff (send_failed e) a = (λ h. cc, λ (status, shown, body, q, low, high). cc)
read_message_iff (response st sh b (err m)) a =
    (λ h. ground arith, λ (status, shown, body, q, low, high). cc)
read_message_iff (response st sh b (ok x)) a = (
  λ h. (st, sh, b, ground arith, ground arith, ground arith),
  λ (status, shown, body, q, low, high). ground (arith, q),
)

read_get_iff :
    {A : Type 0} (failed refused unparsed : String) (answer : HttpResult A) (a : A)
    → (read_get failed refused unparsed answer ≡ ok a) ↔ IsGood answer a
unfolding read_get
read_get_iff failed refused unparsed (send_failed e) a =
    (λ h. cc, λ (status, shown, body, q, low, high). cc)
read_get_iff failed refused unparsed (response st sh b (err m)) a =
    (λ h. ground arith, λ (status, shown, body, q, low, high). cc)
read_get_iff failed refused unparsed (response st sh b (ok x)) a = (
  λ h. (st, sh, b, ground arith, ground arith, ground arith),
  λ (status, shown, body, q, low, high). ground (arith, q),
)

module _ ⦃ext : Externals⦄ ⦃http : Http⦄ where
  -- A message succeeds exactly when the post to the endpoint /ldp/messages is answered with a status
  -- from 200 to 299 and a body that parses as an envelope; so does the fetch of an identity card
  -- from /ldp/identity. Each makes one request.
  pub send_message_iff :
      (url : String) (message : LdpEnvelope) (net : http.Net)
      → ((r : LdpEnvelope)
          → ((send_message url message net).0 ≡ ok r)
            ↔ IsGood (http.post (endpoint url "/ldp/messages") message net).0 r)
        × ((card : LdpIdentityCard)
            → ((fetch_identity_card url net).0 ≡ ok card)
              ↔ IsGood (http.get_card (endpoint url "/ldp/identity") net).0 card)
        × ((send_message url message net).1
            ≡ (http.post (endpoint url "/ldp/messages") message net).1)
        × ((fetch_identity_card url net).1 ≡ (http.get_card (endpoint url "/ldp/identity") net).1)
  unfolding send_message fetch_identity_card
  send_message_iff url message net =
      (λ r. read_message_iff _ r, λ card. read_get_iff _ _ _ _ card, refl, refl)

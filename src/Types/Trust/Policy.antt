-- ===== src/Types/Trust/Policy.antt =====
-- Who is trusted by whom (src/types/trust.rs).
use ldp_protocol.Common.{
  String, ◌≡◌, ◌≢◌, ◌↔◌, ◌⊎◌, true, List, [], ◌∷◌, some, arith, any, In, eq_iff,
}
use ldp_protocol.Types.Trust.{TrustDomain, new, contains, trusts, mutually_trusts}

contains_iff : (peers : List String) (peer : String) → (contains peers peer ≡ true) ↔ In peer peers
unfolding contains any
contains_iff [] peer = ground arith
contains_iff (p ∷ ps) peer = ground (arith, eq_iff p peer, contains_iff ps peer)

-- A domain trusts its own name; and another name exactly when it allows requests across domains and
-- lists that name among its peers.
pub trusts_iff :
    (d : TrustDomain) (peer : String)
    → (trusts d peer ≡ true)
      ↔ ((d.name ≡ peer) ⊎ (d.allow_cross_domain ≡ true) × In peer d.trusted_peers)
unfolding trusts
trusts_iff d peer = ground (arith, eq_iff d.name peer, contains_iff d.trusted_peers peer)

-- Mutual trust does not depend on the side that asks.
pub mutually_trusts_comm : (a b : TrustDomain) → mutually_trusts a b ≡ mutually_trusts b a
unfolding mutually_trusts
mutually_trusts_comm a b = ground arith

-- A domain as `new` makes it trusts no name but its own, and an empty name makes none.
pub trusts-new :
    (name peer : String) (d : TrustDomain)
    → new name ≡ some d
    → (name ≢ "") × ((trusts d peer ≡ true) ↔ (name ≡ peer))
unfolding new trusts
trusts-new name peer d made = ground (arith, eq_iff name peer, eq_iff d.name peer, eq_iff name "")

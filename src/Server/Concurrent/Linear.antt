-- ===== src/Server/Concurrent/Linear.antt =====
-- Messages that a server (src/server.rs) handles at once have the effect and the answers that they
-- have one after the other.
use mathlib.Core.List.{append_assoc}
use mathlib.Core.Path.{subst}
use ldp_protocol.Common.{
  ℕ, ◌≡◌, refl, sym, ap, ◌∙◌, none, some, List, [], ◌∷◌, ◌++◌, eqb, arith, inl, inr, Bool-cases,
}
use ldp_protocol.Externals.{Externals, CtEqLaws}
use ldp_protocol.Types.Messages.{LdpEnvelope}
use ldp_protocol.Server.Concurrent.{
  Phase, waiting, stored, finished, advance, World, move, commits, Reach, here, next,
}
use ldp_protocol.Server.Concurrent.Steps.{
  receive_all-append, message, settled, From, advance-Advanced,
}
use ldp_protocol.Server.Sessions.{IsValid}
use ldp_protocol.Server.View.{View, Reply, receive, receive_all, view, setup}

module _ ⦃ext : Externals⦄ where
  module _ (laws : CtEqLaws) (first : World) where
    -- What the machine has after some messages, one after the other.
    abbrev pub machine : List LdpEnvelope → View
    machine es = (receive_all (setup first.server) es (view first.server)).1

    -- A message stands in the order, and the machine gives it this answer there.
    pub record TookEffect (es : List LdpEnvelope) (e : LdpEnvelope) (reply : Reply) : Type 0 where
      pub earlier : List LdpEnvelope
      pub later : List LdpEnvelope
      pub order : es ≡ earlier ++ (e ∷ later)
      pub answer : (receive (setup first.server) e (machine earlier)).0 ≡ reply

    pub record IsLinear (es : List LdpEnvelope) (w : World) : Type 0 where
      pub valid : IsValid w.server
      pub fixed : setup w.server ≡ setup first.server
      pub state : view w.server ≡ machine es
      pub same : (i : ℕ) → message (w.messages i) ≡ message (first.messages i)
      pub answers :
          (i : ℕ) (reply : Reply)
          → settled (w.messages i) ≡ some reply
          → TookEffect es (message (w.messages i)) reply

    TookEffect-append :
        (es ds : List LdpEnvelope) (e : LdpEnvelope) (reply : Reply)
        → TookEffect es e reply
        → TookEffect (es ++ ds) e reply
    TookEffect-append es ds e reply h = record {
      earlier = h.earlier;
      later = h.later ++ ds;
      order = rw h.order (append_assoc h.earlier (e ∷ h.later) ds);
      answer = h.answer;
    }

    -- A settled answer, and the message that it answers.
    abbrev Placed : List LdpEnvelope → Phase → Type 0
    Placed es phase =
        (reply : Reply) → settled phase ≡ some reply → TookEffect es (message phase) reply

    Placed-append :
        (es ds : List LdpEnvelope) (phase : Phase) → Placed es phase → Placed (es ++ ds) phase
    Placed-append es ds phase h reply q = TookEffect-append es ds (message phase) reply (h reply q)

    From-TookEffect :
        (es : List LdpEnvelope) (w : World) (phase : Phase) (reply : Reply)
        → IsLinear es w
        → Placed es phase
        → From phase w.server reply
        → TookEffect (es ++ commits phase) (message phase) reply
    From-TookEffect es w (waiting e) reply h placed q = record {
      earlier = es;
      later = [];
      order = refl;
      answer = rw (sym h.fixed, sym h.state) q;
    }
    From-TookEffect es w (stored e t output) reply h placed q =
        Placed-append es [] (stored e t output) placed reply q
    From-TookEffect es w (finished e answer) reply h placed q =
        Placed-append es [] (finished e answer) placed reply q

    move-IsLinear :
        (es : List LdpEnvelope) (w : World) (i : ℕ)
        → IsLinear es w
        → IsLinear (es ++ commits (w.messages i)) (move i w)
    unfolding move
    move-IsLinear es w i h =
        let phase = w.messages i in
        let a = advance-Advanced laws phase w.server h.valid in
        let q = (advance phase w.server).0 in
        let mine : Placed (es ++ commits phase) q = λ reply settles.
          subst (λ e. TookEffect (es ++ commits phase) e reply) (sym a.same)
            (From-TookEffect es w phase reply h (h.answers i) (a.answer reply settles)) in
        record {
          valid = a.valid;
          fixed = a.fixed ∙ h.fixed;
          state =
              a.state
              ∙ rw (h.fixed, h.state)
                  (sym (
                    receive_all-append (setup first.server) es (commits phase)
                      (view first.server)));
          same = λ j. elim (Bool-cases (eqb i j)) [
            | inl hit ↦
                rw hit (a.same ∙ h.same i ∙ ap (λ k. message (first.messages k)) (ground arith))
            | inr other ↦ rw other (h.same j)
          ];
          answers = λ j. elim (Bool-cases (eqb i j)) [
            | inl hit ↦ rw hit mine
            | inr other ↦ rw other (Placed-append es (commits phase) (w.messages j) (h.answers j))
          ];
        }

    -- Several messages at once, to a server that starts valid and with none of them answered yet:
    -- whatever the order in which their handlers run, one lock at a time, what has happened is what
    -- the abstract machine does with the messages that have begun, one after the other in the order
    -- in which they began. The server's sessions and tasks are the machine's after them, each answer
    -- that is settled is the machine's at the message's place in that order, no caller's message is
    -- exchanged for another, and the server stays valid.
    pub Reach-IsLinear :
        {es : List LdpEnvelope} {w : World}
        → IsValid first.server
        → ((i : ℕ) → settled (first.messages i) ≡ none)
        → Reach first es w
        → IsLinear es w
    unfolding receive_all
    Reach-IsLinear v idle here = record {
      valid = v;
      fixed = refl;
      state = refl;
      same = λ i. refl;
      answers = λ i reply q. absurd (ground (arith, idle i, q));
    }
    Reach-IsLinear v idle (next {es} {w} i r) = move-IsLinear es w i (Reach-IsLinear v idle r)

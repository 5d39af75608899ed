-- ===== src/Signing/Binding.antt =====
-- What the signing input (src/signing.rs) determines of an envelope.
use Prim.Native.Char.{Char, code}
use Prim.Native.String.append
use text.Mathlib.TextLemmas.{append_cancel_left, append_assoc}
use ldp_protocol.Common.{Option, none, some, String, ◌≡◌, ◌≢◌, refl, sym, ap, ◌∙◌}
use ldp_protocol.Common.Text.{◌<>◌}
use ldp_protocol.Externals.{Externals}
use ldp_protocol.Types.Messages.{LdpEnvelope}
use ldp_protocol.Signing.{nonce_part, signing_input}

-- A text without the separator.
abbrev pub HasNoBar : String → Type 0
HasNoBar String.[] = Unit
HasNoBar (String.◌∷◌ c s) = (code c ≢ b'|') × HasNoBar s

abbrev bar : Char
bar = "|"

-- The separator in front of a text.
one : (x : String) → "|" <> x ≡ String.◌∷◌ bar x
one x = append.cons bar "" x ∙ ap (String.◌∷◌ bar) (append.nil x)

head_eq : {c d : Char} {s t : String} → String.◌∷◌ c s ≡ String.◌∷◌ d t → c ≡ d
head_eq h = cc

tail_eq : {c d : Char} {s t : String} → String.◌∷◌ c s ≡ String.◌∷◌ d t → s ≡ t
tail_eq h = cc

split :
    (a b x y : String)
    → HasNoBar a
    → HasNoBar b
    → a <> ("|" <> x) ≡ b <> ("|" <> y)
    → (a ≡ b) × (x ≡ y)
split String.[] String.[] x y f g h =
    (refl, append_cancel_left "|" x y (sym (append.nil _) ∙ (h ∙ append.nil _)))
split String.[] (String.◌∷◌ d b) x y f g h =
    let q : String.◌∷◌ bar x ≡ String.◌∷◌ d (b <> ("|" <> y)) =
      sym (one x) ∙ (sym (append.nil _) ∙ (h ∙ append.cons d b _)) in
    absurd (g.0 (ap code (sym (head_eq q))))
split (String.◌∷◌ c a) String.[] x y f g h =
    let q : String.◌∷◌ c (a <> ("|" <> x)) ≡ String.◌∷◌ bar y =
      sym (append.cons c a _) ∙ (h ∙ (append.nil _ ∙ one y)) in
    absurd (f.0 (ap code (head_eq q)))
split (String.◌∷◌ c a) (String.◌∷◌ d b) x y f g h =
    let q : String.◌∷◌ c (a <> ("|" <> x)) ≡ String.◌∷◌ d (b <> ("|" <> y)) =
      sym (append.cons c a _) ∙ (h ∙ append.cons d b _) in
    let rest = split a b x y f.1 g.1 (tail_eq q) in (cc (head_eq q, rest.0), rest.1)

module _ ⦃ext : Externals⦄ where
  -- Sender, receiver, session, time and id, none of them with the separator in it.
  pub record IsPlain (e : LdpEnvelope) : Type 0 where
    pub from : HasNoBar e.from
    pub to : HasNoBar e.to
    pub session_id : HasNoBar e.session_id
    pub timestamp : HasNoBar e.timestamp
    pub message_id : HasNoBar e.message_id

  pub record SameHeader (e e' : LdpEnvelope) : Type 0 where
    pub from : e.from ≡ e'.from
    pub to : e.to ≡ e'.to
    pub session_id : e.session_id ≡ e'.session_id
    pub timestamp : e.timestamp ≡ e'.timestamp
    pub message_id : e.message_id ≡ e'.message_id

  -- What follows the id starts with the separator, with a nonce and without.
  after_id :
      (nonce : Option String) (r : String)
      → (t : String) × (nonce_part nonce <> ("|" <> r) ≡ "|" <> t)
  after_id none r = (r, append.nil _)
  after_id (some n) r = (n <> ("|" <> r), append_assoc "|" n _)

  -- Two envelopes of one signing input have the same sender, receiver, session, time and id, as long as
  -- none of these contains the separator, and with any nonces and bodies.
  pub signing_input-SameHeader :
      (e e' : LdpEnvelope)
      → IsPlain e
      → IsPlain e'
      → signing_input e ≡ signing_input e'
      → SameHeader e e'
  unfolding signing_input
  signing_input-SameHeader e e' p q h =
      let s₁ = split e.from e'.from _ _ p.from q.from h in
      let s₂ = split e.to e'.to _ _ p.to q.to s₁.1 in
      let s₃ = split e.session_id e'.session_id _ _ p.session_id q.session_id s₂.1 in
      let s₄ = split e.timestamp e'.timestamp _ _ p.timestamp q.timestamp s₃.1 in
      let (t, a) = after_id e.nonce _ in
      let (t', b) = after_id e'.nonce _ in
      let s₅ =
        split e.message_id e'.message_id t t' p.message_id q.message_id
          (sym (ap (◌<>◌ e.message_id) a) ∙ (s₄.1 ∙ ap (◌<>◌ e'.message_id) b)) in
      record { from = s₁.0; to = s₂.0; session_id = s₃.0; timestamp = s₄.0; message_id = s₅.0 }

-- ===== src/Replay.antt =====
-- src/replay.rs: the replay guard. The `lru` crate is an interface, with its cache as a type.
pub mod Window
use Prim.Native.Nat.{max}
use ldp_protocol.Common.{
  ℕ, String, Bool, true, false, Option, none, some, ltb, if◌then◌else◌, Result, ok, err,
}
use ldp_protocol.Common.Int.{unsigned_abs}
use ldp_protocol.Common.Text.{◌<>◌, to_string}
use ldp_protocol.Externals.{Externals}

-- lru::LruCache<String, ()>: `contains` reads without touching the order, `put` makes its key the
-- most recently used one.
pub record LruCrate : Type 1 where
  pub LruCache : Type 0
  pub with_capacity : ℕ → LruCache
  pub contains : LruCache → String → Bool
  pub put : LruCache → String → LruCache

module _ ⦃ext : Externals⦄ ⦃lru : LruCrate⦄ where
  pub record ReplayGuard : Type 0 where
    pub seen : lru.LruCache
    pub window : ℕ

  unfoldable pub new : ℕ → ℕ → ReplayGuard
  new capacity window_secs = record {
    seen = lru.with_capacity (max capacity 1);
    window = window_secs;
  }

  -- The text of the key, and of the refusal of an old timestamp.
  abbrev pub key : String → String → String
  key message_id nonce = message_id <> ":" <> nonce

  abbrev pub too_old : ℕ → ℕ → String
  too_old diff window =
      "Message timestamp too old: " <> to_string diff <> "s > " <> to_string window <> "s window"

  -- The seconds between now and the timestamp, either way; `none` where it does not parse.
  abbrev pub drift : ext.Time → String → Option ℕ
  drift now timestamp = elim (ext.parse_from_rfc3339 timestamp) [
    | none ↦ none
    | some msg_time ↦ some (unsigned_abs (ext.seconds_since now msg_time))
  ]

  -- Step 1: the freshness of the timestamp, where it parses.
  unfoldable pub check_timestamp : ℕ → Option ℕ → Result (Unit {0})
  check_timestamp window none = ok tt
  check_timestamp window (some diff) = if ltb window diff then err (too_old diff window) else ok tt

  -- Step 2: the pair of message and nonce, where there is a nonce.
  unfoldable pub check_nonce :
      ReplayGuard → String → Option String → Result (Unit {0}) × ReplayGuard
  check_nonce g message_id none = (ok tt, g)
  check_nonce g message_id (some nonce) =
      if lru.contains g.seen (key message_id nonce)
      then (err "Duplicate message_id + nonce pair", g)
      else (ok tt, record g { seen = lru.put g.seen (key message_id nonce) })

  abbrev pub after_timestamp :
      Result (Unit {0}) → ReplayGuard → String → Option String → Result (Unit {0}) × ReplayGuard
  after_timestamp (ok _) g message_id given = check_nonce g message_id given
  after_timestamp (err e) g message_id given = (err e, g)

  -- `now` is what the clock answers; it is read only where the timestamp parses.
  unfoldable pub check :
      ReplayGuard → ext.Time → String → Option String → String → Result (Unit {0}) × ReplayGuard
  unfolding check_timestamp check_nonce
  check g now message_id given timestamp =
      after_timestamp (check_timestamp g.window (drift now timestamp)) g message_id given

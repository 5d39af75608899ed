-- ===== src/Replay/Window.antt =====
-- What the replay guard (src/replay.rs) accepts and refuses, against the documented cache.
use ldp_protocol.Common.{
  ℕ, zero, suc, ◌+◌, ◌≤◌, ◌<◌, String, ◌≡◌, ◌≢◌, refl, ◌∙◌, ◌↔◌, ◌⊎◌, inl, inr, true, false, Option,
  none, some, List, [], ◌∷◌, arith, length, take, In, In-take-take, In-take, Bool-cases, ◌==◌,
  eq_iff, if◌then◌else◌, Result, ok, err,
}
use ldp_protocol.Externals.{Externals}
use ldp_protocol.Replay.{LruCrate, ReplayGuard, key, drift, check_timestamp, after_timestamp, check}

-- The entries of a list other than one.
abbrev pub without : String → List String → List String
without k [] = []
without k (j ∷ l) = let rest = without k l in if j == k then rest else j ∷ rest

-- What the crate documents: the entries from the most to the least recently used; a key that is
-- put goes to the front, and what passes the capacity is evicted from the back.
pub record LruLaws ⦃lru : LruCrate⦄ : Type 0 where
  pub entries : lru.LruCache → List String
  pub capacity : lru.LruCache → ℕ
  pub entries-with_capacity : (n : ℕ) → entries (lru.with_capacity n) ≡ []
  pub capacity-with_capacity : (n : ℕ) → capacity (lru.with_capacity n) ≡ n
  pub contains_iff : (c : lru.LruCache) (k : String) → (lru.contains c k ≡ true) ↔ In k (entries c)
  pub entries-put :
      (c : lru.LruCache) (k : String)
      → entries (lru.put c k) ≡ take (capacity c) (k ∷ without k (entries c))
  pub capacity-put : (c : lru.LruCache) (k : String) → capacity (lru.put c k) ≡ capacity c

pub record Call ⦃ext : Externals⦄ : Type 0 where
  pub now : ext.Time
  pub message_id : String
  pub nonce : Option String
  pub timestamp : String

In-take-suc : (k : String) (n : ℕ) (l : List String) → In k (take n l) → In k (take (suc n) l)
In-take-suc k zero l m = absurd m
In-take-suc k (suc n) [] m = m
In-take-suc k (suc n) (j ∷ l) (inl e) = inl e
In-take-suc k (suc n) (j ∷ l) (inr r) = inr (In-take-suc k n l r)

In-without :
    (k x : String) (n : ℕ) (l : List String) → k ≢ x → In k (take n l) → In k (take n (without x l))
In-without k x zero l h m = absurd m
In-without k x (suc n) [] h m = m
In-without k x (suc n) (j ∷ l) h (inl e) = elim (Bool-cases (j == x)) [
  | inl same ↦ absurd (h (e ∙ (eq_iff j x).0 same))
  | inr other ↦ rw other (inl e)
]
In-without k x (suc n) (j ∷ l) h (inr r) = elim (Bool-cases (j == x)) [
  | inl same ↦ rw same (In-take-suc k n (without x l) (In-without k x n l h r))
  | inr other ↦ rw other (inr (In-without k x n l h r))
]

-- One more entry in front moves a key back by at most one.
In-touch :
    (k x : String) (n cap : ℕ) (l : List String)
    → n < cap
    → In k (take n l)
    → In k (take (suc n) (take cap (x ∷ without x l)))
In-touch k x n cap l h m = In-take-take k (suc n) cap _ h (front (Bool-cases (k == x)))
  where
    front : (k == x ≡ true) ⊎ (k == x ≡ false) → In k (take (suc n) (x ∷ without x l))
    front (inl same) = inl ((eq_iff k x).0 same)
    front (inr other) = inr (In-without k x n l (λ e. cc ((eq_iff k x).1 e)) m)

module _ ⦃ext : Externals⦄ ⦃lru : LruCrate⦄ where
  abbrev pub check_call : ReplayGuard → Call → Result (Unit {0}) × ReplayGuard
  check_call g c = check g c.now c.message_id c.nonce c.timestamp

  -- The guard after a sequence of messages, accepted or not.
  unfoldable pub run : ReplayGuard → List Call → ReplayGuard
  run g [] = g
  run g (c ∷ cs) = run (check_call g c).1 cs

  -- A timestamp that is fresh, or that the guard cannot read.
  abbrev pub IsTimely : ℕ → Option ℕ → Type 0
  IsTimely window none = Unit
  IsTimely window (some diff) = diff ≤ window

  module _ (laws : LruLaws) where
    -- A nonce is new if its pair is not among the entries of the cache.
    abbrev pub IsNew : ReplayGuard → String → Option String → Type 0
    IsNew g message_id none = Unit
    IsNew g message_id (some nonce) = ¬ In (key message_id nonce) (laws.entries g.seen)

    -- A message is accepted exactly when its timestamp is within the window or does not parse,
    -- and it has no nonce or a new pair of message and nonce.
    pub check_iff :
        (g : ReplayGuard) (now : ext.Time) (message_id : String) (given : Option String)
        (timestamp : String)
        → ((check g now message_id given timestamp).0 ≡ ok tt)
          ↔ IsTimely g.window (drift now timestamp) × IsNew g message_id given
    unfolding check
    check_iff g now message_id given timestamp = go (drift now timestamp) given
      where
        go :
            (diff : Option ℕ) (n : Option String)
            → ((after_timestamp (check_timestamp g.window diff) g message_id n).0 ≡ ok tt)
              ↔ IsTimely g.window diff × IsNew g message_id n
        go none none = ground arith
        go none (some n) = ground (arith, laws.contains_iff g.seen (key message_id n))
        go (some d) none = ground arith
        go (some d) (some n) = ground (arith, laws.contains_iff g.seen (key message_id n))

    -- A refused message leaves the guard as it was.
    pub check_err :
        (g : ReplayGuard) (c : Call) (e : String)
        → (check_call g c).0 ≡ err e
        → (check_call g c).1 ≡ g
    unfolding check
    check_err g c e h = go (drift c.now c.timestamp) c.nonce h
      where
        go :
            (diff : Option ℕ) (n : Option String)
            → (after_timestamp (check_timestamp g.window diff) g c.message_id n).0 ≡ err e
            → (after_timestamp (check_timestamp g.window diff) g c.message_id n).1 ≡ g
        go none none h = refl
        go none (some n) h = ground arith
        go (some d) none h = ground arith
        go (some d) (some n) h = ground arith

    -- A message leaves the guard as it was, or puts one key.
    check-cases :
        (g : ReplayGuard) (c : Call)
        → ((check_call g c).1 ≡ g)
          ⊎ ((k : String) × ((check_call g c).1 ≡ record g { seen = lru.put g.seen k }))
    unfolding check
    check-cases g c = go (check_timestamp g.window (drift c.now c.timestamp)) c.nonce
      where
        go :
            (r : Result (Unit {0})) (n : Option String)
            → ((after_timestamp r g c.message_id n).1 ≡ g)
              ⊎ ((k : String) × ((after_timestamp r g c.message_id n).1
                    ≡ record g { seen = lru.put g.seen k }))
        go (err e) n = inl refl
        go (ok _) none = inl refl
        go (ok _) (some n) = elim (Bool-cases (lru.contains g.seen (key c.message_id n))) [
          | inl seen ↦ inl (ground arith)
          | inr fresh ↦ inr (key c.message_id n, ground arith)
        ]

    seen_of_accepted :
        (g : ReplayGuard) (c : Call) (n : String)
        → c.nonce ≡ some n
        → (check_call g c).0 ≡ ok tt
        → (check_call g c).1.seen ≡ lru.put g.seen (key c.message_id n)
    unfolding check
    seen_of_accepted g c n e h = go (check_timestamp g.window (drift c.now c.timestamp)) c.nonce e h
      where
        go :
            (r : Result (Unit {0})) (m : Option String)
            → m ≡ some n
            → (after_timestamp r g c.message_id m).0 ≡ ok tt
            → (after_timestamp r g c.message_id m).1.seen ≡ lru.put g.seen (key c.message_id n)
        go (err e) m p h = cc
        go (ok _) none p h = cc
        go (ok _) (some m) p h = ground arith

    -- `k` is among the `n` most recently used entries.
    abbrev Recent : String → ℕ → ReplayGuard → Type 0
    Recent k n g = In k (take n (laws.entries g.seen))

    Recent-check :
        (k : String) (n : ℕ) (g : ReplayGuard) (c : Call)
        → n < laws.capacity g.seen
        → Recent k n g
        → Recent k (suc n) (check_call g c).1
    Recent-check k n g c h r = elim (check-cases g c) [
      | inl same ↦ rw same (In-take-suc k n (laws.entries g.seen) r)
      | inr (x, put) ↦ rw (put, laws.entries-put) (In-touch k x n _ (laws.entries g.seen) h r)
    ]

    capacity-check :
        (g : ReplayGuard) (c : Call) → laws.capacity (check_call g c).1.seen ≡ laws.capacity g.seen
    capacity-check g c = elim (check-cases g c) [
      | inl same ↦ rw same
      | inr (x, put) ↦ rw (put, laws.capacity-put)
    ]

    Recent-run :
        (k : String) (n : ℕ) (g : ReplayGuard) (cs : List Call)
        → n + length cs ≤ laws.capacity g.seen
        → Recent k n g
        → In k (laws.entries (run g cs).seen)
    unfolding run
    Recent-run k n g [] h r = In-take k n _ r
    Recent-run k n g (c ∷ cs) h r =
        Recent-run k (suc n) (check_call g c).1 cs (rw capacity-check (omega arith))
          (Recent-check k n g c (omega arith) r)

    -- A pair of message and nonce that was accepted is refused when it comes again, whatever its
    -- timestamp, as long as fewer messages than the capacity came between.
    pub replay_rejected :
        (g : ReplayGuard) (first : Call) (nonce : String) (between : List Call) (again : Call)
        → first.nonce ≡ some nonce
        → (check_call g first).0 ≡ ok tt
        → again.message_id ≡ first.message_id
        → again.nonce ≡ some nonce
        → length between < laws.capacity g.seen
        → (check_call (run (check_call g first).1 between) again).0 ≢ ok tt
    replay_rejected g first nonce between again f accepted i a room passed =
        let k = key first.message_id nonce in
        let g' = (check_call g first).1 in
        let there : In k (laws.entries (run g' between).seen) =
          Recent-run k 1 g' between (rw capacity-check (omega arith)) (
            rw (seen_of_accepted g first nonce f accepted, laws.entries-put)
              (In-take-take k 1 _ _ (omega arith) (inl refl))) in
        let new : IsNew (run g' between) again.message_id again.nonce =
          ((check_iff (run g' between) again.now again.message_id again.nonce again.timestamp).0
            passed).1 in
        let refused : IsNew (run g' between) first.message_id (some nonce) = rw (a, i) at new in
        refused there

    -- A message is accepted exactly when its timestamp is within the window or does not parse, and
    -- it has no nonce or a new pair of message and nonce; a refused message leaves the guard as it
    -- was.
    pub check_lem :
        (g : ReplayGuard) (c : Call)
        → (((check_call g c).0 ≡ ok tt)
            ↔ IsTimely g.window (drift c.now c.timestamp) × IsNew g c.message_id c.nonce)
          × ((e : String) → (check_call g c).0 ≡ err e → (check_call g c).1 ≡ g)
    check_lem g c = (check_iff g c.now c.message_id c.nonce c.timestamp, check_err g c)

-- ===== src/Fetcher/Storage.antt =====
-- What the fetcher has stored, and what it announces as synced.
use kassandra_service.Common.{
  ℕ, ◌+◌, ◌^◌, ◌≤◌, ◌<◌, ◌≡◌, ◌∙◌, ap, sym, ◌⊎◌, Bool, true, false, ◌||◌, List, [], ◌∷◌, Option,
  some, ok, leb, Outcome-cases, Option-cases, value_unique, arith, Bool-cases, inl, inr,
}
use kassandra_service.Ranges.{first, insert}
use kassandra_service.Ranges.Cover.{covers}
use kassandra_service.Fetcher.{
  NoteStore, DbConn, flush, write_out, extend, drop, Fetcher, fetched, handle_fetched,
}

module _ (n : NoteStore) where
  open n use {Entry, Wal, Txs, prepare, insert_row}

  -- What SQL and the map of the MASP client promise, with a test for notes of one index: the
  -- statement, if it does not fail, adds a row and keeps the others, and the map keeps what it held and takes what it
  -- is given.
  pub record IsNoteStore : Type 0 where
    pub same : Entry → Entry → Bool
    pub has_row : Txs → Entry → Bool
    pub has_row-insert :
        (t t' : Txs) (x y : Entry)
        → insert_row t x ≡ some t'
        → has_row t' y ≡ has_row t y || same x y
    pub has_item : List Entry → Entry → Bool
    pub has_item_nil : (y : Entry) → has_item [] y ≡ false
    pub has_item_cons :
        (x : Entry) (xs : List Entry) (y : Entry) → has_item (x ∷ xs) y ≡ same x y || has_item xs y
    pub entries-extend :
        (w : Wal) (xs : List Entry) (y : Entry)
        → has_item (n.entries (n.extend w xs)) y ≡ has_item (n.entries w) y || has_item xs y
    pub entries-empty : n.entries n.empty ≡ []

  conn_after :
      (f g : Fetcher n) (from to : ℕ) (items : List Entry) (job : Option (ℕ × ℕ))
      → handle_fetched n f (fetched from to items) ≡ ok (g, job)
      → extend n f.conn items ≡ ok g.conn
  unfolding handle_fetched
  conn_after f g from to items job e = elim (Outcome-cases (insert f.fetched from to)) [
    | inl p ↦ cc (rw p at e)
    | inr (r, p) ↦ elim (Outcome-cases (first r)) [
      | inl q ↦ cc (rw (p, q) at e)
      | inr (x, q) ↦ elim (Outcome-cases (extend n f.conn items)) [
        | inl c ↦ cc (rw (p, q, c) at e)
        | inr (d, c) ↦ c ∙ ap (λ z. ok z.0.conn) (value_unique (rw (p, q, c) at e))
      ]
    ]
  ]

  module _ (k : IsNoteStore) where
    -- The note is in the table or in the log.
    abbrev pub holds : DbConn n → Entry → Bool
    holds c y = k.has_row c.conn y || k.has_item (n.entries c.wal) y

    has_row-flush :
        (xs : List Entry) (t t' : Txs) (y : Entry)
        → flush n t xs ≡ ok t'
        → k.has_row t' y ≡ k.has_row t y || k.has_item xs y
    unfolding flush
    has_row-flush [] t t' y e = rw (← value_unique e) (ground (arith, k.has_item_nil y))
    has_row-flush (x ∷ xs) t t' y e = elim (Option-cases (insert_row t x)) [
      | inl p ↦ cc (rw p at e)
      | inr (u, p) ↦
          let rest = has_row-flush xs u t' y (rw p at e) in
          let one = k.has_row-insert t u x y p in ground (arith, k.has_item_cons x xs y)
    ]

    -- What `write_out` leaves: the rows of the table and of the log.
    write_out-holds :
        (c d : DbConn n) (xs : List Entry) (y : Entry)
        → write_out n c xs ≡ ok d
        → holds d y ≡ k.has_row c.conn y || k.has_item xs y
    unfolding write_out
    write_out-holds c d xs y e = elim (Bool-cases (prepare c.conn)) [
      | inr p ↦ cc (rw (write_out, p) at e)
      | inl p ↦ elim (Outcome-cases (flush n c.conn xs)) [
        | inl q ↦ cc (rw (write_out, p, q) at e)
        | inr (t, q) ↦
            rw (← value_unique (rw (write_out, p, q) at e), k.entries-empty)
              (ground (arith, k.has_item_nil y, has_row-flush xs c.conn t y q))
      ]
    ]

    -- A note is held after `extend` just where it was held before, or is one of those given.
    pub holds-extend :
        (c d : DbConn n) (items : List Entry) (y : Entry)
        → extend n c items ≡ ok d
        → holds d y ≡ holds c y || k.has_item items y
    unfolding extend
    holds-extend c d items y e =
        elim (Bool-cases (leb c.max_wal_size (n.len (n.extend c.wal items)))) [
          | inl full ↦
              let kept = write_out-holds c d (n.entries (n.extend c.wal items)) y (rw full at e) in
              ground (arith, k.entries-extend c.wal items y)
          | inr space ↦
              rw (← value_unique (rw space at e)) (ground (arith, k.entries-extend c.wal items y))
        ]

    -- After a fetched range is handled, a drop of the connection that does not panic leaves in the
    -- table just the notes that the table and the log held before the message, and those of the
    -- message, if the statement can be prepared; and if it cannot, the table is left as it is, and
    -- the log is lost.
    pub handle_fetched-drop :
        (f g : Fetcher n) (from to : ℕ) (items : List Entry) (job : Option (ℕ × ℕ)) (t : Txs)
        (y : Entry)
        → handle_fetched n f (fetched from to items) ≡ ok (g, job)
        → drop n g.conn ≡ ok t
        → ((prepare g.conn.conn ≡ true) × (k.has_row t y ≡ holds f.conn y || k.has_item items y))
          ⊎ ((prepare g.conn.conn ≡ false) × (t ≡ g.conn.conn))
    unfolding drop
    handle_fetched-drop f g from to items job t y e d =
        let taken = conn_after f g from to items job e in
        elim (Bool-cases (prepare g.conn.conn)) [
          | inr p ↦ inr (p, sym (value_unique (rw (drop, p) at d)))
          | inl p ↦ inl (
            p,
            has_row-flush (n.entries g.conn.wal) g.conn.conn t y (rw (drop, p) at d)
                ∙ holds-extend f.conn g.conn items y taken,
          )
        ]

  first_pair : (from to : ℕ) → to + 1 < 2 ^ 64 → first (from ∷ to ∷ []) ≡ ok (to + 1)
  unfolding first
  first_pair from to hi = ground arith

  -- What the first message leaves.
  first_message :
      (f g : Fetcher n) (from to : ℕ) (items : List Entry) (job : Option (ℕ × ℕ))
      → f.fetched ≡ []
      → to + 1 < 2 ^ 64
      → handle_fetched n f (fetched from to items) ≡ ok (g, job)
      → (g.fetched ≡ from ∷ to ∷ []) × (g.synced_to ≡ to) × (extend n f.conn items ≡ ok g.conn)
  unfolding handle_fetched insert
  first_message f g from to items job z hi e = elim (Outcome-cases (extend n f.conn items)) [
    | inl c ↦ cc (rw (z, first_pair from to hi, c) at e)
    | inr (d, c) ↦ let q = rw (z, first_pair from to hi, c) at e in ground arith
  ]

  -- If nothing was fetched before and the log has room, an answer for the blocks from 1 on
  -- announces them as synced, and leaves the table as it was.
  pub announced_before_stored :
      (f g : Fetcher n) (to : ℕ) (items : List Entry) (job : Option (ℕ × ℕ))
      → f.fetched ≡ []
      → 1 ≤ to
      → to + 1 < 2 ^ 64
      → n.len (n.extend f.conn.wal items) < f.conn.max_wal_size
      → handle_fetched n f (fetched 1 to items) ≡ ok (g, job)
      → (g.synced_to ≡ to) × (g.conn.conn ≡ f.conn.conn)
  unfolding extend
  announced_before_stored f g to items job z lo hi room e =
      let (r, st, c) = first_message f g 1 to items job z hi e in
      (
        st,
        (let no_flush : leb f.conn.max_wal_size (n.len (n.extend f.conn.wal items)) ≡ false =
              ground arith in
            ap (λ d. d.conn) (sym (value_unique (rw no_flush at c)))),
      )

  -- If nothing was fetched before, an answer for blocks that begin above a height from 1 on
  -- announces this height as synced, though it is not covered.
  pub announced_before_fetched :
      (f g : Fetcher n) (from to : ℕ) (items : List Entry) (job : Option (ℕ × ℕ)) (h : ℕ)
      → f.fetched ≡ []
      → 1 ≤ h
      → h < from
      → from ≤ to
      → to + 1 < 2 ^ 64
      → handle_fetched n f (fetched from to items) ≡ ok (g, job)
      → (h ≤ g.synced_to) × (covers g.fetched h ≡ false)
  unfolding covers
  announced_before_fetched f g from to items job h z one lt lo hi e =
      let (r, st, c) = first_message f g from to items job z hi e in
      (rw st (omega arith), rw r (ground (arith, covers)))

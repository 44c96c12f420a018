-- ===== src/HotBuffer/Commuting/Marked.antt =====
-- internal/hotbuffer/buffer.go: WriteSegment and a statement that changes the tables some other way.
use axm_sfn.Common.{
  ℕ, suc, ◌≡◌, refl, sym, ap, ◌∙◌, Bool, true, false, ◌||◌, List, [], ◌∷◌, Option, none, some,
  arith, leb, Bool-cases, inl, inr, All,
}
use axm_sfn.Common.Text.{Bytes}
use axm_sfn.HotBuffer.Tables.{Packet, Buffer, Result}
use axm_sfn.HotBuffer.Writes.{int64_limit}
use axm_sfn.HotBuffer.Segments.{
  mark_row, mark_rows, add_segment, with_segment, commit, write_segment,
}
use axm_sfn.HotBuffer.Invariant.{keys, keys-mark_rows}

-- Two statements in either order: the tables come to the same, and each answers as it would alone.
pub record Swap {A B : Type 0} (p : Buffer → A × Buffer) (q : Buffer → B × Buffer) (b : Buffer)
    : Type 0 where
  pub tables : (q (p b).1).1 ≡ (p (q b).1).1
  pub own : (p (q b).1).0 ≡ (p b).0
  pub other : (q (p b).1).0 ≡ (q b).0

-- Where the first answers alike before and after the second, and the second takes its change along.
pub Swap-of :
    {A B : Type 0} (p : Buffer → A × Buffer) (q : Buffer → B × Buffer) (b c d : Buffer) (r : A)
    → p b ≡ (r, c)
    → p (q b).1 ≡ (r, d)
    → q c ≡ ((q b).0, d)
    → Swap p q b
Swap-of p q b c d r before after along = record {
  tables = ap (λ x. (q x.1).1) before ∙ ap (λ x. x.1) along ∙ ap (λ x. x.1) (sym after);
  own = ap (λ x. x.0) after ∙ ap (λ x. x.0) (sym before);
  other = ap (λ x. (q x.1).0) before ∙ ap (λ x. x.0) along;
}

-- The first changes nothing, before and after the second.
pub Swap-idle :
    {A B : Type 0} (p : Buffer → A × Buffer) (q : Buffer → B × Buffer) (b : Buffer) (r : A)
    → p b ≡ (r, b)
    → p (q b).1 ≡ (r, (q b).1)
    → Swap p q b
Swap-idle p q b r before after = Swap-of p q b b (q b).1 r before after refl

abbrev pub map_rows : (List Packet → List Packet) → Option (List Packet) → Option (List Packet)
map_rows f none = none
map_rows f (some ps) = some (f ps)

pub map_rows_id : (o : Option (List Packet)) → o ≡ map_rows (λ ps. ps) o
map_rows_id none = refl
map_rows_id (some ps) = refl

-- A change of the rows that each mark goes along with, the loop goes along with.
pub mark_rows-through :
    (f : List Packet → List Packet) (up : ℕ → Bool) (seg : ℕ) (P : ℕ → Type 0)
    → ((i : ℕ) (ps : List Packet) → P i → mark_row seg i (f ps) ≡ f (mark_row seg i ps))
    → (k : ℕ) (ids : List ℕ) (ps : List Packet) → All P ids
    → mark_rows up k seg ids (f ps) ≡ map_rows f (mark_rows up k seg ids ps)
unfolding mark_rows
mark_rows-through f up seg P one k [] ps h = refl
mark_rows-through f up seg P one k (i ∷ ids) ps h = elim (Bool-cases (up k)) [
  | inl y ↦
      rw (y, one i ps h.0) (mark_rows-through f up seg P one (suc k) ids (mark_row seg i ps) h.1)
  | inr n ↦ rw n refl
]

module _ (up : ℕ → Bool) (now : ℕ) (session : Bytes) (first last count : ℕ) (root : Bytes)
    (ids : List ℕ) where
  abbrev pub segment : Buffer → Result (Unit {0}) × Buffer
  segment = write_segment up now session first last count root ids

  abbrev pub added : List Packet → Buffer → Buffer
  added = add_segment now session first last count root

  commit-through :
      (g : Buffer → Buffer) (f : List Packet → List Packet) (t : Bool) (b : Buffer)
      (o : Option (List Packet))
      → ((ps : List Packet) → added (f ps) (g b) ≡ g (added ps b))
      → commit t (with_segment now session first last count root (g b) (map_rows f o)) (g b) ≡ (
        (commit t (with_segment now session first last count root b o) b).0,
        g (commit t (with_segment now session first last count root b o) b).1,
      )
  commit-through g f t b none add = refl
  commit-through g f true b (some ps) add = ap (λ (c : Buffer). (Result.ok tt, c)) (add ps)
  commit-through g f false b (some ps) add = refl

  -- WriteSegment after a change of the tables that it goes along with.
  pub write_segment-through :
      (g : Buffer → Buffer) (f : List Packet → List Packet) (b : Buffer)
      → mark_rows up 3 (g b).next_segment ids (g b).packets
        ≡ map_rows f (mark_rows up 3 b.next_segment ids b.packets)
      → ((ps : List Packet) → added (f ps) (g b) ≡ g (added ps b))
      → segment (g b) ≡ ((segment b).0, g (segment b).1)
  unfolding write_segment
  write_segment-through g f b marks add = elim (Bool-cases (up 0)) [
    | inr n ↦ rw n refl
    | inl y ↦ elim (Bool-cases (leb int64_limit first || leb int64_limit last)) [
      | inl big ↦ rw (y, big) refl
      | inr fits ↦ elim (Bool-cases (up 1)) [
        | inr n ↦ rw (y, fits, n) refl
        | inl z ↦
            rw (y, fits, z, marks)
              (commit-through g f (up 2) b (mark_rows up 3 b.next_segment ids b.packets) add)
      ]
    ]
  ]

  -- What WriteSegment leaves as it is.
  pub record Kept (b c : Buffer) : Type 0 where
    pub packet_keys : keys c.packets ≡ keys b.packets
    pub quotes : c.quotes ≡ b.quotes
    pub next_packet : c.next_packet ≡ b.next_packet
    pub next_quote : c.next_quote ≡ b.next_quote

  commit-Kept :
      (t : Bool) (b : Buffer) (o : Option (List Packet))
      → ((ps : List Packet) → o ≡ some ps → keys ps ≡ keys b.packets)
      → Kept b (commit t (with_segment now session first last count root b o) b).1
  commit-Kept t b none k = record {
    packet_keys = refl;
    quotes = refl;
    next_packet = refl;
    next_quote = refl;
  }
  commit-Kept true b (some ps) k = record {
    packet_keys = k ps refl;
    quotes = refl;
    next_packet = refl;
    next_quote = refl;
  }
  commit-Kept false b (some ps) k = record {
    packet_keys = refl;
    quotes = refl;
    next_packet = refl;
    next_quote = refl;
  }

  pub write_segment-Kept : (b : Buffer) → Kept b (segment b).1
  unfolding write_segment
  write_segment-Kept b =
      let done =
        commit-Kept (up 2) b (mark_rows up 3 b.next_segment ids b.packets)
          (keys-mark_rows up 3 b.next_segment ids b.packets) in
      ground (arith, done)

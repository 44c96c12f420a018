-- ===== src/HotBuffer/Invariant.antt =====
-- internal/hotbuffer/buffer.go: the validity of the tables.
use axm_sfn.Common.{
  ℕ, suc, ◌^◌, ◌≤◌, ◌<◌, ◌≡◌, refl, ap, ◌∙◌, subst, Bool, true, false, ◌&&◌, ◌||◌, List, [], ◌∷◌,
  map, Option, none, some, arith, All, ◌==◌, Bool-cases, inl, inr,
}
use axm_sfn.Common.Text.{Bytes, bytes_eq}
use axm_sfn.HotBuffer.Tables.{UploadState, pending, uploaded, fault, Packet, Quote, Segment, Buffer}
use axm_sfn.HotBuffer.Writes.{has_packet, has_quote, has_row, update_sig}
use axm_sfn.HotBuffer.Segments.{mark_row, mark_rows}

-- What identifies a packet: its row, its session and its place there.
abbrev pub Key : Type 0
Key = ℕ × Bytes × ℕ

abbrev pub key_of : Packet → Key
key_of p = (p.id, p.session_id, p.seq)

abbrev pub keys : List Packet → List Key
keys = map key_of

abbrev pub taken : Bytes → ℕ → List Key → Bool
taken s n [] = false
taken s n ((i, session, seq) ∷ ks) = (bytes_eq session s && seq == n) || taken s n ks

-- Row numbers fall from the bound, no session has a place twice, and places fit 63 bits.
abbrev pub KeysValid : ℕ → List Key → Type 0
KeysValid n [] = 1 ≤ n
KeysValid n ((i, session, seq) ∷ ks) =
    (i < n) × (seq < 2 ^ 63) × (taken session seq ks ≡ false) × KeysValid i ks

abbrev pub QuotesValid : ℕ → List Quote → Type 0
QuotesValid n [] = 1 ≤ n
QuotesValid n (q ∷ qs) = (q.id < n) × QuotesValid q.id qs

abbrev pub has_segment : ℕ → List Segment → Bool
has_segment i [] = false
has_segment i (s ∷ ss) = s.id == i || has_segment i ss

abbrev pub SegmentsValid : ℕ → List Segment → Type 0
SegmentsValid n [] = 1 ≤ n
SegmentsValid n (s ∷ ss) = (s.id < n) × SegmentsValid s.id ss

-- A quote that a packet names exists.
abbrev pub QuoteExists : List Quote → Option ℕ → Type 0
QuoteExists quotes none = Unit
QuoteExists quotes (some q) = has_quote q quotes ≡ true

-- A packet is pending and in no segment, or uploaded and in one that exists.
abbrev pub InSegment : List Segment → UploadState → Option ℕ → Type 0
InSegment segments pending none = Unit
InSegment segments uploaded (some s) = has_segment s segments ≡ true
InSegment segments _ _ = ⊥

abbrev pub RowValid : List Quote → List Segment → Packet → Type 0
RowValid quotes segments p =
    QuoteExists quotes p.quote_ref × InSegment segments p.upload_state p.segment_id

pub record IsValid (b : Buffer) : Type 0 where
  pub packet_keys : KeysValid b.next_packet (keys b.packets)
  pub quote_keys : QuotesValid b.next_quote b.quotes
  pub segment_keys : SegmentsValid b.next_segment b.segments
  pub rows : All (RowValid b.quotes b.segments) b.packets

pub has_packet-taken :
    (s : Bytes) (n : ℕ) (ps : List Packet) → has_packet s n ps ≡ taken s n (keys ps)
unfolding has_packet
has_packet-taken s n [] = refl
has_packet-taken s n (p ∷ ps) =
    ap (λ t. (bytes_eq p.session_id s && p.seq == n) || t) (has_packet-taken s n ps)

pub keys-update_sig :
    (i : ℕ) (sig : Option Bytes) (q : ℕ) (ps : List Packet) → keys (update_sig i sig q ps) ≡ keys ps
unfolding update_sig
keys-update_sig i sig q [] = refl
keys-update_sig i sig q (p ∷ ps) = ground (arith, keys-update_sig i sig q ps)

pub keys-mark_row : (seg i : ℕ) (ps : List Packet) → keys (mark_row seg i ps) ≡ keys ps
unfolding mark_row
keys-mark_row seg i [] = refl
keys-mark_row seg i (p ∷ ps) = ground (arith, keys-mark_row seg i ps)

pub keys-mark_rows :
    (up : ℕ → Bool) (k seg : ℕ) (is : List ℕ) (ps qs : List Packet)
    → mark_rows up k seg is ps ≡ some qs
    → keys qs ≡ keys ps
unfolding mark_rows
keys-mark_rows up k seg [] ps qs e = cc
keys-mark_rows up k seg (i ∷ is) ps qs e = elim (Bool-cases (up k)) [
  | inl y ↦
      keys-mark_rows up (suc k) seg is (mark_row seg i ps) qs (ground arith)
      ∙ keys-mark_row seg i ps
  | inr n ↦ absurd (ground arith)
]

-- Rows stay valid when quotes or segments are added.
pub QuoteExists-cons :
    (q : Quote) (qs : List Quote) (r : Option ℕ) → QuoteExists qs r → QuoteExists (q ∷ qs) r
unfolding has_quote
QuoteExists-cons q qs none h = tt
QuoteExists-cons q qs (some x) h = ground arith

pub InSegment-cons :
    (s : Segment) (ss : List Segment) (u : UploadState) (r : Option ℕ)
    → InSegment ss u r
    → InSegment (s ∷ ss) u r
InSegment-cons s ss pending none h = tt
InSegment-cons s ss pending (some x) h = absurd h
InSegment-cons s ss uploaded none h = absurd h
InSegment-cons s ss uploaded (some x) h = ground arith
InSegment-cons s ss fault r h = absurd h

or_true : (a b : Bool) → b ≡ true → (a || b) ≡ true
or_true a b h = ground arith

pub update_sig-RowValid :
    (quotes : List Quote) (segments : List Segment) (i : ℕ) (sig : Option Bytes) (q : ℕ)
    (ps : List Packet)
    → (has_row i ps ≡ true → has_quote q quotes ≡ true)
    → All (RowValid quotes segments) ps
    → All (RowValid quotes segments) (update_sig i sig q ps)
unfolding update_sig has_row
update_sig-RowValid quotes segments i sig q [] ex h = tt
update_sig-RowValid quotes segments i sig q (p ∷ ps) ex h =
    let rest =
      update_sig-RowValid quotes segments i sig q ps
        (λ (y : has_row i ps ≡ true). ex (or_true (p.id == i) (has_row i ps) y)) h.1 in
    ground (arith, rest)

pub mark_row-RowValid :
    (quotes : List Quote) (segments : List Segment) (seg i : ℕ) (ps : List Packet)
    → has_segment seg segments ≡ true
    → All (RowValid quotes segments) ps
    → All (RowValid quotes segments) (mark_row seg i ps)
unfolding mark_row
mark_row-RowValid quotes segments seg i [] ex h = tt
mark_row-RowValid quotes segments seg i (p ∷ ps) ex h =
    ground (arith, mark_row-RowValid quotes segments seg i ps ex h.1)

pub mark_rows-RowValid :
    (quotes : List Quote) (segments : List Segment) (up : ℕ → Bool) (k seg : ℕ) (is : List ℕ)
    (ps qs : List Packet)
    → has_segment seg segments ≡ true
    → All (RowValid quotes segments) ps
    → mark_rows up k seg is ps ≡ some qs
    → All (RowValid quotes segments) qs
unfolding mark_rows
mark_rows-RowValid quotes segments up k seg [] ps qs ex h e =
    subst (All (RowValid quotes segments)) (cc) h
mark_rows-RowValid quotes segments up k seg (i ∷ is) ps qs ex h e = elim (Bool-cases (up k)) [
  | inl y ↦
      mark_rows-RowValid quotes segments up (suc k) seg is (mark_row seg i ps) qs ex
        (mark_row-RowValid quotes segments seg i ps ex h) (ground arith)
  | inr n ↦ absurd (ground arith)
]

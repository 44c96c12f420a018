-- ===== src/Daemon/Goroutines/Classes.antt =====
-- The statements of the packetizer and of the uploader: all of them commute but for WritePacket and
-- PendingRange.
use axm_sfn.Common.{ℕ, ◌≤◌, ◌<◌, ◌≡◌, refl, ap, Bool, List, Option, arith, All, All-mono}
use axm_sfn.Common.Int.{ℤ}
use axm_sfn.Common.Text.{Bytes}
use axm_sfn.Concurrency.{Thread}
use axm_sfn.Concurrency.Movers.{Commute, Keeps}
use axm_sfn.Concurrency.Classes.{Movers}
use axm_sfn.HotBuffer.Tables.{PacketRow, QuoteRow, Buffer, Result}
use axm_sfn.HotBuffer.Writes.{write_packet, set_tpm_sig, record_provenance_fault, write_quote}
use axm_sfn.HotBuffer.Segments.{pending_range, packet_hashes, write_segment}
use axm_sfn.HotBuffer.Invariant.{IsValid}
use axm_sfn.HotBuffer.Outcomes.{packets-record_provenance_fault, packets-write_quote}
use axm_sfn.HotBuffer.Statements.{
  write_packet-IsValid, set_tpm_sig-IsValid, record_provenance_fault-IsValid, write_quote-IsValid,
  write_segment-IsValid,
}
use axm_sfn.HotBuffer.Commuting.Marked.{Swap, write_segment-Kept}
use axm_sfn.HotBuffer.Commuting.Aside.{
  pending_range-packets, packet_hashes-packets, record_provenance_fault-Swap, write_quote-Swap,
}
use axm_sfn.HotBuffer.Commuting.Signed.{
  pending_range-set_tpm_sig, packet_hashes-set_tpm_sig, set_tpm_sig-Swap,
}
use axm_sfn.HotBuffer.Commuting.Inserted.{packet_hashes-write_packet, write_packet-Swap}
use axm_sfn.HotBuffer.Commuting.Older.{
  write_packet-next, set_tpm_sig-next, record_provenance_fault-next, write_quote-next,
}

module _ {A : Type 0} where
  -- The statements of onTick beside WritePacket.
  pub data Aside : (Buffer → Buffer) → (Buffer → Thread Buffer A) → Type 0 where
    provenance_fault :
        (up : Bool) (now : ℕ) (session : Bytes) (seq : ℕ) (reason : Bytes)
        (go : Result (Unit {0}) → Thread Buffer A)
        → Aside
            (λ b. (record_provenance_fault up now session seq reason b).1)
            (λ b. go (record_provenance_fault up now session seq reason b).0)
    quote :
        (up : Bool) (now : ℕ) (row : QuoteRow) (go : Result ℕ → Thread Buffer A)
        → Aside (λ b. (write_quote up now row b).1) (λ b. go (write_quote up now row b).0)
    signature :
        (up : Bool) (i : ℕ) (sig : Option Bytes) (q : ℕ) (go : Result (Unit {0}) → Thread Buffer A)
        → Aside (λ b. (set_tpm_sig up i sig q b).1) (λ b. go (set_tpm_sig up i sig q b).0)

  pub data Inserts : (Buffer → Buffer) → (Buffer → Thread Buffer A) → Type 0 where
    packet :
        (up : Bool) (p : PacketRow) (go : Result ℕ → Thread Buffer A)
        → Inserts (λ b. (write_packet up p b).1) (λ b. go (write_packet up p b).0)

  -- The first statement of flush.
  pub data Asks : (Buffer → Buffer) → (Buffer → Thread Buffer A) → Type 0 where
    range :
        (on : Bool) (session : Bytes) (max : ℤ) (go : Result (ℕ × ℕ × List ℕ) → Thread Buffer A)
        → Asks (λ b. b) (λ b. go (pending_range on session max b))

  -- The others, about rows below the bound.
  pub data Ships (n : ℕ) : (Buffer → Buffer) → (Buffer → Thread Buffer A) → Type 0 where
    hashes :
        (on : Bool) (ids : List ℕ) (go : Result (List (Option Bytes)) → Thread Buffer A)
        → All (λ i. i < n) ids
        → Ships n (λ b. b) (λ b. go (packet_hashes on ids b))
    segment :
        (on : ℕ → Bool) (now : ℕ) (session : Bytes) (first last count : ℕ) (root : Bytes)
        (ids : List ℕ) (go : Result (Unit {0}) → Thread Buffer A)
        → All (λ i. i < n) ids
        → Ships n
            (λ b. (write_segment on now session first last count root ids b).1)
            (λ b. go (write_segment on now session first last count root ids b).0)

-- Valid tables to which at least n - 1 packets were ever written.
abbrev pub Reaches : ℕ → Buffer → Type 0
Reaches n b = IsValid b × (n ≤ b.next_packet)

pub Reaches-weaken : (n : ℕ) (b : Buffer) → Reaches n b → Reaches 0 b
Reaches-weaken n b (v, h) = (v, omega arith)

pub Reaches-next : (b : Buffer) → Reaches 0 b → Reaches b.next_packet b
Reaches-next b (v, h) = (v, omega arith)

module _ {A : Type 0} where
  pub Aside-keeps : (n : ℕ) → Keeps {X = A} Aside (Reaches n)
  Aside-keeps n act next (provenance_fault up now session seq reason go) b (v, h) = (
    record_provenance_fault-IsValid up now session seq reason b v,
    record_provenance_fault-next n b h up now session seq reason,
  )
  Aside-keeps n act next (quote up now row go) b (v, h) =
      (write_quote-IsValid up now row b v, write_quote-next n b h up now row)
  Aside-keeps n act next (signature up i sig q go) b (v, h) =
      (set_tpm_sig-IsValid up i sig q b v, set_tpm_sig-next n b h up i sig q)

  pub Inserts-keeps : (n : ℕ) → Keeps {X = A} Inserts (Reaches n)
  Inserts-keeps n act next (packet up p go) b (v, h) =
      (write_packet-IsValid up p b v, write_packet-next n b h up p)

  pub Asks-keeps : (n : ℕ) → Keeps {X = A} Asks (Reaches n)
  Asks-keeps n act next (range on session max go) b r = r

  pub Ships-keeps : (n m : ℕ) → Keeps {X = A} (Ships m) (Reaches n)
  Ships-keeps n m act next (hashes on ids go below) b r = r
  Ships-keeps n m act next (segment on now session first last count root ids go below) b (v, h) =
      let k = write_segment-Kept on now session first last count root ids b in
      (
        write_segment-IsValid on now session first last count root ids b v,
        omega (arith, k.next_packet),
      )

-- The two orders of statements that Swap.
Swap-Commute :
    {A B X Y : Type 0} (p : Buffer → X × Buffer) (q : Buffer → Y × Buffer)
    (go : X → Thread Buffer A) (go' : Y → Thread Buffer B) (b : Buffer)
    → Swap p q b
    → ((q (p b).1).1 ≡ (p (q b).1).1)
      × (go (p (q b).1).0 ≡ go (p b).0)
      × (go' (q (p b).1).0 ≡ go' (q b).0)
Swap-Commute p q go go' b s = (s.tables, ap go s.own, ap go' s.other)

module _ {A B : Type 0} where
  pub Aside-Asks :
      (act : Buffer → Buffer) (next : Buffer → Thread Buffer A)
      → Aside act next
      → (a : Buffer → Buffer) (k : Buffer → Thread Buffer B) → Asks a k
      → Commute (Reaches 0) act next a k
  Aside-Asks act next (provenance_fault up now owner seq reason go) a k (range on session max go') b
        h =
      (
        refl,
        refl,
        ap go' (
            pending_range-packets on session max b _
              (packets-record_provenance_fault up now owner seq reason b)),
      )
  Aside-Asks act next (quote up now row go) a k (range on session max go') b h = (
    refl,
    refl,
    ap go' (pending_range-packets on session max b _ (packets-write_quote up now row b)),
  )
  Aside-Asks act next (signature up i sig q go) a k (range on session max go') b h =
      (refl, refl, ap go' (pending_range-set_tpm_sig up i sig q b on session max))

  pub Aside-Ships :
      (act : Buffer → Buffer) (next : Buffer → Thread Buffer A)
      → Aside act next
      → (n : ℕ) (a : Buffer → Buffer) (k : Buffer → Thread Buffer B) → Ships n a k
      → Commute (Reaches 0) act next a k
  Aside-Ships act next (provenance_fault up now owner seq reason go) n a k (hashes on ids go' below)
        b h =
      (
        refl,
        refl,
        ap go' (
            packet_hashes-packets on ids b _
              (packets-record_provenance_fault up now owner seq reason b)),
      )
  Aside-Ships act next (quote up now row go) n a k (hashes on ids go' below) b h =
      (refl, refl, ap go' (packet_hashes-packets on ids b _ (packets-write_quote up now row b)))
  Aside-Ships act next (signature up i sig q go) n a k (hashes on ids go' below) b h =
      (refl, refl, ap go' (packet_hashes-set_tpm_sig up i sig q b on ids))
  Aside-Ships act next (provenance_fault up now owner seq reason go) n a k
        (segment on at session first last count root ids go' below) b h =
      Swap-Commute _ _ go go' b (
        record_provenance_fault-Swap on at session first last count root ids b up now owner seq
          reason)
  Aside-Ships act next (quote up now row go) n a k
        (segment on at session first last count root ids go' below) b h =
      Swap-Commute _ _ go go' b
        (write_quote-Swap on at session first last count root ids b up now row)
  Aside-Ships act next (signature up i sig q go) n a k
        (segment on at session first last count root ids go' below) b h =
      Swap-Commute _ _ go go' b
        (set_tpm_sig-Swap on at session first last count root ids b up i sig q)

  pub Inserts-Ships :
      (act : Buffer → Buffer) (next : Buffer → Thread Buffer A)
      → Inserts act next
      → (n : ℕ) (a : Buffer → Buffer) (k : Buffer → Thread Buffer B) → Ships n a k
      → Commute (Reaches n) act next a k
  Inserts-Ships act next (packet up p go) n a k (hashes on ids go' below) b (v, h) =
      let old =
        All-mono (λ i. i < n) (λ i. i < b.next_packet) ids (λ i j. omega (arith, h)) below in
      (refl, refl, ap go' (packet_hashes-write_packet ids b old on up p))
  Inserts-Ships act next (packet up p go) n a k
        (segment on at session first last count root ids go' below) b (v, h) =
      let old =
        All-mono (λ i. i < n) (λ i. i < b.next_packet) ids (λ i j. omega (arith, h)) below in
      Swap-Commute _ _ go go' b
        (write_packet-Swap ids b old on at session first last count root up p)

  abbrev pub movers : Movers Buffer A B
  movers = record {
    Holds = Reaches;
    Light = Aside;
    Heavy = Inserts;
    LightAt = Ships;
    HeavyAt = Asks;
    bound = λ b. b.next_packet;
    weaken = Reaches-weaken;
    bounded = Reaches-next;
    light_keeps = Aside-keeps;
    heavy_keeps = Inserts-keeps;
    light_at_keeps = Ships-keeps;
    heavy_at_keeps = Asks-keeps;
    light_heavy = Aside-Asks;
    light_light = Aside-Ships;
    heavy_light = Inserts-Ships;
  }

-- ===== src/HotBuffer/Pending.antt =====
-- internal/hotbuffer/buffer.go: PendingRange against a description of what the uploader asks for.
use mathlib.Core.List.{Perm}
use native.Mathlib.Decide.{dec_lt}
use axm_sfn.Common.Int.{pos}
use axm_sfn.Common.{
  ℕ, zero, suc, ◌+◌, ◌^◌, ◌≤◌, ◌<◌, ◌≡◌, ◌≢◌, ◌⊎◌, inl, inr, refl, ap, ◌∙◌, subst, true, List, [],
  ◌∷◌, ◌++◌, map, arith, length, take, drop, select, min, All, All-mono, All-of, take-take,
  take-map, length-take, take-append-drop, last_or,
}
use axm_sfn.Common.Text.{Bytes}
use axm_sfn.HotBuffer.Tables.{Packet, Buffer, ok}
use axm_sfn.HotBuffer.Segments.{is_waiting, order_by_seq, contiguous_range, pending_range}
use axm_sfn.HotBuffer.Order.{
  Rising, order_by_seq-perm, order_by_seq-All, select-All, order_by_seq-Rising, waiting-Distinct,
}
use axm_sfn.HotBuffer.Invariant.{keys, KeysValid, IsValid}
use axm_sfn.HotBuffer.Runs.{
  Consecutive, Rising-drop, run-Consecutive, run_end, run_of, run_of-take, last_of_Consecutive,
  run_of-le,
}

-- The packets of a session that wait, in the order of the query.
abbrev pub queue : Bytes → Buffer → List Packet
queue session b = order_by_seq (select (is_waiting session) b.packets)

-- What PendingRange promises: the rows are a front of the queue, their numbers go on by one from
-- `first` to `last`, there are at most m of them, none only where none waits or m is 0, and if there are fewer, then the number that would
-- come next is not waiting.
pub record IsRange (m : ℕ) (waiting : List Packet) (first last : ℕ) (row_ids : List ℕ)
    : Type 0 where
  pub rows : List Packet
  pub later : List Packet
  pub split : rows ++ later ≡ waiting
  pub ids : row_ids ≡ map (λ p. p.id) rows
  pub consecutive : Consecutive first rows
  pub extent : (rows ≡ []) ⊎ (last + 1 ≡ first + length rows)
  pub bounded : length rows ≤ m
  pub ordered : All (λ q. first + length rows ≤ q.seq) later
  pub begun : (rows ≢ []) ⊎ ((m ≡ 0) ⊎ (later ≡ []))
  pub maximal : (length rows ≡ m) ⊎ All (λ q. first + length rows < q.seq) later

-- A queue cut at m rows, and its run at k + 1.
cut-IsRange :
    (m k : ℕ) (p : Packet) (ps : List Packet)
    → k ≡ min m (run_of p ps)
    → Rising (p ∷ ps)
    → All (λ q. q.seq < 2 ^ 63) (p ∷ ps)
    → IsRange
        (suc m)
        (p ∷ ps)
        p.seq
        (last_or p.seq (take k (map (λ q. q.seq) (take m ps))))
        (p.id ∷ take k (map (λ q. q.id) (take m ps)))
cut-IsRange m k p ps e r b =
    let c = run-Consecutive k p ps (omega arith) b in
    let cut = take-take k m ps (omega arith) in
    let size : length (take k ps) ≡ k = omega (arith, length-take k ps, run_of-le p ps) in
    record {
      rows = p ∷ take k ps;
      later = drop k ps;
      split = ap (◌∷◌ p) (take-append-drop k ps);
      ids = ap (◌∷◌ p.id) (take-map (λ q. q.id) k (take m ps) ∙ ap (map (λ q. q.id)) cut);
      consecutive = c;
      extent = inr (
          rw (take-map (λ q. q.seq) k (take m ps), cut)
            (omega (arith, last_of_Consecutive p.seq (take k ps) c.1)));
      bounded = omega arith;
      ordered =
          All-mono (λ q. p.seq + suc k ≤ q.seq) (λ q. p.seq + suc (length (take k ps)) ≤ q.seq)
            (drop k ps) (λ q h. omega arith) (Rising-drop (suc k) p ps r);
      begun = inl (λ e. ground arith);
      maximal = elim (dec_lt k m) [
        | yes short ↦ inr (
            All-mono (λ q. p.seq + suc (run_of p ps) < q.seq)
              (λ q. p.seq + suc (length (take k ps)) < q.seq) (drop k ps) (λ q h. omega arith)
              (subst (λ j. All (λ q. p.seq + suc (run_of p ps) < q.seq) (drop j ps)) (omega arith)
                (run_end p ps r b)))
        | no full ↦ inl (omega arith)
      ];
    }

contiguous_range-IsRange :
    (m : ℕ) (l : List Packet)
    → Rising l
    → All (λ q. q.seq < 2 ^ 63) l
    → let (first, last, ids) = contiguous_range (take m l) in IsRange m l first last ids
unfolding contiguous_range
contiguous_range-IsRange zero l r b = record {
  rows = [];
  later = l;
  split = refl;
  ids = refl;
  consecutive = tt;
  extent = inl refl;
  bounded = omega arith;
  ordered = All-of _ l (λ q. omega arith);
  begun = inr (inl refl);
  maximal = inl refl;
}
contiguous_range-IsRange (suc m) [] r b = record {
  rows = [];
  later = [];
  split = refl;
  ids = refl;
  consecutive = tt;
  extent = inl refl;
  bounded = omega arith;
  ordered = tt;
  begun = inr (inr refl);
  maximal = inr tt;
}
contiguous_range-IsRange (suc m) (p ∷ ps) r b =
    cut-IsRange m (run_of p (take m ps)) p ps (run_of-take m p ps) r b

keys-in_range : (n : ℕ) (ps : List Packet) → KeysValid n (keys ps) → All (λ q. q.seq < 2 ^ 63) ps
keys-in_range n [] k = tt
keys-in_range n (p ∷ ps) k = (k.1, keys-in_range p.id ps k.3)

pub queue-below :
    (session : Bytes) (b : Buffer) → IsValid b → All (λ q. q.seq < 2 ^ 63) (queue session b)
queue-below session b v =
    order_by_seq-All (λ q. q.seq < 2 ^ 63) (select (is_waiting session) b.packets)
      (select-All (λ q. q.seq < 2 ^ 63) (is_waiting session) b.packets
        (keys-in_range b.next_packet b.packets v.packet_keys))

-- The queue holds the packets of the session that wait, and no other.
pub queue-perm :
    (session : Bytes) (b : Buffer) → Perm (queue session b) (select (is_waiting session) b.packets)
queue-perm session b = order_by_seq-perm (select (is_waiting session) b.packets)

-- On valid tables PendingRange, asked for at most m rows, reads a front of the session's queue by
-- sequence number: the numbers go on by one from the first to the last returned, every packet left
-- behind comes later, no rows come back only where none waits or m is 0, and fewer than m only where
-- the next number is not waiting.
pub pending_range-IsRange :
    (session : Bytes) (m : ℕ) (b : Buffer)
    → IsValid b
    → (first : ℕ) × (last : ℕ) × (ids : List ℕ) × (pending_range true session (pos m) b
        ≡ ok (first, last, ids))
      × IsRange m (queue session b) first last ids
unfolding pending_range
pending_range-IsRange session m b v =
    let waiting = select (is_waiting session) b.packets in
    let r = contiguous_range (take m (queue session b)) in
    (
      r.0,
      r.1,
      r.2,
      refl,
      contiguous_range-IsRange m (queue session b)
          (order_by_seq-Rising waiting
            (waiting-Distinct session b.next_packet b.packets v.packet_keys))
          (queue-below session b v),
    )

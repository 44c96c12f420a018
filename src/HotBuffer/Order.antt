-- ===== src/HotBuffer/Order.antt =====
-- internal/hotbuffer/buffer.go: the order in which PendingRange reads the packets of a session that wait.
use mathlib.Core.List.Perm
use mathlib.Core.List.{Perm}
use axm_sfn.Common.{
  ℕ, ◌<◌, ◌≡◌, ◌≢◌, inl, inr, subst, Bool, false, List, [], ◌∷◌, arith, select, All, All-mono, leb,
  Bool-cases,
}
use axm_sfn.Common.Text.{Bytes, bytes_eq→eq}
use axm_sfn.HotBuffer.Tables.{Packet}
use axm_sfn.HotBuffer.Segments.{is_waiting, insert_by_seq, order_by_seq}
use axm_sfn.HotBuffer.Invariant.{keys, taken, KeysValid}

-- Sequence numbers rise along the list.
abbrev pub Rising : List Packet → Type 0
Rising [] = Unit
Rising (p ∷ ps) = All (λ q. p.seq < q.seq) ps × Rising ps

abbrev pub Apart : ℕ → List Packet → Type 0
Apart n = All (λ q. n ≢ q.seq)

abbrev pub Distinct : List Packet → Type 0
Distinct [] = Unit
Distinct (p ∷ ps) = Apart p.seq ps × Distinct ps

insert_by_seq-perm : (p : Packet) (ps : List Packet) → Perm (insert_by_seq p ps) (p ∷ ps)
unfolding insert_by_seq
insert_by_seq-perm p [] = Perm.refl (p ∷ [])
insert_by_seq-perm p (q ∷ qs) = elim (Bool-cases (leb p.seq q.seq)) [
  | inl y ↦ rw y (Perm.refl (p ∷ q ∷ qs))
  | inr n ↦ rw n (Perm.trans (Perm.cons q (insert_by_seq-perm p qs)) (Perm.swap p q qs))
]

pub order_by_seq-perm : (ps : List Packet) → Perm (order_by_seq ps) ps
unfolding order_by_seq
order_by_seq-perm [] = Perm.nil
order_by_seq-perm (p ∷ ps) =
    Perm.trans (insert_by_seq-perm p (order_by_seq ps)) (Perm.cons p (order_by_seq-perm ps))

module _ {κ} (P : Packet → Type κ) where
  pub insert_by_seq-All :
      (p : Packet) (ps : List Packet) → P p → All P ps → All P (insert_by_seq p ps)
  unfolding insert_by_seq
  insert_by_seq-All p [] h hs = (h, tt)
  insert_by_seq-All p (q ∷ qs) h hs = elim (Bool-cases (leb p.seq q.seq)) [
    | inl y ↦ rw y (h, hs)
    | inr n ↦ rw n (hs.0, insert_by_seq-All p qs h hs.1)
  ]

  pub order_by_seq-All : (ps : List Packet) → All P ps → All P (order_by_seq ps)
  unfolding order_by_seq
  order_by_seq-All [] h = tt
  order_by_seq-All (p ∷ ps) h = insert_by_seq-All p (order_by_seq ps) h.0 (order_by_seq-All ps h.1)

  pub select-All : (f : Packet → Bool) (ps : List Packet) → All P ps → All P (select f ps)
  select-All f [] h = tt
  select-All f (p ∷ ps) h = elim (Bool-cases (f p)) [
    | inl y ↦ rw y (h.0, select-All f ps h.1)
    | inr n ↦ rw n (select-All f ps h.1)
  ]

insert_by_seq-Rising :
    (p : Packet) (ps : List Packet) → Apart p.seq ps → Rising ps → Rising (insert_by_seq p ps)
unfolding insert_by_seq
insert_by_seq-Rising p [] a r = (tt, tt)
insert_by_seq-Rising p (q ∷ qs) a r = elim (Bool-cases (leb p.seq q.seq)) [
  | inl y ↦
      let below : p.seq < q.seq = ground arith in
      rw y ((below, All-mono _ (λ x. p.seq < x.seq) qs (λ x h. omega arith) r.0), r)
  | inr n ↦
      let above : q.seq < p.seq = ground arith in
      rw n
        (insert_by_seq-All (λ x. q.seq < x.seq) p qs above r.0, insert_by_seq-Rising p qs a.1 r.1)
]

pub order_by_seq-Rising : (ps : List Packet) → Distinct ps → Rising (order_by_seq ps)
unfolding order_by_seq
order_by_seq-Rising [] d = tt
order_by_seq-Rising (p ∷ ps) d =
    insert_by_seq-Rising p (order_by_seq ps) (order_by_seq-All (λ q. p.seq ≢ q.seq) ps d.0)
      (order_by_seq-Rising ps d.1)

not_taken :
    (session : Bytes) (n : ℕ) (ps : List Packet)
    → taken session n (keys ps) ≡ false
    → Apart n (select (is_waiting session) ps)
not_taken session n [] h = tt
not_taken session n (p ∷ ps) h = elim (Bool-cases (is_waiting session p)) [
  | inl y ↦ rw y ((λ e. ground arith), not_taken session n ps (ground arith))
  | inr x ↦ rw x (not_taken session n ps (ground arith))
]

pub waiting-Distinct :
    (session : Bytes) (n : ℕ) (ps : List Packet)
    → KeysValid n (keys ps)
    → Distinct (select (is_waiting session) ps)
waiting-Distinct session n [] k = tt
waiting-Distinct session n (p ∷ ps) k = elim (Bool-cases (is_waiting session p)) [
  | inl y ↦ rw y (
    subst (λ s. Apart p.seq (select (is_waiting s) ps))
        (bytes_eq→eq p.session_id session (ground arith)) (not_taken p.session_id p.seq ps k.2),
    waiting-Distinct session p.id ps k.3,
  )
  | inr x ↦ rw x (waiting-Distinct session p.id ps k.3)
]

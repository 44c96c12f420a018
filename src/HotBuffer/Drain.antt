-- ===== src/HotBuffer/Drain.antt =====
-- internal/hotbuffer/buffer.go: what WriteSegment does to the queue that PendingRange reads.
use axm_sfn.Common.{
  ℕ, suc, ◌≤◌, ◌<◌, ◌≡◌, ◌≢◌, refl, sym, ap, ◌∙◌, subst, Bool, true, false, not, List, [], ◌∷◌,
  ◌++◌, map, some, arith, select, All, All-mono, ◌==◌, ==_refl, ==_ne, Bool-cases, inl, inr, leb,
  le→leb,
}
use axm_sfn.Common.Text.{Bytes}
use axm_sfn.HotBuffer.Tables.{Packet}
use axm_sfn.HotBuffer.Segments.{is_waiting, insert_by_seq, order_by_seq, mark_row, mark_rows}
use axm_sfn.HotBuffer.Invariant.{keys, KeysValid, keys-mark_row}
use axm_sfn.HotBuffer.Order.{
  Rising, Distinct, order_by_seq-Rising, waiting-Distinct, insert_by_seq-All, order_by_seq-All,
  select-All,
}

-- No row has the number i.
abbrev Absent : ℕ → List Packet → Type 0
Absent i = All (λ q. q.id ≢ i)

-- Row numbers do not repeat.
abbrev pub DistinctRows : List Packet → Type 0
DistinctRows [] = Unit
DistinctRows (p ∷ ps) = Absent p.id ps × DistinctRows ps

insert_by_seq-DistinctRows :
    (p : Packet) (ps : List Packet)
    → Absent p.id ps
    → DistinctRows ps
    → DistinctRows (insert_by_seq p ps)
unfolding insert_by_seq
insert_by_seq-DistinctRows p [] a d = (tt, tt)
insert_by_seq-DistinctRows p (q ∷ qs) a d = elim (Bool-cases (leb p.seq q.seq)) [
  | inl y ↦ rw y (a, d)
  | inr n ↦ rw n (
    insert_by_seq-All (λ x. x.id ≢ q.id) p qs (λ e. a.0 (sym e)) d.0,
    insert_by_seq-DistinctRows p qs a.1 d.1,
  )
]

order_by_seq-DistinctRows : (ps : List Packet) → DistinctRows ps → DistinctRows (order_by_seq ps)
unfolding order_by_seq
order_by_seq-DistinctRows [] d = tt
order_by_seq-DistinctRows (p ∷ ps) d =
    insert_by_seq-DistinctRows p (order_by_seq ps) (order_by_seq-All (λ q. q.id ≢ p.id) ps d.0)
      (order_by_seq-DistinctRows ps d.1)

pub below : (n : ℕ) (ps : List Packet) → KeysValid n (keys ps) → All (λ q. q.id < n) ps
below n [] k = tt
below n (p ∷ ps) k = (
  k.0,
  All-mono (λ q. q.id < p.id) (λ q. q.id < n) ps (λ q h. omega (arith, k.0)) (below p.id ps k.3),
)

keys-DistinctRows : (n : ℕ) (ps : List Packet) → KeysValid n (keys ps) → DistinctRows ps
keys-DistinctRows n [] k = tt
keys-DistinctRows n (p ∷ ps) k = (
  All-mono (λ q. q.id < p.id) (λ q. q.id ≢ p.id) ps (λ q h e. omega arith) (below p.id ps k.3),
  keys-DistinctRows p.id ps k.3,
)

select-DistinctRows :
    (f : Packet → Bool) (ps : List Packet) → DistinctRows ps → DistinctRows (select f ps)
select-DistinctRows f [] d = tt
select-DistinctRows f (p ∷ ps) d = elim (Bool-cases (f p)) [
  | inl y ↦ rw y (select-All (λ q. q.id ≢ p.id) f ps d.0, select-DistinctRows f ps d.1)
  | inr n ↦ rw n (select-DistinctRows f ps d.1)
]

-- The rows of the session that wait, as a function of the table.
abbrev pub waiting : Bytes → List Packet → List Packet
waiting session = select (is_waiting session)

abbrev is_not : ℕ → Packet → Bool
is_not i p = not (p.id == i)

-- Marking a row takes it out of the rows that wait.
waiting-mark_row :
    (session : Bytes) (seg i : ℕ) (ps : List Packet)
    → waiting session (mark_row seg i ps) ≡ select (is_not i) (waiting session ps)
unfolding mark_row
waiting-mark_row session seg i [] = refl
waiting-mark_row session seg i (p ∷ ps) = ground (arith, waiting-mark_row session seg i ps)

select-Absent : (i : ℕ) (ps : List Packet) → Absent i ps → select (is_not i) ps ≡ ps
select-Absent i [] a = refl
select-Absent i (p ∷ ps) a = rw (==_ne p.id i a.0) (ap (◌∷◌ p) (select-Absent i ps a.1))

insert_by_seq_front :
    (p : Packet) (ps : List Packet) → All (λ q. p.seq ≤ q.seq) ps → insert_by_seq p ps ≡ p ∷ ps
unfolding insert_by_seq
insert_by_seq_front p [] h = refl
insert_by_seq_front p (q ∷ qs) h = rw (le→leb p.seq q.seq h.0)

module _ (f : Packet → Bool) where
  select-insert_by_seq_in :
      (p : Packet) (ps : List Packet)
      → f p ≡ true
      → Rising ps
      → select f (insert_by_seq p ps) ≡ insert_by_seq p (select f ps)
  unfolding insert_by_seq
  select-insert_by_seq_in p [] e r = rw e
  select-insert_by_seq_in p (q ∷ qs) e r = elim (Bool-cases (leb p.seq q.seq)) [
    | inl y ↦
        let low : p.seq ≤ q.seq = ground arith in
        let front =
          select-All (λ x. p.seq ≤ x.seq) f (q ∷ qs)
            (low, All-mono (λ x. q.seq < x.seq) (λ x. p.seq ≤ x.seq) qs (λ x h. omega arith) r.0) in
        rw (y, e) (sym (insert_by_seq_front p (select f (q ∷ qs)) front))
    | inr n ↦ rw n (ground (arith, select-insert_by_seq_in p qs e r.1))
  ]

  select-insert_by_seq_out :
      (p : Packet) (ps : List Packet) → f p ≡ false → select f (insert_by_seq p ps) ≡ select f ps
  unfolding insert_by_seq
  select-insert_by_seq_out p [] e = rw e
  select-insert_by_seq_out p (q ∷ qs) e = elim (Bool-cases (leb p.seq q.seq)) [
    | inl y ↦ rw (y, e)
    | inr n ↦ rw n (ground (arith, select-insert_by_seq_out p qs e))
  ]

  order_by_seq-select :
      (ps : List Packet) → Distinct ps → order_by_seq (select f ps) ≡ select f (order_by_seq ps)
  unfolding order_by_seq
  order_by_seq-select [] d = refl
  order_by_seq-select (p ∷ ps) d = elim (Bool-cases (f p)) [
    | inl y ↦ rw y (
        ap (insert_by_seq p) (order_by_seq-select ps d.1)
        ∙ sym (select-insert_by_seq_in p (order_by_seq ps) y (order_by_seq-Rising ps d.1)))
    | inr n ↦
        rw n (order_by_seq-select ps d.1 ∙ sym (select-insert_by_seq_out p (order_by_seq ps) n))
  ]

-- The queue of a session, as a function of the table.
abbrev pub queue_of : Bytes → List Packet → List Packet
queue_of session ps = order_by_seq (waiting session ps)

mark_row-queue :
    (session : Bytes) (seg n : ℕ) (p : Packet) (ps rest : List Packet)
    → KeysValid n (keys ps)
    → queue_of session ps ≡ p ∷ rest
    → queue_of session (mark_row seg p.id ps) ≡ rest
mark_row-queue session seg n p ps rest k e =
    let distinct : DistinctRows (p ∷ rest) = subst DistinctRows e (
      order_by_seq-DistinctRows (waiting session ps)
        (select-DistinctRows (is_waiting session) ps (keys-DistinctRows n ps k))) in
    rw
      (
        waiting-mark_row session seg p.id ps,
        order_by_seq-select (is_not p.id) (waiting session ps) (waiting-Distinct session n ps k),
        e,
        ==_refl p.id,
      )
      (select-Absent p.id rest distinct.0)

-- Marking a front of the queue leaves the rest of it.
pub mark_rows-queue :
    (session : Bytes) (up : ℕ → Bool) (j seg n : ℕ) (rows later ps qs : List Packet)
    → KeysValid n (keys ps)
    → rows ++ later ≡ queue_of session ps
    → mark_rows up j seg (map (λ p. p.id) rows) ps ≡ some qs
    → queue_of session qs ≡ later
unfolding mark_rows
mark_rows-queue session up j seg n [] later ps qs k e m =
    ap (queue_of session) (ground arith) ∙ sym e
mark_rows-queue session up j seg n (p ∷ rows) later ps qs k e m = elim (Bool-cases (up j)) [
  | inl y ↦
      mark_rows-queue session up (suc j) seg n rows later (mark_row seg p.id ps) qs
        (subst (KeysValid n) (sym (keys-mark_row seg p.id ps)) k)
        (sym (mark_row-queue session seg n p ps (rows ++ later) k (sym e))) (ground arith)
  | inr x ↦ absurd (ground arith)
]

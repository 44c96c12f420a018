-- ===== src/HotBuffer/Runs.antt =====
-- internal/hotbuffer/buffer.go: the contiguous prefix of a rising list of packets.
use axm_sfn.Common.{
  ℕ, zero, suc, ◌+◌, ◌%◌, ◌^◌, ◌≤◌, ◌<◌, ◌≡◌, inl, inr, refl, sym, subst, List, [], ◌∷◌, map, arith,
  length, take, drop, min, All, All-mono, ◌==◌, Bool-cases, last_or,
}
use axm_sfn.HotBuffer.Tables.{Packet}
use axm_sfn.HotBuffer.Segments.{run_length}
use axm_sfn.HotBuffer.Order.{Rising}

-- Sequence numbers go on by one from n.
abbrev pub Consecutive : ℕ → List Packet → Type 0
Consecutive n [] = Unit
Consecutive n (p ∷ ps) = (p.seq ≡ n) × Consecutive (suc n) ps

drop_none : (j : ℕ) → drop {A = Packet} j [] ≡ []
drop_none zero = refl
drop_none (suc j) = refl

-- A rising list grows by one at least at each step.
pub Rising-drop :
    (j : ℕ) (p : Packet) (ps : List Packet)
    → Rising (p ∷ ps)
    → All (λ q. p.seq + j ≤ q.seq) (drop j (p ∷ ps))
Rising-drop zero p ps r = (omega arith, All-mono _ _ ps (λ q h. omega arith) r.0)
Rising-drop (suc j) p [] r = subst (All (λ q. p.seq + suc j ≤ q.seq)) (sym (drop_none j)) tt
Rising-drop (suc j) p (q ∷ qs) r =
    All-mono (λ x. q.seq + j ≤ x.seq) (λ x. p.seq + suc j ≤ x.seq) (drop j (q ∷ qs))
      (λ x h. omega (arith, r.0.0)) (Rising-drop j q qs r.1)

abbrev pub run_of : Packet → List Packet → ℕ
run_of p ps = run_length p.seq (map (λ q. q.seq) ps)

-- Up to the end of the run the numbers go on by one.
pub run-Consecutive :
    (j : ℕ) (p : Packet) (ps : List Packet)
    → j ≤ run_of p ps
    → All (λ q. q.seq < 2 ^ 63) (p ∷ ps)
    → Consecutive p.seq (take (suc j) (p ∷ ps))
unfolding run_length
run-Consecutive zero p ps h b = (refl, tt)
run-Consecutive (suc j) p [] h b = (refl, tt)
run-Consecutive (suc j) p (q ∷ qs) h b =
    let next : q.seq ≡ suc p.seq = ground arith in
    let more : j ≤ run_of q qs = ground arith in
    (
      refl,
      subst (λ n. Consecutive n (take (suc j) (q ∷ qs))) next (run-Consecutive j q qs more b.1),
    )

-- Behind the run the next number is missing.
pub run_end :
    (p : Packet) (ps : List Packet)
    → Rising (p ∷ ps)
    → All (λ q. q.seq < 2 ^ 63) (p ∷ ps)
    → All (λ q. p.seq + suc (run_of p ps) < q.seq) (drop (suc (run_of p ps)) (p ∷ ps))
unfolding run_length
run_end p [] r b = tt
run_end p (q ∷ qs) r b = elim (Bool-cases (q.seq == (p.seq + 1) % 2 ^ 64)) [
  | inl y ↦
      let next : q.seq ≡ suc p.seq = ground arith in
      rw y (
        All-mono (λ x. q.seq + suc (run_of q qs) < x.seq)
          (λ x. p.seq + suc (suc (run_of q qs)) < x.seq) (drop (suc (run_of q qs)) (q ∷ qs))
          (λ x h. omega (arith, next)) (run_end q qs r.1 b.1))
  | inr n ↦
      let gap : p.seq + 1 < q.seq = ground (arith, r.0.0, b.0) in
      rw n
        (gap, All-mono (λ x. q.seq < x.seq) (λ x. p.seq + 1 < x.seq) qs (λ x h. omega arith) r.1.0)
]

-- Under a limit the run is cut.
pub run_of-take :
    (k : ℕ) (p : Packet) (ps : List Packet) → run_of p (take k ps) ≡ min k (run_of p ps)
unfolding run_length
run_of-take zero p ps = omega arith
run_of-take (suc k) p [] = omega arith
run_of-take (suc k) p (q ∷ qs) = ground (arith, run_of-take k q qs)

pub last_of_Consecutive :
    (n : ℕ) (ps : List Packet)
    → Consecutive (suc n) ps
    → last_or n (map (λ q. q.seq) ps) ≡ n + length ps
last_of_Consecutive n [] c = omega arith
last_of_Consecutive n (p ∷ ps) c = rw (c.0) (omega (arith, last_of_Consecutive (suc n) ps c.1))

pub run_of-le : (p : Packet) (ps : List Packet) → run_of p ps ≤ length ps
unfolding run_length
run_of-le p [] = omega arith
run_of-le p (q ∷ qs) = ground (arith, run_of-le q qs)

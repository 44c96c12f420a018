-- ===== src/Concurrency/Serial.antt =====
-- Every interleaving of two goroutines whose threads have at most one heavy statement each comes to what
-- some order of whole threads does.
use axm_sfn.Common.{ℕ, ◌≡◌, ◌⊎◌, inl, inr, refl, ◌∙◌, Bool, true, false, List, [], ◌∷◌}
use axm_sfn.Concurrency.{
  Thread, returns, executes, run_thread, first_of, rest_of, interleave, alternate,
}
use axm_sfn.Concurrency.Movers.{Each, Lights, Lights-Each}
use axm_sfn.Concurrency.Classes.{
  Movers, First, Second, AllFirst, AllSecond, AnyAt, First-Each, Second-Each, Lights-First,
  AllFirst-Each, AllSecond-Each, first_of-First, rest_of-AllFirst, first_of-Second,
  rest_of-AllSecond,
}
use axm_sfn.Concurrency.Reduction.{
  drop_first, drop_second, delay_first, delay_second, pull_first, pull_second,
}

module _ {S A B : Type 0} (m : Movers S A B) where
  open m use {
    Holds, Light, LightAt, weaken, bound, bounded, light_keeps, heavy_keeps, light_at_keeps,
    heavy_at_keeps,
  }

  -- The second goroutine is before its heavy statement, or behind it with a bound that holds.
  abbrev pub Going : Thread S B → S → Type 0
  Going u s = Second m u ⊎ ((n : ℕ) × Holds n s × Lights (LightAt n) u)

  Going-Each : (u : Thread S B) (s : S) → Going u s → Each (AnyAt m) (Holds 0) u
  Going-Each u s (inl e) = Second-Each m u e
  Going-Each u s (inr (n, p, l)) = Lights-Each (λ a k r. inr (n, r)) l

  -- The states and the bounds that a statement of the first goroutine keeps.
  Going-keeps :
      (act : S → S) (s : S) (u : Thread S B)
      → ((n : ℕ) → Holds n s → Holds n (act s))
      → Going u s
      → Going u (act s)
  Going-keeps act s u keeps (inl e) = inl e
  Going-keeps act s u keeps (inr (n, p, l)) = inr (n, keeps n p, l)

  abbrev Reduced :
      List Bool
      → Thread S A
      → List (A → Thread S A)
      → Thread S B
      → List (B → Thread S B)
      → S
      → Type 0
  Reduced bs t ts u us s = (cs : List Bool) × (interleave bs t ts u us s ≡ alternate cs t ts u us s)

  pub reduce :
      (bs : List Bool) (t : Thread S A) (ts : List (A → Thread S A)) (u : Thread S B)
      (us : List (B → Thread S B)) (s : S)
      → First m t
      → AllFirst m ts
      → Going u s
      → AllSecond m us
      → Holds 0 s
      → (cs : List Bool) × (interleave bs t ts u us s ≡ alternate cs t ts u us s)
  unfolding interleave alternate run_thread
  reduce [] t ts u us s f fs g gs p = ([], refl)
  reduce (true ∷ bs) (returns a) ts u us s f fs g gs p =
      let (cs, e) =
        reduce bs (first_of ts a) (rest_of ts) u us s (first_of-First m ts a fs)
          (rest_of-AllFirst m ts fs) g gs p in
      (true ∷ cs, e)
  reduce (true ∷ bs) (executes act next) ts u us s (First.goes l later) fs g gs p =
      let (cs, e) =
        reduce bs (next s) ts u us (act s) (later s) fs
          (Going-keeps act s u (λ n. light_keeps n act next l s) g) gs
          (light_keeps 0 act next l s p) in
      (cs, e ∙ delay_first m cs act next ts u us s l (Going-Each u s g) (AllSecond-Each m us gs) p)
  reduce (true ∷ bs) (executes act next) ts u us s (First.turns c later) fs g gs p =
      let (cs, e) =
        reduce bs (next s) ts u us (act s) (Lights-First m (next s) (later s)) fs
          (Going-keeps act s u (λ n. heavy_keeps n act next c s) g) gs
          (heavy_keeps 0 act next c s p) in
      (
        true ∷ drop_first cs,
        e
            ∙ pull_first m cs (next s) ts u us (act s) (later s) (Going-Each u s g)
                (AllSecond-Each m us gs) (heavy_keeps 0 act next c s p),
      )
  reduce (false ∷ bs) t ts (returns b) us s f fs g gs p =
      let (cs, e) =
        reduce bs t ts (first_of us b) (rest_of us) s f fs (inl (first_of-Second m us b gs))
          (rest_of-AllSecond m us gs) p in
      (false ∷ cs, e)
  reduce (false ∷ bs) t ts (executes act next) us s f fs (inl (Second.turns c later)) gs p =
      let n = bound s in
      let q = heavy_at_keeps n act next c s (bounded s p) in
      let (cs, e) =
        reduce bs t ts (next s) us (act s) f fs (inr (n, q, later s p)) gs (weaken n (act s) q) in
      (
        false ∷ drop_second cs,
        e
            ∙ pull_second m cs n t ts (next s) us (act s) (later s p) (First-Each m n t f)
                (AllFirst-Each m n ts fs) q,
      )
  reduce (false ∷ bs) t ts (executes act next) us s f fs (inr (n, q, Lights.goes l later)) gs p =
      let r = light_at_keeps n n act next l s q in
      let (cs, e) =
        reduce bs t ts (next s) us (act s) f fs (inr (n, r, later s)) gs (weaken n (act s) r) in
      (
        cs,
        e
            ∙ delay_second m cs n act next t ts us s l (First-Each m n t f)
                (AllFirst-Each m n ts fs) q,
      )

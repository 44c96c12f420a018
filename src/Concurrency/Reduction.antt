-- ===== src/Concurrency/Reduction.antt =====
-- Every interleaving of two goroutines whose threads have at most one heavy statement each comes to what
-- some order of whole threads does.
use axm_sfn.Common.{ℕ, ◌≡◌, refl, sym, ap, ◌∙◌, Bool, true, false, List, [], ◌∷◌}
use axm_sfn.Concurrency.{
  Thread, executes, run_thread, first_of, rest_of, run_rest, run_all, alternate,
}
use axm_sfn.Concurrency.Movers.{
  Each, Lights, AllEach, run_thread-keeps, passes, passes_all, swaps, swaps_all,
}
use axm_sfn.Concurrency.Classes.{Movers, Any, AnyAt, Any-keeps, AnyAt-keeps, light-Any, Any-light}

-- A schedule without its first turn of the first goroutine, and of the second.
unfoldable pub drop_first : List Bool → List Bool
drop_first [] = []
drop_first (true ∷ bs) = bs
drop_first (false ∷ bs) = false ∷ drop_first bs

unfoldable pub drop_second : List Bool → List Bool
drop_second [] = []
drop_second (false ∷ bs) = bs
drop_second (true ∷ bs) = true ∷ drop_second bs

module _ {S X : Type 0} (C : (S → S) → (S → Thread S X) → Type 0) (P : S → Type 0) where
  pub first_of-Each :
      (us : List (X → Thread S X)) (b : X) → AllEach C P us → Each C P (first_of us b)
  first_of-Each [] b es = Each.stops
  first_of-Each (f ∷ us) b (e, es) = e b

  pub rest_of-Each : (us : List (X → Thread S X)) → AllEach C P us → AllEach C P (rest_of us)
  rest_of-Each [] es = tt
  rest_of-Each (f ∷ us) (e, es) = es

pub run_rest-first :
    {S X : Type 0} (us : List (X → Thread S X)) (r : X × S)
    → run_rest us r ≡ run_all (first_of us r.0) (rest_of us) r.1
unfolding run_rest run_thread
run_rest-first [] r = refl
run_rest-first (f ∷ us) r = refl

module _ {S A B : Type 0} (m : Movers S A B) where
  open m use {
    Holds, Light, Heavy, LightAt, HeavyAt, bound, weaken, bounded, light_keeps, heavy_keeps,
    light_at_keeps, heavy_at_keeps,
  }

  -- A light statement of the first goroutine may wait until its thread runs in one piece.
  pub delay_first :
      (bs : List Bool) (act : S → S) (next : S → Thread S A) (ts : List (A → Thread S A))
      (u : Thread S B) (us : List (B → Thread S B)) (s : S)
      → Light act next
      → Each (AnyAt m) (Holds 0) u
      → AllEach (AnyAt m) (Holds 0) us
      → Holds 0 s
      → alternate bs (next s) ts u us (act s) ≡ alternate bs (executes act next) ts u us s
  unfolding alternate run_thread
  delay_first [] act next ts u us s l e es p = refl
  delay_first (true ∷ bs) act next ts u us s l e es p = refl
  delay_first (false ∷ bs) act next ts u us s l e es p =
      let r = run_thread u s in
      let (run, unseen) = passes (AnyAt-keeps m 0) act next (light-Any m act next l) u s e p in
      ap (λ q. alternate bs (next s) ts (first_of us q.0) (rest_of us) q.1) run
      ∙ ap (λ t. alternate bs t ts (first_of us r.0) (rest_of us) (act r.1)) (sym unseen)
      ∙ delay_first bs act next ts (first_of us r.0) (rest_of us) r.1 l
          (first_of-Each (AnyAt m) (Holds 0) us r.0 es) (rest_of-Each (AnyAt m) (Holds 0) us es)
          (run_thread-keeps (AnyAt-keeps m 0) u s e p)

  pub delay_second :
      (bs : List Bool) (n : ℕ) (act : S → S) (next : S → Thread S B) (t : Thread S A)
      (ts : List (A → Thread S A)) (us : List (B → Thread S B)) (s : S)
      → LightAt n act next
      → Each (Any m) (Holds n) t
      → AllEach (Any m) (Holds n) ts
      → Holds n s
      → alternate bs t ts (next s) us (act s) ≡ alternate bs t ts (executes act next) us s
  unfolding alternate run_thread
  delay_second [] n act next t ts us s l e es p =
      let r = run_all t ts s in
      let (run, unseen) =
        passes_all (Any-keeps m n) act next (Any-light m n act next l) ts t s e es p in
      ap (λ (q : A × S). ((q.0, (run_all (next s) us q.1).0), (run_all (next s) us q.1).1)) run
      ∙ ap (λ u. ((r.0, (run_all u us (act r.1)).0), (run_all u us (act r.1)).1)) (sym unseen)
  delay_second (false ∷ bs) n act next t ts us s l e es p = refl
  delay_second (true ∷ bs) n act next t ts us s l e es p =
      let r = run_thread t s in
      let (run, unseen) = passes (Any-keeps m n) act next (Any-light m n act next l) t s e p in
      ap (λ q. alternate bs (first_of ts q.0) (rest_of ts) (next s) us q.1) run
      ∙ ap (λ u. alternate bs (first_of ts r.0) (rest_of ts) u us (act r.1)) (sym unseen)
      ∙ delay_second bs n act next (first_of ts r.0) (rest_of ts) us r.1 l
          (first_of-Each (Any m) (Holds n) ts r.0 es) (rest_of-Each (Any m) (Holds n) ts es)
          (run_thread-keeps (Any-keeps m n) t s e p)

  -- What is left behind a heavy statement may run at once.
  pub pull_first :
      (bs : List Bool) (t : Thread S A) (ts : List (A → Thread S A)) (u : Thread S B)
      (us : List (B → Thread S B)) (s : S)
      → Lights Light t
      → Each (AnyAt m) (Holds 0) u
      → AllEach (AnyAt m) (Holds 0) us
      → Holds 0 s
      → alternate bs t ts u us s ≡ alternate (true ∷ drop_first bs) t ts u us s
  unfolding alternate drop_first
  pull_first [] t ts u us s l e es p =
      ap (λ (q : A × S). ((q.0, (run_all u us q.1).0), (run_all u us q.1).1))
        (run_rest-first ts (run_thread t s))
  pull_first (true ∷ bs) t ts u us s l e es p = refl
  pull_first (false ∷ bs) t ts u us s l e es p =
      let r = run_thread u s in
      let q = run_thread t s in
      let (run, same) = swaps (AnyAt-keeps m 0) (light_keeps 0) (light-Any m) t u s l e p in
      pull_first bs t ts (first_of us r.0) (rest_of us) r.1 l
        (first_of-Each (AnyAt m) (Holds 0) us r.0 es) (rest_of-Each (AnyAt m) (Holds 0) us es)
        (run_thread-keeps (AnyAt-keeps m 0) u s e p)
      ∙ ap
          (λ x.
            alternate (drop_first bs) (first_of ts x.0) (rest_of ts) (first_of us r.0) (rest_of us)
              x.1)
          run
      ∙ ap
          (λ b.
            alternate (drop_first bs) (first_of ts q.0) (rest_of ts) (first_of us b) (rest_of us)
              (run_thread u q.1).1)
          (sym same)

  pub pull_second :
      (bs : List Bool) (n : ℕ) (t : Thread S A) (ts : List (A → Thread S A)) (u : Thread S B)
      (us : List (B → Thread S B)) (s : S)
      → Lights (LightAt n) u
      → Each (Any m) (Holds n) t
      → AllEach (Any m) (Holds n) ts
      → Holds n s
      → alternate bs t ts u us s ≡ alternate (false ∷ drop_second bs) t ts u us s
  unfolding alternate drop_second
  pull_second [] n t ts u us s l e es p =
      let q = run_thread u s in
      let (run, same) =
        swaps_all (Any-keeps m n) (light_at_keeps n n) (Any-light m n) u ts t s l e es p in
      ap
        (λ (a : A). ((a, (run_all u us (run_all t ts s).1).0), (run_all u us (run_all t ts s).1).1))
        (sym same)
      ∙ ap (λ (x : B × S). (((run_all t ts q.1).0, (run_rest us x).0), (run_rest us x).1)) run
      ∙ ap (λ (x : B × S). (((run_all t ts q.1).0, x.0), x.1))
          (run_rest-first us (q.0, (run_all t ts q.1).1))
  pull_second (false ∷ bs) n t ts u us s l e es p = refl
  pull_second (true ∷ bs) n t ts u us s l e es p =
      let r = run_thread t s in
      let q = run_thread u s in
      let (run, same) = swaps (Any-keeps m n) (light_at_keeps n n) (Any-light m n) u t s l e p in
      pull_second bs n (first_of ts r.0) (rest_of ts) u us r.1 l
        (first_of-Each (Any m) (Holds n) ts r.0 es) (rest_of-Each (Any m) (Holds n) ts es)
        (run_thread-keeps (Any-keeps m n) t s e p)
      ∙ ap
          (λ x.
            alternate (drop_second bs) (first_of ts r.0) (rest_of ts) (first_of us x.0) (rest_of us)
              x.1)
          run
      ∙ ap
          (λ a.
            alternate (drop_second bs) (first_of ts a) (rest_of ts) (first_of us q.0) (rest_of us)
              (run_thread t q.1).1)
          (sym same)

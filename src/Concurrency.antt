-- ===== src/Concurrency.antt =====
-- Goroutines over one shared state: what each of them does between two statements is its own, and the
-- statements of two of them take turns in any order.
pub mod Movers
pub mod Classes
pub mod Reduction
pub mod Serial
pub mod Apart
use axm_sfn.Common.{Bool, true, false, List, [], ◌∷◌}

-- It has returned, or the state is changed by its next statement, whose answer tells how it goes on.
pub data Thread (S : Type 0) (A : Type 0) : Type 0 where
  returns : A → Thread S A
  executes : (S → S) → (S → Thread S A) → Thread S A

-- A statement with its answer.
abbrev pub calls : {S A R : Type 0} → (S → R × S) → (R → Thread S A) → Thread S A
calls statement go = executes (λ s. (statement s).1) (λ s. go (statement s).0)

-- A statement that only reads.
abbrev pub reads : {S A R : Type 0} → (S → R) → (R → Thread S A) → Thread S A
reads query go = executes (λ s. s) (λ s. go (query s))

-- A thread alone, to its end.
unfoldable pub run_thread : {S A : Type 0} → Thread S A → S → A × S
run_thread (returns a) s = (a, s)
run_thread (executes act next) s = run_thread (next s) (act s)

-- The next thread of a goroutine, begun with what the one before returned, and those behind it.
abbrev pub first_of : {S A : Type 0} → List (A → Thread S A) → A → Thread S A
first_of [] a = returns a
first_of (f ∷ fs) a = f a

abbrev pub rest_of : {S A : Type 0} → List (A → Thread S A) → List (A → Thread S A)
rest_of [] = []
rest_of (f ∷ fs) = fs

-- A goroutine alone: the thread that it is in, and the others behind it.
unfoldable pub run_rest : {S A : Type 0} → List (A → Thread S A) → A × S → A × S
run_rest [] r = r
run_rest (f ∷ fs) (a, s) = run_rest fs (run_thread (f a) s)

abbrev pub run_all : {S A : Type 0} → Thread S A → List (A → Thread S A) → S → A × S
run_all t ts s = run_rest ts (run_thread t s)

module _ {S A B : Type 0} where
  abbrev pub run_both :
      Thread S A → List (A → Thread S A) → Thread S B → List (B → Thread S B) → S → (A × B) × S
  run_both t ts u us s =
      let (a, s1) = run_all t ts s in let (b, s2) = run_all u us s1 in ((a, b), s2)

  -- Two goroutines, by a schedule of their statements (`true` is the first's); where it ends, both run to
  -- their ends.
  unfoldable pub interleave :
      List Bool
      → Thread S A
      → List (A → Thread S A)
      → Thread S B
      → List (B → Thread S B)
      → S
      → (A × B) × S
  interleave [] t ts u us s = run_both t ts u us s
  interleave (true ∷ bs) (executes act next) ts u us s = interleave bs (next s) ts u us (act s)
  interleave (true ∷ bs) (returns a) ts u us s = interleave bs (first_of ts a) (rest_of ts) u us s
  interleave (false ∷ bs) t ts (executes act next) us s = interleave bs t ts (next s) us (act s)
  interleave (false ∷ bs) t ts (returns b) us s = interleave bs t ts (first_of us b) (rest_of us) s

  -- The same with each thread, or what is left of it, in one piece.
  unfoldable pub alternate :
      List Bool
      → Thread S A
      → List (A → Thread S A)
      → Thread S B
      → List (B → Thread S B)
      → S
      → (A × B) × S
  alternate [] t ts u us s = run_both t ts u us s
  alternate (true ∷ bs) t ts u us s =
      alternate bs (first_of ts (run_thread t s).0) (rest_of ts) u us (run_thread t s).1
  alternate (false ∷ bs) t ts u us s =
      alternate bs t ts (first_of us (run_thread u s).0) (rest_of us) (run_thread u s).1

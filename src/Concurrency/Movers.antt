-- ===== src/Concurrency/Movers.antt =====
-- Statements that commute with those of the other goroutine. A thread with one statement at most that does
-- not may be taken to run in one piece, at the time of that statement.
use axm_sfn.Common.{◌≡◌, refl, sym, ap, ◌∙◌, List, [], ◌∷◌, All}
use axm_sfn.Concurrency.{Thread, returns, executes, run_thread, run_all, run_rest}

-- The two orders come to the same, and neither statement sees the other.
abbrev pub Commute :
    {S A B : Type 0}
    → (S → Type 0)
    → (S → S)
    → (S → Thread S A)
    → (S → S)
    → (S → Thread S B)
    → Type 0
Commute {S} P act next act' next' =
    (s : S)
    → P s
    → (act' (act s) ≡ act (act' s)) × (next (act' s) ≡ next s) × (next' (act s) ≡ next' s)

-- Every statement of the thread is of the class.
pub data Each {S X : Type 0} (C : (S → S) → (S → Thread S X) → Type 0) (P : S → Type 0)
    : Thread S X → Type 0 where
  stops : {x : X} → Each C P (returns x)
  goes :
      {act : S → S} {next : S → Thread S X}
      → C act next
      → ((s : S) → P s → Each C P (next s))
      → Each C P (executes act next)

-- The same, in every state.
pub data Lights {S X : Type 0} (C : (S → S) → (S → Thread S X) → Type 0) : Thread S X → Type 0 where
  stops : {x : X} → Lights C (returns x)
  goes :
      {act : S → S} {next : S → Thread S X}
      → C act next
      → ((s : S) → Lights C (next s))
      → Lights C (executes act next)

module _ {S X : Type 0} {C D : (S → S) → (S → Thread S X) → Type 0} {P : S → Type 0} where
  pub Lights-Each :
      {t : Thread S X}
      → ((act : S → S) (next : S → Thread S X) → C act next → D act next)
      → Lights C t
      → Each D P t
  Lights-Each f Lights.stops = Each.stops
  Lights-Each f (Lights.goes c next) = Each.goes (f _ _ c) (λ s p. Lights-Each f (next s))

abbrev pub AllEach :
    {S B : Type 0}
    → ((S → S) → (S → Thread S B) → Type 0)
    → (S → Type 0)
    → List (B → Thread S B)
    → Type 0
AllEach {B} C P us = All (λ f. (b : B) → Each C P (f b)) us

-- What the class keeps, its threads keep.
abbrev pub Keeps : {S X : Type 0} → ((S → S) → (S → Thread S X) → Type 0) → (S → Type 0) → Type 0
Keeps {S} {X} C P = (act : S → S) (next : S → Thread S X) → C act next → (s : S) → P s → P (act s)

module _ {S B : Type 0} {C : (S → S) → (S → Thread S B) → Type 0} {P : S → Type 0}
    (kept : Keeps C P) where
  pub run_thread-keeps : (u : Thread S B) (s : S) → Each C P u → P s → P (run_thread u s).1
  unfolding run_thread
  run_thread-keeps (returns b) s Each.stops p = p
  run_thread-keeps (executes act next) s (Each.goes c later) p =
      run_thread-keeps (next s) (act s) (later s p) (kept act next c s p)

  module _ {A : Type 0} (act : S → S) (next : S → Thread S A)
      (commute : (a : S → S) (k : S → Thread S B) → C a k → Commute P act next a k) where
    -- A statement that commutes with each statement of a thread commutes with the thread.
    pub passes :
        (u : Thread S B) (s : S)
        → Each C P u
        → P s
        → (run_thread u (act s) ≡ ((run_thread u s).0, act (run_thread u s).1))
          × (next (run_thread u s).1 ≡ next s)
    unfolding run_thread
    passes (returns b) s Each.stops p = (refl, refl)
    passes (executes a k) s (Each.goes c later) p =
        let (swap, same, other) = commute a k c s p in
        let (run, unseen) = passes (k s) (a s) (later s p) (kept a k c s p) in
        (ap (λ t. run_thread t (a (act s))) other ∙ ap (run_thread (k s)) swap ∙ run, unseen ∙ same)

    pub passes_all :
        (us : List (B → Thread S B)) (u : Thread S B) (s : S)
        → Each C P u
        → AllEach C P us
        → P s
        → (run_all u us (act s) ≡ ((run_all u us s).0, act (run_all u us s).1))
          × (next (run_all u us s).1 ≡ next s)
    unfolding run_rest
    passes_all [] u s e es p = passes u s e p
    passes_all (f ∷ us) u s e (g, gs) p =
        let (run, unseen) = passes u s e p in
        let (rest, still) =
          passes_all us (f (run_thread u s).0) (run_thread u s).1 (g _) gs
            (run_thread-keeps u s e p) in
        (ap (λ r. run_all (f r.0) us r.1) run ∙ rest, still ∙ unseen)

  module _ {A : Type 0} {L : (S → S) → (S → Thread S A) → Type 0} (kept_lights : Keeps L P)
      (commute : (act : S → S) (next : S → Thread S A)
        → L act next
        → (a : S → S) (k : S → Thread S B) → C a k
        → Commute P act next a k) where
    -- A thread of such statements may run before or after the other.
    pub swaps :
        (t : Thread S A) (u : Thread S B) (s : S)
        → Lights L t
        → Each C P u
        → P s
        → (run_thread t (run_thread u s).1
            ≡ ((run_thread t s).0, (run_thread u (run_thread t s).1).1))
          × ((run_thread u (run_thread t s).1).0 ≡ (run_thread u s).0)
    unfolding run_thread
    swaps (returns a) u s Lights.stops e p = (refl, refl)
    swaps (executes act next) u s (Lights.goes c later) e p =
        let (run, unseen) = passes act next (commute act next c) u s e p in
        let (rest, other) = swaps (next s) u (act s) (later s) e (kept_lights act next c s p) in
        (
          ap (λ t. run_thread t (act (run_thread u s).1)) unseen
              ∙ ap (λ r. run_thread (next s) r.1) (sym run)
              ∙ rest,
          other ∙ ap (λ r. r.0) run,
        )

    pub swaps_all :
        (t : Thread S A) (us : List (B → Thread S B)) (u : Thread S B) (s : S)
        → Lights L t
        → Each C P u
        → AllEach C P us
        → P s
        → (run_thread t (run_all u us s).1
            ≡ ((run_thread t s).0, (run_all u us (run_thread t s).1).1))
          × ((run_all u us (run_thread t s).1).0 ≡ (run_all u us s).0)
    unfolding run_thread
    swaps_all (returns a) us u s Lights.stops e es p = (refl, refl)
    swaps_all (executes act next) us u s (Lights.goes c later) e es p =
        let (run, unseen) = passes_all act next (commute act next c) us u s e es p in
        let (rest, other) =
          swaps_all (next s) us u (act s) (later s) e es (kept_lights act next c s p) in
        (
          ap (λ t. run_thread t (act (run_all u us s).1)) unseen
              ∙ ap (λ r. run_thread (next s) r.1) (sym run)
              ∙ rest,
          other ∙ ap (λ r. r.0) run,
        )

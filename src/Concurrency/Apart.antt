-- ===== src/Concurrency/Apart.antt =====
-- A goroutine that goes by a part of the state which the other leaves alone: it comes to what it would
-- come to alone.
use axm_sfn.Common.{◌≡◌, refl, sym, ◌∙◌, subst, Bool, true, false, List, [], ◌∷◌}
use axm_sfn.Concurrency.{
  Thread, returns, executes, run_thread, first_of, rest_of, run_rest, run_all, interleave,
}
use axm_sfn.Concurrency.Movers.{Each, Keeps, AllEach, run_thread-keeps}
use axm_sfn.Concurrency.Reduction.{run_rest-first, first_of-Each, rest_of-Each}

module _ {S V : Type 0} (view : S → V) where
  -- The same answer, and the same part of the state.
  abbrev pub Same : {A : Type 0} → A × S → A × S → Type 0
  Same (a, s) (a', s') = (a ≡ a') × (view s ≡ view s')

module _ {S V A : Type 0} (view : S → V) {C : (S → S) → (S → Thread S A) → Type 0} {P : S → Type 0}
    (kept : Keeps C P)
    (sees : (act : S → S) (next : S → Thread S A)
      → C act next
      → (s s' : S) → view s ≡ view s'
      → (next s ≡ next s') × (view (act s) ≡ view (act s'))) where
  run_thread-Same :
      (t : Thread S A) (s s' : S)
      → Each C P t
      → P s
      → view s ≡ view s'
      → Same view (run_thread t s) (run_thread t s')
  unfolding run_thread
  run_thread-Same (returns a) s s' Each.stops p v = (refl, v)
  run_thread-Same (executes act next) s s' (Each.goes c later) p v =
      let (same, after) = sees act next c s s' v in
      subst (λ t. Same view (run_thread (next s) (act s)) (run_thread t (act s'))) same
        (run_thread-Same (next s) (act s) (act s') (later s p) (kept act next c s p) after)

  run_rest-Same :
      (ts : List (A → Thread S A)) (a a' : A) (s s' : S)
      → AllEach C P ts
      → P s
      → a ≡ a'
      → view s ≡ view s'
      → Same view (run_rest ts (a, s)) (run_rest ts (a', s'))
  unfolding run_rest
  run_rest-Same [] a a' s s' es p e v = (e, v)
  run_rest-Same (f ∷ ts) a a' s s' (g, es) p e v =
      let (answers, states) = run_thread-Same (f a) s s' (g a) p v in
      subst (λ x. Same view (run_rest ts (run_thread (f a) s)) (run_rest ts (run_thread (f x) s')))
        e (run_rest-Same ts _ _ _ _ es (run_thread-keeps kept (f a) s (g a) p) answers states)

  pub run_all-Same :
      (t : Thread S A) (ts : List (A → Thread S A)) (s s' : S)
      → Each C P t
      → AllEach C P ts
      → P s
      → view s ≡ view s'
      → Same view (run_all t ts s) (run_all t ts s')
  run_all-Same t ts s s' e es p v =
      let (answers, states) = run_thread-Same t s s' e p v in
      run_rest-Same ts _ _ _ _ es (run_thread-keeps kept t s e p) answers states

module _ {S V B : Type 0} (view : S → V) {D : (S → S) → (S → Thread S B) → Type 0} {P : S → Type 0}
    (kept : Keeps D P)
    (leaves : (act : S → S) (next : S → Thread S B)
      → D act next
      → (s : S) → view (act s) ≡ view s) where
  run_thread-view : (u : Thread S B) (s : S) → Each D P u → P s → view (run_thread u s).1 ≡ view s
  unfolding run_thread
  run_thread-view (returns b) s Each.stops p = refl
  run_thread-view (executes act next) s (Each.goes c later) p =
      run_thread-view (next s) (act s) (later s p) (kept act next c s p) ∙ leaves act next c s

  run_rest-view :
      (us : List (B → Thread S B)) (b : B) (s : S)
      → AllEach D P us
      → P s
      → view (run_rest us (b, s)).1 ≡ view s
  unfolding run_rest
  run_rest-view [] b s es p = refl
  run_rest-view (f ∷ us) b s (e, es) p =
      run_rest-view us _ _ es (run_thread-keeps kept (f b) s (e b) p)
      ∙ run_thread-view (f b) s (e b) p

  pub run_all-view :
      (u : Thread S B) (us : List (B → Thread S B)) (s : S)
      → Each D P u
      → AllEach D P us
      → P s
      → view (run_all u us s).1 ≡ view s
  run_all-view u us s e es p =
      run_rest-view us _ _ es (run_thread-keeps kept u s e p) ∙ run_thread-view u s e p

module _ {S X : Type 0} {C : (S → S) → (S → Thread S X) → Type 0} {P : S → Type 0}
    (kept : Keeps C P) where
  run_rest-keeps :
      (ts : List (X → Thread S X)) (a : X) (s : S) → AllEach C P ts → P s → P (run_rest ts (a, s)).1
  unfolding run_rest
  run_rest-keeps [] a s es p = p
  run_rest-keeps (f ∷ ts) a s (e, es) p =
      run_rest-keeps ts _ _ es (run_thread-keeps kept (f a) s (e a) p)

  pub run_all-keeps :
      (t : Thread S X) (ts : List (X → Thread S X)) (s : S)
      → Each C P t
      → AllEach C P ts
      → P s
      → P (run_all t ts s).1
  run_all-keeps t ts s e es p = run_rest-keeps ts _ _ es (run_thread-keeps kept t s e p)

module _ {S V A B : Type 0} (view : S → V) {C : (S → S) → (S → Thread S A) → Type 0}
    {D : (S → S) → (S → Thread S B) → Type 0} {P : S → Type 0} (kept : Keeps C P)
    (kept' : Keeps D P)
    (sees : (act : S → S) (next : S → Thread S A)
      → C act next
      → (s s' : S) → view s ≡ view s'
      → (next s ≡ next s') × (view (act s) ≡ view (act s')))
    (leaves : (act : S → S) (next : S → Thread S B)
      → D act next
      → (s : S) → view (act s) ≡ view s) where
  -- What the first goroutine comes to beside the second, and alone.
  pub interleave-Same :
      (bs : List Bool) (t : Thread S A) (ts : List (A → Thread S A)) (u : Thread S B)
      (us : List (B → Thread S B)) (s s' : S)
      → Each C P t
      → AllEach C P ts
      → Each D P u
      → AllEach D P us
      → P s
      → view s ≡ view s'
      → let end = interleave bs t ts u us s in
        (P end.1) × Same view (end.0.0, end.1) (run_all t ts s')
  unfolding interleave run_thread
  interleave-Same [] t ts u us s s' e es g gs p v =
      let (answers, states) = run_all-Same view kept sees t ts s s' e es p v in
      let q = run_all-keeps kept t ts s e es p in
      (
        run_all-keeps kept' u us (run_all t ts s).1 g gs q,
        (answers, run_all-view view kept' leaves u us (run_all t ts s).1 g gs q ∙ states),
      )
  interleave-Same (true ∷ bs) (returns a) ts u us s s' e es g gs p v =
      let end = interleave bs (first_of ts a) (rest_of ts) u us s in
      subst (λ r. (P end.1) × Same view (end.0.0, end.1) r) (sym (run_rest-first ts (a, s')))
        (interleave-Same bs (first_of ts a) (rest_of ts) u us s s' (first_of-Each C P ts a es)
          (rest_of-Each C P ts es) g gs p v)
  interleave-Same (true ∷ bs) (executes act next) ts u us s s' (Each.goes c later) es g gs p v =
      let end = interleave bs (next s) ts u us (act s) in
      let (same, after) = sees act next c s s' v in
      subst (λ t. (P end.1) × Same view (end.0.0, end.1) (run_all t ts (act s'))) same
        (interleave-Same bs (next s) ts u us (act s) (act s') (later s p) es g gs
          (kept act next c s p) after)
  interleave-Same (false ∷ bs) t ts (returns b) us s s' e es g gs p v =
      interleave-Same bs t ts (first_of us b) (rest_of us) s s' e es (first_of-Each D P us b gs)
        (rest_of-Each D P us gs) p v
  interleave-Same (false ∷ bs) t ts (executes act next) us s s' e es (Each.goes c later) gs p v =
      interleave-Same bs t ts (next s) us (act s) s' e es (later s p) gs (kept' act next c s p)
        (leaves act next c s ∙ v)

-- ===== src/Concurrency/Classes.antt =====
-- The statements of two goroutines, by whether they commute with all of the other's, and threads with at
-- most one statement that does not.
use axm_sfn.Common.{ℕ, ◌⊎◌, inl, inr, sym, List, [], ◌∷◌, All}
use axm_sfn.Concurrency.{Thread, returns, executes, first_of, rest_of}
use axm_sfn.Concurrency.Movers.{Commute, Each, Lights, Lights-Each, Keeps, AllEach}

-- The statements of the two goroutines. Those of the first commute with those of the second but for one of
-- each, its heavy one. A light statement of the second is one that goes by an answer with a bound, and the
-- states are those in which the bound holds.
pub record Movers (S A B : Type 0) : Type 1 where
  pub Holds : ℕ → S → Type 0
  pub Light : (S → S) → (S → Thread S A) → Type 0
  pub Heavy : (S → S) → (S → Thread S A) → Type 0
  pub LightAt : ℕ → (S → S) → (S → Thread S B) → Type 0
  pub HeavyAt : (S → S) → (S → Thread S B) → Type 0
  pub bound : S → ℕ
  pub weaken : (n : ℕ) (s : S) → Holds n s → Holds 0 s
  pub bounded : (s : S) → Holds 0 s → Holds (bound s) s
  pub light_keeps : (n : ℕ) → Keeps Light (Holds n)
  pub heavy_keeps : (n : ℕ) → Keeps Heavy (Holds n)
  pub light_at_keeps : (n m : ℕ) → Keeps (LightAt m) (Holds n)
  pub heavy_at_keeps : (n : ℕ) → Keeps HeavyAt (Holds n)
  pub light_heavy :
      (act : S → S) (next : S → Thread S A)
      → Light act next
      → (a : S → S) (k : S → Thread S B) → HeavyAt a k
      → Commute (Holds 0) act next a k
  pub light_light :
      (act : S → S) (next : S → Thread S A)
      → Light act next
      → (n : ℕ) (a : S → S) (k : S → Thread S B) → LightAt n a k
      → Commute (Holds 0) act next a k
  pub heavy_light :
      (act : S → S) (next : S → Thread S A)
      → Heavy act next
      → (n : ℕ) (a : S → S) (k : S → Thread S B) → LightAt n a k
      → Commute (Holds n) act next a k

module _ {S A B : Type 0} (m : Movers S A B) where
  open m use {
    Holds, Light, Heavy, LightAt, HeavyAt, bound, weaken, bounded, light_keeps, heavy_keeps,
    light_at_keeps, heavy_at_keeps, light_heavy, light_light, heavy_light,
  }

  -- Light statements, then a heavy one, then light ones.
  pub data First : Thread S A → Type 0 where
    stops : {a : A} → First (returns a)
    goes :
        {act : S → S} {next : S → Thread S A}
        → Light act next
        → ((s : S) → First (next s))
        → First (executes act next)
    turns :
        {act : S → S} {next : S → Thread S A}
        → Heavy act next
        → ((s : S) → Lights Light (next s))
        → First (executes act next)

  -- A heavy statement, then light ones with the bound that it found.
  pub data Second : Thread S B → Type 0 where
    stops : {b : B} → Second (returns b)
    turns :
        {act : S → S} {next : S → Thread S B}
        → HeavyAt act next
        → ((s : S) → Holds 0 s → Lights (LightAt (bound s)) (next s))
        → Second (executes act next)

  -- The threads to come, whatever they begin with.
  abbrev pub AllFirst : List (A → Thread S A) → Type 0
  AllFirst ts = All (λ f. (a : A) → First (f a)) ts

  abbrev pub AllSecond : List (B → Thread S B) → Type 0
  AllSecond us = All (λ f. (b : B) → Second (f b)) us

  abbrev pub Any : (S → S) → (S → Thread S A) → Type 0
  Any act next = Light act next ⊎ Heavy act next

  abbrev pub AnyAt : (S → S) → (S → Thread S B) → Type 0
  AnyAt act next = HeavyAt act next ⊎ ((n : ℕ) × LightAt n act next)

  pub First-Each : (n : ℕ) (t : Thread S A) → First t → Each Any (Holds n) t
  First-Each n (returns a) First.stops = Each.stops
  First-Each n (executes act next) (First.goes l later) =
      Each.goes (inl l) (λ s p. First-Each n (next s) (later s))
  First-Each n (executes act next) (First.turns c later) =
      Each.goes (inr c) (λ s p. Lights-Each (λ a k l. inl l) (later s))

  pub Second-Each : (u : Thread S B) → Second u → Each AnyAt (Holds 0) u
  Second-Each (returns b) Second.stops = Each.stops
  Second-Each (executes act next) (Second.turns c later) =
      Each.goes (inl c) (λ s p. Lights-Each (λ a k l. inr (_, l)) (later s p))

  pub Lights-First : (t : Thread S A) → Lights Light t → First t
  Lights-First (returns a) Lights.stops = First.stops
  Lights-First (executes act next) (Lights.goes l later) =
      First.goes l (λ s. Lights-First (next s) (later s))

  pub Any-keeps : (n : ℕ) → Keeps Any (Holds n)
  Any-keeps n act next (inl l) s p = light_keeps n act next l s p
  Any-keeps n act next (inr c) s p = heavy_keeps n act next c s p

  pub AnyAt-keeps : (n : ℕ) → Keeps AnyAt (Holds n)
  AnyAt-keeps n act next (inl c) s p = heavy_at_keeps n act next c s p
  AnyAt-keeps n act next (inr (m, l)) s p = light_at_keeps n m act next l s p

  pub light-Any :
      (act : S → S) (next : S → Thread S A)
      → Light act next
      → (a : S → S) (k : S → Thread S B) → AnyAt a k
      → Commute (Holds 0) act next a k
  light-Any act next l a k (inl c) = light_heavy act next l a k c
  light-Any act next l a k (inr (n, r)) = light_light act next l n a k r

  pub Any-light :
      (n : ℕ) (a : S → S) (k : S → Thread S B)
      → LightAt n a k
      → (act : S → S) (next : S → Thread S A) → Any act next
      → Commute (Holds n) a k act next
  Any-light n a k r act next (inl l) s p =
      let (swap, same, other) = light_light act next l n a k r s (weaken n s p) in
      (sym swap, other, same)
  Any-light n a k r act next (inr c) s p =
      let (swap, same, other) = heavy_light act next c n a k r s p in (sym swap, other, same)

  pub AllFirst-Each : (n : ℕ) (ts : List (A → Thread S A)) → AllFirst ts → AllEach Any (Holds n) ts
  AllFirst-Each n [] es = tt
  AllFirst-Each n (f ∷ ts) (e, es) = ((λ a. First-Each n (f a) (e a)), AllFirst-Each n ts es)

  pub AllSecond-Each : (us : List (B → Thread S B)) → AllSecond us → AllEach AnyAt (Holds 0) us
  AllSecond-Each [] es = tt
  AllSecond-Each (f ∷ us) (e, es) = ((λ b. Second-Each (f b) (e b)), AllSecond-Each us es)

  pub first_of-First : (ts : List (A → Thread S A)) (a : A) → AllFirst ts → First (first_of ts a)
  first_of-First [] a es = First.stops
  first_of-First (f ∷ ts) a (e, es) = e a

  pub rest_of-AllFirst : (ts : List (A → Thread S A)) → AllFirst ts → AllFirst (rest_of ts)
  rest_of-AllFirst [] es = tt
  rest_of-AllFirst (f ∷ ts) (e, es) = es

  pub first_of-Second : (us : List (B → Thread S B)) (b : B) → AllSecond us → Second (first_of us b)
  first_of-Second [] b es = Second.stops
  first_of-Second (f ∷ us) b (e, es) = e b

  pub rest_of-AllSecond : (us : List (B → Thread S B)) → AllSecond us → AllSecond (rest_of us)
  rest_of-AllSecond [] es = tt
  rest_of-AllSecond (f ∷ us) (e, es) = es

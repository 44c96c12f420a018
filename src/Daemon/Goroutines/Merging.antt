-- ===== src/Daemon/Goroutines/Merging.antt =====
-- cmd/axm-edge/main.go, runDaemon: threads that run one after the other, against whole events.
use axm_sfn.Common.{
  ◌≡◌, refl, sym, ap, ◌∙◌, subst, Bool, true, false, List, [], ◌∷◌, Option, none, some,
}
use axm_sfn.Common.Text.{Bytes}
use axm_sfn.Floats.{Float64}
use axm_sfn.Concurrency.{Thread, run_thread, first_of, rest_of, run_rest, run_all, alternate}
use axm_sfn.Concurrency.Reduction.{run_rest-first}
use axm_sfn.HotBuffer.Tables.{Buffer}
use axm_sfn.Custody.State.{Packetizer, Hashes}
use axm_sfn.Custody.Delta.{Unmarshal}
use axm_sfn.Custody.Run.{Event}
use axm_sfn.Custody.Threads.{event_thread}
use axm_sfn.Custody.Threads.Whole.{run_thread-event_thread}
use axm_sfn.Uploader.Flush.{Uploader, FlushEnv}
use axm_sfn.Uploader.Flush.Threads.{
  Answer, with_answer, flush_thread, next_flush, run_thread-flush_thread,
}
use axm_sfn.Daemon.{DaemonEvent, custody, upload, upload_session, flushed, step, run_daemon}
use axm_sfn.Daemon.Goroutines.{custody_threads, upload_threads}

module _ {Raw F : Type 0} where
  -- The events of each goroutine, in order.
  abbrev pub custody_of : List (DaemonEvent Raw F) → List (Event Raw F)
  custody_of [] = []
  custody_of (custody e ∷ xs) = e ∷ custody_of xs
  custody_of (upload env ∷ xs) = custody_of xs

  abbrev pub uploads_of : List (DaemonEvent Raw F) → List FlushEnv
  uploads_of [] = []
  uploads_of (custody e ∷ xs) = uploads_of xs
  uploads_of (upload env ∷ xs) = env ∷ uploads_of xs

-- The state after both goroutines; `none` means that a flush did not return.
abbrev pub outcome :
    {F : Type 0} → (Packetizer F × Answer) × Buffer → Option (Packetizer F × Buffer)
outcome ((p, none), b) = none
outcome ((p, some e), b) = some (p, b)

module _ {Raw F : Type 0} ⦃fl : Float64 F⦄ (h : Hashes) (decode : Unmarshal Raw F) (u : Uploader)
    (label : Bytes) where
  abbrev pub ticks : List (Event Raw F) → List (Packetizer F → Thread Buffer (Packetizer F))
  ticks = custody_threads h decode u label

  abbrev pub flushes : List FlushEnv → List (Answer → Thread Buffer Answer)
  flushes = upload_threads h decode u label

  abbrev pub event : Event Raw F → Packetizer F → Thread Buffer (Packetizer F)
  event = event_thread h decode

  abbrev pub next : FlushEnv → Answer → Thread Buffer Answer
  next env = next_flush h.blake3 u env (upload_session label)

  run_daemon-none : (xs : List (DaemonEvent Raw F)) → run_daemon h decode u label xs none ≡ none
  unfolding run_daemon
  run_daemon-none [] = refl
  run_daemon-none (x ∷ xs) = refl

  -- A whole event takes the state where its thread does.
  step-event :
      (e : Event Raw F) (xs : List (DaemonEvent Raw F)) (p : Packetizer F) (r : Answer) (b : Buffer)
      → run_daemon h decode u label (custody e ∷ xs) (outcome ((p, r), b))
        ≡ run_daemon h decode u label xs
            (outcome (((run_thread (event e p) b).0, r), (run_thread (event e p) b).1))
  unfolding run_daemon step
  step-event e xs p none b = sym (run_daemon-none xs)
  step-event e xs p (some x) b =
      ap (λ s. run_daemon h decode u label xs (some (s.0, s.1)))
        (sym (run_thread-event_thread h decode e p b))

  flushed-with_answer :
      (p : Packetizer F) (s : Answer × Buffer) → flushed p (with_answer s) ≡ outcome ((p, s.0), s.1)
  flushed-with_answer p (none, b) = refl
  flushed-with_answer p (some e, b) = refl

  step-flush :
      (env : FlushEnv) (xs : List (DaemonEvent Raw F)) (p : Packetizer F) (r : Answer) (b : Buffer)
      → run_daemon h decode u label (upload env ∷ xs) (outcome ((p, r), b))
        ≡ run_daemon h decode u label xs
            (outcome ((p, (run_thread (next env r) b).0), (run_thread (next env r) b).1))
  unfolding run_daemon step next_flush run_thread
  step-flush env xs p none b = sym (run_daemon-none xs)
  step-flush env xs p (some x) b =
      let session = upload_session label in
      ap (λ o. run_daemon h decode u label xs (flushed p o))
        (sym (run_thread-flush_thread h.blake3 u env session b))
      ∙ ap (run_daemon h decode u label xs)
          (flushed-with_answer p (run_thread (flush_thread h.blake3 u env session) b))

  -- Some sequence of the events ends in the state.
  abbrev pub Merges :
      List (Event Raw F)
      → List FlushEnv
      → (Packetizer F × Answer) × Buffer
      → (Packetizer F × Answer) × Buffer
      → Type 0
  Merges es envs s end =
      (xs : List (DaemonEvent Raw F)) × (custody_of xs ≡ es)
      × (uploads_of xs ≡ envs)
      × (run_daemon h decode u label xs (outcome s) ≡ outcome end)

  event-Merges :
      (e : Event Raw F) (es : List (Event Raw F)) (envs : List FlushEnv) (p : Packetizer F)
      (r : Answer) (b : Buffer) (end : (Packetizer F × Answer) × Buffer)
      → Merges es envs (((run_thread (event e p) b).0, r), (run_thread (event e p) b).1) end
      → Merges (e ∷ es) envs ((p, r), b) end
  event-Merges e es envs p r b end (xs, c, d, m) =
      (custody e ∷ xs, ap (λ l. e ∷ l) c, d, step-event e xs p r b ∙ m)

  flush-Merges :
      (env : FlushEnv) (es : List (Event Raw F)) (envs : List FlushEnv) (p : Packetizer F)
      (r : Answer) (b : Buffer) (end : (Packetizer F × Answer) × Buffer)
      → Merges es envs ((p, (run_thread (next env r) b).0), (run_thread (next env r) b).1) end
      → Merges es (env ∷ envs) ((p, r), b) end
  flush-Merges env es envs p r b end (xs, c, d, m) =
      (upload env ∷ xs, c, ap (λ l. env ∷ l) d, step-flush env xs p r b ∙ m)

  -- The loops from here on, each thread in one piece.
  abbrev pub alternates :
      List Bool
      → List (Event Raw F)
      → List FlushEnv
      → Packetizer F
      → Answer
      → Buffer
      → (Packetizer F × Answer) × Buffer
  alternates cs es envs p r b =
      alternate cs (first_of (ticks es) p) (rest_of (ticks es)) (first_of (flushes envs) r)
        (rest_of (flushes envs)) b

  drained-Merges :
      (envs : List FlushEnv) (p : Packetizer F) (r : Answer) (b : Buffer)
      → Merges [] envs ((p, r), b) (alternates [] [] envs p r b)
  unfolding alternate run_rest run_thread run_daemon
  drained-Merges [] p r b = ([], refl, refl, refl)
  drained-Merges (env ∷ envs) p r b =
      let us = flushes envs in
      let s = run_thread (next env r) b in
      subst (λ (x : Answer × Buffer). Merges [] (env ∷ envs) ((p, r), b) ((p, x.0), x.1))
        (sym (run_rest-first us s))
        (flush-Merges env [] envs p r b _ (drained-Merges envs p s.0 s.1))

  rest-Merges :
      (es : List (Event Raw F)) (envs : List FlushEnv) (p : Packetizer F) (r : Answer) (b : Buffer)
      → Merges es envs ((p, r), b) (alternates [] es envs p r b)
  unfolding alternate run_rest run_thread
  rest-Merges [] envs p r b = drained-Merges envs p r b
  rest-Merges (e ∷ es) envs p r b =
      let us = rest_of (flushes envs) in
      let first = first_of (flushes envs) r in
      let s = run_thread (event e p) b in
      subst
        (λ (x : Packetizer F × Buffer).
          Merges (e ∷ es) envs ((p, r), b)
            ((x.0, (run_all first us x.1).0), (run_all first us x.1).1))
        (sym (run_rest-first (ticks es) s))
        (event-Merges e es envs p r b _ (rest-Merges es envs s.0 r s.1))

  pub alternate-Merges :
      (cs : List Bool) (es : List (Event Raw F)) (envs : List FlushEnv) (p : Packetizer F)
      (r : Answer) (b : Buffer)
      → Merges es envs ((p, r), b) (alternates cs es envs p r b)
  unfolding alternate run_thread
  alternate-Merges [] es envs p r b = rest-Merges es envs p r b
  alternate-Merges (true ∷ cs) [] envs p r b = alternate-Merges cs [] envs p r b
  alternate-Merges (true ∷ cs) (e ∷ es) envs p r b =
      event-Merges e es envs p r b _ (alternate-Merges cs es envs _ r _)
  alternate-Merges (false ∷ cs) es [] p r b = alternate-Merges cs es [] p r b
  alternate-Merges (false ∷ cs) es (env ∷ envs) p r b =
      flush-Merges env es envs p r b _ (alternate-Merges cs es envs p _ _)

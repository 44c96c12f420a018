-- ===== src/Daemon/Goroutines/Atomic.antt =====
-- cmd/axm-edge/main.go, runDaemon: what the statements of the two goroutines come to in any order, against
-- the sequences of whole events.
use axm_sfn.Common.{
  ℕ, ◌<◌, ◌^◌, ◌≡◌, refl, sym, ap, ◌∙◌, subst, Bool, List, [], ◌∷◌, Option, none, some, inl, arith,
}
use axm_sfn.Common.Int.{pos}
use axm_sfn.Common.Text.{Bytes}
use axm_sfn.Floats.{Float64}
use axm_sfn.Concurrency.{first_of, rest_of}
use axm_sfn.Concurrency.Classes.{
  First-Each, Any-keeps, first_of-First, rest_of-AllFirst, first_of-Second, rest_of-AllSecond,
}
use axm_sfn.Concurrency.Movers.{run_thread-keeps}
use axm_sfn.Concurrency.Serial.{reduce}
use axm_sfn.HotBuffer.Tables.{Buffer}
use axm_sfn.HotBuffer.Invariant.{IsValid}
use axm_sfn.HotBuffer.Statements.{write_segment-IsValid}
use axm_sfn.Custody.State.{Packetizer, Hashes}
use axm_sfn.Custody.Delta.{Unmarshal}
use axm_sfn.Custody.Run.{Event, handle}
use axm_sfn.Custody.Threads.Whole.{run_thread-event_thread}
use axm_sfn.Uploader.Flush.{Uploader, FlushEnv, FlushError}
use axm_sfn.Uploader.Flush.Drained.{flush-IsDrained}
use axm_sfn.Uploader.Flush.Emptied.{flush-keeps}
use axm_sfn.Uploader.Flush.Threads.{Answer}
use axm_sfn.Daemon.{DaemonEvent, custody, upload, upload_session, flushed, step, run_daemon}
use axm_sfn.Daemon.Goroutines.{run_goroutines}
use axm_sfn.Daemon.Goroutines.Classes.{movers}
use axm_sfn.Daemon.Goroutines.Shapes.{event_thread-Ticks, ticks-AllFirst, flushes-AllSecond}
use axm_sfn.Daemon.Goroutines.Merging.{
  custody_of, uploads_of, outcome, ticks, flushes, event, Merges, alternate-Merges,
}

module _ {Raw F : Type 0} ⦃fl : Float64 F⦄ (h : Hashes) (decode : Unmarshal Raw F) (u : Uploader)
    (label : Bytes) where
  -- With any batch size. Where a flush does not return, one in the sequence does not.
  pub run_goroutines-outcome :
      (bs : List Bool) (es : List (Event Raw F)) (envs : List FlushEnv) (p : Packetizer F)
      (e : Option FlushError) (b : Buffer)
      → IsValid b
      → Merges h decode u label es envs
          ((p, some e), b)
          (run_goroutines h decode u label bs es envs p (some e) b)
  unfolding run_goroutines
  run_goroutines-outcome bs es envs p e b v =
      let m = movers {A = Packetizer F} {B = Answer} in
      let fs = ticks-AllFirst h decode u label es in
      let gs = flushes-AllSecond h decode u label envs in
      let (cs, same) =
        reduce m bs (first_of (ticks h decode u label es) p) (rest_of (ticks h decode u label es))
          (first_of (flushes h decode u label envs) (some e))
          (rest_of (flushes h decode u label envs)) b
          (first_of-First m (ticks h decode u label es) p fs)
          (rest_of-AllFirst m (ticks h decode u label es) fs)
          (inl (first_of-Second m (flushes h decode u label envs) (some e) gs))
          (rest_of-AllSecond m (flushes h decode u label envs) gs) (v, omega arith) in
      let (xs, c, d, run) = alternate-Merges h decode u label cs es envs p (some e) b in
      (xs, c, d, run ∙ ap outcome (sym same))

  handle-IsValid :
      (x : Event Raw F) (p : Packetizer F) (b : Buffer)
      → IsValid b
      → IsValid (handle h decode x p b).1
  handle-IsValid x p b v =
      let m = movers {A = Packetizer F} {B = Answer} in
      let keeps =
        run_thread-keeps (Any-keeps m 0) (event h decode u label x p) b
          (First-Each m 0 (event h decode u label x p) (event_thread-Ticks h decode x p))
          (v, omega arith) in
      subst (λ (s : Packetizer F × Buffer). IsValid s.1) (run_thread-event_thread h decode x p b)
        keeps.0

  module _ (m : ℕ) (size : u.batch_size ≡ pos m) (small : m < 2 ^ 63) where
    -- On valid tables a sequence of events returns.
    run_daemon-returns :
        (xs : List (DaemonEvent Raw F)) (p : Packetizer F) (b : Buffer)
        → IsValid b
        → (p' : Packetizer F) × (b' : Buffer) × (run_daemon h decode u label xs (some (p, b))
            ≡ some (p', b'))
    unfolding run_daemon step
    run_daemon-returns [] p b v = (p, b, refl)
    run_daemon-returns (custody x ∷ xs) p b v = run_daemon-returns xs _ _ (handle-IsValid x p b v)
    run_daemon-returns (upload env ∷ xs) p b v =
        let session = upload_session label in
        let (e, after, done, _) = flush-IsDrained h.blake3 env session u m b v size small in
        let kept =
          flush-keeps IsValid write_segment-IsValid h.blake3 u env session b after e v done in
        let (p', b', rest) = run_daemon-returns xs p after kept in
        (p', b', ap (λ o. run_daemon h decode u label xs (flushed p o)) done ∙ rest)

    answered :
        (s : (Packetizer F × Answer) × Buffer) (p : Packetizer F) (b : Buffer)
        → outcome s ≡ some (p, b)
        → (e : Option FlushError) × (s.0.1 ≡ some e) × (outcome s ≡ some (s.0.0, s.1))
    answered ((q, none), c) p b h = absurd (cc)
    answered ((q, some e), c) p b h = (e, refl, refl)

    -- On valid tables and with a batch size of m below 2 ^ 63, in whatever order the database carries out
    -- the statements of the packetizer's events and of the uploader's flushes, every flush returns, and
    -- the packetizer and the tables end as after some sequence of the same events one after the other,
    -- those of each goroutine in their order.
    pub run_goroutines-run_daemon :
        (bs : List Bool) (es : List (Event Raw F)) (envs : List FlushEnv) (p : Packetizer F)
        (e : Option FlushError) (b : Buffer)
        → IsValid b
        → let ((p', answer), b') = run_goroutines h decode u label bs es envs p (some e) b in
          (xs : List (DaemonEvent Raw F)) × (custody_of xs ≡ es)
          × (uploads_of xs ≡ envs)
          × (run_daemon h decode u label xs (some (p, b)) ≡ some (p', b'))
          × (last : Option FlushError) × (answer ≡ some last)
    run_goroutines-run_daemon bs es envs p e b v =
        let end = run_goroutines h decode u label bs es envs p (some e) b in
        let (xs, c, d, run) = run_goroutines-outcome bs es envs p e b v in
        let (q, a, done) = run_daemon-returns xs p b v in
        let (last, at, some_end) = answered end q a (sym run ∙ done) in
        (xs, c, d, run ∙ some_end, last, at)

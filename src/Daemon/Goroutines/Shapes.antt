-- ===== src/Daemon/Goroutines/Shapes.antt =====
-- What onTick and flush do to the tables, by the order of their statements: onTick has at most one
-- WritePacket, and flush begins with PendingRange and is then about the rows that it returned.
use axm_sfn.Common.{
  ℕ, ◌<◌, ◌&&◌, List, [], ◌∷◌, Option, none, some, All, length, ◌==◌, Bool-cases, inl, inr,
  if◌then◌else◌,
}
use axm_sfn.Common.Int.{pos, incr, ltb_ℤ}
use axm_sfn.Common.Text.{Bytes}
use axm_sfn.Floats.{Float64}
use axm_sfn.Concurrency.{Thread, returns}
use axm_sfn.Concurrency.Movers.{Lights}
use axm_sfn.Concurrency.Classes.{First, Second, AllFirst, AllSecond}
use axm_sfn.HotBuffer.Tables.{Buffer, Result, ok, err}
use axm_sfn.HotBuffer.Writes.{write_packet, write_quote}
use axm_sfn.HotBuffer.Segments.{pending_range, packet_hashes, write_segment}
use axm_sfn.HotBuffer.Commuting.Older.{RowsBelow, pending_range-RowsBelow}
use axm_sfn.Moonraker.State.{is_active}
use axm_sfn.Policy.{evaluate}
use axm_sfn.Telemetry.{Decision}
use axm_sfn.Tpm.{QuoteResult}
use axm_sfn.Custody.State.{Packetizer, Hashes, TickEnv, compute_packet_blake3}
use axm_sfn.Custody.Delta.{Unmarshal}
use axm_sfn.Custody.Tick.{
  decision_of, should_quote, ensure_session, build_packet, quote_row, packet_row, snapshot,
}
use axm_sfn.Custody.Threads.{
  backfill_thread, finish_thread, write_thread, quoted_thread, store_thread, quote_thread,
  seal_thread, judge_thread, silence_thread, tick_thread, event_thread,
}
use axm_sfn.Custody.Run.{Event, delta, tick}
use axm_sfn.Uploader.Flush.{Uploader, FlushEnv}
use axm_sfn.Uploader.Flush.Threads.{
  Answer, shipped_thread, segment_thread, root_thread, range_thread, flush_thread, next_flush,
}
use axm_sfn.Daemon.{upload_session}
use axm_sfn.Daemon.Goroutines.{custody_threads, upload_threads}
use axm_sfn.Daemon.Goroutines.Classes.{Aside, Inserts, Asks, Ships, movers}

module _ {F : Type 0} where
  -- The shape of onTick's threads, beside the uploader.
  abbrev pub Ticks : Thread Buffer (Packetizer F) → Type 0
  Ticks = First (movers {A = Packetizer F} {B = Answer})

module _ {F : Type 0} (env : TickEnv F) where
  backfill_thread-Lights :
      (row_id quote_id : ℕ) (sig : Option Bytes) (p : Packetizer F)
      → Lights Aside (backfill_thread env row_id quote_id sig p)
  unfolding backfill_thread
  backfill_thread-Lights row_id quote_id none p = Lights.stops
  backfill_thread-Lights row_id quote_id (some sig) p =
      Lights.goes (Aside.signature _ _ _ _ (λ r. returns p)) (λ b. Lights.stops)

  finish_thread-Lights :
      (link : Bytes) (quote_id : ℕ) (sig : Option Bytes) (p : Packetizer F) (r : Result ℕ)
      → Lights Aside (finish_thread env link quote_id sig p r)
  unfolding finish_thread
  finish_thread-Lights link quote_id sig p (err e) = Lights.stops
  finish_thread-Lights link quote_id sig p (ok row_id) =
      backfill_thread-Lights row_id quote_id sig _

  write_thread-Ticks :
      (h : Hashes) (decision : Option Decision) (canonical : Bytes) (quote_id : ℕ)
      (p : Packetizer F)
      → Ticks (write_thread env h decision canonical quote_id p)
  unfolding write_thread
  write_thread-Ticks h decision canonical quote_id p =
      let sig = if p.has_tpm then env.tpm_sign canonical else none in
      let link = compute_packet_blake3 h.blake3 p.seq p.session_id canonical sig p.prev_blake3 in
      let row = packet_row h env decision canonical link p in
      First.turns (Inserts.packet _ _ (finish_thread env link quote_id sig p))
        (λ b. finish_thread-Lights link quote_id sig p (write_packet env.packet_up row b).0)

  module _ (go : ℕ → Packetizer F → Thread Buffer (Packetizer F))
      (later : (q : ℕ) (p : Packetizer F) → Ticks (go q p)) where
    quoted_thread-Ticks : (p : Packetizer F) (r : Result ℕ) → Ticks (quoted_thread env go p r)
    unfolding quoted_thread
    quoted_thread-Ticks p (err e) = later _ _
    quoted_thread-Ticks p (ok qid) = later _ _

    store_thread-Ticks :
        (p : Packetizer F) (q : Option QuoteResult) → Ticks (store_thread env go p q)
    unfolding store_thread
    store_thread-Ticks p none = later _ _
    store_thread-Ticks p (some qr) =
        First.goes (Aside.quote _ _ _ (quoted_thread env go p))
          (λ b. quoted_thread-Ticks p (write_quote env.quote_up env.now (quote_row p qr) b).0)

    quote_thread-Ticks :
        (h : Hashes) (sha : Bytes) (p : Packetizer F) → Ticks (quote_thread env go h sha p)
    unfolding quote_thread
    quote_thread-Ticks h sha p = elim (Bool-cases (p.has_tpm && should_quote env.now p)) [
      | inl y ↦ rw y (store_thread-Ticks p _)
      | inr n ↦ rw n (later _ _)
    ]

  seal_thread-Ticks :
      (h : Hashes) (decision : Option Decision) (p : Packetizer F) (text : Option Bytes)
      → Ticks (seal_thread env h decision p text)
  unfolding seal_thread
  seal_thread-Ticks h decision p none = First.stops
  seal_thread-Ticks h decision p (some canonical) =
      quote_thread-Ticks (write_thread env h decision canonical)
        (write_thread-Ticks h decision canonical) h (h.sha256 canonical) p

module _ {F : Type 0} ⦃fl : Float64 F⦄ (h : Hashes) where
  judge_thread-Ticks : (env : TickEnv F) (p : Packetizer F) → Ticks (judge_thread h env p)
  unfolding judge_thread
  judge_thread-Ticks env p =
      let (verdict, policy) = evaluate p.policy (snapshot p) in
      let p' = record p { policy = policy } in
      seal_thread-Ticks env h (decision_of verdict) p'
        (env.marshal (build_packet env (decision_of verdict) p'))

  silence_thread-Ticks : (env : TickEnv F) (p : Packetizer F) → Ticks (silence_thread h env p)
  unfolding silence_thread
  silence_thread-Ticks env p =
      elim (Bool-cases (ltb_ℤ p.cfg.max_silent_ticks (incr p.silent_ticks))) [
        | inl y ↦ rw y (
            First.goes
              (Aside.provenance_fault _ _ _ _ _
                (λ r. judge_thread h env (record p { silent_ticks = pos 0 })))
              (λ b. judge_thread-Ticks env _))
        | inr n ↦ rw n (judge_thread-Ticks env _)
      ]

  pub event_thread-Ticks :
      {Raw : Type 0} (decode : Unmarshal Raw F) (e : Event Raw F) (p : Packetizer F)
      → Ticks (event_thread h decode e p)
  unfolding event_thread tick_thread
  event_thread-Ticks decode (delta seed status) p = First.stops
  event_thread-Ticks decode (tick env) p = elim (Bool-cases (is_active p.state)) [
    | inl y ↦ rw y (silence_thread-Ticks env (ensure_session env p))
    | inr n ↦ rw n First.stops
  ]

-- The shape of flush's threads, beside any first goroutine.
abbrev pub Flushes : (A : Type 0) → Thread Buffer Answer → Type 0
Flushes A = Second (movers {A = A} {B = Answer})

module _ (blake3 : Bytes → Bytes) (u : Uploader) (env : FlushEnv) (session : Bytes) where
  shipped_thread-Lights :
      (n first last count : ℕ) (root : Bytes) (r : Result (Unit {0}))
      → Lights (Ships n) (shipped_thread blake3 u env session first last count root r)
  unfolding shipped_thread
  shipped_thread-Lights n first last count root (err e) = Lights.stops
  shipped_thread-Lights n first last count root (ok done) = Lights.stops

  segment_thread-Lights :
      (n first last : ℕ) (ids : List ℕ) (root : Option Bytes)
      → All (λ i. i < n) ids
      → Lights (Ships n) (segment_thread blake3 u env session first last ids root)
  unfolding segment_thread
  segment_thread-Lights n first last ids none below = Lights.stops
  segment_thread-Lights n first last ids (some root) below =
      let count = length ids in
      Lights.goes
        (Ships.segment _ _ _ _ _ _ _ _ (shipped_thread blake3 u env session first last count root)
          below)
        (λ b.
          shipped_thread-Lights n first last count root
            (write_segment env.segment_up env.now session first last count root ids b).0)

  root_thread-Lights :
      (n first last : ℕ) (ids : List ℕ) (r : Result (List (Option Bytes)))
      → All (λ i. i < n) ids
      → Lights (Ships n) (root_thread blake3 u env session first last ids r)
  unfolding root_thread
  root_thread-Lights n first last ids (err e) below = Lights.stops
  root_thread-Lights n first last ids (ok hashes) below =
      segment_thread-Lights n first last ids _ below

  range_thread-Lights :
      (n : ℕ) (r : Result (ℕ × ℕ × List ℕ))
      → RowsBelow n r
      → Lights (Ships n) (range_thread blake3 u env session r)
  unfolding range_thread
  range_thread-Lights n (err e) below = Lights.stops
  range_thread-Lights n (ok (first, last, ids)) below = elim (Bool-cases (length ids == 0)) [
    | inl y ↦ rw y Lights.stops
    | inr x ↦ rw x (
        Lights.goes (Ships.hashes _ ids (root_thread blake3 u env session first last ids) below)
          (λ b. root_thread-Lights n first last ids (packet_hashes env.hashes_up ids b) below))
  ]

  pub next_flush-Flushes : (A : Type 0) (r : Answer) → Flushes A (next_flush blake3 u env session r)
  unfolding next_flush flush_thread
  next_flush-Flushes A none = Second.stops
  next_flush-Flushes A (some e) =
      Second.turns (Asks.range _ _ _ (range_thread blake3 u env session)) (λ b h.
        range_thread-Lights b.next_packet (pending_range env.range_up session u.batch_size b)
          (pending_range-RowsBelow env.range_up session u.batch_size b h.0))

module _ {Raw F : Type 0} ⦃fl : Float64 F⦄ (h : Hashes) (decode : Unmarshal Raw F) (u : Uploader)
    (label : Bytes) where
  pub ticks-AllFirst :
      (es : List (Event Raw F))
      → AllFirst (movers {B = Answer}) (custody_threads h decode u label es)
  ticks-AllFirst [] = tt
  ticks-AllFirst (e ∷ es) = (event_thread-Ticks h decode e, ticks-AllFirst es)

  pub flushes-AllSecond :
      (envs : List FlushEnv)
      → AllSecond (movers {A = Packetizer F} {B = Answer}) (upload_threads h decode u label envs)
  flushes-AllSecond [] = tt
  flushes-AllSecond (env ∷ envs) = (
    next_flush-Flushes h.blake3 u env (upload_session label) (Packetizer F),
    flushes-AllSecond envs,
  )

-- ===== src/Uploader/Flush/Emptied.antt =====
-- internal/uploader/uploader.go: how many flushes of Run's loop empty the queue.
use axm_sfn.Common.{
  ℕ, suc, ◌-◌, ◌^◌, ◌≤◌, ◌<◌, ◌≡◌, ◌≢◌, ◌⊎◌, inl, inr, refl, sym, ap, ◌∙◌, subst, Bool, true, List,
  [], ◌∷◌, map, Option, none, some, length, length-append, arith, All, ◌==◌, Bool-cases,
}
use axm_sfn.Common.Int.{pos}
use axm_sfn.Common.Text.{Bytes}
use axm_sfn.HotBuffer.Tables.{Packet, Buffer, Result, ok, err}
use axm_sfn.HotBuffer.Segments.{pending_range, mark_row, mark_rows, write_segment}
use axm_sfn.HotBuffer.Invariant.{IsValid}
use axm_sfn.HotBuffer.Statements.{write_segment-IsValid}
use axm_sfn.HotBuffer.Pending.{queue}
use axm_sfn.Uploader.Flush.{
  Uploader, FlushEnv, FlushError, flush_segment, flush_root, flush_hashes, flush_range, flush,
  after_flush, run_uploader,
}
use axm_sfn.Uploader.Flush.Outcomes.{write_segment-cases}
use axm_sfn.Uploader.Flush.Drained.{IsDrained, flush-IsDrained}
use axm_sfn.Uploader.Flush.Progress.{IsReadable, flush_progress}

-- What WriteSegment keeps, whatever it is given, a flush keeps.
module _ (P : Buffer → Type 0)
    (keep : (up : ℕ → Bool) (now : ℕ) (session : Bytes) (first last count : ℕ) (root : Bytes)
        (ids : List ℕ) (b : Buffer)
      → P b
      → P (write_segment up now session first last count root ids b).1)
    (blake3 : Bytes → Bytes) (u : Uploader) (env : FlushEnv) (session : Bytes) (b after : Buffer)
    (e : Option FlushError) (before : P b) where
  flush_segment-keeps :
      (first last count : ℕ) (root : Bytes) (r : Result (Unit {0}) × Buffer)
      → flush_segment blake3 u env session first last count root r ≡ some (e, after)
      → P r.1
      → P after
  unfolding flush_segment
  flush_segment-keeps first last count root (err x, c) h p = subst P (ground arith) p
  flush_segment-keeps first last count root (ok done, c) h p = subst P (ground arith) p

  flush_root-keeps :
      (first last : ℕ) (ids : List ℕ) (root : Option Bytes)
      → flush_root blake3 u env session first last ids b root ≡ some (e, after)
      → P after
  unfolding flush_root
  flush_root-keeps first last ids none h = absurd (ground arith)
  flush_root-keeps first last ids (some root) h =
      flush_segment-keeps first last (length ids) root _ h (keep _ _ _ _ _ _ _ _ b before)

  flush_hashes-keeps :
      (first last : ℕ) (ids : List ℕ) (r : Result (List (Option Bytes)))
      → flush_hashes blake3 u env session first last ids b r ≡ some (e, after)
      → P after
  unfolding flush_hashes
  flush_hashes-keeps first last ids (err x) h = subst P (ground arith) before
  flush_hashes-keeps first last ids (ok hashes) h = flush_root-keeps first last ids _ h

  flush_range-keeps :
      (r : Result (ℕ × ℕ × List ℕ))
      → flush_range blake3 u env session b r ≡ some (e, after)
      → P after
  unfolding flush_range
  flush_range-keeps (err x) h = subst P (ground arith) before
  flush_range-keeps (ok (first, last, ids)) h = elim (Bool-cases (length ids == 0)) [
    | inl y ↦ subst P (ground (arith, rw y at h)) before
    | inr n ↦ flush_hashes-keeps first last ids _ (rw n at h)
  ]

  pub flush-keeps : flush blake3 u env session b ≡ some (e, after) → P after
  unfolding flush
  flush-keeps h = flush_range-keeps (pending_range env.range_up session u.batch_size b) h

mark_row-IsReadable :
    (seg i : ℕ) (ps : List Packet) → All IsReadable ps → All IsReadable (mark_row seg i ps)
unfolding mark_row
mark_row-IsReadable seg i [] a = tt
mark_row-IsReadable seg i (p ∷ ps) a = elim (Bool-cases (p.id == i)) [
  | inl y ↦ rw y (a.0, mark_row-IsReadable seg i ps a.1)
  | inr n ↦ rw n (a.0, mark_row-IsReadable seg i ps a.1)
]

mark_rows-IsReadable :
    (up : ℕ → Bool) (k seg : ℕ) (ids : List ℕ) (ps qs : List Packet)
    → mark_rows up k seg ids ps ≡ some qs
    → All IsReadable ps
    → All IsReadable qs
unfolding mark_rows
mark_rows-IsReadable up k seg [] ps qs e a = subst (All IsReadable) (ground arith) a
mark_rows-IsReadable up k seg (i ∷ is) ps qs e a = elim (Bool-cases (up k)) [
  | inl y ↦
      mark_rows-IsReadable up (suc k) seg is (mark_row seg i ps) qs (rw y at e)
        (mark_row-IsReadable seg i ps a)
  | inr n ↦ absurd (ground (arith, rw n at e))
]

-- Valid tables whose hash columns are hexadecimal.
abbrev pub Served : Buffer → Type 0
Served b = IsValid b × All IsReadable b.packets

write_segment-Served :
    (up : ℕ → Bool) (now : ℕ) (session : Bytes) (first last count : ℕ) (root : Bytes) (ids : List ℕ)
    (b : Buffer)
    → Served b
    → Served (write_segment up now session first last count root ids b).1
write_segment-Served up now session first last count root ids b s = (
  write_segment-IsValid up now session first last count root ids b s.0,
  elim (write_segment-cases up now session first last count root ids b) [
    | inl (e, failed) ↦ rw failed s.1
    | inr (ps, marked, done) ↦
        rw done (mark_rows-IsReadable up 3 b.next_segment ids b.packets ps marked s.1)
  ],
)

length_pos {ℓ} : {A : Type ℓ} (xs : List A) → xs ≢ [] → 0 < length xs
length_pos [] ne = absurd (ne refl)
length_pos (x ∷ xs) ne = omega arith

length_zero {ℓ} : {A : Type ℓ} (xs : List A) → length xs ≤ 0 → xs ≡ []
length_zero [] h = refl
length_zero (x ∷ xs) h = absurd (omega arith)

module _ (blake3 : Bytes → Bytes) (u : Uploader) (session : Bytes) where
  -- The database carries out every statement of a flush.
  abbrev pub IsUp : FlushEnv → Type 0
  IsUp env = (env.range_up ≡ true) × (env.hashes_up ≡ true) × ((j : ℕ) → env.segment_up j ≡ true)

  IsDrained-shorter :
      (env : FlushEnv) (m : ℕ) (b after : Buffer)
      → IsDrained blake3 env session m b after
      → length (queue session after) < length (queue session b)
  IsDrained-shorter env m b after d = omega (
    arith,
    ap length d.rest,
    ap length d.range.split,
    length-append d.range.rows d.range.later,
    length_pos d.range.rows
        (λ none_taken. d.some_rows (d.range.ids ∙ ap (map (λ p. p.id)) none_taken)),
  )

  empty_stays :
      (env : FlushEnv) (m : ℕ) (b after : Buffer)
      → queue session b ≡ []
      → (after ≡ b) ⊎ IsDrained blake3 env session m b after
      → queue session after ≡ []
  empty_stays env m b after empty (inl same) = rw same empty
  empty_stays env m b after empty (inr d) =
      absurd (omega (arith, IsDrained-shorter env m b after d, ap length empty))

  module _ (m : ℕ) (size : u.batch_size ≡ pos (suc m)) (small : suc m < 2 ^ 63) where
    -- A flush leaves an empty queue empty and shortens another.
    abbrev Shortens : List Packet → List Packet → Type 0
    Shortens waiting after = length after ≤ length waiting - 1

    flush-Shortens :
        (env : FlushEnv) (b : Buffer) (waiting : List Packet)
        → queue session b ≡ waiting
        → IsUp env
        → Served b
        → (e : Option FlushError) × (after : Buffer) × (flush blake3 u env session b
            ≡ some (e, after))
          × Served after
          × Shortens waiting (queue session after)
    flush-Shortens env b [] w up s =
        let (e, after, done, settled) =
          flush-IsDrained blake3 env session u (suc m) b s.0 size small in
        (
          e,
          after,
          done,
          flush-keeps Served write_segment-Served blake3 u env session b after e s done,
          omega (arith, ap length (empty_stays env (suc m) b after w settled)),
        )
    flush-Shortens env b (p ∷ ps) w up s =
        let (e, after, done, drained) =
          flush_progress blake3 u env session b m s.0 size small up.0 up.1 up.2 s.1
            (λ empty. ground (arith, sym w ∙ empty)) in
        (
          e,
          after,
          done,
          flush-keeps Served write_segment-Served blake3 u env session b after e s done,
          omega (arith, IsDrained-shorter env (suc m) b after drained, ap length w),
        )

    -- On valid tables with hexadecimal hash columns, with a batch size of m + 1 below 2 ^ 63 and where the
    -- database carries every statement out, Run's flushes all return, and as many of them as packets
    -- wait in the session leave none waiting, whatever comes of shipping the segments.
    pub run_uploader-empty :
        (envs : List FlushEnv) (b : Buffer)
        → All IsUp envs
        → Served b
        → length (queue session b) ≤ length envs
        → (after : Buffer) × (run_uploader blake3 u session envs (some b) ≡ some after)
          × (queue session after ≡ [])
    unfolding run_uploader
    run_uploader-empty [] b up s enough = (b, refl, length_zero (queue session b) enough)
    run_uploader-empty (env ∷ envs) b up s enough =
        let (e, next, done, served, less) = flush-Shortens env b (queue session b) refl up.0 s in
        let (after, rest, empty) = run_uploader-empty envs next up.1 served (omega arith) in
        (after, ap (λ r. run_uploader blake3 u session envs (after_flush r)) done ∙ rest, empty)

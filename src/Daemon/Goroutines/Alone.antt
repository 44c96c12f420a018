-- ===== src/Daemon/Goroutines/Alone.antt =====
-- cmd/axm-edge/main.go, runDaemon: what the packetizer comes to beside the uploader, and alone.
use axm_sfn.Common.{◌≡◌, refl, sym, ap, ◌∙◌, Bool, List, [], ◌∷◌, inl, inr, arith}
use axm_sfn.Common.Text.{Bytes}
use axm_sfn.Floats.{Float64}
use axm_sfn.Concurrency.{Thread, run_thread, first_of, rest_of, run_rest, run_all}
use axm_sfn.Concurrency.Classes.{
  Any, AnyAt, First-Each, Second-Each, Any-keeps, AnyAt-keeps, AllFirst-Each, AllSecond-Each,
  first_of-First, rest_of-AllFirst, first_of-Second, rest_of-AllSecond,
}
use axm_sfn.Concurrency.Reduction.{run_rest-first}
use axm_sfn.Concurrency.Apart.{interleave-Same}
use axm_sfn.HotBuffer.Tables.{Buffer}
use axm_sfn.HotBuffer.Writes.{write_packet, set_tpm_sig, record_provenance_fault, write_quote}
use axm_sfn.HotBuffer.Invariant.{IsValid}
use axm_sfn.HotBuffer.Commuting.Views.{
  custody_view, KeepsView, custody_view-write_segment, record_provenance_fault-KeepsView,
  write_quote-KeepsView, set_tpm_sig-KeepsView, write_packet-KeepsView,
}
use axm_sfn.Custody.State.{Packetizer, Hashes}
use axm_sfn.Custody.Delta.{Unmarshal}
use axm_sfn.Custody.Run.{Event, run}
use axm_sfn.Custody.Threads.{event_thread}
use axm_sfn.Custody.Threads.Whole.{run_thread-event_thread}
use axm_sfn.Uploader.Flush.{Uploader, FlushEnv}
use axm_sfn.Uploader.Flush.Threads.{Answer}
use axm_sfn.Daemon.Goroutines.{custody_threads, upload_threads, run_goroutines}
use axm_sfn.Daemon.Goroutines.Classes.{Aside, Inserts, Asks, Ships, movers}
use axm_sfn.Daemon.Goroutines.Shapes.{ticks-AllFirst, flushes-AllSecond}

module _ {A R : Type 0} (statement : Buffer → R × Buffer) (keeps : KeepsView statement)
    (go : R → Thread Buffer A) (s s' : Buffer) (v : custody_view s ≡ custody_view s') where
  -- A statement on tables that look the same to the packetizer.
  KeepsView-sees :
      (go (statement s).0 ≡ go (statement s').0)
      × (custody_view (statement s).1 ≡ custody_view (statement s').1)
  KeepsView-sees = (
    ap go (sym (ap (λ r. r.0) (keeps s)) ∙ ap (λ b. (statement b).0) v ∙ ap (λ r. r.0) (keeps s')),
    sym (ap (λ r. r.1) (keeps s)) ∙ ap (λ b. (statement b).1) v ∙ ap (λ r. r.1) (keeps s'),
  )

module _ (A B : Type 0) where
  sees :
      (act : Buffer → Buffer) (next : Buffer → Thread Buffer A)
      → Any (movers {A = A} {B = B}) act next
      → (s s' : Buffer) → custody_view s ≡ custody_view s'
      → (next s ≡ next s') × (custody_view (act s) ≡ custody_view (act s'))
  sees act next (inl (Aside.provenance_fault up now session seq reason go)) s s' v =
      KeepsView-sees (record_provenance_fault up now session seq reason)
        (record_provenance_fault-KeepsView up now session seq reason) go s s' v
  sees act next (inl (Aside.quote up now row go)) s s' v =
      KeepsView-sees (write_quote up now row) (write_quote-KeepsView up now row) go s s' v
  sees act next (inl (Aside.signature up i sig q go)) s s' v =
      KeepsView-sees (set_tpm_sig up i sig q) (set_tpm_sig-KeepsView up i sig q) go s s' v
  sees act next (inr (Inserts.packet up p go)) s s' v =
      KeepsView-sees (write_packet up p) (write_packet-KeepsView up p) go s s' v

  leaves :
      (act : Buffer → Buffer) (next : Buffer → Thread Buffer B)
      → AnyAt (movers {A = A} {B = B}) act next
      → (s : Buffer) → custody_view (act s) ≡ custody_view s
  leaves act next (inl (Asks.range on session max go)) s = refl
  leaves act next (inr (n, Ships.hashes on ids go below)) s = refl
  leaves act next (inr (n, Ships.segment on now session first last count root ids go below)) s =
      custody_view-write_segment on now session first last count root ids s

module _ {Raw F : Type 0} ⦃fl : Float64 F⦄ (h : Hashes) (decode : Unmarshal Raw F) (u : Uploader)
    (label : Bytes) where
  -- The packetizer's threads in one piece are its run.
  run_all-run :
      (es : List (Event Raw F)) (p : Packetizer F) (b : Buffer)
      → run_all
          (first_of (custody_threads h decode u label es) p)
          (rest_of (custody_threads h decode u label es))
          b
        ≡ run h decode es p b
  unfolding run run_rest run_thread
  run_all-run [] p b = refl
  run_all-run (e ∷ es) p b =
      let s = run_thread (event_thread h decode e p) b in
      run_rest-first (custody_threads h decode u label es) s
      ∙ run_all-run es s.0 s.1
      ∙ ap (λ (x : Packetizer F × Buffer). run h decode es x.0 x.1)
          (run_thread-event_thread h decode e p b)

  -- In whatever order the database carries out the statements of the two goroutines on valid tables: the
  -- tables stay valid, and the packetizer, and all that it writes, that is all but the columns
  -- upload_state and segment_id and the table of segments, are after its events what they would be
  -- without the uploader.
  pub run_goroutines-run :
      (bs : List Bool) (es : List (Event Raw F)) (envs : List FlushEnv) (p : Packetizer F)
      (r : Answer) (b : Buffer)
      → IsValid b
      → let ((p', answer), b') = run_goroutines h decode u label bs es envs p r b in
        let (alone, tables) = run h decode es p b in
        IsValid b' × (p' ≡ alone) × (custody_view b' ≡ custody_view tables)
  unfolding run_goroutines
  run_goroutines-run bs es envs p r b v =
      let m = movers {A = Packetizer F} {B = Answer} in
      let ts = custody_threads h decode u label es in
      let us = upload_threads h decode u label envs in
      let fs = ticks-AllFirst h decode u label es in
      let gs = flushes-AllSecond h decode u label envs in
      let (valid, (same, view)) =
        interleave-Same custody_view (Any-keeps m 0) (AnyAt-keeps m 0) (sees (Packetizer F) Answer)
          (leaves (Packetizer F) Answer) bs (first_of ts p) (rest_of ts) (first_of us r)
          (rest_of us) b b (First-Each m 0 (first_of ts p) (first_of-First m ts p fs))
          (AllFirst-Each m 0 (rest_of ts) (rest_of-AllFirst m ts fs))
          (Second-Each m (first_of us r) (first_of-Second m us r gs))
          (AllSecond-Each m (rest_of us) (rest_of-AllSecond m us gs)) (v, omega arith) refl in
      let alone = run_all-run es p b in
      (valid.0, same ∙ ap (λ x. x.0) alone, view ∙ ap (λ x. custody_view x.1) alone)

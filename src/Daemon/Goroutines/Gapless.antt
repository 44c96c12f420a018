-- ===== src/Daemon/Goroutines/Gapless.antt =====
-- cmd/axm-edge/main.go, runDaemon: the ledger while the uploader runs beside the packetizer.
use axm_sfn.Common.{ℕ, ◌≡◌, inl, inr, sym, subst, Bool, List, [], ◌∷◌, map, Option, Bool-cases}
use axm_sfn.Common.Text.{Bytes, bytes_eq}
use axm_sfn.Floats.{Float64}
use axm_sfn.HotBuffer.Tables.{Packet, Buffer}
use axm_sfn.HotBuffer.Invariant.{IsValid}
use axm_sfn.HotBuffer.Commuting.Views.{custody_row, custody_view}
use axm_sfn.Custody.State.{Packetizer, Hashes}
use axm_sfn.Custody.Chain.{session_rows, IsLink, IsChain, IsLedger}
use axm_sfn.Custody.Delta.{Unmarshal}
use axm_sfn.Custody.Run.{Event, run}
use axm_sfn.Custody.GapFree.{AllFresh, run-IsLedger}
use axm_sfn.Uploader.Flush.{Uploader, FlushEnv}
use axm_sfn.Uploader.Flush.Threads.{Answer}
use axm_sfn.Daemon.Goroutines.{run_goroutines}
use axm_sfn.Daemon.Goroutines.Alone.{run_goroutines-run}

module _ (h : Hashes) (s : Bytes) where
  -- A link says nothing of what WriteSegment writes.
  IsLink-custody_row :
      {n : ℕ} {link prev : Option Bytes} (p : Packet)
      → IsLink h s n link prev p
      → IsLink h s n link prev (custody_row p)
  IsLink-custody_row p l = record {
    sig = l.sig;
    place = l.place;
    linked = l.linked;
    stored = l.stored;
    stored_prev = l.stored_prev;
    digest = l.digest;
    signature = l.signature;
  }

  IsLink-of_custody_row :
      {n : ℕ} {link prev : Option Bytes} (p : Packet)
      → IsLink h s n link prev (custody_row p)
      → IsLink h s n link prev p
  IsLink-of_custody_row p l = record {
    sig = l.sig;
    place = l.place;
    linked = l.linked;
    stored = l.stored;
    stored_prev = l.stored_prev;
    digest = l.digest;
    signature = l.signature;
  }

  IsChain-custody_row :
      (n : ℕ) (link : Option Bytes) (ps : List Packet)
      → IsChain h s n link (session_rows s ps)
      → IsChain h s n link (session_rows s (map custody_row ps))
  IsChain-custody_row n link [] c = c
  IsChain-custody_row n link (p ∷ ps) c = elim (Bool-cases (bytes_eq p.session_id s)) [
    | inl y ↦
        let (prev, l, older) = rw y at c in
        rw y (prev, IsLink-custody_row p l, IsChain-custody_row p.seq prev ps older)
    | inr x ↦ rw x (IsChain-custody_row n link ps (rw x at c))
  ]

  IsChain-of_custody_row :
      (n : ℕ) (link : Option Bytes) (ps : List Packet)
      → IsChain h s n link (session_rows s (map custody_row ps))
      → IsChain h s n link (session_rows s ps)
  IsChain-of_custody_row n link [] c = c
  IsChain-of_custody_row n link (p ∷ ps) c = elim (Bool-cases (bytes_eq p.session_id s)) [
    | inl y ↦
        let (prev, l, older) = rw y at c in
        rw y (prev, IsLink-of_custody_row p l, IsChain-of_custody_row p.seq prev ps older)
    | inr x ↦ rw x (IsChain-of_custody_row n link ps (rw x at c))
  ]

  -- Chains of tables that look the same to the packetizer.
  IsChain-custody_view :
      (n : ℕ) (link : Option Bytes) (b c : Buffer)
      → custody_view b ≡ custody_view c
      → IsChain h s n link (session_rows s b.packets)
      → IsChain h s n link (session_rows s c.packets)
  IsChain-custody_view n link b c e chain = IsChain-of_custody_row n link c.packets (
      subst (λ (v : Buffer). IsChain h s n link (session_rows s v.packets)) e
        (IsChain-custody_row n link b.packets chain))

module _ (h : Hashes) where
  IsLedger-custody_view :
      (s : Bytes) (n : ℕ) (link : Option Bytes) (b c : Buffer)
      → custody_view b ≡ custody_view c
      → IsValid c
      → IsLedger h s n link b
      → IsLedger h s n link c
  IsLedger-custody_view s n link b c e v l = record {
    valid = v;
    chains = λ t.
        let (n', link', chain) = l.chains t in
        (n', link', IsChain-custody_view h t n' link' b c e chain);
    current = elim l.current [
      | inl none_yet ↦ inl none_yet
      | inr chain ↦ inr (IsChain-custody_view h s n link b c e chain)
    ];
  }

module _ {Raw F : Type 0} ⦃fl : Float64 F⦄ (h : Hashes) (decode : Unmarshal Raw F) (u : Uploader)
    (label : Bytes) where
  -- In whatever order the database carries out the statements of the two goroutines, and whichever of
  -- them fail: from a ledger, if the random session ids do not repeat in the packetizer's run, the tables
  -- are in the end valid, every session in them is a chain of packets numbered 0, 1, 2, … with no gap,
  -- each hashed over its stored bytes and the hash of the one before, and the packetizer is at the end
  -- of the chain of its session.
  pub run_goroutines-IsLedger :
      (bs : List Bool) (es : List (Event Raw F)) (envs : List FlushEnv) (p : Packetizer F)
      (r : Answer) (b : Buffer)
      → AllFresh h decode es p b
      → IsLedger h p.session_id p.seq p.prev_blake3 b
      → let ((p', answer), b') = run_goroutines h decode u label bs es envs p r b in
        IsLedger h p'.session_id p'.seq p'.prev_blake3 b'
  run_goroutines-IsLedger bs es envs p r b fresh l =
      let end = run_goroutines h decode u label bs es envs p r b in
      let alone = run h decode es p b in
      let (valid, same, view) = run_goroutines-run h decode u label bs es envs p r b l.valid in
      subst (λ (q : Packetizer F). IsLedger h q.session_id q.seq q.prev_blake3 end.1) (sym same)
        (IsLedger-custody_view h alone.0.session_id alone.0.seq alone.0.prev_blake3 alone.1 end.1
          (sym view) valid (run-IsLedger h decode es p b fresh l))

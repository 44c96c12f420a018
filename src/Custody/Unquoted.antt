-- ===== src/Custody/Unquoted.antt =====
-- internal/custody/packetizer.go: the signature of a packet in a session that has no quote yet.
use axm_sfn.Common.{
  ℕ, ◌≡◌, inl, inr, refl, Bool, true, Option, none, some, arith, ==_refl, if◌then◌else◌,
}
use axm_sfn.Common.Text.{Bytes}
use axm_sfn.HotBuffer.Tables.{Buffer, PacketRow}
use axm_sfn.HotBuffer.Writes.{has_row, insert_packet, write_packet, set_tpm_sig}
use axm_sfn.HotBuffer.Invariant.{IsValid}
use axm_sfn.HotBuffer.Statements.{write_packet-IsValid}
use axm_sfn.HotBuffer.Outcomes.{write_packet-cases, has_quote_zero}
use axm_sfn.Telemetry.{Decision}
use axm_sfn.Custody.State.{Packetizer, Hashes, TickEnv}
use axm_sfn.Custody.Tick.{anomaly_of, backfill, finish, write_tick}
use axm_sfn.Custody.Written.{row}

-- No quote has the number 0, so the foreign key refuses it.
set_tpm_sig_zero :
    (up : Bool) (i : ℕ) (sig : Option Bytes) (b : Buffer)
    → IsValid b
    → has_row i b.packets ≡ true
    → (set_tpm_sig up i sig 0 b).1 ≡ b
unfolding set_tpm_sig
set_tpm_sig_zero up i sig b v there =
    ground (arith, has_quote_zero b.next_quote b.quotes v.quote_keys)

pub first_row :
    (r : PacketRow) (b : Buffer) → has_row b.next_packet (insert_packet r b).packets ≡ true
unfolding has_row insert_packet
first_row r b = rw (==_refl b.next_packet)

module _ (h : Hashes) {F : Type 0} where
  pub backfill_zero :
      (env : TickEnv F) (sig : Option Bytes) (b : Buffer) (i : ℕ)
      → IsValid b
      → has_row i b.packets ≡ true
      → backfill env i 0 sig b ≡ b
  unfolding backfill
  backfill_zero env none b i v there = refl
  backfill_zero env (some sig) b i v there = set_tpm_sig_zero env.sig_up i (some sig) b v there

  -- A tick without a quote, in a session that has none (its quote number is 0), leaves on valid tables
  -- what WritePacket alone leaves: SetTPMSig always fails, and the signature that went into the hash is
  -- not stored, whether there is a signature and whether the database is up.
  pub write_tick_unquoted :
      (env : TickEnv F) (d : Option Decision) (canonical : Bytes) (p : Packetizer F) (b : Buffer)
      → IsValid b
      → let sig = if p.has_tpm then env.tpm_sign canonical else none in
        (write_tick h env d canonical 0 p b).1
        ≡ (write_packet env.packet_up (row h env (anomaly_of d) canonical sig p b) b).1
  unfolding write_tick
  write_tick_unquoted env d canonical p b v =
      let sig = if p.has_tpm then env.tpm_sign canonical else none in
      let r = row h env (anomaly_of d) canonical sig p b in
      let valid = write_packet-IsValid env.packet_up r b v in
      elim (write_packet-cases env.packet_up r b) [
        | inl (_, failed) ↦ rw (failed, finish)
        | inr (written, _, _) ↦
            rw (written, finish)
              (backfill_zero env sig (insert_packet r b) b.next_packet (rw written at valid)
                (first_row r b))
      ]

-- ===== src/Custody/Written.antt =====
-- internal/custody/packetizer.go: the row that a tick writes, against the chain of its session.
use axm_sfn.Common.{
  ℕ, suc, ◌≡◌, ◌⊎◌, inl, inr, refl, sym, ap, ◌∙◌, subst, Bool, false, ◌∷◌, Option, none, some,
  arith, ==_refl,
}
use axm_sfn.Common.Text.{Bytes}
use axm_sfn.Encoding.{hex_encode}
use axm_sfn.HotBuffer.Tables.{pending, Packet, PacketRow, Buffer}
use axm_sfn.HotBuffer.Writes.{hex_or_nil, insert_packet, update_sig, set_tpm_sig, bool_int}
use axm_sfn.HotBuffer.Invariant.{IsValid}
use axm_sfn.HotBuffer.Statements.{set_tpm_sig-IsValid}
use axm_sfn.HotBuffer.Outcomes.{set_tpm_sig-cases, update_sig_older}
use axm_sfn.Custody.State.{Packetizer, Hashes, TickEnv, compute_packet_blake3}
use axm_sfn.Custody.Chain.{IsOpen, push-IsOpen}
use axm_sfn.Custody.Tick.{backfill}
use axm_sfn.Custody.Ledger.{Open}

module _ (h : Hashes) {F : Type 0} where
  -- The row that onTick writes.
  abbrev pub tick_row : TickEnv F → Bool → Bytes → Packetizer F → Bytes → PacketRow
  tick_row env anomaly canonical p link = record {
    session_id = p.session_id;
    seq = p.seq;
    tick_utc = env.tick;
    tick_mono_ns = env.mono_ns;
    telemetry_json = canonical;
    anomaly_extruder = anomaly;
    anomaly_bed = false;
    anomaly_load_cell = false;
    recovered_from_cache = false;
    prev_packet_blake3 = p.prev_blake3;
    packet_sha256 = h.sha256 canonical;
    packet_blake3 = some link;
  }

  abbrev pub tick_link : Bytes → Option Bytes → Packetizer F → Bytes
  tick_link canonical sig p =
      compute_packet_blake3 h.blake3 p.seq p.session_id canonical sig p.prev_blake3

  -- That row in the table, with the columns of SetTPMSig.
  abbrev pub stored_row :
      TickEnv F → Bool → Bytes → Packetizer F → Bytes → Option Bytes → Option ℕ → Buffer → Packet
  stored_row env anomaly canonical p link sig quote_ref b = record {
    id = b.next_packet;
    session_id = p.session_id;
    seq = p.seq;
    tick_utc = env.tick;
    tick_mono_ns = env.mono_ns;
    telemetry_json = canonical;
    anomaly_extruder = bool_int anomaly;
    anomaly_bed = bool_int false;
    anomaly_load_cell = bool_int false;
    recovered_from_cache = bool_int false;
    prev_packet_blake3 = hex_or_nil p.prev_blake3;
    packet_sha256 = hex_encode (h.sha256 canonical);
    packet_blake3 = hex_or_nil (some link);
    tpm_sig = sig;
    quote_ref = quote_ref;
    upload_state = pending;
    segment_id = none;
  }

  module _ (env : TickEnv F) (anomaly : Bool) (canonical : Bytes) (sig : Option Bytes)
      (p : Packetizer F) (b : Buffer) where
    abbrev pub row : PacketRow
    row = tick_row env anomaly canonical p (tick_link canonical sig p)

    abbrev pub written : Buffer
    written = insert_packet row b

    -- New tables whose newest row is the tick's, with no signature or the one that was hashed.
    push_row :
        (stored : Option Bytes) (quote_ref : Option ℕ) (b' : Buffer)
        → (stored ≡ none) ⊎ (stored ≡ sig)
        → b'.packets
          ≡ stored_row env anomaly canonical p (tick_link canonical sig p) stored quote_ref b
            ∷ b.packets
        → IsValid b'
        → Open h (p, b)
        → IsOpen h p.session_id (suc p.seq) (some (tick_link canonical sig p)) b'
    push_row stored quote_ref b' signed e v o =
        push-IsOpen h (some (tick_link canonical sig p))
          (stored_row env anomaly canonical p (tick_link canonical sig p) stored quote_ref b) b' e v
          refl refl
          (record {
            sig = sig;
            place = refl;
            linked = refl;
            stored = refl;
            stored_prev = refl;
            digest = refl;
            signature = signed;
          })
          o

    insert_row-Open :
        IsValid written
        → Open h (p, b)
        → IsOpen h p.session_id (suc p.seq) (some (tick_link canonical sig p)) written
    unfolding insert_packet
    insert_row-Open v o = push_row none none written (inl refl) refl v o

    signed_row-Open :
        (given : Option Bytes) (quote_id : ℕ)
        → given ≡ sig
        → IsValid written
        → Open h (p, b)
        → IsOpen h p.session_id
            (suc p.seq)
            (some (tick_link canonical sig p))
            (set_tpm_sig env.sig_up b.next_packet given quote_id written).1
    unfolding insert_packet update_sig
    signed_row-Open given quote_id same v o =
        elim (set_tpm_sig-cases env.sig_up b.next_packet given quote_id written) [
          | inl e ↦
              subst (IsOpen h p.session_id (suc p.seq) (some (tick_link canonical sig p))) (sym e)
                (insert_row-Open v o)
          | inr e ↦
              push_row given (some quote_id) _ (inr same)
                (ap (λ (x : Buffer). x.packets) e
                  ∙ rw (
                    ==_refl b.next_packet,
                    update_sig_older b.next_packet given quote_id b.next_packet b.packets
                        o.ledger.valid.packet_keys (omega arith),
                  ))
                (set_tpm_sig-IsValid env.sig_up b.next_packet given quote_id written v) o
        ]

    pub backfill-Open :
        (quote_id : ℕ)
        → IsValid written
        → Open h (p, b)
        → IsOpen h p.session_id
            (suc p.seq)
            (some (tick_link canonical sig p))
            (backfill env b.next_packet quote_id sig written)
    unfolding backfill
    backfill-Open quote_id v o = backfill_cases sig refl
      where
        backfill_cases :
            (given : Option Bytes)
            → given ≡ sig
            → IsOpen h p.session_id
                (suc p.seq)
                (some (tick_link canonical sig p))
                (backfill env b.next_packet quote_id given written)
        backfill_cases none e = insert_row-Open v o
        backfill_cases (some s) e = signed_row-Open (some s) quote_id e v o

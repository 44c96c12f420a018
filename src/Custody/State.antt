-- ===== src/Custody/State.antt =====
-- internal/custody/packetizer.go: the packetizer's state, and what the outside world gives to a step.
use axm_sfn.Common.{ℕ, Bool, false, List, [], ◌∷◌, ◌++◌, Option, none}
use axm_sfn.Common.Int.{ℤ, pos}
use axm_sfn.Common.Text.{Bytes}
use axm_sfn.Encoding.{put_uint64, hex_encode}
use axm_sfn.Moonraker.State.{PrinterState}
use axm_sfn.Floats.{Float64}
use axm_sfn.Policy.{Evaluator, new_evaluator}
use axm_sfn.Telemetry.{CustodyPacket}
use axm_sfn.Tpm.{QuoteResult, or_empty}

-- `Config`
pub record Config : Type 0 where
  pub node_label : Bytes
  pub printer_id : Bytes
  pub max_silent_ticks : ℤ
  pub quote_interval : ℤ
  pub quote_on_lifecycle : Bool
  pub pcrs : List ℕ
  pub ak_handle : ℕ

-- `Packetizer`. Whether `tpm` is not nil is the field `has_tpm`; the zero time is `none`.
pub record Packetizer (F : Type 0) : Type 0 where
  pub cfg : Config
  pub has_tpm : Bool
  pub policy : Evaluator F
  pub state : PrinterState F
  pub session_id : Bytes
  pub session_nonce : Bytes
  pub seq : ℕ
  pub prev_blake3 : Option Bytes
  pub last_quote_id : ℕ
  pub silent_ticks : ℤ
  pub immediate_quote : Bool
  pub last_quote_at : Option ℕ

-- The hash functions, of github.com/zeebo/blake3 and of crypto/sha256.
pub record Hashes : Type 0 where
  pub blake3 : Bytes → Bytes
  pub sha256 : Bytes → Bytes

-- What crypto/rand gives: the 16 bytes of a session's id and the 32 of its nonce.
pub record Seed : Type 0 where
  pub id : Bytes
  pub nonce : Bytes

-- What one tick meets: the clocks, the random bytes, encoding/json's answer for the packet, the TPM's
-- answers, and whether the database carries each statement out.
pub record TickEnv (F : Type 0) : Type 0 where
  pub tick : ℕ
  pub mono_ns : ℤ
  pub now : ℕ
  pub seed : Seed
  pub marshal : CustodyPacket F → Option Bytes
  pub tpm_quote : Bytes → Option QuoteResult
  pub tpm_sign : Bytes → Option Bytes
  pub fault_up : Bool
  pub quote_up : Bool
  pub packet_up : Bool
  pub sig_up : Bool

-- `computePacketBLAKE3`
unfoldable pub compute_packet_blake3 :
    (Bytes → Bytes) → ℕ → Bytes → Bytes → Option Bytes → Option Bytes → Bytes
compute_packet_blake3 blake3 seq session_id canonical tpm_sig prev_hash = blake3 (
    (0 ∷ [])
    ++ (put_uint64 seq ++ (session_id ++ (canonical ++ (or_empty tpm_sig ++ or_empty prev_hash)))))

module _ {F : Type 0} where
  -- `startNewSession`; fmt's %x of the id.
  unfoldable pub start_new_session : Seed → Packetizer F → Packetizer F
  start_new_session seed p = record p {
    session_id = hex_encode seed.id;
    session_nonce = seed.nonce;
    seq = 0;
    prev_blake3 = none;
    last_quote_id = 0;
    silent_ticks = pos 0;
    last_quote_at = none;
  }

module _ {F : Type 0} ⦃fl : Float64 F⦄ where
  open fl use {zero_value}

  -- The zero value of Go's PrinterState.
  abbrev zero_state : PrinterState F
  zero_state = record {
    extruder = record { temperature = zero_value; target = zero_value; power = zero_value };
    heater_bed = record { temperature = zero_value; target = zero_value; power = zero_value };
    motion_report = record {
      live_velocity = zero_value;
      live_extruder_velocity = zero_value;
      live_position = [];
    };
    print_stats = record { state = []; filament_used = zero_value; print_duration = zero_value };
    mcu = record { mcu_version = []; mcu_build_versions = [] };
    chamber_temp_c = zero_value;
    chamber_present = false;
  }

  -- `NewPacketizer`
  unfoldable pub new_packetizer : Config → Bool → Packetizer F
  unfolding new_evaluator
  new_packetizer cfg has_tpm = record {
    cfg = cfg;
    has_tpm = has_tpm;
    policy = new_evaluator;
    state = zero_state;
    session_id = [];
    session_nonce = [];
    seq = 0;
    prev_blake3 = none;
    last_quote_id = 0;
    silent_ticks = pos 0;
    immediate_quote = false;
    last_quote_at = none;
  }

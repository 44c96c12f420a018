-- ===== src/Examples/Chains.antt =====
-- Two ledgers with one link at inputs: a byte moved from the document to the signature.
use axm_sfn.Common.{◌≡◌, ◌⊎◌, refl, inr, [], ◌∷◌, some, none, arith}
use axm_sfn.Common.Collisions.{Collision}
use axm_sfn.Common.Int.{pos}
use axm_sfn.Common.Text.{Bytes, codes}
use axm_sfn.Encoding.{hex_encode}
use axm_sfn.HotBuffer.Tables.{Packet, pending}
use axm_sfn.HotBuffer.Writes.{hex_or_nil}
use axm_sfn.Custody.State.{compute_packet_blake3}
use axm_sfn.Custody.Chain.{IsChain}
use axm_sfn.Custody.Tamper.{SameRows, IsChain-binding}
use axm_sfn.Examples.Values.{front_hash, length-front_hash, front_hashes}

abbrev node : Bytes
node = codes "a1"

abbrev link_of : Bytes → Bytes → Bytes
link_of document sig = compute_packet_blake3 front_hash 0 node document (some sig) none

abbrev signed_row : Bytes → Bytes → Packet
signed_row document sig = record {
  id = 1;
  session_id = node;
  seq = 0;
  tick_utc = 1;
  tick_mono_ns = pos 1;
  telemetry_json = document;
  anomaly_extruder = 0;
  anomaly_bed = 0;
  anomaly_load_cell = 0;
  recovered_from_cache = 0;
  prev_packet_blake3 = none;
  packet_sha256 = hex_encode (front_hash document);
  packet_blake3 = hex_or_nil (some (link_of document sig));
  tpm_sig = some sig;
  quote_ref = some 1;
  upload_state = pending;
  segment_id = none;
}

one_row :
    (document sig : Bytes)
    → IsChain front_hashes node 1 (some (link_of document sig)) (signed_row document sig ∷ [])
unfolding hex_or_nil
one_row document sig = (
  none,
  record {
    sig = some sig;
    place = refl;
    linked = refl;
    stored = refl;
    stored_prev = refl;
    digest = refl;
    signature = inr refl;
  },
  (refl, refl),
)

moved : link_of (1 ∷ 2 ∷ []) (3 ∷ []) ≡ link_of (1 ∷ []) (2 ∷ 3 ∷ [])
unfolding compute_packet_blake3
moved = refl

other_row :
    IsChain front_hashes node 1
      (some (link_of (1 ∷ 2 ∷ []) (3 ∷ [])))
      (signed_row (1 ∷ []) (2 ∷ 3 ∷ []) ∷ [])
unfolding compute_packet_blake3
other_row = one_row (1 ∷ []) (2 ∷ 3 ∷ [])

IsChain-binding_example :
    SameRows (signed_row (1 ∷ 2 ∷ []) (3 ∷ []) ∷ []) (signed_row (1 ∷ []) (2 ∷ 3 ∷ []) ∷ [])
    ⊎ Collision front_hash
IsChain-binding_example =
    IsChain-binding front_hashes length-front_hash node 1 1 (some (link_of (1 ∷ 2 ∷ []) (3 ∷ [])))
      (signed_row (1 ∷ 2 ∷ []) (3 ∷ []) ∷ []) (signed_row (1 ∷ []) (2 ∷ 3 ∷ []) ∷ []) (omega arith)
      (omega arith) (one_row (1 ∷ 2 ∷ []) (3 ∷ [])) other_row

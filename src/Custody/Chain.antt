-- ===== src/Custody/Chain.antt =====
-- internal/custody/packetizer.go: the ledger of a session as a chain of packets.
use axm_sfn.Common.{
  ℕ, suc, ◌≡◌, ◌≢◌, ◌⊎◌, inl, inr, sym, ◌∙◌, subst, List, [], ◌∷◌, Option, none, some, select,
}
use axm_sfn.Common.Text.{Bytes, bytes_eq, bytes_eq_refl, bytes_eq-ne, bytes-dec}
use axm_sfn.Encoding.{hex_encode}
use axm_sfn.HotBuffer.Tables.{Packet, Buffer}
use axm_sfn.HotBuffer.Writes.{hex_or_nil}
use axm_sfn.HotBuffer.Invariant.{IsValid}
use axm_sfn.Custody.State.{Hashes, compute_packet_blake3}

-- The rows of a session, newest first.
abbrev pub session_rows : Bytes → List Packet → List Packet
session_rows s = select (λ r. bytes_eq r.session_id s)

-- A row at the place below n whose link is the BLAKE3 hash over its place, its session, its stored
-- bytes, a signature and the link before it, as the columns say.
pub record IsLink (h : Hashes) (s : Bytes) (n : ℕ) (link prev : Option Bytes) (r : Packet)
    : Type 0 where
  pub sig : Option Bytes
  pub place : n ≡ suc r.seq
  pub linked : link ≡ some (compute_packet_blake3 h.blake3 r.seq s r.telemetry_json sig prev)
  pub stored : r.packet_blake3 ≡ hex_or_nil link
  pub stored_prev : r.prev_packet_blake3 ≡ hex_or_nil prev
  pub digest : r.packet_sha256 ≡ hex_encode (h.sha256 r.telemetry_json)
  pub signature : (r.tpm_sig ≡ none) ⊎ (r.tpm_sig ≡ sig)

-- Rows at the places n - 1, n - 2, …, 0, each linked to the one below; the newest link is `link`.
abbrev pub IsChain : Hashes → Bytes → ℕ → Option Bytes → List Packet → Type 0
IsChain h s n link [] = (n ≡ 0) × (link ≡ none)
IsChain h s n link (r ∷ rs) =
    (prev : Option Bytes) × IsLink h s n link prev r × IsChain h s r.seq prev rs

-- Every session's rows are a chain.
abbrev pub AllChains : Hashes → List Packet → Type 0
AllChains h ps =
    (s : Bytes) → (n : ℕ) × (link : Option Bytes) × IsChain h s n link (session_rows s ps)

-- The tables are valid and chained, and a packetizer in session `session` is at the end of its chain.
pub record IsLedger (h : Hashes) (session : Bytes) (seq : ℕ) (prev : Option Bytes) (b : Buffer)
    : Type 0 where
  pub valid : IsValid b
  pub chains : AllChains h b.packets
  pub current : (session ≡ []) ⊎ IsChain h session seq prev (session_rows session b.packets)

-- The same of a packetizer whose session has been started.
pub record IsOpen (h : Hashes) (session : Bytes) (seq : ℕ) (prev : Option Bytes) (b : Buffer)
    : Type 0 where
  pub ledger : IsLedger h session seq prev b
  pub chain : IsChain h session seq prev (session_rows session b.packets)

module _ (h : Hashes) where
  session_rows_own :
      (s : Bytes) (r : Packet) (ps : List Packet)
      → r.session_id ≡ s
      → session_rows s (r ∷ ps) ≡ r ∷ session_rows s ps
  session_rows_own s r ps e = rw (e, bytes_eq_refl s)

  session_rows_other :
      (s : Bytes) (r : Packet) (ps : List Packet)
      → r.session_id ≢ s
      → session_rows s (r ∷ ps) ≡ session_rows s ps
  session_rows_other s r ps e = rw (bytes_eq-ne r.session_id s e)

  -- A row that continues the chain of its session, on top of the table.
  pub push-IsChain :
      (s : Bytes) (n : ℕ) (prev link : Option Bytes) (r : Packet) (ps : List Packet)
      → r.session_id ≡ s
      → r.seq ≡ n
      → IsLink h s (suc n) link prev r
      → IsChain h s n prev (session_rows s ps)
      → IsChain h s (suc n) link (session_rows s (r ∷ ps))
  push-IsChain s n prev link r ps es en l c = rw (session_rows_own s r ps es) (prev, l, rw en c)

  pub push-AllChains :
      (s : Bytes) (n : ℕ) (link : Option Bytes) (r : Packet) (ps : List Packet)
      → r.session_id ≡ s
      → IsChain h s n link (session_rows s (r ∷ ps))
      → AllChains h ps
      → AllChains h (r ∷ ps)
  push-AllChains s n link r ps es c all t = elim (bytes-dec s t) [
    | inl e ↦ (n, link, subst (λ x. IsChain h x n link (session_rows x (r ∷ ps))) e c)
    | inr d ↦
        let other : r.session_id ≢ t = λ e. d (sym es ∙ e) in
        rw (session_rows_other t r ps other) (all t)
  ]

  pub same_packets :
      {s : Bytes} {n : ℕ} {prev : Option Bytes} {b b' : Buffer}
      → b'.packets ≡ b.packets
      → IsValid b'
      → IsLedger h s n prev b
      → IsLedger h s n prev b'
  same_packets {s} {n} {prev} e v l = record {
    valid = v;
    chains = subst (AllChains h) (sym e) l.chains;
    current = subst (λ ps. (s ≡ []) ⊎ IsChain h s n prev (session_rows s ps)) (sym e) l.current;
  }

  pub IsOpen-same :
      {s : Bytes} {n : ℕ} {prev : Option Bytes} {b b' : Buffer}
      → b'.packets ≡ b.packets
      → IsValid b'
      → IsOpen h s n prev b
      → IsOpen h s n prev b'
  IsOpen-same {s} {n} {prev} e v o = record {
    ledger = same_packets e v o.ledger;
    chain = subst (λ ps. IsChain h s n prev (session_rows s ps)) (sym e) o.chain;
  }

  -- A packetizer in some session stands at the end of that session's chain.
  pub IsLedger-IsOpen :
      {s : Bytes} {n : ℕ} {prev : Option Bytes} {b : Buffer}
      → s ≢ []
      → IsLedger h s n prev b
      → IsOpen h s n prev b
  IsLedger-IsOpen ne l = record {
    ledger = l;
    chain = elim l.current [ inl e ↦ absurd (ne e) | inr c ↦ c ];
  }

  -- A row that continues the chain of its session, in new tables.
  pub push-IsOpen :
      {s : Bytes} {n : ℕ} {prev : Option Bytes} {b : Buffer}
      → (link : Option Bytes) (r : Packet) (b' : Buffer) → b'.packets ≡ r ∷ b.packets
      → IsValid b'
      → r.session_id ≡ s
      → r.seq ≡ n
      → IsLink h s (suc n) link prev r
      → IsOpen h s n prev b
      → IsOpen h s (suc n) link b'
  push-IsOpen {s} {n} {prev} {b} link r b' e v es en l o =
      let c = push-IsChain s n prev link r b.packets es en l o.chain in
      let c' : IsChain h s (suc n) link (session_rows s b'.packets) =
        subst (λ ps. IsChain h s (suc n) link (session_rows s ps)) (sym e) c in
      record {
        ledger = record {
          valid = v;
          chains =
              subst (AllChains h) (sym e)
                (push-AllChains s (suc n) link r b.packets es c o.ledger.chains);
          current = inr c';
        };
        chain = c';
      }

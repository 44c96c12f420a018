-- ===== src/HotBuffer/Statements.antt =====
-- internal/hotbuffer/buffer.go: the statements against the validity of the tables.
use axm_sfn.Common.{
  ℕ, ◌^◌, ◌<◌, ◌≡◌, refl, sym, ◌∙◌, subst, Bool, true, false, List, [], ◌∷◌, Option, none, some,
  arith, All, All-mono,
}
use axm_sfn.Common.Text.{Bytes}
use axm_sfn.HotBuffer.Tables.{PacketRow, Packet, QuoteRow, Quote, Segment, Buffer, new_buffer}
use axm_sfn.HotBuffer.Writes.{
  has_packet, insert_packet, write_packet, set_tpm_sig, record_provenance_fault,
  write_attestation_key, write_quote,
}
use axm_sfn.HotBuffer.Segments.{mark_rows, add_segment, with_segment, commit, write_segment}
use axm_sfn.HotBuffer.Invariant.{
  KeysValid, RowValid, IsValid, has_packet-taken, keys-update_sig, keys-mark_rows, QuoteExists-cons,
  InSegment-cons, update_sig-RowValid, mark_rows-RowValid,
}

-- The tables are valid when they are created.
pub new_buffer-IsValid : IsValid new_buffer
unfolding new_buffer
new_buffer-IsValid = record {
  packet_keys = omega arith;
  quote_keys = omega arith;
  segment_keys = omega arith;
  rows = tt;
}

insert_packet-IsValid :
    (p : PacketRow) (b : Buffer)
    → p.seq < 2 ^ 63
    → has_packet p.session_id p.seq b.packets ≡ false
    → IsValid b
    → IsValid (insert_packet p b)
unfolding insert_packet
insert_packet-IsValid p b lt fresh v = record {
  packet_keys =
      (omega arith, lt, sym (has_packet-taken p.session_id p.seq b.packets) ∙ fresh, v.packet_keys);
  quote_keys = v.quote_keys;
  segment_keys = v.segment_keys;
  rows = ((tt, tt), v.rows);
}

pub write_packet-IsValid :
    (up : Bool) (p : PacketRow) (b : Buffer) → IsValid b → IsValid (write_packet up p b).1
unfolding write_packet
write_packet-IsValid up p b v = ground (arith, insert_packet-IsValid p b)

pub set_tpm_sig-IsValid :
    (up : Bool) (i : ℕ) (sig : Option Bytes) (q : ℕ) (b : Buffer)
    → IsValid b
    → IsValid (set_tpm_sig up i sig q b).1
unfolding set_tpm_sig
set_tpm_sig-IsValid up i sig q b v = ground (
  arith,
  update_sig-RowValid b.quotes b.segments i sig q b.packets,
  keys-update_sig i sig q b.packets,
)

pub record_provenance_fault-IsValid :
    (up : Bool) (now : ℕ) (session : Bytes) (seq : ℕ) (reason : Bytes) (b : Buffer)
    → IsValid b
    → IsValid (record_provenance_fault up now session seq reason b).1
unfolding record_provenance_fault
record_provenance_fault-IsValid up now session seq reason b v = ground arith

pub write_attestation_key-IsValid :
    (up : Bool) (now : ℕ) (role alg material : Bytes) (b : Buffer)
    → IsValid b
    → IsValid (write_attestation_key up now role alg material b).1
unfolding write_attestation_key
write_attestation_key-IsValid up now role alg material b v = ground arith

add_quote-RowValid :
    (q : Quote) (b : Buffer) → IsValid b → All (RowValid (q ∷ b.quotes) b.segments) b.packets
add_quote-RowValid q b v =
    All-mono _ _ b.packets (λ p h. (QuoteExists-cons q b.quotes p.quote_ref h.0, h.1)) v.rows

pub write_quote-IsValid :
    (up : Bool) (now : ℕ) (q : QuoteRow) (b : Buffer)
    → IsValid b
    → IsValid (write_quote up now q b).1
unfolding write_quote
write_quote-IsValid up now q b v =
    ground (arith, add_quote-RowValid (record { id = b.next_quote; row = q; created_at = now }) b v)

add_segment-IsValid :
    (up : ℕ → Bool) (now : ℕ) (session : Bytes) (first last count : ℕ) (root : Bytes) (is : List ℕ)
    (b : Buffer) (ps : List Packet)
    → IsValid b
    → mark_rows up 3 b.next_segment is b.packets ≡ some ps
    → IsValid (add_segment now session first last count root ps b)
add_segment-IsValid up now session first last count root is b ps v e =
    let added = add_segment now session first last count root ps b in
    let row : Segment = record {
      id = b.next_segment;
      session_id = session;
      seq_start = first;
      seq_end = last;
      packet_count = count;
      merkle_root = root;
      created_at = now;
    } in
    let grown = InSegment-cons row b.segments in
    record {
      packet_keys =
          subst (KeysValid b.next_packet)
            (sym (keys-mark_rows up 3 b.next_segment is b.packets ps e)) v.packet_keys;
      quote_keys = v.quote_keys;
      segment_keys = (omega arith, v.segment_keys);
      rows =
          mark_rows-RowValid b.quotes (added.segments) up 3 b.next_segment is b.packets ps
            (ground arith)
            (All-mono (RowValid b.quotes b.segments) (RowValid b.quotes (added.segments)) b.packets
              (λ p h. (h.0, grown p.upload_state p.segment_id h.1)) v.rows)
            e;
    }

commit-IsValid :
    (up : Bool) (now : ℕ) (session : Bytes) (first last count : ℕ) (root : Bytes) (b : Buffer)
    (o : Option (List Packet))
    → IsValid b
    → ((ps : List Packet)
        → o ≡ some ps
        → IsValid (add_segment now session first last count root ps b))
    → IsValid (commit up (with_segment now session first last count root b o) b).1
commit-IsValid up now session first last count root b none v done = v
commit-IsValid true now session first last count root b (some c) v done = done c refl
commit-IsValid false now session first last count root b (some c) v done = v

pub write_segment-IsValid :
    (up : ℕ → Bool) (now : ℕ) (session : Bytes) (first last count : ℕ) (root : Bytes) (is : List ℕ)
    (b : Buffer)
    → IsValid b
    → IsValid (write_segment up now session first last count root is b).1
unfolding write_segment
write_segment-IsValid up now session first last count root is b v =
    let committed =
      commit-IsValid (up 2) now session first last count root b
        (mark_rows up 3 b.next_segment is b.packets) v
        (λ ps e. add_segment-IsValid up now session first last count root is b ps v e) in
    ground (arith, committed)

-- The statements of the daemon, with what the database and the clock say of each.
pub data Statement : Type 0 where
  packet : Bool → PacketRow → Statement
  signature : Bool → ℕ → Option Bytes → ℕ → Statement
  provenance_fault : Bool → ℕ → Bytes → ℕ → Bytes → Statement
  attestation_key : Bool → ℕ → Bytes → Bytes → Bytes → Statement
  quote : Bool → ℕ → QuoteRow → Statement
  segment : (ℕ → Bool) → ℕ → Bytes → ℕ → ℕ → ℕ → Bytes → List ℕ → Statement

unfoldable pub execute : Statement → Buffer → Buffer
execute (packet up p) b = (write_packet up p b).1
execute (signature up i sig q) b = (set_tpm_sig up i sig q b).1
execute (provenance_fault up now s n reason) b = (record_provenance_fault up now s n reason b).1
execute (attestation_key up now role alg material) b =
    (write_attestation_key up now role alg material b).1
execute (quote up now q) b = (write_quote up now q b).1
execute (segment up now s first last count root is) b =
    (write_segment up now s first last count root is b).1

unfoldable pub execute_all : List Statement → Buffer → Buffer
execute_all [] b = b
execute_all (s ∷ ss) b = execute_all ss (execute s b)

pub execute-IsValid : (s : Statement) (b : Buffer) → IsValid b → IsValid (execute s b)
unfolding execute
execute-IsValid (packet up p) b v = write_packet-IsValid up p b v
execute-IsValid (signature up i sig q) b v = set_tpm_sig-IsValid up i sig q b v
execute-IsValid (provenance_fault up now s n reason) b v =
    record_provenance_fault-IsValid up now s n reason b v
execute-IsValid (attestation_key up now role alg material) b v =
    write_attestation_key-IsValid up now role alg material b v
execute-IsValid (quote up now q) b v = write_quote-IsValid up now q b v
execute-IsValid (segment up now s first last count root is) b v =
    write_segment-IsValid up now s first last count root is b v

execute_all-keeps : (ss : List Statement) (b : Buffer) → IsValid b → IsValid (execute_all ss b)
unfolding execute_all
execute_all-keeps [] b v = v
execute_all-keeps (s ∷ ss) b v = execute_all-keeps ss (execute s b) (execute-IsValid s b v)

-- After any sequence of statements on new tables, whether each succeeds, violates a constraint or finds
-- the database unavailable: row numbers fall, no session has a sequence number twice, numbers fit 63
-- bits, the quote that a packet names exists, and a packet is either pending and in no segment or
-- uploaded and in a segment that exists.
pub execute_all-IsValid : (ss : List Statement) → IsValid (execute_all ss new_buffer)
execute_all-IsValid ss = execute_all-keeps ss new_buffer new_buffer-IsValid

-- ===== src/Lib.antt =====
-- axm-sfn, the Go daemon axm-edge of a fabrication node.
--
-- Moonraker's status deltas feed the printer state that the custody packetizer caches
-- (internal/custody/packetizer.go); they come from the client of internal/moonraker/client.go. A clock
-- makes one packet a tick during a print: the packetizer asks the policy engine
-- (internal/policy/engine.go) for a verdict, asks the TPM
-- (internal/tpm/attestation.go) for a quote now and then and for a signature, hashes the packet into
-- the session's chain and writes it to the hot buffer (internal/hotbuffer/buffer.go, hashes.go). The
-- uploader (internal/uploader/uploader.go) reads ranges of pending packets, computes a Merkle root over
-- their hashes and writes it back as a segment.
--
-- Files:
--   Common, Encoding, Floats  shared names, byte strings, 64-bit integers; little-endian numbers and
--                             hexadecimal text; float64 as an interface
--   Concurrency               threads of statements over one state (Thread, run_thread, interleave): Movers,
--                             Classes, Reduction and Serial (statements that commute, and whole threads in
--                             place of interleaved ones), Apart (a goroutine that another does not disturb)
--   Telemetry                 internal/telemetry/packet.go: CustodyPacket, Decision, Segment
--   Policy                    internal/policy/engine.go: NewEvaluator (new_evaluator), LoadProfile,
--                             ClearProfile, Evaluate (evaluate, through eval_rules, check_rule and
--                             record_check), TelemetryFromCustody. Below it: Strict (profiles without
--                             grace), Violations (which rules a snapshot violates) and Verdict (what
--                             Evaluate says of them), Streaks (the counters), Grace (grace epochs,
--                             shared fields)
--   Moonraker                 internal/moonraker: State (types.go: the cached printer state, IsActive),
--                             Client (client.go: Updates, handleStatusUpdate, readLoop), Handshake
--                             (call, identify, waitReady, subscribe, runOnce, Run); then Reading (what
--                             readLoop gives out) and Deaf (calls before readLoop); Delivery (readLoop and
--                             the packetizer take turns on Updates) and Lossless below it; Objects (NewClient's
--                             configuration, the request frames, DefaultSubscribeObjects) and Subscribed
--                             (what is subscribed to against what is read)
--   Tpm                       internal/tpm/attestation.go: DeriveQuoteNonce, QuoteResult, the nonce's
--                             truncation, pcrBitmap; Device (go-tpm's commands), Worker (Open, Close,
--                             SignPacket, Quote), Provision (ProvisionKeys); then Bitmap (its bits), Nonce
--                             (what a nonce stands for), Tidy (objects and files left behind) and
--                             Unprovisioned (what ProvisionKeys comes to)
--   Config                    internal/config/config.go: Config, DefaultConfig, Load
--   Command                   cmd/axm-edge/main.go: run (run_command), its flag set (Flags) and the command
--                             lines that it means to take (Usage), and what they do (Meaning)
--   HotBuffer                 internal/hotbuffer: Tables (the schema of migrate), Open (Open), Writes (WritePacket,
--                             SetTPMSig, RecordProvenanceFault, WriteAttestationKey, WriteQuote),
--                             Segments (PendingRange, WriteSegment, PacketHashes); then Invariant and
--                             Statements (validity), Outcomes (how statements end), Order, Runs and
--                             Pending (the queue), Drain (the queue after a segment), Readback (stored
--                             hashes); Commuting (which statements may change places): Columns (what
--                             PendingRange and PacketHashes go by), Marked (WriteSegment), Aside, Signed
--                             and Inserted (those of onTick beside it), Older (the rows of a range), Views
--                             (the tables as the packetizer sees them)
--   Custody                   internal/custody/packetizer.go: State (Packetizer, startNewSession,
--                             computePacketBLAKE3), Delta (applyDelta, detectLifecycleEdge), Tick
--                             (onTick, shouldQuote), Run (Run), Threads (onTick by its statements) and
--                             Whole below it (it is onTick); then Chain, Ledger, Written and GapFree
--                             (the chain of each session), Places and Recorded (what a tick appends),
--                             Unquoted (signatures without a quote), Quoted with Sealed and Runs (the
--                             quotes that packets name), Cadence with Due and Failed (when a quote is
--                             taken), Bound with Ticks (the packet that a quote is about), Named with
--                             Runs (the key that a quote's row names), Tamper (what a
--                             link commits to) and Silence (the silence counter)
--   Uploader                  internal/uploader/uploader.go: Root (localSegmentRoot, merkleReduce),
--                             Flush (flush, ship) and Threads below it (flush by its statements); the tree
--                             of RFC 6962, collisions, and the queue (Drained, Progress where nothing
--                             fails, and Emptied over many flushes)
--   Daemon                    cmd/axm-edge/main.go: the start's writes of key evidence (start), and the
--                             goroutines over the shared tables (run_daemon). Below it: Startup (a
--                             restart), Unsent, Stuck and Idle (what the uploader's session comes to); Boot
--                             (runProvision, runDaemon up to its goroutines), Attested (what it has of its
--                             TPM) and Attesting (what its quotes name), Process (main and its exit status), Ready (the ledger across a
--                             restart), Serve (the tickers of the goroutines), System (the client, the
--                             packetizer and the uploader together) and
--                             Mute (what they come to); Goroutines (packetizer and uploader by the
--                             statements of each, run_goroutines) with Classes and Shapes (which of them
--                             commute), Merging and Atomic (against run_daemon), Alone and Gapless (the packetizer
--                             beside the uploader)
--   Examples                  the theorems and the code at concrete inputs
--
-- Conventions. State is passed explicitly: an operation takes the packetizer or the tables and returns
-- them. A nil slice, pointer or SQL NULL is `none`. Go's int and int64 are signed integers whose
-- increment wraps at 64 bits; uint64 numbers are natural numbers with `% 2 ^ 64` where the code adds.
-- Tables are lists with the newest row first. A Go map with string keys is a function with default
-- (counters) or the list of its entries (telemetry, status), in the order in which the runtime gives
-- them out.
--
-- Parameters. BLAKE3 and SHA-256 (any functions; where a theorem needs 32 bytes of output it says so),
-- encoding/json, crypto/rand, the clocks, the TPM device and its answers, HTTP, yaml.v3, the file
-- system, and whether SQLite carries a statement out. A theorem quantifies over all of them. SQLite's
-- own part, from the schema: AUTOINCREMENT keys, UNIQUE, foreign keys and rollback, are written out.
-- float64 has no laws.
--
-- Fuel. merkleReduce calls itself on half of its level; the model has fuel, one for each hash of the
-- segment, which halving the level cannot use up.
--
-- Not modelled. Log lines, the websocket's connection, the pragmas and the connection pool of SQLite,
-- goroutines and locks but for what follows: one goroutine owns the packetizer and SQLite serialises
-- statements, so packetizer and uploader are a schedule of their statements (run_goroutines) or a
-- sequence of whole events (run_daemon); a connection of the client is one event beside the ticks and
-- flushes, and readLoop's reads alternate with what the packetizer receives. Nor the deferred Close of
-- the database, what main prints, LocalSegmentRootForHashes (another name of localSegmentRoot, for
-- tests) and the Python spoke.
pub mod Common
pub mod Encoding
pub mod Config
pub mod Concurrency
pub mod Command
pub mod Floats
pub mod Telemetry
pub mod Policy
pub mod Moonraker
pub mod Tpm
pub mod HotBuffer
pub mod Custody
pub mod Uploader
pub mod Daemon
pub mod Examples

-- ===== src/Examples/Connections.antt =====
-- The Moonraker client at inputs: the texts of frames are numbers here.
use mathlib.Core.List.{Sublistᴰ}
use axm_sfn.Common.{
  ℕ, ◌≤◌, ◌≡◌, refl, true, false, length, take, List, [], ◌∷◌, ◌++◌, map, some, none, arith,
}
use axm_sfn.Common.Int.{ℤ, pos}
use axm_sfn.Common.Text.{codes, bytes_eq}
use axm_sfn.Moonraker.Client.{
  Response, Client, ClientJson, new_client, Incoming, garbled, frame, read_loop, read_frame,
  handle_status_update, updates_capacity,
}
use axm_sfn.Moonraker.Handshake.{ping, CallEnv, ConnectEnv, waits, run_client}
use axm_sfn.Moonraker.Deaf.{Deaf, run_client_silent}
use axm_sfn.Moonraker.Reading.{deltas, read_loop-take}
use axm_sfn.Moonraker.Delivery.{
  Turn, reads, receives, Pipe, take_turns, offered, line, take_turns-sublist,
}
use axm_sfn.Moonraker.Delivery.Lossless.{HasRoom, take_turns-lossless}

-- Every text is an array of two, a status of one object, and so on.
abbrev json : ClientJson ℕ ℤ
json = record {
  array = λ raw. some (raw ∷ 7 ∷ []);
  status = λ raw. some ((codes "extruder", raw) ∷ []);
  number = λ raw. pos raw;
  klippy_state = λ raw. some (codes "ready");
  snapshot = λ raw. some ((codes "extruder", raw) ∷ [], pos raw);
}

abbrev notification : ℕ → Response ℕ
notification raw = record {
  id = pos 0;
  method = codes "notify_status_update";
  params = raw;
  result = 0;
  error = none;
}

abbrev reply : Response ℕ
reply = record (notification 3) { id = pos 1; method = [] }

abbrev disconnect : Response ℕ
disconnect = record (notification 0) { method = codes "notify_klippy_disconnected" }

abbrev frames : List (Incoming ℕ)
frames =
    frame 1 (notification 10)
    ∷ garbled
    ∷ frame 2 reply
    ∷ frame 3 (notification 11)
    ∷ frame 4 disconnect
    ∷ frame 5 (notification 12)
    ∷ []

abbrev client : Client ℕ ℤ
client = new_client

no_updates : length client.updates ≤ updates_capacity
unfolding new_client
no_updates = omega arith

read_loop-take_example :
    (read_loop json frames client).1.updates
    ≡ take updates_capacity (client.updates ++ deltas json frames)
read_loop-take_example = read_loop-take json frames client no_updates

-- The deltas of the two notifications before the disconnection.
two_deltas : map (λ d. d.received_at) (read_loop json frames client).1.updates ≡ 1 ∷ 3 ∷ []
unfolding read_loop read_frame handle_status_update bytes_eq new_client
two_deltas = refl

abbrev call_env : CallEnv
call_env = record {
  marshals = true;
  writes = true;
  meanwhile = ping true ∷ [];
  takes_reply = true;
  context_expires = true;
}

abbrev connection : ConnectEnv ℕ
connection = record {
  dials = true;
  identify_env = call_env;
  polls = record { call_env = call_env; cancelled = false } ∷ [];
  subscribe_env = call_env;
  now = 1;
  incoming = frames;
}

abbrev unreachable : ConnectEnv ℕ
unreachable = record connection { dials = false }

run_client_silent_example :
    (after : Client ℕ ℤ) × (run_client json (connection ∷ unreachable ∷ connection ∷ []) client
      ≡ waits after)
    × (after.updates ≡ client.updates)
    × Deaf json (connection ∷ unreachable ∷ connection ∷ []) client after
run_client_silent_example =
    run_client_silent json (connection ∷ unreachable ∷ connection ∷ []) client

-- The packetizer takes a delta between two reads, and waits on the empty channel before them.
abbrev turns : List (Turn ℕ)
turns =
    receives
    ∷ reads (frame 1 (notification 10))
    ∷ receives
    ∷ reads (frame 3 (notification 11))
    ∷ reads (frame 4 disconnect)
    ∷ reads (frame 5 (notification 12))
    ∷ receives
    ∷ []

abbrev pipe : Pipe ℕ ℤ
pipe = record { client = client; looping = true; received = [] }

two_received : map (λ d. d.received_at) (take_turns json turns pipe).received ≡ 1 ∷ 3 ∷ []
unfolding take_turns read_loop read_frame handle_status_update bytes_eq new_client
two_received = refl

take_turns-sublist_example :
    Sublistᴰ
      (line json (take_turns json turns pipe))
      (line json pipe ++ offered json pipe.looping turns)
take_turns-sublist_example = take_turns-sublist json turns pipe no_updates

always_room : HasRoom json turns pipe
unfolding HasRoom take_turns read_loop read_frame handle_status_update bytes_eq new_client
always_room = (
  omega arith,
  (
    omega arith,
    (omega arith, (omega arith, (omega arith, (omega arith, (omega arith, omega arith))))),
  ),
)

take_turns-lossless_example :
    line json (take_turns json turns pipe) ≡ line json pipe ++ offered json pipe.looping turns
take_turns-lossless_example = take_turns-lossless json turns pipe always_room

-- ===== src/Moonraker/Client.antt =====
-- internal/moonraker/client.go: the client's state, the routing of frames and readLoop. The websocket, encoding/json and the timers are parameters: each step is told what they do.
use axm_sfn.Common.{
  ℕ, Bool, false, not, List, [], ◌∷◌, ◌++◌, Option, none, some, length, ◌==◌, ltb, if◌then◌else◌,
}
use axm_sfn.Common.Int.{ℤ, pos, is_zero}
use axm_sfn.Common.Text.{Bytes, codes, bytes_eq}
use axm_sfn.Moonraker.State.{Status}

-- `RPCError` and `Response`
pub record RpcError : Type 0 where
  pub code : ℤ
  pub message : Bytes

pub record Response (Raw : Type 0) : Type 0 where
  pub id : ℤ
  pub method : Bytes
  pub params : Raw
  pub result : Raw
  pub error : Option RpcError

-- `StatusDelta`
pub record StatusDelta (Raw : Type 0) (F : Type 0) : Type 0 where
  pub status : Status Raw
  pub event_time : F
  pub received_at : ℕ

-- A pending call: its request's number and its channel, which holds one response.
abbrev pub Pending : Type 0 → Type 0
Pending Raw = List (ℕ × Option (Response Raw))

-- `Client`: what it changes while it runs.
pub record Client (Raw : Type 0) (F : Type 0) : Type 0 where
  pub next_id : ℕ
  pub pending : Pending Raw
  pub updates : List (StatusDelta Raw F)

-- encoding/json: an array; a status map; the number that Unmarshal leaves; the field klippy_state; the
-- status and time of a snapshot. `none` is an error.
pub record ClientJson (Raw : Type 0) (F : Type 0) : Type 0 where
  pub array : Raw → Option (List Raw)
  pub status : Raw → Option (Status Raw)
  pub number : Raw → F
  pub klippy_state : Raw → Option Bytes
  pub snapshot : Raw → Option (Status Raw × F)

pub data ClientError : Type 0 where
  dial_failed marshal_failed write_failed deadline timed_out decode_failed read_failed
        klippy_disconnected :
      ClientError
  rpc_error : RpcError → ClientError

pub data Outcome (A : Type 0) : Type 0 where
  returned : A → Outcome A
  failed : ClientError → Outcome A

-- `make(chan StatusDelta, 64)`
abbrev pub updates_capacity : ℕ
updates_capacity = 64

-- `NewClient`
unfoldable pub new_client : {Raw F : Type 0} → Client Raw F
new_client = record { next_id = 0; pending = []; updates = [] }

abbrev pub is_id : ℤ → ℕ → Bool
is_id (pos m) n = m == n
is_id _ n = false

module _ {Raw : Type 0} where
  -- The non-blocking send on the channel of a pending call.
  abbrev pub put_reply : ℕ → Response Raw → Option (Response Raw) → ℕ × Option (Response Raw)
  put_reply i r none = (i, some r)
  put_reply i r (some old) = (i, some old)

  unfoldable pub deliver : Response Raw → Pending Raw → Pending Raw
  deliver r [] = []
  deliver r ((i, slot) ∷ rest) =
      if is_id r.id i then put_reply i r slot ∷ rest else (i, slot) ∷ deliver r rest

module _ {Raw F : Type 0} where
  -- The non-blocking send on Updates.
  abbrev pub offer : StatusDelta Raw F → Client Raw F → Client Raw F
  offer d c =
      if ltb (length c.updates) updates_capacity
      then record c { updates = c.updates ++ d ∷ [] }
      else c

  module _ (json : ClientJson Raw F) where
    abbrev pub offer_status : ℕ → F → Option (Status Raw) → Client Raw F → Client Raw F
    offer_status now time none c = c
    offer_status now time (some status) c =
        offer (record { status = status; event_time = time; received_at = now }) c

    abbrev pub offer_params : ℕ → Option (List Raw) → Client Raw F → Client Raw F
    offer_params now none c = c
    offer_params now (some []) c = c
    offer_params now (some (x ∷ [])) c = c
    offer_params now (some (x ∷ y ∷ rest)) c = offer_status now (json.number y) (json.status x) c

    -- `handleStatusUpdate`
    unfoldable pub handle_status_update : ℕ → Raw → Client Raw F → Client Raw F
    handle_status_update now raw c = offer_params now (json.array raw) c

    -- The body of readLoop, for a frame that decodes.
    unfoldable pub read_frame : ℕ → Response Raw → Client Raw F → Option ClientError × Client Raw F
    read_frame now r c =
        if not (is_zero r.id)
        then (none, record c { pending = deliver r c.pending })
        else if bytes_eq r.method (codes "notify_status_update")
        then (none, handle_status_update now r.params c)
        else if bytes_eq r.method (codes "notify_klippy_disconnected")
        then (some klippy_disconnected, c)
        else (none, c)

-- What ReadMessage and Unmarshal give: an error, text that does not decode, or a frame.
pub data Incoming (Raw : Type 0) : Type 0 where
  broken garbled : Incoming Raw
  frame : ℕ → Response Raw → Incoming Raw

module _ {Raw F : Type 0} (json : ClientJson Raw F) where
  -- `readLoop`, over what has come in: no error as long as it goes on reading.
  unfoldable pub read_loop : List (Incoming Raw) → Client Raw F → Option ClientError × Client Raw F
  read_loop [] c = (none, c)
  read_loop (broken ∷ rest) c = (some read_failed, c)
  read_loop (garbled ∷ rest) c = read_loop rest c
  read_loop (frame now r ∷ rest) c = elim (read_frame json now r c).0 [
    | some e ↦ (some e, (read_frame json now r c).1)
    | none ↦ read_loop rest (read_frame json now r c).1
  ]

-- ===== src/Moonraker/Handshake.antt =====
-- internal/moonraker/client.go: call, identify, waitReady, subscribe, runOnce and Run. runOnce starts
-- pingLoop beside itself and calls readLoop only at its end, so while a call waits the one other
-- goroutine of the client is pingLoop.
use axm_sfn.Common.{
  ℕ, ◌+◌, Bool, not, List, [], ◌∷◌, ◌++◌, Option, none, some, length, ◌==◌, ltb, if◌then◌else◌,
}
use axm_sfn.Common.Text.{Bytes, codes, bytes_eq}
use axm_sfn.Moonraker.State.{Status}
use axm_sfn.Moonraker.Client.{
  RpcError, Response, Pending, Client, ClientJson, ClientError, dial_failed, marshal_failed,
  write_failed, deadline, timed_out, decode_failed, rpc_error, Outcome, returned, failed,
  updates_capacity, Incoming, read_loop,
}

-- A step of pingLoop: it writes a ping, with or without success, and touches nothing of the client.
pub data Background : Type 0 where
  ping : Bool → Background

-- What a call meets: whether its parameters serialise and its request is written, the steps of the
-- other goroutine while it waits, whether a response that is there is taken before an expiry, and
-- which expiry comes: the context's (or the 15 seconds').
pub record CallEnv : Type 0 where
  pub marshals : Bool
  pub writes : Bool
  pub meanwhile : List Background
  pub takes_reply : Bool
  pub context_expires : Bool

abbrev pub expiry : Bool → ClientError
expiry context = if context then deadline else timed_out

module _ {Raw : Type 0} where
  unfoldable pub reply_of : ℕ → Pending Raw → Option (Response Raw)
  reply_of i [] = none
  reply_of i ((j, slot) ∷ rest) = if j == i then slot else reply_of i rest

  -- `delete(c.pending, id)`
  unfoldable pub forget : ℕ → Pending Raw → Pending Raw
  forget i [] = []
  forget i ((j, slot) ∷ rest) =
      let kept = forget i rest in if j == i then kept else (j, slot) ∷ kept

  abbrev pub answer_of : Option RpcError → Response Raw → Outcome Raw
  answer_of none r = returned r.result
  answer_of (some e) r = failed (rpc_error e)

  -- The select of call.
  abbrev pub answer : CallEnv → Option (Response Raw) → Outcome Raw
  answer env none = failed (expiry env.context_expires)
  answer env (some r) =
      if not env.takes_reply then failed (expiry env.context_expires) else answer_of r.error r

module _ {Raw F : Type 0} where
  unfoldable pub run_background : List Background → Client Raw F → Client Raw F
  run_background [] c = c
  run_background (ping written ∷ rest) c = run_background rest c

  -- `send`: the request's number is taken whether it is sent or not.
  unfoldable pub send : CallEnv → Client Raw F → Outcome ℕ × Client Raw F
  send env c =
      let id = c.next_id + 1 in
      let taken = record c { next_id = id } in
      if not env.marshals
      then (failed marshal_failed, taken)
      else if not env.writes
      then (failed write_failed, taken)
      else (returned id, taken)

  -- The rest of `call`, for a request that was sent.
  unfoldable pub await : CallEnv → Outcome ℕ × Client Raw F → Outcome Raw × Client Raw F
  await env (failed e, c) = (failed e, c)
  await env (returned id, c) =
      let waited = run_background env.meanwhile (record c { pending = (id, none) ∷ c.pending }) in
      (
        answer env (reply_of id waited.pending),
        record waited { pending = forget id waited.pending },
      )

  -- `call`
  unfoldable pub call : CallEnv → Client Raw F → Outcome Raw × Client Raw F
  call env c = await env (send env c)

-- A poll of waitReady: its call, and whether the context ends in the three seconds behind it.
pub record Poll : Type 0 where
  pub call_env : CallEnv
  pub cancelled : Bool

-- What one connection meets.
pub record ConnectEnv (Raw : Type 0) : Type 0 where
  pub dials : Bool
  pub identify_env : CallEnv
  pub polls : List Poll
  pub subscribe_env : CallEnv
  pub now : ℕ
  pub incoming : List (Incoming Raw)

-- How far a step came: it goes on in a state, it ended with an error, or it still waits.
pub data Progress (Raw : Type 0) (F : Type 0) : Type 0 where
  goes_on : Client Raw F → Progress Raw F
  ended : ClientError → Client Raw F → Progress Raw F
  waits : Client Raw F → Progress Raw F

module _ {Raw F : Type 0} (json : ClientJson Raw F) where
  abbrev pub identified : Outcome Raw × Client Raw F → Progress Raw F
  identified (returned result, c) = goes_on c
  identified (failed e, c) = ended e c

  -- `identify`
  unfoldable pub identify : CallEnv → Client Raw F → Progress Raw F
  identify env c = identified (call env c)

  -- waitReady's test of a response; `none` asks for another poll.
  abbrev pub polled : Poll → Outcome Raw × Client Raw F → Option (Progress Raw F)
  polled poll (failed e, c) = some (ended e c)
  polled poll (returned result, c) = state_read (json.klippy_state result)
    where
      state_read : Option Bytes → Option (Progress Raw F)
      state_read none = some (ended decode_failed c)
      state_read (some state) =
          if bytes_eq state (codes "ready")
          then some (goes_on c)
          else if poll.cancelled
          then some (ended deadline c)
          else none

  -- `waitReady`, over the polls that there is time for.
  unfoldable pub wait_ready : List Poll → Client Raw F → Progress Raw F
  wait_ready [] c = waits c
  wait_ready (poll ∷ rest) c = elim (polled poll (call poll.call_env c)) [
    | some p ↦ p
    | none ↦ wait_ready rest (call poll.call_env c).1
  ]

  -- The blocking send of the snapshot, which waits where the channel is full.
  abbrev pub subscribed : ℕ → Option (Status Raw × F) → Client Raw F → Progress Raw F
  subscribed now none c = ended decode_failed c
  subscribed now (some (status, time)) c =
      if length status == 0
      then goes_on c
      else if ltb (length c.updates) updates_capacity
      then goes_on (record c {
        updates =
            c.updates ++ (record { status = status; event_time = time; received_at = now }) ∷ [];
      })
      else waits c

  abbrev pub subscription : ℕ → Outcome Raw × Client Raw F → Progress Raw F
  subscription now (failed e, c) = ended e c
  subscription now (returned result, c) = subscribed now (json.snapshot result) c

  -- `subscribe`
  unfoldable pub subscribe : CallEnv → ℕ → Client Raw F → Progress Raw F
  subscribe env now c = subscription now (call env c)

  abbrev pub reading : Option ClientError × Client Raw F → Progress Raw F
  reading (none, c) = waits c
  reading (some e, c) = ended e c

  abbrev pub then_go : Progress Raw F → (Client Raw F → Progress Raw F) → Progress Raw F
  then_go (goes_on c) next = next c
  then_go (ended e c) next = ended e c
  then_go (waits c) next = waits c

  -- `runOnce`
  unfoldable pub run_once : ConnectEnv Raw → Client Raw F → Progress Raw F
  run_once env c =
      if not env.dials
      then ended dial_failed c
      else then_go (identify env.identify_env c) (λ c. then_go (wait_ready env.polls c) (λ c.
        then_go (subscribe env.subscribe_env env.now c)
          (λ c. reading (read_loop json env.incoming c))))

  -- `Run`: one connection after the other; an error is logged.
  unfoldable pub run_client : List (ConnectEnv Raw) → Client Raw F → Progress Raw F
  run_client [] c = waits c
  run_client (env ∷ rest) c = elim (run_once env c) [
    | goes_on c' ↦ run_client rest c'
    | ended e c' ↦ run_client rest c'
    | waits c' ↦ waits c'
  ]

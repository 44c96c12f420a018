-- ===== src/Daemon/System.antt =====
-- cmd/axm-edge/main.go: the three goroutines, the client, the packetizer and the uploader, as one sequence
-- of their events. A connection of the client is one event.
use axm_sfn.Common.{List, [], ◌∷◌, Option, none, some}
use axm_sfn.Common.Text.{Bytes}
use axm_sfn.Floats.{Float64}
use axm_sfn.HotBuffer.Tables.{Buffer}
use axm_sfn.Custody.State.{Packetizer, Hashes, Seed, TickEnv}
use axm_sfn.Custody.Delta.{Unmarshal}
use axm_sfn.Custody.Run.{delta, tick}
use axm_sfn.Moonraker.Client.{StatusDelta, Client, ClientJson, new_client}
use axm_sfn.Moonraker.Handshake.{ConnectEnv, Progress, goes_on, ended, waits, run_once}
use axm_sfn.Uploader.Flush.{Uploader, FlushEnv}
use axm_sfn.Daemon.{custody, upload, step}
use axm_sfn.Daemon.Boot.{Launched}

pub record System (Raw : Type 0) (F : Type 0) : Type 0 where
  pub client : Client Raw F
  pub packetizer : Packetizer F
  pub buffer : Buffer

-- The client connects once, the packetizer's select takes from Updates or a tick, or the uploader's
-- ticker comes.
pub data SystemEvent (Raw : Type 0) (F : Type 0) : Type 0 where
  connects : ConnectEnv Raw → SystemEvent Raw F
  takes : Seed → SystemEvent Raw F
  ticks : TickEnv F → SystemEvent Raw F
  uploads : FlushEnv → SystemEvent Raw F

module _ {Raw F : Type 0} where
  abbrev pub client_of : Progress Raw F → Client Raw F
  client_of (goes_on c) = c
  client_of (ended e c) = c
  client_of (waits c) = c

  abbrev pub with_tables : System Raw F → Option (Packetizer F × Buffer) → Option (System Raw F)
  with_tables s none = none
  with_tables s (some (p, b)) = some (record s { packetizer = p; buffer = b })

module _ {Raw F : Type 0} ⦃fl : Float64 F⦄ (json : ClientJson Raw F) (h : Hashes)
    (decode : Unmarshal Raw F) (u : Uploader) (label : Bytes) where
  -- A receive from Updates; it waits where the channel is empty.
  unfoldable pub take_update :
      Seed → List (StatusDelta Raw F) → System Raw F → Option (System Raw F)
  take_update seed [] s = some s
  take_update seed (d ∷ rest) s =
      with_tables (record s { client = record s.client { updates = rest } })
        (step h decode u label (custody (delta seed d.status)) s.packetizer s.buffer)

  unfoldable pub system_step : SystemEvent Raw F → System Raw F → Option (System Raw F)
  unfolding take_update
  system_step (connects env) s = some (record s { client = client_of (run_once json env s.client) })
  system_step (takes seed) s = take_update seed s.client.updates s
  system_step (ticks env) s =
      with_tables s (step h decode u label (custody (tick env)) s.packetizer s.buffer)
  system_step (uploads env) s =
      with_tables s (step h decode u label (upload env) s.packetizer s.buffer)

  -- The events in order; `none` means that one did not return.
  unfoldable pub run_system :
      List (SystemEvent Raw F) → Option (System Raw F) → Option (System Raw F)
  run_system [] s = s
  run_system (e ∷ es) none = none
  run_system (e ∷ es) (some s) = run_system es (system_step e s)

-- The state in which runDaemon starts its goroutines.
unfoldable pub first_system : {Raw F : Type 0} → Launched F → Buffer → System Raw F
first_system l b = record { client = new_client; packetizer = l.packetizer; buffer = b }

-- ===== src/Custody/Run.antt =====
-- internal/custody/packetizer.go: the loop of Run, over the events that it selects.
use axm_sfn.Common.{List, [], ◌∷◌}
use axm_sfn.Common.Int.{pos}
use axm_sfn.Floats.{Float64}
use axm_sfn.HotBuffer.Tables.{Buffer}
use axm_sfn.Moonraker.State.{Status}
use axm_sfn.Custody.State.{Packetizer, Hashes, Seed, TickEnv}
use axm_sfn.Custody.Delta.{Unmarshal, apply_delta}
use axm_sfn.Custody.Tick.{on_tick}

-- A case of the select: a delta from Updates, with the random bytes that a new session would take, or a
-- tick of the custody clock.
pub data Event (Raw : Type 0) (F : Type 0) : Type 0 where
  delta : Seed → Status Raw → Event Raw F
  tick : TickEnv F → Event Raw F

module _ {Raw F : Type 0} ⦃fl : Float64 F⦄ (h : Hashes) (decode : Unmarshal Raw F) where
  -- A delta resets the silence counter.
  unfoldable pub handle : Event Raw F → Packetizer F → Buffer → Packetizer F × Buffer
  handle (delta seed status) p b =
      (record (apply_delta decode seed status p) { silent_ticks = pos 0 }, b)
  handle (tick env) p b = on_tick h env p b

  -- `Run`, until the context ends or the channel is closed.
  unfoldable pub run : List (Event Raw F) → Packetizer F → Buffer → Packetizer F × Buffer
  run [] p b = (p, b)
  run (e ∷ es) p b = let (p', b') = handle e p b in run es p' b'

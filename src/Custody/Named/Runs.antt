-- ===== src/Custody/Named/Runs.antt =====
-- internal/custody/packetizer.go: the quotes that a run of the custody clock adds.
use axm_sfn.Common.{inl, inr, refl, List, [], ◌∷◌, Option, none, some, Bool, Bool-cases}
use axm_sfn.Floats.{Float64}
use axm_sfn.HotBuffer.Tables.{Buffer}
use axm_sfn.Moonraker.State.{Status, is_active}
use axm_sfn.Custody.State.{Config, Packetizer, Hashes, Seed, TickEnv}
use axm_sfn.Custody.Delta.{
  Unmarshal, StatusObject, object_of, put_chamber, apply_object, apply_delta,
}
use axm_sfn.Custody.Tick.{judge_tick, on_tick}
use axm_sfn.Custody.Run.{Event, delta, tick, handle, run}
use axm_sfn.Custody.Named.{
  Named, Named-kept, detect_lifecycle_edge-Named, ensure_session-Named, count_silence-Named,
  seal_tick-Named,
}

module _ (cfg : Config) (tpm : Bool) (before : Buffer) {Raw F : Type 0}
    (decode : Unmarshal Raw F) where
  put_chamber-Named :
      (o : Option F) (p : Packetizer F) (b : Buffer)
      → Named cfg tpm before p b
      → Named cfg tpm before (put_chamber o p) b
  put_chamber-Named none p b n = n
  put_chamber-Named (some t) p b n = Named-kept cfg tpm before p _ b b refl refl refl refl n

  apply_object-Named :
      (seed : Seed) (obj : StatusObject) (raw : Raw) (p : Packetizer F) (b : Buffer)
      → Named cfg tpm before p b
      → Named cfg tpm before (apply_object decode seed obj raw p) b
  unfolding apply_object
  apply_object-Named seed StatusObject.print_stats raw p b n =
      detect_lifecycle_edge-Named cfg tpm before seed _ _ _ b
        (Named-kept cfg tpm before p _ b b refl refl refl refl n)
  apply_object-Named seed StatusObject.chamber raw p b n =
      put_chamber-Named (decode.chamber raw) p b n
  apply_object-Named seed StatusObject.other raw p b n = n
  apply_object-Named seed _ raw p b n = Named-kept cfg tpm before p _ b b refl refl refl refl n

  apply_delta-Named :
      (seed : Seed) (status : Status Raw) (p : Packetizer F) (b : Buffer)
      → Named cfg tpm before p b
      → Named cfg tpm before (apply_delta decode seed status p) b
  unfolding apply_delta
  apply_delta-Named seed [] p b n = n
  apply_delta-Named seed ((obj, raw) ∷ rest) p b n =
      apply_delta-Named seed rest (apply_object decode seed (object_of obj) raw p) b
        (apply_object-Named seed (object_of obj) raw p b n)

module _ (cfg : Config) (tpm : Bool) (before : Buffer) (h : Hashes) {F : Type 0}
    ⦃fl : Float64 F⦄ where
  judge_tick-Named :
      (env : TickEnv F) (p : Packetizer F) (b : Buffer)
      → Named cfg tpm before p b
      → Named cfg tpm before (judge_tick h env p b).0 (judge_tick h env p b).1
  unfolding judge_tick
  judge_tick-Named env p b n =
      seal_tick-Named cfg tpm before h env _ _ _ b
        (Named-kept cfg tpm before p _ b b refl refl refl refl n)

  on_tick-Named :
      (env : TickEnv F) (p : Packetizer F) (b : Buffer)
      → Named cfg tpm before p b
      → Named cfg tpm before (on_tick h env p b).0 (on_tick h env p b).1
  unfolding on_tick
  on_tick-Named env p b n = elim (Bool-cases (is_active p.state)) [
    | inl e ↦ rw e (
        judge_tick-Named env _ _ (
          count_silence-Named cfg tpm before env _ b
            (ensure_session-Named cfg tpm before env p b n)))
    | inr d ↦ rw d n
  ]

module _ (cfg : Config) (tpm : Bool) (before : Buffer) (h : Hashes) {Raw F : Type 0}
    ⦃fl : Float64 F⦄ (decode : Unmarshal Raw F) where
  handle-Named :
      (e : Event Raw F) (p : Packetizer F) (b : Buffer)
      → Named cfg tpm before p b
      → Named cfg tpm before (handle h decode e p b).0 (handle h decode e p b).1
  unfolding handle
  handle-Named (delta seed status) p b n =
      Named-kept cfg tpm before _ _ b b refl refl refl refl
        (apply_delta-Named cfg tpm before decode seed status p b n)
  handle-Named (tick env) p b n = on_tick-Named cfg tpm before h env p b n

  pub run-Named :
      (es : List (Event Raw F)) (p : Packetizer F) (b : Buffer)
      → Named cfg tpm before p b
      → Named cfg tpm before (run h decode es p b).0 (run h decode es p b).1
  unfolding run
  run-Named [] p b n = n
  run-Named (e ∷ es) p b n = run-Named es _ _ (handle-Named e p b n)

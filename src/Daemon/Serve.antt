-- ===== src/Daemon/Serve.antt =====
-- cmd/axm-edge/main.go, the end of runDaemon: the goroutines begin, in some order, and main waits for the
-- signal. The packetizer's and the uploader's Run begin with time.NewTicker, which panics at an interval
-- that is not positive; a panic in a goroutine ends the process.
use axm_sfn.Common.{
  Bool, true, false, ◌≡◌, ◌≢◌, refl, List, [], ◌∷◌, Option, none, some, arith, if◌then◌else◌, subst,
  ◌⊎◌, inl, inr,
}
use axm_sfn.Common.Int.{ℤ, pos, leb_ℤ}
use axm_sfn.Common.Text.{Bytes}
use axm_sfn.Config.{Config, Files, load, zero_config, default_config}
use axm_sfn.Command.{config_or_default}
use axm_sfn.Floats.{Float64}
use axm_sfn.Tpm.Worker.{Worker}
use axm_sfn.Daemon.Boot.{Launched, launch}

pub data Routine : Type 0 where
  moonraker packetizer uploader : Routine

-- A goroutine has its first turn, or the signal comes.
pub data Turn : Type 0 where
  begins : Routine → Turn
  shutdown : Turn

pub data Exit : Type 0 where
  serving panicked returned : Exit

-- `time.NewTicker`
abbrev pub ticker_panics : ℤ → Bool
ticker_panics interval = leb_ℤ interval (pos 0)

module _ {F : Type 0} where
  unfoldable pub begin_panics : Launched F → Routine → Bool
  begin_panics l moonraker = false
  begin_panics l packetizer = ticker_panics l.period
  begin_panics l uploader = ticker_panics l.retry_interval

  unfoldable pub serve : Launched F → List Turn → Exit
  serve l [] = serving
  serve l (shutdown ∷ turns) = returned
  serve l (begins r ∷ turns) =
      let rest = serve l turns in if begin_panics l r then panicked else rest

-- The routine has a turn before the signal.
abbrev pub Begins : Routine → List Turn → Type 0
Begins r [] = ⊥
Begins r (shutdown ∷ turns) = ⊥
Begins r (begins q ∷ turns) = (q ≡ r) ⊎ Begins r turns

module _ {F : Type 0} where
  serve-panicked :
      (l : Launched F) (r : Routine) (turns : List Turn)
      → begin_panics l r ≡ true
      → Begins r turns
      → serve l turns ≡ panicked
  unfolding serve
  serve-panicked l r [] bad turn = elim turn [ ]
  serve-panicked l r (shutdown ∷ turns) bad turn = elim turn [ ]
  serve-panicked l r (begins q ∷ turns) bad (inl e) = rw (e, bad)
  serve-panicked l r (begins q ∷ turns) bad (inr later) =
      ground (arith, serve-panicked l r turns bad later)

  serve-ne-panicked :
      (l : Launched F) (turns : List Turn)
      → ((r : Routine) → begin_panics l r ≡ false)
      → serve l turns ≢ panicked
  unfolding serve
  serve-ne-panicked l [] fine e = cc
  serve-ne-panicked l (shutdown ∷ turns) fine e = cc
  serve-ne-panicked l (begins r ∷ turns) fine e = serve-ne-panicked l turns fine (rw (fine r) at e)

module _ {F : Type 0} ⦃fl : Float64 F⦄ where
  launch-panics :
      (cfg : Config) (worker : Option Worker) (l : Launched F)
      → launch cfg worker ≡ l
      → cfg.custody.period ≡ pos 0
      → begin_panics l packetizer ≡ true
  unfolding launch begin_panics
  launch-panics cfg worker l e zero =
      subst (λ (l : Launched F). ticker_panics l.period ≡ true) e (rw zero refl)

  -- A configuration file that can be read and decoded and whose text leaves custody.period alone ends the
  -- daemon in a panic as soon as the packetizer begins, since Load decodes into zero values and not into
  -- the defaults.
  pub serve_unset_period :
      (files : Files) (path text : Bytes) (cfg : Config) (worker : Option Worker) (l : Launched F)
      (turns : List Turn)
      → files.read_file path ≡ some text
      → files.unmarshal text zero_config ≡ some cfg
      → ((before after : Config)
          → files.unmarshal text before ≡ some after
          → after.custody.period ≡ before.custody.period)
      → launch (config_or_default (load files path)) worker ≡ l
      → Begins packetizer turns
      → serve l turns ≡ panicked
  unfolding load config_or_default
  serve_unset_period files path text cfg worker l turns reads decodes leaves launches turn =
      serve-panicked l packetizer turns
        (launch-panics cfg worker l (rw (reads, decodes) at launches)
          (leaves zero_config cfg decodes))
        turn

  launch-fine :
      (worker : Option Worker) (l : Launched F)
      → launch default_config worker ≡ l
      → (r : Routine) → begin_panics l r ≡ false
  unfolding launch begin_panics default_config
  launch-fine worker l e moonraker = refl
  launch-fine worker l e packetizer =
      subst (λ (l : Launched F). ticker_panics l.period ≡ false) e refl
  launch-fine worker l e uploader =
      subst (λ (l : Launched F). ticker_panics l.retry_interval ≡ false) e refl

  -- Where no configuration can be loaded the daemon runs with the defaults, and never panics.
  serve_default :
      (files : Files) (path : Bytes) (worker : Option Worker) (l : Launched F) (turns : List Turn)
      → load files path ≡ none
      → launch (config_or_default (load files path)) worker ≡ l
      → serve l turns ≢ panicked
  unfolding config_or_default
  serve_default files path worker l turns fails launches =
      serve-ne-panicked l turns (launch-fine worker l (rw fails at launches))

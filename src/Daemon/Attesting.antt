-- ===== src/Daemon/Attesting.antt =====
-- cmd/axm-edge/main.go: what a launched daemon's quotes and its key evidence say of each other.
use axm_sfn.Common.{
  ◌≡◌, refl, ap, ◌∙◌, Bool, true, false, List, [], ◌∷◌, ◌++◌, Option, none, some, arith, All,
}
use axm_sfn.Common.Text.{codes}
use axm_sfn.Config
use axm_sfn.Config.{Files}
use axm_sfn.Floats.{Float64}
use axm_sfn.HotBuffer.Tables.{Quote, Buffer}
use axm_sfn.HotBuffer.Writes.{has_key}
use axm_sfn.Tpm.Device.{Device}
use axm_sfn.Tpm.Worker.{Worker}
use axm_sfn.Custody.State.{Config, Packetizer, Hashes}
use axm_sfn.Custody.Delta.{Unmarshal}
use axm_sfn.Custody.Run.{Event, run}
use axm_sfn.Custody.Named.{NamesKey, Named}
use axm_sfn.Custody.Named.Runs.{run-Named}
use axm_sfn.Daemon.Startup.{Holds}
use axm_sfn.Daemon.Boot.{BootEnv, Launched, launched, boot}
use axm_sfn.Daemon.Attested.{IsAttested, boot-IsAttested}

-- The row of a quote names the attestation key and the PCRs that the worker quotes with.
abbrev pub NamesWorker : Worker → Quote → Type 0
NamesWorker w q = (q.row.ak_handle ≡ w.cfg.ak_handle) × (q.row.pcrs ≡ w.cfg.pcrs)

module _ {F : Type 0} where
  -- The quotes that were added since `before` name the worker's key and PCRs, and the tables hold both of
  -- its public keys.
  pub record AttestsWith (w : Worker) (p : Packetizer F) (before b : Buffer) : Type 0 where
    pub has_tpm : p.has_tpm ≡ true
    pub added : List Quote
    pub quotes : b.quotes ≡ added ++ before.quotes
    pub names : All (NamesWorker w) added
    pub sign : Holds (codes "sign_pub") w.sign_pub b
    pub ak : Holds (codes "ak_pub") w.ak_pub b

  abbrev pub Attests : Option Worker → Packetizer F → Buffer → Buffer → Type 0
  Attests none p before b = (p.has_tpm ≡ false) × (b.quotes ≡ before.quotes)
  Attests (some w) p before b = AttestsWith w p before b

All-NamesWorker :
    (cfg : Config) (tpm : Bool) (w : Worker) (qs : List Quote)
    → cfg.ak_handle ≡ w.cfg.ak_handle
    → cfg.pcrs ≡ w.cfg.pcrs
    → All (NamesKey cfg tpm) qs
    → All (NamesWorker w) qs
All-NamesWorker cfg tpm w [] e f a = tt
All-NamesWorker cfg tpm w (q ∷ qs) e f a =
    ((a.0.handle ∙ e, a.0.selection ∙ f), All-NamesWorker cfg tpm w qs e f a.1)

none_taken :
    (cfg : Config) (tpm : Bool) (qs : List Quote)
    → tpm ≡ false
    → All (NamesKey cfg tpm) qs
    → qs ≡ []
none_taken cfg tpm [] e a = refl
none_taken cfg tpm (q ∷ qs) e a = let t = a.0.taken in absurd (ground (arith, t, e))

module _ {F : Type 0} where
  IsAttested-Attests :
      (o : Option Worker) (l : Launched F) (p : Packetizer F) (after b : Buffer)
      → IsAttested o l after
      → Named l.packetizer.cfg l.packetizer.has_tpm after p b
      → Attests o p after b
  IsAttested-Attests none l p after b e n = (
    n.same_tpm ∙ e,
    n.quotes
        ∙ ap (λ qs. qs ++ after.quotes)
            (none_taken l.packetizer.cfg l.packetizer.has_tpm n.added e n.names),
  )
  IsAttested-Attests (some w) l p after b e n = record {
    has_tpm = n.same_tpm ∙ e.has_tpm;
    added = n.added;
    quotes = n.quotes;
    names =
        All-NamesWorker l.packetizer.cfg l.packetizer.has_tpm w n.added e.handle e.selection
          n.names;
    sign = ap (has_key (codes "sign_pub") w.sign_pub) n.same_keys ∙ e.sign;
    ak = ap (has_key (codes "ak_pub") w.ak_pub) n.same_keys ∙ e.ak;
  }

module _ {Raw F D : Type 0} ⦃fl : Float64 F⦄ (h : Hashes) (decode : Unmarshal Raw F)
    (dev : Device D) (files : Files) (env : BootEnv) (cfg : Config.Config) where
  -- In whatever run of the packetizer follows, a daemon that was launched with a worker adds only quotes
  -- whose rows name the worker's attestation key and PCRs, and has both of the worker's public keys in
  -- the table; one that was launched without a worker adds no quote.
  pub boot-run-Attests :
      (file : Option Buffer) (d last : D) (l : Launched F) (after : Buffer)
      (es : List (Event Raw F))
      → boot dev files env cfg file d ≡ (launched l, some after, last)
      → let (p, b) = run h decode es l.packetizer after in Attests l.worker p after b
  boot-run-Attests file d last l after es booted =
      IsAttested-Attests l.worker l _ after _
        (boot-IsAttested dev files env cfg file d last l after booted)
        (run-Named l.packetizer.cfg l.packetizer.has_tpm after h decode es l.packetizer after
          (record {
            same_cfg = refl;
            same_tpm = refl;
            same_keys = refl;
            added = [];
            quotes = refl;
            names = tt;
          }))

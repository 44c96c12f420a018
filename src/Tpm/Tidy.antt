-- ===== src/Tpm/Tidy.antt =====
-- internal/tpm/attestation.go: what Open and ProvisionKeys leave behind on the device.
use axm_sfn.Common.{ℕ, suc, ◌-◌, ◌≡◌, refl, ◌∙◌, List, ◌∷◌, Option, none, some, arith}
use axm_sfn.Common.Text.{Bytes}
use axm_sfn.Tpm.Device.{
  Reply, done, refused, CreatePrimary, EvictControl, Device, Tried, succeeded, failed,
}
use axm_sfn.Tpm.Worker.{
  Config, Worker, open_worker, check_handles, check_opened, close_on_error, take_ak_pub,
  take_sign_pub, close_worker, close_tpm,
}
use axm_sfn.Tpm.Provision.{
  provision_keys, provision_opened, then_create_ak, ak_outcome, create_persistent_ak,
  create_persistent_rsapss_key, persist_primary, persist_object,
}

-- What a device holds for its user: the transient objects, newest first, and the open files.
pub record Held : Type 0 where
  pub objects : List ℕ
  pub files : ℕ

-- How the calls change that: opening and closing the file count, CreatePrimary loads an object,
-- FlushContext of the newest takes it off, and nothing else loads or flushes.
pub record Tracks {D : Type 0} (dev : Device D) (held : D → Held) : Type 0 where
  pub open_done :
      (path : Bytes) (d after : D)
      → dev.open_file path d ≡ (done tt, after)
      → held after ≡ record { objects = (held d).objects; files = suc (held d).files }
  pub open_refused :
      (path : Bytes) (rc : ℕ) (d after : D)
      → dev.open_file path d ≡ (refused rc, after)
      → held after ≡ held d
  pub close_held :
      (d : D)
      → held (dev.close_file d) ≡ record { objects = (held d).objects; files = (held d).files - 1 }
  pub read_held : (handle : ℕ) (d : D) → held (dev.read_public handle d).1 ≡ held d
  pub create_done :
      (c : CreatePrimary) (object : ℕ) (d after : D)
      → dev.create_primary c d ≡ (done object, after)
      → held after ≡ record { objects = object ∷ (held d).objects; files = (held d).files }
  pub create_refused :
      (c : CreatePrimary) (rc : ℕ) (d after : D)
      → dev.create_primary c d ≡ (refused rc, after)
      → held after ≡ held d
  pub evict_held : (c : EvictControl) (d : D) → held (dev.evict_control c d).1 ≡ held d
  pub flush_held :
      (object : ℕ) (rest : List ℕ) (files : ℕ) (d : D)
      → held d ≡ record { objects = object ∷ rest; files = files }
      → held (dev.flush_context object d) ≡ record { objects = rest; files = files }

module _ {D : Type 0} (dev : Device D) (held : D → Held) (t : Tracks dev held) where
  held-persist_primary :
      (handle : ℕ) (c : CreatePrimary) (d : D) (made : Reply ℕ × D)
      → dev.create_primary c d ≡ made
      → held (persist_primary dev handle made).1 ≡ held d
  unfolding persist_primary persist_object
  held-persist_primary handle c d (refused rc, after) e = t.create_refused c rc d after e
  held-persist_primary handle c d (done object, after) e =
      t.flush_held object (held d).objects (held d).files _
        (t.evict_held _ after ∙ t.create_done c object d after e)

  closed_once :
      (n : Held) (d : D)
      → held d ≡ record { objects = n.objects; files = suc n.files }
      → held (dev.close_file d) ≡ n
  closed_once n d e = t.close_held d ∙ rw e (ground arith)

  held-ak_outcome : (r : Option ℕ × D) → held (ak_outcome dev r).1 ≡ held (dev.close_file r.1)
  held-ak_outcome (none, d) = refl
  held-ak_outcome (some rc, d) = refl

  held-then_create_ak :
      (cfg : Config) (n : Held) (r : Option ℕ × D)
      → held r.1 ≡ record { objects = n.objects; files = suc n.files }
      → held (then_create_ak dev cfg r).1 ≡ n
  unfolding create_persistent_ak
  held-then_create_ak cfg n (some rc, d) e = closed_once n d e
  held-then_create_ak cfg n (none, d) e =
      held-ak_outcome (create_persistent_ak dev cfg.ak_handle d)
      ∙ closed_once n _ (held-persist_primary cfg.ak_handle _ d _ refl ∙ e)

  held-provision_opened :
      (cfg : Config) (d : D) (opened : Reply (Unit {0}) × D)
      → dev.open_file cfg.device d ≡ opened
      → held (provision_opened dev cfg opened).1 ≡ held d
  unfolding create_persistent_rsapss_key
  held-provision_opened cfg d (refused rc, after) e = t.open_refused cfg.device rc d after e
  held-provision_opened cfg d (done u, after) e =
      held-then_create_ak cfg (held d) (create_persistent_rsapss_key dev cfg.sign_key_handle after)
        (held-persist_primary cfg.sign_key_handle _ after _ refl ∙ t.open_done cfg.device d after e)

  held-take_ak_pub : (w : Worker) (r : Reply Bytes × D) → held (take_ak_pub w r).1 ≡ held r.1
  held-take_ak_pub w (done key, d) = refl
  held-take_ak_pub w (refused rc, d) = refl

  held-take_sign_pub :
      (w : Worker) (r : Reply Bytes × D) → held (take_sign_pub dev w r).1 ≡ held r.1
  held-take_sign_pub w (done key, d) =
      held-take_ak_pub (record w { sign_pub = key }) (dev.read_public w.cfg.ak_handle d)
      ∙ t.read_held w.cfg.ak_handle d
  held-take_sign_pub w (refused rc, d) = refl

  held-check_handles : (w : Worker) (d : D) → held (check_handles dev w d).1 ≡ held d
  unfolding check_handles
  held-check_handles w d =
      held-take_sign_pub w (dev.read_public w.cfg.sign_key_handle d)
      ∙ t.read_held w.cfg.sign_key_handle d

  -- A worker keeps its file open; an error leaves none open.
  abbrev HoldsFile : Held → Tried Worker × D → Type 0
  HoldsFile n (failed e, d) = held d ≡ n
  HoldsFile n (succeeded w, d) = held d ≡ record { objects = n.objects; files = suc n.files }

  close_on_error-HoldsFile :
      (n : Held) (r : Tried Worker × D)
      → held r.1 ≡ record { objects = n.objects; files = suc n.files }
      → HoldsFile n (close_on_error dev r)
  close_on_error-HoldsFile n (failed e, d) h = closed_once n d h
  close_on_error-HoldsFile n (succeeded w, d) h = h

  check_opened-HoldsFile :
      (cfg : Config) (d : D) (opened : Reply (Unit {0}) × D)
      → dev.open_file cfg.device d ≡ opened
      → HoldsFile (held d) (check_opened dev cfg opened)
  check_opened-HoldsFile cfg d (refused rc, after) e = t.open_refused cfg.device rc d after e
  check_opened-HoldsFile cfg d (done u, after) e =
      close_on_error-HoldsFile (held d) _
        (held-check_handles _ after ∙ t.open_done cfg.device d after e)

  open_worker-HoldsFile : (cfg : Config) (d : D) → HoldsFile (held d) (open_worker dev cfg d)
  unfolding open_worker
  open_worker-HoldsFile cfg d = check_opened-HoldsFile cfg d (dev.open_file cfg.device d) refl

  held-close_tpm : (n : Held) (r : Tried Worker × D) → HoldsFile n r → held (close_tpm dev r) ≡ n
  unfolding close_worker
  held-close_tpm n (failed e, d) h = h
  held-close_tpm n (succeeded w, d) h = closed_once n d h

  -- Where Open fails the device holds what it held before, and where it gives a worker the device does so
  -- once the worker is closed.
  pub held-open_worker :
      (cfg : Config) (d : D) → held (close_tpm dev (open_worker dev cfg d)) ≡ held d
  held-open_worker cfg d =
      held-close_tpm (held d) (open_worker dev cfg d) (open_worker-HoldsFile cfg d)

  -- On every path ProvisionKeys leaves the device as it found it as far as transient objects and open
  -- files go: none is left behind, whichever of its commands fail.
  pub held-provision_keys : (cfg : Config) (d : D) → held (provision_keys dev cfg d).1 ≡ held d
  unfolding provision_keys
  held-provision_keys cfg d = held-provision_opened cfg d (dev.open_file cfg.device d) refl

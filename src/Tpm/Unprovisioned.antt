-- ===== src/Tpm/Unprovisioned.antt =====
-- internal/tpm/attestation.go: what ProvisionKeys comes to. Both keys are made below the null hierarchy
-- and then made persistent under the owner's authorisation.
use axm_sfn.Common.{ℕ, ◌≡◌, refl, ◌∙◌, ap, sym, subst, arith, [], Option, none, some}
use axm_sfn.Common.Text.{Bytes}
use axm_sfn.Tpm.Device.{
  Reply, done, refused, rh_null, rh_owner, Public, CreatePrimary, EvictControl, Device, TpmError,
  open_error, sign_key_not_found, create_sign_key_error, failed,
}
use axm_sfn.Tpm.Worker.{
  Config, Worker, open_worker, check_handles, check_opened, close_on_error, take_sign_pub,
}
use axm_sfn.Tpm.Provision.{
  provision_keys, provision_opened, then_create_ak, create_persistent_rsapss_key, persist_primary,
  persist_object, signing_template, error_code,
}

-- What the TPM 2.0 library specification says of the commands, for a device whose persistent objects are
-- `stored` (a handle's public area). An object of the null hierarchy is temporary, and EvictControl
-- refuses a temporary object; a refused command and the calls that are no EvictControl leave the
-- persistent objects alone; ReadPublic refuses a handle without an object.
pub record IsTpm {D : Type 0} (dev : Device D) (stored : D → ℕ → Option Bytes) : Type 0 where
  pub temporary :
      (key : Public) (object handle : ℕ) (d after : D)
      → dev.create_primary (record { primary_handle = rh_null; in_public = key }) d
        ≡ (done object, after)
      → (rc : ℕ) × (last : D) × (dev.evict_control
            (record { auth = rh_owner; object_handle = object; persistent_handle = handle })
            after
          ≡ (refused rc, last))
  pub refused_stored :
      (c : EvictControl) (rc : ℕ) (d after : D)
      → dev.evict_control c d ≡ (refused rc, after)
      → stored after ≡ stored d
  pub open_stored : (path : Bytes) (d : D) → stored (dev.open_file path d).1 ≡ stored d
  pub close_stored : (d : D) → stored (dev.close_file d) ≡ stored d
  pub create_stored : (c : CreatePrimary) (d : D) → stored (dev.create_primary c d).1 ≡ stored d
  pub flush_stored : (object : ℕ) (d : D) → stored (dev.flush_context object d) ≡ stored d
  pub read_missing :
      (handle : ℕ) (d : D)
      → stored d handle ≡ none
      → (rc : ℕ) × ((dev.read_public handle d).0 ≡ refused rc)

-- An error came back, and the persistent objects are as before.
record Refuses {D : Type 0} (stored : D → ℕ → Option Bytes) (before : ℕ → Option Bytes)
    (r : Option ℕ × D) : Type 0 where
  code : ℕ
  error : r.0 ≡ some code
  kept : stored r.1 ≡ before

record Fails {D : Type 0} (stored : D → ℕ → Option Bytes) (before : ℕ → Option Bytes)
    (r : Option TpmError × D) : Type 0 where
  reason : TpmError
  error : r.0 ≡ some reason
  kept : stored r.1 ≡ before

module _ {D : Type 0} (dev : Device D) (stored : D → ℕ → Option Bytes) (t : IsTpm dev stored) where
  persist_object-Refuses :
      (handle object rc : ℕ) (d last : D)
      → dev.evict_control
          (record { auth = rh_owner; object_handle = object; persistent_handle = handle })
          d
        ≡ (refused rc, last)
      → Refuses stored (stored d) (persist_object dev handle object d)
  unfolding persist_object
  persist_object-Refuses handle object rc d last e = record {
    code = rc;
    error = ap (λ r. error_code r.0) e;
    kept = t.flush_stored object _ ∙ ap (λ r. stored r.1) e ∙ t.refused_stored _ rc d last e;
  }

  persist_primary-Refuses :
      (handle : ℕ) (key : Public) (d : D) (made : Reply ℕ × D)
      → dev.create_primary (record { primary_handle = rh_null; in_public = key }) d ≡ made
      → Refuses stored (stored d) (persist_primary dev handle made)
  unfolding persist_primary
  persist_primary-Refuses handle key d (refused rc, after) e = record {
    code = rc;
    error = refl;
    kept = sym (ap (λ r. stored r.1) e) ∙ t.create_stored _ d;
  }
  persist_primary-Refuses handle key d (done object, after) e =
      let (rc, last, denied) = t.temporary key object handle d after e in
      let r = persist_object-Refuses handle object rc after last denied in
      record {
        code = r.code;
        error = r.error;
        kept = r.kept ∙ sym (ap (λ r. stored r.1) e) ∙ t.create_stored _ d;
      }

  then_create_ak-Fails :
      (cfg : Config) (before : ℕ → Option Bytes) (r : Option ℕ × D)
      → Refuses stored before r
      → Fails stored before (then_create_ak dev cfg r)
  then_create_ak-Fails cfg before (none, d) f = absurd (ground (arith, f.error))
  then_create_ak-Fails cfg before (some rc, d) f = record {
    reason = create_sign_key_error rc;
    error = refl;
    kept = t.close_stored d ∙ f.kept;
  }

  provision_opened-Fails :
      (cfg : Config) (d : D) (opened : Reply (Unit {0}) × D)
      → dev.open_file cfg.device d ≡ opened
      → Fails stored (stored d) (provision_opened dev cfg opened)
  unfolding create_persistent_rsapss_key
  provision_opened-Fails cfg d (refused rc, after) e = record {
    reason = open_error rc;
    error = refl;
    kept = sym (ap (λ r. stored r.1) e) ∙ t.open_stored cfg.device d;
  }
  provision_opened-Fails cfg d (done u, after) e = then_create_ak-Fails cfg (stored d) _ (
      subst
        (λ before.
          Refuses stored before (create_persistent_rsapss_key dev cfg.sign_key_handle after))
        (sym (ap (λ r. stored r.1) e) ∙ t.open_stored cfg.device d)
        (persist_primary-Refuses cfg.sign_key_handle signing_template after _ refl))

  take_sign_pub_fails :
      (w : Worker) (r : Reply Bytes × D) (rc : ℕ)
      → r.0 ≡ refused rc
      → (e : TpmError) × ((close_on_error dev (take_sign_pub dev w r)).0 ≡ failed e)
  take_sign_pub_fails w (done key, d) rc e = absurd (ground arith)
  take_sign_pub_fails w (refused code, d) rc e =
      (sign_key_not_found w.cfg.sign_key_handle code, refl)

  check_opened_fails :
      (cfg : Config) (opened : Reply (Unit {0}) × D)
      → stored opened.1 cfg.sign_key_handle ≡ none
      → (e : TpmError) × ((check_opened dev cfg opened).0 ≡ failed e)
  unfolding check_handles
  check_opened_fails cfg (refused rc, d) missing = (open_error rc, refl)
  check_opened_fails cfg (done u, d) missing =
      let (rc, denied) = t.read_missing cfg.sign_key_handle d missing in
      take_sign_pub_fails (record { cfg = cfg; sign_pub = []; ak_pub = [] }) _ rc denied

  -- On a TPM without an object at the signing key's handle ProvisionKeys fails, whatever the
  -- configuration, it creates nothing there, and Open fails afterwards.
  pub provision_keys_fails :
      (cfg : Config) (d : D)
      → stored d cfg.sign_key_handle ≡ none
      → (e : TpmError) × (o : TpmError) × ((provision_keys dev cfg d).0 ≡ some e)
        × (stored (provision_keys dev cfg d).1 ≡ stored d)
        × ((open_worker dev cfg (provision_keys dev cfg d).1).0 ≡ failed o)
  unfolding provision_keys open_worker
  provision_keys_fails cfg d missing =
      let f = provision_opened-Fails cfg d (dev.open_file cfg.device d) refl in
      let again = dev.open_file cfg.device (provision_keys dev cfg d).1 in
      let (o, denied) =
        check_opened_fails cfg again
          (ap (λ s. s cfg.sign_key_handle) (t.open_stored cfg.device _ ∙ f.kept) ∙ missing) in
      (f.reason, o, f.error, f.kept, denied)

-- ===== src/Tpm/Provision.antt =====
-- internal/tpm/attestation.go: ProvisionKeys and the creation of the two persistent keys.
use axm_sfn.Common.{ℕ, true, false, Option, none, some}
use axm_sfn.Tpm.Device.{
  Reply, done, refused, alg_rsa, alg_sha256, rh_null, rh_owner, Public, Device, TpmError,
  open_error, create_sign_key_error, create_ak_error,
}
use axm_sfn.Tpm.Worker.{Config, rsapss_sha256}

-- The template of the signing key; that of the attestation key is restricted besides.
abbrev pub signing_template : Public
signing_template = record {
  key_type = alg_rsa;
  name_alg = alg_sha256;
  fixed_tpm = true;
  fixed_parent = true;
  sensitive_data_origin = true;
  user_with_auth = true;
  restricted = false;
  sign_encrypt = true;
  key_scheme = rsapss_sha256;
  key_bits = 2048;
}

abbrev pub ak_template : Public
ak_template = record {
  key_type = alg_rsa;
  name_alg = alg_sha256;
  fixed_tpm = true;
  fixed_parent = true;
  sensitive_data_origin = true;
  user_with_auth = true;
  restricted = true;
  sign_encrypt = true;
  key_scheme = rsapss_sha256;
  key_bits = 2048;
}

abbrev pub error_code : {A : Type 0} → Reply A → Option ℕ
error_code (done a) = none
error_code (refused rc) = some rc

module _ {D : Type 0} (dev : Device D) where
  -- EvictControl, and the deferred FlushContext of the transient object.
  unfoldable pub persist_object : ℕ → ℕ → D → Option ℕ × D
  persist_object handle object d =
      let (reply, d') =
        dev.evict_control
          (record { auth = rh_owner; object_handle = object; persistent_handle = handle }) d in
      (error_code reply, dev.flush_context object d')

  unfoldable pub persist_primary : ℕ → Reply ℕ × D → Option ℕ × D
  persist_primary handle (refused rc, d) = (some rc, d)
  persist_primary handle (done object, d) = persist_object handle object d

  -- `createPersistentRSAPSSKey`
  unfoldable pub create_persistent_rsapss_key : ℕ → D → Option ℕ × D
  create_persistent_rsapss_key handle d =
      persist_primary handle
        (dev.create_primary (record { primary_handle = rh_null; in_public = signing_template }) d)

  -- `createPersistentAK`
  unfoldable pub create_persistent_ak : ℕ → D → Option ℕ × D
  create_persistent_ak handle d =
      persist_primary handle
        (dev.create_primary (record { primary_handle = rh_null; in_public = ak_template }) d)

  abbrev pub ak_outcome : Option ℕ × D → Option TpmError × D
  ak_outcome (none, d) = (none, dev.close_file d)
  ak_outcome (some rc, d) = (some (create_ak_error rc), dev.close_file d)

  abbrev pub then_create_ak : Config → Option ℕ × D → Option TpmError × D
  then_create_ak cfg (some rc, d) = (some (create_sign_key_error rc), dev.close_file d)
  then_create_ak cfg (none, d) = ak_outcome (create_persistent_ak cfg.ak_handle d)

  abbrev pub provision_opened : Config → Reply (Unit {0}) × D → Option TpmError × D
  provision_opened cfg (refused rc, d) = (some (open_error rc), d)
  provision_opened cfg (done u, d) =
      then_create_ak cfg (create_persistent_rsapss_key cfg.sign_key_handle d)

  -- `ProvisionKeys`; `none` is a nil error. The file is closed on every path that opened it.
  unfoldable pub provision_keys : Config → D → Option TpmError × D
  provision_keys cfg d = provision_opened cfg (dev.open_file cfg.device d)

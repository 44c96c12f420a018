-- ===== src/Tpm/Worker.antt =====
-- internal/tpm/attestation.go: the Worker, which opens the device and has it sign and quote.
use axm_sfn.Common.{ℕ, List, [], ◌∷◌}
use axm_sfn.Common.Text.{Bytes}
use axm_sfn.Tpm.{QuoteResult, KeyEvidence, qualifying_data, pcr_bitmap}
use axm_sfn.Tpm.Device.{
  Reply, done, refused, alg_rsapss, alg_sha256, Scheme, Device, open_error, sign_error, quote_error,
  sign_key_not_found, ak_not_found, Tried, succeeded, failed,
}

-- `Config`
pub record Config : Type 0 where
  pub device : Bytes
  pub pcrs : List ℕ
  pub sign_key_handle : ℕ
  pub ak_handle : ℕ

-- `Worker`, without the device and the log.
pub record Worker : Type 0 where
  pub cfg : Config
  pub sign_pub : Bytes
  pub ak_pub : Bytes

-- `KeyEvidence`, the method.
unfoldable pub key_evidence : Worker → KeyEvidence
key_evidence w = record { sign_pub = w.sign_pub; ak_pub = w.ak_pub }

abbrev pub rsapss_sha256 : Scheme
rsapss_sha256 = record { scheme = alg_rsapss; hash_alg = alg_sha256 }

module _ {D : Type 0} where
  abbrev pub take_ak_pub : Worker → Reply Bytes × D → Tried Worker × D
  take_ak_pub w (refused rc, d) = (failed (ak_not_found w.cfg.ak_handle rc), d)
  take_ak_pub w (done key, d) = (succeeded (record w { ak_pub = key }), d)

  abbrev pub signature_of : Reply Bytes × D → Tried Bytes × D
  signature_of (refused rc, d) = (failed (sign_error rc), d)
  signature_of (done sig, d) = (succeeded sig, d)

  abbrev pub quote_of : Bytes → Reply (Bytes × Bytes) × D → Tried QuoteResult × D
  quote_of nonce (refused rc, d) = (failed (quote_error rc), d)
  quote_of nonce (done (attest, sig), d) =
      (succeeded (record { nonce = nonce; attest_blob = attest; sig = sig }), d)

module _ {D : Type 0} (dev : Device D) where
  abbrev pub take_sign_pub : Worker → Reply Bytes × D → Tried Worker × D
  take_sign_pub w (refused rc, d) = (failed (sign_key_not_found w.cfg.sign_key_handle rc), d)
  take_sign_pub w (done key, d) =
      take_ak_pub (record w { sign_pub = key }) (dev.read_public w.cfg.ak_handle d)

  -- `checkHandles`, with the worker that it fills in.
  unfoldable pub check_handles : Worker → D → Tried Worker × D
  check_handles w d = take_sign_pub w (dev.read_public w.cfg.sign_key_handle d)

  abbrev pub close_on_error : Tried Worker × D → Tried Worker × D
  close_on_error (failed e, d) = (failed e, dev.close_file d)
  close_on_error (succeeded w, d) = (succeeded w, d)

  abbrev pub check_opened : Config → Reply (Unit {0}) × D → Tried Worker × D
  check_opened cfg (refused rc, d) = (failed (open_error rc), d)
  check_opened cfg (done u, d) =
      close_on_error (check_handles (record { cfg = cfg; sign_pub = []; ak_pub = [] }) d)

  -- `Open`
  unfoldable pub open_worker : Config → D → Tried Worker × D
  unfolding check_handles
  open_worker cfg d = check_opened cfg (dev.open_file cfg.device d)

  -- `Close`
  unfoldable pub close_worker : Worker → D → D
  close_worker w d = dev.close_file d

  -- `if tpm != nil { defer tpm.Close() }`, as cmd/axm-edge/main.go ends what Open began.
  abbrev pub close_tpm : Tried Worker × D → D
  close_tpm (failed e, d) = d
  close_tpm (succeeded w, d) = close_worker w d

  -- `SignPacket`
  unfoldable pub sign_packet : (Bytes → Bytes) → Worker → Bytes → D → Tried Bytes × D
  sign_packet sha256 w payload d = signature_of (
      dev.sign
        (record {
          key_handle = w.cfg.sign_key_handle;
          digest = sha256 payload;
          in_scheme = rsapss_sha256;
        })
        d)

  -- `Quote`
  unfoldable pub quote : Worker → Bytes → D → Tried QuoteResult × D
  quote w nonce d = quote_of (qualifying_data nonce) (
      dev.quote
        (record {
          sign_handle = w.cfg.ak_handle;
          qualifying_data = qualifying_data nonce;
          in_scheme = rsapss_sha256;
          pcr_selections = record { hash = alg_sha256; pcr_select = pcr_bitmap w.cfg.pcrs } ∷ [];
        })
        d)

-- ===== src/Tpm/Device.antt =====
-- The commands of github.com/google/go-tpm and the device file that internal/tpm/attestation.go works
-- with. What a device does is a parameter; it has a state that every call may change.
use axm_sfn.Common.{ℕ, Bool, List}
use axm_sfn.Common.Text.{Bytes}

-- The device's answer: what a command returns, or its response code.
pub data Reply (A : Type 0) : Type 0 where
  done : A → Reply A
  refused : ℕ → Reply A

pub data Algorithm : Type 0 where
  alg_rsa alg_rsapss alg_sha256 : Algorithm

-- `TPMRHNull` and `TPMRHOwner`.
pub data PermanentHandle : Type 0 where
  rh_null rh_owner : PermanentHandle

-- `TPMTSigScheme`, and the scheme of a key.
pub record Scheme : Type 0 where
  pub scheme : Algorithm
  pub hash_alg : Algorithm

-- `tpm2.Sign`; the validation ticket is the empty one.
pub record SignCommand : Type 0 where
  pub key_handle : ℕ
  pub digest : Bytes
  pub in_scheme : Scheme

-- `TPMSPCRSelection`
pub record PcrSelection : Type 0 where
  pub hash : Algorithm
  pub pcr_select : Bytes

-- `tpm2.Quote`
pub record QuoteCommand : Type 0 where
  pub sign_handle : ℕ
  pub qualifying_data : Bytes
  pub in_scheme : Scheme
  pub pcr_selections : List PcrSelection

-- `TPMTPublic`: the template of a key.
pub record Public : Type 0 where
  pub key_type : Algorithm
  pub name_alg : Algorithm
  pub fixed_tpm : Bool
  pub fixed_parent : Bool
  pub sensitive_data_origin : Bool
  pub user_with_auth : Bool
  pub restricted : Bool
  pub sign_encrypt : Bool
  pub key_scheme : Scheme
  pub key_bits : ℕ

-- `tpm2.CreatePrimary`
pub record CreatePrimary : Type 0 where
  pub primary_handle : PermanentHandle
  pub in_public : Public

-- `tpm2.EvictControl`
pub record EvictControl : Type 0 where
  pub auth : PermanentHandle
  pub object_handle : ℕ
  pub persistent_handle : ℕ

-- The structures that a command returns are marshalled. A quote gives the attestation and its signature.
pub record Device (D : Type 0) : Type 0 where
  pub open_file : Bytes → D → Reply (Unit {0}) × D
  pub close_file : D → D
  pub read_public : ℕ → D → Reply Bytes × D
  pub sign : SignCommand → D → Reply Bytes × D
  pub quote : QuoteCommand → D → Reply (Bytes × Bytes) × D
  pub create_primary : CreatePrimary → D → Reply ℕ × D
  pub evict_control : EvictControl → D → Reply (Unit {0}) × D
  pub flush_context : ℕ → D → D

-- The errors of the package, with the response code that each wraps.
pub data TpmError : Type 0 where
  open_error sign_error quote_error : ℕ → TpmError
  sign_key_not_found ak_not_found : ℕ → ℕ → TpmError
  create_sign_key_error create_ak_error : ℕ → TpmError

pub data Tried (A : Type 0) : Type 0 where
  succeeded : A → Tried A
  failed : TpmError → Tried A

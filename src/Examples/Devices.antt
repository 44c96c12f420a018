-- ===== src/Examples/Devices.antt =====
-- A TPM, and the worker and the provisioning on it.
use axm_sfn.Common.{
  ℕ, suc, ◌+◌, ◌-◌, ◌<◌, ◌≡◌, refl, List, [], ◌∷◌, Option, none, some, ◌⊎◌, arith, length, All,
  ◌==◌, if◌then◌else◌,
}
use axm_sfn.Common.Text.{Bytes, codes}
use axm_sfn.Common.Collisions.{Collision}
use axm_sfn.Tpm.{pcr_bitmap, qualifying_data}
use axm_sfn.Tpm.Device.{Reply, done, refused, Device, succeeded}
use axm_sfn.Tpm.Worker.{Config, Worker, open_worker, close_tpm, quote}
use axm_sfn.Tpm.Provision.{provision_keys}
use axm_sfn.Tpm.Bitmap.{bit_at, is_listed, pcr_bitmap-bits}
use axm_sfn.Tpm.Nonce.{Place, IsSized, SamePlace, nonce_of, quote-SamePlace}
use axm_sfn.Tpm.Tidy.{Held, Tracks, held-provision_keys, held-open_worker}
use axm_sfn.Tpm.Unprovisioned.{IsTpm}
use axm_sfn.Examples.Values.{front_hash, length-front_hash}

-- Its transient objects, open files and persistent keys.
pub record ToyTpm : Type 0 where
  pub objects : List ℕ
  pub files : ℕ
  pub keys : List (ℕ × Bytes)

abbrev find_key : ℕ → List (ℕ × Bytes) → Option Bytes
find_key handle [] = none
find_key handle ((h, key) ∷ keys) =
    let rest = find_key handle keys in if h == handle then some key else rest

abbrev reply_of_key : Option Bytes → Reply Bytes
reply_of_key none = refused 0x18b
reply_of_key (some key) = done key

abbrev flush_object : ℕ → List ℕ → List ℕ
flush_object object [] = []
flush_object object (x ∷ xs) =
    let rest = flush_object object xs in if x == object then xs else x ∷ rest

-- It makes temporary objects alone, which it refuses to make persistent.
abbrev pub toy_tpm : Device ToyTpm
toy_tpm = record {
  open_file = λ path d. (done tt, record d { files = suc d.files });
  close_file = λ d. record d { files = d.files - 1 };
  read_public = λ handle d. (reply_of_key (find_key handle d.keys), d);
  sign = λ c d. (done c.digest, d);
  quote = λ c d. (done (c.qualifying_data, 1 ∷ []), d);
  create_primary = λ c d. (
    done (0x80000000 + length d.objects),
    record d { objects = (0x80000000 + length d.objects) ∷ d.objects },
  );
  evict_control = λ c d. (refused 0x182, d);
  flush_context = λ object d. record d { objects = flush_object object d.objects };
}

abbrev held : ToyTpm → Held
held d = record { objects = d.objects; files = d.files }

abbrev pub stored : ToyTpm → ℕ → Option Bytes
stored d handle = find_key handle d.keys

toy_tpm-Tracks : Tracks toy_tpm held
toy_tpm-Tracks = record {
  open_done = λ path d after e. ground arith;
  open_refused = λ path rc d after e. absurd (ground arith);
  close_held = λ d. refl;
  read_held = λ handle d. refl;
  create_done = λ c object d after e. ground arith;
  create_refused = λ c rc d after e. absurd (ground arith);
  evict_held = λ c d. refl;
  flush_held = λ object rest files d e. ground arith;
}

pub toy_tpm-IsTpm : IsTpm toy_tpm stored
toy_tpm-IsTpm = record {
  temporary = λ key object handle d after e. (0x182, after, refl);
  refused_stored = λ c rc d after e. ground arith;
  open_stored = λ path d. refl;
  close_stored = λ d. refl;
  create_stored = λ c d. refl;
  flush_stored = λ object d. refl;
  read_missing = λ handle d missing. (0x18b, rw missing refl);
}

abbrev pub tpm_settings : Config
tpm_settings = record {
  device = codes "/dev/tpmrm0";
  pcrs = 10 ∷ 11 ∷ 30 ∷ [];
  sign_key_handle = 0x81000001;
  ak_handle = 0x81000002;
}

abbrev pub fresh_tpm : ToyTpm
fresh_tpm = record { objects = []; files = 0; keys = [] }

abbrev pub keyed_tpm : ToyTpm
keyed_tpm = record {
  objects = [];
  files = 0;
  keys = (0x81000001, 1 ∷ []) ∷ (0x81000002, 2 ∷ []) ∷ [];
}

held-provision_keys_example :
    held (provision_keys toy_tpm tpm_settings fresh_tpm).1 ≡ held fresh_tpm
held-provision_keys_example = held-provision_keys toy_tpm held toy_tpm-Tracks tpm_settings fresh_tpm

held-open_worker_example :
    held (close_tpm toy_tpm (open_worker toy_tpm tpm_settings keyed_tpm)) ≡ held keyed_tpm
held-open_worker_example = held-open_worker toy_tpm held toy_tpm-Tracks tpm_settings keyed_tpm

pcr_bitmap-bits_example :
    (length (pcr_bitmap tpm_settings.pcrs) ≡ 3)
    × All (λ b. b < 256) (pcr_bitmap tpm_settings.pcrs)
    × (bit_at 11 (pcr_bitmap tpm_settings.pcrs) ≡ (if is_listed 11 tpm_settings.pcrs then 1 else 0))
pcr_bitmap-bits_example = pcr_bitmap-bits tpm_settings.pcrs 11 (omega arith)

-- A worker on a device with both keys.
abbrev worker : Worker
worker = record { cfg = tpm_settings; sign_pub = 1 ∷ []; ak_pub = 2 ∷ [] }

opens_worker : (open_worker toy_tpm tpm_settings keyed_tpm).0 ≡ succeeded worker
unfolding open_worker
opens_worker = refl

abbrev thirty_two : Bytes
thirty_two = front_hash []

abbrev place : Place
place = record {
  session_nonce = thirty_two;
  packet_sha256 = front_hash (1 ∷ []);
  prev_hash = none;
  seq = 0;
}

place-IsSized : IsSized place
place-IsSized = record {
  nonce_size = length-front_hash [];
  sha_size = length-front_hash (1 ∷ []);
  seq_fits = omega arith;
}

quote_done : quote toy_tpm worker (nonce_of front_hash length-front_hash place) keyed_tpm ≡ (
  succeeded (record {
    nonce = qualifying_data (nonce_of front_hash length-front_hash place);
    attest_blob = qualifying_data (nonce_of front_hash length-front_hash place);
    sig = 1 ∷ [];
  }),
  keyed_tpm,
)
unfolding quote
quote_done = refl

quote-SamePlace_example : SamePlace place place ⊎ Collision front_hash
quote-SamePlace_example =
    quote-SamePlace front_hash length-front_hash toy_tpm worker place place keyed_tpm keyed_tpm
      keyed_tpm keyed_tpm _ _ place-IsSized place-IsSized quote_done quote_done refl

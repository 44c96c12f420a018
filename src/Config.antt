-- ===== src/Config.antt =====
-- internal/config/config.go: the daemon's configuration, its defaults and Load. A duration is a number of
-- nanoseconds. What yaml.v3 makes of a text is a parameter.
use axm_sfn.Common.{ℕ, ◌*◌, Bool, true, false, List, [], ◌∷◌, Option, none, some}
use axm_sfn.Common.Int.{ℤ, pos}
use axm_sfn.Common.Text.{Bytes, codes}

pub record SessionConfig : Type 0 where
  pub node_label : Bytes
  pub printer_id : Bytes

pub record MoonrakerConfig : Type 0 where
  pub endpoint : Bytes
  pub api_key : Bytes
  pub client_name : Bytes
  pub client_version : Bytes
  pub reconnect_delay : ℤ
  pub subscribe_objects : List Bytes

pub record CustodyConfig : Type 0 where
  pub period : ℤ
  pub max_silent_ticks : ℤ

pub record HotBufferConfig : Type 0 where
  pub db_path : Bytes

pub record TpmConfig : Type 0 where
  pub device : Bytes
  pub pcrs : List ℕ
  pub sign_key_handle : ℕ
  pub ak_handle : ℕ
  pub quote_interval : ℤ
  pub quote_on_lifecycle_edge : Bool
  pub ek_cert_path : Bytes

pub record UploaderConfig : Type 0 where
  pub endpoint : Bytes
  pub batch_size : ℤ
  pub retry_interval : ℤ

-- `Config`
pub record Config : Type 0 where
  pub session : SessionConfig
  pub moonraker : MoonrakerConfig
  pub custody : CustodyConfig
  pub hot_buffer : HotBufferConfig
  pub tpm : TpmConfig
  pub uploader : UploaderConfig

-- `time.Second`
abbrev pub second : ℕ
second = 1000000000

-- `Config{}`, the zero value.
abbrev pub zero_config : Config
zero_config = record {
  session = record { node_label = []; printer_id = [] };
  moonraker = record {
    endpoint = [];
    api_key = [];
    client_name = [];
    client_version = [];
    reconnect_delay = pos 0;
    subscribe_objects = [];
  };
  custody = record { period = pos 0; max_silent_ticks = pos 0 };
  hot_buffer = record { db_path = [] };
  tpm = record {
    device = [];
    pcrs = [];
    sign_key_handle = 0;
    ak_handle = 0;
    quote_interval = pos 0;
    quote_on_lifecycle_edge = false;
    ek_cert_path = [];
  };
  uploader = record { endpoint = []; batch_size = pos 0; retry_interval = pos 0 };
}

-- `DefaultConfig`
unfoldable pub default_config : Config
default_config = record {
  session = record { node_label = codes "sfn-node-001"; printer_id = codes "printer-001" };
  moonraker = record {
    endpoint = codes "ws://127.0.0.1:7125/websocket";
    api_key = [];
    client_name = codes "axm-edge";
    client_version = codes "0.1.0";
    reconnect_delay = pos (5 * second);
    subscribe_objects = [];
  };
  custody = record { period = pos (1 * second); max_silent_ticks = pos 10 };
  hot_buffer = record { db_path = codes "/var/lib/axm-edge/buffer.db" };
  tpm = record {
    device = codes "/dev/tpmrm0";
    pcrs = 10 ∷ 11 ∷ 12 ∷ 15 ∷ [];
    sign_key_handle = 0x81000001;
    ak_handle = 0x81000002;
    quote_interval = pos (5 * 60 * second);
    quote_on_lifecycle_edge = true;
    ek_cert_path = [];
  };
  uploader = record {
    endpoint = codes "http://127.0.0.1:8080/ingest";
    batch_size = pos 60;
    retry_interval = pos (30 * second);
  };
}

-- os.ReadFile and yaml.Unmarshal: the text of a file, and what is left in a configuration that a text is
-- decoded into. `none` is an error.
pub record Files : Type 0 where
  pub read_file : Bytes → Option Bytes
  pub unmarshal : Bytes → Config → Option Config

abbrev pub decode_file : Files → Option Bytes → Option Config
decode_file files none = none
decode_file files (some text) = files.unmarshal text zero_config

-- `Load`
unfoldable pub load : Files → Bytes → Option Config
load files path = decode_file files (files.read_file path)

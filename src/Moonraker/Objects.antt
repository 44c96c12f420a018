-- ===== src/Moonraker/Objects.antt =====
-- internal/moonraker/types.go and client.go: the client's configuration, its request frames, and the
-- printer objects that it subscribes to. A map from names to nil is the list of its names.
use axm_sfn.Common.{ℕ, Bool, false, ◌||◌, List, [], ◌∷◌, ◌++◌, Option, none, some, if◌then◌else◌}
use axm_sfn.Common.Int.{ℤ, pos}
use axm_sfn.Common.Text.{Bytes, codes, bytes_eq}

-- `Request`, `IdentifyParams` and `SubscribeParams`
pub record Request (Raw : Type 0) : Type 0 where
  pub jsonrpc : Bytes
  pub id : ℤ
  pub method : Bytes
  pub params : Raw

pub record IdentifyParams : Type 0 where
  pub client_name : Bytes
  pub version : Bytes
  pub agent_type : Bytes
  pub url : Bytes

pub record SubscribeParams : Type 0 where
  pub objects : List Bytes

-- The fields of `Client` that NewClient sets once.
pub record ClientConfig : Type 0 where
  pub endpoint : Bytes
  pub api_key : Bytes
  pub client_name : Bytes
  pub client_ver : Bytes
  pub reconn_delay : ℤ
  pub sub_objects : List Bytes

-- `DefaultSubscribeObjects`
unfoldable pub default_subscribe_objects : List Bytes
default_subscribe_objects =
    codes "extruder"
    ∷ codes "heater_bed"
    ∷ codes "motion_report"
    ∷ codes "print_stats"
    ∷ codes "mcu"
    ∷ codes "temperature_sensor chamber"
    ∷ []

-- `if subObjects == nil`
abbrev pub objects_or_default : Option (List Bytes) → List Bytes
objects_or_default none = default_subscribe_objects
objects_or_default (some objects) = objects

-- `NewClient`
unfoldable pub client_config :
    Bytes → Bytes → Bytes → Bytes → ℤ → Option (List Bytes) → ClientConfig
client_config endpoint api_key client_name client_ver reconn_delay sub_objects = record {
  endpoint = endpoint;
  api_key = api_key;
  client_name = client_name;
  client_ver = client_ver;
  reconn_delay = reconn_delay;
  sub_objects = objects_or_default sub_objects;
}

-- The frame that send writes.
unfoldable pub request_frame : {Raw : Type 0} → ℕ → Bytes → Raw → Request Raw
request_frame id method params = record {
  jsonrpc = codes "2.0";
  id = pos id;
  method = method;
  params = params;
}

-- The parameters of identify and of subscribe.
unfoldable pub identify_params : ClientConfig → IdentifyParams
identify_params c = record {
  client_name = c.client_name;
  version = c.client_ver;
  agent_type = codes "agent";
  url = codes "internal";
}

unfoldable pub subscribe_params : ClientConfig → SubscribeParams
subscribe_params c = record { objects = c.sub_objects }

-- The headers of the connection: the key, if one is set.
unfoldable pub dial_headers : ClientConfig → List (Bytes × Bytes)
dial_headers c = if bytes_eq c.api_key [] then [] else (codes "X-Api-Key", c.api_key) ∷ []

unfoldable pub is_member : Bytes → List Bytes → Bool
is_member o [] = false
is_member o (x ∷ xs) = bytes_eq o x || is_member o xs

-- `moonObjects[obj] = nil`
unfoldable pub put_object : Bytes → List Bytes → List Bytes
unfolding is_member
put_object o objects = if is_member o objects then objects else objects ++ o ∷ []

-- The loop of cmd/axm-edge/main.go over the configured objects.
unfoldable pub put_objects : List Bytes → List Bytes → List Bytes
unfolding put_object
put_objects [] objects = objects
put_objects (o ∷ more) objects = put_objects more (put_object o objects)

-- The objects that runDaemon has the client subscribe to.
unfoldable pub moon_objects : List Bytes → List Bytes
moon_objects configured = put_objects configured default_subscribe_objects

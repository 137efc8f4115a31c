-- ===== src/Config.antt =====
-- crates/common-config/src/lib.rs: what services read from the environment, as `env::var(…).ok()`
-- gives it. The warnings about values that cannot be read are left out.
pub mod Ports
pub mod Tests
use lokan_os.Prelude.{ℕ, ◌^◌, Option, none, some, List, [], ◌∷◌, ◌++◌}
use lokan_os.Prelude.Text.{Text, codes}
use lokan_os.Prelude.Digits.{parse_unsigned}
use lokan_os.Prelude.Dict.{unwrap_or}

abbrev pub Environment : Type 0
Environment = Text → Option Text

pub record MsgBusConfig : Type 0 where
  pub url : Text
  pub request_timeout_ms : ℕ

unfoldable pub default_config : MsgBusConfig
default_config = record { url = codes "nats://127.0.0.1:4222"; request_timeout_ms = 2000 }

-- Milliseconds.
unfoldable pub request_timeout : MsgBusConfig → ℕ
request_timeout config = config.request_timeout_ms

-- The variable of a key, under a prefix that may be empty.
variable : Environment → Text → Text → Option Text
variable env [] key = env key
variable env (c ∷ prefix) key = env ((c ∷ prefix) ++ key)

abbrev or_else : Option Text → Option Text → Option Text
or_else none other = other
or_else (some value) other = some value

unfoldable pub env_value : Environment → Text → List Text → Option Text
unfolding variable
env_value env prefix [] = none
env_value env prefix (key ∷ keys) = or_else (variable env prefix key) (env_value env prefix keys)

-- A number that was read, or the one that was there.
abbrev read_or : ℕ → ℕ → Option Text → ℕ
read_or limit old none = old
read_or limit old (some value) = unwrap_or (parse_unsigned limit value) old

-- MsgBusConfig::apply_environment_overrides
unfoldable pub apply_environment_overrides : Environment → Text → MsgBusConfig → MsgBusConfig
unfolding env_value
apply_environment_overrides env prefix config = record {
  url = unwrap_or (env_value env prefix (codes "BUS__URL" ∷ codes "BUS_URL" ∷ [])) config.url;
  request_timeout_ms = read_or (2 ^ 64) config.request_timeout_ms (
      env_value env prefix (codes "BUS__REQUEST_TIMEOUT_MS" ∷ codes "BUS_REQUEST_TIMEOUT_MS" ∷ []));
}

unfoldable pub service_port : Environment → Text → ℕ → ℕ
service_port env var default = read_or (2 ^ 16) default (env var)

-- ===== src/Config/Tests.antt =====
-- crates/common-config/src/lib.rs: concrete runs.
use lokan_os.Prelude.{◌≡◌, refl, none, some, if◌then◌else◌, arith}
use lokan_os.Prelude.Text.{codes, codes_eq}
use lokan_os.Prelude.Digits.{decimal, parse_unsigned}
use lokan_os.Config.{Environment, service_port, apply_environment_overrides, default_config}
use lokan_os.Config.Ports.{service_port-decimal}

abbrev settings : Environment
settings key =
    if codes_eq key (codes "PORT")
    then some (codes "8004")
    else if codes_eq key (codes "GW_BUS_URL")
    then some (codes "nats://bus:4222")
    else if codes_eq key (codes "GW_BUS__REQUEST_TIMEOUT_MS")
    then some (codes "soon")
    else if codes_eq key (codes "GW_BUS_REQUEST_TIMEOUT_MS")
    then some (codes "500")
    else none

port_set : settings (codes "PORT") ≡ some (decimal 8004)
unfolding decimal
port_set = refl

-- Where the first of two variables cannot be read, the second is not asked.
first_wins :
    apply_environment_overrides settings (codes "GW_") default_config
    ≡ record { url = codes "nats://bus:4222"; request_timeout_ms = 2000 }
unfolding apply_environment_overrides default_config parse_unsigned
first_wins = refl

service_port-decimal_example : service_port settings (codes "PORT") 8080 ≡ 8004
service_port-decimal_example =
    service_port-decimal settings (codes "PORT") 8080 8004 (omega arith) port_set

-- ===== src/Config/Ports.antt =====
-- crates/common-config/src/lib.rs: the numbers that are read from the environment.
use lokan_os.Prelude.{ℕ, ◌^◌, ◌<◌, ◌≡◌, ap, ◌∙◌, some, ltb, if◌then◌else◌, arith}
use lokan_os.Prelude.Text.{Text}
use lokan_os.Prelude.Digits.{decimal, parse_unsigned-decimal}
use lokan_os.Config.{Environment, service_port, read_or}

-- A variable that has a number in decimal, below 2^64, sets the port to that number if it is one of
-- a port; else the port is the default.
pub service_port-decimal :
    (env : Environment) (var : Text) (default port : ℕ)
    → port < 2 ^ 64
    → env var ≡ some (decimal port)
    → service_port env var default ≡ (if ltb port (2 ^ 16) then port else default)
unfolding service_port
service_port-decimal env var default port small set =
    ap (read_or (2 ^ 16) default) set
    ∙ ground (arith, parse_unsigned-decimal (2 ^ 16) port small (omega arith))

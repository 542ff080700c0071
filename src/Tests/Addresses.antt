-- ===== src/Tests/Addresses.antt =====
-- Addresses of load generators.
use creo_bench.Prelude.{◌≡◌, refl, ok, err}
use creo_bench.Script.Text.{codes}
use creo_bench.Cli.Decimal.{parse_u16}
use creo_bench.Cli.GeneratorAddr.{
  GeneratorAddr, from_str, display, invalid_port, split_once, rsplit_once, starts_with_bracket,
}
use creo_bench.Cli.GeneratorAddr.RoundTrip.{from_str-display}

abbrev loopback : GeneratorAddr
loopback = record { addr = codes "[::1]"; port = 8080 }

loopback_parsed : from_str (codes "[::1]:+8080") ≡ ok loopback
unfolding from_str split_once rsplit_once starts_with_bracket parse_u16
loopback_parsed = refl

too_large : from_str (codes "host:65536") ≡ err (invalid_port (codes "65536"))
unfolding from_str split_once rsplit_once starts_with_bracket parse_u16
too_large = refl

from_str-display_example : from_str (display loopback) ≡ ok loopback
from_str-display_example = from_str-display (codes "[::1]:+8080") loopback loopback_parsed

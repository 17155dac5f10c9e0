-- ===== src/Contracts/Rates/Tests.antt =====
-- packages/contracts/src/charges.ts on rates written out.
use native.Mathlib.Omega.{arith}
use merchant_operations_plat.Prelude.{◌≡◌, refl, some}
use merchant_operations_plat.Contracts.Rates.{parse_rate_percent, format_rate_percent}
use merchant_operations_plat.Contracts.Rates.RoundTrip.{parse_rate_percent-format_rate_percent}

parse_rate_percent-format_rate_percent_example :
    parse_rate_percent (format_rate_percent 550 b',') ≡ some 550
parse_rate_percent-format_rate_percent_example =
    parse_rate_percent-format_rate_percent 550 b',' (omega arith) refl

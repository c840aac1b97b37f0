-- ===== src/Contracts/Validity/Tests.antt =====
-- src/contracts/validity.ts: an interval.
use edgemneme.Base.{◌≡◌, refl, true, none, some, ok, codes, leb, length}
use edgemneme.Contracts.Validity.{
  ValidityInterval, is_valid_validity_interval, require_valid_validity_interval,
}

abbrev open_interval : ValidityInterval
open_interval = record { valid_from = some (codes "2026-01-01T00:00:00Z"); valid_until = none }

open_test : require_valid_validity_interval (λ s. true) length leb open_interval ≡ ok tt
unfolding require_valid_validity_interval is_valid_validity_interval
open_test = refl

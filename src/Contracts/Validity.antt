-- ===== src/Contracts/Validity.antt =====
-- src/contracts/validity.ts: the validity interval of a memory. `is_datetime` is the test of the schema of
-- timestamps; `date_parse` and `le` are `Date.parse` and `a <= b`. An absent bound is `none`.
pub mod Laws
mod Tests
use edgemneme.Base.{
  Bool, true, false, not, ◌&&◌, ◌||◌, Option, none, some, Result, ok, err, Text, if◌then◌else◌,
}

pub data ValidityError : Type 0 where
  validity_interval_invalid : ValidityError

pub record ValidityInterval : Type 0 where
  pub valid_from : Option Text
  pub valid_until : Option Text

module _ {Number : Type 0} (is_datetime : Text → Bool) (date_parse : Text → Number)
    (le : Number → Number → Bool) where
  abbrev pub fails_schema : Option Text → Bool
  fails_schema none = false
  fails_schema (some value) = not (is_datetime value)

  abbrev pub in_order : Option Text → Option Text → Bool
  in_order (some valid_from) (some valid_until) =
      le (date_parse valid_from) (date_parse valid_until)
  in_order _ _ = true

  unfoldable pub is_valid_validity_interval : ValidityInterval → Bool
  is_valid_validity_interval interval =
      if fails_schema interval.valid_from || fails_schema interval.valid_until
      then false
      else in_order interval.valid_from interval.valid_until

  unfoldable pub require_valid_validity_interval :
      ValidityInterval → Result ValidityError (Unit {0})
  require_valid_validity_interval interval =
      if not (is_valid_validity_interval interval) then err validity_interval_invalid else ok tt

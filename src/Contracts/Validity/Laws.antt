-- ===== src/Contracts/Validity/Laws.antt =====
-- src/contracts/validity.ts: which intervals are valid.
use edgemneme.Base.{◌≡◌, refl, ◌↔◌, Bool, true, false, Option, none, some, ok, Text, arith}
use edgemneme.Contracts.Validity.{
  ValidityInterval, fails_schema, in_order, is_valid_validity_interval,
  require_valid_validity_interval,
}

module _ {Number : Type 0} (is_datetime : Text → Bool) (date_parse : Text → Number)
    (le : Number → Number → Bool) where
  -- Each bound that is given is a timestamp, and the first is not after the second.
  pub record IsInterval (interval : ValidityInterval) : Type 0 where
    pub from_datetime : (v : Text) → interval.valid_from ≡ some v → is_datetime v ≡ true
    pub until_datetime : (v : Text) → interval.valid_until ≡ some v → is_datetime v ≡ true
    pub ordered :
        (v w : Text)
        → interval.valid_from ≡ some v
        → interval.valid_until ≡ some w
        → le (date_parse v) (date_parse w) ≡ true

  schema_iff :
      (o : Option Text)
      → (fails_schema is_datetime date_parse le o ≡ false)
        ↔ ((v : Text) → o ≡ some v → is_datetime v ≡ true)
  schema_iff none = (λ h v e. cc, λ h. refl)
  schema_iff (some w) = (λ h v e. ground arith, λ h. let k = h w refl in ground arith)

  order_iff :
      (o u : Option Text)
      → (in_order is_datetime date_parse le o u ≡ true)
        ↔ ((v w : Text) → o ≡ some v → u ≡ some w → le (date_parse v) (date_parse w) ≡ true)
  order_iff none u = (λ h v w e f. cc, λ h. refl)
  order_iff (some v) none = (λ h x w e f. cc, λ h. refl)
  order_iff (some v) (some w) = (λ h x y e f. ground arith, λ h. h v w refl refl)

  -- The check passes exactly when each bound that is given is a timestamp and, where both are given, the
  -- first is not after the second.
  pub require_valid_validity_interval_iff :
      (interval : ValidityInterval)
      → (require_valid_validity_interval is_datetime date_parse le interval ≡ ok tt)
        ↔ IsInterval interval
  unfolding require_valid_validity_interval is_valid_validity_interval
  require_valid_validity_interval_iff interval =
      let (a, b) = schema_iff interval.valid_from in
      let (c, d) = schema_iff interval.valid_until in
      let (e, f) = order_iff interval.valid_from interval.valid_until in
      (
        λ h. record {
          from_datetime = a (ground arith);
          until_datetime = c (ground arith);
          ordered = e (ground arith);
        },
        λ q.
            let x = b q.from_datetime in
            let y = d q.until_datetime in let z = f q.ordered in ground arith,
      )

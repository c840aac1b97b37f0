-- ===== src/Search/Budget/Truncate.antt =====
-- src/search/pipeline.ts: the excerpt is the longest beginning of the content within the budget.
use edgemneme.Base.{
  ℕ, zero, suc, ◌+◌, ◌-◌, ◌/◌, ◌≤◌, ◌<◌, ◌≡◌, refl, ap, sym, inl, inr, false, [], ◌∷◌, ◌++◌, Text,
  arith, leb, ltb, Bool-cases, length, take, drop, take-append-drop, take-of_le, leb→le, leb-false,
  dec_lt,
}
use edgemneme.Search.Budget.{estimate_tokens, bisect, truncate_to_token_budget}
use edgemneme.Search.Budget.Estimate.{estimate_tokens-le-append}

take-take : (m n : ℕ) (s : Text) → m ≤ n → take m (take n s) ≡ take m s
take-take zero n s h = refl
take-take (suc m) zero s h = absurd (omega arith)
take-take (suc m) (suc n) [] h = refl
take-take (suc m) (suc n) (c ∷ s) h = ap (λ t. c ∷ t) (take-take m n s (omega arith))

estimate_tokens-take_mono :
    (m n : ℕ) (s : Text) → m ≤ n → estimate_tokens (take m s) ≤ estimate_tokens (take n s)
estimate_tokens-take_mono m n s h = omega (
  arith,
  estimate_tokens-le-append (take m s) (drop m (take n s)),
  ap (λ t. estimate_tokens (t ++ drop m (take n s))) (take-take m n s h),
  ap estimate_tokens (take-append-drop m (take n s)),
)

-- The first `r` code points are the longest beginning of `s` whose estimate is at most `b`.
pub record IsLongest (s : Text) (b r : ℕ) : Type 0 where
  pub within : r ≤ length s
  pub fits : estimate_tokens (take r s) ≤ b
  pub longest : (m : ℕ) → m ≤ length s → estimate_tokens (take m s) ≤ b → m ≤ r

-- The bounds of the search enclose the answer.
record Encloses (s : Text) (b lower upper : ℕ) : Type 0 where
  ordered : lower ≤ upper
  inside : upper ≤ length s
  fits : estimate_tokens (take lower s) ≤ b
  above : (m : ℕ) → m ≤ length s → estimate_tokens (take m s) ≤ b → m ≤ upper

lt-of-unfit :
    (s : Text) (b mid m : ℕ)
    → leb (estimate_tokens (take mid s)) b ≡ false
    → estimate_tokens (take m s) ≤ b
    → m < mid
lt-of-unfit s b mid m u f = elim (dec_lt m mid) [
  | yes p ↦ p
  | no p ↦ absurd (omega (arith, leb-false _ _ u, estimate_tokens-take_mono mid m s (omega arith)))
]

-- Fuel for the width of the interval is enough: the interval gets narrower in each round.
bisect-IsLongest :
    (fuel : ℕ) (s : Text) (b lower upper : ℕ)
    → upper - lower ≤ fuel
    → Encloses s b lower upper
    → IsLongest s b (bisect fuel s b lower upper)
unfolding bisect
bisect-IsLongest zero s b lower upper h v = record {
  within = omega arith;
  fits = v.fits;
  longest = λ m l f. omega (arith, v.above m l f);
}
bisect-IsLongest (suc fuel) s b lower upper h v = elim (Bool-cases (ltb lower upper)) [
  | inr done ↦ rw done (record {
    within = omega arith;
    fits = v.fits;
    longest = λ m l f. ground (arith, v.above m l f);
  })
  | inl open_yet ↦
      let mid = (lower + upper + 1) / 2 in
      elim (Bool-cases (leb (estimate_tokens (take mid s)) b)) [
        | inl fit ↦
            rw (open_yet, fit)
              (bisect-IsLongest fuel s b mid upper (ground arith) (record {
                ordered = ground arith;
                inside = v.inside;
                fits = leb→le _ _ fit;
                above = v.above;
              }))
        | inr unfit ↦
            rw (open_yet, unfit)
              (bisect-IsLongest fuel s b lower (mid - 1) (ground arith) (record {
                ordered = ground arith;
                inside = omega (arith, v.inside);
                fits = v.fits;
                above = λ m l f. omega (arith, lt-of-unfit s b mid m unfit f);
              }))
      ]
]

estimate_tokens-nil : estimate_tokens [] ≡ 1
unfolding estimate_tokens
estimate_tokens-nil = refl

-- With a budget of at least 1 the excerpt is the longest beginning of the content that fits.
pub truncate_to_token_budget-IsLongest :
    (content : Text) (token_budget : ℕ)
    → 1 ≤ token_budget
    → (r : ℕ) × (truncate_to_token_budget content token_budget ≡ take r content)
      × IsLongest content token_budget r
unfolding truncate_to_token_budget
truncate_to_token_budget-IsLongest content token_budget h =
    elim (Bool-cases (leb (estimate_tokens content) token_budget)) [
      | inl fit ↦
          let e : take (length content) content ≡ content = take-of_le _ content (omega arith) in
          (
            length content,
            rw fit (sym e),
            record { within = omega arith; fits = rw e (leb→le _ _ fit); longest = λ m l f. l },
          )
      | inr unfit ↦ (
        bisect (length content) content token_budget 0 (length content),
        rw unfit,
        bisect-IsLongest (length content) content token_budget 0 (length content) (omega arith)
            (record {
              ordered = omega arith;
              inside = omega arith;
              fits = omega (arith, estimate_tokens-nil);
              above = λ m l f. l;
            }),
      )
    ]

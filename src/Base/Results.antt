-- ===== src/Base/Results.antt =====
-- Results of code that throws: `E` is what is thrown.
use mathlib.Core.Path.{◌≡◌, refl, subst}
use mathlib.Core.Logic.{◌⊎◌, inl, inr}
use mathlib.Core.Bool.{Bool, true, false}
use mathlib.Core.Option.{some}
use mathlib.Core.List.{List, [], ◌∷◌}
use edgemneme.Base.Lists.{All}

pub data Result {ℓ} (E : Type 0) (A : Type ℓ) : Type ℓ where
  ok : A → Result E A
  err : E → Result E A

-- `if (bad) throw e;`
abbrev pub throw_if : {E : Type 0} → Bool → E → Result E (Unit {0})
throw_if true thrown = err thrown
throw_if false thrown = ok tt

module _ {ℓ κ} {E : Type 0} {S : Type ℓ} {T : Type κ} where
  infixl 5 ◌>>=◌ ◌>>◌
  -- What follows runs on the value, and not at all after an error.
  abbrev pub ◌>>=◌ : Result E S → (S → Result E T) → Result E T
  err thrown >>= next = err thrown
  ok value >>= next = next value

  abbrev pub ◌>>◌ : Result E S → Result E T → Result E T
  first >> second = first >>= λ ignored. second

-- `array.map(f)` with an `f` that may throw.
module _ {ℓ κ} {E : Type 0} {A : Type ℓ} {B : Type κ} where
  abbrev pub map_result : (A → Result E B) → List A → Result E (List B)
  map_result f [] = ok []
  map_result f (x ∷ xs) = f x >>= λ y. map_result f xs >>= λ ys. ok (y ∷ ys)

  -- A chain that succeeds has a first step that does, and a rest that succeeds on its value.
  pub >>=-eq-ok :
      (step : Result E A) (rest : A → Result E B) {final : B}
      → (step >>= rest) ≡ ok final
      → (value : A) × (step ≡ ok value) × (rest value ≡ ok final)
  >>=-eq-ok (err thrown) rest whole = cc
  >>=-eq-ok (ok value) rest whole = (value, refl, whole)

pub ok-injective {ℓ} :
    {E : Type 0} {A : Type ℓ} {a b : A} → ◌≡◌ {A = Result E A} (ok a) (ok b) → a ≡ b
ok-injective h = cc

pub some_inj {ℓ} : {A : Type ℓ} {a b : A} → some a ≡ some b → a ≡ b
some_inj h = cc

pub Result-cases {ℓ} :
    {E : Type 0} {A : Type ℓ} (m : Result E A) → ((a : A) × (m ≡ ok a)) ⊎ ((e : E) × (m ≡ err e))
Result-cases (ok a) = inl (a, refl)
Result-cases (err e) = inr (e, refl)

module _ {ℓ κ μ} {E : Type 0} {A : Type ℓ} {B : Type κ} where
  -- What each single result satisfies, all of them satisfy.
  pub map_result-All :
      (f : A → Result E B) (P : B → Type μ)
      → ((x : A) (y : B) → f x ≡ ok y → P y)
      → (xs : List A) (ys : List B) → map_result f xs ≡ ok ys
      → All P ys
  map_result-All f P h [] ys e = subst (All P) (ok-injective e) tt
  map_result-All f P h (x ∷ xs) ys e =
      let (y, here, later) = >>=-eq-ok (f x) (λ y. map_result f xs >>= λ zs. ok (y ∷ zs)) e in
      let (zs, rest, done) = >>=-eq-ok (map_result f xs) (λ zs. ok (y ∷ zs)) later in
      subst (All P) (ok-injective done) (h x y here, map_result-All f P h xs zs rest)

pub throw_if-eq-ok :
    {E : Type 0} (b : Bool) (e : E) (u : Unit {0}) → throw_if b e ≡ ok u → b ≡ false
throw_if-eq-ok true e u h = cc
throw_if-eq-ok false e u h = refl

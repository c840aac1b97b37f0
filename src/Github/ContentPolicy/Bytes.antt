-- ===== src/Github/ContentPolicy/Bytes.antt =====
-- src/github/content-policy.ts: what the tests of the bytes and of the declared size find.
use edgemneme.Base.{
  ℕ, ◌≤◌, ◌≡◌, ◌≢◌, ◌⊎◌, inl, inr, refl, sym, ◌∙◌, ap, true, false, Option, none, some, List, [],
  ◌∷◌, ◌++◌, Text, arith, leb, ◌==◌, any, All, Bool-cases, is_prefix_iff, some_inj, length-append,
}
use mathlib.Core.List.{Memᴰ}
use edgemneme.Github.ContentPolicy.{
  DeclaredSize, natural, classify_excluded_path, starts_with, is_control_byte, count_control_bytes,
  check_declared, is_large,
}

-- A byte that is no control character but a tab, a line feed or a carriage return.
abbrev pub IsPlainByte : ℕ → Type 0
IsPlainByte b = ((0x20 ≤ b) × (b ≢ 0x7f)) ⊎ ((b ≡ 0x09) ⊎ ((b ≡ 0x0a) ⊎ (b ≡ 0x0d)))

is_control_byte-false : (b : ℕ) → is_control_byte b ≡ false → IsPlainByte b
is_control_byte-false b h = elim (Bool-cases (leb 0x20 b)) [
  | inl high ↦ inl (ground arith, λ e. ground arith)
  | inr low ↦ elim (Bool-cases (b == 0x09)) [
    | inl tab ↦ inr (inl (ground arith))
    | inr more ↦ elim (Bool-cases (b == 0x0a)) [
      | inl feed ↦ inr (inr (inl (ground arith)))
      | inr rest ↦ inr (inr (inr (ground arith)))
    ]
  ]
]

IsPlainByte-plain : (b : ℕ) → IsPlainByte b → is_control_byte b ≡ false
IsPlainByte-plain b (inl (h, k)) = ground arith
IsPlainByte-plain b (inr (inl e)) = rw e
IsPlainByte-plain b (inr (inr (inl e))) = rw e
IsPlainByte-plain b (inr (inr (inr e))) = rw e

IsPlainByte-ne-zero : (b : ℕ) → IsPlainByte b → (b == 0) ≡ false
IsPlainByte-ne-zero b (inl (h, k)) = ground arith
IsPlainByte-ne-zero b (inr (inl e)) = rw e
IsPlainByte-ne-zero b (inr (inr (inl e))) = rw e
IsPlainByte-ne-zero b (inr (inr (inr e))) = rw e

pub count-All : (bytes : List ℕ) → count_control_bytes bytes ≡ 0 → All IsPlainByte bytes
unfolding count_control_bytes
count-All [] h = tt
count-All (b ∷ bytes) h = elim (Bool-cases (is_control_byte b)) [
  | inl bad ↦ absurd (let h' = rw bad at h in omega arith)
  | inr good ↦
      (is_control_byte-false b good, count-All bytes (let h' = rw good at h in omega arith))
]

pub All-count : (bytes : List ℕ) → All IsPlainByte bytes → count_control_bytes bytes ≡ 0
unfolding count_control_bytes
All-count [] h = refl
All-count (b ∷ bytes) (p, h) = rw (IsPlainByte-plain b p, All-count bytes h)

pub All-nonzero : (bytes : List ℕ) → All IsPlainByte bytes → any (λ b. b == 0) bytes ≡ false
All-nonzero [] h = refl
All-nonzero (b ∷ bytes) (p, h) = rw (IsPlainByte-ne-zero b p, All-nonzero bytes h)

-- The bytes begin with none of these signatures.
abbrev pub IsUnsigned : List (List ℕ) → List ℕ → Type 0
IsUnsigned signatures bytes =
    (signature : List ℕ) → Memᴰ signature signatures → (rest : List ℕ) → bytes ≢ signature ++ rest

starts_with_of_append : (signature rest : List ℕ) → starts_with (signature ++ rest) signature ≡ true
unfolding starts_with
starts_with_of_append signature rest = ground (
  arith,
  length-append signature rest,
  (is_prefix_iff signature (signature ++ rest)).1 (rest, refl),
)

starts_with_prefix :
    (bytes signature : List ℕ)
    → starts_with bytes signature ≡ true
    → (rest : List ℕ) × (bytes ≡ signature ++ rest)
unfolding starts_with
starts_with_prefix bytes signature h = (is_prefix_iff signature bytes).0 (ground arith)

pub any-IsUnsigned :
    (signatures : List (List ℕ)) (bytes : List ℕ)
    → any (starts_with bytes) signatures ≡ false
    → IsUnsigned signatures bytes
any-IsUnsigned [] bytes h signature m rest e = elim m [ ]
any-IsUnsigned (s ∷ signatures) bytes h signature (Memᴰ.head q) rest e =
    let found : starts_with bytes s ≡ true = rw (e, q) (starts_with_of_append s rest) in
    ground arith
any-IsUnsigned (s ∷ signatures) bytes h signature (Memᴰ.tail m) rest e =
    any-IsUnsigned signatures bytes (ground arith) signature m rest e

pub IsUnsigned-any :
    (signatures : List (List ℕ)) (bytes : List ℕ)
    → IsUnsigned signatures bytes
    → any (starts_with bytes) signatures ≡ false
IsUnsigned-any [] bytes h = refl
IsUnsigned-any (s ∷ signatures) bytes h = elim (Bool-cases (starts_with bytes s)) [
  | inl found ↦
      let (rest, e) = starts_with_prefix bytes s found in absurd (h s (Memᴰ.head refl) rest e)
  | inr other ↦
      rw (other, IsUnsigned-any signatures bytes (λ signature m. h signature (Memᴰ.tail m)))
]

-- A declared size, if there is one, is that of the bytes.
abbrev pub IsDeclared : Option DeclaredSize → ℕ → Type 0
IsDeclared declared n = (size : DeclaredSize) → declared ≡ some size → size ≡ natural n

pub check_declared-none :
    (declared : Option DeclaredSize) (n : ℕ)
    → check_declared declared n ≡ none
    → IsDeclared declared n
unfolding check_declared
check_declared-none none n h size e = cc
check_declared-none (some DeclaredSize.other) n h size e = cc
check_declared-none (some (natural m)) n h size e = sym (some_inj e) ∙ ap natural (ground arith)

natural-injective : {m n : ℕ} → natural m ≡ natural n → m ≡ n
natural-injective h = cc

pub IsDeclared-check_declared :
    (declared : Option DeclaredSize) (n : ℕ)
    → n ≤ 65536
    → IsDeclared declared n
    → check_declared declared n ≡ none
unfolding check_declared
IsDeclared-check_declared none n k h = refl
IsDeclared-check_declared (some DeclaredSize.other) n k h = cc (h DeclaredSize.other refl)
IsDeclared-check_declared (some (natural m)) n k h =
    let e = natural-injective (h (natural m) refl) in ground arith

-- A blob within the limit is no large lockfile.
pub classify_excluded_path_short :
    (path : Text) (n : ℕ)
    → n ≤ 65536
    → classify_excluded_path path (some (natural n)) ≡ classify_excluded_path path none
unfolding classify_excluded_path
classify_excluded_path_short path n h =
    let small : is_large (some (natural n)) ≡ false = ground arith in rw small

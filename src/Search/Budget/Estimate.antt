-- ===== src/Search/Budget/Estimate.antt =====
-- src/search/pipeline.ts: the token estimate grows with the text, and parts cost at least the whole.
use edgemneme.Base.{
  ℕ, ◌+◌, ◌≤◌, max, ◌≡◌, refl, ◌∙◌, ap, inl, inr, true, false, [], ◌∷◌, ◌++◌, Text, arith, leb,
  if◌then◌else◌, Bool-cases, some,
}
use edgemneme.Search.Budget.{
  TokenCount, ceil_quarter, utf8_byte_length, count_code_point, estimate_from, estimate_tokens,
}

-- The estimate of a text that a run of `run` ASCII characters precedes, without the lower bound 1.
tokens : ℕ → Text → ℕ
tokens run [] = ceil_quarter run
tokens run (c ∷ s) =
    let longer = tokens (run + 1) s in
    let closed = ceil_quarter run + (utf8_byte_length (some c) + tokens 0 s) in
    if leb c 0x7f then longer else closed

tokens_ascii : (run c : ℕ) (s : Text) → leb c 0x7f ≡ true → tokens run (c ∷ s) ≡ tokens (run + 1) s
unfolding tokens
tokens_ascii run c s h = rw h

tokens_other :
    (run c : ℕ) (s : Text)
    → leb c 0x7f ≡ false
    → tokens run (c ∷ s) ≡ ceil_quarter run + (utf8_byte_length (some c) + tokens 0 s)
unfolding tokens
tokens_other run c s h = rw h

estimate_from-eq :
    (t : TokenCount) (s : Text)
    → estimate_from t s ≡ max 1 (t.estimated_tokens + tokens t.ascii_run_length s)
unfolding estimate_from tokens
estimate_from-eq t [] = refl
estimate_from-eq t (c ∷ s) = ground (arith, estimate_from-eq (count_code_point t c) s)

estimate_tokens-eq : (s : Text) → estimate_tokens s ≡ max 1 (tokens 0 s)
unfolding estimate_tokens
estimate_tokens-eq s = estimate_from-eq _ s ∙ omega arith

pub estimate_tokens_pos : (s : Text) → 1 ≤ estimate_tokens s
estimate_tokens_pos s = omega (arith, estimate_tokens-eq s)

run-le-tokens : (run : ℕ) (s : Text) → ceil_quarter run ≤ tokens run s
unfolding tokens
run-le-tokens run [] = omega arith
run-le-tokens run (c ∷ s) = ground (arith, run-le-tokens (run + 1) s)

tokens-le-append : (run : ℕ) (s t : Text) → tokens run s ≤ tokens run (s ++ t)
unfolding tokens
tokens-le-append run [] t = run-le-tokens run t
tokens-le-append run (c ∷ s) t =
    ground (arith, tokens-le-append (run + 1) s t, tokens-le-append 0 s t)

tokens-add-le : (a b : ℕ) (s : Text) → tokens (a + b) s ≤ ceil_quarter a + tokens b s
unfolding tokens
tokens-add-le a b [] = omega arith
tokens-add-le a b (c ∷ s) =
    let e : a + b + 1 ≡ a + (b + 1) = omega arith in
    elim (Bool-cases (leb c 0x7f)) [
      | inl ascii ↦ rw ascii (rw e (tokens-add-le a (b + 1) s))
      | inr other ↦ rw other (omega arith)
    ]

tokens-append-le : (run : ℕ) (s t : Text) → tokens run (s ++ t) ≤ tokens run s + tokens 0 t
unfolding tokens
tokens-append-le run [] t =
    let e : run ≡ run + 0 = omega arith in
    omega (arith, tokens-add-le run 0 t, ap (λ r. tokens r t) e)
tokens-append-le run (c ∷ s) t =
    ground (arith, tokens-append-le (run + 1) s t, tokens-append-le 0 s t)

-- A text costs at least as much as its beginning, and at most as much as its parts.
pub estimate_tokens-le-append : (s t : Text) → estimate_tokens s ≤ estimate_tokens (s ++ t)
estimate_tokens-le-append s t =
    omega (arith, estimate_tokens-eq s, estimate_tokens-eq (s ++ t), tokens-le-append 0 s t)

pub estimate_tokens-append-le :
    (s t : Text) → estimate_tokens (s ++ t) ≤ estimate_tokens s + estimate_tokens t
estimate_tokens-append-le s t = omega (
  arith,
  estimate_tokens-eq s,
  estimate_tokens-eq t,
  estimate_tokens-eq (s ++ t),
  tokens-append-le 0 s t,
)

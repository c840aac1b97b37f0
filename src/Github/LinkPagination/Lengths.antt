-- ===== src/Github/LinkPagination/Lengths.antt =====
-- src/github/link-pagination.ts: each reader leaves less of the header than it was given.
use edgemneme.Base.{
  ℕ, ◌+◌, ◌≤◌, ◌<◌, ◌≡◌, inl, inr, refl, false, some, [], ◌∷◌, ◌++◌, ok, >>=-eq-ok, Text, arith,
  ◌==◌, length, is_empty, Bool-cases, Option-cases,
}
use edgemneme.Github.LinkPagination.{
  Parameter, skip_optional_whitespace, cut_at, take_token, read_token, read_quoted_string,
  read_parameter_value, read_assigned, read_parameter, lower_case,
}

pub length-skip : (s : Text) → length (skip_optional_whitespace s) ≤ length s
unfolding skip_optional_whitespace
length-skip [] = omega arith
length-skip (c ∷ s) = ground (arith, length-skip s)

pub length-cut_at :
    (mark : ℕ) (s before after : Text)
    → cut_at mark s ≡ some (before, after)
    → length after < length s
unfolding cut_at
length-cut_at mark [] before after h = cc
length-cut_at mark (c ∷ s) before after h = elim (Bool-cases (c == mark)) [
  | inl here ↦ ground arith
  | inr later ↦ elim (Option-cases (cut_at mark s)) [
    | inl e ↦ ground arith
    | inr ((b, a), e) ↦ ground (arith, length-cut_at mark s b a e)
  ]
]

length-take_token : (s : Text) → length (take_token s).0 + length (take_token s).1 ≡ length s
unfolding take_token
length-take_token [] = refl
length-take_token (c ∷ s) = ground (arith, length-take_token s)

pos_length : (s : Text) → is_empty s ≡ false → 0 < length s
pos_length [] h = cc
pos_length (c ∷ s) h = omega arith

pub length-read_token :
    (s token rest : Text) → read_token s ≡ ok (token, rest) → length rest < length s
unfolding read_token
length-read_token s token rest h = ground (arith, length-take_token s, pos_length (take_token s).0)

length-read_quoted_string :
    (result s value rest : Text)
    → read_quoted_string result s ≡ ok (value, rest)
    → length rest < length s
unfolding read_quoted_string
length-read_quoted_string result [] value rest h = cc
length-read_quoted_string result (c ∷ []) value rest h = ground arith
length-read_quoted_string result (c ∷ next ∷ s) value rest h = ground (
  arith,
  length-read_quoted_string (result ++ c ∷ []) (next ∷ s) value rest,
  length-read_quoted_string (result ++ next ∷ []) s value rest,
)

length-read_parameter_value :
    (s value rest : Text) → read_parameter_value s ≡ ok (value, rest) → length rest < length s
unfolding read_parameter_value
length-read_parameter_value [] value rest h = cc
length-read_parameter_value (c ∷ s) value rest h =
    ground (arith, length-read_quoted_string [] s value rest, length-read_token (c ∷ s) value rest)

length-read_assigned :
    (name s : Text) (parameter : Parameter) (rest : Text)
    → read_assigned name s ≡ ok (parameter, rest)
    → length rest ≤ length s
unfolding read_assigned
length-read_assigned name [] parameter rest h = ground arith
length-read_assigned name (c ∷ s) parameter rest h = elim (Bool-cases (c == b'=')) [
  | inr other ↦ ground arith
  | inl assigned ↦
      let h' = rw assigned at h in
      let ((value, after), e, f) =
        >>=-eq-ok (read_parameter_value (skip_optional_whitespace s)) _ h' in
      ground (
        arith,
        length-read_parameter_value (skip_optional_whitespace s) value after e,
        length-skip s,
      )
]

pub length-read_parameter :
    (s : Text) (parameter : Parameter) (rest : Text)
    → read_parameter s ≡ ok (parameter, rest)
    → length rest < length s
unfolding read_parameter
length-read_parameter s parameter rest h =
    let ((name, after), e, f) = >>=-eq-ok (read_token (skip_optional_whitespace s)) _ h in
    omega (
      arith,
      length-skip s,
      length-read_token (skip_optional_whitespace s) name after e,
      length-skip after,
      length-read_assigned (lower_case name) (skip_optional_whitespace after) parameter rest f,
    )

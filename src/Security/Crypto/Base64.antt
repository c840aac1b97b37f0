-- ===== src/Security/Crypto/Base64.antt =====
-- src/security/crypto.ts: decoding base64url undoes encoding.
use edgemneme.Base.{
  ℕ, zero, suc, ◌+◌, ◌-◌, ◌*◌, ◌/◌, ◌%◌, ◌<◌, ◌≡◌, refl, ap, ap₂, Bool, true, false, ◌||◌, Option,
  some, List, [], ◌∷◌, ◌++◌, map, Text, arith, ◌==◌, length, all, is_empty, is_lower, is_upper,
  is_digit,
}
use edgemneme.Security.Crypto.{
  to_url, from_url, strip_padding, repeat, pad, is_url_character, encode_base64_url,
  decode_base64_url,
}

-- A character of the base64 alphabet.
abbrev pub is_base64_character : ℕ → Bool
is_base64_character c = is_upper c || is_lower c || is_digit c || c == b'+' || c == b'/'

-- What `btoa` and `atob` are documented to do on bytes that are not empty: they are written as characters of
-- the alphabet, at least one, with fewer than four signs of padding behind them that make the length a
-- multiple of four; and what is written is read back.
pub record IsBase64 (btoa : List ℕ → Text) (atob : Text → Option (List ℕ)) (bytes : List ℕ)
    : Type 0 where
  pub digits : Text
  pub padding : ℕ
  pub writes : btoa bytes ≡ digits ++ repeat padding b'='
  pub alphabet : all is_base64_character digits ≡ true
  pub short : padding < 4
  pub aligned : (length digits + padding) % 4 ≡ 0
  pub nonempty : is_empty digits ≡ false
  pub reads : atob (btoa bytes) ≡ some bytes

url_character :
    (c : ℕ)
    → is_base64_character c ≡ true
    → (is_url_character (to_url c) ≡ true) × (from_url (to_url c) ≡ c)
url_character c h = (ground arith, ground arith)

url_characters :
    (s : Text)
    → all is_base64_character s ≡ true
    → (all is_url_character (map to_url s) ≡ true) × (map from_url (map to_url s) ≡ s)
url_characters [] h = (refl, refl)
url_characters (c ∷ s) h =
    let (here, back) = url_character c (ground arith) in
    let (rest, same) = url_characters s (ground arith) in
    (rw (here, rest), ap₂ (λ x xs. x ∷ xs) back same)

map-to_url-padded :
    (s : Text) (n : ℕ) → map to_url (s ++ repeat n b'=') ≡ map to_url s ++ repeat n b'='
map-to_url-padded [] zero = refl
map-to_url-padded [] (suc n) = ap (λ xs. b'=' ∷ xs) (map-to_url-padded [] n)
map-to_url-padded (c ∷ s) n = ap (λ xs. to_url c ∷ xs) (map-to_url-padded s n)

strip_padding-repeat : (n : ℕ) → strip_padding (repeat n b'=') ≡ []
unfolding strip_padding
strip_padding-repeat zero = refl
strip_padding-repeat (suc n) = rw (strip_padding-repeat n)

strip_padding-padded :
    (s : Text) (n : ℕ) → all is_url_character s ≡ true → strip_padding (s ++ repeat n b'=') ≡ s
unfolding strip_padding
strip_padding-padded [] n h = strip_padding-repeat n
strip_padding-padded (c ∷ s) n h =
    let rest = strip_padding-padded s n (ground arith) in
    let other : (c == b'=') ≡ false = ground arith in rw (rest, other)

length-map-to_url : (s : Text) → length (map to_url s) ≡ length s
length-map-to_url [] = refl
length-map-to_url (c ∷ s) = rw (length-map-to_url s)

map_nonempty : (s : Text) → is_empty s ≡ false → is_empty (map to_url s) ≡ false
map_nonempty [] h = cc
map_nonempty (c ∷ s) h = refl

module _ {btoa : List ℕ → Text} {atob : Text → Option (List ℕ)} (bytes : List ℕ)
    (base64 : IsBase64 btoa atob bytes) where
  -- What is written is the characters of base64, each replaced, without the padding.
  encode-digits : encode_base64_url btoa bytes ≡ map to_url base64.digits
  unfolding encode_base64_url
  encode-digits =
      let (safe, back) = url_characters base64.digits base64.alphabet in
      rw (
        base64.writes,
        map-to_url-padded base64.digits base64.padding,
        strip_padding-padded (map to_url base64.digits) base64.padding safe,
      )

  pub encode-url_characters : all is_url_character (encode_base64_url btoa bytes) ≡ true
  encode-url_characters = rw encode-digits (url_characters base64.digits base64.alphabet).0

  pad-digits : pad base64.digits ≡ btoa bytes
  unfolding pad
  pad-digits =
      let size = length base64.digits in
      let count : (size + 3) / 4 * 4 - size ≡ base64.padding =
        omega (arith, base64.short, base64.aligned) in
      rw (count, base64.writes)

  -- The bytes are read back from their base64url.
  pub decode-encode : decode_base64_url atob (encode_base64_url btoa bytes) ≡ some bytes
  unfolding decode_base64_url
  decode-encode =
      let (safe, back) = url_characters base64.digits base64.alphabet in
      let filled = map_nonempty base64.digits base64.nonempty in
      rw (encode-digits, filled, safe, back, pad-digits, base64.reads)

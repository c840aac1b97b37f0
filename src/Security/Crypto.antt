-- ===== src/Security/Crypto.antt =====
-- src/security/crypto.ts: base64url and the comparison of signatures. `btoa` and `atob` are the
-- language's, on bytes; `atob` is `none` where it throws.
pub mod Laws
pub mod Base64
use Prim.Native.Nat.{bit_xor, bit_or}
use edgemneme.Base.{
  ℕ, zero, suc, ◌+◌, ◌-◌, ◌*◌, ◌/◌, Bool, true, false, not, ◌&&◌, ◌||◌, Option, none, some, List,
  [], ◌∷◌, ◌++◌, map, Text, ◌==◌, if◌then◌else◌, length, all, is_empty, is_lower, is_upper,
  is_digit,
}

abbrev pub to_url : ℕ → ℕ
to_url c = if c == b'+' then b'-' else if c == b'/' then b'_' else c

abbrev pub from_url : ℕ → ℕ
from_url c = if c == b'-' then b'+' else if c == b'_' then b'/' else c

-- `replace(/=+$/u, "")`
unfoldable pub strip_padding : Text → Text
strip_padding [] = []
strip_padding (c ∷ s) =
    let rest = strip_padding s in if c == b'=' && is_empty rest then [] else c ∷ rest

abbrev pub repeat : ℕ → ℕ → Text
repeat zero c = []
repeat (suc n) c = c ∷ repeat n c

-- `value.padEnd(Math.ceil(value.length / 4) * 4, "=")`
unfoldable pub pad : Text → Text
pad value = value ++ repeat ((length value + 3) / 4 * 4 - length value) b'='

abbrev pub is_url_character : ℕ → Bool
is_url_character c = is_upper c || is_lower c || is_digit c || c == b'_' || c == b'-'

unfoldable pub encode_base64_url : (List ℕ → Text) → List ℕ → Text
unfolding strip_padding
encode_base64_url btoa bytes = strip_padding (map to_url (btoa bytes))

unfoldable pub decode_base64_url : (Text → Option (List ℕ)) → Text → Option (List ℕ)
unfolding pad
decode_base64_url atob value =
    if is_empty value || not (all is_url_character value)
    then none
    else atob (pad (map from_url value))

-- `difference |= left[index] ^ right[index]`
unfoldable pub difference_from : ℕ → List ℕ → List ℕ → ℕ
difference_from difference [] right = difference
difference_from difference (a ∷ left) [] = difference_from (bit_or difference (bit_xor a 0)) left []
difference_from difference (a ∷ left) (b ∷ right) =
    difference_from (bit_or difference (bit_xor a b)) left right

unfoldable pub constant_time_equal : List ℕ → List ℕ → Bool
unfolding difference_from
constant_time_equal left right =
    if not (length left == length right) then false else difference_from 0 left right == 0

-- ===== src/Github/ContentPolicy/Paths.antt =====
-- src/github/content-policy.ts: what a blob's path says of its content. `to_lower_case` is the
-- language's; the patterns are written out over the end of the name.
use edgemneme.Base.{
  ℕ, Bool, true, false, ◌&&◌, ◌||◌, none, some, List, [], ◌∷◌, map, Text, codes, ◌==◌,
  if◌then◌else◌, any, drop, includes, ends_with, from_last, is_prefix,
}
use edgemneme.Github.ContentPolicy.Tables.{binary_extensions, lockfile_names}

-- `path.replaceAll("\\", "/")`
abbrev pub with_slashes : Text → Text
with_slashes path = map (λ c. if c == 92 then b'/' else c) path

module _ (to_lower_case : Text → Text) where
  unfoldable pub normalize_path : Text → Text
  normalize_path path = to_lower_case (with_slashes path)

unfoldable pub basename : Text → Text
unfolding from_last
basename path = elim (from_last b'/' path) [ none ↦ path | some found ↦ drop 1 found ]

-- `/\.min\.(?:c?js|mjs|css)(?:\.map)?$/u`
abbrev pub minified_suffixes : List Text
minified_suffixes =
    codes ".min.js"
    ∷ codes ".min.cjs"
    ∷ codes ".min.mjs"
    ∷ codes ".min.css"
    ∷ codes ".min.js.map"
    ∷ codes ".min.cjs.map"
    ∷ codes ".min.mjs.map"
    ∷ codes ".min.css.map"
    ∷ []

-- `/\.(?:css|c?js|mjs)\.map$/u`
abbrev pub source_map_suffixes : List Text
source_map_suffixes = codes ".css.map" ∷ codes ".js.map" ∷ codes ".cjs.map" ∷ codes ".mjs.map" ∷ []

-- `/(?:\.designer\.cs|\.g\.cs|\.pb\.go|_pb2\.py)$/u`
abbrev pub generated_suffixes : List Text
generated_suffixes = codes ".designer.cs" ∷ codes ".g.cs" ∷ codes ".pb.go" ∷ codes "_pb2.py" ∷ []

abbrev pub is_separator : ℕ → Bool
is_separator c = c == b'.' || c == b'_' || c == b'-'

-- `(?:[._-]|$)` at the start of this text
abbrev pub ends_word : Text → Bool
ends_word [] = true
ends_word (c ∷ s) = is_separator c

-- `(?:^|[._-])generated(?:[._-]|$)`, with whether this place begins a word.
unfoldable pub has_generated_word : Bool → Text → Bool
has_generated_word begins [] = false
has_generated_word begins (c ∷ s) =
    (begins && is_prefix (codes "generated") (c ∷ s) && ends_word (drop 9 (c ∷ s)))
    || has_generated_word (is_separator c) s

unfoldable pub is_minified_or_generated_file : Text → Bool
unfolding basename has_generated_word
is_minified_or_generated_file path =
    let name = basename path in
    any (ends_with name) minified_suffixes
    || any (ends_with name) source_map_suffixes
    || has_generated_word true name
    || any (ends_with name) generated_suffixes

unfoldable pub has_binary_extension : Text → Bool
unfolding basename
has_binary_extension path = elim (from_last b'.' (basename path)) [
  | none ↦ false
  | some extension ↦ includes binary_extensions extension
]

unfoldable pub is_lockfile : Text → Bool
unfolding basename
is_lockfile path =
    let name = basename path in includes lockfile_names name || ends_with name (codes ".lock")

-- ===== src/Github/ContentPolicy/Tables.antt =====
-- src/github/content-policy.ts: the tables of names, extensions and signatures.
use edgemneme.Base.{ℕ, List, [], ◌∷◌, Text, codes}

abbrev pub github_blob_transport_limit_bytes : ℕ
github_blob_transport_limit_bytes = 65536

abbrev pub generated_directory_names : List Text
generated_directory_names =
    codes ".cache"
    ∷ codes ".gradle"
    ∷ codes ".next"
    ∷ codes ".nuxt"
    ∷ codes ".svelte-kit"
    ∷ codes ".terraform"
    ∷ codes "build"
    ∷ codes "coverage"
    ∷ codes "dist"
    ∷ codes "generated"
    ∷ codes "node_modules"
    ∷ codes "out"
    ∷ codes "pods"
    ∷ codes "target"
    ∷ codes "vendor"
    ∷ codes "vendored"
    ∷ []

abbrev pub binary_extensions : List Text
binary_extensions =
    codes ".7z"
    ∷ codes ".a"
    ∷ codes ".apk"
    ∷ codes ".avro"
    ∷ codes ".avi"
    ∷ codes ".bin"
    ∷ codes ".bmp"
    ∷ codes ".class"
    ∷ codes ".db"
    ∷ codes ".deb"
    ∷ codes ".dll"
    ∷ codes ".dmg"
    ∷ codes ".doc"
    ∷ codes ".docx"
    ∷ codes ".eot"
    ∷ codes ".exe"
    ∷ codes ".flac"
    ∷ codes ".gif"
    ∷ codes ".gz"
    ∷ codes ".ico"
    ∷ codes ".jar"
    ∷ codes ".jpeg"
    ∷ codes ".jpg"
    ∷ codes ".mov"
    ∷ codes ".mp3"
    ∷ codes ".mp4"
    ∷ codes ".npy"
    ∷ codes ".npz"
    ∷ codes ".o"
    ∷ codes ".obj"
    ∷ codes ".otf"
    ∷ codes ".pdf"
    ∷ codes ".pkl"
    ∷ codes ".pb"
    ∷ codes ".png"
    ∷ codes ".ppt"
    ∷ codes ".pptx"
    ∷ codes ".pyc"
    ∷ codes ".rar"
    ∷ codes ".rpm"
    ∷ codes ".so"
    ∷ codes ".sqlite"
    ∷ codes ".sqlite3"
    ∷ codes ".tar"
    ∷ codes ".tif"
    ∷ codes ".tiff"
    ∷ codes ".ttf"
    ∷ codes ".wav"
    ∷ codes ".webm"
    ∷ codes ".webp"
    ∷ codes ".woff"
    ∷ codes ".woff2"
    ∷ codes ".xls"
    ∷ codes ".xlsx"
    ∷ codes ".xz"
    ∷ codes ".zip"
    ∷ codes ".wasm"
    ∷ []

abbrev pub lockfile_names : List Text
lockfile_names =
    codes "bun.lock"
    ∷ codes "bun.lockb"
    ∷ codes "cargo.lock"
    ∷ codes "composer.lock"
    ∷ codes "flake.lock"
    ∷ codes "gemfile.lock"
    ∷ codes "go.sum"
    ∷ codes "mix.lock"
    ∷ codes "npm-shrinkwrap.json"
    ∷ codes "package-lock.json"
    ∷ codes "pipfile.lock"
    ∷ codes "pnpm-lock.yaml"
    ∷ codes "podfile.lock"
    ∷ codes "poetry.lock"
    ∷ codes "pubspec.lock"
    ∷ codes "uv.lock"
    ∷ codes "yarn.lock"
    ∷ []

abbrev pub binary_signatures : List (List ℕ)
binary_signatures =
    (0x89 ∷ 0x50 ∷ 0x4e ∷ 0x47 ∷ 0x0d ∷ 0x0a ∷ 0x1a ∷ 0x0a ∷ [])
    ∷ (0xff ∷ 0xd8 ∷ 0xff ∷ [])
    ∷ (0x47 ∷ 0x49 ∷ 0x46 ∷ 0x38 ∷ 0x37 ∷ 0x61 ∷ [])
    ∷ (0x47 ∷ 0x49 ∷ 0x46 ∷ 0x38 ∷ 0x39 ∷ 0x61 ∷ [])
    ∷ (0x25 ∷ 0x50 ∷ 0x44 ∷ 0x46 ∷ 0x2d ∷ [])
    ∷ (0x50 ∷ 0x4b ∷ 0x03 ∷ 0x04 ∷ [])
    ∷ (0x50 ∷ 0x4b ∷ 0x05 ∷ 0x06 ∷ [])
    ∷ (0x50 ∷ 0x4b ∷ 0x07 ∷ 0x08 ∷ [])
    ∷ (0x1f ∷ 0x8b ∷ [])
    ∷ (0x7f ∷ 0x45 ∷ 0x4c ∷ 0x46 ∷ [])
    ∷ (0x00 ∷ 0x61 ∷ 0x73 ∷ 0x6d ∷ [])
    ∷ (0x4d ∷ 0x5a ∷ [])
    ∷ (0xca ∷ 0xfe ∷ 0xba ∷ 0xbe ∷ [])
    ∷ (0xcf ∷ 0xfa ∷ 0xed ∷ 0xfe ∷ [])
    ∷ (0xfe ∷ 0xed ∷ 0xfa ∷ 0xcf ∷ [])
    ∷ (0xce ∷ 0xfa ∷ 0xed ∷ 0xfe ∷ [])
    ∷ (0xfe ∷ 0xed ∷ 0xfa ∷ 0xce ∷ [])
    ∷ (0xcf ∷ 0x11 ∷ 0xe0 ∷ 0xa1 ∷ 0xb1 ∷ 0x1a ∷ 0xe1 ∷ [])
    ∷ (0x53 ∷ 0x51 ∷ 0x4c ∷ 0x69 ∷ 0x74 ∷ 0x65 ∷ 0x20 ∷ 0x66 ∷ 0x6f ∷ 0x72 ∷ 0x6d ∷ 0x61 ∷ 0x74
        ∷ 0x20 ∷ 0x33 ∷ 0x00 ∷ [])
    ∷ []

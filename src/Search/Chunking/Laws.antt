-- ===== src/Search/Chunking/Laws.antt =====
-- src/search/chunking.ts: what the division into chunks guarantees.
use edgemneme.Base.{
  ℕ, ◌+◌, ◌≤◌, ◌<◌, ◌≡◌, refl, sym, ◌∙◌, ap, ap₂, ◌≢◌, ◌↔◌, inl, inr, Bool, true, false, List, [],
  ◌∷◌, ◌++◌, append_assoc, append-nil, ok-injective, ok, Text, arith, All, concat, is_empty, ltb,
  Bool-cases, not, ◌&&◌, if◌then◌else◌,
}
use edgemneme.Search.Chunking.{
  max_memory_chunk_estimated_tokens, ChunkState, utf8_byte_length, add_code_point, finish_chunks,
  chunk_from, chunk_memory_content,
}

-- The estimated tokens of a text: the UTF-8 bytes of its code points.
abbrev pub estimate : Text → ℕ
estimate [] = 0
estimate (c ∷ s) = utf8_byte_length c + estimate s

pub estimate-append : (s t : Text) → estimate (s ++ t) ≡ estimate s + estimate t
estimate-append [] t = omega arith
estimate-append (c ∷ s) t = omega (arith, estimate-append s t)

pub utf8_byte_length_bounds : (c : ℕ) → (1 ≤ utf8_byte_length c) × (utf8_byte_length c ≤ 4)
unfolding utf8_byte_length
utf8_byte_length_bounds c = ground arith

-- A chunk that may be stored: not empty, and within the token limit.
abbrev pub IsChunk : Text → Type 0
IsChunk k = (k ≢ []) × (estimate k ≤ max_memory_chunk_estimated_tokens)

-- The first code point of the second chunk does not fit into the first.
abbrev pub Overflows : Text → Text → Type 0
Overflows k [] = ⊥
Overflows k (c ∷ s) = max_memory_chunk_estimated_tokens < estimate k + utf8_byte_length c

-- No chunk could have taken one more code point.
abbrev pub IsGreedy : List Text → Type 0
IsGreedy [] = Unit
IsGreedy (k ∷ []) = Unit
IsGreedy (k ∷ l ∷ ks) = Overflows k l × IsGreedy (l ∷ ks)

is_full : Text → ℕ → Bool
is_full cur c =
    not (is_empty cur) && ltb max_memory_chunk_estimated_tokens (estimate cur + utf8_byte_length c)

-- The loop without its accumulators: the chunks of a text after the open chunk `cur`.
greedy : Text → Text → List Text
greedy cur [] = if not (is_empty cur) then cur ∷ [] else []
greedy cur (c ∷ s) =
    let closed = cur ∷ greedy (c ∷ []) s in
    let longer = greedy (cur ++ c ∷ []) s in if is_full cur c then closed else longer

greedy_full :
    (cur : Text) (c : ℕ) (s : Text)
    → is_full cur c ≡ true
    → greedy cur (c ∷ s) ≡ cur ∷ greedy (c ∷ []) s
unfolding greedy
greedy_full cur c s h = rw h

greedy_open :
    (cur : Text) (c : ℕ) (s : Text)
    → is_full cur c ≡ false
    → greedy cur (c ∷ s) ≡ greedy (cur ++ c ∷ []) s
unfolding greedy
greedy_open cur c s h = rw h

-- One round of the loop, when the open chunk is full and when it is not.
add_code_point_full :
    (s : ChunkState) (c : ℕ)
    → s.estimated_tokens ≡ estimate s.chunk
    → is_full s.chunk c ≡ true
    → add_code_point s c ≡ record {
      chunks = s.chunks ++ s.chunk ∷ [];
      chunk = c ∷ [];
      estimated_tokens = utf8_byte_length c;
    }
unfolding add_code_point is_full
add_code_point_full s c e h = rw e (rw h (ground arith))

add_code_point_open :
    (s : ChunkState) (c : ℕ)
    → s.estimated_tokens ≡ estimate s.chunk
    → is_full s.chunk c ≡ false
    → add_code_point s c ≡ record s {
      chunk = s.chunk ++ c ∷ [];
      estimated_tokens = estimate s.chunk + utf8_byte_length c;
    }
unfolding add_code_point is_full
add_code_point_open s c e h = rw e (rw h (ground arith))

chunk_from-eq-greedy :
    (s : ChunkState) (content : Text)
    → s.estimated_tokens ≡ estimate s.chunk
    → chunk_from s content ≡ s.chunks ++ greedy s.chunk content
unfolding chunk_from greedy finish_chunks
chunk_from-eq-greedy s [] h = elim (Bool-cases (is_empty s.chunk)) [
  | inl e ↦ rw e (sym (append-nil _))
  | inr f ↦ rw f
]
chunk_from-eq-greedy s (c ∷ content) h = elim (Bool-cases (is_full s.chunk c)) [
  | inl f ↦ rw (add_code_point_full s c h f) (
      chunk_from-eq-greedy
        (record {
          chunks = s.chunks ++ s.chunk ∷ [];
          chunk = c ∷ [];
          estimated_tokens = utf8_byte_length c;
        })
        content (omega arith)
      ∙ append_assoc s.chunks (s.chunk ∷ []) _
      ∙ ap (λ t. s.chunks ++ t) (sym (greedy_full s.chunk c content f)))
  | inr n ↦ rw (add_code_point_open s c h n) (
      chunk_from-eq-greedy
        (record s {
          chunk = s.chunk ++ c ∷ [];
          estimated_tokens = estimate s.chunk + utf8_byte_length c;
        })
        content (omega (arith, estimate-append s.chunk (c ∷ [])))
      ∙ ap (λ t. s.chunks ++ t) (sym (greedy_open s.chunk c content n)))
]

append-ne-nil : (s : Text) (c : ℕ) → s ++ c ∷ [] ≢ []
append-ne-nil [] c e = cc
append-ne-nil (d ∷ s) c e = cc

concat-greedy : (cur s : Text) → concat (greedy cur s) ≡ cur ++ s
unfolding greedy
concat-greedy [] [] = refl
concat-greedy (a ∷ cur) [] = refl
concat-greedy cur (c ∷ s) = elim (Bool-cases (is_full cur c)) [
  | inl f ↦ rw f (ap (λ t. cur ++ t) (concat-greedy (c ∷ []) s))
  | inr n ↦ rw n (concat-greedy (cur ++ c ∷ []) s ∙ append_assoc cur (c ∷ []) s)
]

greedy-IsChunk :
    (cur s : Text) → estimate cur ≤ max_memory_chunk_estimated_tokens → All IsChunk (greedy cur s)
unfolding greedy is_full
greedy-IsChunk [] [] h = tt
greedy-IsChunk (a ∷ cur) [] h = (((λ e. cc), h), tt)
greedy-IsChunk [] (c ∷ s) h = greedy-IsChunk (c ∷ []) s (omega (arith, utf8_byte_length_bounds c))
greedy-IsChunk (a ∷ cur) (c ∷ s) h = elim (Bool-cases (is_full (a ∷ cur) c)) [
  | inl f ↦
      rw f (((λ e. cc), h), greedy-IsChunk (c ∷ []) s (omega (arith, utf8_byte_length_bounds c)))
  | inr n ↦
      rw n
        (greedy-IsChunk (a ∷ cur ++ c ∷ []) s (ground (arith, estimate-append (a ∷ cur) (c ∷ []))))
]

-- The first chunk begins with the open one.
greedy_head :
    (a : ℕ) (cur s : Text) → (k : Text) × (ks : List Text) × (greedy (a ∷ cur) s ≡ (a ∷ k) ∷ ks)
unfolding greedy
greedy_head a cur [] = (cur, [], refl)
greedy_head a cur (c ∷ s) = elim (Bool-cases (is_full (a ∷ cur) c)) [
  | inl f ↦ (cur, greedy (c ∷ []) s, rw f)
  | inr n ↦ rw n (greedy_head a (cur ++ c ∷ []) s)
]

is_full→lt :
    (cur : Text) (c : ℕ)
    → is_full cur c ≡ true
    → max_memory_chunk_estimated_tokens < estimate cur + utf8_byte_length c
unfolding is_full
is_full→lt cur c h = ground arith

greedy-IsGreedy : (cur s : Text) → IsGreedy (greedy cur s)
unfolding greedy
greedy-IsGreedy [] [] = tt
greedy-IsGreedy (a ∷ cur) [] = tt
greedy-IsGreedy cur (c ∷ s) = elim (Bool-cases (is_full cur c)) [
  | inl f ↦
      let (k, ks, e) = greedy_head c [] s in
      rw f (rw e (is_full→lt cur c f, rw e at (greedy-IsGreedy (c ∷ []) s)))
  | inr n ↦ rw n (greedy-IsGreedy (cur ++ c ∷ []) s)
]

is_full_of :
    (a : ℕ) (cur : Text) (c : ℕ)
    → max_memory_chunk_estimated_tokens < estimate (a ∷ cur) + utf8_byte_length c
    → is_full (a ∷ cur) c ≡ true
unfolding is_full
is_full_of a cur c h = ground arith

not_full_of :
    (cur : Text) (c : ℕ)
    → estimate cur + utf8_byte_length c ≤ max_memory_chunk_estimated_tokens
    → is_full cur c ≡ false
unfolding is_full
not_full_of cur c h = ground arith

estimate-le-append : (s t : Text) → estimate s ≤ estimate (s ++ t)
estimate-le-append s t = omega (arith, estimate-append s t)

-- A greedy division into chunks is found again from the text: of the chunk `w`, `a ∷ cur` is read.
greedy_unique :
    (a : ℕ) (cur t w : Text) (ks : List Text)
    → (a ∷ cur) ++ t ≡ w
    → IsChunk w
    → All IsChunk ks
    → IsGreedy (w ∷ ks)
    → greedy (a ∷ cur) (t ++ concat ks) ≡ w ∷ ks
unfolding greedy
greedy_unique a cur [] w [] e k h g = rw (← e) (rw append-nil refl)
greedy_unique a cur [] w ([] ∷ ks) e k h g = absurd g.0
greedy_unique a cur [] w ((c ∷ l) ∷ ks) e k (p, h) (o, g) =
    let d : a ∷ cur ≡ w = sym (append-nil (a ∷ cur)) ∙ e in
    rw (is_full_of a cur c (omega (arith, ap estimate d, o)))
      (ap₂ (λ x r. x ∷ r) d (greedy_unique c [] l (c ∷ l) ks refl p h g))
greedy_unique a cur (c ∷ t) w ks e k h g =
    let d : (a ∷ cur ++ c ∷ []) ++ t ≡ w = append_assoc (a ∷ cur) (c ∷ []) t ∙ e in
    let b : estimate (a ∷ cur) + utf8_byte_length c ≤ max_memory_chunk_estimated_tokens = omega (
      arith,
      estimate-append (a ∷ cur) (c ∷ []),
      estimate-le-append (a ∷ cur ++ c ∷ []) t,
      ap estimate d,
      k.1,
    ) in
    rw (not_full_of (a ∷ cur) c b) (greedy_unique a (cur ++ c ∷ []) t w ks d k h g)

chunks_unique : (ks : List Text) → All IsChunk ks → IsGreedy ks → greedy [] (concat ks) ≡ ks
unfolding greedy is_full
chunks_unique [] h g = refl
chunks_unique ([] ∷ ks) (p, h) g = absurd (p.0 refl)
chunks_unique ((c ∷ l) ∷ ks) (p, h) g = greedy_unique c [] l (c ∷ l) ks refl p h g

abbrev start : ChunkState
start = record { chunks = []; chunk = []; estimated_tokens = 0 }

chunk_memory_content-eq :
    (content : Text) → content ≢ [] → chunk_memory_content content ≡ ok (greedy [] content)
unfolding chunk_memory_content
chunk_memory_content-eq [] h = absurd (h refl)
chunk_memory_content-eq (c ∷ s) h = ap ok (chunk_from-eq-greedy start (c ∷ s) refl)

-- Content that is not empty is divided without an error into chunks that are not empty, stay
-- within the token limit, and give the content back when they are joined.
pub chunk_memory_content-joins :
    (content : Text)
    → content ≢ []
    → (ks : List Text) × (chunk_memory_content content ≡ ok ks)
      × (concat ks ≡ content)
      × All IsChunk ks
chunk_memory_content-joins content h = (
  greedy [] content,
  chunk_memory_content-eq content h,
  concat-greedy [] content,
  greedy-IsChunk [] content (omega arith),
)

-- The chunks of a content that is not empty are the only division of it into chunks within the
-- limit in which no chunk could take the first code point of the next one.
pub chunk_memory_content_iff :
    (content : Text) (ks : List Text)
    → content ≢ []
    → (chunk_memory_content content ≡ ok ks)
      ↔ ((concat ks ≡ content) × All IsChunk ks × IsGreedy ks)
chunk_memory_content_iff content ks h = (
  λ e.
      let d : greedy [] content ≡ ks = ok-injective (sym (chunk_memory_content-eq content h) ∙ e) in
      rw (← d) (
        concat-greedy [] content,
        greedy-IsChunk [] content (omega arith),
        greedy-IsGreedy [] content,
      ),
  λ (c, p, g). rw (chunk_memory_content-eq content h) (ap ok (rw (← c) (chunks_unique ks p g))),
)

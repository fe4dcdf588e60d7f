-- ===== src/Rtk/Transport/Pieces.antt =====
-- The pieces of a frame make up the frame.
use dyx_3wd.Base.{
  ℕ, zero, suc, ◌+◌, ◌-◌, ◌*◌, ◌/◌, ◌%◌, ◌≤◌, ◌<◌, ◌≡◌, refl, sym, ap, ◌∙◌, subst, ◌⊎◌, inl, inr,
  Bool, ◌||◌, List, [], ◌∷◌, ◌++◌, arith, ltb, ◌==◌, if◌then◌else◌, u64, if_cases, length, drop,
  take, length-drop, take-drop, drop_past, drop-drop, length-take,
}
use dyx_3wd.Rtk.Transport.Ops.{
  Chunk, Chunker, max_chunk_bytes, max_fragments, flags_of, chunk, chunks, chunk_count, split,
}

abbrev pub payload : List Chunk → List ℕ
payload [] = []
payload (c ∷ cs) = c.bytes ++ payload cs

-- The receiver reads the fields of the flags by shifts and masks.
abbrev pub fragmented : Chunk → Bool
fragmented c = c.flags % 2 == 1

abbrev pub fragment_id : Chunk → ℕ
fragment_id c = c.flags / 2 % 4

abbrev pub sequence_id : Chunk → ℕ
sequence_id c = c.flags / 8

-- The chunks are numbered from `k`, all of a sequence number and a size in range.
abbrev pub Labelled : ℕ → ℕ → ℕ → List Chunk → Type 0
Labelled n seq k [] = Unit
Labelled n seq k (c ∷ cs) =
    ((fragmented c ≡ ltb 1 n)
      × (fragment_id c ≡ k)
      × (sequence_id c ≡ seq)
      × (0 < length c.bytes)
      × (length c.bytes ≤ max_chunk_bytes))
    × Labelled n seq (suc k) cs

flags-fields :
    (n k seq : ℕ)
    → k < 4
    → seq < 32
    → ((flags_of n k seq % 2 == 1) ≡ ltb 1 n)
      × (flags_of n k seq / 2 % 4 ≡ k)
      × (flags_of n k seq / 8 ≡ seq)
unfolding flags_of
flags-fields n k seq small s = ground arith

-- The bounds of a chunk inside its frame.
size_of : (len start : ℕ) → ℕ
size_of len start =
    (if ltb (start + max_chunk_bytes) len then start + max_chunk_bytes else len) - start

size_lem :
    (len start : ℕ)
    → start < len
    → (0 < size_of len start)
      × (size_of len start ≤ max_chunk_bytes)
      × (size_of len start ≤ len - start)
      × ((size_of len start ≡ max_chunk_bytes)
          ⊎ ((size_of len start ≡ len - start) × (len ≤ start + max_chunk_bytes)))
unfolding size_of
size_lem len start h = ground arith

chunk-length :
    (frame : List ℕ) (n seq k : ℕ)
    → k * max_chunk_bytes < length frame
    → length (chunk frame n seq k).bytes ≡ size_of (length frame) (k * max_chunk_bytes)
unfolding chunk size_of
chunk-length frame n seq k inside =
    let start = k * max_chunk_bytes in
    let small = (size_lem (length frame) start inside).2 in
    let rest = length-drop start frame in
    length-take _ (drop start frame) (omega (arith, small, rest))

chunk_flags :
    (frame : List ℕ) (n seq k : ℕ)
    → k < 4
    → seq < 32
    → let c = chunk frame n seq k in
      (fragmented c ≡ ltb 1 n) × (fragment_id c ≡ k) × (sequence_id c ≡ seq)
unfolding chunk
chunk_flags frame n seq k small s = flags-fields n k seq small s

chunk_lem :
    (frame : List ℕ) (n seq k : ℕ)
    → k < 4
    → seq < 32
    → k * max_chunk_bytes < length frame
    → let c = chunk frame n seq k in
      (fragmented c ≡ ltb 1 n)
      × (fragment_id c ≡ k)
      × (sequence_id c ≡ seq)
      × (0 < length c.bytes)
      × (length c.bytes ≤ max_chunk_bytes)
chunk_lem frame n seq k small s inside =
    let e = chunk-length frame n seq k inside in
    let (positive, bounded, _, _) = size_lem (length frame) (k * max_chunk_bytes) inside in
    let (a, b, c) = chunk_flags frame n seq k small s in
    (a, b, c, omega (arith, e, positive), omega (arith, e, bounded))

-- What follows a chunk of a size in the frame.
rest_of :
    (frame : List ℕ) (start m next : ℕ)
    → next ≡ start + max_chunk_bytes
    → (m ≡ max_chunk_bytes)
      ⊎ ((m ≡ length frame - start) × (length frame ≤ start + max_chunk_bytes))
    → drop next frame ≡ drop m (drop start frame)
rest_of frame start m next e (inl full) =
    ap (λ i. drop i frame) (omega (arith, e, full)) ∙ sym (drop-drop m start frame)
rest_of frame start m next e (inr (rest, past)) =
    drop_past next frame (omega (arith, e, past))
    ∙ sym (drop_past m (drop start frame) (omega (arith, rest, length-drop start frame)))

-- A chunk is followed by the rest of the frame.
chunk-rest :
    (frame : List ℕ) (n seq k : ℕ)
    → k * max_chunk_bytes < length frame
    → (chunk frame n seq k).bytes ++ drop (suc k * max_chunk_bytes) frame
      ≡ drop (k * max_chunk_bytes) frame
unfolding chunk size_of
chunk-rest frame n seq k inside =
    let start = k * max_chunk_bytes in
    let m = size_of (length frame) start in
    ap (λ xs. take m (drop start frame) ++ xs)
      (rest_of frame start m (suc k * max_chunk_bytes) (omega arith)
        (size_lem (length frame) start inside).3)
    ∙ take-drop m (drop start frame)

chunks-payload :
    (frame : List ℕ) (n seq k left : ℕ)
    → k + left ≡ chunk_count frame
    → payload (chunks frame n seq k left) ≡ drop (k * max_chunk_bytes) frame
unfolding chunks
chunks-payload frame n seq k zero e = sym (drop_past (k * max_chunk_bytes) frame (omega (arith, e)))
chunks-payload frame n seq k (suc left) e =
    ap (λ xs. (chunk frame n seq k).bytes ++ xs)
      (chunks-payload frame n seq (suc k) left (omega (arith, e)))
    ∙ chunk-rest frame n seq k (omega (arith, e))

chunks-Labelled :
    (frame : List ℕ) (n seq k left : ℕ)
    → seq < 32
    → k + left ≡ chunk_count frame
    → chunk_count frame ≤ 4
    → Labelled n seq k (chunks frame n seq k left)
unfolding chunks
chunks-Labelled frame n seq k zero s e few = tt
chunks-Labelled frame n seq k (suc left) s e few = (
  chunk_lem frame n seq k (omega (arith, e, few)) s (omega (arith, e)),
  chunks-Labelled frame n seq (suc k) left s (omega (arith, e)) few,
)

length-chunks : (frame : List ℕ) (n seq k left : ℕ) → length (chunks frame n seq k left) ≡ left
unfolding chunks
length-chunks frame n seq k zero = refl
length-chunks frame n seq k (suc left) = ap suc (length-chunks frame n seq (suc k) left)

-- What a list of chunks is to a frame that is cut.
abbrev pub IsCut : List ℕ → ℕ → List Chunk → Type 0
IsCut frame seq cs =
    (0 < length frame)
    × (length frame ≤ 1200)
    × (payload cs ≡ frame)
    × (length cs ≡ chunk_count frame)
    × (length cs ≤ max_fragments)
    × Labelled (length cs) seq 0 cs

chunks-IsCut :
    (frame : List ℕ) (seq : ℕ)
    → seq < 32
    → 0 < length frame
    → length frame ≤ 1200
    → IsCut frame seq (chunks frame (chunk_count frame) seq 0 (chunk_count frame))
chunks-IsCut frame seq s some_bytes below =
    let n = chunk_count frame in
    let count = length-chunks frame n seq 0 n in
    (
      some_bytes,
      below,
      chunks-payload frame n seq 0 n (omega arith),
      count,
      omega (arith, count, below),
      subst (λ m. Labelled m seq 0 (chunks frame n seq 0 n)) (sym count)
          (chunks-Labelled frame n seq 0 n s (omega arith) (omega (arith, below))),
    )

-- A frame of 1 to 1200 bytes is cut into at most four chunks of 1 to 300 bytes each, which carry its
-- bytes in order; their flags say whether there are several, their place, and the sequence number,
-- which then goes on modulo 32. Any other frame is refused whole and counted.
pub split_lem :
    (c : Chunker) (frame : List ℕ)
    → c.seq < 32
    → let (d, cs) = split c frame in
      (IsCut frame c.seq cs × (d.seq ≡ (c.seq + 1) % 32) × (d.rejected ≡ c.rejected))
      ⊎ (((length frame ≡ 0) ⊎ (1200 < length frame))
          × (cs ≡ [])
          × (d.seq ≡ c.seq)
          × (d.rejected ≡ u64 (c.rejected + 1)))
unfolding split
split_lem c frame s =
    if_cases
      (λ (r : Chunker × List Chunk).
        (IsCut frame c.seq r.1 × (r.0.seq ≡ (c.seq + 1) % 32) × (r.0.rejected ≡ c.rejected))
        ⊎ (((length frame ≡ 0) ⊎ (1200 < length frame))
            × (r.1 ≡ [])
            × (r.0.seq ≡ c.seq)
            × (r.0.rejected ≡ u64 (c.rejected + 1))))
      (length frame == 0 || ltb 1200 (length frame)) _ _
      (λ refused. inr (ground (arith, refused), refl, refl, refl))
      (λ taken.
        inl
          (chunks-IsCut frame c.seq s (ground (arith, taken)) (ground (arith, taken)), refl, refl))

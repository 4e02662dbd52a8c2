-- ===== src/Wsync/Signature/Blocks.antt =====
-- The hashes of a file's signature (`CreateSignature` of wsync/hashes.go).
use wharf.Base.{
  ℕ, zero, suc, ◌+◌, ◌-◌, ◌*◌, ◌/◌, ◌≤◌, ◌<◌, ◌≡◌, refl, sym, ap, ◌∙◌, true, false, Option, none,
  List, [], ◌∷◌, ◌++◌, append_assoc, append-nil, arith, length, take, drop, length-take,
  length-drop, take_all, drop_all, drop-drop, Bool-cases, inl, inr, leb, if◌then◌else◌, ◌==◌,
}
use native.Mathlib.Nat.{div-mul-le_self, lt-div-mul-add}
use wharf.Wsync.Types.{BlockHash}
use wharf.Wsync.Emitter.Bytes.{range_bytes}
use wharf.Wsync.Signature.{
  SignParams, Signing, SignError, token, eof, split_func, make_hash, hash_block, poll, scan, finish,
  create_signature,
}

module _ (p : SignParams) (old : ℕ → List ℕ) where
  open p use {block_size, unique_hash, file_index, accepts, canceled}

  -- The hashes of `n` blocks from block `i` on.
  unfoldable pub block_hashes : ℕ → ℕ → List BlockHash
  block_hashes zero i = []
  block_hashes (suc n) i =
      make_hash p i (range_bytes old block_size file_index i 1) ∷ block_hashes n (i + 1)

  -- The scanner's next step: one block, or the end.
  split-token :
      (rest : List ℕ)
      → 0 < block_size
      → 0 < length rest
      → (n : ℕ) × (split_func block_size (take block_size rest) (leb (length rest) block_size)
          ≡ token n (take block_size rest))
        × (drop n rest ≡ drop block_size rest)
  unfolding split_func
  split-token rest pos h = elim (Bool-cases (leb block_size (length rest))) [
    | inl e ↦ (
      block_size,
      ground (arith, length-take block_size rest, take_all block_size (take block_size rest)),
      refl,
    )
    | inr e ↦ (
      length (take block_size rest),
      ground (arith, take_all block_size rest),
      ground (
        arith,
        length-take block_size rest,
        drop_all (length (take block_size rest)) rest,
        drop_all block_size rest,
      ),
    )
  ]

  split-eof : 0 < block_size → split_func block_size (take block_size []) (leb 0 block_size) ≡ eof
  unfolding split_func
  split-eof pos = ground (arith, take_all {A = ℕ} block_size [])

  -- `n` blocks, the last one with a byte at least, hold the bytes that are left.
  abbrev Holds : ℕ → List ℕ → Type 0
  Holds n rest = (length rest ≤ n * block_size) × (n * block_size < length rest + block_size)

  Holds-suc :
      (n : ℕ) (rest : List ℕ)
      → 0 < block_size
      → Holds (suc n) rest
      → (0 < length rest) × Holds n (drop block_size rest)
  Holds-suc n rest pos h = omega (arith, length-drop block_size rest)

  next-rest :
      (i : ℕ) (rest : List ℕ)
      → rest ≡ drop (i * block_size) (old file_index)
      → (take block_size rest ≡ range_bytes old block_size file_index i 1)
        × (drop block_size rest ≡ drop ((i + 1) * block_size) (old file_index))
  unfolding range_bytes
  next-rest i rest e = (
    ap (λ x. take block_size x) e
        ∙ ap (λ n. take n (drop (i * block_size) (old file_index))) one_block,
    ap (λ x. drop block_size x) e
        ∙ drop-drop (i * block_size) block_size (old file_index)
        ∙ ap (λ n. drop n (old file_index)) next_offset,
  )
    where
      one_block : block_size ≡ 1 * block_size
      one_block = omega arith

      next_offset : i * block_size + block_size ≡ (i + 1) * block_size
      next_offset = omega arith

  module _ (all : (hashes : List BlockHash) (h : BlockHash) → accepts hashes h ≡ true)
      (going : (k : ℕ) → canceled k ≡ false) where
    -- What the loop has done when it ends: a hash for each of `n` blocks from block `i` on.
    record Signed (n : ℕ) (s : Signing) (r : Option SignError × Signing) : Type 0 where
      succeeds : r.0 ≡ none
      signs : r.1.hashes ≡ s.hashes ++ block_hashes n s.block_index
      counts : r.1.block_index ≡ s.block_index + n

    hash_block-poll :
        (block : List ℕ) (s : Signing)
        → ((hash_block p block s).0 ≡ none)
          × ((poll p (hash_block p block s).1).0 ≡ none)
          × ((poll p (hash_block p block s).1).1.hashes
              ≡ s.hashes ++ (make_hash p s.block_index block ∷ []))
          × ((poll p (hash_block p block s).1).1.block_index ≡ s.block_index + 1)
    unfolding hash_block poll
    hash_block-poll block s =
        ground (arith, all s.hashes (make_hash p s.block_index block), going (s.block_index + 1))

    scan_token :
        (fuel n : ℕ) (rest block : List ℕ) (s : Signing)
        → split_func block_size (take block_size rest) (leb (length rest) block_size)
          ≡ token n block
        → scan p (suc fuel) rest s ≡ scan p fuel (drop n rest) (poll p (hash_block p block s).1).1
    unfolding scan
    scan_token fuel n rest block s e = ground (arith, e, hash_block-poll block s)

    scan-Signed :
        (n fuel : ℕ) (rest : List ℕ) (s : Signing)
        → 0 < block_size
        → n < fuel
        → rest ≡ drop (s.block_index * block_size) (old file_index)
        → Holds n rest
        → Signed n s (scan p fuel rest s)
    unfolding block_hashes
    scan-Signed n zero rest s pos f e h = absurd (omega arith)
    scan-Signed zero (suc fuel) [] s pos f e h =
        unfold scan in ground (arith, split-eof pos, append-nil s.hashes)
    scan-Signed zero (suc fuel) (x ∷ xs) s pos f e h = absurd (omega arith)
    scan-Signed (suc n) (suc fuel) rest s pos f e h =
        let (nonempty, holds) = Holds-suc n rest pos h in
        let (k, tok, same) = split-token rest pos nonempty in
        let (block, next) = next-rest s.block_index rest e in
        let (_, _, hashes, index) = hash_block-poll (take block_size rest) s in
        let u = (poll p (hash_block p (take block_size rest) s).1).1 in
        let step =
          scan_token fuel k rest (take block_size rest) s tok ∙ ap (λ r. scan p fuel r u) same in
        let ih =
          scan-Signed n fuel (drop block_size rest) u pos (omega arith)
            (next ∙ ap (λ i. drop (i * block_size) (old file_index)) (sym index)) holds in
        record {
          succeeds = ap (λ r. r.0) step ∙ ih.succeeds;
          signs =
              ap (λ r. r.1.hashes) step
              ∙ ih.signs
              ∙ cc (
                hashes,
                index,
                block,
                append_assoc s.hashes (make_hash p s.block_index (take block_size rest) ∷ [])
                    (block_hashes n (s.block_index + 1)),
              );
          counts = ap (λ r. r.1.block_index) step ∙ ih.counts ∙ omega (arith, index);
        }

    -- `ComputeNumBlocks`, for any block size
    abbrev pub num_blocks : ℕ → ℕ
    num_blocks size = (size + block_size - 1) / block_size

    Holds-num_blocks : (rest : List ℕ) → 0 < block_size → Holds (num_blocks (length rest)) rest
    Holds-num_blocks rest pos = omega (
      arith,
      div-mul-le_self (length rest + block_size - 1) block_size,
      lt-div-mul-add {a = length rest + block_size - 1} pos,
    )

    le_mul : (n b : ℕ) → 0 < b → n ≤ n * b
    le_mul n b h = grind arith

    count_bounds :
        (n : ℕ) (rest : List ℕ)
        → 0 < block_size
        → Holds n rest
        → (n ≤ length rest) × (0 < length rest → 0 < n)
    count_bounds zero rest pos h = omega arith
    count_bounds (suc n) rest pos h = omega (arith, le_mul n block_size pos)

    -- If the writer takes every hash, the context is not done and the reader does not fail, the
    -- signature of a file is the hash of each of its blocks in order; of an empty file, the hash
    -- of no bytes.
    pub create_signature-block_hashes :
        0 < block_size
        → let (e, s) = create_signature p (old file_index) false in
          (e ≡ none)
          × (s.hashes ≡ (
              if length (old file_index) == 0
              then make_hash p 0 [] ∷ []
              else block_hashes (num_blocks (length (old file_index))) 0))
    unfolding create_signature finish hash_block block_hashes
    create_signature-block_hashes pos = ground (
      arith,
      signed.succeeds,
      signed.signs,
      signed.counts,
      count_bounds n content pos holds,
      all [] (make_hash p 0 []),
      none_for_empty,
    )
      where
        content : List ℕ
        content = old file_index

        n : ℕ
        n = num_blocks (length content)

        holds : Holds n content
        holds = Holds-num_blocks content pos

        signed :
            Signed n
              (record { block_index = 0; cancel_counter = 0; hashes = [] })
              (scan p
                (length content + 1)
                content
                (record { block_index = 0; cancel_counter = 0; hashes = [] }))
        signed =
            scan-Signed n (length content + 1) content
              (record { block_index = 0; cancel_counter = 0; hashes = [] }) pos
              (omega (arith, count_bounds n content pos holds))
              (ap (λ k. drop k content) zero_offset) holds
          where
            zero_offset : 0 ≡ 0 * block_size
            zero_offset = omega arith

        none_for_empty : n ≡ 0 → block_hashes n 0 ≡ []
        none_for_empty e = ap (λ k. block_hashes k 0) e

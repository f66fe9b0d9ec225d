-- ===== src/Inner/Wire.antt =====
-- The layout of a frame of the inner protocol: 32 bits of hash, 32 bits of length, and the body
-- (libatgw_proto_inner.cpp, `read` and `write_msg`), and what the code takes from flatbuffers,
-- libatbus and the hash function.
use atsf4g_co.Base.{
  ℕ, ◌+◌, ◌-◌, ◌^◌, ◌≤◌, ◌<◌, ◌≡◌, ap, ◌∙◌, Option, some, List, [], ◌∷◌, ◌++◌, arith,
}
use atsf4g_co.Base.Lists.{
  length, drop, append_assoc, length-append, length-drop, drop-append, drop-all, drop-drop,
}

-- How a 32-bit number stands in memory: `ReadScalar` and `WriteScalar` of flatbuffers, or `memcpy`.
pub record Scalar : Type 0 where
  pub read : List ℕ → ℕ
  pub write : ℕ → List ℕ
  pub length-write : (n : ℕ) → length (write n) ≡ 4
  pub read-write : (n : ℕ) → n < 2 ^ 32 → read (write n) ≡ n
  pub read-append : (front rest : List ℕ) → 4 ≤ length front → read (front ++ rest) ≡ read front

-- `murmur_hash3_x86_32` with seed 0, `memcpy` of a `uint32_t`, and the scalars of flatbuffers.
pub record Wire : Type 0 where
  pub hash : List ℕ → ℕ
  pub hash-lt : (body : List ℕ) → hash body < 2 ^ 32
  pub native : Scalar
  pub little : Scalar

-- A block of a `buffer_manager`: the bytes written to it, and how many more it takes.
pub record Block : Type 0 where
  pub written : List ℕ
  pub room : ℕ

-- `buffer_manager` of libatbus, the operations that reading uses, and what they do to its blocks.
pub record BufferManager (M : Type 0) : Type 0 where
  pub blocks : M → List Block
  -- `push_back(data, size)`, `none` where it returns an error
  pub push_back : M → ℕ → Option M
  -- bytes written at the end of the last block, then `pop_back(size, false)`
  pub write_back : M → List ℕ → M
  -- `pop_front(0, true)`
  pub pop_front : M → M
  pub blocks-push_back :
      (m : M) (n : ℕ) (m' : M)
      → push_back m n ≡ some m'
      → blocks m' ≡ blocks m ++ (record { written = []; room = n } ∷ [])
  pub blocks-write_back :
      (m : M) (front : List Block) (b : Block) (bytes : List ℕ)
      → blocks m ≡ front ++ (b ∷ [])
      → length bytes ≤ b.room
      → blocks (write_back m bytes)
        ≡ front ++ (record { written = b.written ++ bytes; room = b.room - length bytes } ∷ [])
  pub blocks-pop_front :
      (m : M) (b : Block) (rest : List Block) → blocks m ≡ b ∷ rest → blocks (pop_front m) ≡ rest

module _ (w : Wire) where
  -- The length in a header
  abbrev pub msg_len : List ℕ → ℕ
  msg_len bytes = w.little.read (drop 4 bytes)

  -- The hash in a header
  abbrev pub expect_hash : List ℕ → ℕ
  expect_hash bytes = w.native.read bytes

  -- What `write_msg` puts after `write_header_offset_` in a block
  unfoldable pub frame : List ℕ → List ℕ
  frame body = w.native.write (w.hash body) ++ (w.little.write (length body) ++ body)

  pub msg_len-append :
      (front rest : List ℕ) → 8 ≤ length front → msg_len (front ++ rest) ≡ msg_len front
  msg_len-append front rest h =
      ap w.little.read (drop-append 4 front rest (omega arith))
      ∙ w.little.read-append (drop 4 front) rest (omega (arith, length-drop 4 front))

  pub length-frame : (body : List ℕ) → length (frame body) ≡ 8 + length body
  unfolding frame
  length-frame body = omega (
    arith,
    length-append (w.native.write (w.hash body)) (w.little.write (length body) ++ body),
    length-append (w.little.write (length body)) body,
    w.native.length-write (w.hash body),
    w.little.length-write (length body),
  )

  -- Past its first four bytes a frame and what follows it are the length, the body and the rest.
  drop-frame :
      (body rest : List ℕ)
      → drop 4 (frame body ++ rest) ≡ w.little.write (length body) ++ (body ++ rest)
  unfolding frame
  drop-frame body rest =
      let hash_bytes = w.native.write (w.hash body) in
      let len_bytes = w.little.write (length body) in
      ap (drop 4) (append_assoc hash_bytes (len_bytes ++ body) rest)
      ∙ (drop-append 4 hash_bytes ((len_bytes ++ body) ++ rest)
            (omega (arith, w.native.length-write (w.hash body)))
          ∙ (ap (λ l. l ++ ((len_bytes ++ body) ++ rest))
                (drop-all 4 hash_bytes (omega (arith, w.native.length-write (w.hash body))))
              ∙ append_assoc len_bytes body rest))

  pub msg_len-frame :
      (body rest : List ℕ) → length body < 2 ^ 32 → msg_len (frame body ++ rest) ≡ length body
  msg_len-frame body rest h =
      ap w.little.read (drop-frame body rest)
      ∙ (w.little.read-append (w.little.write (length body)) (body ++ rest)
            (omega (arith, w.little.length-write (length body)))
          ∙ w.little.read-write (length body) h)

  pub expect_hash-frame : (body rest : List ℕ) → expect_hash (frame body ++ rest) ≡ w.hash body
  unfolding frame
  expect_hash-frame body rest =
      let hash_bytes = w.native.write (w.hash body) in
      let others = w.little.write (length body) ++ body in
      ap w.native.read (append_assoc hash_bytes others rest)
      ∙ (w.native.read-append hash_bytes (others ++ rest)
            (omega (arith, w.native.length-write (w.hash body)))
          ∙ w.native.read-write (w.hash body) (w.hash-lt body))

  pub body-frame : (body rest : List ℕ) → drop 8 (frame body ++ rest) ≡ body ++ rest
  body-frame body rest =
      let len_bytes = w.little.write (length body) in
      drop-drop 4 4 (frame body ++ rest)
      ∙ (ap (drop 4) (drop-frame body rest)
          ∙ (drop-append 4 len_bytes (body ++ rest)
                (omega (arith, w.little.length-write (length body)))
              ∙ ap (λ l. l ++ (body ++ rest))
                  (drop-all 4 len_bytes (omega (arith, w.little.length-write (length body))))))

-- ===== src/Inner/Stream/Success.antt =====
-- A stream of whole messages with the right hashes is read without an error, while the buffers take
-- what they are asked to.
use mathlib.Core.Path.{subst}
use atsf4g_co.Base.{
  ℕ, zero, suc, ◌+◌, ◌-◌, ◌≤◌, ◌<◌, ℤ, Bool, true, false, ◌≡◌, refl, sym, inl, inr, List, [], ◌∷◌,
  ◌++◌, ◌==◌, Bool-cases, is_some, arith,
}
use atsf4g_co.Base.Lists.{length, take, drop, length-append, length-drop, take-all}
use atsf4g_co.Gateway.Codes.{ect_success}
use atsf4g_co.Inner.Wire.{Wire, msg_len, msg_len-append, expect_hash, Block, BufferManager}
use atsf4g_co.Inner.Frames.{Frames, IsWithin, Frames-hash, Frames-within}
use atsf4g_co.Inner.Reader.{
  Reader, Cursor, alloc_recv_buffer, dispatch_small, store_big, unpack, dispatch_big, receive,
  finish, read,
}
use atsf4g_co.Inner.Stream.{Holds, in_head, in_block, unpack-Handles, unpack-cases, unpack-zero}
use atsf4g_co.Inner.Stream.Calls.{alloc-block}
use atsf4g_co.Inner.Stream.Steps.{dispatch_big-idle, receive-head, receive-block}

-- The buffers, while they are empty, give a block of at most so many bytes.
abbrev pub Accepts : {M : Type 0} → BufferManager M → ℕ → Type 0
Accepts {M} bm limit =
    (m : M) (n : ℕ) → bm.blocks m ≡ [] → n ≤ limit → is_some (bm.push_back m n) ≡ true

-- Nothing went wrong so far.
abbrev pub Fine : {M P : Type 0} → Cursor M P → Type 0
Fine c = (c.is_free ≡ false) × (c.errcode ≡ ect_success)

module _ {M P : Type 0} (w : Wire) (bm : BufferManager M) (dispatch : P → List ℕ → ℤ → P)
    (closing : P → Bool) where
  store_big-Fine :
      (c : Cursor M P)
      → is_some (bm.push_back c.buffers (8 + msg_len w c.left)) ≡ true
      → Fine c
      → Fine (store_big w bm dispatch closing c)
  unfolding store_big
  store_big-Fine c given fine = ground arith

  dispatch_small-Fine :
      (c : Cursor M P)
      → w.hash (take (msg_len w c.left) (drop 8 c.left)) ≡ expect_hash w c.left
      → Fine c
      → Fine (dispatch_small w bm dispatch closing c)
  unfolding dispatch_small
  dispatch_small-Fine c fits fine = ground arith

  unpack-Fine :
      (limit fuel : ℕ) (c : Cursor M P) (t : List ℕ) {r : List ℕ} {bodies : List (List ℕ)}
      → Accepts bm limit
      → bm.blocks c.buffers ≡ []
      → Frames w (c.left ++ t) bodies r
      → IsWithin w limit bodies r
      → Fine c
      → Fine (unpack w bm dispatch closing fuel c)
  unfolding IsWithin
  unpack-Fine limit zero c t accepts none_stored frames within fine =
      rw (unpack-zero w bm dispatch closing c) fine
  unpack-Fine limit (suc fuel) c t {r} accepts none_stored frames within fine =
      elim (unpack-cases w bm dispatch closing fuel c) [
        | inl (short, step) ↦ rw step fine
        | inr (inl (long, complete, step)) ↦
            let (fits, body, more, all, rest) = Frames-hash w c.left t long complete frames in
            let within' = (subst (λ l. IsWithin w limit l r) all within).1 in
            rw step (
              unpack-Fine limit fuel (dispatch_small w bm dispatch closing c) t {r = r}
                {bodies = more} accepts (unfold dispatch_small in none_stored)
                (unfold dispatch_small in rest) within' (dispatch_small-Fine c fits fine))
        | inr (inr (long, short, step)) ↦
            let small = Frames-within w limit c.left t long frames within in
            rw step
              (store_big-Fine c (accepts c.buffers (8 + msg_len w c.left) none_stored small) fine)
      ]

  finish-Fine : (c : Cursor M P) → Fine c → (finish w bm dispatch closing c).1 ≡ ect_success
  unfolding finish
  finish-Fine c fine = ground arith

  -- A block that is full, of a stream with the right hashes
  block-Fine :
      (c : Cursor M P) (b : Block) (t : List ℕ) {r : List ℕ} {bodies : List (List ℕ)}
      → bm.blocks c.buffers ≡ b ∷ []
      → 8 < length b.written
      → length b.written + b.room ≡ 8 + msg_len w b.written
      → Frames w (b.written ++ t) bodies r
      → Fine c
      → Fine (dispatch_big w bm dispatch closing c)
  unfolding dispatch_big
  block-Fine c b t e long total frames fine = elim (Bool-cases (b.room == 0)) [
    | inl full ↦
        let (fits, first, others, all, rest) =
          Frames-hash w b.written t long (ground arith) frames in
        let body =
          take-all (msg_len w b.written) (drop 8 b.written)
            (ground (arith, length-drop 8 b.written)) in
        rw (dispatch_big, e) (ground (arith, body, fits))
    | inr more ↦ rw (dispatch_big, e) (ground arith)
  ]

  -- The bytes that go to the small buffer
  head-Fine :
      (limit : ℕ) (r : Reader M P) (bytes t : List ℕ) {rest : List ℕ} {bodies : List (List ℕ)}
      → Accepts bm limit
      → bm.blocks r.buffers ≡ []
      → Frames w ((r.head ++ bytes) ++ t) bodies rest
      → IsWithin w limit bodies rest
      → Fine (dispatch_big w bm dispatch closing (receive w bm dispatch closing r bytes))
  head-Fine limit r bytes t accepts e frames within =
      let start : Cursor M P = record {
        left = r.head ++ bytes;
        buffers = r.buffers;
        proto = r.proto;
        errcode = ect_success;
        is_free = false;
      } in
      let size = length (r.head ++ bytes) in
      let (free, ok) = unpack-Fine limit size start t accepts e frames within (refl, refl) in
      let (_, _, _, holds, _) =
        unpack-Handles w bm dispatch closing size start (unpack w bm dispatch closing size start)
          (omega arith) e refl refl free ok in
      rw (receive-head w bm dispatch closing r bytes e) (
        rw (dispatch_big-idle w bm dispatch closing (unpack w bm dispatch closing size start) holds)
          (free, ok))

  -- The bytes that go to a block
  room-Fine :
      (r : Reader M P) (bytes t : List ℕ) (b : Block) {rest : List ℕ} {bodies : List (List ℕ)}
      → bm.blocks r.buffers ≡ b ∷ []
      → 0 < b.room
      → 8 < length b.written
      → length b.written + b.room ≡ 8 + msg_len w b.written
      → length bytes ≤ b.room
      → Frames w ((b.written ++ bytes) ++ t) bodies rest
      → Fine (dispatch_big w bm dispatch closing (receive w bm dispatch closing r bytes))
  room-Fine r bytes t b e room long total fits frames =
      let size = length-append b.written bytes in
      let len = msg_len-append w b.written bytes (omega arith) in
      rw (receive-block w bm dispatch closing r bytes b e room) (
        block-Fine _ (record { written = b.written ++ bytes; room = b.room - length bytes }) t
          (bm.blocks-write_back r.buffers [] b bytes e fits) (omega (arith, size))
          (omega (arith, size, len)) frames (refl, refl))

  -- A call of `read` for bytes of such a stream
  pub read-good :
      (limit : ℕ) (r : Reader M P) (bytes t : List ℕ) {s rest : List ℕ} {bodies : List (List ℕ)}
      → Accepts bm limit
      → Holds w bm r.head r.buffers s
      → length bytes ≤ alloc_recv_buffer w bm dispatch closing r
      → closing r.proto ≡ false
      → Frames w ((s ++ bytes) ++ t) bodies rest
      → IsWithin w limit bodies rest
      → (read w bm dispatch closing r bytes).1 ≡ ect_success
  unfolding read
  read-good limit r bytes t {rest} {bodies} accepts (in_head e f short) fits running frames within =
      rw (read, running)
        (finish-Fine _ (
          head-Fine limit r bytes t {rest = rest} {bodies = bodies} accepts e
            (subst (λ l. Frames w ((l ++ bytes) ++ t) bodies rest) (sym f) frames) within))
  read-good limit r bytes t {rest} {bodies} accepts (in_block b e f g room long total) fits running
        frames within =
      rw (read, running)
        (finish-Fine _ (
          room-Fine r bytes t b {rest = rest} {bodies = bodies} e room long total
            (omega (arith, alloc-block w bm dispatch closing r b e room))
            (subst (λ l. Frames w ((l ++ bytes) ++ t) bodies rest) (sym f) frames)))

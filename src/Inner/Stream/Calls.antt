-- ===== src/Inner/Stream/Calls.antt =====
-- One call of `read` hands on the messages that it completes.
use mathlib.Core.Path.{subst}
use atsf4g_co.Base.{
  ℕ, ◌+◌, ◌-◌, ◌≤◌, ◌<◌, ℤ, Bool, false, ◌≡◌, refl, sym, ap, ◌∙◌, inl, inr, List, [], ◌∷◌, ◌++◌,
  ◌==◌, Bool-cases, arith,
}
use atsf4g_co.Base.Lists.{length, length-drop, take-all, drop-all, take, drop, length-append}
use atsf4g_co.Gateway.Codes.{ect_success}
use atsf4g_co.Inner.Wire.{Wire, msg_len, msg_len-append, Block, BufferManager}
use atsf4g_co.Inner.Frames.{waits, message, Frames-same}
use atsf4g_co.Inner.Stream.{Holds, in_head, in_block, deliver, Handles, unpack-Handles}
use atsf4g_co.Inner.Reader.{
  Reader, Cursor, alloc_recv_buffer, unpack, dispatch_big, receive, read, back,
}
use atsf4g_co.Inner.Stream.Steps.{
  dispatch_big-is_free, dispatch_big-errcode, dispatch_big-idle, read-success, receive-head,
  receive-block, dispatch_big-full,
}

module _ {M P : Type 0} (w : Wire) (bm : BufferManager M) (dispatch : P → List ℕ → ℤ → P)
    (closing : P → Bool) where
  -- The block after a call: one message, or bytes that wait.
  block-Handles :
      (c d : Cursor M P) (b : Block)
      → bm.blocks c.buffers ≡ b ∷ []
      → c.left ≡ []
      → c.errcode ≡ ect_success
      → 8 < length b.written
      → length b.written + b.room ≡ 8 + msg_len w b.written
      → dispatch_big w bm dispatch closing c ≡ d
      → d.errcode ≡ ect_success
      → Handles w bm dispatch closing c.proto b.written d.left d.buffers d.proto
  unfolding deliver length
  block-Handles c d b e empty ok long total q good = elim (Bool-cases (b.room == 0)) [
    | inl full ↦ elim (dispatch_big-full w bm dispatch closing c b e full) [
      | inl bad ↦ cc
      | inr (fits, same) ↦
          let size : length b.written ≡ 8 + msg_len w b.written = ground arith in
          let is_body : drop 8 b.written ≡ take (msg_len w b.written) (drop 8 b.written) = sym (
            take-all (msg_len w b.written) (drop 8 b.written)
              (omega (arith, length-drop 8 b.written))) in
          subst (λ d. Handles w bm dispatch closing c.proto b.written d.left d.buffers d.proto)
            (sym same ∙ q)
            (
              drop 8 b.written ∷ [],
              [],
              message long (omega arith) is_body fits (
                  Frames-same w (drop-all (8 + msg_len w b.written) b.written (omega arith))
                    (waits (inl (omega arith)) refl)),
              in_head (bm.blocks-pop_front c.buffers b [] e) empty (omega arith),
              ap (λ x. dispatch c.proto (drop 8 b.written) x) ok,
            )
    ]
    | inr more ↦
        let room : 0 < b.room = ground arith in
        subst (λ d. Handles w bm dispatch closing c.proto b.written d.left d.buffers d.proto)
          (sym (dispatch_big-idle w bm dispatch closing c (in_block b e refl empty room long total))
            ∙ q)
          (
            [],
            b.written,
            waits (inr (omega arith)) refl,
            in_block b e refl empty room long total,
            refl,
          )
  ]

  -- Nothing more happens after the loop.
  loop-Handles :
      (c d : Cursor M P) (p : P) (s : List ℕ)
      → Handles w bm dispatch closing p s c.left c.buffers c.proto
      → dispatch_big w bm dispatch closing c ≡ d
      → Handles w bm dispatch closing p s d.left d.buffers d.proto
  loop-Handles c d p s (bodies, r, frames, holds, same) q =
      subst (λ d. Handles w bm dispatch closing p s d.left d.buffers d.proto)
        (sym (dispatch_big-idle w bm dispatch closing c holds) ∙ q) (bodies, r, frames, holds, same)

  head-Handles :
      (r : Reader M P) (bytes : List ℕ) (d : Cursor M P)
      → bm.blocks r.buffers ≡ []
      → dispatch_big w bm dispatch closing (receive w bm dispatch closing r bytes) ≡ d
      → d.is_free ≡ false
      → d.errcode ≡ ect_success
      → Handles w bm dispatch closing r.proto (r.head ++ bytes) d.left d.buffers d.proto
  head-Handles r bytes d e q free good =
      let start : Cursor M P = record {
        left = r.head ++ bytes;
        buffers = r.buffers;
        proto = r.proto;
        errcode = ect_success;
        is_free = false;
      } in
      let size = length (r.head ++ bytes) in
      let c = unpack w bm dispatch closing size start in
      let last : dispatch_big w bm dispatch closing c ≡ d =
        ap (dispatch_big w bm dispatch closing) (sym (receive-head w bm dispatch closing r bytes e))
        ∙ q in
      let ok : c.errcode ≡ ect_success = elim (dispatch_big-errcode w bm dispatch closing c) [
        | inl same ↦ sym same ∙ (ap (λ (x : Cursor M P). x.errcode) last ∙ good)
        | inr bad ↦ cc
      ] in
      loop-Handles c d r.proto (r.head ++ bytes)
        (unpack-Handles w bm dispatch closing size start c (omega arith) e refl refl
          (sym (dispatch_big-is_free w bm dispatch closing c)
            ∙ (ap (λ (x : Cursor M P). x.is_free) last ∙ free))
          ok)
        last

  pub alloc-block :
      (r : Reader M P) (b : Block)
      → bm.blocks r.buffers ≡ b ∷ []
      → 0 < b.room
      → alloc_recv_buffer w bm dispatch closing r ≤ b.room
  unfolding alloc_recv_buffer back
  alloc-block r b e room = rw (alloc_recv_buffer, e) (ground arith)

  -- One call of `read` that succeeds
  pub read-Handles :
      (r : Reader M P) {s : List ℕ} (bytes : List ℕ)
      → Holds w bm r.head r.buffers s
      → length bytes ≤ alloc_recv_buffer w bm dispatch closing r
      → (read w bm dispatch closing r bytes).1 ≡ ect_success
      → Handles w bm dispatch closing r.proto
          (s ++ bytes)
          (read w bm dispatch closing r bytes).0.head
          (read w bm dispatch closing r bytes).0.buffers
          (read w bm dispatch closing r bytes).0.proto
  read-Handles r {s} bytes (in_head e f short) fit good =
      let (d, q, free, ok, same) = read-success w bm dispatch closing r bytes good in
      subst
        (λ (x : Reader M P).
          Handles w bm dispatch closing r.proto (s ++ bytes) x.head x.buffers x.proto)
        (sym same)
        (subst (λ l. Handles w bm dispatch closing r.proto (l ++ bytes) d.left d.buffers d.proto) f
          (head-Handles r bytes d e q free ok))
  read-Handles r {s} bytes (in_block b e f g room long total) fit good =
      let (d, q, free, ok, same) = read-success w bm dispatch closing r bytes good in
      let fits : length bytes ≤ b.room = omega (arith, alloc-block r b e room) in
      let size = length-append b.written bytes in
      let len = msg_len-append w b.written bytes (omega arith) in
      let filled : Block = record { written = b.written ++ bytes; room = b.room - length bytes } in
      subst
        (λ (x : Reader M P).
          Handles w bm dispatch closing r.proto (s ++ bytes) x.head x.buffers x.proto)
        (sym same)
        (subst (λ l. Handles w bm dispatch closing r.proto (l ++ bytes) d.left d.buffers d.proto) f
          (block-Handles
            (record {
              left = r.head;
              buffers = bm.write_back r.buffers bytes;
              proto = r.proto;
              errcode = ect_success;
              is_free = false;
            })
            d filled (bm.blocks-write_back r.buffers [] b bytes e fits) g refl (omega (arith, size))
            (omega (arith, size, len))
            (ap (dispatch_big w bm dispatch closing)
                (sym (receive-block w bm dispatch closing r bytes b e room))
              ∙ q)
            ok))

-- ===== src/Inner/Stream/Room.antt =====
-- The small buffer of the reader: how many bytes are in it, whatever the calls bring.
use atsf4g_co.Base.{
  ℕ, zero, suc, ◌+◌, ◌-◌, ◌≤◌, ◌<◌, ℤ, Bool, true, false, ◌≡◌, refl, ◌⊎◌, inl, inr, List, ◌++◌,
  ◌==◌, Bool-cases, Option-cases, arith,
}
use atsf4g_co.Base.Lists.{length, length-append, length-drop}
use atsf4g_co.Gateway.Codes.{ect_success}
use atsf4g_co.Inner.Wire.{Wire, msg_len, BufferManager}
use atsf4g_co.Inner.Reader.{
  small_size, Reader, Cursor, alloc_recv_buffer, dispatch_small, store_big, unpack, dispatch_big,
  receive, finish, read, back,
}
use atsf4g_co.Inner.Stream.{unpack-cases, unpack-zero, dispatch_small-shorter}

module _ {M P : Type 0} (w : Wire) (bm : BufferManager M) (dispatch : P → List ℕ → ℤ → P)
    (closing : P → Bool) where
  store_big-shorter :
      (c : Cursor M P) → length (store_big w bm dispatch closing c).left ≤ length c.left - 8
  unfolding store_big length
  store_big-shorter c = elim (Option-cases (bm.push_back c.buffers (8 + msg_len w c.left))) [
    | inl e ↦ rw (store_big, e) (omega (arith, length-drop 8 c.left))
    | inr (m, e) ↦ rw (store_big, e) (omega arith)
  ]

  unpack-shorter :
      (fuel : ℕ) (c : Cursor M P)
      → length c.left ≤ fuel
      → length c.left ≤ small_size
      → length (unpack w bm dispatch closing fuel c).left < small_size
  unpack-shorter zero c h small = rw (unpack-zero w bm dispatch closing c) (omega arith)
  unpack-shorter (suc fuel) c h small = elim (unpack-cases w bm dispatch closing fuel c) [
    | inl (short, step) ↦ rw step (omega arith)
    | inr (inl (long, complete, step)) ↦
        let less = dispatch_small-shorter w bm dispatch closing c in
        rw step
          (unpack-shorter fuel (dispatch_small w bm dispatch closing c) (omega arith) (omega arith))
    | inr (inr (long, short, step)) ↦ rw step (omega (arith, store_big-shorter c))
  ]

  dispatch_big-left : (c : Cursor M P) → (dispatch_big w bm dispatch closing c).left ≡ c.left
  unfolding dispatch_big
  dispatch_big-left c = ground arith

  finish-left : (c : Cursor M P) → (finish w bm dispatch closing c).0.head ≡ c.left
  unfolding finish
  finish-left c = ground arith

  -- The bytes go to the small buffer, which has room for them, or to a block.
  receive-cases :
      (r : Reader M P) (bytes : List ℕ)
      → ((receive w bm dispatch closing r bytes
            ≡ unpack w bm dispatch closing (length (r.head ++ bytes)) (record {
              left = r.head ++ bytes;
              buffers = r.buffers;
              proto = r.proto;
              errcode = ect_success;
              is_free = false;
            }))
          × (alloc_recv_buffer w bm dispatch closing r ≤ small_size - length r.head))
        ⊎ ((receive w bm dispatch closing r bytes).left ≡ r.head)
  unfolding receive alloc_recv_buffer
  receive-cases r bytes = elim (Option-cases (back (bm.blocks r.buffers))) [
    | inl e ↦ inl (rw (receive, e) refl, rw (alloc_recv_buffer, e) (ground arith))
    | inr (b, e) ↦ elim (Bool-cases (b.room == 0)) [
      | inl full ↦ inl (rw (receive, e) (rw full refl), rw (alloc_recv_buffer, e) (ground arith))
      | inr more ↦ inr (rw (receive, e) (rw more refl))
    ]
  ]

  receive-shorter :
      (r : Reader M P) (bytes : List ℕ)
      → length r.head < small_size
      → length bytes ≤ alloc_recv_buffer w bm dispatch closing r
      → length (receive w bm dispatch closing r bytes).left < small_size
  receive-shorter r bytes small fits = elim (receive-cases r bytes) [
    | inl (e, room) ↦
        rw e (unpack-shorter _ _ (omega arith) (omega (arith, length-append r.head bytes)))
    | inr e ↦ rw e small
  ]

  -- `alloc_recv_buffer` finds room for at least one byte unless the object is closing.
  alloc-positive :
      (r : Reader M P)
      → length r.head < small_size
      → (closing r.proto ≡ true) ⊎ (0 < alloc_recv_buffer w bm dispatch closing r)
  unfolding alloc_recv_buffer
  alloc-positive r small = ground arith

  read-head :
      (r : Reader M P) (bytes : List ℕ)
      → length r.head < small_size
      → length bytes ≤ alloc_recv_buffer w bm dispatch closing r
      → length (read w bm dispatch closing r bytes).0.head < small_size
  unfolding read
  read-head r bytes small fits =
      let c = receive w bm dispatch closing r bytes in
      elim (Bool-cases (closing r.proto)) [
        | inl e ↦ rw (read, e) small
        | inr e ↦
            rw (read, e)
              (rw (finish-left (dispatch_big w bm dispatch closing c), dispatch_big-left c)
                (receive-shorter r bytes small fits))
      ]

  -- The small buffer never fills up, also when a call ends with an error: after each call of `read`
  -- for at most as many bytes as `alloc_recv_buffer` offered, fewer bytes are in it than it has, so
  -- that the object is closing or the next offer is of at least one byte.
  pub read-keeps_room :
      (r : Reader M P) (bytes : List ℕ)
      → length r.head < small_size
      → length bytes ≤ alloc_recv_buffer w bm dispatch closing r
      → (length (read w bm dispatch closing r bytes).0.head < small_size)
        × ((closing (read w bm dispatch closing r bytes).0.proto ≡ true)
            ⊎ (0 < alloc_recv_buffer w bm dispatch closing (read w bm dispatch closing r bytes).0))
  read-keeps_room r bytes small fits =
      let less = read-head r bytes small fits in
      (less, alloc-positive (read w bm dispatch closing r bytes).0 less)

-- ===== src/Inner/Reader.antt =====
-- Reading: `alloc_recv_buffer` and `read` of `libatgw_proto_inner_v1`
-- (inner_v1/libatgw_proto_inner.cpp), over the buffers of libatbus. What a message does to the rest of
-- the object is `dispatch`, which is `dispatch_data`. The flag of the callback guard, which nothing
-- here reads, is left out (Gateway/Proto/Guard).
use atsf4g_co.Base.{
  ℕ, zero, suc, ◌+◌, ◌-◌, ℤ, Bool, true, false, Option, none, some, List, [], ◌∷◌, ◌++◌, ltb, leb,
  ◌==◌, if◌then◌else◌,
}
use atsf4g_co.Base.Lists.{length, take, drop}
use atsf4g_co.Gateway.Codes.{ect_success, ect_bad_data, ect_closing, ect_invalid_size}
use atsf4g_co.Inner.Wire.{Wire, msg_len, expect_hash, Block, BufferManager}

-- `ATFRAME_GATEWAY_MACRO_DATA_SMALL_SIZE`, the size of `read_head_.buffer`
abbrev pub small_size : ℕ
small_size = 3072

-- `read_head_` (the bytes in use), `read_buffers_`, and the other members.
pub record Reader (M P : Type 0) : Type 0 where
  pub head : List ℕ
  pub buffers : M
  pub proto : P

-- The variables of `read`: `left` is the `buff_left_len` bytes at `buff_start`.
pub record Cursor (M P : Type 0) : Type 0 where
  pub left : List ℕ
  pub buffers : M
  pub proto : P
  pub errcode : ℤ
  pub is_free : Bool

-- The last block, `buffer_manager::back`
unfoldable pub back : List Block → Option Block
back [] = none
back (b ∷ []) = some b
back (b ∷ (c ∷ rest)) = back (c ∷ rest)

-- The first block, `buffer_manager::front`
abbrev pub front : List Block → Option Block
front [] = none
front (b ∷ rest) = some b

-- `NULL == data || 0 == swrite`
abbrev pub no_room : Option Block → Bool
no_room none = true
no_room (some b) = b.room == 0

module _ {M P : Type 0} (w : Wire) (bm : BufferManager M) (dispatch : P → List ℕ → ℤ → P)
    (closing : P → Bool) where
  -- `alloc_recv_buffer`: how many bytes may be read next, 0 for no buffer
  unfoldable pub alloc_recv_buffer : Reader M P → ℕ
  unfolding back
  alloc_recv_buffer r = if closing r.proto then 0 else elim (back (bm.blocks r.buffers)) [
    | none ↦ small_size - length r.head
    | some b ↦ if b.room == 0 then small_size - length r.head else b.room
  ]

  -- `errcode` after the test of a body's hash
  abbrev pub check : List ℕ → ℕ → ℤ → ℤ
  check body expected errcode = if w.hash body == expected then errcode else ect_bad_data

  -- A whole message in the small buffer
  unfoldable pub dispatch_small : Cursor M P → Cursor M P
  dispatch_small c =
      let body = take (msg_len w c.left) (drop 8 c.left) in
      let errcode = check body (expect_hash w c.left) c.errcode in
      record c {
        left = drop (8 + msg_len w c.left) c.left;
        errcode = errcode;
        proto = dispatch c.proto body errcode;
      }

  -- The begin of a message that is not there yet, moved to a block of its own
  unfoldable pub store_big : Cursor M P → Cursor M P
  store_big c = elim (bm.push_back c.buffers (8 + msg_len w c.left)) [
    | some m ↦ record c { buffers = bm.write_back m c.left; left = [] }
    | none ↦ record c { is_free = true; left = drop 8 c.left }
  ]

  -- The loop over the small buffer
  unfoldable pub unpack : ℕ → Cursor M P → Cursor M P
  unpack zero c = c
  unpack (suc fuel) c = elim (ltb 8 (length c.left)) [
    | false ↦ c
    | true ↦ elim (leb (8 + msg_len w c.left) (length c.left)) [
      | true ↦ unpack fuel (dispatch_small c)
      | false ↦ store_big c
    ]
  ]

  -- The first block, once it is full
  unfoldable pub dispatch_big : Cursor M P → Cursor M P
  dispatch_big c = elim (front (bm.blocks c.buffers)) [
    | none ↦ c
    | some b ↦
        let body = drop 8 b.written in
        let errcode = check body (expect_hash w b.written) c.errcode in
        if b.room == 0
        then record c {
          errcode = errcode;
          proto = dispatch c.proto body errcode;
          buffers = bm.pop_front c.buffers;
        }
        else c
  ]

  -- A message that no block was given for
  abbrev pub refuse : Cursor M P → Cursor M P
  refuse c = elim c.is_free [
    | false ↦ c
    | true ↦ record c {
      errcode = ect_invalid_size;
      proto = if ltb 0 (length c.left) then dispatch c.proto c.left ect_invalid_size else c.proto;
    }
  ]

  -- The bytes into the small buffer or into the last block, and what they complete
  unfoldable pub receive : Reader M P → List ℕ → Cursor M P
  receive r bytes =
      let c : Cursor M P = record {
        left = r.head;
        buffers = r.buffers;
        proto = r.proto;
        errcode = ect_success;
        is_free = false;
      } in
      if no_room (back (bm.blocks r.buffers))
      then unpack (length (r.head ++ bytes)) (record c { left = r.head ++ bytes })
      else record c { buffers = bm.write_back r.buffers bytes }

  -- The end of `read`: the object, and `errcode`
  unfoldable pub finish : Cursor M P → Reader M P × ℤ
  finish c =
      let c' = refuse c in
      (record { head = c'.left; buffers = c'.buffers; proto = c'.proto }, c'.errcode)

  -- `read`
  unfoldable pub read : Reader M P → List ℕ → Reader M P × ℤ
  read r bytes =
      if closing r.proto then (r, ect_closing) else finish (dispatch_big (receive r bytes))

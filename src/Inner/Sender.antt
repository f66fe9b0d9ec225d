-- ===== src/Inner/Sender.antt =====
-- Writing and closing: `try_write`, `write_msg`, `write_done`, `send_kickoff` and `close` of
-- `libatgw_proto_inner_v1` (inner_v1/libatgw_proto_inner.cpp), over the buffers of libatbus.
pub mod Merging
pub mod Order
pub mod Progress
pub mod Messages
pub mod Stays
pub mod Closing
use atsf4g_co.Base.{
  ℕ, zero, suc, ◌+◌, ◌-◌, ◌*◌, ◌^◌, ◌≤◌, ◌≡◌, ℤ, pos, Bool, true, false, not, ◌&&◌, ◌||◌, Option,
  none, some, List, [], ◌∷◌, ◌++◌, ltb, leb, ◌==◌, if◌then◌else◌,
}
use atsf4g_co.Base.Lists.{length}
use atsf4g_co.Gateway.Codes.{ect_miss_callbacks, ect_closing, ect_no_data, ect_invalid_size}
use atsf4g_co.Inner.Wire.{Wire, frame}
use atsf4g_co.Inner.Reader.{small_size}

-- A block that waits to be written: its address, and its bytes past the first `write_header_offset_`.
pub record Chunk : Type 0 where
  pub ptr : ℕ
  pub payload : List ℕ

-- `buffer_manager` of libatbus, the operations that writing uses, and what they do to its blocks.
pub record SendBuffers (M : Type 0) : Type 0 where
  pub blocks : M → List Chunk
  -- `limit().cost_number_`
  pub cost_number : M → ℕ
  -- `pop_front` of the whole first block
  pub pop_front : M → M
  -- `push_back` and the bytes written to the block, `none` where it returns an error
  pub push_back : M → List ℕ → Option M
  -- `push_front` and the bytes written to the block; the code relies on its success.
  pub push_front : M → List ℕ → M
  pub blocks-pop_front :
      (m : M) (c : Chunk) (rest : List Chunk) → blocks m ≡ c ∷ rest → blocks (pop_front m) ≡ rest
  pub blocks-push_back :
      (m : M) (bytes : List ℕ) (m' : M)
      → push_back m bytes ≡ some m'
      → (at : ℕ) × (blocks m' ≡ blocks m ++ (record { ptr = at; payload = bytes } ∷ []))
  pub blocks-push_front :
      (m : M) (bytes : List ℕ)
      → (at : ℕ) × (blocks (push_front m bytes) ≡ record { ptr = at; payload = bytes } ∷ blocks m)

-- What is outside: the callbacks (whether they are set, and what they answer), `write_header_offset_`,
-- the length of the buffer for merging, the mode of the buffers, the error of a full buffer, and
-- the bytes of a kickoff message.
pub record Env : Type 0 where
  pub has_write_fn : Bool
  -- the result of the n-th call, and whether the write is already done
  pub write_fn : ℕ → ℤ × Bool
  pub has_close_fn : Bool
  pub close_fn : ℕ → ℤ
  pub write_header_offset : ℕ
  pub tls_length : ℕ
  pub is_static_mode : Bool
  pub push_error : ℤ
  pub kickoff : ℕ → List ℕ

-- The members that writing and closing use. `sent` lists the bytes given to `write_fn`, `writes`
-- counts its calls, and `closes` lists the reasons that `close_fn` was called with.
pub record Sender (M : Type 0) : Type 0 where
  pub writing : Bool
  pub closing : Bool
  pub closed : Bool
  pub buffers : M
  pub last_write_ptr : Option ℕ
  pub close_reason : ℕ
  pub sent : List ℕ
  pub writes : ℕ
  pub closes : List ℕ

-- The constructor
unfoldable pub create : {M : Type 0} → M → Sender M
create m = record {
  writing = false;
  closing = false;
  closed = false;
  buffers = m;
  last_write_ptr = none;
  close_reason = 0;
  sent = [];
  writes = 0;
  closes = [];
}

-- `preview_bb > bb`
abbrev pub is_above : Option ℕ → ℕ → Bool
is_above none at = false
is_above (some prev) at = ltb at prev

-- `last_write_ptr_ == data`
abbrev pub is_at : Option ℕ → ℕ → Bool
is_at none at = false
is_at (some last) at = last == at

module _ {M : Type 0} (w : Wire) (bm : SendBuffers M) (env : Env) where
  -- `raw_size()`
  abbrev pub raw_size : Chunk → ℕ
  raw_size c = env.write_header_offset + length c.payload

  -- Where merging stops
  abbrev pub merge_stops : Chunk → Option ℕ → ℕ → Bool
  merge_stops c preview available =
      available == 0
      || (ltb available (raw_size c) || (env.is_static_mode && is_above preview c.ptr))

  -- The loop that merges blocks, over those of the buffers: what is left of these, and the bytes
  unfoldable pub merge : List Chunk → M → Option ℕ → ℕ → M × List ℕ
  merge [] m preview available = (m, [])
  merge (c ∷ rest) m preview available =
      let more = merge rest (bm.pop_front m) (some c.ptr) (available - length c.payload) in
      if merge_stops c preview available then (m, []) else (more.0, c.payload ++ more.1)

  -- The merging of small blocks to one
  unfoldable pub merge_small : M → M
  merge_small m = elim (bm.blocks m) [
    | [] ↦ m
    | c ∷ rest ↦
        let r = merge (c ∷ rest) m none (env.tls_length - env.write_header_offset) in
        if ltb 1 (bm.cost_number m) && leb (raw_size c) small_size then bm.push_front r.0 r.1 else m
  ]

  -- All blocks are dropped.
  unfoldable pub drop_all : List Chunk → M → M
  drop_all [] m = m
  drop_all (c ∷ rest) m = drop_all rest (bm.pop_front m)

  -- The loop of `write_done`, over the blocks: up to the one that was written last
  unfoldable pub pop_written : List Chunk → M → Option ℕ → M
  pop_written [] m last = m
  pop_written (c ∷ rest) m last =
      let more = pop_written rest (bm.pop_front m) last in
      if raw_size c == 0 || is_at last c.ptr then bm.pop_front m else more

  -- `close_fn` is called, if it is set.
  unfoldable pub call_close : Sender M → Sender M × ℤ
  call_close s =
      let s' = record s { closed = true } in
      if env.has_close_fn
      then (record s' { closes = s.close_reason ∷ s.closes }, env.close_fn s.close_reason)
      else (s', pos 0)

  -- The end of `write_done`
  unfoldable pub settle : Sender M × ℤ → Sender M × ℤ
  settle (s, status) =
      let r = call_close s in
      if s.closing && (not s.closed && not s.writing)
      then (if env.has_close_fn then r else (r.0, status))
      else (s, status)

  abbrev pub and_settle : Option (Sender M × ℤ) → Option (Sender M × ℤ)
  and_settle none = none
  and_settle (some r) = some (settle r)

  -- `write_done`, where `again` is `try_write`
  unfoldable pub written : (Sender M → Option (Sender M × ℤ)) → Sender M → ℤ → Option (Sender M × ℤ)
  written again s status =
      if not s.writing
      then some (s, status)
      else and_settle (
          again (record s {
            buffers = pop_written (bm.blocks s.buffers) s.buffers s.last_write_ptr;
            last_write_ptr = none;
            writing = false;
          }))

  -- `try_write` from the first block on, where `again` is `try_write`
  unfoldable pub launch : (Sender M → Option (Sender M × ℤ)) → Sender M → Option (Sender M × ℤ)
  launch again s = elim (bm.blocks s.buffers) [
    | [] ↦ written again (record s { writing = true }) ect_no_data
    | c ∷ rest ↦
        let s' = record s {
          writing = true;
          last_write_ptr = some c.ptr;
          sent = s.sent ++ c.payload;
          writes = s.writes + 1;
        } in
        if leb (raw_size c) env.write_header_offset
        then again (record s { buffers = bm.pop_front s.buffers })
        else if (env.write_fn s.writes).1
        then written again s' (env.write_fn s.writes).0
        else some (s', (env.write_fn s.writes).0)
  ]

  -- `try_write`
  unfoldable pub try_write : ℕ → Sender M → Option (Sender M × ℤ)
  try_write zero s = none
  try_write (suc fuel) s = elim (bm.blocks s.buffers) [
    | [] ↦ some (s, if env.has_write_fn then pos 0 else ect_miss_callbacks)
    | c ∷ rest ↦
        if not env.has_write_fn
        then some (s, ect_miss_callbacks)
        else if s.writing
        then some (s, pos 0)
        else if s.closing
        then some (record s { buffers = drop_all (c ∷ rest) s.buffers }, ect_closing)
        else launch (try_write fuel) (record s { buffers = merge_small s.buffers })
  ]

  -- `write_done`
  unfoldable pub write_done : ℕ → Sender M → ℤ → Option (Sender M × ℤ)
  write_done fuel s status = written (try_write fuel) s status

  -- `write_msg`
  unfoldable pub write_msg : ℕ → Sender M → List ℕ → Option (Sender M × ℤ)
  write_msg fuel s body =
      if length body == 0
      then try_write fuel s
      else if leb (2 ^ 32 - 1) (length body)
      then some (s, ect_invalid_size)
      else elim (bm.push_back s.buffers (frame w body)) [
        | none ↦ some (s, env.push_error)
        | some m ↦ try_write fuel (record s { buffers = m })
      ]

  -- `send_kickoff`
  unfoldable pub send_kickoff : ℕ → Sender M → ℕ → Option (Sender M × ℤ)
  send_kickoff fuel s reason =
      if s.closing
      then some (s, ect_closing)
      else if not env.has_write_fn
      then some (s, ect_miss_callbacks)
      else write_msg fuel s (env.kickoff reason)

  -- `close` after the kickoff message
  unfoldable pub closing_down : Option (Sender M × ℤ) → Option (Sender M × ℤ)
  closing_down none = none
  closing_down (some (s, status)) =
      let s' = record s { closing = true } in
      some (if s.writing || s.closed then (s', pos 0) else call_close s')

  -- `close`
  unfoldable pub close : ℕ → Sender M → ℕ → Bool → Option (Sender M × ℤ)
  close fuel s reason is_send_kickoff =
      let s' = record s { close_reason = reason } in
      if s.closing
      then some (s, pos 0)
      else closing_down (if is_send_kickoff then send_kickoff fuel s' reason else some (s', pos 0))

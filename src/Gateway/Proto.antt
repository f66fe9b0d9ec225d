-- ===== src/Gateway/Proto.antt =====
-- The protocol object of a session, `proto_base` (atgateway/protocols/proto_base.h): the interface
-- that `session` calls, and what the base class itself implements (protocols/proto_base.cpp).
pub mod Lifecycle
pub mod Guard
use atsf4g_co.Base.{
  ℕ, ℤ, pos, Bool, true, false, not, ◌&&◌, ◌||◌, ◌≡◌, List, [], ◌∷◌, if◌then◌else◌,
}
use atsf4g_co.Gateway.Codes.{ect_handshake}

-- The virtual functions that `session` and `session_manager` call. `P` is the state of a protocol
-- object. The calls that an object makes back into the gateway are steps of their own.
pub record ProtoOps (P : Type 0) : Type 0 where
  -- `write(data, len)`: the length is all that the session passes on of the data.
  pub write : P → ℕ → P × ℤ
  pub write_done : P → ℤ → P × ℤ
  pub close : P → ℕ → P
  -- `check_flag(EN_PFT_CLOSED)`
  pub is_closed : P → Bool
  pub handshake_update : P → P
  pub check_reconnect : P → P → Bool
  -- `read(ssz, buff, len, errcode)`
  pub read : P → List ℕ → P × ℤ
  -- `alloc_recv_buffer`: whether it gave no buffer
  pub alloc_recv_buffer : P → P × Bool
  pub set_recv_buffer_limit : P → ℕ → ℕ → P
  pub set_send_buffer_limit : P → ℕ → ℕ → P
  -- A closed protocol stays closed.
  pub close_keeps : (p : P) (r : ℕ) → is_closed p ≡ true → is_closed (close p r) ≡ true
  pub write_done_keeps : (p : P) (s : ℤ) → is_closed p ≡ true → is_closed (write_done p s).0 ≡ true

-- A call that the base class makes to one of its callbacks.
pub data Callback : Type 0 where
  on_close : ℕ → Callback
  on_handshake_done : ℤ → Callback
  on_handshake_update : ℤ → Callback

-- `proto_callbacks_t`, the members that the base class uses. `close_fn` gives its result.
pub record Callbacks : Type 0 where
  pub has_close_fn : Bool
  pub close_fn : ℕ → ℤ
  pub has_handshake_done_fn : Bool
  pub has_handshake_update_fn : Bool

-- The members of `proto_base`. `has_callbacks` is `NULL != callbacks_`, and `calls` lists the
-- callbacks made, the latest first.
pub record ProtoBase : Type 0 where
  pub writing : Bool
  pub closing : Bool
  pub closed : Bool
  pub handshake_done : Bool
  pub handshake_update : Bool
  pub has_callbacks : Bool
  pub callbacks : Callbacks
  pub calls : List Callback

-- `proto_base::write_done`
pub write_done : ProtoBase → ℤ → ProtoBase × ℤ
write_done p status = if not p.writing then (p, pos 0) else (record p { writing = false }, pos 0)

-- `proto_base::close`
pub close : ProtoBase → ℕ → ProtoBase × ℤ
close p reason =
    let p' = record p { closing = true; closed = true } in
    if p.closing
    then (p, pos 0)
    else if p.has_callbacks && p.callbacks.has_close_fn
    then (record p' { calls = on_close reason ∷ p.calls }, p.callbacks.close_fn reason)
    else (p', pos 0)

-- `proto_base::handshake_done`
pub handshake_done : ProtoBase → ℤ → ProtoBase × ℤ
handshake_done p status =
    let has_handshake_done = p.handshake_done in
    let p' = record p { handshake_done = true; handshake_update = false } in
    if has_handshake_done && not p.handshake_update
    then (p, ect_handshake)
    else if not has_handshake_done && (p.has_callbacks && p.callbacks.has_handshake_done_fn)
    then (record p' { calls = on_handshake_done status ∷ p.calls }, pos 0)
    else if p.has_callbacks && p.callbacks.has_handshake_update_fn
    then (record p' { calls = on_handshake_update status ∷ p.calls }, pos 0)
    else (p', pos 0)

-- `proto_base::handshake_update`
pub handshake_update : ProtoBase → ProtoBase × ℤ
handshake_update p =
    if p.handshake_update then (p, ect_handshake) else (record p { handshake_update = true }, pos 0)

-- `proto_base::~proto_base`
pub destroy : ProtoBase → ProtoBase
unfolding handshake_done
destroy p =
    if p.handshake_update || not p.handshake_done then (handshake_done p ect_handshake).0 else p

-- `proto_base::proto_base`, with the callbacks set by `set_callbacks`
unfoldable pub create : Bool → Callbacks → ProtoBase
create has cb = record {
  writing = false;
  closing = false;
  closed = false;
  handshake_done = false;
  handshake_update = false;
  has_callbacks = has;
  callbacks = cb;
  calls = [];
}

-- ===== src/Gateway/Calls.antt =====
-- The calls that a session gets from libuv, from its protocol object and from the manager
-- (atgateway/session.cpp). A result of libuv is an argument of the call that asks for it. `fuel` is
-- that of `close_with_manager`.
pub mod Lifecycle
pub mod Quota
use atsf4g_co.Base.{
  ℕ, ◌+◌, ◌-◌, ℤ, pos, is_neg, is_zero, Bool, true, false, not, ◌&&◌, Option, none, some, List,
  if◌then◌else◌,
}
use atsf4g_co.Gateway.Codes.{
  ect_closing, ect_already_has_fd, ect_network, ect_bad_protocol, crt_invalid_data,
}
use atsf4g_co.Gateway.Flags.{
  inited, has_fd, registered, reconnected, wait_reconnect, closing, closing_fd,
}
use atsf4g_co.Gateway.Limits.{check_limits, count_send}
use atsf4g_co.Gateway.Proto.{ProtoOps}
use atsf4g_co.Gateway.Session.{send_to_server, close, closer, close_fd}
use atsf4g_co.Gateway.State.{
  add_session, Env, Session, set_flag, check_flag, Outcome, done, null_deref, ◌>>=◌, Net,
}

-- `accept_tcp` and `accept_pipe`: the results of `uv_tcp_init` (`uv_pipe_init`) and of `uv_accept`,
-- and the peer's name; a pipe's port is 0.
unfoldable pub accept : {P : Type 0} → Session P → ℤ → ℤ → List ℕ → ℕ → Session P × ℤ
accept s init_res accept_res ip port =
    if check_flag s closing
    then (s, ect_closing)
    else if check_flag s has_fd
    then (s, ect_already_has_fd)
    else if not (is_zero init_res)
    then (s, ect_network)
    else if not (is_zero accept_res)
    then (set_flag s has_fd true, ect_network)
    else (record (set_flag s has_fd true) { peer_ip = ip; peer_port = port }, pos 0)

unfoldable pub accept_tcp : {P : Type 0} → Session P → ℤ → ℤ → List ℕ → ℕ → Session P × ℤ
unfolding accept
accept_tcp s init_res accept_res ip port = accept s init_res accept_res ip port

unfoldable pub accept_pipe : {P : Type 0} → Session P → ℤ → ℤ → List ℕ → Session P × ℤ
unfolding accept
accept_pipe s init_res accept_res path = accept s init_res accept_res path 0

-- `init_new_session(router)`, with the id that the allocator gives
unfoldable pub init_new_session : {P : Type 0} → Env → Session P → ℕ → ℕ → Outcome (Session P)
init_new_session env s new_id router =
    let limit' = record s.limit {
      update_handshake_timepoint = env.now + env.conf.update_interval;
    } in
    if not s.owner
    then null_deref
    else done (set_flag (record s { id = new_id; router = router; limit = limit' }) inited true)

-- `init_reconnect(sess)`: what it makes of the new session
unfoldable pub renewed : {P : Type 0} → Env → Session P → Session P → Session P
renewed env s old =
    let limit' = record old.limit {
      update_handshake_timepoint = env.now + env.conf.update_interval;
    } in
    let s' = record s {
      id = old.id;
      router = old.router;
      limit = limit';
      private_data = old.private_data;
    } in
    set_flag (set_flag s' inited true) registered (check_flag old registered)

-- and what it makes of the old one
unfoldable pub retired : {P : Type 0} → Session P → Session P
retired old = set_flag (set_flag old reconnected true) wait_reconnect false

-- `init_reconnect(sess)`: the new session and the old one, afterwards
unfoldable pub init_reconnect :
    {P : Type 0} → Env → Session P → Session P → Outcome (Session P × Session P)
init_reconnect env s old = if not s.owner then null_deref else done (renewed env s old, retired old)

-- `on_evt_closed`: the handle is closed, and the pointer that kept the session alive is freed
pub on_evt_closed : {P : Type 0} → Session P → Session P
on_evt_closed s = record (set_flag s closing_fd false) { holders = s.holders - 1 }

module _ {P : Type 0} (ops : ProtoOps P) (env : Env) where
  unfoldable pub register_if : Bool → Net P → Net P
  register_if b n = if b then record n { sess = set_flag n.sess registered true } else n

  -- `send_new_session`
  unfoldable pub send_new_session : ℕ → Net P → Outcome (Net P × ℤ)
  unfolding register_if
  send_new_session fuel n = if check_flag n.sess registered then done (n, pos 0) else do
    (n', ret) ←
        send_to_server ops env (closer ops env fuel) n.sess.owner n
          (add_session n.sess.id n.sess.peer_ip n.sess.peer_port)
    done (register_if (is_zero ret) n', ret)

  -- `send_to_client` from the test of `proto_` on
  pub write_to : ℕ → Net P → ℕ → Option P → Outcome (Net P × ℤ)
  unfolding count_send
  write_to fuel n len none = done (n, ect_bad_protocol)
  write_to fuel n len (some p) =
      let (p', ret) = ops.write p len in
      do
        n' ← check_limits ops env (closer ops env fuel) false true (record n {
          sess = record n.sess { limit = count_send n.sess.limit len; proto = some p' };
        })
        done (n', ret)

  -- `send_to_client(data, len)`
  unfoldable pub send_to_client : ℕ → Net P → ℕ → Outcome (Net P × ℤ)
  unfolding write_to
  send_to_client fuel n len =
      if check_flag n.sess closing
      then done (n, ect_closing)
      else if not (check_flag n.sess has_fd)
      then done (n, ect_closing)
      else write_to fuel n len n.sess.proto

  -- `on_alloc_read`
  pub on_alloc_read : Net P → Net P
  on_alloc_read n = elim n.sess.proto [
    | none ↦ n
    | some p ↦
        let (p', no_buffer) = ops.alloc_recv_buffer p in
        let n' = record n { sess = record n.sess { proto = some p' } } in
        if no_buffer then close_fd ops env n' crt_invalid_data else n'
  ]

  pub read_from : ℕ → Net P → List ℕ → Option P → Outcome (Net P)
  read_from fuel n buff none = done n
  read_from fuel n buff (some p) =
      let (p', errcode) = ops.read p buff in
      let n' = record n { sess = record n.sess { proto = some p' } } in
      if is_neg errcode then close ops env fuel n' crt_invalid_data else done n'

  -- `on_read`
  pub on_read : ℕ → Net P → List ℕ → Outcome (Net P)
  unfolding read_from
  on_read fuel n buff = read_from fuel n buff n.sess.proto

  -- `on_write_done`
  pub on_write_done : Net P → ℤ → Net P × ℤ
  on_write_done n status = elim n.sess.proto [
    | none ↦ (n, pos 0)
    | some p ↦
        let (p', ret) = ops.write_done p status in
        let more = (if check_flag n.sess closing_fd && ops.is_closed p' then 1 else 0) in
        (
          record n {
            sess = record n.sess { proto = some p'; shutdowns = n.sess.shutdowns + more };
          },
          ret,
        )
  ]

-- ===== src/Gateway/Accept.antt =====
-- A new connection: `session_manager::on_evt_accept_tcp` and `on_evt_accept_pipe`
-- (atgateway/session_manager.cpp). What the protocol factory makes, the results of libuv and the
-- address that the new session gets are arguments. `on_create_session_fn_`, which starts the reading
-- of the socket, changes nothing here.
pub mod Capacity
use atsf4g_co.Base.{
  ℕ, ◌+◌, ℤ, is_zero, Bool, not, ◌&&◌, Option, none, some, [], ◌∷◌, ◌++◌, List, ltb, leb,
  if◌then◌else◌,
}
use atsf4g_co.Base.Assoc.{size}
use atsf4g_co.Gateway.Calls.{accept_tcp}
use atsf4g_co.Gateway.Codes.{crt_server_busy}
use atsf4g_co.Gateway.Manager.{Manager, Timer, put, close_session}
use atsf4g_co.Gateway.Proto.{ProtoOps}
use atsf4g_co.Gateway.State.{Env, Session, create, Outcome, done, null_deref}

-- What a connection comes with: the status of the event, the results of `uv_tcp_init` and
-- `uv_accept`, and the peer's name.
pub record Incoming : Type 0 where
  pub status : ℤ
  pub init_res : ℤ
  pub accept_res : ℤ
  pub ip : List ℕ
  pub port : ℕ

module _ {P : Type 0} (ops : ProtoOps P) (env : Env) (fuel : ℕ) (msg_limit : ℕ) where
  -- The protocol of a new session, its buffers limited
  pub limit_buffers : P → P
  limit_buffers p =
      ops.set_send_buffer_limit (ops.set_recv_buffer_limit p msg_limit 2) env.conf.send_buffer_size
        0

  -- Are there as many sessions as there may be?
  abbrev pub is_full : Manager P → Bool
  is_full m =
      let limit = env.conf.limits.max_client_number in
      ltb 0 limit && leb limit (size m.reconnect_cache + size m.actived_sessions)

  -- `on_evt_accept_tcp` from `set_router` on; the session is at `a`
  pub admit : Manager P → ℕ → Session P → Incoming → Outcome (Manager P)
  admit m a s c =
      let (s', res) =
        accept_tcp (record s { router = env.conf.default_router }) c.init_res c.accept_res c.ip
          c.port in
      let m1 = put m a s' in
      let wait = (if ltb 0 env.conf.first_idle_timeout then env.conf.first_idle_timeout else 1) in
      let timer : Timer = record { timeout = env.now + wait; s = a } in
      if not (is_zero res)
      then close_session ops env fuel m1 a crt_server_busy
      else if is_full m1
      then close_session ops env fuel m1 a crt_server_busy
      else done (record m1 { first_idle = m1.first_idle ++ timer ∷ [] })

  -- `on_evt_accept_tcp`
  pub on_evt_accept_tcp : Manager P → ℕ → Option P → Incoming → Outcome (Manager P)
  unfolding admit limit_buffers
  on_evt_accept_tcp m a proto c = if not (is_zero c.status) then done m else elim proto [
    | none ↦ done m
    | some p ↦ elim (create (some (limit_buffers p))) [ none ↦ done m | some s ↦ admit m a s c ]
  ]

  -- `on_evt_accept_pipe`: `session::create` has moved the protocol out of `proto`, and the next line
  -- calls it through `proto`
  unfoldable pub on_evt_accept_pipe : Manager P → ℕ → Option P → Incoming → Outcome (Manager P)
  on_evt_accept_pipe m a proto c = if not (is_zero c.status) then done m else elim proto [
    | none ↦ done m
    | some p ↦ elim (create (some p)) [ none ↦ done m | some s ↦ null_deref ]
  ]

-- ===== src/Gateway/Dispatch.antt =====
-- What the servers ask of the table, and its end: `push_data`, `broadcast_data`,
-- `set_session_router` and `reset` (atgateway/session_manager.cpp).
use atsf4g_co.Base.{ℕ, ℤ, pos, is_zero, none, some, List, [], ◌∷◌, if◌then◌else◌}
use atsf4g_co.Base.Assoc.{lookup}
use atsf4g_co.Gateway.Calls.{send_to_client}
use atsf4g_co.Gateway.Codes.{ect_session_not_found, crt_server_closed}
use atsf4g_co.Gateway.Flags.{registered}
use atsf4g_co.Gateway.Manager.{Manager, Timer, put, net_of, with_net, close_session}
use atsf4g_co.Gateway.Proto.{ProtoOps}
use atsf4g_co.Gateway.State.{Env, check_flag, Outcome, done, ◌>>=◌}

-- `set_session_router(sess_id, router)`
unfoldable pub set_session_router : {P : Type 0} → Manager P → ℕ → ℕ → Manager P × ℤ
set_session_router m id router = elim (lookup id m.actived_sessions) [
  | none ↦ (m, ect_session_not_found)
  | some a ↦ (put m a (record (m.sessions a) { router = router }), pos 0)
]

module _ {P : Type 0} (ops : ProtoOps P) (env : Env) (fuel : ℕ) where
  -- `send_to_client` to the session at `a`
  send_at : Manager P → ℕ → ℕ → Outcome (Manager P × ℤ)
  send_at m a len =
      send_to_client ops env fuel (net_of m a) len >>= λ r. done (with_net m a r.0, r.1)

  -- `push_data(sess_id, buffer, s)`
  unfoldable pub push_data : Manager P → ℕ → ℕ → Outcome (Manager P × ℤ)
  unfolding send_at
  push_data m id len = elim (lookup id m.actived_sessions) [
    | none ↦ done (m, ect_session_not_found)
    | some a ↦ send_at m a len
  ]

  -- One round of the loop of `broadcast_data`; `ret` is its result so far
  broadcast_at : Manager P → ℕ → ℕ → ℤ → Outcome (Manager P × ℤ)
  unfolding send_at
  broadcast_at m a len ret =
      if check_flag (m.sessions a) registered
      then (send_at m a len >>= λ r. done (r.0, (if is_zero ret then ret else r.1)))
      else done (m, ret)

  -- The loop over the active sessions
  broadcast_from : List (ℕ × ℕ) → Manager P → ℕ → ℤ → Outcome (Manager P × ℤ)
  unfolding broadcast_at
  broadcast_from [] m len ret = done (m, ret)
  broadcast_from ((id, a) ∷ rest) m len ret =
      broadcast_at m a len ret >>= λ r. broadcast_from rest r.0 len r.1

  -- `broadcast_data(buffer, s)`
  unfoldable pub broadcast_data : Manager P → ℕ → Outcome (Manager P × ℤ)
  unfolding broadcast_from
  broadcast_data m len = broadcast_from m.actived_sessions m len ect_session_not_found

  -- The loops of `reset` over a map and over a list of timers
  close_map : List (ℕ × ℕ) → Manager P → Outcome (Manager P)
  close_map [] m = done m
  close_map ((id, a) ∷ rest) m =
      close_session ops env fuel m a crt_server_closed >>= λ m1. close_map rest m1

  close_timers : List Timer → Manager P → Outcome (Manager P)
  close_timers [] m = done m
  close_timers (t ∷ ts) m =
      close_session ops env fuel m t.s crt_server_closed >>= λ m1. close_timers ts m1

  -- `reset`, less the sockets that it stops listening on
  unfoldable pub reset : Manager P → Outcome (Manager P)
  unfolding close_map close_timers
  reset m = close_map m.actived_sessions m >>= λ m1.
      close_timers m1.first_idle (record m1 { actived_sessions = [] }) >>= λ m2.
      close_map m2.reconnect_cache (record m2 { first_idle = [] }) >>= λ m3.
      close_timers m3.reconnect_timeout (record m3 { reconnect_cache = [] }) >>= λ m4.
      done (record m4 { reconnect_timeout = [] })

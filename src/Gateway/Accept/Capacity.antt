-- ===== src/Gateway/Accept/Capacity.antt =====
-- How many sessions there may be (atgateway/session_manager.cpp, `on_evt_accept_tcp`).
use atsf4g_co.Base.{
  ℕ, suc, ◌+◌, is_zero, ◌≡◌, true, not, ◌&&◌, some, [], ◌∷◌, ◌++◌, ltb, arith, if◌then◌else◌, inl,
  inr,
}
use atsf4g_co.Base.Assoc.{size}
use atsf4g_co.Gateway.Accept.{Incoming, limit_buffers, admit, on_evt_accept_tcp}
use atsf4g_co.Gateway.Calls.{accept, accept_tcp}
use atsf4g_co.Gateway.Flags.{has_fd, closing}
use atsf4g_co.Gateway.Manager.{Manager, close_session}
use atsf4g_co.Gateway.Proto.{ProtoOps}
use atsf4g_co.Gateway.Session.{close, close_with_manager, finish_close, close_fd}
use atsf4g_co.Gateway.State.{Env, create, check_flag, done, Outcome-cases}

module _ {P : Type 0} (ops : ProtoOps P) (env : Env) (msg_limit : ℕ) where
  -- A connection that libuv accepts comes to a session without a message to any server. Where as many
  -- sessions are active or wait for a reconnection as the configuration allows, the new one is
  -- closing, without its connection and without a timer. Otherwise it has its connection, and a
  -- timer at the end of the list that runs out after the idle time, or after a second if none is
  -- set. The maps stay as they are.
  pub accept-keeps_limit :
      (fuel : ℕ) (m : Manager P) (a : ℕ) (p : P) (c : Incoming)
      → is_zero c.status ≡ true
      → is_zero c.init_res ≡ true
      → is_zero c.accept_res ≡ true
      → let limit = env.conf.limits.max_client_number in
        let full =
          ltb 0 limit && not (ltb (size m.actived_sessions + size m.reconnect_cache) limit) in
        let wait = if ltb 0 env.conf.first_idle_timeout then env.conf.first_idle_timeout else 1 in
        (m' : Manager P) × (on_evt_accept_tcp ops env (suc fuel) msg_limit m a (some p) c ≡ done m')
        × (check_flag (m'.sessions a) closing ≡ full)
        × (check_flag (m'.sessions a) has_fd ≡ not full)
        × (m'.first_idle ≡ (
            if full
            then m.first_idle
            else m.first_idle ++ record { timeout = env.now + wait; s = a } ∷ []))
        × (m'.actived_sessions ≡ m.actived_sessions)
        × (m'.reconnect_cache ≡ m.reconnect_cache)
        × (m'.sent ≡ m.sent)
  unfolding on_evt_accept_tcp admit limit_buffers create accept_tcp accept close_session close
      close_with_manager finish_close close_fd
  accept-keeps_limit fuel m a p c h1 h2 h3 =
      elim (Outcome-cases (on_evt_accept_tcp ops env (suc fuel) msg_limit m a (some p) c)) [
        | inl (m', e) ↦ (
          m',
          e,
          ground (arith, e),
          ground (arith, e),
          ground (arith, e),
          ground (arith, e),
          ground (arith, e),
          ground (arith, e),
        )
        | inr e ↦ absurd (ground (arith, e))
      ]

-- ===== src/Gateway/Manager.antt =====
-- The table of sessions, `session_manager` (atgateway/session_manager.h, session_manager.cpp). The
-- maps and lists hold shared pointers to sessions: a pointer is an address of the store `sessions`.
-- No null pointer is ever put into them, so the tests for one are left out. `fuel` is that of
-- `close_with_manager`.
pub mod Expiry
use atsf4g_co.Base.{
  ℕ, ◌+◌, ℤ, pos, Bool, true, false, not, ◌&&◌, Option, none, some, List, [], ◌∷◌, ◌++◌, ltb, ◌==◌,
  if◌then◌else◌,
}
use atsf4g_co.Base.Assoc.{lookup, insert, erase}
use atsf4g_co.Gateway.Codes.{ect_session_not_found, crt_logout, crt_first_idle}
use atsf4g_co.Gateway.Flags.{registered, wait_reconnect, closing}
use atsf4g_co.Gateway.Proto.{ProtoOps}
use atsf4g_co.Gateway.Session.{close, close_fd, close_with_manager}
use atsf4g_co.Gateway.State.{Sent, Env, Session, set_flag, check_flag, Outcome, done, ◌>>=◌, Net}

-- `session_timeout_t`
pub record Timer : Type 0 where
  pub timeout : ℕ
  pub s : ℕ

pub record Manager (P : Type 0) : Type 0 where
  pub sessions : ℕ → Session P
  pub actived_sessions : List (ℕ × ℕ)
  pub first_idle : List Timer
  pub reconnect_cache : List (ℕ × ℕ)
  pub reconnect_timeout : List Timer
  pub last_tick_time : ℕ
  pub sent : List Sent

-- Write a session back to the store.
abbrev pub put : {P : Type 0} → Manager P → ℕ → Session P → Manager P
put m a s = record m { sessions = λ b. if b == a then s else m.sessions b }

-- A session of the store with the messages sent, and back.
abbrev pub net_of : {P : Type 0} → Manager P → ℕ → Net P
net_of m a = record { sess = m.sessions a; sent = m.sent }

abbrev pub with_net : {P : Type 0} → Manager P → ℕ → Net P → Manager P
with_net m a n = record (put m a n.sess) { sent = n.sent }

module _ {P : Type 0} (ops : ProtoOps P) (env : Env) (fuel : ℕ) where
  -- `s->close(reason)`
  unfoldable pub close_session : Manager P → ℕ → ℕ → Outcome (Manager P)
  close_session m a reason = close ops env fuel (net_of m a) reason >>= λ n. done (with_net m a n)

  -- One round of the loop over `reconnect_timeout_` in `tick`
  unfoldable pub expire_reconnect : Manager P → ℕ → Outcome (Manager P)
  expire_reconnect m a =
      let s = m.sessions a in
      let m1 =
        put (record m { reconnect_cache = erase s.id m.reconnect_cache }) a
          (set_flag s wait_reconnect false) in
      close_with_manager ops env fuel true (net_of m1 a) crt_logout >>= λ n. done (with_net m1 a n)

  -- The loop over `reconnect_timeout_`
  unfoldable pub expire_reconnects : List Timer → Manager P → Outcome (Manager P)
  unfolding expire_reconnect
  expire_reconnects [] m = done (record m { reconnect_timeout = [] })
  expire_reconnects (t ∷ ts) m =
      if ltb env.now t.timeout
      then done (record m { reconnect_timeout = t ∷ ts })
      else (expire_reconnect m t.s >>= λ m1. expire_reconnects ts m1)

  -- One round of the loop over `first_idle_` in `tick`
  unfoldable pub expire_idle : Manager P → ℕ → Outcome (Manager P)
  unfolding close_session
  expire_idle m a =
      if not (check_flag (m.sessions a) registered) && not (check_flag (m.sessions a) closing)
      then close_session m a crt_first_idle
      else done m

  -- The loop over `first_idle_`
  unfoldable pub expire_idles : List Timer → Manager P → Outcome (Manager P)
  unfolding expire_idle
  expire_idles [] m = done (record m { first_idle = [] })
  expire_idles (t ∷ ts) m =
      if ltb env.now t.timeout
      then done (record m { first_idle = t ∷ ts })
      else (expire_idle m t.s >>= λ m1. expire_idles ts m1)

  -- `tick`, which returns 0
  unfoldable pub tick : Manager P → Outcome (Manager P)
  unfolding expire_reconnects expire_idles
  tick m =
      let rest =
        expire_reconnects m.reconnect_timeout (record m { last_tick_time = env.now }) >>= λ m1.
        expire_idles m1.first_idle m1 in
      if m.last_tick_time == env.now then done m else rest

  -- `close` of an id that is not active
  unfoldable pub close_cached : Manager P → ℕ → ℕ → Option ℕ → Outcome (Manager P × ℤ)
  unfolding close_session
  close_cached m id reason none = done (m, ect_session_not_found)
  close_cached m id reason (some a) = close_session m a reason >>= λ m1. done (
    record (put m1 a (set_flag (m1.sessions a) wait_reconnect false)) {
      reconnect_cache = erase id m1.reconnect_cache;
    },
    pos 0,
  )

  -- `close` of the active session at `a`
  unfoldable pub close_active : Manager P → ℕ → ℕ → Bool → ℕ → Outcome (Manager P × ℤ)
  unfolding close_session
  close_active m id reason allow_reconnect a =
      let timer : Timer = record { timeout = env.now + env.conf.reconnect_timeout; s = a } in
      let m1 = record (put m a (set_flag (m.sessions a) wait_reconnect true)) {
        reconnect_timeout = m.reconnect_timeout ++ timer ∷ [];
        reconnect_cache = insert (m.sessions a).id a m.reconnect_cache;
      } in
      let m2 = with_net m1 a (close_fd ops env (net_of m1 a) reason) in
      if ltb 0 env.conf.reconnect_timeout && allow_reconnect
      then done (record m2 { actived_sessions = erase id m2.actived_sessions }, pos 0)
      else (close_session m a reason >>= λ m3.
          done (record m3 { actived_sessions = erase id m3.actived_sessions }, pos 0))

  -- `close(sess_id, reason, allow_reconnect)`
  unfoldable pub close_id : Manager P → ℕ → ℕ → Bool → Outcome (Manager P × ℤ)
  unfolding close_cached close_active
  close_id m id reason allow_reconnect = elim (lookup id m.actived_sessions) [
    | some a ↦ close_active m id reason allow_reconnect a
    | none ↦
        if allow_reconnect
        then done (m, ect_session_not_found)
        else close_cached m id reason (lookup id m.reconnect_cache)
  ]

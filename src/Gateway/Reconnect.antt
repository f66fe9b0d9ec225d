-- ===== src/Gateway/Reconnect.antt =====
-- How a session comes into the table: `session_manager::reconnect` and `active_session`
-- (atgateway/session_manager.cpp). A session is an address of the manager's store.
pub mod Takeover
pub mod Activation
use atsf4g_co.Base.{
  ℕ, ℤ, pos, is_neg, Bool, true, false, not, ◌&&◌, Option, none, some, if◌then◌else◌,
}
use atsf4g_co.Base.Assoc.{lookup, insert, erase}
use atsf4g_co.Gateway.Calls.{init_reconnect, send_new_session}
use atsf4g_co.Gateway.Codes.{
  ect_session_not_found, ect_already_has_fd, ect_bad_protocol, ect_refuse_reconnect, crt_logout,
  crt_kickoff,
}
use atsf4g_co.Gateway.Flags.{has_fd, reconnected}
use atsf4g_co.Gateway.Manager.{Manager, put, net_of, with_net, close_session, close_id}
use atsf4g_co.Gateway.Proto.{ProtoOps}
use atsf4g_co.Gateway.State.{Env, check_flag, Outcome, done, ◌>>=◌}

module _ {P : Type 0} (ops : ProtoOps P) where
  -- `new_sess.get_protocol_handle()->check_reconnect(old)`, where both are there
  abbrev pub proto_check : Option P → Option P → Option Bool
  proto_check none q = none
  proto_check (some p) none = none
  proto_check (some p) (some q) = some (ops.check_reconnect p q)

module _ {P : Type 0} (ops : ProtoOps P) (env : Env) (fuel : ℕ) where
  -- The head of `reconnect`: an active session of that id, whose connection may be dead, is put into
  -- the reconnect cache if the protocols agree. The Boolean is `has_reconnect_checked`.
  displace : Manager P → ℕ → ℕ → Option ℕ → Outcome (Manager P × Bool)
  displace m new old_id none = done (m, false)
  displace m new old_id (some a) =
      elim (proto_check ops (m.sessions new).proto (m.sessions a).proto) [
        | none ↦ done (m, false)
        | some true ↦ (close_id ops env fuel m old_id crt_logout true >>= λ r. done (r.0, true))
        | some false ↦ done (m, true)
      ]

  pub find_old : Manager P → ℕ → ℕ → Option ℕ → Outcome (Manager P × Bool)
  unfolding displace
  find_old m new old_id (some a) = done (m, false)
  find_old m new old_id none = displace m new old_id (lookup old_id m.actived_sessions)

  -- The end of `reconnect`: the new session takes over from the old one at `a`
  pub take_over : Manager P → ℕ → ℕ → ℕ → Outcome (Manager P × ℤ)
  unfolding close_session
  take_over m new old_id a = init_reconnect env (m.sessions new) (m.sessions a) >>= λ r.
      close_session ops env fuel (put (put m new r.0) a r.1) a crt_logout >>= λ m1.
      done (record m1 { reconnect_cache = erase old_id m1.reconnect_cache }, pos 0)

  -- The tests of `reconnect` once the old session is looked up in the reconnect cache
  pub try_take_over : Manager P → ℕ → ℕ → Bool → Option ℕ → Outcome (Manager P × ℤ)
  unfolding take_over
  try_take_over m new old_id checked none = done (m, ect_session_not_found)
  try_take_over m new old_id checked (some a) =
      if check_flag (m.sessions a) has_fd
      then done (m, ect_already_has_fd)
      else if check_flag (m.sessions a) reconnected
      then done (m, ect_session_not_found)
      else elim (proto_check ops (m.sessions new).proto (m.sessions a).proto) [
        | none ↦ done (m, ect_bad_protocol)
        | some agreed ↦
            if not checked && not agreed
            then done (m, ect_refuse_reconnect)
            else take_over m new old_id a
      ]

  -- `reconnect(new_sess, old_sess_id)`
  unfoldable pub reconnect : Manager P → ℕ → ℕ → Outcome (Manager P × ℤ)
  unfolding find_old try_take_over
  reconnect m new old_id = find_old m new old_id (lookup old_id m.reconnect_cache) >>= λ r.
      try_take_over r.0 new old_id r.1 (lookup old_id r.0.reconnect_cache)

  -- `active_session` from `send_new_session` on
  announce : Manager P → ℕ → Outcome (Manager P × ℤ)
  announce m a = send_new_session ops env fuel (net_of m a) >>= λ r.
      let m1 = with_net m a r.0 in
      done (
        if is_neg r.1 then (m1, r.1) else (
          record m1 { actived_sessions = insert (m1.sessions a).id a m1.actived_sessions },
          pos 0,
        ))

  -- `active_session(sess)`
  pub active_session : Manager P → ℕ → Outcome (Manager P × ℤ)
  unfolding announce
  active_session m a = elim (lookup (m.sessions a).id m.actived_sessions) [
    | none ↦ announce m a
    | some b ↦ (close_id ops env fuel m (m.sessions a).id crt_kickoff false >>= λ r. announce r.0 a)
  ]

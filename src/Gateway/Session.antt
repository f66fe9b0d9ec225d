-- ===== src/Gateway/Session.antt =====
-- Sending and closing (atgateway/session.cpp). An operation takes the session with the messages sent
-- so far and returns them as they are afterwards; `ops` is its protocol object's class and `env` what
-- it reads of the outside. `close_with_manager` and `send_to_server` call each other without a bound
-- in the source, so `close_with_manager` takes fuel: how often it may be entered.

pub mod Termination
pub mod Keeps
use atsf4g_co.Base.{
  ℕ, zero, suc, ◌+◌, ℤ, pos, is_zero, Bool, true, false, not, ◌&&◌, ◌||◌, Option, none, some, List,
  ◌∷◌, ◌==◌, if◌then◌else◌,
}
use atsf4g_co.Gateway.Codes.{
  ect_invalid_router, ect_lost_manager, ect_bad_data, ect_handle_not_found, crt_trafic_extended,
}
use atsf4g_co.Gateway.Flags.{has_fd, registered, reconnected, wait_reconnect, closing, closing_fd}
use atsf4g_co.Gateway.Limits.{Closer, on_proto, no_proto_or, check_limits, count_recv}
use atsf4g_co.Gateway.Proto.{ProtoOps}
use atsf4g_co.Gateway.State.{
  SsMsg, remove_session, Sent, Env, Session, set_flag, check_flag, Outcome, done, no_fuel, ◌>>=◌,
  Net,
}

-- The manager's `post_data`: without a bus node nothing is sent.
unfoldable pub post_data : Env → List Sent → ℕ → SsMsg → List Sent × ℤ
post_data env sent router msg =
    let answer = env.send_data sent router msg in
    if env.app_node
    then (record { router = router; msg = msg; answer = answer } ∷ sent, answer)
    else (sent, ect_handle_not_found)

module _ {P : Type 0} (ops : ProtoOps P) (env : Env) where
  -- `send_to_server` from the packed message on; `none` is a message that was not packed
  pub deliver : Closer P → Net P → SsMsg → Option ℕ → Outcome (Net P × ℤ)
  unfolding post_data count_recv
  deliver close n msg none = done (n, ect_bad_data)
  deliver close n msg (some len) =
      let (sent', ret) = post_data env n.sent n.sess.router msg in
      do
        n' ←
            check_limits ops env close true false (record {
              sess = record n.sess { limit = count_recv n.sess.limit len };
              sent = sent';
            })
        done (n', ret)

  -- `send_to_server(msg, mgr)`; `mgr` is `NULL != mgr`
  unfoldable pub send_to_server : Closer P → Bool → Net P → SsMsg → Outcome (Net P × ℤ)
  unfolding deliver
  send_to_server close mgr n msg =
      if n.sess.router == 0
      then done (n, ect_invalid_router)
      else if not (mgr || n.sess.owner)
      then done (n, ect_lost_manager)
      else deliver close n msg (env.packed_size msg)

  pub unregister_if : Bool → Net P → Net P
  unregister_if b n = if b then record n { sess = set_flag n.sess registered false } else n

  -- `send_remove_session(mgr)`
  unfoldable pub send_remove_session : Closer P → Bool → Net P → Outcome (Net P × ℤ)
  unfolding unregister_if
  send_remove_session close mgr n =
      if not (check_flag n.sess registered) then done (n, pos 0) else do
        (n', ret) ←
            send_to_server close mgr n (remove_session n.sess.id n.sess.peer_ip n.sess.peer_port)
        done (unregister_if (is_zero ret) n', ret)

  -- `close_fd`, which returns 0
  unfoldable pub close_fd : Net P → ℕ → Net P
  close_fd n reason =
      let proto' = on_proto (λ p. ops.close p reason) n.sess.proto in
      let idle = no_proto_or ops.is_closed proto' in
      let s = set_flag (set_flag n.sess has_fd false) closing_fd true in
      if check_flag n.sess closing_fd
      then n
      else if check_flag n.sess has_fd
      then record n {
        sess = record s {
          proto = proto';
          owner = false;
          holders = n.sess.holders + 1;
          shutdowns = n.sess.shutdowns + (if idle then 1 else 0);
        };
      }
      else n

  -- The head of `close_with_manager`: is the server to be told?
  abbrev pub must_notify : Session P → Bool
  must_notify s =
      check_flag s registered
      && (not (check_flag s reconnected) && not (check_flag s wait_reconnect))

  -- The rest of `close_with_manager`
  unfoldable pub finish_close : Net P → ℕ → Net P
  unfolding close_fd
  finish_close n reason =
      if check_flag n.sess closing
      then n
      else close_fd (record n { sess = set_flag n.sess closing true }) reason

  -- `close_with_manager(reason, mgr)`; what it returns is always 0
  unfoldable pub close_with_manager : ℕ → Bool → Net P → ℕ → Outcome (Net P)
  close_with_manager zero mgr n reason = no_fuel
  close_with_manager (suc fuel) mgr n reason =
      let notified =
        send_remove_session (λ m. close_with_manager fuel m.sess.owner m crt_trafic_extended) mgr
          n in
      if must_notify n.sess
      then (notified >>= λ r. done (finish_close r.0 reason))
      else done (finish_close n reason)

  -- `close(reason)`
  unfoldable pub close : ℕ → Net P → ℕ → Outcome (Net P)
  close fuel n reason = close_with_manager fuel n.sess.owner n reason

  -- `close(EN_CRT_TRAFIC_EXTENDED)`
  unfoldable pub closer : ℕ → Closer P
  unfolding close
  closer fuel n = close fuel n crt_trafic_extended

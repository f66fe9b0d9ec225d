-- ===== src/Gateway/Reconnect/Activation.antt =====
-- A session enters the table (atgateway/session_manager.cpp, `active_session`).
use atsf4g_co.Base.{ℕ, pos, ◌≡◌, ◌≢◌, true, false, none, some, arith}
use atsf4g_co.Base.Assoc.{lookup, insert, lookup-insert}
use atsf4g_co.Gateway.Calls.{send_new_session, register_if}
use atsf4g_co.Gateway.Flags.{registered}
use atsf4g_co.Gateway.Limits.{count_recv}
use atsf4g_co.Gateway.Limits.Quiet.{Quiet, settle, settle-frame, check_limits-Quiet}
use atsf4g_co.Gateway.Manager.{Manager, with_net}
use atsf4g_co.Gateway.Proto.{ProtoOps}
use atsf4g_co.Gateway.Reconnect.{announce, active_session}
use atsf4g_co.Gateway.Session.{post_data, send_to_server, closer}
use atsf4g_co.Gateway.State.{Env, Session, SsMsg, add_session, check_flag, done, Net}

module _ {P : Type 0} (ops : ProtoOps P) (env : Env) where
  abbrev pub greeting : Session P → SsMsg
  greeting s = add_session s.id s.peer_ip s.peer_port

  -- A new session with a manager and a router, whose id no active session has, is told to its server
  -- and becomes the active session of its id, where counting the message passes no limit: with any
  -- fuel `active_session` returns 0 if the bus node took the message. The session is registered then,
  -- and the message is the last that was sent.
  active_session-registers :
      (fuel : ℕ) (m : Manager P) (a len : ℕ)
      → lookup (m.sessions a).id m.actived_sessions ≡ none
      → check_flag (m.sessions a) registered ≡ false
      → (m.sessions a).owner ≡ true
      → (m.sessions a).router ≢ 0
      → env.packed_size (greeting (m.sessions a)) ≡ some len
      → Quiet env.conf.limits (count_recv (m.sessions a).limit len)
      → (post_data env m.sent (m.sessions a).router (greeting (m.sessions a))).1 ≡ pos 0
      → (m' : Manager P) × (active_session ops env fuel m a ≡ done (m', pos 0))
        × (lookup (m.sessions a).id m'.actived_sessions ≡ some a)
        × (check_flag (m'.sessions a) registered ≡ true)
        × ((m'.sessions a).id ≡ (m.sessions a).id)
        × (m'.sent ≡ (post_data env m.sent (m.sessions a).router (greeting (m.sessions a))).0)
  unfolding active_session announce send_new_session send_to_server register_if
  active_session-registers fuel m a len n r o rt p q z =
      let s = m.sessions a in
      let c = post_data env m.sent s.router (greeting s) in
      let w : Net P = record { sess = record s { limit = count_recv s.limit len }; sent = c.0 } in
      let v = settle ops env w in
      let f = settle-frame ops env w in
      let m1 = with_net m a (register_if ops env true v) in
      (
        record m1 { actived_sessions = insert (m1.sessions a).id a m1.actived_sessions },
        ground (arith, n, r, o, rt, p, z, check_limits-Quiet ops env (closer ops env fuel) w q, f),
        ground (arith, f, lookup-insert (m1.sessions a).id s.id a m.actived_sessions),
        ground (arith, f),
        ground (arith, f),
        ground (arith, f),
      )

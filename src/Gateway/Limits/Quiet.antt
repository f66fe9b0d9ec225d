-- ===== src/Gateway/Limits/Quiet.antt =====
-- The checks of `send_to_server` where no limit is passed (atgateway/session.cpp).
use atsf4g_co.Base.{◌/◌, ◌≡◌, true, false, not, ◌||◌, ◌==◌, if◌then◌else◌, arith}
use atsf4g_co.Gateway.Flags.{closing}
use atsf4g_co.Gateway.Limits.{
  Closer, exceeds, check_hour_limit, check_minute_limit, check_total_limit, check_limits,
  update_key,
}
use atsf4g_co.Gateway.Proto.{ProtoOps}
use atsf4g_co.Gateway.State.{Limit, ClientLimit, Env, check_flag, done, Net}

-- None of the tests that the check after a message to the server makes is met.
pub record Quiet (c : ClientLimit) (l : Limit) : Type 0 where
  pub hour_recv : exceeds c.hour_recv_bytes l.hour_recv_bytes c.hour_recv_bytes ≡ false
  pub hour_send : exceeds c.hour_send_bytes l.hour_send_bytes c.hour_send_bytes ≡ false
  pub minute_recv : exceeds c.minute_recv_bytes l.minute_recv_bytes c.minute_recv_bytes ≡ false
  pub minute_times : exceeds c.minute_recv_times l.minute_recv_times c.minute_recv_times ≡ false
  pub total_recv : exceeds c.total_recv_bytes l.total_recv_bytes c.total_send_bytes ≡ false
  pub total_times : exceeds c.total_recv_times l.total_recv_times c.total_recv_times ≡ false

module _ {P : Type 0} (ops : ProtoOps P) (env : Env) where
  -- A new hour starts its counters again.
  unfoldable pub roll_hour : Net P → Net P
  roll_hour n =
      let now_hr = env.now / env.day_seconds in
      if now_hr == n.sess.limit.hour_timepoint then n else record n {
        sess = record n.sess {
          limit = record n.sess.limit {
            hour_timepoint = now_hr;
            hour_recv_bytes = 0;
            hour_send_bytes = 0;
            hour_recv_times = 0;
            hour_send_times = 0;
          };
        };
      }

  -- A new minute starts its counters again; within one the key may be renewed.
  unfoldable pub roll_minute : Net P → Net P
  roll_minute n =
      let now_mi = env.now / env.minute_seconds in
      if not (now_mi == n.sess.limit.minute_timepoint)
      then record n {
        sess = record n.sess {
          limit = record n.sess.limit {
            minute_timepoint = now_mi;
            minute_recv_bytes = 0;
            minute_send_bytes = 0;
            minute_recv_times = 0;
            minute_send_times = 0;
          };
        };
      }
      else if not n.sess.owner || check_flag n.sess closing
      then n
      else update_key ops env n

  pub settle : Net P → Net P
  settle n = roll_minute (roll_hour n)

  module _ (close : Closer P) where
    hour-Quiet :
        (n : Net P)
        → Quiet env.conf.limits n.sess.limit
        → check_hour_limit ops env close true false n ≡ done (roll_hour n)
    unfolding check_hour_limit roll_hour
    hour-Quiet n q = ground arith

    minute-Quiet :
        (n : Net P)
        → Quiet env.conf.limits n.sess.limit
        → check_minute_limit ops env close true false n ≡ done (roll_minute n)
    unfolding check_minute_limit roll_minute
    minute-Quiet n q = ground arith

    total-Quiet :
        (n : Net P)
        → Quiet env.conf.limits n.sess.limit
        → check_total_limit ops env close true false n ≡ done n
    unfolding check_total_limit
    total-Quiet n q = ground arith

  roll_hour-Quiet :
      (n : Net P)
      → Quiet env.conf.limits n.sess.limit
      → Quiet env.conf.limits (roll_hour n).sess.limit
  unfolding roll_hour
  roll_hour-Quiet n q = ground arith

  roll_minute-Quiet :
      (n : Net P)
      → Quiet env.conf.limits n.sess.limit
      → Quiet env.conf.limits (roll_minute n).sess.limit
  unfolding roll_minute update_key
  roll_minute-Quiet n q = ground arith

  -- Where no limit is passed the checks end without a call of `close`, whatever `close` is.
  pub check_limits-Quiet :
      (close : Closer P) (n : Net P)
      → Quiet env.conf.limits n.sess.limit
      → check_limits ops env close true false n ≡ done (settle n)
  unfolding check_limits settle
  check_limits-Quiet close n q = rw (
    hour-Quiet close n q,
    minute-Quiet close (roll_hour n) (roll_hour-Quiet n q),
    total-Quiet close (roll_minute (roll_hour n))
        (roll_minute-Quiet (roll_hour n) (roll_hour-Quiet n q)),
  )

  -- The checks leave all but the limits and the protocol object alone.
  pub settle-frame :
      (n : Net P)
      → ((settle n).sess.flags ≡ n.sess.flags)
        × ((settle n).sess.owner ≡ n.sess.owner)
        × ((settle n).sess.id ≡ n.sess.id)
        × ((settle n).sent ≡ n.sent)
  unfolding settle roll_hour roll_minute update_key
  settle-frame n = ground arith

-- ===== src/Gateway/Calls/Quota.antt =====
-- What the traffic limits do to a session that sends to its client (atgateway/session.cpp).
use mathlib.Core.Path.{subst}
use atsf4g_co.Base.{
  ℕ, suc, ◌+◌, ◌/◌, ◌%◌, ◌^◌, ◌<◌, ◌≡◌, Bool, true, false, not, ◌&&◌, ◌||◌, some, ltb, ◌==◌,
  if◌then◌else◌, arith, u64, Bool-cases, inl, inr,
}
use atsf4g_co.Gateway.Calls.{send_to_client}
use atsf4g_co.Gateway.Codes.{crt_trafic_extended}
use atsf4g_co.Gateway.Flags.{has_fd, closing, closing_fd}
use atsf4g_co.Gateway.Limits.{
  Closer, exceeds, check_hour_limit, check_minute_limit, check_total_limit, check_limits,
  count_send, update_key,
}
use atsf4g_co.Gateway.Limits.Quiet.{Quiet, roll_hour, roll_minute}
use atsf4g_co.Gateway.Proto.{ProtoOps}
use atsf4g_co.Gateway.Session.{close_fd, finish_close, closer}
use atsf4g_co.Gateway.Session.Termination.{closed, close-returns, notify-frame}
use atsf4g_co.Gateway.State.{Limit, ClientLimit, Env, Session, check_flag, done, null_deref, Net}

-- A session in service: its manager and its connection are there and nothing is closing.
pub record InService {P : Type 0} (s : Session P) : Type 0 where
  pub owned : s.owner ≡ true
  pub connected : check_flag s has_fd ≡ true
  pub open_yet : check_flag s closing ≡ false
  pub fd_open : check_flag s closing_fd ≡ false

module _ {P : Type 0} (ops : ProtoOps P) (env : Env) where
  -- `close` on a session in service takes its manager away.
  closed_orphan :
      (mgr : Bool) (n : Net P) (r : ℕ)
      → InService n.sess
      → ((closed ops env mgr n r).sess.owner ≡ false)
        × (check_flag (closed ops env mgr n r).sess closing ≡ true)
        × (check_flag (closed ops env mgr n r).sess has_fd ≡ false)
  unfolding closed finish_close close_fd
  closed_orphan mgr n r v = ground (arith, notify-frame ops env mgr n)

  -- Every limit is off but those on the bytes sent in all, and the bytes and messages sent a minute.
  pub record SendOnly (c : ClientLimit) : Type 0 where
    pub hour_recv_bytes : c.hour_recv_bytes ≡ 0
    pub hour_send_bytes : c.hour_send_bytes ≡ 0
    pub hour_recv_times : c.hour_recv_times ≡ 0
    pub hour_send_times : c.hour_send_times ≡ 0
    pub minute_recv_bytes : c.minute_recv_bytes ≡ 0
    pub minute_recv_times : c.minute_recv_times ≡ 0
    pub total_recv_bytes : c.total_recv_bytes ≡ 0
    pub total_recv_times : c.total_recv_times ≡ 0
    pub total_send_times : c.total_send_times ≡ 0

  Quiet-of_off : (l : Limit) → SendOnly env.conf.limits → Quiet env.conf.limits l
  Quiet-of_off l z = ground arith

  hour_off :
      (close : Closer P) (n : Net P)
      → SendOnly env.conf.limits
      → check_hour_limit ops env close false true n ≡ done (roll_hour ops env n)
  unfolding check_hour_limit roll_hour
  hour_off close n z = ground arith

  roll_hour-frame :
      (n : Net P)
      → let m = roll_hour ops env n in
        (m.sess.flags ≡ n.sess.flags)
        × (m.sess.owner ≡ n.sess.owner)
        × (m.sess.limit.minute_timepoint ≡ n.sess.limit.minute_timepoint)
        × (m.sess.limit.minute_send_bytes ≡ n.sess.limit.minute_send_bytes)
        × (m.sess.limit.minute_send_times ≡ n.sess.limit.minute_send_times)
        × (m.sess.limit.total_send_bytes ≡ n.sess.limit.total_send_bytes)
  unfolding roll_hour
  roll_hour-frame n = ground arith

  roll_minute-frame :
      (n : Net P)
      → let m = roll_minute ops env n in
        (m.sess.flags ≡ n.sess.flags)
        × (m.sess.owner ≡ n.sess.owner)
        × (m.sess.limit.total_send_bytes ≡ n.sess.limit.total_send_bytes)
  unfolding roll_minute update_key
  roll_minute-frame n = ground arith

  -- Has a session passed a limit of this minute?
  abbrev pub minute_passed : Limit → Bool
  minute_passed l =
      (env.now / env.minute_seconds == l.minute_timepoint)
      && (exceeds env.conf.limits.minute_send_bytes l.minute_send_bytes
            env.conf.limits.minute_send_bytes
          || exceeds env.conf.limits.minute_send_times l.minute_send_times
              env.conf.limits.minute_send_times)

  -- Does a message of this length pass a limit of this minute? The bytes and the messages that were
  -- sent, with this one, are held against the limits that are set, in counters of 64 bits.
  abbrev pub passes_minute : Limit → ℕ → Bool
  passes_minute l len =
      let bytes = env.conf.limits.minute_send_bytes in
      let times = env.conf.limits.minute_send_times in
      (env.now / env.minute_seconds == l.minute_timepoint)
      && ((ltb 0 bytes && ltb bytes ((l.minute_send_bytes + len) % 2 ^ 64))
          || (ltb 0 times && ltb times ((l.minute_send_times + 1) % 2 ^ 64)))

  passes_minute_lem : (l : Limit) (len : ℕ) → minute_passed (count_send l len) ≡ passes_minute l len
  unfolding count_send
  passes_minute_lem l len = ground arith

  minute_off :
      (close : Closer P) (n : Net P)
      → n.sess.owner ≡ true
      → check_flag n.sess closing ≡ false
      → check_minute_limit ops env close false true n
        ≡ (if minute_passed n.sess.limit then close n else done (roll_minute ops env n))
  unfolding check_minute_limit roll_minute
  minute_off close n o c = ground arith

  closer_lem :
      (fuel : ℕ) (n : Net P)
      → SendOnly env.conf.limits
      → closer ops env (suc fuel) n ≡ done (closed ops env n.sess.owner n crt_trafic_extended)
  unfolding closer
  closer_lem fuel n z =
      close-returns ops env fuel n.sess.owner n crt_trafic_extended (λ len e. Quiet-of_off _ z)

  total_off :
      (close : Closer P) (n : Net P)
      → SendOnly env.conf.limits
      → env.conf.limits.total_send_bytes ≡ 0
      → check_total_limit ops env close false true n ≡ done n
  unfolding check_total_limit
  total_off close n z zt = ground arith

  total_crash :
      (fuel : ℕ) (n : Net P)
      → SendOnly env.conf.limits
      → InService n.sess
      → exceeds env.conf.limits.total_send_bytes n.sess.limit.total_send_bytes
          env.conf.limits.total_send_bytes
        ≡ true
      → check_total_limit ops env (closer ops env (suc fuel)) false true n ≡ null_deref
  unfolding check_total_limit
  total_crash fuel n z v e =
      ground (arith, closer_lem fuel n z, closed_orphan n.sess.owner n crt_trafic_extended v)

  -- The session once `proto_->write` has run and the bytes are counted.
  abbrev pub written : Net P → ℕ → P → Net P
  written n len p = record n {
    sess = record n.sess { limit = count_send n.sess.limit len; proto = some (ops.write p len).0 };
  }

  -- Where the only limit is the one on the bytes sent in all, a message that passes it makes
  -- `send_to_client` follow a null pointer: `close` clears `owner_`, and the next test of
  -- `check_total_limit` reads the configuration through it.
  send_to_client-null :
      (fuel : ℕ) (n : Net P) (len : ℕ) (p : P)
      → SendOnly env.conf.limits
      → env.conf.limits.minute_send_bytes ≡ 0
      → env.conf.limits.minute_send_times ≡ 0
      → InService n.sess
      → n.sess.proto ≡ some p
      → 0 < env.conf.limits.total_send_bytes
      → env.conf.limits.total_send_bytes < u64 (n.sess.limit.total_send_bytes + len)
      → send_to_client ops env (suc fuel) n len ≡ null_deref
  unfolding send_to_client check_limits
  send_to_client-null fuel n len p z zb zt v e pos_limit over =
      let w = written n len p in
      let h = roll_hour ops env w in
      let m = roll_minute ops env h in
      ground (
        arith,
        hour_off (closer ops env (suc fuel)) w z,
        roll_hour-frame w,
        minute_off (closer ops env (suc fuel)) h,
        roll_minute-frame h,
        total_crash fuel m z,
      )

  -- The same, in the words of the code
  counted_limit_enforced :
      (fuel : ℕ) (n : Net P) (len : ℕ) (p : P)
      → SendOnly env.conf.limits
      → env.conf.limits.total_send_bytes ≡ 0
      → InService n.sess
      → n.sess.proto ≡ some p
      → (m : Net P) × (send_to_client ops env (suc fuel) n len ≡ done (m, (ops.write p len).1))
        × (check_flag m.sess closing ≡ minute_passed (count_send n.sess.limit len))
        × (check_flag m.sess has_fd ≡ not (minute_passed (count_send n.sess.limit len)))
  unfolding send_to_client check_limits
  counted_limit_enforced fuel n len p z zt v e =
      let w = written n len p in
      let h = roll_hour ops env w in
      let c = closed ops env h.sess.owner h crt_trafic_extended in
      let close = closer ops env (suc fuel) in
      elim (Bool-cases (minute_passed (count_send n.sess.limit len))) [
        | inl over ↦ (
          c,
          ground (
            arith,
            hour_off close w z,
            roll_hour-frame w,
            minute_off close h,
            closer_lem fuel h z,
            closed_orphan h.sess.owner h crt_trafic_extended,
            total_off close c z zt,
          ),
          ground (arith, roll_hour-frame w, closed_orphan h.sess.owner h crt_trafic_extended),
          ground (arith, roll_hour-frame w, closed_orphan h.sess.owner h crt_trafic_extended),
        )
        | inr under ↦ (
          roll_minute ops env h,
          ground (
            arith,
            hour_off close w z,
            roll_hour-frame w,
            minute_off close h,
            total_off close (roll_minute ops env h) z zt,
          ),
          ground (arith, roll_hour-frame w, roll_minute-frame h),
          ground (arith, roll_hour-frame w, roll_minute-frame h),
        )
      ]

  -- Where the only limits are those on what is sent in a minute, `send_to_client` to a session in
  -- service returns, with any fuel but none and with what the protocol's `write` returned. If the
  -- bytes or the messages sent in the minute that is being counted, this message among them, are above
  -- a limit that is set, the session is closing and has no connection afterwards; if not, it stays
  -- in service.
  pub minute_limit_enforced :
      (fuel : ℕ) (n : Net P) (len : ℕ) (p : P)
      → SendOnly env.conf.limits
      → env.conf.limits.total_send_bytes ≡ 0
      → InService n.sess
      → n.sess.proto ≡ some p
      → (m : Net P) × (send_to_client ops env (suc fuel) n len ≡ done (m, (ops.write p len).1))
        × (check_flag m.sess closing ≡ passes_minute n.sess.limit len)
        × (check_flag m.sess has_fd ≡ not (passes_minute n.sess.limit len))
  minute_limit_enforced fuel n len p z zt v e =
      subst
        (λ b.
          (m : Net P) × (send_to_client ops env (suc fuel) n len ≡ done (m, (ops.write p len).1))
          × (check_flag m.sess closing ≡ b)
          × (check_flag m.sess has_fd ≡ not b))
        (passes_minute_lem n.sess.limit len) (counted_limit_enforced fuel n len p z zt v e)

  -- After a message to the server the bytes received in all are held against the limit on the bytes
  -- sent: where the limit on the bytes received is set, and no limit on messages, a session in service
  -- is closed exactly if what it received is above the send limit, whatever the limit on what it may
  -- receive is. `m` is what `close` makes of the session, which keeps its manager.
  check_total_limit-misread :
      (close : Closer P) (n m : Net P)
      → InService n.sess
      → 0 < env.conf.limits.total_recv_bytes
      → env.conf.limits.total_recv_times ≡ 0
      → close n ≡ done m
      → m.sess.owner ≡ true
      → check_total_limit ops env close true false n
        ≡ done (if ltb env.conf.limits.total_send_bytes n.sess.limit.total_recv_bytes then m else n)
  unfolding check_total_limit
  check_total_limit-misread close n m v h z e o = ground arith

-- ===== src/Gateway/Limits.antt =====
-- The traffic limits of a session (atgateway/session.cpp, `check_hour_limit`, `check_minute_limit`
-- and `check_total_limit`, and the counting in `send_to_client` and `send_to_server`). A check that
-- closes the session does so through its argument `close`.
pub mod Quiet
use atsf4g_co.Base.{
  ℕ, ◌+◌, ◌/◌, Bool, true, not, ◌&&◌, ◌||◌, Option, none, some, ltb, ◌==◌, if◌then◌else◌, u64,
}
use atsf4g_co.Gateway.Flags.{has_fd, closing}
use atsf4g_co.Gateway.Proto.{ProtoOps}
use atsf4g_co.Gateway.State.{Limit, Env, Session, check_flag, Outcome, done, null_deref, ◌>>=◌, Net}

-- A call of `close(EN_CRT_TRAFIC_EXTENDED)` by one of the limit checks.
abbrev pub Closer : Type 0 → Type 0
Closer P = Net P → Outcome (Net P)

-- A call through `proto_`, where it is not null.
abbrev pub on_proto : {P : Type 0} → (P → P) → Option P → Option P
on_proto f none = none
on_proto f (some p) = some (f p)

-- `!proto_ || f(proto_)`
abbrev pub no_proto_or : {P : Type 0} → (P → Bool) → Option P → Bool
no_proto_or f none = true
no_proto_or f (some p) = f p

-- `if (check && limits.x > 0 && limit_.y > limits.z) close(EN_CRT_TRAFIC_EXTENDED);`, where the test
-- follows `owner_`
unfoldable pub close_if : {P : Type 0} → Closer P → Bool → (Limit → Bool) → Net P → Outcome (Net P)
close_if close check over n =
    if not check
    then done n
    else if not n.sess.owner
    then null_deref
    else if over n.sess.limit
    then close n
    else done n

-- Four such lines, the first two of them about what is received.
unfoldable pub close_ifs :
    {P : Type 0}
    → Closer P
    → Bool
    → Bool
    → (Limit → Bool)
    → (Limit → Bool)
    → (Limit → Bool)
    → (Limit → Bool)
    → Net P
    → Outcome (Net P)
unfolding close_if
close_ifs close recv send over1 over2 over3 over4 n = do
  n1 ← close_if close recv over1 n
  n2 ← close_if close recv over2 n1
  n3 ← close_if close send over3 n2
  close_if close send over4 n3

-- `limit > 0 && used > bound`
abbrev pub exceeds : ℕ → ℕ → ℕ → Bool
exceeds limit used bound = ltb 0 limit && ltb bound used

-- `limit_.hour_recv_bytes += len;` and so on
unfoldable pub count_recv : Limit → ℕ → Limit
count_recv l len = record l {
  hour_recv_bytes = u64 (l.hour_recv_bytes + len);
  minute_recv_bytes = u64 (l.minute_recv_bytes + len);
  total_recv_bytes = u64 (l.total_recv_bytes + len);
  minute_recv_times = u64 (l.minute_recv_times + 1);
  hour_recv_times = u64 (l.hour_recv_times + 1);
  total_recv_times = u64 (l.total_recv_times + 1);
}

unfoldable pub count_send : Limit → ℕ → Limit
count_send l len = record l {
  hour_send_bytes = u64 (l.hour_send_bytes + len);
  minute_send_bytes = u64 (l.minute_send_bytes + len);
  total_send_bytes = u64 (l.total_send_bytes + len);
  total_send_times = u64 (l.total_send_times + 1);
  hour_send_times = u64 (l.hour_send_times + 1);
  minute_send_times = u64 (l.minute_send_times + 1);
}

module _ {P : Type 0} (ops : ProtoOps P) (env : Env) where
  -- `check_hour_limit`
  unfoldable pub check_hour_limit : Closer P → Bool → Bool → Net P → Outcome (Net P)
  unfolding close_ifs
  check_hour_limit close recv send n =
      let now_hr = env.now / env.day_seconds in
      let l = n.sess.limit in
      let c = env.conf.limits in
      let reset = record l {
        hour_timepoint = now_hr;
        hour_recv_bytes = 0;
        hour_send_bytes = 0;
        hour_recv_times = 0;
        hour_send_times = 0;
      } in
      if not (now_hr == l.hour_timepoint)
      then done (record n { sess = record n.sess { limit = reset } })
      else if not n.sess.owner || check_flag n.sess closing
      then done n
      else close_ifs close recv send
          (λ k. exceeds c.hour_recv_bytes k.hour_recv_bytes c.hour_recv_bytes)
          (λ k. exceeds c.hour_send_bytes k.hour_send_bytes c.hour_send_bytes)
          (λ k. exceeds c.hour_recv_times k.hour_recv_times c.hour_recv_times)
          (λ k. exceeds c.hour_send_times k.hour_send_times c.hour_send_times) n

  abbrev pub is_due : Session P → Bool
  is_due s =
      (s.owner && (ltb 0 env.conf.update_interval && check_flag s has_fd))
      && ltb s.limit.update_handshake_timepoint env.now

  -- The end of `check_minute_limit`: ask the protocol for a new key when the time has come.
  unfoldable pub update_key : Net P → Net P
  update_key n =
      let later = record n.sess.limit {
        update_handshake_timepoint = env.now + env.conf.update_interval;
      } in
      let proto' = on_proto ops.handshake_update n.sess.proto in
      if is_due n.sess
      then record n { sess = record n.sess { limit = later; proto = proto' } }
      else n

  -- `check_minute_limit`
  unfoldable pub check_minute_limit : Closer P → Bool → Bool → Net P → Outcome (Net P)
  unfolding update_key
  check_minute_limit close recv send n =
      let now_mi = env.now / env.minute_seconds in
      let l = n.sess.limit in
      let c = env.conf.limits in
      let reset = record l {
        minute_timepoint = now_mi;
        minute_recv_bytes = 0;
        minute_send_bytes = 0;
        minute_recv_times = 0;
        minute_send_times = 0;
      } in
      if not (now_mi == l.minute_timepoint)
      then done (record n { sess = record n.sess { limit = reset } })
      else if not n.sess.owner || check_flag n.sess closing
      then done n
      else if recv && exceeds c.minute_recv_bytes l.minute_recv_bytes c.minute_recv_bytes
      then close n
      else if recv && exceeds c.minute_recv_times l.minute_recv_times c.minute_recv_times
      then close n
      else if send && exceeds c.minute_send_bytes l.minute_send_bytes c.minute_send_bytes
      then close n
      else if send && exceeds c.minute_send_times l.minute_send_times c.minute_send_times
      then close n
      else done (update_key n)

  -- `check_total_limit`
  unfoldable pub check_total_limit : Closer P → Bool → Bool → Net P → Outcome (Net P)
  unfolding close_ifs
  check_total_limit close recv send n =
      let c = env.conf.limits in
      if not n.sess.owner || check_flag n.sess closing
      then done n
      else close_ifs close recv send
          (λ k. exceeds c.total_recv_bytes k.total_recv_bytes c.total_send_bytes)
          (λ k. exceeds c.total_recv_times k.total_recv_times c.total_recv_times)
          (λ k. exceeds c.total_send_bytes k.total_send_bytes c.total_send_bytes)
          (λ k. exceeds c.total_send_times k.total_send_times c.total_send_times) n

  -- The three checks that end `send_to_client` and `send_to_server`.
  unfoldable pub check_limits : Closer P → Bool → Bool → Net P → Outcome (Net P)
  check_limits close recv send n = do
    n1 ← check_hour_limit close recv send n
    n2 ← check_minute_limit close recv send n1
    check_total_limit close recv send n2

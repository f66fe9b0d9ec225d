-- ===== src/Gateway/Examples.antt =====
-- A concrete protocol, configuration and session, for the examples.
mod Sessions
mod Tables
mod Protocol
use atsf4g_co.Base.{
  ℕ, suc, ◌+◌, ◌<◌, ℤ, pos, negsuc, ◌≡◌, ◌≢◌, refl, Bool, true, false, ltb, not, Option, none, some,
  List, [], ◌∷◌, ◌==◌, if◌then◌else◌, arith, inl, inr,
}
use atsf4g_co.Base.Assoc.{lookup}
use atsf4g_co.Gateway.Calls.{send_to_client, accept, init_new_session, send_new_session}
use atsf4g_co.Gateway.Calls.Lifecycle.{
  Inv, inits, Call, inits, registers, sends, closes, step, run, session-Inv,
}
use atsf4g_co.Gateway.Calls.Quota.{InService, SendOnly, minute_passed, minute_limit_enforced}
use atsf4g_co.Gateway.Codes.{ect_closing, ect_already_has_fd, ect_session_not_found}
use atsf4g_co.Gateway.Flags.{Flags, no_flags, closing, has_fd}
use atsf4g_co.Gateway.Limits.{
  count_send, check_limits, check_hour_limit, check_minute_limit, check_total_limit,
}
use atsf4g_co.Gateway.Manager.{
  Manager, Timer, tick, expire_reconnect, expire_reconnects, expire_idles, close_id,
}
use atsf4g_co.Gateway.Manager.Expiry.{drop_expired, tick-forgets_newer}
use atsf4g_co.Gateway.Proto.{ProtoOps}
use atsf4g_co.Gateway.Reconnect.{reconnect}
use atsf4g_co.Gateway.Reconnect.Takeover.{TakenOver, reconnect-takes_over}
use atsf4g_co.Gateway.Session.{
  close_with_manager, send_to_server, send_remove_session, finish_close,
}
use atsf4g_co.Gateway.Session.Keeps.{Holds}
use atsf4g_co.Gateway.Session.Termination.{IsQuiet, closed, close-returns, Doomed, close-diverges}
use atsf4g_co.Gateway.State.{
  add_session, remove_session, Limit, ClientLimit, Conf, SsMsg, Env, Session, no_limit, create,
  Outcome, done, null_deref, no_fuel, Net, check_flag,
}

-- A protocol object that is its flag EN_PFT_CLOSED.
abbrev pub demo_ops : ProtoOps Bool
demo_ops = record {
  write = λ p len. (p, pos 0);
  write_done = λ p s. (p, pos 0);
  close = λ p r. true;
  is_closed = λ p. p;
  handshake_update = λ p. p;
  check_reconnect = λ p q. true;
  read = λ p buff. (p, pos 0);
  alloc_recv_buffer = λ p. (p, false);
  set_recv_buffer_limit = λ p a b. p;
  set_send_buffer_limit = λ p a b. p;
  close_keeps = λ p r h. refl;
  write_done_keeps = λ p s h. h;
}

abbrev pub free : ClientLimit
free = record {
  total_recv_bytes = 0;
  total_send_bytes = 0;
  hour_recv_bytes = 0;
  hour_send_bytes = 0;
  minute_recv_bytes = 0;
  minute_send_bytes = 0;
  total_recv_times = 0;
  total_send_times = 0;
  hour_recv_times = 0;
  hour_send_times = 0;
  minute_recv_times = 0;
  minute_send_times = 0;
  max_client_number = 0;
}

abbrev pub env_with : ClientLimit → Env
env_with limits = record {
  now = 1000;
  day_seconds = 86400;
  minute_seconds = 60;
  conf = record {
    limits = limits;
    reconnect_timeout = 180;
    first_idle_timeout = 10;
    send_buffer_size = 4096;
    default_router = 7;
    update_interval = 0;
  };
  app_node = true;
  packed_size = λ m. some 20;
  send_data = λ sent router m. pos 0;
}

abbrev pub demo_env : Env
demo_env = env_with free

-- A session of that id, with those flags and counters, connected to a client of the server 7.
abbrev pub session_with : ℕ → Flags → Limit → Session Bool
session_with id flags limit = record {
  id = id;
  router = 7;
  owner = true;
  limit = limit;
  flags = flags;
  peer_ip = 127 ∷ 0 ∷ 0 ∷ 1 ∷ [];
  peer_port = 5000;
  proto = some false;
  private_data = 3;
  shutdowns = 0;
  holders = 0;
}

abbrev pub serving : Flags
serving = record no_flags { inited = true; has_fd = true; registered = true }

abbrev pub net_with : Limit → Net Bool
net_with limit = record { sess = session_with 42 serving limit; sent = [] }

abbrev pub fresh : Session Bool
fresh = record {
  id = 0;
  router = 0;
  owner = true;
  limit = no_limit;
  flags = no_flags;
  peer_ip = [];
  peer_port = 0;
  proto = some false;
  private_data = 0;
  shutdowns = 0;
  holders = 0;
}

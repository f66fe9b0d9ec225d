-- ===== src/Gateway/Examples/Sessions.antt =====
-- The theorems on a session (atgateway/session.cpp), applied to concrete sessions.
use atsf4g_co.Base.{ℕ, pos, ◌≡◌, refl, Bool, true, false, not, some, List, [], ◌∷◌, arith}
use atsf4g_co.Gateway.Calls.{send_to_client, accept, init_new_session, send_new_session}
use atsf4g_co.Gateway.Calls.Lifecycle.{
  Inv, inits, Call, inits, registers, sends, closes, step, run, session-Inv,
}
use atsf4g_co.Gateway.Calls.Quota.{InService, SendOnly, passes_minute, minute_limit_enforced}
use atsf4g_co.Gateway.Flags.{no_flags, closing, has_fd}
use atsf4g_co.Gateway.Limits.{check_limits, check_hour_limit, check_minute_limit, check_total_limit}
use atsf4g_co.Gateway.Session.{
  close_with_manager, send_to_server, send_remove_session, finish_close,
}
use atsf4g_co.Gateway.Session.Termination.{IsQuiet, closed, close-returns, Doomed, close-diverges}
use atsf4g_co.Gateway.State.{
  add_session, remove_session, Limit, Env, no_limit, create, done, no_fuel, Net, check_flag,
}
use atsf4g_co.Gateway.Examples.{
  demo_ops, free, env_with, demo_env, session_with, serving, net_with, fresh,
}

quiet : (n : Net Bool) → IsQuiet demo_ops demo_env n
quiet n len e = record {
  hour_recv = refl;
  hour_send = refl;
  minute_recv = refl;
  minute_times = refl;
  total_recv = refl;
  total_times = refl;
}

close-returns_example :
    close_with_manager demo_ops demo_env 1 true (net_with no_limit) 5
    ≡ done (closed demo_ops demo_env true (net_with no_limit) 5)
close-returns_example =
    close-returns demo_ops demo_env 0 true (net_with no_limit) 5 (quiet (net_with no_limit))

abbrev hour_env : Env
hour_env = env_with (record free { hour_send_bytes = 50 })

abbrev over_hour : Net Bool
over_hour = net_with (record no_limit { hour_send_bytes = 60 })

over_hour-Doomed : Doomed demo_ops hour_env over_hour
over_hour-Doomed = record {
  owned = refl;
  notifies = refl;
  open_yet = refl;
  routed = ground arith;
  this_hour = refl;
  passed = refl;
  packs = (20, refl);
}

close-diverges_example : close_with_manager demo_ops hour_env 9 true over_hour 5 ≡ no_fuel
close-diverges_example = close-diverges demo_ops hour_env 9 true over_hour 5 over_hour-Doomed

serving-InService : (limit : Limit) → InService (session_with 42 serving limit)
serving-InService limit = record { owned = refl; connected = refl; open_yet = refl; fd_open = refl }

abbrev minute_env : Env
minute_env = env_with (record free { minute_send_bytes = 50 })

minute_SendOnly : SendOnly demo_ops minute_env minute_env.conf.limits
minute_SendOnly = record {
  hour_recv_bytes = refl;
  hour_send_bytes = refl;
  hour_recv_times = refl;
  hour_send_times = refl;
  minute_recv_bytes = refl;
  minute_recv_times = refl;
  total_recv_bytes = refl;
  total_recv_times = refl;
  total_send_times = refl;
}

abbrev total_env : Env
total_env = env_with (record free { total_send_bytes = 50 })

total_SendOnly : SendOnly demo_ops total_env total_env.conf.limits
total_SendOnly = record {
  hour_recv_bytes = refl;
  hour_send_bytes = refl;
  hour_recv_times = refl;
  hour_send_times = refl;
  minute_recv_bytes = refl;
  minute_recv_times = refl;
  total_recv_bytes = refl;
  total_recv_times = refl;
  total_send_times = refl;
}

minute_limit_enforced_example :
    (m : Net Bool) × (send_to_client demo_ops minute_env 1 (net_with no_limit) 60 ≡ done (m, pos 0))
    × (check_flag m.sess closing ≡ passes_minute demo_ops minute_env no_limit 60)
    × (check_flag m.sess has_fd ≡ not (passes_minute demo_ops minute_env no_limit 60))
minute_limit_enforced_example =
    minute_limit_enforced demo_ops minute_env 0 (net_with no_limit) 60 false minute_SendOnly refl
      (serving-InService no_limit) refl

abbrev home : List ℕ
home = 127 ∷ 0 ∷ 0 ∷ 1 ∷ []

abbrev a_life : List (Env × Call)
a_life =
    (demo_env, inits 42 7)
    ∷ (demo_env, registers)
    ∷ (demo_env, sends 60)
    ∷ (demo_env, closes true 5)
    ∷ []

abbrev at_end : Net Bool
at_end = record {
  sess = record fresh {
    id = 42;
    router = 7;
    owner = false;
    limit = record {
      total_recv_bytes = 40;
      total_send_bytes = 60;
      hour_recv_bytes = 40;
      hour_send_bytes = 60;
      minute_recv_bytes = 20;
      minute_send_bytes = 60;
      total_recv_times = 2;
      total_send_times = 1;
      hour_recv_times = 2;
      hour_send_times = 1;
      minute_recv_times = 1;
      minute_send_times = 1;
      hour_timepoint = 0;
      minute_timepoint = 16;
      update_handshake_timepoint = 1000;
    };
    flags = record no_flags { inited = true; closing = true; closing_fd = true };
    peer_ip = home;
    peer_port = 5000;
    proto = some true;
    shutdowns = 1;
    holders = 1;
  };
  sent =
      record { router = 7; msg = remove_session 42 home 5000; answer = pos 0 }
      ∷ record { router = 7; msg = add_session 42 home 5000; answer = pos 0 }
      ∷ [];
}

lived :
    run demo_ops 1 (record { sess = (accept fresh (pos 0) (pos 0) home 5000).0; sent = [] }) a_life
    ≡ done at_end
unfolding accept run step init_new_session send_new_session send_to_server check_limits
    check_hour_limit check_minute_limit check_total_limit send_to_client close_with_manager
    send_remove_session finish_close
lived = refl

session-Inv_example : Inv at_end.sess
session-Inv_example =
    session-Inv demo_ops 1 false fresh (pos 0) (pos 0) home 5000 [] a_life at_end
      (unfold create in refl) lived

at_end-Inv : Inv at_end.sess
at_end-Inv = record {
  closing_no_fd = λ h. refl;
  detached = λ h. refl;
  orphan_no_fd = λ h. refl;
  held = refl;
}

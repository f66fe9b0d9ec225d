-- ===== src/Gateway/Examples/Tables.antt =====
-- The theorems on the table of sessions (atgateway/session_manager.cpp), applied to concrete tables.
use atsf4g_co.Base.{
  pos, ◌≡◌, refl, Bool, true, false, not, none, some, [], ◌∷◌, ◌==◌, if◌then◌else◌, arith, ltb,
  ◌&&◌, ◌+◌,
}
use atsf4g_co.Base.Assoc.{lookup, size}
use atsf4g_co.Gateway.Accept.{Incoming, on_evt_accept_tcp}
use atsf4g_co.Gateway.Accept.Capacity.{accept-keeps_limit}
use atsf4g_co.Gateway.Codes.{ect_session_not_found}
use atsf4g_co.Gateway.Flags.{Flags, no_flags, has_fd, closing}
use atsf4g_co.Gateway.Limits.{check_limits, check_hour_limit, check_minute_limit, check_total_limit}
use atsf4g_co.Gateway.Manager.{Manager, tick, expire_reconnect, expire_reconnects, expire_idles}
use atsf4g_co.Gateway.Manager.Expiry.{tick-forgets_newer}
use atsf4g_co.Gateway.Reconnect.{reconnect}
use atsf4g_co.Gateway.Reconnect.Takeover.{TakenOver, reconnect-takes_over}
use atsf4g_co.Gateway.Session.{close_with_manager, send_to_server, send_remove_session}
use atsf4g_co.Gateway.State.{Env, check_flag, no_limit, Outcome, done, null_deref, no_fuel}
use atsf4g_co.Gateway.Examples.{demo_ops, demo_env, env_with, free, session_with, fresh}

abbrev result_of : {A : Type 0} → A → Outcome A → A
result_of a (done b) = b
result_of a null_deref = a
result_of a no_fuel = a

-- The session at 1 waits in the cache for its client; the one at 2 is new.
abbrev waiting : Flags
waiting = record no_flags { inited = true; registered = true; wait_reconnect = true }

abbrev table : Manager Bool
table = record {
  sessions = λ b. if b == 1 then session_with 42 waiting no_limit else fresh;
  actived_sessions = [];
  first_idle = [];
  reconnect_cache = (42, 1) ∷ [];
  reconnect_timeout = record { timeout = 990; s = 1 } ∷ record { timeout = 1010; s = 1 } ∷ [];
  last_tick_time = 0;
  sent = [];
}

reconnect-takes_over_example :
    (m' : Manager Bool) × (reconnect demo_ops demo_env 1 table 2 42 ≡ done (m', pos 0))
    × TakenOver demo_ops demo_env table m' 2 42 1
unfolding lookup
reconnect-takes_over_example =
    reconnect-takes_over demo_ops demo_env 0 table 2 42 1 refl (ground arith) refl refl refl refl

refused : reconnect demo_ops demo_env 1 table 2 43 ≡ done (table, ect_session_not_found)
unfolding reconnect lookup
refused = refl

-- The table after a tick, which the first of the two timers expires in.
ticked : Manager Bool
ticked = result_of table (tick demo_ops demo_env 1 table)

ticks : tick demo_ops demo_env 1 table ≡ done ticked
unfolding ticked tick expire_reconnects expire_reconnect expire_idles close_with_manager
    send_remove_session send_to_server check_limits check_hour_limit check_minute_limit
    check_total_limit
ticks = refl

-- The session at 2 has taken over from the one at 1, whose timer is still there, and waits itself.
abbrev two_waiting : Manager Bool
two_waiting = record table {
  sessions = λ b.
      if b == 1
      then session_with 42 (record no_flags { reconnected = true; closing = true }) no_limit
      else session_with 42 waiting no_limit;
  reconnect_cache = (42, 2) ∷ [];
  reconnect_timeout = record { timeout = 990; s = 1 } ∷ record { timeout = 1100; s = 2 } ∷ [];
}

forgotten : Manager Bool
forgotten = result_of two_waiting (tick demo_ops demo_env 1 two_waiting)

forgets : tick demo_ops demo_env 1 two_waiting ≡ done forgotten
unfolding forgotten tick expire_reconnects expire_reconnect expire_idles close_with_manager
forgets = refl

tick-forgets_newer_example : lookup 42 forgotten.reconnect_cache ≡ none
unfolding lookup
tick-forgets_newer_example =
    tick-forgets_newer demo_ops demo_env 1 two_waiting forgotten (record { timeout = 990; s = 1 })
      (record { timeout = 1100; s = 2 } ∷ []) 2 (ground arith) refl (ground arith) refl
      (ground arith) forgets

abbrev incoming : Incoming
incoming = record {
  status = pos 0;
  init_res = pos 0;
  accept_res = pos 0;
  ip = 127 ∷ 0 ∷ 0 ∷ 1 ∷ [];
  port = 6000;
}

-- One session waits already, and there may be one.
abbrev one_env : Env
one_env = env_with (record free { max_client_number = 1 })

accept-keeps_limit_example :
    let limit = one_env.conf.limits.max_client_number in
    let full =
      ltb 0 limit && not (ltb (size table.actived_sessions + size table.reconnect_cache) limit) in
    (m' : Manager Bool) × (on_evt_accept_tcp demo_ops one_env 1 4096 table 5 (some false) incoming
      ≡ done m')
    × (check_flag (m'.sessions 5) closing ≡ full)
    × (check_flag (m'.sessions 5) has_fd ≡ not full)
    × (m'.first_idle ≡ (if full then [] else record { timeout = 1010; s = 5 } ∷ []))
    × (m'.actived_sessions ≡ table.actived_sessions)
    × (m'.reconnect_cache ≡ table.reconnect_cache)
    × (m'.sent ≡ table.sent)
accept-keeps_limit_example =
    accept-keeps_limit demo_ops one_env 4096 0 table 5 false incoming refl refl refl

abbrev arriving : Manager Bool
arriving = record table {
  sessions = λ b. session_with 43 (record no_flags { inited = true; has_fd = true }) no_limit;
}

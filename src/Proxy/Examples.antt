-- ===== src/Proxy/Examples.antt =====
-- A proxy with the id 1 that gets to know the proxy 2 (atproxy/atproxy_manager.cpp).
use atsf4g_co.Base.Lists.{length}
use atsf4g_co.Base.{ℕ, suc, ◌≡◌, pos, Bool, true, false, some, List, [], ◌∷◌, ◌==◌}
use atsf4g_co.Proxy.{EtcdNode, Manager, Bus, App, put, tick}
use atsf4g_co.Proxy.Events.{Event, ticks, notified, disconnected}
use atsf4g_co.Proxy.Schedule.{at_rest, tick-returns}

abbrev demo_bus : Bus
demo_bus = record {
  has_endpoint = λ done id. false;
  connect = λ done addr. pos 0;
  retry_interval = pos 5;
  protocol_version = 3;
  protocol_min_version = 2;
}

abbrev app_at : ℕ → App
app_at now = record {
  now = now;
  self_id = 1;
  bus_node = some demo_bus;
  stoping = false;
  is_remote_address_available = λ host addr. true;
  default_version = 3;
  default_min_version = 2;
}

abbrev other : EtcdNode
other = record {
  id = 2;
  hostname = 104 ∷ [];
  listens = (97 ∷ []) ∷ (98 ∷ []) ∷ [];
  action = put;
  protocol_version = 3;
  protocol_min_version = 3;
}

abbrev some_events : List (App × Event)
some_events =
    (app_at 10, notified other)
    ∷ (app_at 11, ticks)
    ∷ (app_at 12, disconnected 2)
    ∷ (app_at 20, ticks)
    ∷ []

abbrev with_check : Manager
with_check = record {
  check_list =
      record { timeout_sec = 10; proxy_id = 2 } ∷ record { timeout_sec = 3; proxy_id = 9 } ∷ [];
  proxy_set = (2, record { etcd_node = other; next_action_time = 10; is_available = true }) ∷ [];
  connects = [];
}

tick-returns_example :
    (m' : Manager) × (n : ℕ) × (tick (app_at 11) (suc (length with_check.check_list)) with_check
      ≡ some (m', n))
    × (at_rest (app_at 11) m' ≡ true)
tick-returns_example = tick-returns (app_at 11) with_check

abbrev is_four : ℕ → Bool
is_four n = n == 4

abbrev odds : List ℕ
odds = 3 ∷ 5 ∷ []

abbrev rest : List ℕ
rest = 7 ∷ []

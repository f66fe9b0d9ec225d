-- ===== src/Proxy/Events.antt =====
-- The life of the manager of the proxies, over any sequence of events (atproxy/atproxy_manager.cpp).
use atsf4g_co.Base.Lists.{length}
use atsf4g_co.Base.{ℕ, suc, Option, none, some, List, [], ◌∷◌}
use atsf4g_co.Proxy.{
  EtcdNode, NodeInfo, Manager, App, tick, reset, on_disconnected, on_watcher_notify,
}

-- What happens to a manager; each event comes with what it reads of the application at that time.
pub data Event : Type 0 where
  ticks : Event
  notified : EtcdNode → Event
  resets : List NodeInfo → Event
  disconnected : ℕ → Event

abbrev state_of : Option (Manager × ℕ) → Option Manager
state_of none = none
state_of (some r) = some r.0

pub step : App → Manager → Event → Option Manager
step app m ticks = state_of (tick app (suc (length m.check_list)) m)
step app m (notified node) = some (on_watcher_notify app m node)
step app m (resets nodes) = some (reset app m nodes)
step app m (disconnected id) = some (on_disconnected app m id)

-- The application's id is `self` all the time.
pub run : ℕ → Manager → List (App × Event) → Option Manager
run self m [] = some m
run self m ((app, e) ∷ es) = elim (step (record app { self_id = self }) m e) [
  | none ↦ none
  | some n ↦ run self n es
]

-- `atproxy_manager::atproxy_manager`
abbrev pub create : Manager
create = record { check_list = []; proxy_set = []; connects = [] }

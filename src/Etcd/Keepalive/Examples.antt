-- ===== src/Etcd/Keepalive/Examples.antt =====
-- A key that is checked and written (component/etcdcli/etcd_keepalive.cpp).
use atsf4g_co.Base.{◌≡◌, Bool, refl, ℤ, pos, true, false, none, some, List, [], ◌∷◌}
use atsf4g_co.Etcd.Keepalive.{
  Text, Owner, Reply, create, active, set_checker_text, set_value, on_reply, process, prepare,
  choose, start, on_get_data, value_of, default_checker, same_text,
}
use atsf4g_co.Etcd.Keepalive.Delivery.{Settled}
use atsf4g_co.Etcd.Keepalive.Life.{
  Event, checks_text, activates, sets, replies, run, step, AllStart, start_nil, start_cons,
  value_delivered,
}

abbrev owner_with : ℤ → Owner
owner_with res = record {
  running = true;
  lease = 9;
  creates_get = true;
  creates_set = true;
  start_result = res;
}

abbrev good_owner : Owner
good_owner = owner_with (pos 0)

-- The key is not in etcd yet.
abbrev nothing_found : Reply
nothing_found = record { succeeds = true; document = some (record { count = pos 0; kvs = none }) }

abbrev some_events : List (Owner × Event)
some_events =
    (good_owner, checks_text (7 ∷ []))
    ∷ (good_owner, sets (7 ∷ 8 ∷ []))
    ∷ (good_owner, replies nothing_found)
    ∷ []

all_start : AllStart some_events
all_start =
    start_cons good_owner _ _ refl
      (start_cons good_owner _ _ refl (start_cons good_owner _ _ refl start_nil))

-- The key is set while its check is under way, and another activation changes nothing.
abbrev later_events : List (Owner × Event)
later_events =
    (good_owner, sets (7 ∷ 8 ∷ []))
    ∷ (good_owner, activates)
    ∷ (good_owner, replies nothing_found)
    ∷ []

abbrev a_checker : Text → Bool
a_checker = default_checker (7 ∷ [])

written : (run create some_events).is_value_changed ≡ false
unfolding run step create set_checker_text set_value on_reply active process prepare choose start
    on_get_data value_of default_checker same_text
written = refl

value_delivered_example :
    Settled
      (run create some_events).rpc_opr
      (run create some_events).value
      (run create some_events).stored
value_delivered_example = value_delivered some_events all_start written

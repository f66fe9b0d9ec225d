-- ===== src/Proxy.antt =====
-- The proxies that a proxy knows and connects to (atframework/service/atproxy/atproxy_manager.h,
-- atproxy_manager.cpp). The fields of an etcd node that the manager only copies are left out.
pub mod Addresses
pub mod Schedule
pub mod Waiting
pub mod Events
mod Examples
use atsf4g_co.Base.Lists.{length, append_assoc, append_nil}
use atsf4g_co.Base.{
  ℕ, zero, suc, ◌+◌, ◌-◌, ℤ, pos, negsuc, is_neg, Bool, true, false, not, ◌&&◌, Option, none, some,
  List, [], ◌∷◌, ◌++◌, ltb, leb, ◌==◌, if◌then◌else◌,
}
use atsf4g_co.Base.Assoc.{lookup, insert, erase}

-- A host name or an address to listen to, as the list of its characters.
abbrev pub Name : Type 0
Name = List ℕ

-- `etcd_module::node_action_t`
pub data Action : Type 0 where
  unknown put delete : Action

abbrev pub is_delete : Action → Bool
is_delete unknown = false
is_delete put = false
is_delete delete = true

-- `etcd_module::node_info_t`
pub record EtcdNode : Type 0 where
  pub id : ℕ
  pub hostname : Name
  pub listens : List Name
  pub action : Action
  pub protocol_version : ℕ
  pub protocol_min_version : ℕ

-- `atproxy_manager::node_info_t`
pub record NodeInfo : Type 0 where
  pub etcd_node : EtcdNode
  pub next_action_time : ℕ
  pub is_available : Bool

-- `check_info_t`
pub record CheckInfo : Type 0 where
  pub timeout_sec : ℕ
  pub proxy_id : ℕ

-- The members of `atproxy_manager`, and the addresses that the bus node was told to connect to, the
-- latest first.
pub record Manager : Type 0 where
  pub check_list : List CheckInfo
  pub proxy_set : List (ℕ × NodeInfo)
  pub connects : List Name

-- The bus node: the answers of `get_endpoint` and of `connect` may depend on all the calls of
-- `connect` before.
pub record Bus : Type 0 where
  pub has_endpoint : List Name → ℕ → Bool
  pub connect : List Name → Name → ℤ
  pub retry_interval : ℤ
  pub protocol_version : ℕ
  pub protocol_min_version : ℕ

-- What the manager reads: the clock, and the application. The last two are libatbus's constants.
pub record App : Type 0 where
  pub now : ℕ
  pub self_id : ℕ
  pub bus_node : Option Bus
  pub stoping : Bool
  pub is_remote_address_available : Name → Name → Bool
  pub default_version : ℕ
  pub default_min_version : ℕ

-- `next_listen_address`
pub next_listen_address : {A : Type 0} → List A → List A
next_listen_address [] = []
next_listen_address (x ∷ []) = x ∷ []
next_listen_address (x ∷ y ∷ []) = y ∷ x ∷ []
next_listen_address (x ∷ y ∷ z ∷ xs) = (y ∷ z ∷ xs) ++ x ∷ []

-- One step of the loop over the addresses: an address that is not available goes to the back.
unfoldable pub skip : {A : Type 0} → (A → Bool) → List A → List A
unfolding next_listen_address
skip ok [] = []
skip ok (x ∷ xs) = if ok x then x ∷ xs else next_listen_address (x ∷ xs)

-- `for (i = 0; i < check_size; ++i)`
pub pick : {A : Type 0} → (A → Bool) → ℕ → List A → List A
unfolding skip
pick ok zero xs = xs
pick ok (suc k) xs = pick ok k (skip ok xs)

abbrev pub is_empty : {A : Type 0} → List A → Bool
is_empty [] = true
is_empty (x ∷ xs) = false

-- `now + interval`, and `now + 1` if that is not later
abbrev pub retry_time : ℕ → ℤ → ℕ
retry_time now (pos zero) = now + 1
retry_time now (pos (suc k)) = now + suc k
retry_time now (negsuc k) = now + 1

module _ (app : App) where
  -- `check_available`
  check_available : EtcdNode → Bool
  check_available node = elim app.bus_node [
    | some bus ↦
        leb bus.protocol_min_version node.protocol_version
        && leb node.protocol_min_version bus.protocol_version
    | none ↦
        leb app.default_min_version node.protocol_version
        && leb node.protocol_min_version app.default_version
  ]

  -- The end of the loop of `tick`: the first address that is left is connected to
  pub connect_first : Bus → CheckInfo → NodeInfo → List Name → Manager → Manager × ℕ
  connect_first bus ci info [] m = (m, 0)
  connect_first bus ci info (addr ∷ rest) m =
      let t = retry_time app.now bus.retry_interval in
      let res = bus.connect m.connects addr in
      (
        record {
          check_list = m.check_list ++ record { timeout_sec = t; proxy_id = ci.proxy_id } ∷ [];
          proxy_set =
              insert ci.proxy_id
                (record info {
                  etcd_node = record info.etcd_node { listens = next_listen_address (addr ∷ rest) };
                  next_action_time = t;
                })
                m.proxy_set;
          connects = addr ∷ m.connects;
        },
        if is_neg res then 0 else 1,
      )

  -- The loop of `tick` from the test of `get_bus_node()` on
  pub act : Option Bus → CheckInfo → NodeInfo → Manager → Manager × ℕ
  unfolding connect_first
  act (some bus) ci info m =
      let ok = app.is_remote_address_available info.etcd_node.hostname in
      let listens = info.etcd_node.listens in
      let reset_info = record info { next_action_time = 0 } in
      let m1 = record m { proxy_set = insert ci.proxy_id reset_info m.proxy_set } in
      if bus.has_endpoint m.connects ci.proxy_id
      then (m1, 0)
      else if not info.is_available
      then (m1, 0)
      else connect_first bus ci reset_info (pick ok (length listens) listens) m1
  act none ci info m =
      let t = app.now + 1 in
      (
        record m {
          check_list = m.check_list ++ record { timeout_sec = t; proxy_id = ci.proxy_id } ∷ [];
          proxy_set = insert ci.proxy_id (record info { next_action_time = t }) m.proxy_set;
        },
        0,
      )

  -- The loop of `tick` once a check has been taken off the list
  pub check : CheckInfo → Option NodeInfo → Manager → Manager × ℕ
  unfolding act
  check ci none m = (m, 0)
  check ci (some info) m =
      if is_empty info.etcd_node.listens
      then (m, 0)
      else if ltb ci.timeout_sec info.next_action_time
      then (m, 0)
      else act app.bus_node ci info m

  pub round : CheckInfo → Manager → Manager × ℕ
  unfolding check
  round ci m =
      if ci.proxy_id == app.self_id then (m, 0) else check ci (lookup ci.proxy_id m.proxy_set) m

  -- `tick`: the loop, with the number of connections that it began
  unfoldable pub tick : ℕ → Manager → Option (Manager × ℕ)
  unfolding round
  tick zero m = none
  tick (suc fuel) m = elim m.check_list [
    | [] ↦ some (m, 0)
    | ci ∷ cs ↦
        let r = round ci (record m { check_list = cs }) in
        let rest = tick fuel r.0 in
        if leb app.now ci.timeout_sec
        then some (m, 0)
        else elim rest [ none ↦ none | some s ↦ some (s.0, r.1 + s.1) ]
  ]

  -- `set`
  pub set : Manager → EtcdNode → Manager
  set m node =
      let ci : CheckInfo = record { timeout_sec = app.now; proxy_id = node.id } in
      elim (lookup node.id m.proxy_set) [
        | some info ↦ if leb app.now info.next_action_time then m else record m {
          check_list = ci ∷ m.check_list;
          proxy_set =
              insert node.id (record info { etcd_node = node; next_action_time = app.now })
                m.proxy_set;
        }
        | none ↦ record m {
          check_list = ci ∷ m.check_list;
          proxy_set =
              insert node.id
                (record {
                  etcd_node = node;
                  next_action_time = app.now;
                  is_available = check_available node;
                })
                m.proxy_set;
        }
      ]

  -- `remove`
  pub remove : Manager → ℕ → Manager
  remove m id = record m { proxy_set = erase id m.proxy_set }

  -- The loop of `reset`
  pub add_all : List NodeInfo → Manager → Manager
  unfolding check_available
  add_all [] m = m
  add_all (i ∷ is) m =
      let node = i.etcd_node in
      let ci : CheckInfo = record { timeout_sec = app.now; proxy_id = node.id } in
      let info = record i { next_action_time = app.now; is_available = check_available node } in
      let added = record m {
        check_list = ci ∷ m.check_list;
        proxy_set = insert node.id info m.proxy_set;
      } in
      add_all is (if is_empty node.listens then m else added)

  -- `reset`
  pub reset : Manager → List NodeInfo → Manager
  unfolding add_all
  reset m nodes = add_all nodes (record m { check_list = []; proxy_set = [] })

  abbrev pub retry_of : Option Bus → ℕ
  retry_of none = app.now + 1
  retry_of (some bus) = retry_time app.now bus.retry_interval

  -- `on_disconnected`
  pub on_disconnected : Manager → ℕ → Manager
  on_disconnected m id = elim (lookup id m.proxy_set) [
    | none ↦ m
    | some info ↦
        let t = if app.stoping then app.now - 1 else retry_of app.bus_node in
        let ci : CheckInfo = record { timeout_sec = t; proxy_id = id } in
        if ltb info.next_action_time t
        then record m {
          check_list = m.check_list ++ ci ∷ [];
          proxy_set = insert id (record info { next_action_time = t }) m.proxy_set;
        }
        else m
  ]

  -- `on_watcher_notify`
  pub on_watcher_notify : Manager → EtcdNode → Manager
  unfolding set remove
  on_watcher_notify m node = if is_delete node.action then remove m node.id else set m node

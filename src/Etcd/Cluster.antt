-- ===== src/Etcd/Cluster.antt =====
-- The connection to etcd, `etcd_cluster` (component/etcdcli/etcd_cluster.h, etcd_cluster.cpp): its
-- members, the flags and the counters, and the requests for the lease. The HTTP client, the random
-- generator and the JSON library answer through `Env` and the replies; the keys and the watchers are
-- those of `etcd_keepalive` and `etcd_watcher`, in a store, and all have this owner. Times are in
-- seconds.
pub mod Actors
pub mod Members
pub mod Replies
pub mod Lists
pub mod Keeps
pub mod Life
pub mod Ticks
pub mod Answers
pub mod Closing
pub mod Runs
pub mod Lease
pub mod Pending
pub mod Removal
pub mod Nodes
mod Examples
use Prim.Native.Char.{code}
use Prim.Native.String.{String}
use atsf4g_co.Base.{
  ℕ, ◌+◌, ℤ, pos, is_zero, Bool, true, false, not, ◌&&◌, ◌||◌, Option, none, some, List, [], ◌∷◌,
  ◌++◌, leb, ◌==◌, if◌then◌else◌, u64, is_some,
}
use atsf4g_co.Etcd.Keepalive.{Text, Keepalive}
use atsf4g_co.Etcd.Watcher.{Watcher}

-- The characters of a literal
abbrev pub codes : String → Text
codes String.[] = []
codes (String.◌∷◌ c s) = code c ∷ codes s

abbrev pub is_empty : {A : Type 0} → List A → Bool
is_empty [] = true
is_empty (c ∷ rest) = false

-- What the outside answers during a call: the time, of the requests, in the order of their making,
-- whether `http_request::create` makes one and what its `start` returns, and the host that
-- `random_between` chooses from a list for the n-th time.
pub record Env : Type 0 where
  pub now : ℕ
  pub created : ℕ → Bool
  pub start_result : ℕ → ℤ
  pub pick : ℕ → List Text → Text

-- `stats_t`
pub record Stats : Type 0 where
  pub sum_error_requests : ℕ
  pub continue_error_requests : ℕ
  pub sum_success_requests : ℕ
  pub continue_success_requests : ℕ
  pub sum_create_requests : ℕ

-- `etcd_keepalive_deletor`, a path that is to be deleted
pub record Deletor : Type 0 where
  pub path : Text
  pub retry_times : ℕ

-- `rpc_authenticate_` asks for a token or for the user; `rpc_keepalive_` asks for a lease, with the
-- number of the old one, or renews it.
pub data AuthCall : Type 0 where
  authenticate user_get : AuthCall

pub data LeaseCall : Type 0 where
  lease_grant lease_keepalive : ℕ → LeaseCall

-- An `etcd_keepalive` with its path
pub record Kept : Type 0 where
  pub path : Text
  pub keep : Keepalive

-- The members of `etcd_cluster`: the flags, those of `conf_` that the object itself changes or
-- reads, and the requests under way with their URLs. `deleting` lists the deletors whose requests
-- are under way, which only the requests point to, and `requests` counts the calls of
-- `http_request::create`.
pub record Cluster (E : Type 0) : Type 0 where
  pub closing : Bool
  pub running : Bool
  pub enable_lease : Bool
  pub has_multi : Bool
  pub conf_hosts : List Text
  pub hosts : List Text
  pub path_node : Text
  pub authorization : Text
  pub roles : List Text
  pub header : Text
  pub authorization_next : ℕ
  pub authorization_retry : ℕ
  pub user_get_next : ℕ
  pub user_get_retry : ℕ
  pub members_next : ℕ
  pub members_update : ℕ
  pub members_retry : ℕ
  pub lease : ℕ
  pub keepalive_next : ℕ
  pub keepalive_interval : ℕ
  pub stats : Stats
  pub rpc_authenticate : Option (AuthCall × Text)
  pub rpc_update_members : Option Text
  pub rpc_keepalive : Option (LeaseCall × Text)
  pub keepalive_actors : List ℕ
  pub retry_actors : List ℕ
  pub keepalives : ℕ → Kept
  pub watcher_actors : List ℕ
  pub watchers : ℕ → Watcher E
  pub deletors : List Deletor
  pub deleting : List (Deletor × Text)
  pub requests : ℕ
  pub picks : ℕ

abbrev no_stats : Stats
no_stats = record {
  sum_error_requests = 0;
  continue_error_requests = 0;
  sum_success_requests = 0;
  continue_success_requests = 0;
  sum_create_requests = 0;
}

-- An interval that is not positive stands for a second.
abbrev pub at_least_1 : ℕ → ℕ
at_least_1 n = if n == 0 then 1 else n

module _ {E : Type 0} where
  -- `etcd_cluster::etcd_cluster`, with keys and watchers that stand in memory
  unfoldable pub create : (ℕ → Kept) → (ℕ → Watcher E) → Cluster E
  create keepalives watchers = record {
    closing = false;
    running = false;
    enable_lease = false;
    has_multi = false;
    conf_hosts = [];
    hosts = [];
    path_node = [];
    authorization = [];
    roles = [];
    header = [];
    authorization_next = 0;
    authorization_retry = 5;
    user_get_next = 0;
    user_get_retry = 120;
    members_next = 0;
    members_update = 300;
    members_retry = 60;
    lease = 0;
    keepalive_next = 0;
    keepalive_interval = 5;
    stats = no_stats;
    rpc_authenticate = none;
    rpc_update_members = none;
    rpc_keepalive = none;
    keepalive_actors = [];
    retry_actors = [];
    keepalives = keepalives;
    watcher_actors = [];
    watchers = watchers;
    deletors = [];
    deleting = [];
    requests = 0;
    picks = 0;
  }

  -- `init`: the flag of closing is cleared.
  unfoldable pub init : Cluster E → Cluster E
  init c = record c { has_multi = true; closing = false }

  -- `add_stats_error_request`, `add_stats_success_request`, `add_stats_create_request`
  unfoldable pub add_stats_error_request : Cluster E → Cluster E
  add_stats_error_request c = record c {
    stats = record c.stats {
      sum_error_requests = u64 (c.stats.sum_error_requests + 1);
      continue_error_requests = u64 (c.stats.continue_error_requests + 1);
      continue_success_requests = 0;
    };
  }

  unfoldable pub add_stats_success_request : Cluster E → Cluster E
  add_stats_success_request c = record c {
    stats = record c.stats {
      sum_success_requests = u64 (c.stats.sum_success_requests + 1);
      continue_success_requests = u64 (c.stats.continue_success_requests + 1);
      continue_error_requests = 0;
    };
  }

  unfoldable pub add_stats_create_request : Cluster E → Cluster E
  add_stats_create_request c = record c { stats = record c.stats { sum_create_requests = 0 } }

  -- `check_authorization`
  unfoldable pub check_authorization : Cluster E → Bool
  check_authorization c = is_empty c.authorization || not (is_empty c.header)

  -- `is_available`
  unfoldable pub is_available : Cluster E → Bool
  unfolding check_authorization
  is_available c =
      c.has_multi && (not c.closing && (not (is_empty c.path_node) && check_authorization c))

  -- The test at the begin of `create_request_kv_get`, `create_request_kv_del` and
  -- `create_request_watch`
  unfoldable pub can_request : Cluster E → Bool
  can_request c = c.has_multi && (not (is_empty c.path_node) && not c.closing)

  module _ (env : Env) where
    -- `http_request::create` and `start` in one: `none` if no request was made, and else what
    -- `start` returns
    unfoldable pub open_request : Cluster E → Cluster E × Option ℤ
    unfolding add_stats_error_request add_stats_create_request
    open_request c =
        let c1 = record c { requests = c.requests + 1 } in
        if env.created c.requests
        then (add_stats_create_request c1, some (env.start_result c.requests))
        else (add_stats_error_request c1, none)

    -- The end of `create_request_lease_grant` and of `create_request_lease_keepalive`
    unfoldable pub ask_lease : Cluster E → LeaseCall → Text → Cluster E × Bool
    unfolding open_request add_stats_error_request
    ask_lease c call api =
        let r =
          open_request (record c { keepalive_next = env.now + at_least_1 c.keepalive_interval }) in
        elim r.1 [
          | none ↦ (r.0, true)
          | some res ↦
              if is_zero res
              then (record r.0 { rpc_keepalive = some (call, c.path_node ++ api) }, true)
              else (add_stats_error_request r.0, false)
        ]

    -- `create_request_lease_grant`
    unfoldable pub create_request_lease_grant : Cluster E → Cluster E × Bool
    unfolding ask_lease
    create_request_lease_grant c =
        if not c.has_multi || is_empty c.path_node
        then (c, false)
        else if c.closing || not c.enable_lease
        then (c, false)
        else if is_some c.rpc_keepalive
        then (c, false)
        else ask_lease c (lease_grant c.lease) (codes "/v3/lease/grant")

    -- `create_request_lease_keepalive`
    unfoldable pub create_request_lease_keepalive : Cluster E → Cluster E × Bool
    unfolding ask_lease
    create_request_lease_keepalive c =
        if not c.has_multi || (c.lease == 0 || is_empty c.path_node)
        then (c, false)
        else if c.closing || not c.enable_lease
        then (c, false)
        else if is_some c.rpc_keepalive
        then (c, false)
        else if leb env.now c.keepalive_next
        then (c, false)
        else ask_lease c (lease_keepalive c.lease) (codes "/v3/lease/keepalive")

    -- `set_flag` for `ENABLE_LEASE`
    unfoldable pub enable : Cluster E → Bool → Cluster E
    unfolding create_request_lease_grant
    enable c v =
        let c1 = record c { enable_lease = v } in
        if (if v then c.enable_lease else not c.enable_lease)
        then c
        else if v
        then (create_request_lease_grant c1).0
        else record c1 { rpc_keepalive = none }

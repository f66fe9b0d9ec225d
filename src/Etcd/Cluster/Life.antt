-- ===== src/Etcd/Cluster/Life.antt =====
-- What holds of an `etcd_cluster` whatever calls and replies it gets.
use atsf4g_co.Base.{ℕ, ◌+◌, ◌≤◌, ◌≡◌, refl, Bool, true, false, none, List, [], ◌∷◌, arith, u64}
use atsf4g_co.Etcd.Keepalive.{Text}
use atsf4g_co.Etcd.Watcher.{Watcher}
use atsf4g_co.Etcd.Cluster.{
  Env, Deletor, Kept, Cluster, LeaseCall, create, open_request, ask_lease,
  create_request_lease_grant, create_request_lease_keepalive, enable, lease_grant, lease_keepalive,
  codes,
}
use atsf4g_co.Etcd.Cluster.Actors.{erase_path, try_delete, remove_keepalive_path}
use atsf4g_co.Etcd.Cluster.Lists.{IsDistinct, append-IsDistinct}
use atsf4g_co.Etcd.Cluster.Keeps.{Each, Keeps}

-- A deletor that may be tried again or was tried: at most 8 times.
abbrev pub Tried : Deletor → Type 0
Tried d = d.retry_times ≤ 8

unfoldable pub EachUnderWay : List (Deletor × Text) → Type 0
EachUnderWay [] = Unit
EachUnderWay (d ∷ ds) = Tried d.0 × EachUnderWay ds

-- While it is closing it asks for nothing and holds no key, watcher or lease; without the HTTP
-- client it has no lease; no actor is on a list twice; no deletor was tried more than 8 times; and
-- no request is ever counted as created.
pub record Inv {E : Type 0} (c : Cluster E) : Type 0 where
  pub closed_auth : c.closing ≡ true → c.rpc_authenticate ≡ none
  pub closed_members : c.closing ≡ true → c.rpc_update_members ≡ none
  pub closed_keepalive : c.closing ≡ true → c.rpc_keepalive ≡ none
  pub closed_actors : c.closing ≡ true → c.keepalive_actors ≡ []
  pub closed_retries : c.closing ≡ true → c.retry_actors ≡ []
  pub closed_watchers : c.closing ≡ true → c.watcher_actors ≡ []
  pub closed_lease : c.closing ≡ true → c.lease ≡ 0
  pub offline_rpc : c.has_multi ≡ false → c.rpc_keepalive ≡ none
  pub offline_lease : c.has_multi ≡ false → c.lease ≡ 0
  pub distinct_actors : IsDistinct c.keepalive_actors
  pub distinct_retries : IsDistinct c.retry_actors
  pub distinct_watchers : IsDistinct c.watcher_actors
  pub waiting : Each Tried c.deletors
  pub under_way : EachUnderWay c.deleting
  pub uncounted : c.stats.sum_create_requests ≡ 0

pub erase_path-Each :
    (path : Text) (ds : List Deletor) → Each Tried ds → Each Tried (erase_path path ds)
unfolding erase_path Each
erase_path-Each path [] h = h
erase_path-Each path (d ∷ ds) (t, h) = ground (arith, erase_path-Each path ds h)

module _ {E : Type 0} where
  pub create-Inv : (ks : ℕ → Kept) (ws : ℕ → Watcher E) → Inv (create ks ws)
  unfolding create Each EachUnderWay
  create-Inv ks ws = record {
    closed_auth = λ h. refl;
    closed_members = λ h. refl;
    closed_keepalive = λ h. refl;
    closed_actors = λ h. refl;
    closed_retries = λ h. refl;
    closed_watchers = λ h. refl;
    closed_lease = λ h. refl;
    offline_rpc = λ h. refl;
    offline_lease = λ h. refl;
    distinct_actors = tt;
    distinct_retries = tt;
    distinct_watchers = tt;
    waiting = tt;
    under_way = tt;
    uncounted = refl;
  }

  module _ (env : Env) where
    pub open_request-Inv : (c : Cluster E) → Inv c → Inv (open_request env c).0
    unfolding open_request
    open_request-Inv c h = ground arith

    ask_lease-Inv :
        (c : Cluster E) (call : LeaseCall) (api : Text)
        → c.closing ≡ false
        → c.has_multi ≡ true
        → Inv c
        → Inv (ask_lease env c call api).0
    unfolding ask_lease open_request
    ask_lease-Inv c call api running online h = ground arith

    pub create_request_lease_grant-Inv :
        (c : Cluster E) → Inv c → Inv (create_request_lease_grant env c).0
    unfolding create_request_lease_grant
    create_request_lease_grant-Inv c h =
        ground (arith, ask_lease-Inv c (lease_grant c.lease) (codes "/v3/lease/grant"))

    pub create_request_lease_keepalive-Inv :
        (c : Cluster E) → Inv c → Inv (create_request_lease_keepalive env c).0
    unfolding create_request_lease_keepalive
    create_request_lease_keepalive-Inv c h =
        ground (arith, ask_lease-Inv c (lease_keepalive c.lease) (codes "/v3/lease/keepalive"))

    pub enable-Inv : (c : Cluster E) (v : Bool) → Inv c → Inv (enable env c v)
    unfolding enable
    enable-Inv c v h =
        ground (arith, create_request_lease_grant-Inv (record c { enable_lease = v }))

    try_delete-Inv :
        (c : Cluster E) (d : Deletor) → d.retry_times ≤ 9 → Inv c → Inv (try_delete env c d)
    unfolding try_delete open_request Each EachUnderWay
    try_delete-Inv c d t h = ground arith

    pub remove_keepalive_path-Inv :
        (c : Cluster E) (d : Deletor) (delay : Bool)
        → Tried d
        → Inv c
        → Inv (remove_keepalive_path env c d delay)
    unfolding remove_keepalive_path Each
    remove_keepalive_path-Inv c d delay t h = ground (
      arith,
      erase_path-Each d.path c.deletors,
      try_delete-Inv (record c { deletors = erase_path d.path c.deletors })
          (record d { retry_times = u64 (d.retry_times + 1) }),
    )

    pub Inv-Keeps : Keeps env (Inv {E = E}) Tried
    unfolding Each
    Inv-Keeps = record {
      opens = open_request-Inv;
      enables = λ c h. enable-Inv c true h;
      activates = λ (c : Cluster E) from i h. ground arith;
      resets = λ (c : Cluster E) i h. ground arith;
      watches = λ (c : Cluster E) i w h. ground arith;
      retries = λ c i running new h. ground (arith, append-IsDistinct i c.retry_actors);
      settles = λ (c : Cluster E) h. ground arith;
      tried = λ c h. h.waiting;
      empties = λ (c : Cluster E) h. ground arith;
      removes = λ c d t h. remove_keepalive_path-Inv c d false t h;
    }

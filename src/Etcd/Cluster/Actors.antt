-- ===== src/Etcd/Cluster/Actors.antt =====
-- The keys and watchers of `etcd_cluster`, and the paths that it deletes
-- (component/etcdcli/etcd_cluster.cpp).
use atsf4g_co.Base.{
  ℕ, ◌+◌, is_zero, Bool, true, false, not, ◌&&◌, ◌||◌, Option, none, some, List, [], ◌∷◌, ◌++◌, ltb,
  ◌==◌, if◌then◌else◌, u64, is_some,
}
use atsf4g_co.Etcd.Keepalive as K
use atsf4g_co.Etcd.Keepalive.{Text, Keepalive, Request, same_text}
use atsf4g_co.Etcd.Watcher as W
use atsf4g_co.Etcd.Watcher.{Watcher}
use atsf4g_co.Etcd.Cluster.{Env, Deletor, Cluster, codes, can_request, open_request, enable}

-- `std::find(actors.begin(), actors.end(), actor) != actors.end()`
abbrev pub member : ℕ → List ℕ → Bool
member i [] = false
member i (j ∷ js) = i == j || member i js

-- The last of `j ∷ js`, and the list without it
abbrev pub last : {A : Type 0} → A → List A → A
last j [] = j
last j (k ∷ ks) = last k ks

abbrev pub but_last : {A : Type 0} → A → List A → List A
but_last j [] = []
but_last j (k ∷ ks) = j ∷ but_last k ks

-- The loops of `remove_keepalive` and `remove_watcher`: the first that is found is swapped with the
-- last, and the last is dropped.
unfoldable pub swap_out : ℕ → List ℕ → List ℕ
swap_out i [] = []
swap_out i (j ∷ js) =
    let rest = swap_out i js in
    if not (i == j) then j ∷ rest else elim js [ [] ↦ [] | k ∷ ks ↦ last k ks ∷ but_last k ks ]

-- `keepalive_deletors_.find(path)`, then `erase`
unfoldable pub erase_path : Text → List Deletor → List Deletor
erase_path path [] = []
erase_path path (d ∷ ds) =
    let rest = erase_path path ds in if same_text d.path path then rest else d ∷ rest

-- The request that `etcd_keepalive::process` asks the owner for
unfoldable pub asks : K.Owner → Keepalive → Option Request
unfolding K.prepare
asks o k =
    let k1 = K.prepare o (record k { is_actived = true }) in
    if is_some k.rpc_opr
    then none
    else if not k1.is_check_run
    then some Request.get_data
    else if k1.is_check_passed && k1.is_value_changed
    then some (Request.set_data k1.value)
    else none

-- The same of `etcd_watcher::process`: does it ask for anything?
unfoldable pub watcher_asks : {E : Type 0} → ℕ → Watcher E → Bool
watcher_asks now w = not (is_some w.rpc_opr) && not (ltb now w.next_request_time)

module _ {E : Type 0} where
  abbrev pub put : Cluster E → ℕ → Keepalive → Cluster E
  put c i k = record c {
    keepalives =
        λ j. if j == i then record { path = (c.keepalives i).path; keep = k } else c.keepalives j;
  }

  abbrev pub put_watcher : Cluster E → ℕ → Watcher E → Cluster E
  put_watcher c i w = record c { watchers = λ j. if j == i then w else c.watchers j }

  module _ (env : Env) where
    -- `add_retry_keepalive`
    unfoldable pub add_retry_keepalive : Cluster E → ℕ → Cluster E × Bool
    add_retry_keepalive c i =
        let c1 = enable env c true in
        if c.closing
        then (c, false)
        else if member i c.retry_actors
        then (c, false)
        else (record c1 { retry_actors = c1.retry_actors ++ (i ∷ []) }, true)

    -- What the next call of `create_request_kv_get` or `create_request_kv_set` gives to a key
    abbrev pub owner : Cluster E → K.Owner
    owner c =
        let made = can_request c && env.created c.requests in
        record {
          running = c.running;
          lease = c.lease;
          creates_get = made;
          creates_set = made && not (c.lease == 0);
          start_result = env.start_result c.requests;
        }

    -- Does the request come as far as `http_request::create`? A value is only set with a lease.
    abbrev pub reaches : Cluster E → Option Request → Bool
    reaches c none = false
    reaches c (some Request.get_data) = can_request c
    reaches c (some (Request.set_data v)) = can_request c && not (c.lease == 0)

    -- The request that `etcd_keepalive::active` makes of its owner
    unfoldable pub request_for : Cluster E → ℕ → Cluster E
    request_for c i =
        if reaches c (asks (owner c) (c.keepalives i).keep) then (open_request env c).0 else c

    -- `etcd_keepalive::active`, with the calls that it makes of its owner
    unfoldable pub activate : Cluster E → ℕ → Cluster E
    activate c i =
        let k = (c.keepalives i).keep in
        let k' = K.active (owner c) k in
        let c1 = put (request_for c i) i k' in
        if ltb k.retries k'.retries then (add_retry_keepalive c1 i).0 else c1

    -- `reset_value_changed` and `active`, for each of a list
    unfoldable pub reactivate : List ℕ → Cluster E → Cluster E
    reactivate [] c = c
    reactivate (i ∷ is) c =
        reactivate is (activate (put c i (K.reset_value_changed (c.keepalives i).keep)) i)

    -- `etcd_watcher::active`, with the request that it makes
    unfoldable pub activate_watcher : Cluster E → ℕ → Cluster E
    activate_watcher c i =
        let w = c.watchers i in
        let made = can_request c && env.created c.requests in
        let o : W.Owner = record {
          now = env.now;
          creates_get = made;
          creates_watch = made;
          start_result = env.start_result c.requests;
        } in
        let c1 = if watcher_asks env.now w && can_request c then (open_request env c).0 else c in
        put_watcher c1 i (W.active o w)

    unfoldable pub activate_watchers : List ℕ → Cluster E → Cluster E
    activate_watchers [] c = c
    activate_watchers (i ∷ is) c = activate_watchers is (activate_watcher c i)

    -- `keepalive_deletors_[d->path] = d`, once nothing stands there
    abbrev keep_deletor : Cluster E → Deletor → Cluster E
    keep_deletor c d = record c { deletors = d ∷ c.deletors }

    -- `remove_keepalive_path` once the deletor is to be tried
    unfoldable pub try_delete : Cluster E → Deletor → Cluster E
    try_delete c d =
        let r = open_request env c in
        if ltb 8 d.retry_times
        then c
        else if not (can_request c)
        then keep_deletor c d
        else elim r.1 [
          | none ↦ keep_deletor r.0 d
          | some res ↦
              if is_zero res
              then record r.0 {
                deleting = (d, c.path_node ++ codes "/v3/kv/deleterange") ∷ c.deleting;
              }
              else keep_deletor r.0 d
        ]

    -- `remove_keepalive_path`
    unfoldable pub remove_keepalive_path : Cluster E → Deletor → Bool → Cluster E
    remove_keepalive_path c d delay_delete =
        let c1 = record c { deletors = erase_path d.path c.deletors } in
        if delay_delete
        then keep_deletor c1 d
        else try_delete c1 (record d { retry_times = u64 (d.retry_times + 1) })

    unfoldable pub remove_paths : List Deletor → Cluster E → Cluster E
    remove_paths [] c = c
    remove_paths (d ∷ ds) c = remove_paths ds (remove_keepalive_path c d false)

    -- `retry_pending_actions`. The first loop runs over the list that was there before: a key that
    -- is on it is not put on it again.
    unfoldable pub retry_pending_actions : Cluster E → Cluster E
    retry_pending_actions c =
        let c1 =
          if c.lease == 0 then c else record (reactivate c.retry_actors c) { retry_actors = [] } in
        let c2 = activate_watchers c1.watcher_actors c1 in
        remove_paths c2.deletors (record c2 { deletors = [] })

    -- `set_lease`
    unfoldable pub set_lease : Cluster E → ℕ → Bool → Cluster E
    set_lease c v force =
        let c1 = record c { lease = v } in
        if c.lease == v && (not force && not (v == 0))
        then retry_pending_actions c1
        else if v == 0
        then c1
        else retry_pending_actions (reactivate c.keepalive_actors (record c1 { retry_actors = [] }))

    -- `add_keepalive`
    unfoldable pub add_keepalive : Cluster E → ℕ → Cluster E × Bool
    add_keepalive c i =
        let c1 = enable env c true in
        let c2 = record c1 {
          keepalive_actors = c1.keepalive_actors ++ (i ∷ []);
          deletors = erase_path (c1.keepalives i).path c1.deletors;
        } in
        if c.closing
        then (c, false)
        else if member i c.keepalive_actors
        then (c, false)
        else (if c2.running && not (c2.lease == 0) then activate c2 i else c2, true)

    -- `remove_keepalive`
    unfoldable pub remove_keepalive : Cluster E → ℕ → Cluster E × Bool
    remove_keepalive c i =
        let found = member i c.keepalive_actors || member i c.retry_actors in
        let c1 = record c {
          keepalive_actors = swap_out i c.keepalive_actors;
          retry_actors = swap_out i c.retry_actors;
        } in
        let kept = c.keepalives i in
        let c2 = remove_keepalive_path c1 (record { path = kept.path; retry_times = 0 }) false in
        if not found
        then (c1, false)
        else if kept.keep.has_data
        then (put c2 i (K.close kept.keep true), true)
        else (put c1 i (K.close kept.keep false), true)

    -- `add_watcher` and `remove_watcher`
    unfoldable pub add_watcher : Cluster E → ℕ → Cluster E × Bool
    add_watcher c i =
        if c.closing
        then (c, false)
        else if member i c.watcher_actors
        then (c, false)
        else (record c { watcher_actors = c.watcher_actors ++ (i ∷ []) }, true)

    unfoldable pub remove_watcher : Cluster E → ℕ → Cluster E × Bool
    remove_watcher c i =
        let c1 = record c { watcher_actors = swap_out i c.watcher_actors } in
        if member i c.watcher_actors
        then (put_watcher c1 i (W.close (c.watchers i)), true)
        else (c1, false)

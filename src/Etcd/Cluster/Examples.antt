-- ===== src/Etcd/Cluster/Examples.antt =====
-- Two keys of an `etcd_cluster`, with an HTTP client that works or does not.
use atsf4g_co.Base.{ℕ, ◌≡◌, refl, pos, true, false, ◌⊎◌, none, some, List, [], ◌∷◌, ◌++◌, arith}
use atsf4g_co.Etcd.Keepalive as K
use atsf4g_co.Etcd.Keepalive.{Text, Keepalive, same_text}
use atsf4g_co.Etcd.Watcher as W
use atsf4g_co.Etcd.Watcher.{Watcher}
use atsf4g_co.Etcd.Cluster.{
  Env, Kept, Cluster, lease_grant, create, codes, can_request, check_authorization,
}
use atsf4g_co.Etcd.Cluster.Actors.{member, retry_pending_actions, remove_keepalive}
use atsf4g_co.Etcd.Cluster.Members.{retry_request_member_update, tick}
use atsf4g_co.Etcd.Cluster.Replies.{Reply, LeaseDocument, on_lease_keepalive, has_host}
use atsf4g_co.Etcd.Cluster.Keeps.{Each}
use atsf4g_co.Etcd.Cluster.Life.{Inv, EachUnderWay}
use atsf4g_co.Etcd.Cluster.Runs.{
  Call, inits, configures, ticks, gets_members, adds, gets_lease, removes, closes, run, cluster-Inv,
}
use atsf4g_co.Etcd.Cluster.Lease.{IsWorking, key_is_busy, granted-starts}
use atsf4g_co.Etcd.Cluster.Pending.{IsQuiet, retry-forgets, tick-IsQuiet}
use atsf4g_co.Etcd.Cluster.Removal.{same_text_refl, is_pending, remove_keepalive-forgets}
use atsf4g_co.Etcd.Cluster.Nodes.{IsFair, IsLeft, failure-leaves_node}

abbrev first : List Text → Text
first [] = []
first (h ∷ hs) = h

abbrev good : Env
good = record { now = 100; created = λ n. true; start_result = λ n. pos 0; pick = λ n hs. first hs }

abbrev bad : Env
bad = record good { created = λ n. false }

good-IsWorking : IsWorking good
good-IsWorking = record { creates = λ n. refl; starts = λ n. refl }

good-IsFair : IsFair good
unfolding has_host
good-IsFair n [] e = cc
good-IsFair n (h ∷ hs) e = ground (arith, same_text_refl h)

abbrev keys : ℕ → Kept
keys i = record { path = codes "/a"; keep = record K.create { has_data = true } }

abbrev watchers : ℕ → Watcher ℕ
watchers i = W.create

abbrev fine : Reply
fine = record {
  network_error = false;
  success_code = true;
  code = 200;
  content = [];
  error_code = none;
}

abbrev granted : LeaseDocument
granted = record { has_result = false; has_ttl = true; id = 7 }

abbrev node : Text
node = codes "http://b"

-- A day in its life
abbrev day : List (Env × Call ℕ)
day =
    (good, inits)
    ∷ ((good, configures (node ∷ []) [])
        ∷ ((good, ticks)
            ∷ ((good, gets_members fine (some (some (some (node ∷ []) ∷ []))))
                ∷ ((good, adds 1)
                    ∷ ((good, gets_lease fine (some granted))
                        ∷ ((good, removes 1) ∷ ((bad, closes) ∷ [])))))))

cluster-Inv_example : Inv (run (create keys watchers) day)
cluster-Inv_example = cluster-Inv keys watchers day

-- With a node and two keys, while a lease is asked for
abbrev asking : Cluster ℕ
asking = record (create keys watchers) {
  has_multi = true;
  enable_lease = true;
  path_node = node;
  hosts = codes "http://a" ∷ (node ∷ (codes "http://c" ∷ []));
  keepalive_actors = 1 ∷ (2 ∷ []);
  rpc_keepalive = some (lease_grant 0, []);
}

granted-starts_example :
    let c' = on_lease_keepalive good asking fine (some granted) in
    (key_is_busy 2 c' ≡ true) × (c'.lease ≡ 7) × (c'.running ≡ true)
unfolding create can_request
granted-starts_example =
    granted-starts good asking fine granted 2 good-IsWorking refl refl refl refl refl refl

-- The second key is to be retried.
abbrev retrying : Cluster ℕ
retrying = record asking { lease = 7; retry_actors = 2 ∷ []; rpc_keepalive = none }

retry-forgets_example :
    let c' = retry_pending_actions bad retrying in
    (c'.retry_actors ≡ []) × ((c'.keepalives 2).keep.rpc_opr ≡ none)
unfolding create K.create
retry-forgets_example = retry-forgets bad retrying 2 refl (λ n. refl) refl

-- A token is needed.
abbrev unknown : Cluster ℕ
unknown = record asking { authorization = codes "u:p"; lease = 7; rpc_keepalive = none }

tick-IsQuiet_example : IsQuiet good unknown (tick good unknown)
unfolding create check_authorization
tick-IsQuiet_example = tick-IsQuiet good unknown refl

asking-Inv : Inv asking
unfolding create Each EachUnderWay
asking-Inv = ground arith

remove_keepalive-forgets_example :
    let c' = (remove_keepalive good asking 1).0 in
    ((remove_keepalive good asking 1).1 ≡ true)
    × (member 1 c'.keepalive_actors ≡ false)
    × (member 1 c'.retry_actors ≡ false)
    × ((c'.keepalives 1).keep.rpc_opr ≡ none)
    × ((((asking.keepalives 1).keep.has_data ≡ true)
          × (is_pending (asking.keepalives 1).path c' ≡ true))
        ⊎ (((asking.keepalives 1).keep.has_data ≡ false)
            × (c'.deletors ≡ asking.deletors)
            × (c'.deleting ≡ asking.deleting)))
unfolding create
remove_keepalive-forgets_example = remove_keepalive-forgets good asking 1 asking-Inv refl

failure-leaves_node_example :
    let c' = (retry_request_member_update good asking (asking.path_node ++ codes "/v3/watch")).0 in
    IsLeft good asking c'.path_node c'.hosts
unfolding create has_host same_text
failure-leaves_node_example =
    failure-leaves_node good asking (codes "/v3/watch") good-IsFair (refl, (refl, (refl, tt))) refl

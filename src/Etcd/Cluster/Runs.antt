-- ===== src/Etcd/Cluster/Runs.antt =====
-- The calls that an `etcd_cluster` gets, from the user, the keys and the HTTP client, and the
-- invariant over all of them.
use atsf4g_co.Base.{
  ℕ, Bool, true, false, Option, none, some, List, [], ◌∷◌, if◌then◌else◌, is_some, arith, if-split,
}
use atsf4g_co.Etcd.Keepalive.{Text, Keepalive}
use atsf4g_co.Etcd.Watcher.{Watcher}
use atsf4g_co.Etcd.Cluster.{Env, Kept, Cluster, AuthCall, create, init, enable}
use atsf4g_co.Etcd.Cluster.Actors.{
  put, put_watcher, add_retry_keepalive, add_keepalive, remove_keepalive, add_watcher,
  remove_watcher,
}
use atsf4g_co.Etcd.Cluster.Members.{tick}
use atsf4g_co.Etcd.Cluster.Replies.{
  Reply, LeaseDocument, Missing, check_authorization_expired, on_remove_keepalive_path,
  on_auth_authenticate, on_auth_user_get, on_member_update, on_lease_keepalive, close, reset,
}
use atsf4g_co.Etcd.Cluster.Keeps.{add_retry_keepalive-keeps}
use atsf4g_co.Etcd.Cluster.Life.{Inv, create-Inv, enable-Inv, Inv-Keeps}
use atsf4g_co.Etcd.Cluster.Ticks.{tick-Inv}
use atsf4g_co.Etcd.Cluster.Closing.{
  close-Inv, reset-Inv, put-Inv, add_keepalive-Inv, remove_keepalive-Inv, add_watcher-Inv,
  remove_watcher-Inv,
}
use atsf4g_co.Etcd.Cluster.Answers.{
  expired-Inv, on_remove_keepalive_path-Inv, on_auth_authenticate-Inv, on_auth_user_get-Inv,
  on_member_update-Inv, on_lease_keepalive-Inv,
}

-- A reply comes only to a request that is under way. At its own replies a key or a watcher changes
-- its members, and a key may call `add_retry_keepalive` and `check_authorization_expired`.
pub data Call (E : Type 0) : Type 0 where
  inits closes resets ticks : Call E
  enables : Bool → Call E
  configures : List Text → Text → Call E
  adds removes retries adds_watcher removes_watcher : ℕ → Call E
  changes : ℕ → Keepalive → Call E
  changes_watcher : ℕ → Watcher E → Call E
  expires : Reply → Call E
  gets_token : Reply → Missing Text → Call E
  gets_roles : Reply → Missing (List Text) → Call E
  gets_members : Reply → Missing (List (Option (List Text))) → Call E
  gets_lease : Reply → Option LeaseDocument → Call E
  deleted : ℕ → Reply → Call E

-- Is the request for a token, or that for the user, under way?
abbrev asks_token : {U : Type 0} → Option (AuthCall × U) → Bool
asks_token none = false
asks_token (some (AuthCall.authenticate, url)) = true
asks_token (some (AuthCall.user_get, url)) = false

abbrev asks_user : {U : Type 0} → Option (AuthCall × U) → Bool
asks_user none = false
asks_user (some (AuthCall.authenticate, url)) = false
asks_user (some (AuthCall.user_get, url)) = true

module _ {E : Type 0} where
  unfoldable pub step : Env → Cluster E → Call E → Cluster E
  step env c inits = init c
  step env c closes = (close env c).0
  step env c resets = reset env c
  step env c ticks = tick env c
  step env c (enables v) = enable env c v
  step env c (configures hosts authorization) = record c {
    conf_hosts = hosts;
    authorization = authorization;
  }
  step env c (adds i) = (add_keepalive env c i).0
  step env c (removes i) = (remove_keepalive env c i).0
  step env c (retries i) = (add_retry_keepalive env c i).0
  step env c (adds_watcher i) = (add_watcher env c i).0
  step env c (removes_watcher i) = (remove_watcher env c i).0
  step env c (changes i k) = put c i k
  step env c (changes_watcher i w) = put_watcher c i w
  step env c (expires r) = check_authorization_expired c r
  step env c (gets_token r document) =
      if asks_token c.rpc_authenticate then on_auth_authenticate env c r document else c
  step env c (gets_roles r document) =
      if asks_user c.rpc_authenticate then on_auth_user_get env c r document else c
  step env c (gets_members r document) =
      if is_some c.rpc_update_members then on_member_update env c r document else c
  step env c (gets_lease r document) =
      if is_some c.rpc_keepalive then on_lease_keepalive env c r document else c
  step env c (deleted n r) = on_remove_keepalive_path env c n r

  -- The calls one after the other, each with what the outside answers to it
  unfoldable pub run : Cluster E → List (Env × Call E) → Cluster E
  run c [] = c
  run c ((env, call) ∷ calls) = run (step env c call) calls

  module _ (env : Env) where
    -- Whatever call comes, and whatever the outside answers to it
    step-Inv : (c : Cluster E) (call : Call E) → Inv c → Inv (step env c call)
    unfolding step init
    step-Inv c inits h = (ground arith)
    step-Inv c closes h = close-Inv env c h
    step-Inv c resets h = reset-Inv env c h
    step-Inv c ticks h = tick-Inv env c h
    step-Inv c (enables v) h = enable-Inv env c v h
    step-Inv c (configures hosts authorization) h = (ground arith)
    step-Inv c (adds i) h = add_keepalive-Inv env c i h
    step-Inv c (removes i) h = remove_keepalive-Inv env c i h
    step-Inv c (retries i) h = add_retry_keepalive-keeps (Inv-Keeps env) c i h
    step-Inv c (adds_watcher i) h = add_watcher-Inv env c i h
    step-Inv c (removes_watcher i) h = remove_watcher-Inv env c i h
    step-Inv c (changes i k) h = put-Inv c i k h
    step-Inv c (changes_watcher i w) h = (ground arith)
    step-Inv c (expires r) h = expired-Inv c r h
    step-Inv c (gets_token r document) h =
        if-split Inv (asks_token c.rpc_authenticate)
          (λ e. on_auth_authenticate-Inv env c r document h) (λ e. h)
    step-Inv c (gets_roles r document) h =
        if-split Inv (asks_user c.rpc_authenticate) (λ e. on_auth_user_get-Inv env c r document h)
          (λ e. h)
    step-Inv c (gets_members r document) h =
        if-split Inv (is_some c.rpc_update_members) (λ e. on_member_update-Inv env c r document h)
          (λ e. h)
    step-Inv c (gets_lease r document) h =
        if-split Inv (is_some c.rpc_keepalive) (λ e. on_lease_keepalive-Inv env c r document e h)
          (λ e. h)
    step-Inv c (deleted n r) h = on_remove_keepalive_path-Inv env c n r h

  pub run-Inv : (c : Cluster E) (calls : List (Env × Call E)) → Inv c → Inv (run c calls)
  unfolding run
  run-Inv c [] h = h
  run-Inv c ((env, call) ∷ calls) h = run-Inv (step env c call) calls (step-Inv env c call h)

  -- Whatever calls and replies a new object gets, each with whatever the outside answers: while it is
  -- closing no request for the authorization, the members or the lease is under way, and it holds
  -- no key, watcher or lease; without the HTTP client it has no lease; no actor is on a list twice;
  -- no path to delete was tried more than 8 times; and the counter of created requests is 0.
  pub cluster-Inv :
      (ks : ℕ → Kept) (ws : ℕ → Watcher E) (calls : List (Env × Call E))
      → Inv (run (create ks ws) calls)
  cluster-Inv ks ws calls = run-Inv (create ks ws) calls (create-Inv ks ws)

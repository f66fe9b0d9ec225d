-- ===== src/Etcd/Cluster/Pending.antt =====
-- What becomes of keys that are retried, and what waits for a token.
use atsf4g_co.Base.{
  ℕ, ◌≡◌, refl, ap, ◌∙◌, true, false, not, ◌||◌, none, List, [], ◌∷◌, ltb, ◌==◌, if◌then◌else◌,
  is_some, arith, if-split,
}
use atsf4g_co.Etcd.Keepalive as K
use atsf4g_co.Etcd.Keepalive.{Text, Keepalive, Request, same_text}
use atsf4g_co.Etcd.Cluster.{
  Env, Deletor, Cluster, is_empty, open_request, check_authorization, add_stats_error_request,
  add_stats_create_request,
}
use atsf4g_co.Etcd.Cluster.Actors.{
  owner, reactivate, activate_watcher, activate_watchers, try_delete, remove_keepalive_path,
  remove_paths, retry_pending_actions,
}
use atsf4g_co.Etcd.Cluster.Members.{
  create_request_member_update, ask_members, create_request_auth_authenticate, ask_auth, tick,
}
use atsf4g_co.Etcd.Cluster.Keeps.{
  Keeps, Each-trivial, retry_pending_actions-keeps, open_request-keepalives, enable-keepalives,
  remove_path-keepalives,
}

active-idle :
    (o : K.Owner) (k : Keepalive)
    → o.creates_get ≡ false
    → o.creates_set ≡ false
    → k.rpc_opr ≡ none
    → (K.active o k).rpc_opr ≡ none
unfolding K.active K.process K.start K.choose K.prepare
active-idle o k g s idle = ground arith

module _ {E : Type 0} (env : Env) where
  -- While no request can be made, a key without one stays without.
  idle-Keeps :
      (i : ℕ)
      → ((n : ℕ) → env.created n ≡ false)
      → Keeps env (λ (c : Cluster E). (c.keepalives i).keep.rpc_opr ≡ none) (λ d. Unit)
  unfolding K.reset_value_changed
  idle-Keeps i fails = record {
    opens = λ c h. ap (λ f. (f i).keep.rpc_opr) (open_request-keepalives env c) ∙ h;
    enables = λ c h. ap (λ f. (f i).keep.rpc_opr) (enable-keepalives env c true) ∙ h;
    activates = λ (c from : Cluster E) j h.
        ground (arith, fails from.requests, active-idle (owner env from) (c.keepalives i).keep);
    resets = λ (c : Cluster E) j h. ground arith;
    watches = λ (c : Cluster E) j w h. h;
    retries = λ (c : Cluster E) j running new h. h;
    settles = λ (c : Cluster E) h. h;
    tried = λ (c : Cluster E) h. Each-trivial c.deletors;
    empties = λ (c : Cluster E) h. h;
    removes = λ c d t h. ap (λ f. (f i).keep.rpc_opr) (remove_path-keepalives env c d) ∙ h;
  }

  watchers-retry_actors :
      (is : List ℕ) (c : Cluster E) → (activate_watchers env is c).retry_actors ≡ c.retry_actors
  unfolding activate_watchers activate_watcher open_request
  watchers-retry_actors [] c = refl
  watchers-retry_actors (i ∷ is) c =
      ground (arith, watchers-retry_actors is (activate_watcher env c i))

  paths-retry_actors :
      (ds : List Deletor) (c : Cluster E) → (remove_paths env ds c).retry_actors ≡ c.retry_actors
  unfolding remove_paths remove_keepalive_path try_delete open_request
  paths-retry_actors [] c = refl
  paths-retry_actors (d ∷ ds) c =
      ground (arith, paths-retry_actors ds (remove_keepalive_path env c d false))

  -- While there is a lease, a round of retries empties the list of the keys to retry, whatever
  -- comes of it: of the keys that had no request under way and for which none can be made in this
  -- round, none is on the list afterwards, and none has a request.
  pub retry-forgets :
      (c : Cluster E) (i : ℕ)
      → (c.lease == 0) ≡ false
      → ((n : ℕ) → env.created n ≡ false)
      → (c.keepalives i).keep.rpc_opr ≡ none
      → let c' = retry_pending_actions env c in
        (c'.retry_actors ≡ []) × ((c'.keepalives i).keep.rpc_opr ≡ none)
  unfolding retry_pending_actions
  retry-forgets c i some_lease fails idle =
      let c1 = record (reactivate env c.retry_actors c) { retry_actors = [] } in
      let c2 = activate_watchers env c1.watcher_actors c1 in
      let emptied =
        paths-retry_actors c2.deletors (record c2 { deletors = [] })
        ∙ watchers-retry_actors c1.watcher_actors c1 in
      (
        rw (retry_pending_actions, some_lease) emptied,
        retry_pending_actions-keeps (idle-Keeps i fails) c idle,
      )

  -- The lease, the keys, the watchers and the paths to delete are the same.
  abbrev pub IsQuiet : Cluster E → Cluster E → Type 0
  IsQuiet c c' =
      (c'.rpc_keepalive ≡ c.rpc_keepalive)
      × (c'.lease ≡ c.lease)
      × (c'.keepalives ≡ c.keepalives)
      × (c'.retry_actors ≡ c.retry_actors)
      × (c'.watchers ≡ c.watchers)
      × (c'.deletors ≡ c.deletors)
      × (c'.deleting ≡ c.deleting)

  ask_members-IsQuiet :
      (c : Cluster E)
      → let c' = (ask_members env c).0 in
        IsQuiet c c' × (check_authorization c' ≡ check_authorization c)
  unfolding ask_members open_request add_stats_error_request add_stats_create_request
      check_authorization
  ask_members-IsQuiet c = ground arith

  member_update-IsQuiet :
      (c : Cluster E)
      → let c' = (create_request_member_update env c).0 in
        IsQuiet c c' × (check_authorization c' ≡ check_authorization c)
  unfolding create_request_member_update
  member_update-IsQuiet c = ground (arith, ask_members-IsQuiet c)

  authenticate-IsQuiet : (c : Cluster E) → IsQuiet c (create_request_auth_authenticate env c).0
  unfolding create_request_auth_authenticate ask_auth open_request add_stats_error_request
      add_stats_create_request
  authenticate-IsQuiet c = ground arith

  -- Without a token, where one is needed, `tick` asks for the members and for a token at most: the
  -- lease, the keys, the watchers and the paths to delete are as before.
  pub tick-IsQuiet : (c : Cluster E) → check_authorization c ≡ false → IsQuiet c (tick env c)
  unfolding tick
  tick-IsQuiet c unknown =
      let c1 = if ltb c.members_next env.now then (create_request_member_update env c).0 else c in
      let (quiet, same) : IsQuiet c c1 × (check_authorization c1 ≡ check_authorization c) =
        if-split (λ (x : Cluster E). IsQuiet c x × (check_authorization x ≡ check_authorization c))
          (ltb c.members_next env.now) (λ e. member_update-IsQuiet c) (λ e. ground arith) in
      let asked = authenticate-IsQuiet c1 in
      let still = same ∙ unknown in
      if-split (IsQuiet c) (not c.has_multi || c.closing) (λ e. ground arith)
        λ e.
          if-split (IsQuiet c) (is_empty c1.path_node) (λ f. quiet)
            λ f.
              rw still (
                if-split (IsQuiet c) (is_some c1.rpc_authenticate) (λ g. quiet) (λ g. ground arith))

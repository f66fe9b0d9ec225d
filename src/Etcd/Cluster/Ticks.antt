-- ===== src/Etcd/Cluster/Ticks.antt =====
-- The invariant of `etcd_cluster` over `tick` and the requests that it makes.
use atsf4g_co.Base.{
  ◌+◌, ◌≡◌, true, false, not, ◌&&◌, ◌||◌, ltb, ◌==◌, if◌then◌else◌, is_some, arith, if-split,
}
use atsf4g_co.Etcd.Keepalive.{Text}
use atsf4g_co.Etcd.Cluster.{
  Env, Cluster, AuthCall, authenticate, user_get, codes, is_empty, open_request,
  create_request_lease_keepalive, add_stats_error_request, check_authorization,
}
use atsf4g_co.Etcd.Cluster.Actors.{retry_pending_actions}
use atsf4g_co.Etcd.Cluster.Members.{
  ask_auth, create_request_auth_authenticate, create_request_auth_user_get, ask_members,
  create_request_member_update, select_node, hurry_member_update, leave_node,
  retry_request_member_update, tick_lease, tick,
}
use atsf4g_co.Etcd.Cluster.Keeps.{retry_pending_actions-keeps}
use atsf4g_co.Etcd.Cluster.Life.{
  Inv, create_request_lease_grant-Inv, create_request_lease_keepalive-Inv, Inv-Keeps,
}

module _ {E : Type 0} (env : Env) where
  ask_auth-Inv :
      (c : Cluster E) (call : AuthCall) (api : Text)
      → c.closing ≡ false
      → Inv c
      → Inv (ask_auth env c call api).0
  unfolding ask_auth open_request add_stats_error_request
  ask_auth-Inv c call api running h = ground arith

  create_request_auth_authenticate-Inv :
      (c : Cluster E) → Inv c → Inv (create_request_auth_authenticate env c).0
  unfolding create_request_auth_authenticate
  create_request_auth_authenticate-Inv c h = ground (
    arith,
    ask_auth-Inv (record c { authorization_next = env.now + c.authorization_retry }) authenticate
        (codes "/v3/auth/authenticate"),
  )

  create_request_auth_user_get-Inv :
      (c : Cluster E) → Inv c → Inv (create_request_auth_user_get env c).0
  unfolding create_request_auth_user_get
  create_request_auth_user_get-Inv c h = ground (
    arith,
    ask_auth-Inv (record c { user_get_next = env.now + c.user_get_retry }) user_get
        (codes "/v3/auth/user/get"),
  )

  ask_members-Inv : (c : Cluster E) → c.closing ≡ false → Inv c → Inv (ask_members env c).0
  unfolding ask_members open_request add_stats_error_request
  ask_members-Inv c running h = ground arith

  create_request_member_update-Inv :
      (c : Cluster E) → Inv c → Inv (create_request_member_update env c).0
  unfolding create_request_member_update
  create_request_member_update-Inv c h = ground (arith, ask_members-Inv c)

  hurry_member_update-Inv : (c : Cluster E) → Inv c → Inv (hurry_member_update env c).0
  unfolding hurry_member_update
  hurry_member_update-Inv c h = ground (arith, create_request_member_update-Inv c)

  leave_node-Inv : (c : Cluster E) → Inv c → Inv (leave_node env c)
  unfolding leave_node select_node
  leave_node-Inv c h = ground arith

  pub retry_request_member_update-Inv :
      (c : Cluster E) (url : Text) → Inv c → Inv (retry_request_member_update env c url).0
  unfolding retry_request_member_update
  retry_request_member_update-Inv c url h = ground (
    arith,
    leave_node-Inv c,
    hurry_member_update-Inv c,
    hurry_member_update-Inv (leave_node env c),
  )

  pub retry_pending_actions-Inv : (c : Cluster E) → Inv c → Inv (retry_pending_actions env c)
  retry_pending_actions-Inv c h = retry_pending_actions-keeps (Inv-Keeps env) c h

  tick_lease-Inv : (c : Cluster E) → Inv c → Inv (tick_lease env c)
  unfolding tick_lease
  tick_lease-Inv c h =
      let renewed = (create_request_lease_keepalive env c).0 in
      if-split Inv c.enable_lease
        (λ e.
          if-split Inv (c.lease == 0) (λ e. create_request_lease_grant-Inv env c h)
            λ e.
              if-split Inv (ltb c.keepalive_next env.now)
                (λ e.
                  retry_pending_actions-Inv renewed (create_request_lease_keepalive-Inv env c h))
                (λ e. retry_pending_actions-Inv c h))
        (λ e. retry_pending_actions-Inv (record c { running = true }) (ground arith))

  pub tick-Inv : (c : Cluster E) → Inv c → Inv (tick env c)
  unfolding tick
  tick-Inv c h =
      let c1 = if ltb c.members_next env.now then (create_request_member_update env c).0 else c in
      let h1 : Inv c1 =
        if-split Inv (ltb c.members_next env.now) (λ e. create_request_member_update-Inv c h)
          (λ e. h) in
      let asked : Inv (
          if is_some c1.rpc_authenticate then c1 else (create_request_auth_authenticate env c1).0) =
        if-split Inv (is_some c1.rpc_authenticate) (λ e. h1)
          (λ e. create_request_auth_authenticate-Inv c1 h1) in
      if-split Inv (not c.has_multi || c.closing) (λ e. h)
        λ e.
          if-split Inv (is_empty c1.path_node) (λ e. h1)
            λ e.
              if-split Inv (not (check_authorization c1)) (λ e. asked)
                λ e.
                  if-split Inv
                    (not (is_empty c1.authorization) && not (is_some c1.rpc_authenticate))
                    (λ e. tick_lease-Inv _ (create_request_auth_user_get-Inv c1 h1))
                    (λ e. tick_lease-Inv c1 h1)

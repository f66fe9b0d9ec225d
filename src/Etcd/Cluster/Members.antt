-- ===== src/Etcd/Cluster/Members.antt =====
-- The hosts of `etcd_cluster`, its authorization, and `tick` (component/etcdcli/etcd_cluster.cpp).
use atsf4g_co.Base.{
  ℕ, zero, suc, ◌+◌, is_zero, Bool, true, false, not, ◌&&◌, ◌||◌, Option, none, some, List, [], ◌∷◌,
  ◌++◌, ltb, leb, ◌==◌, if◌then◌else◌, is_some,
}
use atsf4g_co.Base.Lists.{length}
use atsf4g_co.Etcd.Keepalive.{Text, same_text}
use atsf4g_co.Etcd.Cluster.{
  Env, AuthCall, authenticate, user_get, Cluster, codes, is_empty, at_least_1,
  add_stats_error_request, check_authorization, open_request, create_request_lease_grant,
  create_request_lease_keepalive,
}
use atsf4g_co.Etcd.Cluster.Actors.{last, but_last, retry_pending_actions}

-- `strncasecmp(node, url, node.size()) == 0`
abbrev lower : ℕ → ℕ
lower c = if leb 65 c && leb c 90 then c + 32 else c

unfoldable pub starts_url : Text → Text → Bool
starts_url [] url = true
starts_url (c ∷ node) [] = false
starts_url (c ∷ node) (d ∷ url) = lower c == lower d && starts_url node url

-- The loop of `retry_request_member_update`, run as often as there are hosts: a host that is the node
-- is swapped with the last, the last is dropped, and the loop goes on after the place.
unfoldable pub drop_node : ℕ → Text → List Text → List Text
drop_node zero node hosts = hosts
drop_node (suc n) node [] = []
drop_node (suc n) node (h ∷ hs) =
    let kept = drop_node n node hs in
    let swapped : List Text = elim hs [
      | [] ↦ []
      | k ∷ ks ↦ last k ks ∷ drop_node n node (but_last k ks)
    ] in
    if same_text h node then swapped else h ∷ kept

-- `find(':')` and what is before it, and behind it
abbrev before_colon : Text → Text
before_colon [] = []
before_colon (c ∷ cs) = let rest = before_colon cs in if c == 58 then [] else c ∷ rest

abbrev after_colon : Text → Option Text
after_colon [] = none
after_colon (c ∷ cs) = let rest = after_colon cs in if c == 58 then some cs else rest

-- `pick_conf_authorization`: the name, and the password, which stays as it was where there is none
abbrev pick_conf_authorization : Text → Text → Text × Text
pick_conf_authorization authorization password = (
  before_colon authorization,
  elim (after_colon authorization) [
    | none ↦ password
    | some p ↦ if is_empty p then password else p
  ],
)

module _ {E : Type 0} (env : Env) where
  -- The end of `create_request_auth_authenticate` and of `create_request_auth_user_get`
  unfoldable pub ask_auth : Cluster E → AuthCall → Text → Cluster E × Bool
  ask_auth c call api =
      let r = open_request env c in
      elim r.1 [
        | none ↦ (r.0, is_some c.rpc_authenticate)
        | some res ↦
            if is_zero res
            then (record r.0 { rpc_authenticate = some (call, c.path_node ++ api) }, true)
            else (add_stats_error_request r.0, false)
      ]

  -- `create_request_auth_authenticate`
  unfoldable pub create_request_auth_authenticate : Cluster E → Cluster E × Bool
  create_request_auth_authenticate c =
      if not c.has_multi || (c.closing || is_empty c.path_node)
      then (c, false)
      else if is_empty c.authorization
      then (record c { header = [] }, false)
      else if is_some c.rpc_authenticate || leb env.now c.authorization_next
      then (c, false)
      else ask_auth (record c { authorization_next = env.now + c.authorization_retry }) authenticate
          (codes "/v3/auth/authenticate")

  -- `create_request_auth_user_get`
  unfoldable pub create_request_auth_user_get : Cluster E → Cluster E × Bool
  create_request_auth_user_get c =
      if not c.has_multi || (c.closing || is_empty c.path_node)
      then (c, false)
      else if is_empty c.authorization
      then (c, false)
      else if is_some c.rpc_authenticate || leb env.now c.user_get_next
      then (c, false)
      else ask_auth (record c { user_get_next = env.now + c.user_get_retry }) user_get
          (codes "/v3/auth/user/get")

  -- The end of `create_request_member_update`: the host is chosen and asked.
  unfoldable pub ask_members : Cluster E → Cluster E × Bool
  ask_members c =
      let host = env.pick c.picks (if is_empty c.hosts then c.conf_hosts else c.hosts) in
      let r =
        open_request env (record c {
          members_next = env.now + at_least_1 c.members_update;
          picks = c.picks + 1;
        }) in
      elim r.1 [
        | none ↦ (r.0, true)
        | some res ↦
            if is_zero res
            then (
              record r.0 { rpc_update_members = some (host ++ codes "/v3/cluster/member/list") },
              true,
            )
            else (add_stats_error_request r.0, false)
      ]

  -- `create_request_member_update`
  unfoldable pub create_request_member_update : Cluster E → Cluster E × Bool
  create_request_member_update c =
      if not c.has_multi || c.closing
      then (c, false)
      else if is_some c.rpc_update_members
      then (c, false)
      else if is_empty c.conf_hosts && is_empty c.hosts
      then (c, false)
      else ask_members c

  -- `path_node = hosts[random_between(0, hosts.size())]`
  unfoldable pub select_node : Cluster E → Cluster E
  select_node c = record c { path_node = env.pick c.picks c.hosts; picks = c.picks + 1 }

  -- `retry_request_member_update` once the bad host is gone
  unfoldable pub hurry_member_update : Cluster E → Cluster E × Bool
  hurry_member_update c =
      if ltb (env.now + c.members_retry) c.members_next
      then (record c { members_next = env.now + c.members_retry }, false)
      else if leb env.now c.members_next
      then (c, false)
      else create_request_member_update c

  -- Its first part: the node that did not answer is left.
  unfoldable pub leave_node : Cluster E → Cluster E
  leave_node c =
      let c1 = record c { hosts = drop_node (length c.hosts) c.path_node c.hosts } in
      if is_empty c1.hosts then record c1 { path_node = [] } else select_node c1

  -- `retry_request_member_update`
  unfoldable pub retry_request_member_update : Cluster E → Text → Cluster E × Bool
  retry_request_member_update c bad_url =
      if not (is_empty c.path_node) && starts_url c.path_node bad_url
      then hurry_member_update (leave_node c)
      else hurry_member_update c

  -- `tick` once there is a node and an authorization: the lease, and what is pending
  unfoldable pub tick_lease : Cluster E → Cluster E
  tick_lease c =
      let renewed = (create_request_lease_keepalive env c).0 in
      if c.enable_lease
      then (if c.lease == 0
          then (create_request_lease_grant env c).0
          else if ltb c.keepalive_next env.now
          then retry_pending_actions env renewed
          else retry_pending_actions env c)
      else retry_pending_actions env (record c { running = true })

  -- `tick`, without the number of requests that it returns
  unfoldable pub tick : Cluster E → Cluster E
  tick c =
      let c1 = if ltb c.members_next env.now then (create_request_member_update c).0 else c in
      let asked =
        if is_some c1.rpc_authenticate then c1 else (create_request_auth_authenticate c1).0 in
      let renewed = (create_request_auth_user_get c1).0 in
      if not c.has_multi || c.closing
      then c
      else if is_empty c1.path_node
      then c1
      else if not (check_authorization c1)
      then asked
      else if not (is_empty c1.authorization) && not (is_some c1.rpc_authenticate)
      then tick_lease renewed
      else tick_lease c1

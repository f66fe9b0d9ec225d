-- ===== src/Etcd/Cluster/Answers.antt =====
-- The invariant of `etcd_cluster` over the replies to its requests.
use atsf4g_co.Base.{
  ℕ, zero, suc, ◌≡◌, true, false, not, ◌&&◌, ◌||◌, Option, none, some, List, [], ◌∷◌, ◌++◌, ◌==◌,
  is_some, inl, inr, Option-cases, arith, if-split,
}
use atsf4g_co.Etcd.Keepalive.{Text}
use atsf4g_co.Etcd.Cluster.{
  Env, Deletor, Cluster, codes, create_request_lease_grant, add_stats_error_request,
  add_stats_success_request,
}
use atsf4g_co.Etcd.Cluster.Actors.{set_lease}
use atsf4g_co.Etcd.Cluster.Members.{select_node}
use atsf4g_co.Etcd.Cluster.Replies.{
  Reply, LeaseDocument, Missing, fails, take_out, check_authorization_expired, on_failure,
  on_remove_keepalive_path, take_token, take_roles, take_members, member_hosts,
  on_auth_authenticate, on_auth_user_get, take_hosts, on_member_update, take_lease,
  on_lease_keepalive, revoke,
}
use atsf4g_co.Etcd.Cluster.Keeps.{set_lease-keeps}
use atsf4g_co.Etcd.Cluster.Life.{
  Tried, EachUnderWay, Inv, open_request-Inv, create_request_lease_grant-Inv,
  remove_keepalive_path-Inv, Inv-Keeps,
}
use atsf4g_co.Etcd.Cluster.Ticks.{
  retry_request_member_update-Inv, retry_pending_actions-Inv, tick-Inv,
}

take_out-EachUnderWay :
    (n : ℕ) (ds : List (Deletor × Text)) (found : (Deletor × Text) × List (Deletor × Text))
    → EachUnderWay ds
    → take_out n ds ≡ some found
    → Tried found.0.0 × EachUnderWay found.1
unfolding take_out EachUnderWay
take_out-EachUnderWay n [] found h e = cc
take_out-EachUnderWay zero (d ∷ ds) found h e = ground arith
take_out-EachUnderWay (suc n) (d ∷ ds) found (t, h) e = elim (Option-cases (take_out n ds)) [
  | inl none_left ↦ ground arith
  | inr (f, left) ↦ ground (arith, take_out-EachUnderWay n ds f h left)
]

module _ {E : Type 0} where
  pub expired-Inv : (c : Cluster E) (r : Reply) → Inv c → Inv (check_authorization_expired c r)
  unfolding check_authorization_expired
  expired-Inv c r h = ground arith

  add_stats_error_request-Inv : (c : Cluster E) → Inv c → Inv (add_stats_error_request c)
  unfolding add_stats_error_request
  add_stats_error_request-Inv c h = ground arith

  module _ (env : Env) where
    failure-Inv : (c : Cluster E) (url : Text) (r : Reply) → Inv c → Inv (on_failure env c url r)
    failure-Inv c url r h =
        add_stats_error_request-Inv _
          (if-split Inv r.network_error (λ e. retry_request_member_update-Inv env c url h) (λ e. h))

    pub on_remove_keepalive_path-Inv :
        (c : Cluster E) (n : ℕ) (r : Reply) → Inv c → Inv (on_remove_keepalive_path env c n r)
    unfolding on_remove_keepalive_path
    on_remove_keepalive_path-Inv c n r h = elim (Option-cases (take_out n c.deleting)) [
      | inl e ↦ rw (e, on_remove_keepalive_path) h
      | inr (found, e) ↦
          let (t, rest) = take_out-EachUnderWay n c.deleting found h.under_way e in
          let c1 = record c { deleting = found.1 } in
          let h1 : Inv c1 = (ground arith) in
          rw (e, on_remove_keepalive_path)
            (if-split Inv (r.network_error || (not r.success_code && not (r.code == 404)))
              (λ f.
                remove_keepalive_path-Inv env _ found.0.0 true t
                  (expired-Inv _ r (failure-Inv c1 found.0.1 r h1)))
              (λ f. h1))
    ]

    take_token-Inv :
        (c : Cluster E) (document : Missing Text) → Inv c → Inv (take_token env c document)
    unfolding take_token add_stats_success_request
    take_token-Inv c none h = h
    take_token-Inv c (some none) h = add_stats_error_request-Inv c h
    take_token-Inv c (some (some token)) h =
        let c1 =
          add_stats_success_request (record c { header = codes "Authorization: " ++ token }) in
        let kept = retry_pending_actions-Inv env c1 (ground arith) in (ground arith)

    pub on_auth_authenticate-Inv :
        (c : Cluster E) (r : Reply) (document : Missing Text)
        → Inv c
        → Inv (on_auth_authenticate env c r document)
    unfolding on_auth_authenticate
    on_auth_authenticate-Inv c r document h =
        let c1 = record c { rpc_authenticate = none } in
        let h1 : Inv c1 = (ground arith) in
        if-split Inv (fails r) (λ e. expired-Inv _ r (failure-Inv c1 _ r h1))
          (λ e. take_token-Inv c1 document h1)

    take_roles-Inv :
        (c : Cluster E) (document : Missing (List Text)) → Inv c → Inv (take_roles env c document)
    unfolding take_roles
    take_roles-Inv c none h = h
    take_roles-Inv c (some none) h = h
    take_roles-Inv c (some (some roles)) h = ground arith

    pub on_auth_user_get-Inv :
        (c : Cluster E) (r : Reply) (document : Missing (List Text))
        → Inv c
        → Inv (on_auth_user_get env c r document)
    unfolding on_auth_user_get
    on_auth_user_get-Inv c r document h =
        let c1 = record c { rpc_authenticate = none } in
        let h1 : Inv c1 = (ground arith) in
        if-split Inv (fails r) (λ e. expired-Inv _ r (failure-Inv c1 _ r h1))
          (λ e. take_roles-Inv c1 document h1)

    take_hosts-Inv : (c : Cluster E) (hosts : List Text) → Inv c → Inv (take_hosts env c hosts)
    unfolding take_hosts select_node add_stats_success_request
    take_hosts-Inv c hosts h = tick-Inv env _ (ground arith)

    take_members-Inv :
        (c : Cluster E) (document : Missing (List (Option (List Text))))
        → Inv c
        → Inv (take_members env c document)
    unfolding take_members
    take_members-Inv c none h = h
    take_members-Inv c (some none) h = add_stats_error_request-Inv c h
    take_members-Inv c (some (some members)) h = take_hosts-Inv c (member_hosts members) h

    pub on_member_update-Inv :
        (c : Cluster E) (r : Reply) (document : Missing (List (Option (List Text))))
        → Inv c
        → Inv (on_member_update env c r document)
    unfolding on_member_update
    on_member_update-Inv c r document h =
        let c1 = record c { rpc_update_members = none } in
        let h1 : Inv c1 = (ground arith) in
        if-split Inv (fails r) (λ e. failure-Inv c1 _ r h1) (λ e. take_members-Inv c1 document h1)

    take_lease-Inv :
        (c : Cluster E) (document : Option LeaseDocument)
        → c.closing ≡ false
        → c.has_multi ≡ true
        → Inv c
        → Inv (take_lease env c document)
    unfolding take_lease add_stats_success_request
    take_lease-Inv c none running online h = h
    take_lease-Inv c (some d) running online h =
        let lost = (create_request_lease_grant env (set_lease env c 0 false)).0 in
        let c1 = record (add_stats_success_request c) { running = true } in
        if-split Inv (not d.has_ttl)
          (λ e. add_stats_error_request-Inv _ (
            if-split Inv (not d.has_result) (λ f. h)
              (λ f.
                create_request_lease_grant-Inv env _
                  (set_lease-keeps (Inv-Keeps env) c 0 false (ground arith)))))
          (λ e.
            if-split Inv (d.id == 0) (λ f. add_stats_error_request-Inv c h)
              (λ f. set_lease-keeps (Inv-Keeps env) c1 d.id (not d.has_result) (ground arith)))

    pub on_lease_keepalive-Inv :
        (c : Cluster E) (r : Reply) (document : Option LeaseDocument)
        → is_some c.rpc_keepalive ≡ true
        → Inv c
        → Inv (on_lease_keepalive env c r document)
    unfolding on_lease_keepalive
    on_lease_keepalive-Inv c r document waiting h =
        let c1 = record c { rpc_keepalive = none } in
        let h1 : Inv c1 = (ground arith) in
        if-split Inv (fails r) (λ e. expired-Inv _ r (failure-Inv c1 _ r h1))
          (λ e. take_lease-Inv c1 document (ground arith) (ground arith) h1)

    pub revoke-Inv : (c : Cluster E) → Inv c → Inv (revoke env c).0
    unfolding revoke
    revoke-Inv c h = ground (arith, open_request-Inv env c)

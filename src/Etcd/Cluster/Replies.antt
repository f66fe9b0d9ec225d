-- ===== src/Etcd/Cluster/Replies.antt =====
-- The replies that `etcd_cluster` gets, its close and its reset (component/etcdcli/etcd_cluster.cpp).
use atsf4g_co.Base.{
  ℕ, zero, suc, ◌+◌, Bool, true, false, not, ◌&&◌, ◌||◌, Option, none, some, List, [], ◌∷◌, ◌++◌,
  ◌==◌, is_zero, if◌then◌else◌,
}
use atsf4g_co.Etcd.Keepalive as K
use atsf4g_co.Etcd.Keepalive.{Text, same_text}
use atsf4g_co.Etcd.Watcher as W
use atsf4g_co.Etcd.Cluster.{
  Env, Cluster, codes, is_empty, add_stats_error_request, add_stats_success_request, open_request,
  create_request_lease_grant,
}
use atsf4g_co.Etcd.Cluster.Actors.{
  put, put_watcher, remove_keepalive_path, retry_pending_actions, set_lease,
}
use atsf4g_co.Etcd.Cluster.Members.{retry_request_member_update, select_node, tick}

-- A reply: is there an error of the network, is the HTTP code one of success, the code, the text, and
-- the member "code" of the document, `none` where it does not parse or is no number
pub record Reply : Type 0 where
  pub network_error : Bool
  pub success_code : Bool
  pub code : ℕ
  pub content : Text
  pub error_code : Option ℕ

abbrev pub fails : Reply → Bool
fails r = r.network_error || not r.success_code

abbrev begins : Text → Text → Bool
begins [] text = true
begins (c ∷ word) [] = false
begins (c ∷ word) (d ∷ text) = c == d && begins word text

-- `content.find(word) != npos`
abbrev contains : Text → Text → Bool
contains word [] = is_empty word
contains word (c ∷ text) = begins word (c ∷ text) || contains word text

-- The document of a reply about the lease: is there a member "result", and in it, or else in the whole
-- document, a member "TTL", and which "ID"
pub record LeaseDocument : Type 0 where
  pub has_result : Bool
  pub has_ttl : Bool
  pub id : ℕ

-- What the functions that follow do to a document: `none` is one that does not parse, and each part
-- is `none` where it is missing.
abbrev pub Missing : Type 0 → Type 0
Missing A = Option (Option A)

-- The "clientURLs" of the members that have them, less the empty ones
abbrev some_urls : List Text → List Text
some_urls [] = []
some_urls (u ∷ us) = let rest = some_urls us in if is_empty u then rest else u ∷ rest

unfoldable pub member_hosts : List (Option (List Text)) → List Text
member_hosts [] = []
member_hosts (none ∷ ms) = member_hosts ms
member_hosts (some us ∷ ms) = some_urls us ++ member_hosts ms

unfoldable pub has_host : Text → List Text → Bool
has_host node [] = false
has_host node (h ∷ hs) = same_text node h || has_host node hs

-- The deletor whose request is the n-th, and the others
unfoldable pub take_out : {A : Type 0} → ℕ → List A → Option (A × List A)
take_out n [] = none
take_out zero (a ∷ rest) = some (a, rest)
take_out (suc n) (a ∷ rest) = elim (take_out n rest) [
  | none ↦ none
  | some found ↦ some (found.0, a ∷ found.1)
]

module _ {E : Type 0} where
  -- `check_authorization_expired`
  unfoldable pub check_authorization_expired : Cluster E → Reply → Cluster E
  check_authorization_expired c r =
      let expired =
        r.code == 401
        || (elim r.error_code [ none ↦ false | some n ↦ n == 16 ]
            || ((r.code == 400 || r.code == 412) && contains (codes "authenticat") r.content)) in
      if expired then record c { header = [] } else c

  -- The keys and the watchers of a list are closed.
  unfoldable pub close_keepalives : List ℕ → Cluster E → Cluster E
  close_keepalives [] c = c
  close_keepalives (i ∷ is) c = close_keepalives is (put c i (K.close (c.keepalives i).keep false))

  unfoldable pub close_watchers : List ℕ → Cluster E → Cluster E
  close_watchers [] c = c
  close_watchers (i ∷ is) c = close_watchers is (put_watcher c i (W.close (c.watchers i)))

  module _ (env : Env) where
    -- A request failed: only an error of the network makes the members be asked for again.
    abbrev pub on_failure : Cluster E → Text → Reply → Cluster E
    on_failure c url r =
        let c1 = if r.network_error then (retry_request_member_update env c url).0 else c in
        add_stats_error_request c1

    -- `libcurl_callback_on_remove_keepalive_path`, for the n-th of the deletors under way
    unfoldable pub on_remove_keepalive_path : Cluster E → ℕ → Reply → Cluster E
    on_remove_keepalive_path c n r = elim (take_out n c.deleting) [
      | none ↦ c
      | some found ↦
          let c1 = record c { deleting = found.1 } in
          let d = found.0.0 in
          if r.network_error || (not r.success_code && not (r.code == 404))
          then remove_keepalive_path env (check_authorization_expired (on_failure c1 found.0.1 r) r)
              d true
          else c1
    ]

    -- `libcurl_callback_on_auth_authenticate` for a document, with the member "token"
    unfoldable pub take_token : Cluster E → Missing Text → Cluster E
    take_token c none = c
    take_token c (some none) = add_stats_error_request c
    take_token c (some (some token)) =
        let c1 =
          add_stats_success_request (record c { header = codes "Authorization: " ++ token }) in
        record (retry_pending_actions env c1) { user_get_next = env.now + c.user_get_retry }

    -- `libcurl_callback_on_auth_authenticate`
    unfoldable pub on_auth_authenticate : Cluster E → Reply → Missing Text → Cluster E
    on_auth_authenticate c r document =
        let url : Text = elim c.rpc_authenticate [ none ↦ [] | some call ↦ call.1 ] in
        let c1 = record c { rpc_authenticate = none } in
        if fails r
        then check_authorization_expired (on_failure c1 url r) r
        else take_token c1 document

    -- `libcurl_callback_on_auth_user_get`, with the strings of the member "roles". `is_success` is
    -- never set, so that nothing is counted or retried.
    unfoldable pub take_roles : Cluster E → Missing (List Text) → Cluster E
    take_roles c none = c
    take_roles c (some none) = c
    take_roles c (some (some roles)) = record c { roles = roles }

    -- `libcurl_callback_on_auth_user_get`
    unfoldable pub on_auth_user_get : Cluster E → Reply → Missing (List Text) → Cluster E
    on_auth_user_get c r document =
        let url : Text = elim c.rpc_authenticate [ none ↦ [] | some call ↦ call.1 ] in
        let c1 = record c { rpc_authenticate = none } in
        if fails r
        then check_authorization_expired (on_failure c1 url r) r
        else take_roles c1 document

    -- `libcurl_callback_on_member_update` for the hosts of a reply
    unfoldable pub take_hosts : Cluster E → List Text → Cluster E
    take_hosts c hosts =
        let c1 = record c { hosts = hosts } in
        let c2 = if is_empty hosts || has_host c.path_node hosts then c1 else select_node env c1 in
        tick env (add_stats_success_request c2)

    -- For a document, with the member "members" and the "clientURLs" of each
    unfoldable pub take_members : Cluster E → Missing (List (Option (List Text))) → Cluster E
    take_members c none = c
    take_members c (some none) = add_stats_error_request c
    take_members c (some (some members)) = take_hosts c (member_hosts members)

    -- `libcurl_callback_on_member_update`
    unfoldable pub on_member_update :
        Cluster E → Reply → Missing (List (Option (List Text))) → Cluster E
    on_member_update c r document =
        let url : Text = elim c.rpc_update_members [ none ↦ [] | some u ↦ u ] in
        let c1 = record c { rpc_update_members = none } in
        if fails r then on_failure c1 url r else take_members c1 document

    -- `libcurl_callback_on_lease_keepalive` for a document
    unfoldable pub take_lease : Cluster E → Option LeaseDocument → Cluster E
    take_lease c none = c
    take_lease c (some d) =
        let is_grant = not d.has_result in
        let lost = (create_request_lease_grant env (set_lease env c 0 false)).0 in
        if not d.has_ttl
        then add_stats_error_request (if is_grant then c else lost)
        else if d.id == 0
        then add_stats_error_request c
        else set_lease env (record (add_stats_success_request c) { running = true }) d.id is_grant

    -- `libcurl_callback_on_lease_keepalive`
    unfoldable pub on_lease_keepalive : Cluster E → Reply → Option LeaseDocument → Cluster E
    on_lease_keepalive c r document =
        let url : Text = elim c.rpc_keepalive [ none ↦ [] | some call ↦ call.1 ] in
        let c1 = record c { rpc_keepalive = none } in
        if fails r
        then check_authorization_expired (on_failure c1 url r) r
        else take_lease c1 document

    -- `create_request_lease_revoke`, started: is the request running? It is where its `start`
    -- returned 0.
    unfoldable pub revoke : Cluster E → Cluster E × Bool
    revoke c =
        let r = open_request env c in
        if not c.has_multi || (c.lease == 0 || is_empty c.path_node)
        then (c, false)
        else (r.0, elim r.1 [ none ↦ false | some res ↦ is_zero res ])

    -- The end of `close`
    unfoldable pub finish_close : Cluster E → Cluster E × Bool
    finish_close c =
        let r = revoke c in
        if c.has_multi && not (c.lease == 0) then (record r.0 { lease = 0 }, r.1) else (c, false)

    -- `close`: the object, and whether the request to revoke the lease is returned, which is so
    -- while it is running
    unfoldable pub close : Cluster E → Cluster E × Bool
    close c =
        let c1 = record c {
          closing = true;
          rpc_keepalive = none;
          deletors = [];
          rpc_update_members = none;
          rpc_authenticate = none;
        } in
        let c2 = record (close_keepalives c1.keepalive_actors c1) {
          keepalive_actors = [];
          retry_actors = [];
        } in
        let c3 = record (close_watchers c2.watcher_actors c2) { watcher_actors = [] } in
        finish_close c3

    -- `reset`
    unfoldable pub reset : Cluster E → Cluster E
    reset c = record (close c).0 {
      has_multi = false;
      closing = false;
      running = false;
      enable_lease = false;
      roles = [];
      header = [];
      authorization_next = 0;
      authorization_retry = 5;
      user_get_next = 0;
      user_get_retry = 120;
      path_node = [];
      members_next = 0;
      members_update = 300;
      members_retry = 60;
      lease = 0;
      keepalive_next = 0;
      keepalive_interval = 5;
    }

-- ===== src/Etcd/Cluster/Nodes.antt =====
-- Which host `etcd_cluster` talks to.
use mathlib.Core.Path.{subst}
use atsf4g_co.Base.{
  ℕ, zero, suc, ◌≤◌, ◌≡◌, refl, sym, true, false, List, [], ◌∷◌, ◌++◌, inl, inr, Bool-cases, ◌⊎◌,
  arith,
}
use atsf4g_co.Base.Lists.{length}
use atsf4g_co.Etcd.Keepalive.{Text, same_text}
use atsf4g_co.Etcd.Cluster.{
  Env, Cluster, is_empty, open_request, add_stats_error_request, add_stats_create_request,
}
use atsf4g_co.Etcd.Cluster.Actors.{last, but_last}
use atsf4g_co.Etcd.Cluster.Members.{
  starts_url, drop_node, select_node, ask_members, create_request_member_update,
  hurry_member_update, leave_node, retry_request_member_update,
}
use atsf4g_co.Etcd.Cluster.Replies.{has_host}

same_text-eq : (s t : Text) → same_text s t ≡ true → s ≡ t
unfolding same_text
same_text-eq [] [] e = refl
same_text-eq [] (y ∷ ys) e = cc
same_text-eq (x ∷ xs) [] e = cc
same_text-eq (x ∷ xs) (y ∷ ys) e = ground (arith, same_text-eq xs ys)

same_text_comm : (s t : Text) → same_text s t ≡ same_text t s
unfolding same_text
same_text_comm [] [] = refl
same_text_comm [] (y ∷ ys) = refl
same_text_comm (x ∷ xs) [] = refl
same_text_comm (x ∷ xs) (y ∷ ys) = ground (arith, same_text_comm xs ys)

-- No host is listed twice.
abbrev IsDistinctHosts : List Text → Type 0
IsDistinctHosts [] = Unit
IsDistinctHosts (h ∷ hs) = (has_host h hs ≡ false) × IsDistinctHosts hs

has_host-last :
    (node k : Text) (ks : List Text)
    → has_host node (last k ks ∷ but_last k ks) ≡ has_host node (k ∷ ks)
unfolding has_host
has_host-last node k [] = refl
has_host-last node k (l ∷ ls) = ground (arith, has_host-last node l ls)

drop_node-absent :
    (n : ℕ) (node : Text) (hs : List Text) → has_host node hs ≡ false → drop_node n node hs ≡ hs
unfolding drop_node has_host
drop_node-absent zero node hs a = refl
drop_node-absent (suc n) node [] a = refl
drop_node-absent (suc n) node (h ∷ hs) a =
    ground (arith, same_text_comm node h, drop_node-absent n node hs)

drop_node-gone :
    (n : ℕ) (node : Text) (hs : List Text)
    → IsDistinctHosts hs
    → length hs ≤ n
    → has_host node (drop_node n node hs) ≡ false
unfolding drop_node has_host length
drop_node-gone zero node [] d le = refl
drop_node-gone zero node (h ∷ hs) d le = absurd (omega arith)
drop_node-gone (suc n) node [] d le = refl
drop_node-gone (suc n) node (h ∷ []) d le =
    ground (arith, same_text_comm node h, drop_node-gone n node [])
drop_node-gone (suc n) node (h ∷ (k ∷ ks)) (out, d) le = elim (Bool-cases (same_text h node)) [
  | inl e ↦
      let absent : has_host node (k ∷ ks) ≡ false =
        subst (λ x. has_host x (k ∷ ks) ≡ false) (same_text-eq h node e) out in
      rw e (ground (arith, has_host-last node k ks, drop_node-absent n node (but_last k ks)))
  | inr e ↦ rw e (ground (arith, same_text_comm node h, drop_node-gone n node (k ∷ ks) d))
]

starts_url-append : (node api : Text) → starts_url node (node ++ api) ≡ true
unfolding starts_url
starts_url-append [] api = refl
starts_url-append (c ∷ node) api = ground (arith, starts_url-append node api)

-- `random_between` chooses one of the hosts, where there is any.
abbrev pub IsFair : Env → Type 0
IsFair env = (n : ℕ) (hs : List Text) → is_empty hs ≡ false → has_host (env.pick n hs) hs ≡ true

absent_other :
    (node other : Text) (hs : List Text)
    → has_host node hs ≡ false
    → has_host other hs ≡ true
    → same_text other node ≡ false
absent_other node other hs absent there = elim (Bool-cases (same_text other node)) [
  | inl e ↦
      let same = same_text-eq other node e in
      let clash : has_host node hs ≡ true = subst (λ x. has_host x hs ≡ true) same there in (cc)
  | inr e ↦ e
]

is_empty-eq : {A : Type 0} (l : List A) → is_empty l ≡ true → l ≡ []
is_empty-eq [] e = refl
is_empty-eq (x ∷ xs) e = cc

module _ {E : Type 0} (env : Env) where
  hurry-node :
      (c : Cluster E)
      → let c' = (hurry_member_update env c).0 in
        (c'.path_node ≡ c.path_node) × (c'.hosts ≡ c.hosts)
  unfolding hurry_member_update create_request_member_update ask_members open_request
      add_stats_error_request add_stats_create_request
  hurry-node c = ground arith

  -- The node is not among the hosts, and another one is the node, or none is left.
  abbrev pub IsLeft : Cluster E → Text → List Text → Type 0
  IsLeft c node hosts =
      (has_host c.path_node hosts ≡ false)
      × (((hosts ≡ []) × (node ≡ []))
          ⊎ ((has_host node hosts ≡ true) × (same_text node c.path_node ≡ false)))

  leave_node-IsLeft :
      (c : Cluster E)
      → IsFair env
      → IsDistinctHosts c.hosts
      → IsLeft c (leave_node env c).path_node (leave_node env c).hosts
  unfolding leave_node select_node
  leave_node-IsLeft c fair distinct =
      let hosts = drop_node (length c.hosts) c.path_node c.hosts in
      let gone = drop_node-gone (length c.hosts) c.path_node c.hosts distinct (omega arith) in
      elim (Bool-cases (is_empty hosts)) [
        | inl e ↦ rw (leave_node, e) (gone, inl (is_empty-eq hosts e, refl))
        | inr e ↦
            let there = fair c.picks hosts e in
            rw (leave_node, e)
              (
                gone,
                inr (there, absent_other c.path_node (env.pick c.picks hosts) hosts gone there),
              )
      ]

  -- A request to the node failed in the network: if no host is listed twice, the node is dropped
  -- from the hosts, and another one of them is the node from then on, or none where none is left.
  pub failure-leaves_node :
      (c : Cluster E) (api : Text)
      → IsFair env
      → IsDistinctHosts c.hosts
      → is_empty c.path_node ≡ false
      → let c' = (retry_request_member_update env c (c.path_node ++ api)).0 in
        IsLeft c c'.path_node c'.hosts
  unfolding retry_request_member_update
  failure-leaves_node c api fair distinct some_node =
      let (same_node, same_hosts) = hurry-node (leave_node env c) in
      rw (retry_request_member_update, some_node, starts_url-append c.path_node api)
        (subst (λ n. IsLeft c n (hurry_member_update env (leave_node env c)).0.hosts)
          (sym same_node)
          (subst (λ hs. IsLeft c (leave_node env c).path_node hs) (sym same_hosts)
            (leave_node-IsLeft c fair distinct)))

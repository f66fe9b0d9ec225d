-- ===== src/Etcd/Cluster/Keeps.antt =====
-- A property of the cluster that each small step keeps is kept by whole operations.
use mathlib.Core.Path.{subst}
use atsf4g_co.Base.{
  ℕ, ◌≡◌, ap, ◌∙◌, Bool, true, false, not, List, [], ◌∷◌, ◌++◌, ltb, ◌==◌, if◌then◌else◌, arith,
  if-split, ◌&&◌,
}
use atsf4g_co.Etcd.Keepalive as K
use atsf4g_co.Etcd.Keepalive.{Text}
use atsf4g_co.Etcd.Watcher.{Watcher}
use atsf4g_co.Etcd.Cluster.{
  Env, Deletor, Cluster, open_request, ask_lease, create_request_lease_grant, enable, can_request,
}
use atsf4g_co.Etcd.Cluster.Actors.{
  put, put_watcher, add_retry_keepalive, owner, asks, reaches, member, request_for, activate,
  reactivate, activate_watcher, activate_watchers, watcher_asks, try_delete, remove_keepalive_path,
  remove_paths, retry_pending_actions, set_lease,
}

-- Each deletor has the property.
unfoldable pub Each : (Deletor → Type 0) → List Deletor → Type 0
Each T [] = Unit
Each T (d ∷ ds) = T d × Each T ds

pub Each-trivial : (ds : List Deletor) → Each (λ d. Unit) ds
unfolding Each
Each-trivial [] = tt
Each-trivial (d ∷ ds) = (tt, Each-trivial ds)

pub record Keeps {E : Type 0} (env : Env) (P : Cluster E → Type 0) (T : Deletor → Type 0)
    : Type 0 where
  pub opens : (c : Cluster E) → P c → P (open_request env c).0
  pub enables : (c : Cluster E) → P c → P (enable env c true)
  pub activates :
      (c from : Cluster E) (i : ℕ)
      → P c
      → P (put c i (K.active (owner env from) (c.keepalives i).keep))
  pub resets :
      (c : Cluster E) (i : ℕ) → P c → P (put c i (K.reset_value_changed (c.keepalives i).keep))
  pub watches : (c : Cluster E) (i : ℕ) (w : Watcher E) → P c → P (put_watcher c i w)
  pub retries :
      (c : Cluster E) (i : ℕ)
      → c.closing ≡ false
      → member i c.retry_actors ≡ false
      → P c
      → P (record c { retry_actors = c.retry_actors ++ (i ∷ []) })
  pub settles : (c : Cluster E) → P c → P (record c { retry_actors = [] })
  pub tried : (c : Cluster E) → P c → Each T c.deletors
  pub empties : (c : Cluster E) → P c → P (record c { deletors = [] })
  pub removes : (c : Cluster E) (d : Deletor) → T d → P c → P (remove_keepalive_path env c d false)

module _ {E : Type 0} (env : Env) where
  open_request-closing : (c : Cluster E) → (open_request env c).0.closing ≡ c.closing
  unfolding open_request
  open_request-closing c = ground arith

  pub enable-closing : (c : Cluster E) (v : Bool) → (enable env c v).closing ≡ c.closing
  unfolding enable create_request_lease_grant ask_lease open_request
  enable-closing c v = ground arith

  enable-retry_actors : (c : Cluster E) (v : Bool) → (enable env c v).retry_actors ≡ c.retry_actors
  unfolding enable create_request_lease_grant ask_lease open_request
  enable-retry_actors c v = ground arith

  pub open_request-keepalives : (c : Cluster E) → (open_request env c).0.keepalives ≡ c.keepalives
  unfolding open_request
  open_request-keepalives c = ground arith

  pub enable-keepalives : (c : Cluster E) (v : Bool) → (enable env c v).keepalives ≡ c.keepalives
  unfolding enable create_request_lease_grant ask_lease open_request
  enable-keepalives c v = ground arith

  pub remove_path-keepalives :
      (c : Cluster E) (d : Deletor)
      → (remove_keepalive_path env c d false).keepalives ≡ c.keepalives
  unfolding remove_keepalive_path try_delete open_request
  remove_path-keepalives c d = ground arith

  pub request_for-keepalives :
      (c : Cluster E) (i : ℕ) → (request_for env c i).keepalives ≡ c.keepalives
  unfolding request_for open_request
  request_for-keepalives c i = ground arith

module _ {E : Type 0} {env : Env} {P : Cluster E → Type 0} {T : Deletor → Type 0}
    (keeps : Keeps env P T) where
  request_for-keeps : (c : Cluster E) (i : ℕ) → P c → P (request_for env c i)
  unfolding request_for
  request_for-keeps c i h =
      if-split P (reaches env c (asks (owner env c) (c.keepalives i).keep)) (λ e. keeps.opens c h)
        (λ e. h)

  pub add_retry_keepalive-keeps : (c : Cluster E) (i : ℕ) → P c → P (add_retry_keepalive env c i).0
  unfolding add_retry_keepalive
  add_retry_keepalive-keeps c i h =
      if-split (λ (r : Cluster E × Bool). P r.0) c.closing (λ e. h)
        λ running.
          if-split (λ (r : Cluster E × Bool). P r.0) (member i c.retry_actors) (λ e. h)
            λ e.
              keeps.retries (enable env c true) i (enable-closing env c true ∙ running)
                (ap (member i) (enable-retry_actors env c true) ∙ e) (keeps.enables c h)

  pub activate-keeps : (c : Cluster E) (i : ℕ) → P c → P (activate env c i)
  unfolding activate
  activate-keeps c i h =
      let k = (c.keepalives i).keep in
      let k' = K.active (owner env c) k in
      let c1 = put (request_for env c i) i k' in
      let stored : P c1 =
        subst (λ f. P (put (request_for env c i) i (K.active (owner env c) (f i).keep)))
          (request_for-keepalives env c i)
          (keeps.activates (request_for env c i) c i (request_for-keeps c i h)) in
      if-split P (ltb k.retries k'.retries) (λ e. add_retry_keepalive-keeps c1 i stored)
        (λ e. stored)

  pub reactivate-keeps : (is : List ℕ) (c : Cluster E) → P c → P (reactivate env is c)
  unfolding reactivate
  reactivate-keeps [] c h = h
  reactivate-keeps (i ∷ is) c h =
      let c1 = put c i (K.reset_value_changed (c.keepalives i).keep) in
      reactivate-keeps is (activate env c1 i) (activate-keeps c1 i (keeps.resets c i h))

  activate_watcher-keeps : (c : Cluster E) (i : ℕ) → P c → P (activate_watcher env c i)
  unfolding activate_watcher
  activate_watcher-keeps c i h = keeps.watches _ i _ (
      if-split P (watcher_asks env.now (c.watchers i) && can_request c) (λ e. keeps.opens c h)
        (λ e. h))

  activate_watchers-keeps : (is : List ℕ) (c : Cluster E) → P c → P (activate_watchers env is c)
  unfolding activate_watchers
  activate_watchers-keeps [] c h = h
  activate_watchers-keeps (i ∷ is) c h =
      activate_watchers-keeps is (activate_watcher env c i) (activate_watcher-keeps c i h)

  remove_paths-keeps :
      (ds : List Deletor) (c : Cluster E) → Each T ds → P c → P (remove_paths env ds c)
  unfolding remove_paths Each
  remove_paths-keeps [] c each h = h
  remove_paths-keeps (d ∷ ds) c (t, each) h =
      remove_paths-keeps ds (remove_keepalive_path env c d false) each (keeps.removes c d t h)

  pub retry_pending_actions-keeps : (c : Cluster E) → P c → P (retry_pending_actions env c)
  unfolding retry_pending_actions
  retry_pending_actions-keeps c h =
      let c1 =
        if c.lease == 0
        then c
        else record (reactivate env c.retry_actors c) { retry_actors = [] } in
      let h1 : P c1 =
        if-split P (c.lease == 0) (λ e. h)
          (λ e. keeps.settles _ (reactivate-keeps c.retry_actors c h)) in
      let c2 = activate_watchers env c1.watcher_actors c1 in
      let h2 : P c2 = activate_watchers-keeps c1.watcher_actors c1 h1 in
      remove_paths-keeps c2.deletors (record c2 { deletors = [] }) (keeps.tried c2 h2)
        (keeps.empties c2 h2)

  -- A new lease, where the property is kept by it
  pub set_lease-keeps :
      (c : Cluster E) (v : ℕ) (force : Bool)
      → P (record c { lease = v })
      → P (set_lease env c v force)
  unfolding set_lease
  set_lease-keeps c v force h =
      let c1 = record c { lease = v } in
      if-split P (c.lease == v && (not force && not (v == 0)))
        (λ e. retry_pending_actions-keeps c1 h)
        λ e.
          if-split P (v == 0) (λ e. h)
            λ e.
              retry_pending_actions-keeps
                (reactivate env c.keepalive_actors (record c1 { retry_actors = [] }))
                (reactivate-keeps c.keepalive_actors _ (keeps.settles c1 h))

-- ===== src/Etcd/Cluster/Lease.antt =====
-- What a new lease does to the keys.
use mathlib.Core.Path.{subst}
use atsf4g_co.Base.{
  eq_self, ℕ, ◌≡◌, refl, sym, ap, ◌∙◌, pos, Bool, true, false, not, ◌&&◌, ◌||◌, none, some, List,
  [], ◌∷◌, ltb, ◌==◌, is_some, inl, inr, Bool-cases, arith, if-split,
}
use atsf4g_co.Etcd.Keepalive as K
use atsf4g_co.Etcd.Keepalive.{Keepalive, Request}
use atsf4g_co.Etcd.Cluster.{
  Env, Cluster, can_request, add_stats_success_request, open_request, ask_lease,
  create_request_lease_grant, enable,
}
use atsf4g_co.Etcd.Cluster.Actors.{
  put, member, owner, request_for, activate, reactivate, try_delete, remove_keepalive_path,
  set_lease,
}
use atsf4g_co.Etcd.Cluster.Replies.{Reply, LeaseDocument, fails, take_lease, on_lease_keepalive}
use atsf4g_co.Etcd.Cluster.Keeps.{
  Keeps, Each-trivial, open_request-keepalives, enable-keepalives, remove_path-keepalives,
  add_retry_keepalive-keeps, activate-keeps, reactivate-keeps, retry_pending_actions-keeps,
  set_lease-keeps,
}

-- A request of the key is under way, or its check has failed.
abbrev is_busy : Keepalive → Bool
is_busy k = is_some k.rpc_opr || (is_some k.fn && (k.is_check_run && not k.is_check_passed))

active-is_busy : (o : K.Owner) (k : Keepalive) → is_busy k ≡ true → is_busy (K.active o k) ≡ true
unfolding K.active K.process K.start K.choose K.prepare
active-is_busy o k h = ground arith

reset-is_busy : (k : Keepalive) → is_busy k ≡ true → is_busy (K.reset_value_changed k) ≡ true
unfolding K.reset_value_changed
reset-is_busy k h = h

active-starts :
    (o : K.Owner) (k : Keepalive)
    → o.creates_get ≡ true
    → o.creates_set ≡ true
    → o.start_result ≡ pos 0
    → is_busy (K.active o (K.reset_value_changed k)) ≡ true
unfolding K.active K.process K.start K.choose K.prepare K.reset_value_changed
active-starts o k g s r = ground arith

-- Each request is made and starts.
pub record IsWorking (env : Env) : Type 0 where
  pub creates : (n : ℕ) → env.created n ≡ true
  pub starts : (n : ℕ) → env.start_result n ≡ pos 0

-- The key's members stand in the store.
abbrev pub key_is_busy : {E : Type 0} → ℕ → Cluster E → Bool
key_is_busy i c = is_busy (c.keepalives i).keep

module _ {E : Type 0} (env : Env) where
  -- A key that is busy stays so.
  busy-Keeps : (i : ℕ) → Keeps env (λ (c : Cluster E). key_is_busy i c ≡ true) (λ d. Unit)
  busy-Keeps i = record {
    opens = λ c h. ap (λ f. is_busy (f i).keep) (open_request-keepalives env c) ∙ h;
    enables = λ c h. ap (λ f. is_busy (f i).keep) (enable-keepalives env c true) ∙ h;
    activates = λ (c from : Cluster E) j h.
        ground (arith, active-is_busy (owner env from) (c.keepalives i).keep h);
    resets = λ (c : Cluster E) j h. ground (arith, reset-is_busy (c.keepalives i).keep h);
    watches = λ (c : Cluster E) j w h. h;
    retries = λ (c : Cluster E) j running new h. h;
    settles = λ (c : Cluster E) h. h;
    tried = λ (c : Cluster E) h. Each-trivial c.deletors;
    empties = λ (c : Cluster E) h. h;
    removes = λ c d t h. ap (λ f. is_busy (f i).keep) (remove_path-keepalives env c d) ∙ h;
  }

  -- Requests can be made, for this lease.
  abbrev Ready : ℕ → Cluster E → Type 0
  Ready v c = (can_request c ≡ true) × (c.lease ≡ v) × (c.running ≡ true)

  Ready-Keeps : (v : ℕ) → Keeps env (Ready v) (λ d. Unit)
  unfolding can_request open_request enable create_request_lease_grant ask_lease
      remove_keepalive_path try_delete
  Ready-Keeps v = record {
    opens = λ (c : Cluster E) h. ground arith;
    enables = λ (c : Cluster E) h. ground arith;
    activates = λ (c from : Cluster E) j h. h;
    resets = λ (c : Cluster E) j h. h;
    watches = λ (c : Cluster E) j w h. h;
    retries = λ (c : Cluster E) j running new h. h;
    settles = λ (c : Cluster E) h. h;
    tried = λ (c : Cluster E) h. Each-trivial c.deletors;
    empties = λ (c : Cluster E) h. h;
    removes = λ (c : Cluster E) d t h. ground arith;
  }

  put_self : (c : Cluster E) (i : ℕ) (k : Keepalive) → ((put c i k).keepalives i).keep ≡ k
  put_self c i k = rw (eq_self i) refl

  activate-starts :
      (c : Cluster E) (i v : ℕ)
      → IsWorking env
      → Ready v c
      → (v == 0) ≡ false
      → key_is_busy i (activate env (put c i (K.reset_value_changed (c.keepalives i).keep)) i)
        ≡ true
  unfolding activate can_request
  activate-starts c i v works ready lease =
      let k = (c.keepalives i).keep in
      let c1 = put c i (K.reset_value_changed k) in
      let k1 = (c1.keepalives i).keep in
      let k' = K.active (owner env c1) k1 in
      let c2 = put (request_for env c1 i) i k' in
      let made : env.created c.requests ≡ true = works.creates c.requests in
      let begun : is_busy (K.active (owner env c1) (K.reset_value_changed k)) ≡ true =
        active-starts (owner env c1) k (ground arith) (ground arith) (works.starts c.requests) in
      let busy : key_is_busy i c2 ≡ true =
        ap is_busy (put_self (request_for env c1 i) i k')
        ∙ subst (λ x. is_busy (K.active (owner env c1) x) ≡ true)
            (sym (put_self c i (K.reset_value_changed k))) begun in
      if-split (λ (x : Cluster E). key_is_busy i x ≡ true) (ltb k1.retries k'.retries)
        (λ e. add_retry_keepalive-keeps (busy-Keeps i) c2 i busy) (λ e. busy)

  reactivate-starts :
      (is : List ℕ) (c : Cluster E) (i v : ℕ)
      → IsWorking env
      → Ready v c
      → (v == 0) ≡ false
      → member i is ≡ true
      → key_is_busy i (reactivate env is c) ≡ true
  unfolding reactivate can_request K.reset_value_changed
  reactivate-starts [] c i v works ready lease m = cc
  reactivate-starts (j ∷ js) c i v works ready lease m =
      let c1 = put c j (K.reset_value_changed (c.keepalives j).keep) in
      let c2 = activate env c1 j in
      elim (Bool-cases (i == j)) [
        | inl e ↦
            let same : i ≡ j = ground arith in
            reactivate-keeps (busy-Keeps i) js c2 (
              subst (λ x. key_is_busy x c2 ≡ true) (sym same)
                (activate-starts c j v works ready lease))
        | inr e ↦
            reactivate-starts js c2 i v works (activate-keeps (Ready-Keeps v) c1 j ready) lease
              (ground arith)
      ]

  set_lease-starts :
      (c : Cluster E) (v i : ℕ)
      → IsWorking env
      → Ready v (record c { lease = v })
      → (v == 0) ≡ false
      → member i c.keepalive_actors ≡ true
      → key_is_busy i (set_lease env c v true) ≡ true
  unfolding set_lease can_request
  set_lease-starts c v i works ready some_v m =
      let c1 = record c { lease = v; retry_actors = [] } in
      let started = reactivate-starts c.keepalive_actors c1 i v works ready some_v m in
      let P = λ (x : Cluster E). key_is_busy i x ≡ true in
      if-split P (c.lease == v && (not true && not (v == 0))) (λ e. ground arith)
        λ e.
          if-split P (v == 0) (λ f. ground arith)
            λ f.
              retry_pending_actions-keeps (busy-Keeps i) (reactivate env c.keepalive_actors c1)
                started

  -- A lease is granted while requests can be made and each one starts: then each key of the list has a
  -- request under way, or its check has failed; the lease is the one granted; and the cluster is
  -- running.
  pub granted-starts :
      (c : Cluster E) (r : Reply) (d : LeaseDocument) (i : ℕ)
      → IsWorking env
      → fails r ≡ false
      → d.has_result ≡ false
      → d.has_ttl ≡ true
      → (d.id == 0) ≡ false
      → can_request c ≡ true
      → member i c.keepalive_actors ≡ true
      → let c' = on_lease_keepalive env c r (some d) in
        (key_is_busy i c' ≡ true) × (c'.lease ≡ d.id) × (c'.running ≡ true)
  unfolding on_lease_keepalive take_lease add_stats_success_request can_request
  granted-starts c r d i works good grant ttl some_id open_ m =
      let c1 = record (add_stats_success_request (record c { rpc_keepalive = none })) {
        running = true;
      } in
      let ready : Ready d.id (record c1 { lease = d.id }) = (open_, refl, refl) in
      let (now_open, lease, running) = set_lease-keeps (Ready-Keeps d.id) c1 d.id true ready in
      rw (on_lease_keepalive, good, take_lease, ttl, some_id, grant)
        (set_lease-starts c1 d.id i works ready some_id m, lease, running)

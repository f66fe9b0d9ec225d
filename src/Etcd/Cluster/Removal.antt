-- ===== src/Etcd/Cluster/Removal.antt =====
-- What becomes of keys that are removed, and of paths that are being deleted.
use atsf4g_co.Base.{
  ℕ, ◌+◌, ◌≤◌, ◌≡◌, refl, ap, ◌∙◌, Bool, true, false, not, ◌&&◌, ◌||◌, none, List, [], ◌∷◌, ◌++◌,
  ◌==◌, inl, inr, Bool-cases, ◌⊎◌, arith, if-split, u64, eq_self,
}
use atsf4g_co.Etcd.Keepalive as K
use atsf4g_co.Etcd.Keepalive.{Text, Keepalive, Request, same_text}
use atsf4g_co.Etcd.Cluster.{
  Env, Deletor, Cluster, open_request, ask_lease, create_request_lease_grant, enable,
  add_stats_error_request, add_stats_create_request,
}
use atsf4g_co.Etcd.Cluster.Actors.{
  member, swap_out, erase_path, try_delete, remove_keepalive_path, add_keepalive, remove_keepalive,
}
use atsf4g_co.Etcd.Cluster.Lists.{member-swap_out}
use atsf4g_co.Etcd.Cluster.Keeps.{Keeps, Each-trivial, activate-keeps}
use atsf4g_co.Etcd.Cluster.Life.{Inv}

pub same_text_refl : (t : Text) → same_text t t ≡ true
unfolding same_text
same_text_refl [] = refl
same_text_refl (c ∷ t) = ground (arith, same_text_refl t)

-- Is there a deletor for the path, waiting or with its request under way?
abbrev waits_for : Text → List Deletor → Bool
waits_for path [] = false
waits_for path (d ∷ ds) = same_text d.path path || waits_for path ds

abbrev pub deletes : Text → List (Deletor × Text) → Bool
deletes path [] = false
deletes path (d ∷ ds) = same_text d.0.path path || deletes path ds

abbrev pub is_pending : {E : Type 0} → Text → Cluster E → Bool
is_pending path c = waits_for path c.deletors || deletes path c.deleting

module _ {E : Type 0} (env : Env) where
  try_delete-pending :
      (c : Cluster E) (d : Deletor)
      → d.retry_times ≤ 8
      → is_pending d.path (try_delete env c d) ≡ true
  unfolding try_delete open_request add_stats_error_request add_stats_create_request
  try_delete-pending c d few = ground (arith, same_text_refl d.path)

  remove_path-lists :
      (c : Cluster E) (d : Deletor)
      → let c' = remove_keepalive_path env c d false in
        (c'.keepalive_actors ≡ c.keepalive_actors) × (c'.retry_actors ≡ c.retry_actors)
  unfolding remove_keepalive_path try_delete open_request
  remove_path-lists c d = ground arith

  remove_path-pending :
      (c : Cluster E) (path : Text)
      → is_pending path
          (remove_keepalive_path env c (record { path = path; retry_times = 0 }) false)
        ≡ true
  unfolding remove_keepalive_path
  remove_path-pending c path =
      try_delete-pending (record c { deletors = erase_path path c.deletors })
        (record { path = path; retry_times = u64 (0 + 1) }) (omega arith)

  -- A key that was known is on no list after it is removed, and has no request under way; if its
  -- value was put into etcd, a request to delete its path is under way or waits for the next round,
  -- and if not, the paths to delete are as before.
  pub remove_keepalive-forgets :
      (c : Cluster E) (i : ℕ)
      → Inv c
      → (member i c.keepalive_actors || member i c.retry_actors) ≡ true
      → let c' = (remove_keepalive env c i).0 in
        ((remove_keepalive env c i).1 ≡ true)
        × (member i c'.keepalive_actors ≡ false)
        × (member i c'.retry_actors ≡ false)
        × ((c'.keepalives i).keep.rpc_opr ≡ none)
        × ((((c.keepalives i).keep.has_data ≡ true) × (is_pending (c.keepalives i).path c' ≡ true))
            ⊎ (((c.keepalives i).keep.has_data ≡ false)
                × (c'.deletors ≡ c.deletors)
                × (c'.deleting ≡ c.deleting)))
  unfolding remove_keepalive K.close
  remove_keepalive-forgets c i h known =
      let c1 = record c {
        keepalive_actors = swap_out i c.keepalive_actors;
        retry_actors = swap_out i c.retry_actors;
      } in
      let d : Deletor = record { path = (c.keepalives i).path; retry_times = 0 } in
      let gone = member-swap_out i c.keepalive_actors h.distinct_actors in
      let gone' = member-swap_out i c.retry_actors h.distinct_retries in
      let (same, same') = remove_path-lists c1 d in
      let pending = remove_path-pending c1 (c.keepalives i).path in
      elim (Bool-cases (c.keepalives i).keep.has_data) [
        | inl e ↦
            rw (known, e, eq_self i)
              (
                refl,
                ap (member i) same ∙ gone,
                ap (member i) same' ∙ gone',
                refl,
                inl (refl, pending),
              )
        | inr e ↦ rw (known, e, eq_self i) (refl, gone, gone', refl, inr (refl, refl, refl))
      ]

  -- A path that is being deleted stays so.
  deleting-Keeps :
      (path : Text) → Keeps env (λ (c : Cluster E). deletes path c.deleting ≡ true) (λ d. Unit)
  unfolding open_request enable create_request_lease_grant ask_lease remove_keepalive_path
      try_delete
  deleting-Keeps path = record {
    opens = λ (c : Cluster E) h. ground arith;
    enables = λ (c : Cluster E) h. ground arith;
    activates = λ (c from : Cluster E) j h. h;
    resets = λ (c : Cluster E) j h. h;
    watches = λ (c : Cluster E) j w h. h;
    retries = λ (c : Cluster E) j running new h. h;
    settles = λ (c : Cluster E) h. h;
    tried = λ (c : Cluster E) h. Each-trivial c.deletors;
    empties = λ (c : Cluster E) h. h;
    removes = λ (c : Cluster E) d t h. ground arith;
  }

  -- A key that is added again while the request to delete its path is under way: `add_keepalive`
  -- succeeds, and the request goes on.
  add_keepalive-still_deletes :
      (c : Cluster E) (i : ℕ)
      → c.closing ≡ false
      → member i c.keepalive_actors ≡ false
      → deletes (c.keepalives i).path c.deleting ≡ true
      → ((add_keepalive env c i).1 ≡ true)
        × (deletes (c.keepalives i).path (add_keepalive env c i).0.deleting ≡ true)
  unfolding add_keepalive
  add_keepalive-still_deletes c i running new h =
      let P = λ (x : Cluster E). deletes (c.keepalives i).path x.deleting ≡ true in
      let keeps = deleting-Keeps (c.keepalives i).path in
      let c1 = enable env c true in
      let c2 = record c1 {
        keepalive_actors = c1.keepalive_actors ++ (i ∷ []);
        deletors = erase_path (c1.keepalives i).path c1.deletors;
      } in
      let h2 : P c2 = keeps.enables c h in
      let Q = λ (r : Cluster E × Bool). (r.1 ≡ true) × P r.0 in
      if-split Q c.closing (λ e. ground arith)
        λ e.
          if-split Q (member i c.keepalive_actors) (λ f. ground arith)
            λ f. (
              refl,
              if-split P (c2.running && not (c2.lease == 0)) (λ e. activate-keeps keeps c2 i h2)
                  (λ e. h2),
            )

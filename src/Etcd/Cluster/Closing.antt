-- ===== src/Etcd/Cluster/Closing.antt =====
-- The invariant of `etcd_cluster` over its close and reset, and over the lists of actors.
use mathlib.Core.Path.{subst}
use atsf4g_co.Base.{
  ℕ, ◌≡◌, refl, sym, ap, ◌∙◌, Bool, true, false, not, ◌&&◌, ◌||◌, none, List, [], ◌∷◌, ◌++◌, ◌==◌,
  arith, if-split,
}
use atsf4g_co.Etcd.Keepalive as K
use atsf4g_co.Etcd.Keepalive.{Text, Keepalive}
use atsf4g_co.Etcd.Watcher as W
use atsf4g_co.Etcd.Watcher.{Watcher}
use atsf4g_co.Etcd.Cluster.{
  Env, Deletor, Kept, Cluster, enable, open_request, ask_lease, create_request_lease_grant,
}
use atsf4g_co.Etcd.Cluster.Actors.{
  put, put_watcher, member, swap_out, erase_path, add_keepalive, remove_keepalive, add_watcher,
  remove_watcher,
}
use atsf4g_co.Etcd.Cluster.Replies.{
  close_keepalives, close_watchers, revoke, finish_close, close, reset,
}
use atsf4g_co.Etcd.Cluster.Lists.{append-IsDistinct, swap_out-IsDistinct}
use atsf4g_co.Etcd.Cluster.Keeps.{Each, enable-closing, activate-keeps}
use atsf4g_co.Etcd.Cluster.Life.{
  Inv, erase_path-Each, enable-Inv, remove_keepalive_path-Inv, Inv-Keeps,
}

module _ {E : Type 0} where
  close_keepalives-eq :
      (is : List ℕ) (c : Cluster E)
      → (ks : ℕ → Kept) × (close_keepalives is c ≡ record c { keepalives = ks })
  unfolding close_keepalives
  close_keepalives-eq [] c = (c.keepalives, refl)
  close_keepalives-eq (i ∷ is) c =
      close_keepalives-eq is (put c i (K.close (c.keepalives i).keep false))

  close_watchers-eq :
      (is : List ℕ) (c : Cluster E)
      → (ws : ℕ → Watcher E) × (close_watchers is c ≡ record c { watchers = ws })
  unfolding close_watchers
  close_watchers-eq [] c = (c.watchers, refl)
  close_watchers-eq (i ∷ is) c = close_watchers-eq is (put_watcher c i (W.close (c.watchers i)))

  -- What `close` does up to the lease, with the keys and watchers as they are then
  closed : Cluster E → (ℕ → Kept) → (ℕ → Watcher E) → Cluster E
  closed c ks ws = record c {
    closing = true;
    rpc_keepalive = none;
    deletors = [];
    rpc_update_members = none;
    rpc_authenticate = none;
    keepalives = ks;
    keepalive_actors = [];
    retry_actors = [];
    watchers = ws;
    watcher_actors = [];
  }

  closed_down : Env → Cluster E → (ℕ → Kept) → (ℕ → Watcher E) → Cluster E
  closed_down env c ks ws = (finish_close env (closed c ks ws)).0

  pub put-Inv : (c : Cluster E) (i : ℕ) (k : Keepalive) → Inv c → Inv (put c i k)
  put-Inv c i k h = ground arith

  added-Inv :
      (c : Cluster E) (i : ℕ)
      → Inv c
      → c.closing ≡ false
      → member i c.keepalive_actors ≡ false
      → Inv (record c {
        keepalive_actors = c.keepalive_actors ++ (i ∷ []);
        deletors = erase_path (c.keepalives i).path c.deletors;
      })
  added-Inv c i h running new =
      let distinct = append-IsDistinct i c.keepalive_actors h.distinct_actors new in
      let tried = erase_path-Each (c.keepalives i).path c.deletors h.waiting in (ground arith)

  swapped-Inv :
      (c : Cluster E) (i : ℕ)
      → Inv c
      → Inv (record c {
        keepalive_actors = swap_out i c.keepalive_actors;
        retry_actors = swap_out i c.retry_actors;
      })
  unfolding swap_out
  swapped-Inv c i h =
      let actors = swap_out-IsDistinct i c.keepalive_actors h.distinct_actors in
      let retries_ = swap_out-IsDistinct i c.retry_actors h.distinct_retries in (ground arith)

  module _ (env : Env) where
    closed_down-Inv :
        (c : Cluster E) (ks : ℕ → Kept) (ws : ℕ → Watcher E) → Inv c → Inv (closed_down env c ks ws)
    unfolding closed_down closed finish_close revoke open_request Each
    closed_down-Inv c ks ws h = ground arith

    -- `close` up to the lease, with the keys and watchers as they are then
    close-eq :
        (c : Cluster E)
        → (ks : ℕ → Kept) × (ws : ℕ → Watcher E) × (close env c ≡ finish_close env (closed c ks ws))
    unfolding close closed
    close-eq c =
        let c1 : Cluster E = record c {
          closing = true;
          rpc_keepalive = none;
          deletors = [];
          rpc_update_members = none;
          rpc_authenticate = none;
        } in
        let (ks, e) = close_keepalives-eq c.keepalive_actors c1 in
        let emptied = λ (x : Cluster E). record x { keepalive_actors = []; retry_actors = [] } in
        let c2 = emptied (close_keepalives c.keepalive_actors c1) in
        let (ws, f) = close_watchers-eq c2.watcher_actors c2 in
        let shape : record (close_watchers c2.watcher_actors c2) { watcher_actors = [] }
            ≡ record (emptied (record c1 { keepalives = ks })) {
              watchers = ws;
              watcher_actors = [];
            } =
          ap (λ (x : Cluster E). record x { watcher_actors = [] }) f
          ∙ ap (λ (x : Cluster E). record (emptied x) { watchers = ws; watcher_actors = [] }) e in
        (ks, ws, ap (finish_close env) shape)

    close-shape :
        (c : Cluster E)
        → (ks : ℕ → Kept) × (ws : ℕ → Watcher E) × ((close env c).0 ≡ closed_down env c ks ws)
    unfolding closed_down
    close-shape c = let (ks, ws, e) = close-eq c in (ks, ws, ap (λ r. r.0) e)

    -- Nothing is left on a list, and where the lease is to be revoked it is given up.
    pub close-empties :
        (c : Cluster E)
        → ((close env c).0.keepalive_actors ≡ [])
          × ((close env c).0.retry_actors ≡ [])
          × ((close env c).0.watcher_actors ≡ [])
          × ((close env c).0.deletors ≡ [])
    unfolding closed finish_close revoke open_request
    close-empties c =
        let (ks, ws, e) = close-eq c in
        let d = finish_close env (closed c ks ws) in
        let none_left : (d.0.keepalive_actors ≡ [])
            × (d.0.retry_actors ≡ [])
            × (d.0.watcher_actors ≡ [])
            × (d.0.deletors ≡ []) =
          (ground arith) in
        subst
          (λ (r : Cluster E × Bool).
            (r.0.keepalive_actors ≡ [])
            × (r.0.retry_actors ≡ [])
            × (r.0.watcher_actors ≡ [])
            × (r.0.deletors ≡ []))
          (sym e) none_left

    pub close-Inv : (c : Cluster E) → Inv c → Inv (close env c).0
    close-Inv c h = let (ks, ws, e) = close-shape c in subst Inv (sym e) (closed_down-Inv c ks ws h)

    close-closing : (c : Cluster E) → (close env c).0.closing ≡ true
    unfolding closed_down closed finish_close revoke open_request
    close-closing c =
        let (ks, ws, e) = close-shape c in
        let shut : (closed_down env c ks ws).closing ≡ true = (ground arith) in
        ap (λ (x : Cluster E). x.closing) e ∙ shut

    pub reset-Inv : (c : Cluster E) → Inv c → Inv (reset env c)
    unfolding reset
    reset-Inv c h = let closed = close-Inv c h in let shut = close-closing c in (ground arith)

    enable-lists :
        (c : Cluster E) (v : Bool)
        → ((enable env c v).keepalive_actors ≡ c.keepalive_actors)
          × ((enable env c v).deletors ≡ c.deletors)
    unfolding enable create_request_lease_grant ask_lease open_request
    enable-lists c v = ground arith

    pub add_keepalive-Inv : (c : Cluster E) (i : ℕ) → Inv c → Inv (add_keepalive env c i).0
    unfolding add_keepalive
    add_keepalive-Inv c i h =
        let c1 = enable env c true in
        let (same_actors, same_deletors) = enable-lists c true in
        let c2 = record c1 {
          keepalive_actors = c1.keepalive_actors ++ (i ∷ []);
          deletors = erase_path (c1.keepalives i).path c1.deletors;
        } in
        if-split (λ (r : Cluster E × Bool). Inv r.0) c.closing (λ e. h)
          λ running.
            if-split (λ (r : Cluster E × Bool). Inv r.0) (member i c.keepalive_actors) (λ e. h)
              λ new.
                let h1 = enable-Inv env c true h in
                let open_ = enable-closing env c true ∙ running in
                let free : member i c1.keepalive_actors ≡ false = ap (member i) same_actors ∙ new in
                let h2 : Inv c2 = (added-Inv c1 i h1 open_ free) in
                if-split Inv (c2.running && not (c2.lease == 0))
                  (λ e. activate-keeps (Inv-Keeps env) c2 i h2) (λ e. h2)

    pub remove_keepalive-Inv : (c : Cluster E) (i : ℕ) → Inv c → Inv (remove_keepalive env c i).0
    unfolding remove_keepalive
    remove_keepalive-Inv c i h =
        let d : Deletor = record { path = (c.keepalives i).path; retry_times = 0 } in
        let h1 = swapped-Inv c i h in
        let h2 = remove_keepalive_path-Inv env _ d false (omega arith) h1 in
        if-split (λ (r : Cluster E × Bool). Inv r.0)
          (not (member i c.keepalive_actors || member i c.retry_actors)) (λ e. h1)
          λ e.
            if-split (λ (r : Cluster E × Bool). Inv r.0) (c.keepalives i).keep.has_data
              (λ f. put-Inv _ i (K.close (c.keepalives i).keep true) h2)
              (λ f. put-Inv _ i (K.close (c.keepalives i).keep false) h1)

    pub add_watcher-Inv : (c : Cluster E) (i : ℕ) → Inv c → Inv (add_watcher env c i).0
    unfolding add_watcher
    add_watcher-Inv c i h = ground (arith, append-IsDistinct i c.watcher_actors)

    pub remove_watcher-Inv : (c : Cluster E) (i : ℕ) → Inv c → Inv (remove_watcher env c i).0
    unfolding remove_watcher swap_out
    remove_watcher-Inv c i h = ground (arith, swap_out-IsDistinct i c.watcher_actors)

  -- What is closed twice has no lease to revoke.
  pub close-twice :
      (env later : Env) (c : Cluster E)
      → (close env c).1 ≡ true
      → (close later (close env c).0).1 ≡ false
  unfolding closed finish_close revoke open_request
  close-twice env later c asks =
      let (ks, ws, e) = close-eq env c in
      let asked : (finish_close env (closed c ks ws)).1 ≡ true = ap (λ r. r.1) (sym e) ∙ asks in
      let c' = (close env c).0 in
      let shut : c' ≡ (finish_close env (closed c ks ws)).0 = ap (λ r. r.0) e in
      let lease : c'.lease ≡ 0 = subst (λ (x : Cluster E). x.lease ≡ 0) (sym shut) (ground arith) in
      let (ks', ws', e') = close-eq later c' in ap (λ r. r.1) e' ∙ (ground arith)

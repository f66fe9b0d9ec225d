-- ===== src/Proxy/Waiting.antt =====
-- No proxy is forgotten (atproxy/atproxy_manager.cpp).
pub mod Rounds
use atsf4g_co.Base.Lists.{length, append_assoc, append_nil}
use atsf4g_co.Base.{
  ℕ, zero, suc, ◌+◌, ◌-◌, ◌≡◌, refl, Bool, true, false, not, ◌&&◌, ◌||◌, Option, none, some, List,
  [], ◌∷◌, ◌++◌, ltb, leb, ◌==◌, arith, if◌then◌else◌, inl, inr, Option-cases, Bool-cases, if-split,
}
use mathlib.Core.Path.{subst}
use atsf4g_co.Proxy.Schedule.{list_cases}
use atsf4g_co.Base.Assoc.{lookup, insert, lookup-insert, lookup-erase}
use atsf4g_co.Proxy.{
  EtcdNode, NodeInfo, CheckInfo, Manager, Bus, App, Name, is_empty, retry_time, retry_of,
  connect_first, act, check, round, tick, set, remove, add_all, reset, on_disconnected,
  on_watcher_notify, pick, is_delete,
}

-- Is there a check of that proxy for that time?
pub pending : ℕ → ℕ → List CheckInfo → Bool
pending id t [] = false
pending id t (c ∷ cs) = c.proxy_id == id && c.timeout_sec == t || pending id t cs

pending-append :
    (id t : ℕ) (cs ds : List CheckInfo)
    → pending id t (cs ++ ds) ≡ (pending id t cs || pending id t ds)
unfolding pending
pending-append id t [] ds = refl
pending-append id t (c ∷ cs) ds = ground (arith, pending-append id t cs ds)

-- Does that proxy wait for a check at a time of its own? The proxy `self` is never checked, nor one
-- without addresses; and 0 is no time.
abbrev pub waits : ℕ → ℕ → NodeInfo → Bool
waits self id i =
    not (id == self) && (not (is_empty i.etcd_node.listens) && not (i.next_action_time == 0))

-- Every proxy that waits has a check on the list for the time that it waits for.
pub record Scheduled (self : ℕ) (m : Manager) : Type 0 where
  pub has_check :
      (id : ℕ) (i : NodeInfo)
      → lookup id m.proxy_set ≡ some i
      → waits self id i ≡ true
      → pending id i.next_action_time m.check_list ≡ true

module _ (app : App) where
  abbrev Sched : Manager → Type 0
  Sched m = Scheduled app.self_id m

  -- The list of checks gets a check in front.
  abbrev with_check : Manager → CheckInfo → Manager
  with_check m c = record m { check_list = c ∷ m.check_list }

  weaken : (m : Manager) (c : CheckInfo) → Sched m → Sched (with_check m c)
  unfolding pending
  weaken m c v = record { has_check = λ id i h w. ground (arith, v.has_check id i h w) }

  -- The entry of the proxy of a check may be written if the proxy, should it wait, has a new check.
  written-Scheduled :
      (m : Manager) (c : CheckInfo) (cs : List CheckInfo) (info : NodeInfo) (cn : List Name)
      → Sched (with_check m c)
      → ((id t : ℕ) → pending id t m.check_list ≡ true → pending id t cs ≡ true)
      → (waits app.self_id c.proxy_id info ≡ true
          → pending c.proxy_id info.next_action_time cs ≡ true)
      → Sched (record {
        check_list = cs;
        proxy_set = insert c.proxy_id info m.proxy_set;
        connects = cn;
      })
  unfolding pending
  written-Scheduled m c cs info cn v keep new = record {
    has_check = λ id i h w. ground (
      arith,
      lookup-insert c.proxy_id id info m.proxy_set,
      v.has_check id i,
      keep id i.next_action_time,
    );
  }

  in_front :
      (c : CheckInfo) (cs : List CheckInfo) (id t : ℕ)
      → pending id t cs ≡ true
      → pending id t (c ∷ cs) ≡ true
  unfolding pending
  in_front c cs id t h = ground arith

  behind :
      (cs ds : List CheckInfo) (id t : ℕ) → pending id t cs ≡ true → pending id t (cs ++ ds) ≡ true
  behind cs ds id t h = ground (arith, pending-append id t cs ds)

  last_pending :
      (cs : List CheckInfo) (id t : ℕ)
      → pending id t (cs ++ record { timeout_sec = t; proxy_id = id } ∷ []) ≡ true
  unfolding pending
  last_pending cs id t =
      ground (arith, pending-append id t cs (record { timeout_sec = t; proxy_id = id } ∷ []))

  set-Scheduled : (m : Manager) (node : EtcdNode) → Sched m → Sched (set app m node)
  unfolding set pending
  set-Scheduled m node v =
      let ci : CheckInfo = record { timeout_sec = app.now; proxy_id = node.id } in
      elim (Option-cases (lookup node.id m.proxy_set)) [
        | inl e ↦
            rw (set, e)
              (written-Scheduled m ci (ci ∷ m.check_list) _ m.connects (weaken m ci v)
                (in_front ci m.check_list) (λ w. ground arith))
        | inr (old, e) ↦
            rw (set, e)
              (if-split Sched (leb app.now old.next_action_time) (λ h. v)
                (λ h.
                  written-Scheduled m ci (ci ∷ m.check_list) _ m.connects (weaken m ci v)
                    (in_front ci m.check_list) (λ w. ground arith)))
      ]

  remove-Scheduled : (m : Manager) (id : ℕ) → Sched m → Sched (remove app m id)
  unfolding remove
  remove-Scheduled m k v = record {
    has_check = λ id i h w. ground (arith, lookup-erase k id m.proxy_set, v.has_check id i);
  }

  add_all-Scheduled : (is : List NodeInfo) (m : Manager) → Sched m → Sched (add_all app is m)
  unfolding add_all pending
  add_all-Scheduled [] m v = v
  add_all-Scheduled (i ∷ is) m v =
      let ci : CheckInfo = record { timeout_sec = app.now; proxy_id = i.etcd_node.id } in
      add_all-Scheduled is _ (
        if-split Sched (is_empty i.etcd_node.listens) (λ h. v)
          (λ h.
            written-Scheduled m ci (ci ∷ m.check_list) _ m.connects (weaken m ci v)
              (in_front ci m.check_list) (λ w. ground arith)))

  pub reset-Scheduled : (m : Manager) (nodes : List NodeInfo) → Sched (reset app m nodes)
  unfolding reset lookup
  reset-Scheduled m nodes =
      add_all-Scheduled nodes _ (record { has_check = λ id i h w. ground arith })

  pub disconnected-Scheduled : (m : Manager) (id : ℕ) → Sched m → Sched (on_disconnected app m id)
  unfolding on_disconnected
  disconnected-Scheduled m id v =
      let t = if app.stoping then app.now - 1 else retry_of app app.bus_node in
      let ci : CheckInfo = record { timeout_sec = t; proxy_id = id } in
      elim (Option-cases (lookup id m.proxy_set)) [
        | inl e ↦ rw (on_disconnected, e) v
        | inr (info, e) ↦
            rw (on_disconnected, e)
              (if-split Sched (ltb info.next_action_time t)
                (λ h.
                  written-Scheduled m ci (m.check_list ++ ci ∷ []) _ m.connects (weaken m ci v)
                    (behind m.check_list (ci ∷ [])) (λ w. last_pending m.check_list id t))
                (λ h. v))
      ]

  pub notify-Scheduled :
      (m : Manager) (node : EtcdNode) → Sched m → Sched (on_watcher_notify app m node)
  unfolding on_watcher_notify
  notify-Scheduled m node v =
      if-split Sched (is_delete node.action) (λ h. remove-Scheduled m node.id v)
        (λ h. set-Scheduled m node v)

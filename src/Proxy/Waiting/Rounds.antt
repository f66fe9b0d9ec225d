-- ===== src/Proxy/Waiting/Rounds.antt =====
-- `tick` forgets no proxy (atproxy/atproxy_manager.cpp).
use atsf4g_co.Base.Lists.{length}
use atsf4g_co.Base.{
  ℕ, zero, suc, ◌+◌, ◌≡◌, true, false, not, Option, none, some, List, [], ◌∷◌, ◌++◌, ltb, leb, ◌==◌,
  arith, inl, inr, Option-cases, Bool-cases, if-split,
}
use mathlib.Core.Path.{subst}
use atsf4g_co.Proxy.Schedule.{list_cases}
use atsf4g_co.Base.Assoc.{lookup, insert}
use atsf4g_co.Proxy.{
  NodeInfo, CheckInfo, Manager, Bus, App, Name, is_empty, retry_time, connect_first, act, check,
  round, tick, pick,
}
use atsf4g_co.Proxy.Waiting.{
  pending, waits, Sched, with_check, weaken, written-Scheduled, behind, last_pending,
}

module _ (app : App) where
  -- What the check that is taken off the list leaves to show.
  connect-Scheduled :
      (bus : Bus) (ci : CheckInfo) (info : NodeInfo) (ls : List Name) (m : Manager)
      → Sched app (with_check app m ci)
      → Sched app m
      → Sched app (connect_first app bus ci info ls m).0
  unfolding connect_first
  connect-Scheduled bus ci info [] m v u = u
  connect-Scheduled bus ci info (l ∷ ls) m v u =
      let t = retry_time app.now bus.retry_interval in
      let c : CheckInfo = record { timeout_sec = t; proxy_id = ci.proxy_id } in
      written-Scheduled app m ci (m.check_list ++ c ∷ []) _ _ v (behind app m.check_list (c ∷ []))
        (λ w. last_pending app m.check_list ci.proxy_id t)

  act-Scheduled :
      (bus : Option Bus) (ci : CheckInfo) (info : NodeInfo) (m : Manager)
      → Sched app (with_check app m ci)
      → Sched app (act app bus ci info m).0
  unfolding act
  act-Scheduled (some bus) ci info m v =
      let info' = record info { next_action_time = 0 } in
      let ls =
        pick (app.is_remote_address_available info.etcd_node.hostname)
          (length info.etcd_node.listens) info.etcd_node.listens in
      let m' = record m { proxy_set = insert ci.proxy_id info' m.proxy_set } in
      let u : Sched app m' =
        written-Scheduled app m ci m.check_list info' m.connects v (λ id t h. h)
          (λ w. ground arith) in
      let J : Manager × ℕ → Type 0 = λ r. Sched app r.0 in
      if-split J (bus.has_endpoint m.connects ci.proxy_id) (λ h. u)
        (λ h.
          if-split J (not info.is_available) (λ k. u)
            (λ k. connect-Scheduled bus ci info' ls m' (weaken app m' ci u) u))
  act-Scheduled none ci info m v =
      let c : CheckInfo = record { timeout_sec = app.now + 1; proxy_id = ci.proxy_id } in
      written-Scheduled app m ci (m.check_list ++ c ∷ []) _ _ v (behind app m.check_list (c ∷ []))
        (λ w. last_pending app m.check_list ci.proxy_id (app.now + 1))

  -- A check that is of no proxy that waits for it may go.
  dropped-Scheduled :
      (m : Manager) (ci : CheckInfo)
      → ((info : NodeInfo)
          → lookup ci.proxy_id m.proxy_set ≡ some info
          → waits app.self_id ci.proxy_id info ≡ true
          → (info.next_action_time == ci.timeout_sec) ≡ false)
      → Sched app (with_check app m ci)
      → Sched app m
  unfolding pending
  dropped-Scheduled m ci other v = record {
    has_check = λ id i h w. ground (arith, v.has_check id i h w, other i);
  }

  round-Scheduled :
      (ci : CheckInfo) (m : Manager)
      → Sched app (with_check app m ci)
      → Sched app (round app ci m).0
  unfolding round check
  round-Scheduled ci m v =
      let J : Manager × ℕ → Type 0 = λ r. Sched app r.0 in
      elim (Option-cases (lookup ci.proxy_id m.proxy_set)) [
        | inl e ↦
            rw (round, e)
              (if-split J (ci.proxy_id == app.self_id)
                (λ h. dropped-Scheduled m ci (λ info q w. ground (arith, e)) v)
                (λ h. dropped-Scheduled m ci (λ info q w. ground (arith, e)) v))
        | inr (info, e) ↦
            rw (round, e)
              (if-split J (ci.proxy_id == app.self_id)
                (λ h. dropped-Scheduled m ci (λ i q w. ground arith) v)
                (λ h.
                  if-split J (is_empty info.etcd_node.listens)
                    (λ k. dropped-Scheduled m ci (λ i q w. ground (arith, e)) v)
                    (λ k.
                      if-split J (ltb ci.timeout_sec info.next_action_time)
                        (λ l. dropped-Scheduled m ci (λ i q w. ground (arith, e)) v)
                        (λ l. act-Scheduled app.bus_node ci info m v))))
      ]

  pub tick-Scheduled :
      (fuel : ℕ) (m m' : Manager) (n : ℕ)
      → Sched app m
      → tick app fuel m ≡ some (m', n)
      → Sched app m'
  unfolding tick
  tick-Scheduled zero m m' n v q = ground arith
  tick-Scheduled (suc fuel) m m' n v q = elim (list_cases m.check_list) [
    | inl e ↦ let same : m ≡ m' = ground (arith, e) in subst (Sched app) same v
    | inr (c, cs, e) ↦
        let m1 = record m { check_list = cs } in
        let r = round app c m1 in
        let u : Sched app (with_check app m1 c) = record {
          has_check = λ id i h w. rw (← e) (v.has_check id i h w);
        } in
        elim (Bool-cases (leb app.now c.timeout_sec)) [
          | inl later ↦ let same : m ≡ m' = ground (arith, e, later) in subst (Sched app) same v
          | inr now ↦ elim (Option-cases (tick app fuel r.0)) [
            | inl h ↦ absurd (ground (arith, e, now, h))
            | inr (s, h) ↦
                let same : s.0 ≡ m' = ground (arith, e, now, h) in
                subst (Sched app) same (tick-Scheduled fuel r.0 s.0 s.1 (round-Scheduled c m1 u) h)
          ]
        ]
  ]

-- ===== src/Proxy/Schedule.antt =====
-- When a proxy is looked at again (atproxy/atproxy_manager.cpp).
use atsf4g_co.Base.Lists.{length}
use atsf4g_co.Base.{
  ℕ, zero, suc, ◌+◌, ◌≡◌, ◌≤◌, ◌<◌, refl, ℤ, pos, negsuc, Bool, true, not, Option, none, some, ◌⊎◌,
  List, [], ◌∷◌, ◌++◌, leb, arith, if◌then◌else◌, inl, inr, Option-cases, Bool-cases, if-split,
}
use atsf4g_co.Base.Assoc.{lookup, insert}
use atsf4g_co.Proxy.{
  NodeInfo, CheckInfo, Manager, Bus, App, Name, retry_time, connect_first, act, check, round, tick,
  pick,
}

-- The checks whose time has come.
due : ℕ → List CheckInfo → ℕ
due now [] = 0
due now (c ∷ cs) = (if leb now c.timeout_sec then 0 else 1) + due now cs

due-append :
    (now : ℕ) (cs : List CheckInfo) (c : CheckInfo)
    → leb now c.timeout_sec ≡ true
    → due now (cs ++ c ∷ []) ≡ due now cs
unfolding due
due-append now [] c h = ground arith
due-append now (d ∷ cs) c h = ground (arith, due-append now cs c h)

due-le : (now : ℕ) (cs : List CheckInfo) → due now cs ≤ length cs
unfolding due length
due-le now [] = omega arith
due-le now (c ∷ cs) = ground (arith, due-le now cs)

pub list_cases :
    (cs : List CheckInfo) → (cs ≡ []) ⊎ ((c : CheckInfo) × (ds : List CheckInfo) × (cs ≡ c ∷ ds))
list_cases [] = inl refl
list_cases (c ∷ cs) = inr (c, cs, refl)

module _ (app : App) where
  retry_time-later :
      (now : ℕ) (r : ℤ) → (leb now (retry_time now r) ≡ true) × (now < retry_time now r)
  retry_time-later now (pos zero) = ground arith
  retry_time-later now (pos (suc k)) = ground arith
  retry_time-later now (negsuc k) = ground arith

  -- No round puts a check on the list whose time has come.
  connect_first-due :
      (bus : Bus) (ci : CheckInfo) (info : NodeInfo) (ls : List Name) (m : Manager)
      → due app.now (connect_first app bus ci info ls m).0.check_list ≡ due app.now m.check_list
  unfolding connect_first
  connect_first-due bus ci info [] m = refl
  connect_first-due bus ci info (l ∷ ls) m =
      due-append app.now m.check_list _ (retry_time-later app.now bus.retry_interval).0

  act-due :
      (bus : Option Bus) (ci : CheckInfo) (info : NodeInfo) (m : Manager)
      → due app.now (act app bus ci info m).0.check_list ≡ due app.now m.check_list
  unfolding act
  act-due (some bus) ci info m =
      let info' = record info { next_action_time = 0 } in
      let ls =
        pick (app.is_remote_address_available info.etcd_node.hostname)
          (length info.etcd_node.listens) info.etcd_node.listens in
      let m' = record m { proxy_set = insert ci.proxy_id info' m.proxy_set } in
      let J : Manager × ℕ → Type 0 = λ r. due app.now r.0.check_list ≡ due app.now m.check_list in
      if-split J (bus.has_endpoint m.connects ci.proxy_id) (λ h. refl)
        (λ h.
          if-split J (not info.is_available) (λ k. refl)
            (λ k. connect_first-due bus ci info' ls m'))
  act-due none ci info m = due-append app.now m.check_list _ (ground arith)

  round-due :
      (ci : CheckInfo) (m : Manager)
      → due app.now (round app ci m).0.check_list ≡ due app.now m.check_list
  unfolding round check
  round-due ci m = elim (Option-cases (lookup ci.proxy_id m.proxy_set)) [
    | inl e ↦ ground (arith, e)
    | inr (info, e) ↦ ground (arith, e, act-due app.bus_node ci info m)
  ]

  -- The check at the front of the list is for later.
  abbrev pub at_rest : Manager → Bool
  at_rest m = elim m.check_list [ [] ↦ true | c ∷ cs ↦ leb app.now c.timeout_sec ]

  tick-enough :
      (fuel : ℕ) (m : Manager)
      → due app.now m.check_list < fuel
      → (m' : Manager) × (n : ℕ) × (tick app fuel m ≡ some (m', n)) × (at_rest m' ≡ true)
  unfolding tick due
  tick-enough zero m lt = absurd (omega arith)
  tick-enough (suc fuel) m lt = elim (list_cases m.check_list) [
    | inl e ↦ (m, 0, ground (arith, e), ground (arith, e))
    | inr (c, cs, e) ↦
        let r = round app c (record m { check_list = cs }) in
        elim (Bool-cases (leb app.now c.timeout_sec)) [
          | inl later ↦ (m, 0, ground (arith, e, later), ground (arith, e, later))
          | inr now ↦
              let d : due app.now m.check_list ≡ 1 + due app.now cs = simp (e, now) in
              let (m', n, q, rest) =
                tick-enough fuel r.0 (ground (arith, round-due c (record m { check_list = cs }))) in
              (m', r.1 + n, ground (arith, e, now, q), rest)
        ]
  ]

  -- With as much fuel as there are checks and one more, `tick` returns: no check that it puts on the
  -- list is for a time that has come. The check at the front of the list is then for later.
  pub tick-returns :
      (m : Manager)
      → (m' : Manager) × (n : ℕ) × (tick app (suc (length m.check_list)) m ≡ some (m', n))
        × (at_rest m' ≡ true)
  tick-returns m =
      tick-enough (suc (length m.check_list)) m (omega (arith, due-le app.now m.check_list))

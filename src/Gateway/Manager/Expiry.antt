-- ===== src/Gateway/Manager/Expiry.antt =====
-- What `session_manager::tick` does to the timers and to the reconnect cache
-- (atgateway/session_manager.cpp).
use atsf4g_co.Base.{
  ℕ, ◌≡◌, ◌≢◌, ◌≤◌, none, some, List, [], ◌∷◌, ltb, arith, if◌then◌else◌, inl, inr,
}
use atsf4g_co.Base.Assoc.{lookup, erase, lookup-erase}
use atsf4g_co.Gateway.Manager.{
  Manager, Timer, close_session, expire_reconnect, expire_reconnects, expire_idle, expire_idles,
  tick,
}
use atsf4g_co.Gateway.Proto.{ProtoOps}
use atsf4g_co.Gateway.State.{Env, done, Outcome-cases}

-- The timers that are left: those from the first on whose time has not come.
pub drop_expired : ℕ → List Timer → List Timer
drop_expired now [] = []
drop_expired now (t ∷ ts) = if ltb now t.timeout then t ∷ ts else drop_expired now ts

module _ {P : Type 0} (ops : ProtoOps P) (env : Env) (fuel : ℕ) where
  -- One round leaves the lists of timers and the active sessions alone.
  record SameLists (m m' : Manager P) : Type 0 where
    same_idle : m'.first_idle ≡ m.first_idle
    same_time : m'.last_tick_time ≡ m.last_tick_time
    same_actived : m'.actived_sessions ≡ m.actived_sessions

  reconnect-SameLists :
      (m m' : Manager P) (a : ℕ)
      → expire_reconnect ops env fuel m a ≡ done m'
      → SameLists m m' × (m'.reconnect_cache ≡ erase (m.sessions a).id m.reconnect_cache)
  unfolding expire_reconnect
  reconnect-SameLists m m' a e = ground arith

  idle-SameLists :
      (m m' : Manager P) (a : ℕ)
      → expire_idle ops env fuel m a ≡ done m'
      → SameLists m m'
        × (m'.reconnect_cache ≡ m.reconnect_cache)
        × (m'.reconnect_timeout ≡ m.reconnect_timeout)
  unfolding expire_idle close_session
  idle-SameLists m m' a e = ground arith

  reconnects_lists :
      (ts : List Timer) (m m' : Manager P)
      → expire_reconnects ops env fuel ts m ≡ done m'
      → SameLists m m' × (m'.reconnect_timeout ≡ drop_expired env.now ts)
  unfolding expire_reconnects drop_expired
  reconnects_lists [] m m' e = ground arith
  reconnects_lists (t ∷ ts) m m' e = elim (Outcome-cases (expire_reconnect ops env fuel m t.s)) [
    | inl (m1, h) ↦ ground (arith, h, reconnect-SameLists m m1 t.s, reconnects_lists ts m1 m')
    | inr h ↦ ground (arith, h)
  ]

  -- An id that is not in the reconnect cache does not come back.
  reconnects_forget :
      (k : ℕ) (ts : List Timer) (m m' : Manager P)
      → lookup k m.reconnect_cache ≡ none
      → expire_reconnects ops env fuel ts m ≡ done m'
      → lookup k m'.reconnect_cache ≡ none
  unfolding expire_reconnects
  reconnects_forget k [] m m' h e = ground arith
  reconnects_forget k (t ∷ ts) m m' h e =
      elim (Outcome-cases (expire_reconnect ops env fuel m t.s)) [
        | inl (m1, q) ↦ ground (
          arith,
          q,
          reconnect-SameLists m m1 t.s,
          lookup-erase (m.sessions t.s).id k m.reconnect_cache,
          reconnects_forget k ts m1 m',
        )
        | inr q ↦ ground (arith, q)
      ]

  idles_lists :
      (ts : List Timer) (m m' : Manager P)
      → expire_idles ops env fuel ts m ≡ done m'
      → (m'.first_idle ≡ drop_expired env.now ts)
        × (m'.last_tick_time ≡ m.last_tick_time)
        × (m'.actived_sessions ≡ m.actived_sessions)
        × (m'.reconnect_cache ≡ m.reconnect_cache)
        × (m'.reconnect_timeout ≡ m.reconnect_timeout)
  unfolding expire_idles drop_expired
  idles_lists [] m m' e = ground arith
  idles_lists (t ∷ ts) m m' e = elim (Outcome-cases (expire_idle ops env fuel m t.s)) [
    | inl (m1, h) ↦ ground (arith, h, idle-SameLists m m1 t.s, idles_lists ts m1 m')
    | inr h ↦ ground (arith, h)
  ]

  -- A tick in a new second drops, from the front of each list, the timers whose time has come, and
  -- leaves the others in their order; it does nothing to the active sessions.
  tick-timers :
      (m m' : Manager P)
      → m.last_tick_time ≢ env.now
      → tick ops env fuel m ≡ done m'
      → (m'.reconnect_timeout ≡ drop_expired env.now m.reconnect_timeout)
        × (m'.first_idle ≡ drop_expired env.now m.first_idle)
        × (m'.last_tick_time ≡ env.now)
        × (m'.actived_sessions ≡ m.actived_sessions)
  unfolding tick
  tick-timers m m' ne e =
      let m0 = record m { last_tick_time = env.now } in
      elim (Outcome-cases (expire_reconnects ops env fuel m.reconnect_timeout m0)) [
        | inl (m1, h) ↦
            ground (
              arith,
              h,
              reconnects_lists m.reconnect_timeout m0 m1,
              idles_lists m1.first_idle m1 m',
            )
        | inr h ↦ ground (arith, h)
      ]

  -- A reconnect timer that runs out takes its session's id out of the reconnect cache, whoever is
  -- there under that id: a later session `b` that had taken over from the session of the timer, and is
  -- now waiting for its own client to reconnect, can not be reconnected to any more, although its own
  -- timer has not run out.
  pub tick-forgets_newer :
      (m m' : Manager P) (t : Timer) (ts : List Timer) (b : ℕ)
      → m.last_tick_time ≢ env.now
      → m.reconnect_timeout ≡ t ∷ ts
      → t.timeout ≤ env.now
      → lookup (m.sessions t.s).id m.reconnect_cache ≡ some b
      → b ≢ t.s
      → tick ops env fuel m ≡ done m'
      → lookup (m.sessions t.s).id m'.reconnect_cache ≡ none
  unfolding tick expire_reconnects
  tick-forgets_newer m m' t ts b ne l due c new e =
      let m0 = record m { last_tick_time = env.now } in
      let k = (m.sessions t.s).id in
      elim (Outcome-cases (expire_reconnect ops env fuel m0 t.s)) [
        | inl (m1, h) ↦ elim (Outcome-cases (expire_reconnects ops env fuel ts m1)) [
          | inl (m2, q) ↦ ground (
            arith,
            h,
            q,
            reconnect-SameLists m0 m1 t.s,
            lookup-erase k k m.reconnect_cache,
            reconnects_forget k ts m1 m2,
            idles_lists m2.first_idle m2 m',
          )
          | inr q ↦ ground (arith, h, q)
        ]
        | inr h ↦ ground (arith, h)
      ]

-- ===== src/Gateway/Reconnect/Takeover.antt =====
-- A client that comes back (atgateway/session_manager.cpp, `reconnect`).
use atsf4g_co.Base.{
  ℕ, suc, ℤ, pos, ◌≡◌, ◌≢◌, refl, Bool, true, false, Option, none, some, eq_self, arith, is_zero,
  inl, inr, Option-cases,
}
use atsf4g_co.Base.Assoc.{lookup, erase, lookup-erase}
use atsf4g_co.Gateway.Calls.{init_reconnect, renewed, retired}
use atsf4g_co.Gateway.Codes.{crt_logout}
use atsf4g_co.Gateway.Flags.{inited, has_fd, registered, reconnected, closing}
use atsf4g_co.Gateway.Manager.{Manager, put, close_session}
use atsf4g_co.Gateway.Proto.{ProtoOps}
use atsf4g_co.Gateway.Reconnect.{find_old, try_take_over, take_over, reconnect, proto_check}
use atsf4g_co.Gateway.Session.{close, close_with_manager, finish_close, close_fd}
use atsf4g_co.Gateway.State.{Env, check_flag, set_flag, done, Net}

module _ {P : Type 0} (ops : ProtoOps P) (env : Env) where
  -- A session that has been taken over, and has no connection, is closed without a message.
  close_reconnected :
      (fuel : ℕ) (n : Net P) (r : ℕ)
      → check_flag n.sess reconnected ≡ true
      → check_flag n.sess has_fd ≡ false
      → close ops env (suc fuel) n r ≡ done (record n { sess = set_flag n.sess closing true })
  unfolding close close_with_manager finish_close close_fd
  close_reconnected fuel n r h k = ground arith

  -- What a reconnection leaves behind: the new session is the old one to the server, and the old one
  -- is closed and can not be taken over again.
  pub record TakenOver (m m' : Manager P) (new old_id a : ℕ) : Type 0 where
    pub same_id : (m'.sessions new).id ≡ (m.sessions a).id
    pub same_router : (m'.sessions new).router ≡ (m.sessions a).router
    pub same_data : (m'.sessions new).private_data ≡ (m.sessions a).private_data
    pub same_registration :
        check_flag (m'.sessions new) registered ≡ check_flag (m.sessions a) registered
    pub started : check_flag (m'.sessions new) inited ≡ true
    pub old_taken : check_flag (m'.sessions a) reconnected ≡ true
    pub old_closing : check_flag (m'.sessions a) closing ≡ true
    pub untold : m'.sent ≡ m.sent
    pub forgotten : lookup old_id m'.reconnect_cache ≡ none

  -- The table after the new session has taken over.
  pub after : Manager P → ℕ → ℕ → ℕ → Manager P
  after m new old_id a =
      let old = retired (m.sessions a) in
      let both = put (put m new (renewed env (m.sessions new) (m.sessions a))) a old in
      record (put both a (set_flag old closing true)) {
        reconnect_cache = erase old_id m.reconnect_cache;
      }

  take_over_lem :
      (fuel : ℕ) (m : Manager P) (new old_id a : ℕ)
      → new ≢ a
      → (m.sessions new).owner ≡ true
      → check_flag (m.sessions a) has_fd ≡ false
      → take_over ops env (suc fuel) m new old_id a ≡ done (after m new old_id a, pos 0)
  unfolding take_over close_session init_reconnect after
  take_over_lem fuel m new old_id a ne o h = simp (
    o,
    eq_self,
    close_reconnected fuel (record { sess = retired (m.sessions a); sent = m.sent }) crt_logout
        (unfold retired in refl) (unfold retired in h),
  )

  after-TakenOver :
      (m : Manager P) (new old_id a : ℕ) → new ≢ a → TakenOver m (after m new old_id a) new old_id a
  unfolding after renewed retired
  after-TakenOver m new old_id a ne =
      let e : lookup old_id (erase old_id m.reconnect_cache) ≡ none =
        rw (lookup-erase old_id old_id m.reconnect_cache, eq_self old_id) refl in
      ground arith

  -- A session of the reconnect cache without a connection, which nobody has taken over yet, is taken
  -- over by a new session whose protocol accepts the old one's: `reconnect` returns 0, with any
  -- fuel but none; the new session has the old one's id, router, private data and registration; the
  -- old one is marked as reconnected and is closing; the id is out of the cache; and no message
  -- went to the server.
  pub reconnect-takes_over :
      (fuel : ℕ) (m : Manager P) (new old_id a : ℕ)
      → lookup old_id m.reconnect_cache ≡ some a
      → new ≢ a
      → (m.sessions new).owner ≡ true
      → check_flag (m.sessions a) has_fd ≡ false
      → check_flag (m.sessions a) reconnected ≡ false
      → proto_check ops (m.sessions new).proto (m.sessions a).proto ≡ some true
      → (m' : Manager P) × (reconnect ops env (suc fuel) m new old_id ≡ done (m', pos 0))
        × TakenOver m m' new old_id a
  unfolding reconnect try_take_over
  reconnect-takes_over fuel m new old_id a c ne o h k p = (
    after m new old_id a,
    simp (c, h, k, p, take_over_lem fuel m new old_id a ne o h),
    after-TakenOver m new old_id a ne,
  )

  take_over-zero :
      (fuel : ℕ) (m m' : Manager P) (new old_id a : ℕ) (ret : ℤ)
      → take_over ops env fuel m new old_id a ≡ done (m', ret)
      → ret ≡ pos 0
  unfolding take_over close_session init_reconnect
  take_over-zero fuel m m' new old_id a ret e = ground arith

  try_refused :
      (fuel : ℕ) (m m' : Manager P) (new old_id : ℕ) (checked : Bool) (c : Option ℕ) (ret : ℤ)
      → try_take_over ops env fuel m new old_id checked c ≡ done (m', ret)
      → is_zero ret ≡ false
      → m' ≡ m
  unfolding try_take_over
  try_refused fuel m m' new old_id checked none ret e nz = ground arith
  try_refused fuel m m' new old_id checked (some a) ret e nz =
      ground (arith, take_over-zero fuel m m' new old_id a ret)

  -- A reconnection to an id that no active session has either returns 0 or leaves the table, the
  -- sessions and the messages as they were.
  reconnect_refused-unchanged :
      (fuel : ℕ) (m m' : Manager P) (new old_id : ℕ) (ret : ℤ)
      → lookup old_id m.actived_sessions ≡ none
      → reconnect ops env fuel m new old_id ≡ done (m', ret)
      → is_zero ret ≡ false
      → m' ≡ m
  unfolding reconnect find_old
  reconnect_refused-unchanged fuel m m' new old_id ret n e nz =
      elim (Option-cases (lookup old_id m.reconnect_cache)) [
        | inl c ↦ try_refused fuel m m' new old_id false none ret (simp (c, n) at e) nz
        | inr (a, c) ↦ try_refused fuel m m' new old_id false (some a) ret (simp c at e) nz
      ]

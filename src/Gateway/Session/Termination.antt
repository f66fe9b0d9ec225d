-- ===== src/Gateway/Session/Termination.antt =====
-- When `close` comes back (atgateway/session.cpp, `close_with_manager`). It may tell the server, the
-- message is counted against the limits, and a limit that is passed calls `close` again before the
-- session is marked as closing or as no longer registered.
use atsf4g_co.Base.{
  ℕ, zero, suc, ◌/◌, ◌≡◌, ◌≢◌, refl, Bool, true, false, not, ◌||◌, none, some, List, ◌==◌,
  if◌then◌else◌, is_zero, arith, Bool-cases, Option-cases, inl, inr,
}
use atsf4g_co.Gateway.Codes.{crt_trafic_extended}
use atsf4g_co.Gateway.Flags.{has_fd, closing_fd, registered, closing}
use atsf4g_co.Gateway.Limits.{Closer, exceeds, check_hour_limit, check_limits, count_recv}
use atsf4g_co.Gateway.Limits.Quiet.{Quiet, settle, settle-frame, check_limits-Quiet}
use atsf4g_co.Gateway.Proto.{ProtoOps}
use atsf4g_co.Gateway.Session.{
  post_data, send_to_server, send_remove_session, unregister_if, must_notify, finish_close,
  close_with_manager,
}
use atsf4g_co.Gateway.State.{
  SsMsg, remove_session, Sent, Env, Session, check_flag, done, no_fuel, ◌>>=◌, Net,
}

-- The message that tells the server of the end of a session.
abbrev farewell : {P : Type 0} → Session P → SsMsg
farewell s = remove_session s.id s.peer_ip s.peer_port

module _ {P : Type 0} (ops : ProtoOps P) (env : Env) where
  -- No limit is passed once that message is counted.
  abbrev pub IsQuiet : Net P → Type 0
  IsQuiet n =
      (len : ℕ)
      → env.packed_size (farewell n.sess) ≡ some len
      → Quiet env.conf.limits (count_recv n.sess.limit len)

  -- The session and the messages after the server was told.
  pub notify : Bool → Net P → Net P
  notify mgr n =
      let (sent', ret) = post_data env n.sent n.sess.router (farewell n.sess) in
      if n.sess.router == 0
      then n
      else if not (mgr || n.sess.owner)
      then n
      else elim (env.packed_size (farewell n.sess)) [
        | none ↦ n
        | some len ↦ unregister_if ops env (is_zero ret) (
            settle ops env (record {
              sess = record n.sess { limit = count_recv n.sess.limit len };
              sent = sent';
            }))
      ]

  pub notify-frame :
      (mgr : Bool) (n : Net P)
      → ((notify mgr n).sess.owner ≡ n.sess.owner)
        × (check_flag (notify mgr n).sess has_fd ≡ check_flag n.sess has_fd)
        × (check_flag (notify mgr n).sess closing ≡ check_flag n.sess closing)
        × (check_flag (notify mgr n).sess closing_fd ≡ check_flag n.sess closing_fd)
  unfolding notify unregister_if
  notify-frame mgr n = elim (Option-cases (env.packed_size (farewell n.sess))) [
    | inl e ↦ ground (arith, e)
    | inr (len, e) ↦ ground (
      arith,
      e,
      settle-frame ops env (record {
        sess = record n.sess { limit = count_recv n.sess.limit len };
        sent = (post_data env n.sent n.sess.router (farewell n.sess)).0;
      }),
    )
  ]

  send_remove_quiet :
      (close : Closer P) (mgr : Bool) (n : Net P) (reason : ℕ)
      → IsQuiet n
      → check_flag n.sess registered ≡ true
      → (send_remove_session ops env close mgr n >>= λ r. done (finish_close ops env r.0 reason))
        ≡ done (finish_close ops env (notify mgr n) reason)
  unfolding notify send_remove_session send_to_server
  send_remove_quiet close mgr n reason q r =
      elim (Option-cases (env.packed_size (farewell n.sess))) [
        | inl e ↦ ground (arith, e)
        | inr (len, e) ↦
            let c = post_data env n.sent n.sess.router (farewell n.sess) in
            ground (
              arith,
              e,
              check_limits-Quiet ops env close
                  (record {
                    sess = record n.sess { limit = count_recv n.sess.limit len };
                    sent = c.0;
                  })
                  (q len e),
            )
      ]

  -- The session and the messages after `close_with_manager`, by one pass over it.
  unfoldable pub closed : Bool → Net P → ℕ → Net P
  closed mgr n reason =
      finish_close ops env (if must_notify ops env n.sess then notify mgr n else n) reason

  -- Where counting the message about the end of the session passes no limit, `close_with_manager`
  -- enters itself no second time: with any fuel but none it returns, and with the one result that a
  -- single pass computes.
  pub close-returns :
      (fuel : ℕ) (mgr : Bool) (n : Net P) (reason : ℕ)
      → IsQuiet n
      → close_with_manager ops env (suc fuel) mgr n reason ≡ done (closed mgr n reason)
  unfolding close_with_manager closed
  close-returns fuel mgr n reason q = elim (Bool-cases (must_notify ops env n.sess)) [
    | inl e ↦ rw e (
        send_remove_quiet (λ m. close_with_manager ops env fuel m.sess.owner m crt_trafic_extended)
          mgr n reason q (ground arith))
    | inr e ↦ rw e
  ]

  -- A registered session whose bytes sent to the client in this hour have passed their limit, which
  -- no check of `send_to_client` looks at.
  pub record Doomed (n : Net P) : Type 0 where
    pub owned : n.sess.owner ≡ true
    pub notifies : must_notify ops env n.sess ≡ true
    pub open_yet : check_flag n.sess closing ≡ false
    pub routed : n.sess.router ≢ 0
    pub this_hour : n.sess.limit.hour_timepoint ≡ env.now / env.day_seconds
    pub passed :
        exceeds env.conf.limits.hour_send_bytes n.sess.limit.hour_send_bytes
          env.conf.limits.hour_send_bytes
        ≡ true
    pub packs : (len : ℕ) × (env.packed_size (farewell n.sess) ≡ some len)

  hour-Doomed :
      (close : Closer P) (n : Net P)
      → Doomed n
      → close n ≡ no_fuel
      → check_hour_limit ops env close true false n ≡ no_fuel
  unfolding check_hour_limit
  hour-Doomed close n d h = ground arith

  counted-Doomed :
      (n : Net P) (sent' : List Sent) (len : ℕ)
      → Doomed n
      → Doomed
          (record { sess = record n.sess { limit = count_recv n.sess.limit len }; sent = sent' })
  unfolding count_recv
  counted-Doomed n sent' len d = record {
    owned = d.owned;
    notifies = d.notifies;
    open_yet = d.open_yet;
    routed = d.routed;
    this_hour = d.this_hour;
    passed = d.passed;
    packs = d.packs;
  }

  -- Such a session cannot be closed: `close_with_manager` tells the server, the check after the
  -- message calls `close`, which tells the server again, and so on. No fuel is enough.
  pub close-diverges :
      (fuel : ℕ) (mgr : Bool) (n : Net P) (reason : ℕ)
      → Doomed n
      → close_with_manager ops env fuel mgr n reason ≡ no_fuel
  unfolding close_with_manager send_remove_session send_to_server check_limits
  close-diverges zero mgr n reason d = refl
  close-diverges (suc fuel) mgr n reason d =
      let len = d.packs.0 in
      let c = post_data env n.sent n.sess.router (farewell n.sess) in
      let n' : Net P = record {
        sess = record n.sess { limit = count_recv n.sess.limit len };
        sent = c.0;
      } in
      let d' : Doomed n' = counted-Doomed n c.0 len d in
      ground (
        arith,
        d.packs.1,
        hour-Doomed (λ m. close_with_manager ops env fuel m.sess.owner m crt_trafic_extended) n' d'
            (close-diverges fuel n'.sess.owner n' crt_trafic_extended d'),
      )

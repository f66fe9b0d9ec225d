-- ===== src/Gateway/Session/Keeps.antt =====
-- What every call of a session keeps (atgateway/session.cpp): a property that sending, closing and a
-- write to the limits or to the protocol object keep is kept by `close`, whatever its fuel.
use atsf4g_co.Base.{
  ℕ, zero, suc, ℤ, pos, ◌≡◌, refl, Bool, true, false, not, ◌&&◌, ◌||◌, Option, none, some, List,
  ◌==◌, if◌then◌else◌, Bool-cases, inl, inr, is_zero,
}
use mathlib.Core.Path.{subst}
use atsf4g_co.Gateway.Codes.{crt_trafic_extended, ect_invalid_router, ect_lost_manager}
use atsf4g_co.Gateway.Flags.{registered}
use atsf4g_co.Gateway.Limits.{
  Closer, exceeds, is_due, close_if, close_ifs, check_hour_limit, check_minute_limit,
  check_total_limit, check_limits, update_key,
}
use atsf4g_co.Gateway.Proto.{ProtoOps}
use atsf4g_co.Gateway.Session.{
  post_data, deliver, send_to_server, send_remove_session, unregister_if, finish_close,
  close_with_manager, closer,
}
use atsf4g_co.Gateway.State.{
  Limit, SsMsg, Sent, Env, set_flag, check_flag, remove_session, Outcome, done, null_deref, no_fuel,
  ◌>>=◌, Net,
}

-- A property of the result, where there is one.
pub data Holds {A : Type 0} (J : A → Type 0) : Outcome A → Type 0 where
  result : {a : A} → J a → Holds J (done a)
  crashed : Holds J null_deref
  unfinished : Holds J no_fuel

Holds-done : {A : Type 0} {J : A → Type 0} {a : A} → Holds J (done a) → J a
Holds-done (result h) = h

pub Holds-of :
    {A : Type 0} {J : A → Type 0} (o : Outcome A) → ((a : A) → o ≡ done a → J a) → Holds J o
Holds-of (done a) f = result (f a refl)
Holds-of null_deref f = crashed
Holds-of no_fuel f = unfinished

pub of_Holds : {A : Type 0} {J : A → Type 0} {o : Outcome A} {a : A} → Holds J o → o ≡ done a → J a
of_Holds {J} h e = Holds-done (subst (Holds J) e h)

pub Holds->>= :
    {A B : Type 0} {J : A → Type 0} {K : B → Type 0} {m : Outcome A} {f : A → Outcome B}
    → Holds J m
    → ((a : A) → J a → Holds K (f a))
    → Holds K (m >>= f)
Holds->>= (result {a} h) k = k a h
Holds->>= crashed k = crashed
Holds->>= unfinished k = unfinished

pub Holds-if :
    {A : Type 0} {J : A → Type 0} {m n : Outcome A} (b : Bool)
    → Holds J m
    → Holds J n
    → Holds J (if b then m else n)
Holds-if true h k = h
Holds-if false h k = k

-- The writes that do not matter to `J`.
pub record Stable {P : Type 0} (J : Net P → Type 0) : Type 0 where
  pub limit_proto :
      (n : Net P) (l : Limit) (p : Option P)
      → J n
      → J (record n { sess = record n.sess { limit = l; proto = p } })
  pub sending : (n : Net P) (sent' : List Sent) → J n → J (record n { sent = sent' })
  pub registration :
      (n : Net P) (b : Bool) → J n → J (record n { sess = set_flag n.sess registered b })

module _ {P : Type 0} (ops : ProtoOps P) (env : Env) (J : Net P → Type 0) (stable : Stable J)
    (finishes : (n : Net P) (r : ℕ) → J n → J (finish_close ops env n r)) where
  module _ (close : Closer P) (closes : (n : Net P) → J n → Holds J (close n)) where
    close_if-keeps :
        (b : Bool) (over : Limit → Bool) (n : Net P) → J n → Holds J (close_if close b over n)
    unfolding close_if
    close_if-keeps b over n h =
        Holds-if (not b) (result h) (
          Holds-if (not n.sess.owner) crashed
            (Holds-if (over n.sess.limit) (closes n h) (result h)))

    close_ifs-keeps :
        (r s : Bool) (o1 o2 o3 o4 : Limit → Bool) (n : Net P)
        → J n
        → Holds J (close_ifs close r s o1 o2 o3 o4 n)
    unfolding close_ifs
    close_ifs-keeps r s o1 o2 o3 o4 n h =
        Holds->>=
          {f = λ n1.
            close_if close r o2 n1 >>= λ n2. close_if close s o3 n2 >>= close_if close s o4}
          (close_if-keeps r o1 n h)
          (λ n1 h1.
            Holds->>= {f = λ n2. close_if close s o3 n2 >>= close_if close s o4}
              (close_if-keeps r o2 n1 h1)
              (λ n2 h2.
                Holds->>= {f = close_if close s o4} (close_if-keeps s o3 n2 h2)
                  (close_if-keeps s o4)))

    hour-keeps : (r s : Bool) (n : Net P) → J n → Holds J (check_hour_limit ops env close r s n)
    unfolding check_hour_limit
    hour-keeps r s n h = Holds-if _ (result (stable.limit_proto n _ n.sess.proto h)) (
        Holds-if _ (result h) (
          close_ifs-keeps r s
            (λ x.
              exceeds env.conf.limits.hour_recv_bytes x.hour_recv_bytes
                env.conf.limits.hour_recv_bytes)
            (λ x.
              exceeds env.conf.limits.hour_send_bytes x.hour_send_bytes
                env.conf.limits.hour_send_bytes)
            (λ x.
              exceeds env.conf.limits.hour_recv_times x.hour_recv_times
                env.conf.limits.hour_recv_times)
            (λ x.
              exceeds env.conf.limits.hour_send_times x.hour_send_times
                env.conf.limits.hour_send_times)
            n h))

    update_key-keeps : (n : Net P) → J n → J (update_key ops env n)
    unfolding update_key
    update_key-keeps n h = elim (Bool-cases (is_due ops env n.sess)) [
      | inl e ↦ rw e (stable.limit_proto n _ _ h)
      | inr e ↦ rw e h
    ]

    minute-keeps : (r s : Bool) (n : Net P) → J n → Holds J (check_minute_limit ops env close r s n)
    unfolding check_minute_limit
    minute-keeps r s n h =
        let c = env.conf.limits in
        let l = n.sess.limit in
        Holds-if _ (result (stable.limit_proto n _ n.sess.proto h)) (
          Holds-if _ (result h) (
            Holds-if (r && exceeds c.minute_recv_bytes l.minute_recv_bytes c.minute_recv_bytes)
              (closes n h)
              (Holds-if (r && exceeds c.minute_recv_times l.minute_recv_times c.minute_recv_times)
                (closes n h)
                (Holds-if (s && exceeds c.minute_send_bytes l.minute_send_bytes c.minute_send_bytes)
                  (closes n h)
                  (Holds-if
                    (s && exceeds c.minute_send_times l.minute_send_times c.minute_send_times)
                    (closes n h) (result (update_key-keeps n h)))))))

    total-keeps : (r s : Bool) (n : Net P) → J n → Holds J (check_total_limit ops env close r s n)
    unfolding check_total_limit
    total-keeps r s n h = Holds-if _ (result h) (
        close_ifs-keeps r s
          (λ x.
            exceeds env.conf.limits.total_recv_bytes x.total_recv_bytes
              env.conf.limits.total_send_bytes)
          (λ x.
            exceeds env.conf.limits.total_recv_times x.total_recv_times
              env.conf.limits.total_recv_times)
          (λ x.
            exceeds env.conf.limits.total_send_bytes x.total_send_bytes
              env.conf.limits.total_send_bytes)
          (λ x.
            exceeds env.conf.limits.total_send_times x.total_send_times
              env.conf.limits.total_send_times)
          n h)

    pub limits-keeps : (r s : Bool) (n : Net P) → J n → Holds J (check_limits ops env close r s n)
    unfolding check_limits
    limits-keeps r s n h =
        Holds->>=
          {f = λ n1.
            check_minute_limit ops env close r s n1 >>= check_total_limit ops env close r s}
          (hour-keeps r s n h)
          (λ n1 h1.
            Holds->>= {f = check_total_limit ops env close r s} (minute-keeps r s n1 h1)
              (total-keeps r s))

    deliver-keeps :
        (n : Net P) (msg : SsMsg) (packed : Option ℕ)
        → J n
        → Holds (λ (r : Net P × ℤ). J r.0) (deliver ops env close n msg packed)
    unfolding deliver
    deliver-keeps n msg none h = result h
    deliver-keeps n msg (some len) h =
        Holds->>=
          (limits-keeps true false _ (
            stable.limit_proto _ _ _
              (stable.sending n (post_data env n.sent n.sess.router msg).0 h)))
          (λ n' h'. result h')

    pub server-keeps :
        (mgr : Bool) (n : Net P) (msg : SsMsg)
        → J n
        → Holds (λ (r : Net P × ℤ). J r.0) (send_to_server ops env close mgr n msg)
    unfolding send_to_server
    server-keeps mgr n msg h =
        Holds-if (n.sess.router == 0) (result {a = (n, ect_invalid_router)} h) (
          Holds-if (not (mgr || n.sess.owner)) (result {a = (n, ect_lost_manager)} h)
            (deliver-keeps n msg (env.packed_size msg) h))

    unregister-keeps : (b : Bool) (n : Net P) → J n → J (unregister_if ops env b n)
    unfolding unregister_if
    unregister-keeps true n h = stable.registration n false h
    unregister-keeps false n h = h

    remove-keeps :
        (mgr : Bool) (n : Net P)
        → J n
        → Holds (λ (r : Net P × ℤ). J r.0) (send_remove_session ops env close mgr n)
    unfolding send_remove_session
    remove-keeps mgr n h =
        Holds-if (not (check_flag n.sess registered)) (result {a = (n, pos 0)} h) (
          Holds->>= {f = λ r. done (unregister_if ops env (is_zero r.1) r.0, r.1)}
            (server-keeps mgr n (remove_session n.sess.id n.sess.peer_ip n.sess.peer_port) h)
            (λ r h'. result (unregister-keeps (is_zero r.1) r.0 h')))

  -- `close_with_manager` keeps the property, and so does every call of it from inside a message.
  pub close_with_manager-keeps :
      (fuel : ℕ) (mgr : Bool) (n : Net P) (reason : ℕ)
      → J n
      → Holds J (close_with_manager ops env fuel mgr n reason)
  unfolding close_with_manager
  close_with_manager-keeps zero mgr n reason h = unfinished
  close_with_manager-keeps (suc fuel) mgr n reason h =
      Holds-if _
        (Holds->>=
          (remove-keeps (λ m. close_with_manager ops env fuel m.sess.owner m crt_trafic_extended)
            (λ m h'. close_with_manager-keeps fuel m.sess.owner m crt_trafic_extended h') mgr n h)
          (λ r h'. result (finishes r.0 reason h')))
        (result (finishes n reason h))

  pub closer-keeps : (fuel : ℕ) (n : Net P) → J n → Holds J (closer ops env fuel n)
  unfolding closer
  closer-keeps fuel n h = close_with_manager-keeps fuel n.sess.owner n crt_trafic_extended h

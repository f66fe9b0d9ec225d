-- ===== src/Gateway/Calls/Lifecycle.antt =====
-- The life of a session from its creation on, over any sequence of calls (atgateway/session.cpp).
use atsf4g_co.Base.{
  ℕ, ℤ, pos, ◌≡◌, Bool, true, false, not, Option, none, some, List, [], ◌∷◌, if◌then◌else◌, arith,
  is_zero, is_neg, ◌⊎◌,
}
use atsf4g_co.Gateway.Calls.{
  accept, init_new_session, send_new_session, register_if, send_to_client, on_alloc_read, on_read,
  on_write_done, on_evt_closed, write_to, read_from,
}
use atsf4g_co.Gateway.Codes.{ect_closing, ect_bad_protocol, crt_invalid_data}
use atsf4g_co.Gateway.Flags.{has_fd, registered, wait_reconnect, closing, closing_fd}
use atsf4g_co.Gateway.Limits.{count_send}
use atsf4g_co.Gateway.Proto.{ProtoOps}
use atsf4g_co.Gateway.Session.{close_fd, finish_close, close_with_manager, close, closer}
use atsf4g_co.Gateway.Session.Keeps.{
  Holds, result, crashed, of_Holds, Holds->>=, Holds-if, Stable, close_with_manager-keeps,
  closer-keeps, limits-keeps, server-keeps,
}
use atsf4g_co.Gateway.State.{
  add_session, Sent, Env, Session, create, set_flag, check_flag, Outcome, done, ◌>>=◌, Net,
}

-- What holds of a session between two calls: one that is closing, or whose handle is, has no
-- connection, no way back to its manager, and exactly one pointer that keeps it alive.
pub record Inv {P : Type 0} (s : Session P) : Type 0 where
  pub closing_no_fd : check_flag s closing ≡ true → check_flag s has_fd ≡ false
  pub detached : check_flag s closing_fd ≡ true → s.owner ≡ false
  pub orphan_no_fd : s.owner ≡ false → check_flag s has_fd ≡ false
  pub held : s.holders ≡ (if check_flag s closing_fd then 1 else 0)

-- The calls that a session gets. Each comes with what it reads of the outside at that time.
pub data Call : Type 0 where
  inits : ℕ → ℕ → Call
  registers : Call
  sends : ℕ → Call
  reads : List ℕ → Call
  allocs : Call
  writes_done : ℤ → Call
  waits : Bool → Call
  closes_fd : ℕ → Call
  closes : Bool → ℕ → Call
  handle_closed : Call

module _ {P : Type 0} (ops : ProtoOps P) where
  unfoldable pub step : ℕ → Net P → Env → Call → Outcome (Net P)
  step fuel n env (inits new_id router) =
      init_new_session env n.sess new_id router >>= λ s. done (record n { sess = s })
  step fuel n env registers = send_new_session ops env fuel n >>= λ r. done r.0
  step fuel n env (sends len) = send_to_client ops env fuel n len >>= λ r. done r.0
  step fuel n env (reads buff) = on_read ops env fuel n buff
  step fuel n env allocs = done (on_alloc_read ops env n)
  step fuel n env (writes_done status) = done (on_write_done ops env n status).0
  step fuel n env (waits v) = done (record n { sess = set_flag n.sess wait_reconnect v })
  step fuel n env (closes_fd reason) = done (close_fd ops env n reason)
  step fuel n env (closes mgr reason) = close_with_manager ops env fuel mgr n reason
  step fuel n env handle_closed = done (record n { sess = on_evt_closed n.sess })

  unfoldable pub run : ℕ → Net P → List (Env × Call) → Outcome (Net P)
  run fuel n [] = done n
  run fuel n ((env, c) ∷ cs) = step fuel n env c >>= λ m. run fuel m cs

  abbrev J : Net P → Type 0
  J n = Inv n.sess

  close_fd-Inv : (env : Env) (n : Net P) (r : ℕ) → J n → J (close_fd ops env n r)
  unfolding close_fd
  close_fd-Inv env n r v = ground arith

  finish_close-Inv : (env : Env) (n : Net P) (r : ℕ) → J n → J (finish_close ops env n r)
  unfolding finish_close
  finish_close-Inv env n r v = ground arith

  J-Stable : Stable J
  J-Stable = record {
    limit_proto = λ n l p v. record {
      closing_no_fd = v.closing_no_fd;
      detached = v.detached;
      orphan_no_fd = v.orphan_no_fd;
      held = v.held;
    };
    sending = λ n s v. v;
    registration = λ n b v. record {
      closing_no_fd = v.closing_no_fd;
      detached = v.detached;
      orphan_no_fd = v.orphan_no_fd;
      held = v.held;
    };
  }

  abbrev J₀ : Net P × ℤ → Type 0
  J₀ r = Inv r.0.sess

  init-Inv :
      (env : Env) (s : Session P) (new_id router : ℕ)
      → Inv s
      → Holds Inv (init_new_session env s new_id router)
  unfolding init_new_session
  init-Inv env s new_id router v = Holds-if (not s.owner) crashed (result (ground arith))

  register_if-Inv : (env : Env) (b : Bool) (n : Net P) → J n → J (register_if ops env b n)
  unfolding register_if
  register_if-Inv env true n v = J-Stable.registration n true v
  register_if-Inv env false n v = v

  new-Inv : (env : Env) (fuel : ℕ) (n : Net P) → J n → Holds J₀ (send_new_session ops env fuel n)
  unfolding send_new_session
  new-Inv env fuel n v = Holds-if (check_flag n.sess registered) (result {a = (n, pos 0)} v) (
      Holds->>= {f = λ r. done (register_if ops env (is_zero r.1) r.0, r.1)}
        (server-keeps ops env J J-Stable (finish_close-Inv env) (closer ops env fuel)
          (closer-keeps ops env J J-Stable (finish_close-Inv env) fuel) n.sess.owner n
          (add_session n.sess.id n.sess.peer_ip n.sess.peer_port) v)
        (λ r v'. result (register_if-Inv env (is_zero r.1) r.0 v')))

  write-Inv :
      (env : Env) (fuel : ℕ) (n : Net P) (len : ℕ) (proto : Option P)
      → J n
      → Holds J₀ (write_to ops env fuel n len proto)
  unfolding write_to
  write-Inv env fuel n len none v = result {a = (n, ect_bad_protocol)} v
  write-Inv env fuel n len (some p) v =
      Holds->>=
        (limits-keeps ops env J J-Stable (finish_close-Inv env) (closer ops env fuel)
          (closer-keeps ops env J J-Stable (finish_close-Inv env) fuel) false true _
          (J-Stable.limit_proto n (count_send n.sess.limit len) (some (ops.write p len).0) v))
        (λ n' v'. result v')

  send-Inv :
      (env : Env) (fuel : ℕ) (n : Net P) (len : ℕ)
      → J n
      → Holds J₀ (send_to_client ops env fuel n len)
  unfolding send_to_client
  send-Inv env fuel n len v =
      Holds-if (check_flag n.sess closing) (result {a = (n, ect_closing)} v) (
        Holds-if (not (check_flag n.sess has_fd)) (result {a = (n, ect_closing)} v)
          (write-Inv env fuel n len n.sess.proto v))

  read-Inv :
      (env : Env) (fuel : ℕ) (n : Net P) (buff : List ℕ) (proto : Option P)
      → J n
      → Holds J (read_from ops env fuel n buff proto)
  unfolding read_from close
  read-Inv env fuel n buff none v = result v
  read-Inv env fuel n buff (some p) v =
      let v' = J-Stable.limit_proto n n.sess.limit (some (ops.read p buff).0) v in
      Holds-if (is_neg (ops.read p buff).1)
        (close_with_manager-keeps ops env J J-Stable (finish_close-Inv env) fuel n.sess.owner _
          crt_invalid_data v')
        (result v')

  alloc-Inv : (env : Env) (n : Net P) → J n → J (on_alloc_read ops env n)
  unfolding on_alloc_read close_fd
  alloc-Inv env n v = ground arith

  done-Inv : (env : Env) (n : Net P) (status : ℤ) → J n → J (on_write_done ops env n status).0
  unfolding on_write_done
  done-Inv env n status v = ground arith

  step-Inv : (fuel : ℕ) (n : Net P) (env : Env) (c : Call) → J n → Holds J (step fuel n env c)
  unfolding step on_read on_evt_closed
  step-Inv fuel n env (inits new_id router) v =
      Holds->>= (init-Inv env n.sess new_id router v) (λ s v'. result v')
  step-Inv fuel n env registers v = Holds->>= (new-Inv env fuel n v) (λ r v'. result v')
  step-Inv fuel n env (sends len) v = Holds->>= (send-Inv env fuel n len v) (λ r v'. result v')
  step-Inv fuel n env (reads buff) v = read-Inv env fuel n buff n.sess.proto v
  step-Inv fuel n env allocs v = result (alloc-Inv env n v)
  step-Inv fuel n env (writes_done status) v = result (done-Inv env n status v)
  step-Inv fuel n env (waits b) v = result (record {
    closing_no_fd = v.closing_no_fd;
    detached = v.detached;
    orphan_no_fd = v.orphan_no_fd;
    held = v.held;
  })
  step-Inv fuel n env (closes_fd reason) v = result (close_fd-Inv env n reason v)
  step-Inv fuel n env (closes mgr reason) v =
      close_with_manager-keeps ops env J J-Stable (finish_close-Inv env) fuel mgr n reason v
  step-Inv fuel n env handle_closed v = result (ground arith)

  run-Inv : (fuel : ℕ) (n : Net P) (cs : List (Env × Call)) → J n → Holds J (run fuel n cs)
  unfolding run
  run-Inv fuel n [] v = result v
  run-Inv fuel n ((env, c) ∷ cs) v =
      Holds->>= {f = λ m. run fuel m cs} (step-Inv fuel n env c v) (λ m v'. run-Inv fuel m cs v')

  accepted-Inv :
      (p : P) (s : Session P) (init_res accept_res : ℤ) (ip : List ℕ) (port : ℕ)
      → create (some p) ≡ some s
      → Inv (accept s init_res accept_res ip port).0
  unfolding create accept
  accepted-Inv p s init_res accept_res ip port h = ground arith

  -- Take a session as `create` makes it, accept a connection with whatever results from libuv, and
  -- make any calls, each at its own time and configuration. If they return, then a session that is
  -- closing has no connection; one whose handle is closing has lost its manager and is kept alive by
  -- exactly one pointer, and any other by none; and a session without a manager has no connection.
  pub session-Inv :
      (fuel : ℕ) (p : P) (s : Session P) (init_res accept_res : ℤ) (ip : List ℕ) (port : ℕ)
      (sent : List Sent) (cs : List (Env × Call)) (n : Net P)
      → create (some p) ≡ some s
      → run fuel (record { sess = (accept s init_res accept_res ip port).0; sent = sent }) cs
        ≡ done n
      → Inv n.sess
  session-Inv fuel p s init_res accept_res ip port sent cs n made e =
      of_Holds (run-Inv fuel _ cs (accepted-Inv p s init_res accept_res ip port made)) e

  -- Data for the client of a session with that invariant that is closing or has lost its manager is
  -- refused with EN_ECT_CLOSING, and nothing is counted or written.
  send_to_client-closed :
      (env : Env) (fuel : ℕ) (n : Net P) (len : ℕ)
      → Inv n.sess
      → (check_flag n.sess closing ≡ true) ⊎ (n.sess.owner ≡ false)
      → send_to_client ops env fuel n len ≡ done (n, ect_closing)
  unfolding send_to_client
  send_to_client-closed env fuel n len v h = ground arith

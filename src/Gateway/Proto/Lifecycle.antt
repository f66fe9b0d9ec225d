-- ===== src/Gateway/Proto/Lifecycle.antt =====
-- What the callbacks of a protocol object may rely on, over any sequence of calls of the base class
-- (protocols/proto_base.cpp).
use atsf4g_co.Base.{ℕ, suc, ℤ, pos, ◌≡◌, Bool, true, false, List, [], ◌∷◌, if◌then◌else◌, arith}
use atsf4g_co.Gateway.Codes.{ect_handshake}
use atsf4g_co.Gateway.Proto.{
  ProtoBase, Callback, Callbacks, on_close, on_handshake_done, on_handshake_update, write_done,
  close, handshake_done, handshake_update, destroy, create,
}

-- The calls that change a protocol object; `start_write` is a derived class setting EN_PFT_WRITING.
pub data Call : Type 0 where
  start_write : Call
  writes_done : ℤ → Call
  closes : ℕ → Call
  handshakes_done : ℤ → Call
  updates : Call

pub step : ProtoBase → Call → ProtoBase
unfolding write_done close handshake_done handshake_update
step p start_write = record p { writing = true }
step p (writes_done s) = (write_done p s).0
step p (closes r) = (close p r).0
step p (handshakes_done s) = (handshake_done p s).0
step p updates = (handshake_update p).0

pub run : ProtoBase → List Call → ProtoBase
run p [] = p
run p (c ∷ cs) = run (step p c) cs

abbrev pub close_calls : List Callback → ℕ
close_calls [] = 0
close_calls (on_close r ∷ cs) = suc (close_calls cs)
close_calls (on_handshake_done s ∷ cs) = close_calls cs
close_calls (on_handshake_update s ∷ cs) = close_calls cs

abbrev pub done_calls : List Callback → ℕ
done_calls [] = 0
done_calls (on_close r ∷ cs) = done_calls cs
done_calls (on_handshake_done s ∷ cs) = suc (done_calls cs)
done_calls (on_handshake_update s ∷ cs) = done_calls cs

abbrev count_of : Bool → ℕ
count_of true = 1
count_of false = 0

abbrev HasAll : ProtoBase → Type 0
HasAll p =
    (p.has_callbacks ≡ true)
    × (p.callbacks.has_close_fn ≡ true)
    × (p.callbacks.has_handshake_done_fn ≡ true)

pub record Inv (p : ProtoBase) : Type 0 where
  pub armed : HasAll p
  pub close_once : close_calls p.calls ≡ count_of p.closing
  pub done_once : done_calls p.calls ≡ count_of p.handshake_done
  pub closed_with : p.closed ≡ p.closing

create-Inv :
    (cb : Callbacks)
    → cb.has_close_fn ≡ true
    → cb.has_handshake_done_fn ≡ true
    → Inv (create true cb)
unfolding create
create-Inv cb h k = ground arith

step-Inv : (p : ProtoBase) (c : Call) → Inv p → Inv (step p c)
unfolding step
step-Inv p start_write v = ground arith
step-Inv p (writes_done s) v = ground arith
step-Inv p (closes r) v = ground arith
step-Inv p (handshakes_done s) v = ground arith
step-Inv p updates v = ground arith

run-Inv : (p : ProtoBase) (calls : List Call) → Inv p → Inv (run p calls)
unfolding run
run-Inv p [] holds = holds
run-Inv p (first ∷ later) holds = run-Inv (step p first) later (step-Inv p first holds)

-- Whatever calls a new object with all its callbacks gets, `close_fn` is called exactly once if it
-- is closed and never otherwise, and `on_handshake_done_fn` exactly once if the handshake is done
-- and never otherwise; every later completion goes to `on_handshake_update_fn` or nowhere.
pub callbacks_once :
    (cb : Callbacks) (cs : List Call)
    → cb.has_close_fn ≡ true
    → cb.has_handshake_done_fn ≡ true
    → let p = run (create true cb) cs in
      (close_calls p.calls ≡ (if p.closing then 1 else 0))
      × (done_calls p.calls ≡ (if p.handshake_done then 1 else 0))
callbacks_once cb cs h k = ground (arith, run-Inv (create true cb) cs (create-Inv cb h k))

-- The destructor leaves no handshake open: whatever calls came before, the handshake is done and no
-- update is pending afterwards, and `on_handshake_done_fn` has been called exactly once.
destroy-settles :
    (cb : Callbacks) (cs : List Call)
    → cb.has_close_fn ≡ true
    → cb.has_handshake_done_fn ≡ true
    → let p = destroy (run (create true cb) cs) in
      (p.handshake_done ≡ true) × (p.handshake_update ≡ false) × (done_calls p.calls ≡ 1)
unfolding destroy
destroy-settles cb cs h k = ground (arith, run-Inv (create true cb) cs (create-Inv cb h k))

-- A handshake that is done is done again only if an update was asked for in between: without one
-- `handshake_done` refuses and changes nothing, and `handshake_update` makes the next one succeed.
handshake_done_again :
    (p : ProtoBase) (s t : ℤ)
    → let q = (handshake_done p s).0 in
      (handshake_done q t ≡ (q, ect_handshake))
      × ((handshake_done (handshake_update q).0 t).1 ≡ pos 0)
unfolding handshake_done handshake_update
handshake_done_again p s t = ground arith

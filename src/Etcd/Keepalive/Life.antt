-- ===== src/Etcd/Keepalive/Life.antt =====
-- Does the value of a key reach etcd (component/etcdcli/etcd_keepalive.cpp)?
use atsf4g_co.Base.{◌+◌, ◌≡◌, is_zero, Bool, true, false, Option, none, List, [], ◌∷◌, arith}
use atsf4g_co.Etcd.Keepalive.{
  Text, Keepalive, Owner, Reply, create, close, set_checker_text, set_checker, reset_value_changed,
  process, active, prepare, choose, start, set_value, on_reply,
}
use atsf4g_co.Etcd.Keepalive.Delivery.{
  Settled, Delivered, Starts, active-Delivered, set_value-Delivered, reply-Delivered,
}

-- What happens to a key; each event comes with the owner's answers at that time.
pub data Event : Type 0 where
  closes : Bool → Event
  checks_text : Text → Event
  checks : Option (Text → Bool) → Event
  changes : Event
  activates : Event
  sets : Text → Event
  replies : Reply → Event

unfoldable pub step : Owner → Keepalive → Event → Keepalive
step o k (closes b) = close k b
step o k (checks_text t) = set_checker_text k t
step o k (checks fn) = set_checker k fn
step o k changes = reset_value_changed k
step o k activates = active o k
step o k (sets t) = set_value o k t
step o k (replies r) = on_reply o k r

unfoldable pub run : Keepalive → List (Owner × Event) → Keepalive
run k [] = k
run k ((o, e) ∷ es) = run (step o k e) es

pub data AllStart : List (Owner × Event) → Type 0 where
  start_nil : AllStart []
  start_cons :
      (o : Owner) (e : Event) (es : List (Owner × Event))
      → Starts o
      → AllStart es
      → AllStart ((o, e) ∷ es)

step-Delivered :
    (o : Owner) (k : Keepalive) (e : Event) → Starts o → Delivered k → Delivered (step o k e)
unfolding step close set_checker_text set_checker reset_value_changed
step-Delivered o k (closes b) s v = λ h. absurd (ground (arith, h))
step-Delivered o k (checks_text t) s v = v
step-Delivered o k (checks fn) s v = v
step-Delivered o k changes s v = λ h. absurd (ground (arith, h))
step-Delivered o k activates s v = active-Delivered o k s v
step-Delivered o k (sets t) s v = set_value-Delivered o k t s v
step-Delivered o k (replies r) s v = reply-Delivered o k r s v

run-Delivered :
    (k : Keepalive) (es : List (Owner × Event)) → AllStart es → Delivered k → Delivered (run k es)
unfolding run
run-Delivered k [] s v = v
run-Delivered k ((o, e) ∷ es) (start_cons _ _ _ s ss) v =
    run-Delivered (step o k e) es ss (step-Delivered o k e s v)

-- As long as every request that is made can be started, no value is lost: whatever happened, a key
-- whose value is not marked as changed has that value in etcd, or in the request that is under way.
pub value_delivered :
    (es : List (Owner × Event))
    → AllStart es
    → (run create es).is_value_changed ≡ false
    → Settled (run create es).rpc_opr (run create es).value (run create es).stored
unfolding create
value_delivered es s h = run-Delivered create es s (λ g. absurd (ground (arith, g))) h

-- A request that can not be started loses the value: an idle key whose check has passed and whose
-- value has changed is put on the list of retries once, but is no longer marked as changed, and the
-- retry makes no request and no further retry, whatever the owner answers then.
start_failure-loses :
    (o o' : Owner) (k : Keepalive)
    → k.rpc_opr ≡ none
    → k.is_value_changed ≡ true
    → k.is_check_run ≡ true
    → k.is_check_passed ≡ true
    → o.creates_set ≡ true
    → is_zero o.start_result ≡ false
    → let k1 = active o k in
      let k2 = active o' k1 in
      (k1.retries ≡ k.retries + 1)
      × (k2.retries ≡ k1.retries)
      × (k2.rpc_opr ≡ none)
      × (k2.is_value_changed ≡ false)
      × (k2.stored ≡ k.stored)
unfolding active process prepare choose start
start_failure-loses o o' k e c r p s z = ground arith

-- ===== src/Etcd/Keepalive/Delivery.antt =====
-- What one call does to the value of a key on its way to etcd (component/etcdcli/etcd_keepalive.cpp).
use atsf4g_co.Base.{
  ◌+◌, ◌≡◌, ◌∙◌, refl, ap, u64, ◌==◌, is_zero, Bool, true, false, not, ◌&&◌, Option, none, some,
  arith, inl, inr, Option-cases, if-split,
}
use mathlib.Core.Path.{subst}
use atsf4g_co.Etcd.Keepalive.{
  Text, Request, get_data, set_data, Keepalive, Owner, Reply, prepare, choose, start, process,
  active, set_value, passes, value_of, on_get_data, on_set_data, on_reply, same_text,
}

-- Nothing is left to do for the value: it is in the request under way, or else in etcd.
abbrev pub Settled : Option Request → Text → Option Text → Type 0
Settled none value stored = stored ≡ some value
Settled (some get_data) value stored = stored ≡ some value
Settled (some (set_data v)) value stored = v ≡ value

-- Has the request under way passed its check?
abbrev pub guarded : Option Request → Bool → Bool → Bool
guarded none run passed = true
guarded (some get_data) run passed = true
guarded (some (set_data v)) run passed = run && passed

-- Every value is Settled, or marked as changed.
abbrev pub Delivered : Keepalive → Type 0
Delivered k = k.is_value_changed ≡ false → Settled k.rpc_opr k.value k.stored

abbrev pub Checked : Keepalive → Type 0
Checked k = guarded k.rpc_opr k.is_check_run k.is_check_passed ≡ true

abbrev pub Starts : Owner → Type 0
Starts o = is_zero o.start_result ≡ true

start-Delivered :
    (o : Owner) (k : Keepalive) (b : Bool) → Starts o → Delivered k → Delivered (start o (k, b))
unfolding start
start-Delivered o k b s v = elim (Option-cases k.rpc_opr) [
  | inl e ↦ rw (start, e) (λ h. ground (arith, e))
  | inr (r, e) ↦ rw (start, e, s) (λ h. ground (arith, e))
]

choose-Delivered :
    (o : Owner) (k : Keepalive) → k.rpc_opr ≡ none → Delivered k → Delivered (choose o k).0
unfolding choose
choose-Delivered o k e v = λ h. ground (arith, e)

start-Checked : (o : Owner) (k : Keepalive) (b : Bool) → Checked k → Checked (start o (k, b))
unfolding start
start-Checked o k b v = elim (Option-cases k.rpc_opr) [
  | inl e ↦ ground (arith, e)
  | inr (r, e) ↦ ground (arith, e)
]

choose-Checked : (o : Owner) (k : Keepalive) → k.rpc_opr ≡ none → Checked (choose o k).0
unfolding choose
choose-Checked o k e = ground (arith, e)

prepare-frame :
    (o : Owner) (k : Keepalive)
    → let p = prepare o k in
      (p.rpc_opr ≡ k.rpc_opr)
      × (p.value ≡ k.value)
      × (p.stored ≡ k.stored)
      × (p.is_value_changed ≡ k.is_value_changed)
unfolding prepare
prepare-frame o k = ground arith

prepare-Delivered : (o : Owner) (k : Keepalive) → Delivered k → Delivered (prepare o k)
prepare-Delivered o k v = λ h.
    rw ((prepare-frame o k).0, (prepare-frame o k).1, (prepare-frame o k).2)
      (v (ground (arith, prepare-frame o k)))

process-Delivered : (o : Owner) (k : Keepalive) → Starts o → Delivered k → Delivered (process o k)
unfolding process start
process-Delivered o k s v = elim (Option-cases k.rpc_opr) [
  | inl e ↦
      rw (process, e)
        (start-Delivered o (choose o (prepare o k)).0 (choose o (prepare o k)).1 s
          (choose-Delivered o (prepare o k) ((prepare-frame o k).0 ∙ e) (prepare-Delivered o k v)))
  | inr (r, e) ↦ rw (process, e) v
]

process-Checked : (o : Owner) (k : Keepalive) → Checked k → Checked (process o k)
unfolding process
process-Checked o k v = elim (Option-cases k.rpc_opr) [
  | inl e ↦
      rw (process, e)
        (start-Checked o (choose o (prepare o k)).0 (choose o (prepare o k)).1
          (choose-Checked o (prepare o k) ((prepare-frame o k).0 ∙ e)))
  | inr (r, e) ↦ rw (process, e) v
]

pub active-Delivered : (o : Owner) (k : Keepalive) → Starts o → Delivered k → Delivered (active o k)
unfolding active
active-Delivered o k s v = process-Delivered o (record k { is_actived = true }) s v

pub active-Checked : (o : Owner) (k : Keepalive) → Checked k → Checked (active o k)
unfolding active
active-Checked o k v = process-Checked o (record k { is_actived = true }) v

pub set_value-Delivered :
    (o : Owner) (k : Keepalive) (t : Text) → Starts o → Delivered k → Delivered (set_value o k t)
unfolding set_value
set_value-Delivered o k t s v =
    let k1 = record k { value = t; is_value_changed = true } in
    let u : Delivered k1 = λ h. absurd (ground (arith, h)) in
    if-split Delivered (same_text k.value t) (λ h. v)
      (λ h.
        if-split Delivered (o.running && not (o.lease == 0)) (λ g. active-Delivered o k1 s u)
          (λ g. u))

pub set_value-Checked :
    (o : Owner) (k : Keepalive) (t : Text) → Checked k → Checked (set_value o k t)
unfolding set_value
set_value-Checked o k t v =
    let k1 = record k { value = t; is_value_changed = true } in
    if-split Checked (same_text k.value t) (λ h. v)
      (λ h.
        if-split Checked (o.running && not (o.lease == 0)) (λ g. active-Checked o k1 v) (λ g. v))

get-Delivered :
    (o : Owner) (k : Keepalive) (r : Reply)
    → Starts o
    → k.rpc_opr ≡ some get_data
    → Delivered k
    → Delivered (on_get_data o k r)
unfolding on_get_data
get-Delivered o k r s e v =
    let k1 = record k { rpc_opr = none; retry_times = u64 (k.retry_times + 1) } in
    let u : Delivered k1 = λ h. subst (λ q. Settled q k.value k.stored) e (v h) in
    elim (Option-cases (value_of o r.document)) [
      | inl q ↦ rw (on_get_data, q) (if-split Delivered (not r.succeeds) (λ h. u) (λ h. u))
      | inr (t, q) ↦
          rw (on_get_data, q)
            (if-split Delivered (not r.succeeds) (λ h. u)
              (λ h.
                active-Delivered o
                  (record k1 { is_check_run = true; is_check_passed = passes o k.fn t }) s u))
    ]

get-Checked : (o : Owner) (k : Keepalive) (r : Reply) → Checked (on_get_data o k r)
unfolding on_get_data
get-Checked o k r =
    let k1 = record k { rpc_opr = none; retry_times = u64 (k.retry_times + 1) } in
    elim (Option-cases (value_of o r.document)) [
      | inl q ↦ rw (on_get_data, q) (if-split Checked (not r.succeeds) (λ h. refl) (λ h. refl))
      | inr (t, q) ↦
          rw (on_get_data, q)
            (if-split Checked (not r.succeeds) (λ h. refl)
              (λ h.
                active-Checked o
                  (record k1 { is_check_run = true; is_check_passed = passes o k.fn t }) refl))
    ]

set-Delivered :
    (o : Owner) (k : Keepalive) (w : Text) (b : Bool)
    → Starts o
    → k.rpc_opr ≡ some (set_data w)
    → Delivered k
    → Delivered (on_set_data o k w b)
unfolding on_set_data
set-Delivered o k w b s e v =
    let k1 = record k { rpc_opr = none } in
    let same : k.is_value_changed ≡ false → w ≡ k.value =
      λ h. subst (λ q. Settled q k.value k.stored) e (v h) in
    if-split Delivered b
      (λ h.
        active-Delivered o (record k1 { has_data = true; stored = some w }) s
          (λ g. ap (λ x. some x) (same g)))
      (λ h. λ g. absurd (ground (arith, g)))

set-Checked : (o : Owner) (k : Keepalive) (w : Text) (b : Bool) → Checked (on_set_data o k w b)
unfolding on_set_data
set-Checked o k w b =
    if-split Checked b
      (λ h. active-Checked o (record k { rpc_opr = none; has_data = true; stored = some w }) refl)
      (λ h. refl)

pub reply-Delivered :
    (o : Owner) (k : Keepalive) (r : Reply) → Starts o → Delivered k → Delivered (on_reply o k r)
unfolding on_reply
reply-Delivered o k r s v = elim (Option-cases k.rpc_opr) [
  | inl e ↦ rw (on_reply, e) v
  | inr (get_data, e) ↦ rw (on_reply, e) (get-Delivered o k r s e v)
  | inr (set_data w, e) ↦ rw (on_reply, e) (set-Delivered o k w r.succeeds s e v)
]

pub reply-Checked : (o : Owner) (k : Keepalive) (r : Reply) → Checked k → Checked (on_reply o k r)
unfolding on_reply
reply-Checked o k r v = elim (Option-cases k.rpc_opr) [
  | inl e ↦ rw (on_reply, e) v
  | inr (get_data, e) ↦ rw (on_reply, e) (get-Checked o k r)
  | inr (set_data w, e) ↦ rw (on_reply, e) (set-Checked o k w r.succeeds)
]

-- ===== src/Inner/Sender/Stays.antt =====
-- What writing leaves as it is of an object's closing.
use atsf4g_co.Base.{
  ℕ, zero, suc, ◌+◌, ◌-◌, ◌^◌, ◌≡◌, ◌⊎◌, inl, inr, ℤ, pos, Bool, true, false, not, ◌&&◌, Option,
  none, some, List, [], ◌∷◌, ◌++◌, leb, ◌==◌, if◌then◌else◌, Option-cases, if-split, arith,
}
use atsf4g_co.Base.Lists.{length}
use atsf4g_co.Gateway.Codes.{ect_no_data, ect_miss_callbacks, ect_closing, ect_invalid_size}
use atsf4g_co.Inner.Wire.{Wire, frame}
use atsf4g_co.Inner.Sender.{
  SendBuffers, Env, Sender, call_close, settle, and_settle, written, launch, try_write, write_msg,
  send_kickoff, pop_written, merge_small, drop_all, raw_size,
}
use atsf4g_co.Inner.Sender.Merging.{list_cases}

-- `close_fn` was called once, with the reason of closing, if the object is closed and it is set;
-- and only a closing object is closed.
abbrev pub IsClosedOnce : {M : Type 0} → Env → Sender M → Type 0
IsClosedOnce env s =
    (s.closes ≡ (if s.closed && env.has_close_fn then s.close_reason ∷ [] else []))
    × ((s.closed ≡ false) ⊎ (s.closing ≡ true))

module _ {M : Type 0} (w : Wire) (bm : SendBuffers M) (env : Env) where
  -- As above, with the flag and the reason of closing as given
  abbrev pub Stays : Bool → ℕ → Sender M → Type 0
  Stays c reason s = IsClosedOnce env s × (s.closing ≡ c) × (s.close_reason ≡ reason)

  -- A property of the sender after a call that returns
  abbrev pub After : (Sender M → Type 0) → Option (Sender M × ℤ) → Type 0
  After J none = Unit
  After J (some (s, r)) = J s

  settle-Stays :
      (c : Bool) (reason : ℕ) (s : Sender M) (r : ℤ)
      → Stays c reason s
      → Stays c reason (settle w bm env (s, r)).0
  unfolding settle call_close
  settle-Stays c reason s r (ends, same, why) = ground arith

  and_settle-Stays :
      (c : Bool) (reason : ℕ) (o : Option (Sender M × ℤ))
      → After (Stays c reason) o
      → After (Stays c reason) (and_settle w bm env o)
  and_settle-Stays c reason none h = tt
  and_settle-Stays c reason (some (s, r)) h = settle-Stays c reason s r h

  module _ (c : Bool) (reason : ℕ) (again : Sender M → Option (Sender M × ℤ)) where
    written-Stays :
        ((s : Sender M) → Stays c reason s → After (Stays c reason) (again s))
        → (s : Sender M) (status : ℤ) → Stays c reason s
        → After (Stays c reason) (written w bm env again s status)
    unfolding written
    written-Stays next s status h =
        let s1 = record s {
          buffers = pop_written w bm env (bm.blocks s.buffers) s.buffers s.last_write_ptr;
          last_write_ptr = none;
          writing = false;
        } in
        if-split (After (Stays c reason)) (not s.writing) {x = some (s, status)} (λ e. h)
          (λ e. and_settle-Stays c reason (again s1) (next s1 h))

    launch-Stays :
        ((s : Sender M) → Stays c reason s → After (Stays c reason) (again s))
        → (s : Sender M) → Stays c reason s
        → After (Stays c reason) (launch w bm env again s)
    unfolding launch
    launch-Stays next s h = elim (list_cases (bm.blocks s.buffers)) [
      | inl e ↦ rw (launch, e) (written-Stays next (record s { writing = true }) ect_no_data h)
      | inr (d, rest, e) ↦
          let s1 = record s {
            writing = true;
            last_write_ptr = some d.ptr;
            sent = s.sent ++ d.payload;
            writes = s.writes + 1;
          } in
          let s2 = record s { buffers = bm.pop_front s.buffers } in
          let status = (env.write_fn s.writes).0 in
          rw (launch, e)
            (if-split (After (Stays c reason)) (leb (raw_size w bm env d) env.write_header_offset)
              (λ _. next s2 h)
              (λ _.
                if-split (After (Stays c reason)) (env.write_fn s.writes).1 {y = some (s1, status)}
                  (λ _. written-Stays next s1 status h) (λ _. h)))
    ]

  try_write-Stays :
      (c : Bool) (reason : ℕ) (fuel : ℕ) (s : Sender M)
      → Stays c reason s
      → After (Stays c reason) (try_write w bm env fuel s)
  unfolding try_write
  try_write-Stays c reason zero s h = tt
  try_write-Stays c reason (suc fuel) s h = elim (list_cases (bm.blocks s.buffers)) [
    | inl e ↦ rw (try_write, e) h
    | inr (d, rest, e) ↦
        let next = try_write-Stays c reason fuel in
        let s1 = record s { buffers = merge_small w bm env s.buffers } in
        let s2 = record s { buffers = drop_all w bm env (d ∷ rest) s.buffers } in
        rw (try_write, e)
          (if-split (After (Stays c reason)) (not env.has_write_fn)
            {x = some (s, ect_miss_callbacks)} (λ _. h)
            (λ _.
              if-split (After (Stays c reason)) s.writing {x = some (s, pos 0)} (λ _. h)
                (λ _.
                  if-split (After (Stays c reason)) s.closing {x = some (s2, ect_closing)} (λ _. h)
                    (λ _. launch-Stays c reason (try_write w bm env fuel) next s1 h))))
  ]

  write_msg-Stays :
      (c : Bool) (reason : ℕ) (fuel : ℕ) (s : Sender M) (body : List ℕ)
      → Stays c reason s
      → After (Stays c reason) (write_msg w bm env fuel s body)
  unfolding write_msg
  write_msg-Stays c reason fuel s body h =
      if-split (After (Stays c reason)) (length body == 0) (λ _. try_write-Stays c reason fuel s h)
        (λ _.
          if-split (After (Stays c reason)) (leb (2 ^ 32 - 1) (length body))
            {x = some (s, ect_invalid_size)} (λ _. h)
            (λ _. elim (Option-cases (bm.push_back s.buffers (frame w body))) [
              | inl q ↦ rw q h
              | inr (m, q) ↦ rw q (try_write-Stays c reason fuel (record s { buffers = m }) h)
            ]))

  pub send_kickoff-Stays :
      (c : Bool) (reason : ℕ) (fuel : ℕ) (s : Sender M) (why : ℕ)
      → Stays c reason s
      → After (Stays c reason) (send_kickoff w bm env fuel s why)
  unfolding send_kickoff
  send_kickoff-Stays c reason fuel s why h =
      if-split (After (Stays c reason)) s.closing {x = some (s, ect_closing)} (λ _. h)
        (λ _.
          if-split (After (Stays c reason)) (not env.has_write_fn)
            {x = some (s, ect_miss_callbacks)} (λ _. h)
            (λ _. write_msg-Stays c reason fuel s (env.kickoff why) h))

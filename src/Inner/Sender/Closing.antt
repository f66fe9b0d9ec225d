-- ===== src/Inner/Sender/Closing.antt =====
-- Closing: `close_fn` is called once, and the end of a write that is under way brings it.
use atsf4g_co.Base.{
  ℕ, suc, ◌-◌, ◌^◌, ◌≡◌, refl, ap, ◌⊎◌, inl, inr, ℤ, pos, Bool, true, false, not, Option, none,
  some, List, [], ◌∷◌, leb, ◌==◌, if◌then◌else◌, Bool-cases, Option-cases, is_some, if-split, arith,
}
use atsf4g_co.Base.Lists.{length}
use atsf4g_co.Gateway.Codes.{ect_miss_callbacks, ect_closing, ect_invalid_size}
use atsf4g_co.Inner.Wire.{Wire, frame}
use atsf4g_co.Inner.Sender.{
  SendBuffers, Env, Sender, call_close, settle, and_settle, written, try_write, write_done,
  write_msg, send_kickoff, closing_down, close, pop_written, drop_all,
}
use atsf4g_co.Inner.Sender.Merging.{list_cases, Roomy}
use atsf4g_co.Inner.Sender.Messages.{IsOpen, enqueue, try_write-Keeps}
use atsf4g_co.Inner.Sender.Stays.{IsClosedOnce, Stays, After, send_kickoff-Stays}

module _ {M : Type 0} (w : Wire) (bm : SendBuffers M) (env : Env) where
  -- What `close` leaves behind: the object is closed now, and `close_fn`, if it is set, was called
  -- once, with this reason, or a write is under way, and it was not called.
  abbrev pub IsEnding : ℕ → Sender M → Type 0
  IsEnding reason s =
      (s.closing ≡ true)
      × (s.close_reason ≡ reason)
      × (((s.closed ≡ true) × (s.closes ≡ (if env.has_close_fn then reason ∷ [] else [])))
          ⊎ ((s.closed ≡ false) × (s.writing ≡ true) × (s.closes ≡ [])))

  closing_down-IsEnding :
      (reason : ℕ) (o : Option (Sender M × ℤ))
      → After w bm env (Stays w bm env false reason) o
      → After w bm env (IsEnding reason) (closing_down w bm env o)
  unfolding closing_down call_close
  closing_down-IsEnding reason none h = tt
  closing_down-IsEnding reason (some (s, r)) ((once, only), running, why) = ground arith

  renamed-Stays :
      (s : Sender M) (reason : ℕ)
      → IsClosedOnce env s
      → s.closing ≡ false
      → Stays w bm env false reason (record s { close_reason = reason })
  renamed-Stays s reason (once, only) running = ground arith

  close-IsEnding :
      (fuel : ℕ) (s : Sender M) (reason : ℕ) (kick : Bool)
      → IsClosedOnce env s
      → s.closing ≡ false
      → After w bm env (IsEnding reason) (close w bm env fuel s reason kick)
  unfolding close
  close-IsEnding fuel s reason kick ends running =
      let s1 = record s { close_reason = reason } in
      let start = renamed-Stays s reason ends running in
      if-split (After w bm env (IsEnding reason)) s.closing {x = some (s, pos 0)} (λ e. cc)
        (λ _.
          closing_down-IsEnding reason
            (if kick then send_kickoff w bm env fuel s1 reason else some (s1, pos 0))
            (if-split (After w bm env (Stays w bm env false reason)) kick {y = some (s1, pos 0)}
              (λ _. send_kickoff-Stays w bm env false reason fuel s1 reason start) (λ _. start)))

  abbrev Returns : Option (Sender M × ℤ) → Type 0
  Returns o = is_some o ≡ true

  try_write-Returns :
      (fuel : ℕ) (s : Sender M)
      → Roomy w bm env
      → IsOpen bm fuel s
      → Returns (try_write w bm env fuel s)
  try_write-Returns fuel s roomy ready =
      let (s', r, q, _) = try_write-Keeps w bm env fuel s roomy ready in rw q refl

  write_msg-Returns :
      (fuel : ℕ) (s : Sender M) (body : List ℕ)
      → Roomy w bm env
      → IsOpen bm fuel s
      → Returns (write_msg w bm env (suc fuel) s body)
  unfolding write_msg
  write_msg-Returns fuel s body roomy (sound, running, less) =
      if-split Returns (length body == 0)
        (λ _. try_write-Returns (suc fuel) s roomy (sound, running, omega arith))
        (λ _.
          if-split Returns (leb (2 ^ 32 - 1) (length body)) {x = some (s, ect_invalid_size)}
            (λ _. refl)
            (λ _. elim (Option-cases (bm.push_back s.buffers (frame w body))) [
              | inl q ↦ rw q refl
              | inr (m, q) ↦
                  let (sound', _, size) = enqueue w bm env s m (frame w body) sound q in
                  rw q (
                    try_write-Returns (suc fuel) (record s { buffers = m }) roomy
                      (sound', running, omega arith))
            ]))

  closing_down-Returns : (o : Option (Sender M × ℤ)) → Returns o → Returns (closing_down w bm env o)
  unfolding closing_down
  closing_down-Returns none h = h
  closing_down-Returns (some (s, r)) h = refl

  close-Returns :
      (fuel : ℕ) (s : Sender M) (reason : ℕ) (kick : Bool)
      → Roomy w bm env
      → IsOpen bm fuel s
      → Returns (close w bm env (suc fuel) s reason kick)
  unfolding close send_kickoff
  close-Returns fuel s reason kick roomy ready =
      let s1 = record s { close_reason = reason } in
      if-split Returns s.closing {x = some (s, pos 0)} (λ _. refl)
        (λ _.
          closing_down-Returns
            (if kick then send_kickoff w bm env (suc fuel) s1 reason else some (s1, pos 0))
            (if-split Returns kick {y = some (s1, pos 0)}
              (λ _.
                if-split Returns s.closing {x = some (s1, ect_closing)} (λ _. refl)
                  (λ _.
                    if-split Returns (not env.has_write_fn) {x = some (s1, ect_miss_callbacks)}
                      (λ _. refl)
                      (λ _. write_msg-Returns fuel s1 (env.kickoff reason) roomy ready)))
              (λ _. refl)))

  After-some :
      (J : Sender M → Type 0) (o : Option (Sender M × ℤ))
      → Returns o
      → After w bm env J o
      → (s : Sender M) × (r : ℤ) × (o ≡ some (s, r)) × J s
  After-some J none h j = cc
  After-some J (some (s, r)) h j = (s, r, refl, j)

  -- The buffer that blocks are merged in holds a small block, and `close_fn` was not called yet.
  -- Closing an object that is not closing yet returns, with as much fuel as there are blocks and
  -- two more. The object is closing then, for this reason, and either it is closed, `close_fn`, if
  -- it is set, having been called once with the reason, or a write is still under way and
  -- `close_fn` was not called.
  pub close-ends :
      (fuel : ℕ) (s : Sender M) (reason : ℕ) (kick : Bool)
      → Roomy w bm env
      → IsOpen bm fuel s
      → IsClosedOnce env s
      → (s' : Sender M) × (r : ℤ) × (close w bm env (suc fuel) s reason kick ≡ some (s', r))
        × IsEnding reason s'
  close-ends fuel s reason kick roomy ready ends =
      After-some (IsEnding reason) (close w bm env (suc fuel) s reason kick)
        (close-Returns fuel s reason kick roomy ready)
        (close-IsEnding (suc fuel) s reason kick ends ready.1)

  try_write-closing :
      (fuel : ℕ) (s : Sender M)
      → s.closing ≡ true
      → s.writing ≡ false
      → (m : M) × (r : ℤ) × (try_write w bm env (suc fuel) s ≡ some (record s { buffers = m }, r))
  unfolding try_write
  try_write-closing fuel s down ready = elim (list_cases (bm.blocks s.buffers)) [
    | inl e ↦
        (s.buffers, if env.has_write_fn then pos 0 else ect_miss_callbacks, rw (try_write, e) refl)
    | inr (c, rest, e) ↦ elim (Bool-cases env.has_write_fn) [
      | inl has ↦ (
        drop_all w bm env (c ∷ rest) s.buffers,
        ect_closing,
        rw (try_write, e) (rw (has, ready, down) refl),
      )
      | inr missing ↦ (s.buffers, ect_miss_callbacks, rw (try_write, e) (rw missing refl))
    ]
  ]

  settle-closes :
      (s : Sender M) (r : ℤ)
      → IsClosedOnce env s
      → s.closing ≡ true
      → s.writing ≡ false
      → IsClosedOnce env (settle w bm env (s, r)).0
        × ((settle w bm env (s, r)).0.closed ≡ true)
        × ((settle w bm env (s, r)).0.writing ≡ false)
        × ((settle w bm env (s, r)).0.sent ≡ s.sent)
  unfolding settle call_close
  settle-closes s r (once, only) down ready = ground arith

  -- The end of a write that was under way while the object is closing ends it: `write_done`
  -- returns, gives nothing more to `write_fn`, and leaves the object closed, with `close_fn` called
  -- once.
  write_done-closes :
      (fuel : ℕ) (s : Sender M) (status : ℤ)
      → IsClosedOnce env s
      → s.closing ≡ true
      → s.writing ≡ true
      → (s' : Sender M) × (r : ℤ) × (write_done w bm env (suc fuel) s status ≡ some (s', r))
        × IsClosedOnce env s'
        × (s'.closed ≡ true)
        × (s'.writing ≡ false)
        × (s'.sent ≡ s.sent)
  unfolding write_done written
  write_done-closes fuel s status ends down busy =
      let s1 = record s {
        buffers = pop_written w bm env (bm.blocks s.buffers) s.buffers s.last_write_ptr;
        last_write_ptr = none;
        writing = false;
      } in
      let (m, r, q) = try_write-closing fuel s1 down refl in
      let s2 = record s1 { buffers = m } in
      let result = settle w bm env (s2, r) in
      let (ended, gone, idle, same) = settle-closes s2 r ends down refl in
      (result.0, result.1, rw busy (ap (and_settle w bm env) q), ended, gone, idle, same)

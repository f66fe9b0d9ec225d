-- ===== src/Inner/Sender/Messages.antt =====
-- Messages that are written one after the other, with the completions of writes between them.
use atsf4g_co.Base.{
  ℕ, zero, suc, ◌-◌, ◌^◌, ◌<◌, ◌≡◌, refl, sym, ap, ◌∙◌, inl, inr, ℤ, pos, true, false, some, List,
  [], ◌∷◌, ◌++◌, Bool-cases, arith,
}
use atsf4g_co.Base.Lists.{length, length-append, append_assoc, append_nil}
use atsf4g_co.Gateway.Codes.{ect_miss_callbacks}
use atsf4g_co.Inner.Wire.{Wire, frame}
use atsf4g_co.Inner.Sender.{Chunk, SendBuffers, Env, Sender, try_write, write_done, write_msg}
use atsf4g_co.Inner.Sender.Merging.{data_of, length-cons, list_cases, Roomy}
use atsf4g_co.Inner.Sender.Progress.{try_write-Good, try_write-none}
use atsf4g_co.Inner.Sender.Order.{
  pending, IsSound, Keeps, written-Keeps, pending-idle, pending-busy, not_writing,
}

data_of-snoc : (l : List Chunk) (c : Chunk) → data_of (l ++ (c ∷ [])) ≡ data_of l ++ c.payload
unfolding data_of
data_of-snoc [] c = append_nil c.payload
data_of-snoc (d ∷ l) c =
    ap (λ x. d.payload ++ x) (data_of-snoc l c) ∙ sym (append_assoc d.payload (data_of l) c.payload)

length-nil : length {A = Chunk} [] ≡ 0
unfolding length
length-nil = refl

-- Can the sender take messages with this fuel?
abbrev pub IsOpen : {M : Type 0} → SendBuffers M → ℕ → Sender M → Type 0
IsOpen bm fuel s = IsSound bm s × (s.closing ≡ false) × (length (bm.blocks s.buffers) < fuel)

module _ {M : Type 0} (w : Wire) (bm : SendBuffers M) (env : Env) where
  try_write-busy :
      (fuel : ℕ) (s : Sender M)
      → s.writing ≡ true
      → (r : ℤ) × (try_write w bm env (suc fuel) s ≡ some (s, r))
  unfolding try_write
  try_write-busy fuel s busy = elim (list_cases (bm.blocks s.buffers)) [
    | inl e ↦ (_, try_write-none w bm env fuel s e)
    | inr (c, rest, e) ↦ elim (Bool-cases env.has_write_fn) [
      | inl has ↦ (pos 0, rw (try_write, e) (rw (has, busy) refl))
      | inr missing ↦ (ect_miss_callbacks, rw (try_write, e) (rw missing refl))
    ]
  ]

  -- `try_write` of a sender that takes messages, idle or not
  pub try_write-Keeps :
      (fuel : ℕ) (s : Sender M)
      → Roomy w bm env
      → IsOpen bm fuel s
      → (s' : Sender M) × (r : ℤ) × (try_write w bm env fuel s ≡ some (s', r)) × Keeps bm s s'
  try_write-Keeps zero s roomy (sound, running, less) = absurd (omega arith)
  try_write-Keeps (suc fuel) s roomy (sound, running, less) = elim (Bool-cases s.writing) [
    | inl busy ↦ let (r, q) = try_write-busy fuel s busy in (s, r, q, (sound, refl, running))
    | inr ready ↦ try_write-Good w bm env roomy (suc fuel) s ready running less
  ]

  -- `write_done` of a sender that takes messages
  pub write_done-Keeps :
      (fuel : ℕ) (s : Sender M) (status : ℤ)
      → Roomy w bm env
      → IsOpen bm fuel s
      → (s' : Sender M) × (r : ℤ) × (write_done w bm env fuel s status ≡ some (s', r))
        × Keeps bm s s'
  unfolding write_done
  write_done-Keeps fuel s status roomy (sound, running, less) = elim (Bool-cases s.writing) [
    | inr ready ↦ (
      s,
      status,
      not_writing w bm env s status (try_write w bm env fuel) ready,
      (sound, refl, running),
    )
    | inl busy ↦ elim sound [
      | inl ready ↦ cc
      | inr (c, rest, e, last) ↦
          written-Keeps w bm env fuel (try_write w bm env fuel) s status c rest
            (try_write-Good w bm env roomy fuel) busy running e last
            (omega (arith, ap length e, length-cons c rest))
    ]
  ]

  -- A block at the end of the queue
  pub enqueue :
      (s : Sender M) (m : M) (bytes : List ℕ)
      → IsSound bm s
      → bm.push_back s.buffers bytes ≡ some m
      → IsSound bm (record s { buffers = m })
        × (s.sent ++ pending bm (record s { buffers = m }) ≡ (s.sent ++ pending bm s) ++ bytes)
        × (length (bm.blocks m) ≡ suc (length (bm.blocks s.buffers)))
  enqueue s m bytes sound q =
      let (at, e) = bm.blocks-push_back s.buffers bytes m q in
      let c : Chunk = record { ptr = at; payload = bytes } in
      let s0 = record s { buffers = m } in
      let size : length (bm.blocks m) ≡ suc (length (bm.blocks s.buffers)) = omega (
        arith,
        ap length e,
        length-append (bm.blocks s.buffers) (c ∷ []),
        length-cons c [],
        length-nil,
      ) in
      elim (Bool-cases s.writing) [
        | inr ready ↦ (
          inl ready,
          ap (λ x. s.sent ++ x)
                (pending-idle w bm env s0 ready
                  ∙ (ap data_of e
                      ∙ (data_of-snoc (bm.blocks s.buffers) c
                          ∙ ap (λ x. x ++ bytes) (sym (pending-idle w bm env s ready)))))
              ∙ sym (append_assoc s.sent (pending bm s) bytes),
          size,
        )
        | inl busy ↦ elim sound [
          | inl ready ↦ cc
          | inr (first, rest, f, last) ↦
              let all : bm.blocks m ≡ first ∷ (rest ++ (c ∷ [])) = e ∙ ap (λ l. l ++ (c ∷ [])) f in
              (
                inr (first, rest ++ (c ∷ []), all, last),
                ap (λ x. s.sent ++ x)
                      (pending-busy w bm env s0 first (rest ++ (c ∷ [])) busy all
                        ∙ (data_of-snoc rest c
                            ∙ ap (λ x. x ++ bytes)
                                (sym (pending-busy w bm env s first rest busy f))))
                    ∙ sym (append_assoc s.sent (pending bm s) bytes),
                size,
              )
        ]
      ]

  write_msg-pushed :
      (fuel : ℕ) (s : Sender M) (body : List ℕ) (m : M)
      → 0 < length body
      → length body < 2 ^ 32 - 1
      → bm.push_back s.buffers (frame w body) ≡ some m
      → write_msg w bm env fuel s body ≡ try_write w bm env fuel (record s { buffers = m })
  unfolding write_msg
  write_msg-pushed fuel s body m some_len small q = rw (write_msg, q) (ground arith)

  -- A message that the buffers take is queued behind all that was queued before, and the call ends,
  -- with as much fuel as there are blocks and two more.
  pub write_msg-queues :
      (fuel : ℕ) (s : Sender M) (body : List ℕ) (m : M)
      → Roomy w bm env
      → IsOpen bm fuel s
      → 0 < length body
      → length body < 2 ^ 32 - 1
      → bm.push_back s.buffers (frame w body) ≡ some m
      → (s' : Sender M) × (r : ℤ) × (write_msg w bm env (suc fuel) s body ≡ some (s', r))
        × IsSound bm s'
        × (s'.sent ++ pending bm s' ≡ (s.sent ++ pending bm s) ++ frame w body)
        × (s'.closing ≡ false)
  write_msg-queues fuel s body m roomy (sound, running, less) some_len small q =
      let (sound', bytes, size) = enqueue s m (frame w body) sound q in
      let (s', r, e, (kept, same, open_)) =
        try_write-Keeps (suc fuel) (record s { buffers = m }) roomy
          (sound', running, omega arith) in
      (s', r, write_msg-pushed (suc fuel) s body m some_len small q ∙ e, kept, same ∙ bytes, open_)

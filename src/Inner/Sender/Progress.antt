-- ===== src/Inner/Sender/Progress.antt =====
-- `try_write` comes to its end, and keeps the order.
use atsf4g_co.Base.{
  ℕ, zero, suc, ◌+◌, ◌<◌, ◌≡◌, refl, sym, ap, ◌∙◌, ◌⊎◌, inl, inr, ℤ, pos, true, false, Option, some,
  List, [], ◌∷◌, ◌++◌, if◌then◌else◌, arith,
}
use atsf4g_co.Base.Lists.{length, append_assoc}
use atsf4g_co.Gateway.Codes.{ect_miss_callbacks}
use atsf4g_co.Inner.Wire.{Wire}
use atsf4g_co.Inner.Sender.Merging.{
  data_of, data_of-cons, length-cons, list_cases, Roomy, merge_small-some,
}
use atsf4g_co.Inner.Sender.{
  Chunk, SendBuffers, Env, Sender, merge_small, written, launch, try_write,
}
use atsf4g_co.Inner.Sender.Order.{
  pending, Keeps, Good, Keeps-trans, pending-idle, pending-busy, written-Keeps,
}

module _ {M : Type 0} (w : Wire) (bm : SendBuffers M) (env : Env) where
  -- The sender while the first block is written
  abbrev start_write : Sender M → Chunk → Sender M
  start_write s c = record s {
    writing = true;
    last_write_ptr = some c.ptr;
    sent = s.sent ++ c.payload;
    writes = s.writes + 1;
  }

  launch-cases :
      (again : Sender M → Option (Sender M × ℤ)) (s : Sender M) (c : Chunk) (rest : List Chunk)
      → bm.blocks s.buffers ≡ c ∷ rest
      → ((length c.payload ≡ 0)
          × (launch w bm env again s ≡ again (record s { buffers = bm.pop_front s.buffers })))
        ⊎ ((launch w bm env again s
              ≡ written w bm env again (start_write s c) (env.write_fn s.writes).0)
            ⊎ (launch w bm env again s ≡ some (start_write s c, (env.write_fn s.writes).0)))
  unfolding launch
  launch-cases again s c rest e = rw (launch, e) (ground arith)

  no_payload : (l : List ℕ) → length l ≡ 0 → l ≡ []
  unfolding length
  no_payload [] e = refl
  no_payload (x ∷ l) e = absurd (omega arith)

  launch-Keeps :
      (n : ℕ) (again : Sender M → Option (Sender M × ℤ)) (s : Sender M) (c : Chunk)
      (rest : List Chunk)
      → Good w bm env n again
      → s.writing ≡ false
      → s.closing ≡ false
      → bm.blocks s.buffers ≡ c ∷ rest
      → length rest < n
      → (s' : Sender M) × (r : ℤ) × (launch w bm env again s ≡ some (s', r)) × Keeps bm s s'
  launch-Keeps n again s c rest good ready running e less =
      let s1 = start_write s c in
      let begun : s1.sent ++ pending bm s1 ≡ s.sent ++ pending bm s =
        ap (λ x. (s.sent ++ c.payload) ++ x) (pending-busy w bm env s1 c rest refl e)
        ∙ (append_assoc s.sent c.payload (data_of rest)
            ∙ ap (λ x. s.sent ++ x)
                (sym (data_of-cons c rest)
                  ∙ (ap data_of (sym e) ∙ sym (pending-idle w bm env s ready)))) in
      elim (launch-cases again s c rest e) [
        | inl (none_left, q) ↦
            let s0 = record s { buffers = bm.pop_front s.buffers } in
            let popped = bm.blocks-pop_front s.buffers c rest e in
            let (s2, r, q2, kept) = good s0 ready running (omega (arith, ap length popped)) in
            let same : pending bm s0 ≡ pending bm s =
              pending-idle w bm env s0 ready
              ∙ (ap data_of popped
                  ∙ (sym (
                        ap data_of e
                        ∙ (data_of-cons c rest
                            ∙ ap (λ x. x ++ data_of rest) (no_payload c.payload none_left)))
                      ∙ sym (pending-idle w bm env s ready))) in
            (s2, r, q ∙ q2, Keeps-trans w bm env s s0 s2 (ap (λ x. s.sent ++ x) same) kept)
        | inr (inl q) ↦
            let (s2, r, q2, kept) =
              written-Keeps w bm env n again s1 (env.write_fn s.writes).0 c rest good refl running e
                refl less in
            (s2, r, q ∙ q2, Keeps-trans w bm env s s1 s2 begun kept)
        | inr (inr q) ↦ (s1, (env.write_fn s.writes).0, q, (inr (c, rest, e, refl), begun, running))
      ]

  pub try_write-none :
      (fuel : ℕ) (s : Sender M)
      → bm.blocks s.buffers ≡ []
      → try_write w bm env (suc fuel) s
        ≡ some (s, if env.has_write_fn then pos 0 else ect_miss_callbacks)
  unfolding try_write
  try_write-none fuel s e = rw (try_write, e) refl

  try_write-launch :
      (fuel : ℕ) (s : Sender M) (c : Chunk) (rest : List Chunk)
      → s.writing ≡ false
      → s.closing ≡ false
      → bm.blocks s.buffers ≡ c ∷ rest
      → (try_write w bm env (suc fuel) s ≡ some (s, ect_miss_callbacks))
        ⊎ (try_write w bm env (suc fuel) s
            ≡ launch w bm env
                (try_write w bm env fuel)
                (record s { buffers = merge_small w bm env s.buffers }))
  unfolding try_write
  try_write-launch fuel s c rest ready running e = rw (try_write, e) (ground arith)

  -- `try_write` ends with as much fuel as there are blocks and one more, and keeps the order.
  pub try_write-Good : Roomy w bm env → (fuel : ℕ) → Good w bm env fuel (try_write w bm env fuel)
  try_write-Good roomy zero s ready running less = absurd (omega arith)
  try_write-Good roomy (suc fuel) s ready running less = elim (list_cases (bm.blocks s.buffers)) [
    | inl e ↦ (s, _, try_write-none fuel s e, (inl ready, refl, running))
    | inr (c, rest, e) ↦ elim (try_write-launch fuel s c rest ready running e) [
      | inl q ↦ (s, _, q, (inl ready, refl, running))
      | inr q ↦
          let s0 = record s { buffers = merge_small w bm env s.buffers } in
          let (c', rest', e', fewer, same) = merge_small-some w bm env c rest s.buffers roomy e in
          let (s', r, q', kept) =
            launch-Keeps fuel (try_write w bm env fuel) s0 c' rest' (try_write-Good roomy fuel)
              ready running e' (omega (arith, ap length e, length-cons c rest)) in
          let bytes : pending bm s0 ≡ pending bm s =
            pending-idle w bm env s0 ready
            ∙ (ap data_of e'
                ∙ (same ∙ (ap data_of (sym e) ∙ sym (pending-idle w bm env s ready)))) in
          (s', r, q ∙ q', Keeps-trans w bm env s s0 s' (ap (λ x. s.sent ++ x) bytes) kept)
    ]
  ]

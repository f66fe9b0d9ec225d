-- ===== src/Inner/Sender/Order.antt =====
-- The bytes that are queued go out in the order in which they were queued.
use atsf4g_co.Base.{
  ℕ, ◌<◌, ◌≡◌, refl, sym, ap, ◌∙◌, ◌⊎◌, ℤ, true, false, Option, none, some, List, [], ◌∷◌, ◌++◌,
  if◌then◌else◌, eq_self, arith,
}
use atsf4g_co.Base.Lists.{length}
use atsf4g_co.Inner.Wire.{Wire}
use atsf4g_co.Inner.Sender.Merging.{data_of}
use atsf4g_co.Inner.Sender.{
  Chunk, SendBuffers, Env, Sender, pop_written, settle, and_settle, written,
}

abbrev pub past_first : List Chunk → List Chunk
past_first [] = []
past_first (c ∷ rest) = rest

module _ {M : Type 0} (bm : SendBuffers M) where
  -- The bytes that are not given to `write_fn` yet: the first block is while a write is under way.
  unfoldable pub pending : Sender M → List ℕ
  pending s = data_of (if s.writing then past_first (bm.blocks s.buffers) else bm.blocks s.buffers)

  -- A write that is under way is that of the first block.
  abbrev pub IsSound : Sender M → Type 0
  IsSound s =
      (s.writing ≡ false)
      ⊎ ((c : Chunk) × (rest : List Chunk) × (bm.blocks s.buffers ≡ c ∷ rest)
          × (s.last_write_ptr ≡ some c.ptr))

  -- Nothing is lost, doubled or put before another.
  abbrev pub Keeps : Sender M → Sender M → Type 0
  Keeps s s' = IsSound s' × (s'.sent ++ pending s' ≡ s.sent ++ pending s) × (s'.closing ≡ false)

module _ {M : Type 0} (w : Wire) (bm : SendBuffers M) (env : Env) where
  -- Fewer blocks than `n` are written without an end to the fuel, and in order.
  abbrev pub Good : ℕ → (Sender M → Option (Sender M × ℤ)) → Type 0
  Good n again =
      (s : Sender M)
      → s.writing ≡ false
      → s.closing ≡ false
      → length (bm.blocks s.buffers) < n
      → (s' : Sender M) × (r : ℤ) × (again s ≡ some (s', r)) × Keeps bm s s'

  pub Keeps-trans :
      (s t u : Sender M)
      → t.sent ++ pending bm t ≡ s.sent ++ pending bm s
      → Keeps bm t u
      → Keeps bm s u
  Keeps-trans s t u e (sound, same, running) = (sound, same ∙ e, running)

  settle-running : (s : Sender M) (r : ℤ) → s.closing ≡ false → settle w bm env (s, r) ≡ (s, r)
  unfolding settle
  settle-running s r e = rw e refl

  pop_written-first :
      (c : Chunk) (rest : List Chunk) (m : M)
      → pop_written w bm env (c ∷ rest) m (some c.ptr) ≡ bm.pop_front m
  unfolding pop_written
  pop_written-first c rest m = ground (arith, eq_self c.ptr)

  pub not_writing :
      (s : Sender M) (status : ℤ) (again : Sender M → Option (Sender M × ℤ))
      → s.writing ≡ false
      → written w bm env again s status ≡ some (s, status)
  unfolding written
  not_writing s status again e = rw e refl

  -- The sender after the first block was written
  abbrev after_write : Sender M → Sender M
  after_write s = record s {
    buffers = bm.pop_front s.buffers;
    last_write_ptr = none;
    writing = false;
  }

  written-running :
      (again : Sender M → Option (Sender M × ℤ)) (s s' : Sender M) (status r : ℤ) (c : Chunk)
      (rest : List Chunk)
      → s.writing ≡ true
      → bm.blocks s.buffers ≡ c ∷ rest
      → s.last_write_ptr ≡ some c.ptr
      → again (after_write s) ≡ some (s', r)
      → s'.closing ≡ false
      → written w bm env again s status ≡ some (s', r)
  unfolding written
  written-running again s s' status r c rest busy e last q running =
      let popped : pop_written w bm env (bm.blocks s.buffers) s.buffers s.last_write_ptr
          ≡ bm.pop_front s.buffers =
        (λ i. pop_written w bm env (e i) s.buffers (last i)) ∙ pop_written-first c rest s.buffers in
      rw busy (
        ap
          (λ m.
            and_settle w bm env
              (again (record s { buffers = m; last_write_ptr = none; writing = false })))
          popped
        ∙ (ap (and_settle w bm env) q ∙ ap some (settle-running s' r running)))

  pub pending-idle :
      (s : Sender M) → s.writing ≡ false → pending bm s ≡ data_of (bm.blocks s.buffers)
  unfolding pending
  pending-idle s e = rw e refl

  pub pending-busy :
      (s : Sender M) (c : Chunk) (rest : List Chunk)
      → s.writing ≡ true
      → bm.blocks s.buffers ≡ c ∷ rest
      → pending bm s ≡ data_of rest
  unfolding pending
  pending-busy s c rest e f = rw (e, f) refl

  -- The end of a write of the first block, and what follows it
  pub written-Keeps :
      (n : ℕ) (again : Sender M → Option (Sender M × ℤ)) (s : Sender M) (status : ℤ) (c : Chunk)
      (rest : List Chunk)
      → Good n again
      → s.writing ≡ true
      → s.closing ≡ false
      → bm.blocks s.buffers ≡ c ∷ rest
      → s.last_write_ptr ≡ some c.ptr
      → length rest < n
      → (s' : Sender M) × (r : ℤ) × (written w bm env again s status ≡ some (s', r)) × Keeps bm s s'
  written-Keeps n again s status c rest good busy running e last less =
      let s1 = after_write s in
      let popped = bm.blocks-pop_front s.buffers c rest e in
      let (s2, r, q, kept) = good s1 refl running (omega (arith, ap length popped)) in
      let same : pending bm s1 ≡ pending bm s =
        pending-idle s1 refl ∙ (ap data_of popped ∙ sym (pending-busy s c rest busy e)) in
      (
        s2,
        r,
        written-running again s s2 status r c rest busy e last q kept.2,
        Keeps-trans s s1 s2 (ap (λ x. s.sent ++ x) same) kept,
      )

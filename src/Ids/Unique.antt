-- ===== src/Ids/Unique.antt =====
-- The ids that threads are given are all different.
use mathlib.Core.Path.{subst}
use atsf4g_co.Base.{
  ℕ, ◌+◌, ◌-◌, ◌*◌, ◌^◌, ◌≤◌, ◌<◌, ◌≡◌, inl, inr, refl, List, [], ◌∷◌, ◌==◌, Bool-cases, eq_self,
  if-split, u64, arith,
}
use atsf4g_co.Ids.{
  time_part, Pc, idle, loaded, swapping, Allocator, set_pc, create, needs_time, now_time, exchange,
  Step, load, advance, take_time, win, lose, tick, Reach, created, step,
}

-- A list of ids below a bound, each below the one before it and not 0.
pub IsDescending : ℕ → List ℕ → Type 0
IsDescending bound [] = Unit
IsDescending bound (id ∷ ids) = (id ≤ bound) × (0 < id) × IsDescending (id - 1) ids

-- What a thread knows: a new number is above the one that it replaces.
abbrev pub IsSound : ℕ → Pc → Type 0
IsSound clock idle = Unit
IsSound clock (loaded res) = time_part res ≤ clock
IsSound clock (swapping res new) = (res < new) × (time_part new ≤ clock) × (new < 2 ^ 64)

pub record Inv (a : Allocator) : Type 0 where
  pub in_time : time_part a.seq_alloc ≤ a.clock
  pub small : a.seq_alloc < 2 ^ 64
  pub sound : (i : ℕ) → IsSound a.clock (a.threads i)
  pub descending : IsDescending a.seq_alloc a.issued

IsSound-set_pc :
    (a : Allocator) (i : ℕ) (pc : Pc)
    → ((j : ℕ) → IsSound a.clock (a.threads j))
    → IsSound a.clock pc
    → (j : ℕ) → IsSound a.clock ((set_pc a i pc).threads j)
IsSound-set_pc a i pc all one j = if-split (IsSound a.clock) (j == i) (λ e. one) (λ e. all j)

IsDescending-mono :
    (low high : ℕ) (ids : List ℕ) → low ≤ high → IsDescending low ids → IsDescending high ids
unfolding IsDescending
IsDescending-mono low high [] h d = d
IsDescending-mono low high (id ∷ ids) h (below, some_id, rest) = (omega arith, some_id, rest)

IsSound-at : (a : Allocator) (i : ℕ) (pc : Pc) → Inv a → a.threads i ≡ pc → IsSound a.clock pc
IsSound-at a i pc inv e = subst (IsSound a.clock) e (inv.sound i)

IsSound-mono : (clock now : ℕ) (pc : Pc) → clock ≤ now → IsSound clock pc → IsSound now pc
IsSound-mono clock now idle h s = s
IsSound-mono clock now (loaded res) h s = omega arith
IsSound-mono clock now (swapping res new) h (a, b, c) = (a, omega arith, c)

-- An exchange hands out the new number.
exchange-Inv :
    (a : Allocator) (i new : ℕ)
    → Inv a
    → a.seq_alloc < new
    → time_part new ≤ a.clock
    → new < 2 ^ 64
    → Inv (exchange a i new)
unfolding IsDescending
exchange-Inv a i new inv more at fits =
    let issues : exchange a i new
        ≡ record (set_pc a i idle) { seq_alloc = new; issued = new ∷ a.issued } =
      ground arith in
    rw issues (record {
      in_time = at;
      small = fits;
      sound = IsSound-set_pc a i idle inv.sound tt;
      descending = (
        omega arith,
        omega arith,
        IsDescending-mono a.seq_alloc (new - 1) a.issued (omega arith) inv.descending,
      );
    })

Step-Inv : {a b : Allocator} → a.clock < 2 ^ 32 → Inv a → Step a b → Inv b
Step-Inv {a} small inv (load i e) = record {
  in_time = inv.in_time;
  small = inv.small;
  sound = IsSound-set_pc a i (loaded a.seq_alloc) inv.sound inv.in_time;
  descending = inv.descending;
}
Step-Inv {a} small inv (advance i res e same) = record {
  in_time = inv.in_time;
  small = inv.small;
  sound =
      IsSound-set_pc a i (swapping res (u64 (res + 1))) inv.sound
        (ground (arith, IsSound-at a i (loaded res) inv e));
  descending = inv.descending;
}
Step-Inv {a} small inv (take_time i res e new differs) = record {
  in_time = inv.in_time;
  small = inv.small;
  sound =
      IsSound-set_pc a i (swapping res (u64 (now_time a * 2 ^ 32))) inv.sound
        (ground (arith, IsSound-at a i (loaded res) inv e));
  descending = inv.descending;
}
Step-Inv {a} small inv (win i res new e same) =
    let (more, at, fits) = IsSound-at a i (swapping res new) inv e in
    exchange-Inv a i new inv (omega arith) at fits
Step-Inv {a} small inv (lose i res new e) = record {
  in_time = inv.in_time;
  small = inv.small;
  sound = IsSound-set_pc a i idle inv.sound tt;
  descending = inv.descending;
}
Step-Inv {a} small inv (tick now later) = record {
  in_time = omega (arith, inv.in_time);
  small = inv.small;
  sound = λ i. IsSound-mono a.clock now (a.threads i) later (inv.sound i);
  descending = inv.descending;
}

create-Inv : (start : ℕ) → Inv (create start)
unfolding IsDescending
create-Inv start = record {
  in_time = omega arith;
  small = omega arith;
  sound = λ i. tt;
  descending = tt;
}

Reach-Inv : {start : ℕ} {a : Allocator} → Reach (2 ^ 32) start a → Inv a × (a.clock < 2 ^ 32)
Reach-Inv {start} (created e low) = rw e (create-Inv start, low)
Reach-Inv (step {a} before next low) =
    let (inv, small) = Reach-Inv before in (Step-Inv small inv next, low)

-- Whatever the order in which the threads take their steps, and while the clock does not go back
-- and is below 2 ^ 32 seconds, each id is above the one that was returned before it, so that all
-- are different, none is 0, and all fit 64 bits.
pub allocate-IsDescending :
    (start : ℕ) (a : Allocator)
    → Reach (2 ^ 32) start a
    → IsDescending a.seq_alloc a.issued × (a.seq_alloc < 2 ^ 64)
allocate-IsDescending start a reach =
    let (inv, small) = Reach-Inv reach in (inv.descending, inv.small)

threads-set_pc : (a : Allocator) (i : ℕ) (pc : Pc) → (set_pc a i pc).threads i ≡ pc
threads-set_pc a i pc = rw (eq_self i) refl

-- The exchange of a thread that no other disturbs
swap-alone :
    (start i new : ℕ) (a : Allocator)
    → Reach (2 ^ 32) start a
    → a.threads i ≡ swapping a.seq_alloc new
    → (b : Allocator) × (id : ℕ) × Reach (2 ^ 32) start b
      × (b.issued ≡ id ∷ a.issued)
      × (b.clock ≡ a.clock)
      × (b.threads i ≡ idle)
swap-alone start i new a reach e =
    let (inv, small) = Reach-Inv reach in
    let (more, at, fits) = IsSound-at a i (swapping a.seq_alloc new) inv e in
    let issues : exchange a i new
        ≡ record (set_pc a i idle) { seq_alloc = new; issued = new ∷ a.issued } =
      ground arith in
    let after = record (set_pc a i idle) { seq_alloc = new; issued = new ∷ a.issued } in
    let next : Step a after = subst (Step a) issues (win i a.seq_alloc new e refl) in
    (after, new, step reach next small, refl, refl, threads-set_pc a i idle)

-- A thread that starts `allocate` and is not disturbed returns an id without waiting, once the
-- clock has passed the second of the last id: no state of the other threads keeps it from that.
allocate-undisturbed :
    (start i : ℕ) (a : Allocator)
    → Reach (2 ^ 32) start a
    → a.threads i ≡ idle
    → time_part a.seq_alloc < a.clock
    → (b : Allocator) × (id : ℕ) × Reach (2 ^ 32) start b
      × (b.issued ≡ id ∷ a.issued)
      × (b.clock ≡ a.clock)
      × (b.threads i ≡ idle)
allocate-undisturbed start i a reach e passed =
    let (inv, small) = Reach-Inv reach in
    let a1 = set_pc a i (loaded a.seq_alloc) in
    let r1 : Reach (2 ^ 32) start a1 = step reach (load i e) small in
    let e1 = threads-set_pc a i (loaded a.seq_alloc) in
    elim (Bool-cases (needs_time a.seq_alloc)) [
      | inl new ↦
          let time = u64 (now_time a * 2 ^ 32) in
          swap-alone start i time (set_pc a1 i (swapping a.seq_alloc time))
            (step r1 (take_time i a.seq_alloc e1 new (λ h. absurd (omega arith))) small)
            (threads-set_pc a1 i (swapping a.seq_alloc time))
      | inr same ↦
          let next = u64 (a.seq_alloc + 1) in
          swap-alone start i next (set_pc a1 i (swapping a.seq_alloc next))
            (step r1 (advance i a.seq_alloc e1 same) small)
            (threads-set_pc a1 i (swapping a.seq_alloc next))
    ]

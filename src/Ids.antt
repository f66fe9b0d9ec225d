-- ===== src/Ids.antt =====
-- The allocator of ids, `timestamp_id_allocator` with 64-bit ids (component/core/
-- timestamp_id_allocator.h), used by several threads at once. A step is one atomic operation on
-- the shared number, one reading of the clock, or the passing of time.
pub mod Unique
mod Examples
use atsf4g_co.Base.{
  ℕ, ◌+◌, ◌*◌, ◌/◌, ◌%◌, ◌^◌, ◌≤◌, ◌<◌, ◌≡◌, ◌≢◌, Bool, true, false, ◌||◌, not, List, [], ◌∷◌, ◌==◌,
  if◌then◌else◌, u64,
}

-- `seq_bits` is 32. The upper half of an id is its time.
abbrev pub time_part : ℕ → ℕ
time_part id = id / 2 ^ 32

-- Where a thread is in `allocate`: before the load, after it with the value that it read, or before
-- the exchange of the value for a new one.
pub data Pc : Type 0 where
  idle : Pc
  loaded : ℕ → Pc
  swapping : ℕ → ℕ → Pc

-- `seq_alloc`, the threads, the clock in seconds, and the ids that were returned, the latest first.
pub record Allocator : Type 0 where
  pub seq_alloc : ℕ
  pub threads : ℕ → Pc
  pub clock : ℕ
  pub issued : List ℕ

abbrev pub set_pc : Allocator → ℕ → Pc → Allocator
set_pc a i pc = record a { threads = λ j. if j == i then pc else a.threads j }

-- The program's start
abbrev pub create : ℕ → Allocator
create now = record { seq_alloc = 255; threads = λ i. idle; clock = now; issued = [] }

-- Is a new time needed after `res`?
abbrev pub needs_time : ℕ → Bool
needs_time res = time_part res == 0 || not (time_part res == time_part (u64 (res + 1)))

-- `now_time`
abbrev pub now_time : Allocator → ℕ
now_time a = a.clock % 2 ^ 32

-- An exchange that succeeds; the id 0 is not returned, and the loop goes on.
abbrev pub exchange : Allocator → ℕ → ℕ → Allocator
exchange a i new =
    let a' = record (set_pc a i idle) { seq_alloc = new } in
    if new == 0 then a' else record a' { issued = new ∷ a.issued }

-- One step of a thread, or of the clock
pub data Step (a : Allocator) : Allocator → Type 0 where
  -- `seq_alloc.load()`
  load : (i : ℕ) → a.threads i ≡ idle → Step a (set_pc a i (loaded a.seq_alloc))
  -- the number after `res`
  advance :
      (i res : ℕ)
      → a.threads i ≡ loaded res
      → needs_time res ≡ false
      → Step a (set_pc a i (swapping res (u64 (res + 1))))
  -- the clock shows another time than that of `res`
  take_time :
      (i res : ℕ)
      → a.threads i ≡ loaded res
      → needs_time res ≡ true
      → now_time a ≢ time_part res
      → Step a (set_pc a i (swapping res (u64 (now_time a * 2 ^ 32))))
  -- the exchange finds the value that was loaded
  win :
      (i res new : ℕ)
      → a.threads i ≡ swapping res new
      → a.seq_alloc ≡ res
      → Step a (exchange a i new)
  -- the exchange finds another value, or fails all the same, as a weak one may
  lose : (i res new : ℕ) → a.threads i ≡ swapping res new → Step a (set_pc a i idle)
  -- time passes
  tick : (now : ℕ) → a.clock ≤ now → Step a (record a { clock = now })

-- What can be reached while the clock stays below a bound
pub data Reach (limit start : ℕ) : Allocator → Type 0 where
  created : {a : Allocator} → a ≡ create start → start < limit → Reach limit start a
  step : {a b : Allocator} → Reach limit start a → Step a b → b.clock < limit → Reach limit start b

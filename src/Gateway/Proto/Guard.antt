-- ===== src/Gateway/Proto/Guard.antt =====
-- `proto_base::flag_guard_t`, a flag that is set for the length of a scope (protocols/proto_base.cpp).
use Prim.Native.Nat.{bit_and, bit_or, bit_xor}
use atsf4g_co.Base.{
  ℕ, ◌-◌, ◌^◌, ◌<◌, ◌≡◌, ◌≢◌, refl, Bool, true, ◌&&◌, ◌||◌, ◌==◌, Option, none, some, arith,
  if◌then◌else◌,
}
use atsf4g_co.Base.Table.{all_below, all_below_sound}

-- The constructor: the flags afterwards, and what the destructor has to take back. `none` is the
-- null pointer of a guard whose flag was set already.
pub enter : ℕ → ℕ → ℕ × Option ℕ
enter f v =
    let added = bit_xor (bit_or f v) f in
    if f == bit_or f v then (f, none) else (bit_or f added, some added)

-- The destructor, `*flags_ &= ~v_`
pub leave : ℕ → Option ℕ → ℕ
leave f none = f
leave f (some v) = bit_and f (2 ^ 32 - 1 - v)

-- EN_PFT_IN_CALLBACK, the one flag that is guarded
abbrev pub in_callback : ℕ
in_callback = 0x0008

scope_test : ℕ → ℕ → Bool
unfolding enter leave
scope_test f j =
    let (f', g) = enter f in_callback in
    (bit_and f' in_callback == in_callback)
    && ((leave f' g == f) && (j == 3 || leave (bit_or f' (2 ^ j)) g == bit_or f (2 ^ j)))

scope_table : all_below 1024 (λ f. all_below 10 (scope_test f)) ≡ true
unfolding all_below scope_test
scope_table = refl

-- For every value of the flags of a protocol object, which have ten bits: inside the scope the flag
-- EN_PFT_IN_CALLBACK is set; after it the flags are what they were, so a guard inside a guard does not
-- clear the flag; and any other flag that was set inside the scope is still set.
scope_restores :
    (f j : ℕ)
    → f < 1024
    → j < 10
    → j ≢ 3
    → let (f', g) = enter f in_callback in
      (bit_and f' in_callback ≡ in_callback)
      × (leave f' g ≡ f)
      × (leave (bit_or f' (2 ^ j)) g ≡ bit_or f (2 ^ j))
unfolding scope_test
scope_restores f j hf hj ne =
    let t : scope_test f j ≡ true =
      all_below_sound 10 (scope_test f) j
        (all_below_sound 1024 (λ f'. all_below 10 (scope_test f')) f scope_table hf) hj in
    ground arith

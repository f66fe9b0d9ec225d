-- ===== src/Gateway/Flags/Bits.antt =====
-- `session::check_flag` and `session::set_flag` on the integer `flags_` (atgateway/session.cpp), and
-- that the record of Booleans stands for that integer.
use Prim.Native.Nat.{bit_and, bit_or}
use atsf4g_co.Base.{
  ℕ, ◌-◌, ◌^◌, ◌<◌, ◌≡◌, refl, Bool, true, false, not, ◌&&◌, ltb, ◌==◌, if◌then◌else◌, arith,
}
use atsf4g_co.Base.Table.{all_below, all_below_sound}
use atsf4g_co.Gateway.Flags.{
  Flag, Flags, inited, has_fd, registered, reconnected, wait_reconnect, closing, closing_fd,
  writing_fd, check_flag, set_flag, bit,
}

-- `0 != (flags_ & t)`
pub check_bits : ℕ → Flag → Bool
check_bits n t = not (bit_and n (bit t) == 0)

-- `flags_ |= t` and `flags_ &= ~t`
pub set_bits : ℕ → Flag → Bool → ℕ
set_bits n t true = bit_or n (bit t)
set_bits n t false = bit_and n (2 ^ 32 - 1 - bit t)

-- The record that an integer stands for.
pub decode : ℕ → Flags
decode n = record {
  inited = check_bits n inited;
  has_fd = check_bits n has_fd;
  registered = check_bits n registered;
  reconnected = check_bits n reconnected;
  wait_reconnect = check_bits n wait_reconnect;
  closing = check_bits n closing;
  closing_fd = check_bits n closing_fd;
  writing_fd = check_bits n writing_fd;
}

all_flags : (Flag → Bool) → Bool
all_flags p =
    p inited
    && (p has_fd
        && (p registered
            && (p reconnected
                && (p wait_reconnect && (p closing && (p closing_fd && p writing_fd))))))

all_flags_sound : (p : Flag → Bool) (t : Flag) → all_flags p ≡ true → p t ≡ true
unfolding all_flags
all_flags_sound p inited h = ground arith
all_flags_sound p _ h = ground arith

beq : Bool → Bool → Bool
beq true b = b
beq false b = not b

beq-eq : (a b : Bool) → beq a b ≡ true → a ≡ b
unfolding beq
beq-eq true b h = ground arith
beq-eq false b h = ground arith

same : Flag → Flag → Bool
same t u = bit t == bit u

-- A write of one bit, read back through any other.
frame_test : Bool → ℕ → Flag → Flag → Bool
unfolding check_bits set_bits beq same
frame_test v n t u = beq (check_bits (set_bits n t v) u) (if same t u then v else check_bits n u)

frame_table :
    (v : Bool) → all_below 256 (λ n. all_flags (λ t. all_flags (λ u. frame_test v n t u))) ≡ true
unfolding all_below all_flags frame_test
frame_table true = refl
frame_table false = refl

frame :
    (v : Bool) (n : ℕ) (t u : Flag)
    → n < 256
    → check_bits (set_bits n t v) u ≡ (if same t u then v else check_bits n u)
unfolding frame_test
frame v n t u h = beq-eq _ _ (
    all_flags_sound (λ u'. frame_test v n t u') u
      (all_flags_sound (λ t'. all_flags (λ u'. frame_test v n t' u')) t
        (all_below_sound 256 _ n (frame_table v) h)))

bound_table : (v : Bool) → all_below 256 (λ n. all_flags (λ t. ltb (set_bits n t v) 256)) ≡ true
unfolding all_below all_flags set_bits
bound_table true = refl
bound_table false = refl

-- Setting a flag of an eight-bit value gives an eight-bit value.
set_bits-lt : (n : ℕ) (t : Flag) (v : Bool) → n < 256 → set_bits n t v < 256
set_bits-lt n t v h =
    let b : ltb (set_bits n t v) 256 ≡ true =
      all_flags_sound (λ t'. ltb (set_bits n t' v) 256) t
        (all_below_sound 256 _ n (bound_table v) h) in
    ground arith

-- The bit operations on `flags_` are the record's: reading a flag and writing a flag commute with
-- `decode`, so each write changes the flag named and no other.
decode-set_bits :
    (n : ℕ) (t : Flag) (v : Bool)
    → n < 256
    → (decode (set_bits n t v) ≡ set_flag (decode n) t v)
      × (check_flag (decode n) t ≡ check_bits n t)
unfolding decode same
decode-set_bits n inited v h = (
  ground (
    arith,
    frame v n inited inited h,
    frame v n inited has_fd h,
    frame v n inited registered h,
    frame v n inited reconnected h,
    frame v n inited wait_reconnect h,
    frame v n inited closing h,
    frame v n inited closing_fd h,
    frame v n inited writing_fd h,
  ),
  refl,
)
decode-set_bits n t v h = (
  ground (
    arith,
    frame v n t inited h,
    frame v n t has_fd h,
    frame v n t registered h,
    frame v n t reconnected h,
    frame v n t wait_reconnect h,
    frame v n t closing h,
    frame v n t closing_fd h,
    frame v n t writing_fd h,
  ),
  refl,
)

-- ===== src/Etcd/Packer/Range.antt =====
-- The range of keys that `pack_key_range` asks for with "+1".
use atsf4g_co.Base.{
  ℕ, ◌+◌, ◌<◌, Bool, true, false, not, ◌≡◌, inl, inr, refl, sym, ap, ◌∙◌, ◌&&◌, ◌||◌, [], ◌∷◌, ◌++◌,
  ltb, ◌==◌, if◌then◌else◌, Bool-cases, arith,
}
use atsf4g_co.Base.Lists.{reverse, reverse-snoc}
use atsf4g_co.Etcd.Keepalive.{Text, same_text}
use atsf4g_co.Etcd.Packer.{Library, Object, plus_one, end_of_range, pack_key_range, empty}

-- The order of keys in etcd: byte by byte, a begin before what it begins
abbrev pub precedes : Text → Text → Bool
precedes s [] = false
precedes [] (d ∷ t) = true
precedes (c ∷ s) (d ∷ t) = ltb c d || (c == d && precedes s t)

-- `s` is in the range from `key` on, and before `range_end`.
abbrev pub in_range : Text → Text → Text → Bool
in_range key range_end s = not (precedes s key) && precedes s range_end

abbrev pub is_prefix : Text → Text → Bool
is_prefix [] s = true
is_prefix (c ∷ k) [] = false
is_prefix (c ∷ k) (d ∷ t) = c == d && is_prefix k t

-- "+1"
abbrev pub plus_1 : Text
plus_1 = 43 ∷ (49 ∷ [])

-- Every character is a byte.
unfoldable pub IsBytes : Text → Type 0
IsBytes [] = Unit
IsBytes (c ∷ rest) = (c < 256) × IsBytes rest

-- The end of the range from the front: the last byte that is not 0xff, increased.
next_key : Text → Text
next_key [] = []
next_key (c ∷ rest) =
    let more = next_key rest in
    if empty more then (if c == 0xff then [] else (c + 1) ∷ []) else c ∷ more

plus_one-snoc :
    (l : Library) (r : Text) (c : ℕ)
    → plus_one l (r ++ (c ∷ [])) ≡ (
        if empty (plus_one l r)
        then (if c == 0xff then [] else (c + 1) ∷ [])
        else plus_one l r ++ (c ∷ []))
unfolding plus_one
plus_one-snoc l [] c = ground arith
plus_one-snoc l (d ∷ r) c = ground (arith, plus_one-snoc l r c)

-- Is every byte 0xff?
unfoldable pub all_ff : Text → Bool
all_ff [] = true
all_ff (c ∷ rest) = c == 0xff && all_ff rest

empty-snoc : (s : Text) (c : ℕ) → empty (s ++ (c ∷ [])) ≡ false
empty-snoc [] c = refl
empty-snoc (d ∷ s) c = refl

empty-reverse : (s : Text) → empty (reverse s) ≡ empty s
unfolding reverse
empty-reverse [] = refl
empty-reverse (c ∷ s) = empty-snoc (reverse s) c

-- The loop over the reversed key, and the same from the front
plus_one-next_key : (l : Library) (key : Text) → reverse (plus_one l (reverse key)) ≡ next_key key
unfolding next_key reverse
plus_one-next_key l [] = unfold plus_one in refl
plus_one-next_key l (c ∷ rest) =
    let r = plus_one l (reverse rest) in
    let ih = plus_one-next_key l rest in
    let none_left : empty (next_key rest) ≡ empty r = ap empty (sym ih) ∙ empty-reverse r in
    ap reverse (plus_one-snoc l (reverse rest) c) ∙ elim (Bool-cases (empty r)) [
      | inl e ↦ rw (none_left, e) (ground arith)
      | inr e ↦ rw (none_left, e) (reverse-snoc r c ∙ ap (λ x. c ∷ x) ih)
    ]

-- Without a byte to increase, and with one
empty-next_key : (key : Text) → empty (next_key key) ≡ all_ff key
unfolding next_key all_ff
empty-next_key [] = refl
empty-next_key (c ∷ rest) = ground (arith, empty-next_key rest)

-- Bytes from a key of 0xff on begin with it.
precedes-ff :
    (key s : Text) → all_ff key ≡ true → IsBytes s → not (precedes s key) ≡ is_prefix key s
unfolding all_ff IsBytes
precedes-ff [] s ff bytes = ground arith
precedes-ff (c ∷ key) [] ff bytes = refl
precedes-ff (c ∷ key) (d ∷ s) ff (byte, bytes) = ground (arith, precedes-ff key s)

precedes-nil : (s : Text) → precedes s [] ≡ false
precedes-nil [] = refl
precedes-nil (c ∷ s) = refl

next_key-prefix :
    (key s : Text)
    → IsBytes s
    → all_ff key ≡ false
    → in_range key (next_key key) s ≡ is_prefix key s
unfolding next_key all_ff IsBytes
next_key-prefix [] s bytes some_other = cc
next_key-prefix (c ∷ key) [] bytes some_other = ground arith
next_key-prefix (c ∷ key) (d ∷ s) (byte, bytes) some_other = elim (Bool-cases (all_ff key)) [
  | inl ff ↦ ground (arith, ff, precedes-ff key s ff bytes, empty-next_key key, precedes-nil s)
  | inr other ↦ ground (arith, other, next_key-prefix key s bytes other, empty-next_key key)
]

-- The range "+1" of a key that has a byte other than 0xff holds exactly the keys that begin with it.
pub range-prefix :
    (l : Library) (key s : Text)
    → IsBytes s
    → all_ff key ≡ false
    → in_range key (end_of_range l key plus_1) s ≡ is_prefix key s
unfolding end_of_range same_text
range-prefix l key s bytes some_other =
    ap (λ e. in_range key e s) (plus_one-next_key l key) ∙ next_key-prefix key s bytes some_other

-- For a key of bytes 0xff alone no end is left: with "+1" the request is the same as for that one key
-- without a range, not one for the keys that begin with it.
range-all_ff :
    (l : Library) (json : Object) (key : Text)
    → all_ff key ≡ true
    → pack_key_range l json key plus_1 ≡ pack_key_range l json key []
unfolding pack_key_range end_of_range same_text
range-all_ff l json key ff = ground (arith, plus_one-next_key l key, empty-next_key key)

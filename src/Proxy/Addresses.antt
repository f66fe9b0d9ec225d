-- ===== src/Proxy/Addresses.antt =====
-- The addresses of a proxy as `tick` turns them round (atproxy/atproxy_manager.cpp).
use atsf4g_co.Base.Lists.{length, append_assoc, append_nil}
use atsf4g_co.Base.{
  ℕ, zero, suc, ◌<◌, ◌≡◌, refl, sym, ◌∙◌, ap, Bool, true, false, List, [], ◌∷◌, ◌++◌, arith,
}
use atsf4g_co.Proxy.{next_listen_address, skip, pick}

-- None of the addresses is available.
pub data AllDown {A : Type 0} (ok : A → Bool) : List A → Type 0 where
  down_nil : AllDown ok []
  down_cons : (x : A) (xs : List A) → ok x ≡ false → AllDown ok xs → AllDown ok (x ∷ xs)

module _ {A : Type 0} where
  -- The three cases of `next_listen_address` are one: the first address goes to the back.
  next_listen_address-rotates : (x : A) (xs : List A) → next_listen_address (x ∷ xs) ≡ xs ++ x ∷ []
  unfolding next_listen_address
  next_listen_address-rotates x [] = refl
  next_listen_address-rotates x (y ∷ []) = refl
  next_listen_address-rotates x (y ∷ z ∷ xs) = refl

  stays : (ok : A → Bool) (k : ℕ) (x : A) (xs : List A) → ok x ≡ true → pick ok k (x ∷ xs) ≡ x ∷ xs
  unfolding pick skip
  stays ok zero x xs h = refl
  stays ok (suc k) x xs h = rw h (stays ok k x xs h)

  pick-skips :
      (ok : A → Bool) (n : ℕ) (us : List A) (x : A) (vs : List A)
      → AllDown ok us
      → ok x ≡ true
      → length us < n
      → pick ok n (us ++ x ∷ vs) ≡ x ∷ vs ++ us
  unfolding pick skip length
  pick-skips ok zero us x vs d h lt = absurd (omega arith)
  pick-skips ok (suc n) [] x vs d h lt =
      rw h (stays ok n x vs h ∙ ap (λ l. x ∷ l) (sym (append_nil vs)))
  pick-skips ok (suc n) (u ∷ us) x vs (down_cons _ _ e d) h lt =
      rw (e, next_listen_address-rotates u (us ++ x ∷ vs), append_assoc us (x ∷ vs) (u ∷ []))
        (pick-skips ok n us x (vs ++ u ∷ []) d h (omega arith)
          ∙ ap (λ l. x ∷ l) (append_assoc vs (u ∷ []) us))

  length-middle : (us : List A) (x : A) (vs : List A) → length us < length (us ++ x ∷ vs)
  unfolding length
  length-middle [] x vs = omega arith
  length-middle (u ∷ us) x vs = omega (arith, length-middle us x vs)

  -- The loop of `tick` over the addresses, run as often as there are addresses, moves those before the
  -- first available one, `us`, to the back and stops there: the address that is connected to is
  -- available, and none is lost.
  pick-first_available :
      (ok : A → Bool) (us : List A) (x : A) (vs : List A)
      → AllDown ok us
      → ok x ≡ true
      → pick ok (length (us ++ x ∷ vs)) (us ++ x ∷ vs) ≡ x ∷ vs ++ us
  pick-first_available ok us x vs d h =
      pick-skips ok (length (us ++ x ∷ vs)) us x vs d h (length-middle us x vs)

  all_down :
      (ok : A → Bool) (n : ℕ) (us vs : List A)
      → AllDown ok us
      → n ≡ length us
      → pick ok n (us ++ vs) ≡ vs ++ us
  unfolding pick skip length
  all_down ok zero [] vs d q = sym (append_nil vs)
  all_down ok (suc n) [] vs d q = absurd (omega arith)
  all_down ok zero (u ∷ us) vs d q = absurd (omega arith)
  all_down ok (suc n) (u ∷ us) vs (down_cons _ _ e d) q =
      rw (e, next_listen_address-rotates u (us ++ vs), append_assoc us vs (u ∷ []))
        (all_down ok n us (vs ++ u ∷ []) d (omega arith) ∙ append_assoc vs (u ∷ []) us)

  -- Where no address is available, the loop leaves them in the order they were in, and the first of
  -- them is connected to all the same.
  pick-none_available : (ok : A → Bool) (us : List A) → AllDown ok us → pick ok (length us) us ≡ us
  pick-none_available ok us d =
      ap (pick ok (length us)) (sym (append_nil us)) ∙ all_down ok (length us) us [] d refl

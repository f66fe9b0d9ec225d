-- ===== src/Inner/Crypt/Verify.antt =====
-- When the message that ends a handshake is accepted.
use atsf4g_co.Base.{
  ℕ, ◌≤◌, ◌<◌, ◌≡◌, ◌≢◌, refl, ap, ◌∙◌, ◌⊎◌, inl, inr, ℤ, pos, Bool, true, false, not, Option, none,
  some, List, [], ◌∷◌, ◌==◌, if◌then◌else◌, is_zero, arith,
}
use atsf4g_co.Base.Lists.{length}
use atsf4g_co.Gateway.Codes.{ect_crypt_verify, crt_handshake}
use atsf4g_co.Gateway.Proto.{handshake_done}
use atsf4g_co.Inner.Crypt.{
  CipherOps, CryptSession, Handshake, sst_direct, is_empty, decrypt_data, close_handshake, conclude,
  put, check_text, verify_text, dispatch_handshake_verify_ntf,
}

-- The bytes at the places that are compared: the second, the fourth and so on, as far as another
-- list goes
abbrev pub compared : Bool → List ℕ → List ℕ → List ℕ
compared odd l [] = []
compared odd [] (p ∷ ps) = []
compared odd (c ∷ l) (p ∷ ps) = if odd then c ∷ compared false l ps else compared true l ps

-- No byte is 0.
unfoldable pub IsText : List ℕ → Type 0
IsText [] = Unit
IsText (c ∷ l) = (0 < c) × IsText l

text_of_length :
    (t expected : List ℕ)
    → is_empty expected ≡ false
    → length expected ≤ length t
    → is_empty t ≡ false
unfolding length
text_of_length [] [] e h = e
text_of_length [] (p ∷ ps) e h = absurd (omega arith)
text_of_length (c ∷ t) expected e h = refl

module _ {C : Type 0} (ops : CipherOps C) where
  check_text-pass :
      (odd : Bool) (seen expected : List ℕ)
      → IsText seen
      → length expected ≤ length seen
      → compared odd seen expected ≡ compared odd expected expected
      → check_text ops odd seen expected ≡ pos 0
  unfolding check_text IsText length
  check_text-pass odd seen [] t long same = ground arith
  check_text-pass odd [] (p ∷ ps) t long same = refl
  check_text-pass true (c ∷ seen) (p ∷ ps) (byte, t) long same =
      ground (arith, check_text-pass false seen ps t)
  check_text-pass false (c ∷ seen) (p ∷ ps) (byte, t) long same =
      ground (arith, check_text-pass true seen ps t)

  check_text-fail :
      (odd : Bool) (seen expected : List ℕ)
      → IsText seen
      → length expected ≤ length seen
      → check_text ops odd seen expected ≡ pos 0
      → compared odd seen expected ≡ compared odd expected expected
  unfolding check_text IsText length
  check_text-fail odd seen [] t long same = ground arith
  check_text-fail odd [] (p ∷ ps) t long same = absurd (omega arith)
  check_text-fail true (c ∷ seen) (p ∷ ps) (byte, t) long same =
      ground (arith, check_text-fail false seen ps t)
  check_text-fail false (c ∷ seen) (p ∷ ps) (byte, t) long same =
      ground (arith, check_text-fail true seen ps t)

  verify_text-checked :
      (c : CryptSession C) (t out : List ℕ)
      → c.is_inited ≡ true
      → is_empty c.type ≡ false
      → is_empty c.param ≡ false
      → length c.param ≤ length t
      → length c.param ≤ length out
      → (ops.decrypt c.cipher t).1 ≡ some out
      → (verify_text ops false c (some t)).1 ≡ check_text ops false out c.param
  unfolding verify_text decrypt_data
  verify_text-checked c t out inited typed expected long enough e =
      let filled : is_empty t ≡ false = text_of_length t c.param expected long in ground arith

  verify-result :
      (h : Handshake C) (at switch_type : ℕ) (t : Option (List ℕ))
      → h.switch_secret_type ≡ switch_type
      → (if switch_type == sst_direct then some h.crypt_handshake else h.crypt_read) ≡ some at
      → let r = dispatch_handshake_verify_ntf ops h switch_type t in
        let ret = (verify_text ops h.base.closing (h.store at) t).1 in
        (r.1 ≡ ret) × (r.2 ≡ (if is_zero ret then none else some (pos crt_handshake)))
  unfolding dispatch_handshake_verify_ntf
  verify-result h at switch_type t same read =
      rw (dispatch_handshake_verify_ntf, read) (ground arith)

  check_text-result :
      (odd : Bool) (seen expected : List ℕ)
      → (check_text ops odd seen expected ≡ pos 0)
        ⊎ (check_text ops odd seen expected ≡ ect_crypt_verify)
  unfolding check_text
  check_text-result odd seen [] = inl refl
  check_text-result odd [] (p ∷ ps) = inl refl
  check_text-result odd (c ∷ seen) (p ∷ ps) = (ground (arith, check_text-result (not odd) seen ps))

  -- Where a text is expected and the message brings one that is long enough and is decrypted to a
  -- text without a byte 0, the message is accepted exactly when every second byte is as expected;
  -- if not, the result is the error of verification, and the connection is closed for it.
  pub verify-decides :
      (h : Handshake C) (at switch_type : ℕ) (t out : List ℕ)
      → h.switch_secret_type ≡ switch_type
      → (if switch_type == sst_direct then some h.crypt_handshake else h.crypt_read) ≡ some at
      → h.base.closing ≡ false
      → (h.store at).is_inited ≡ true
      → is_empty (h.store at).type ≡ false
      → is_empty (h.store at).param ≡ false
      → length (h.store at).param ≤ length t
      → length (h.store at).param ≤ length out
      → (ops.decrypt (h.store at).cipher t).1 ≡ some out
      → IsText out
      → ((compared false out (h.store at).param
            ≡ compared false (h.store at).param (h.store at).param)
          × ((dispatch_handshake_verify_ntf ops h switch_type (some t)).1 ≡ pos 0)
          × ((dispatch_handshake_verify_ntf ops h switch_type (some t)).2 ≡ none))
        ⊎ ((compared false out (h.store at).param
              ≢ compared false (h.store at).param (h.store at).param)
            × ((dispatch_handshake_verify_ntf ops h switch_type (some t)).1 ≡ ect_crypt_verify)
            × ((dispatch_handshake_verify_ntf ops h switch_type (some t)).2
                ≡ some (pos crt_handshake)))
  verify-decides h at switch_type t out same read running inited typed expected long enough e text =
      let c = h.store at in
      let open_ : (verify_text ops h.base.closing c (some t)).1 ≡ check_text ops false out c.param =
        ap (λ b. (verify_text ops b c (some t)).1) running
        ∙ verify_text-checked c t out inited typed expected long enough e in
      let (ret, reason) = verify-result h at switch_type (some t) same read in
      elim (check_text-result false out c.param) [
        | inl good ↦ inl (
          check_text-fail false out c.param text enough good,
          ret ∙ (open_ ∙ good),
          reason ∙ (rw (open_ ∙ good) refl),
        )
        | inr bad ↦ inr (
          (λ agree. let good = check_text-pass false out c.param text enough agree in (cc)),
          ret ∙ (open_ ∙ bad),
          reason ∙ (rw (open_ ∙ bad) refl),
        )
      ]

  -- The message brings no text, or one that is shorter than the text expected, or none is expected.
  abbrev IsUnchecked : CryptSession C → Option (List ℕ) → Type 0
  IsUnchecked c none = Unit
  IsUnchecked c (some t) = (length t < length c.param) ⊎ (is_empty c.param ≡ true)

  verify_text-unchecked :
      (closing : Bool) (c : CryptSession C) (t : Option (List ℕ))
      → IsUnchecked c t
      → verify_text ops closing c t ≡ (c, pos 0)
  unfolding verify_text
  verify_text-unchecked closing c none h = refl
  verify_text-unchecked closing c (some t) (inl short) = (ground arith)
  verify_text-unchecked closing c (some t) (inr nothing) = rw nothing refl

  -- With each of the three kinds of exchange the handshake ends with the result given.
  close_handshake-done :
      (h : Handshake C) (status : ℤ)
      → h.switch_secret_type ≤ 2
      → ((close_handshake ops h status).base ≡ (handshake_done h.base status).0)
        × ((close_handshake ops h status).crypt_read ≡ h.crypt_read)
  unfolding close_handshake
  close_handshake-done h status known = ground arith

  -- The end of `dispatch_handshake_verify_ntf` for an object that reads with this pointer
  accepted :
      (h : Handshake C) (at : ℕ) (pointer : Option ℕ)
      → h.switch_secret_type ≤ 2
      → let r =
          conclude ops (put ops (record h { crypt_read = pointer }) at (h.store at)) (pos 0) in
        (r.1 ≡ pos 0)
        × (r.2 ≡ none)
        × (r.0.base ≡ (handshake_done h.base (pos 0)).0)
        × (r.0.crypt_read ≡ pointer)
  accepted h at pointer known =
      let (done, read) =
        close_handshake-done (put ops (record h { crypt_read = pointer }) at (h.store at)) (pos 0)
          known in
      (refl, refl, done, read)

  -- A message without a text, or with one that is shorter than the text expected, is accepted
  -- unread: with any of the three kinds of exchange the handshake is done with the result 0,
  -- whatever the keys are, and the connection is not closed by it.
  pub verify-unchecked :
      (h : Handshake C) (at switch_type : ℕ) (t : Option (List ℕ))
      → h.switch_secret_type ≡ switch_type
      → switch_type ≤ 2
      → (if switch_type == sst_direct then some h.crypt_handshake else h.crypt_read) ≡ some at
      → IsUnchecked (h.store at) t
      → ((dispatch_handshake_verify_ntf ops h switch_type t).1 ≡ pos 0)
        × ((dispatch_handshake_verify_ntf ops h switch_type t).2 ≡ none)
        × ((dispatch_handshake_verify_ntf ops h switch_type t).0.base
            ≡ (handshake_done h.base (pos 0)).0)
        × ((dispatch_handshake_verify_ntf ops h switch_type t).0.crypt_read ≡ some at)
  unfolding dispatch_handshake_verify_ntf
  verify-unchecked h at switch_type t same known read unread =
      let skipped = verify_text-unchecked h.base.closing (h.store at) t unread in
      let agree : (h.switch_secret_type == switch_type) ≡ true = (ground arith) in
      let pointer = if switch_type == sst_direct then some h.crypt_handshake else h.crypt_read in
      let (ret, none_, done, kept) = accepted h at pointer (omega arith) in
      rw (dispatch_handshake_verify_ntf, read, skipped, agree) (ret, none_, done, kept ∙ read)

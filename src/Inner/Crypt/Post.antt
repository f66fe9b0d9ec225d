-- ===== src/Inner/Crypt/Post.antt =====
-- The data of the applications: `encrypt_data`, `encode_post`, `decode_post`, `send_post` and the
-- posts of `dispatch_data` (inner_v1/libatgw_proto_inner.cpp).
pub mod Delivery
use mathlib.Core.Path.{subst}
use atsf4g_co.Base.{
  ℕ, ◌+◌, ◌≤◌, ◌<◌, ◌≡◌, refl, sym, ap, ◌∙◌, ◌⊎◌, inl, inr, ℤ, pos, Bool, true, false, not, ◌&&◌,
  ◌||◌, Option, none, some, List, [], ◌∷◌, ◌++◌, ltb, ◌==◌, if◌then◌else◌, is_neg, is_zero, is_some,
  Bool-cases, Option-cases, arith,
}
use atsf4g_co.Base.Lists.{length, take, take-append, take-all}
use atsf4g_co.Gateway.Codes.{
  ect_handshake, ect_closing, ect_miss_callbacks, ect_crypt_not_supported, ect_param,
  ect_crypt_operation, crt_invalid_data, crt_handshake,
}
use atsf4g_co.Inner.Wire.{Wire}
use atsf4g_co.Inner.Sender.{SendBuffers, Env, Sender, write_msg}
use atsf4g_co.Inner.Crypt.{CipherOps, CryptSession, Handshake, is_empty, decrypt_data, put, out_of}

-- `cs_body_post`: the length before the encryption, and the data, which a message need not have
pub record Body : Type 0 where
  pub original : ℕ
  pub bytes : Option (List ℕ)

-- What `dispatch_data` does with a post: it hands the data on with a length, calls `close` without a
-- kickoff, follows a null pointer, or does nothing.
pub data Dispatched : Type 0 where
  delivered : ℕ → List ℕ → Dispatched
  closes : ℕ → Dispatched
  null_followed : Dispatched
  ignored : Dispatched

module _ {C : Type 0} (ops : CipherOps C) where
  -- `encrypt_data`: the session, the result, and what `out` points to
  unfoldable pub encrypt_data :
      Bool → CryptSession C → List ℕ → CryptSession C × ℤ × Option (List ℕ)
  encrypt_data closing c input =
      let r = ops.encrypt c.cipher input in
      if closing
      then (c, ect_closing, none)
      else if not c.is_inited
      then (c, ect_crypt_not_supported, none)
      else if is_empty input
      then (c, ect_param, some input)
      else if is_empty c.type
      then (c, pos 0, some input)
      else elim r.1 [
        | none ↦ (record c { cipher = r.0 }, ect_crypt_operation, none)
        | some out ↦ (record c { cipher = r.0 }, pos 0, some out)
      ]

  -- `encode_post`
  unfoldable pub encode_post : Handshake C → List ℕ → Handshake C × ℤ × Option (List ℕ)
  encode_post h input =
      if h.base.closing then (h, ect_closing, some input) else elim h.crypt_write [
        | none ↦ (h, ect_handshake, some input)
        | some at ↦
            let r = encrypt_data h.base.closing (h.store at) input in (put ops h at r.0, r.1, r.2)
      ]

  -- `decode_post`
  unfoldable pub decode_post : Handshake C → List ℕ → Handshake C × ℤ × Option (List ℕ)
  decode_post h input = if h.base.closing then (h, ect_closing, some input) else elim h.crypt_read [
    | none ↦ (h, ect_handshake, some input)
    | some at ↦
        let r = decrypt_data ops h.base.closing (h.store at) input in
        (put ops h at r.0, r.1, if is_neg r.1 then some input else r.2)
  ]

  -- A post after the test of the handshake
  unfoldable pub hand_on : Handshake C → Bool → ℕ → Option (List ℕ) → Handshake C × Dispatched
  hand_on h has_message_fn original none = (h, null_followed)
  hand_on h has_message_fn original (some bytes) =
      let r = decode_post h bytes in
      if not (is_zero r.1)
      then (r.0, closes crt_invalid_data)
      else (r.0, if has_message_fn then delivered original (out_of ops r.2) else ignored)

  -- `dispatch_data`, for a message that is marked as a post, with its body if that is one of a post
  unfoldable pub dispatch_post : Handshake C → Bool → Option Body → Handshake C × Dispatched
  dispatch_post h has_message_fn none =
      (h, if h.base.closing then ignored else closes crt_invalid_data)
  dispatch_post h has_message_fn (some b) =
      if h.base.closing
      then (h, ignored)
      else if not h.base.handshake_done || not (is_some h.crypt_read)
      then (h, closes crt_handshake)
      else hand_on h has_message_fn b.original b.bytes

module _ {C M : Type 0} (ops : CipherOps C) (w : Wire) (bm : SendBuffers M) (env : Env)
    (serialize : Body → List ℕ) where
  -- `send_post`, with the two parts of the object: what is left of them, and the result.
  -- `serialize` stands for the builder of flatbuffers.
  unfoldable pub send_post :
      ℕ → Handshake C → Sender M → List ℕ → Handshake C × Option (Sender M × ℤ)
  send_post fuel h s buffer =
      let r = encode_post ops h buffer in
      let body : Body = record { original = length buffer; bytes = r.2 } in
      if h.base.closing
      then (h, some (s, ect_closing))
      else if not env.has_write_fn || not (is_some h.crypt_write)
      then (h, some (s, ect_miss_callbacks))
      else if not (is_zero r.1)
      then (r.0, some (s, r.1))
      else (r.0, write_msg w bm env fuel s (serialize body))

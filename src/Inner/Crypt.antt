-- ===== src/Inner/Crypt.antt =====
-- Encryption sessions and the end of a handshake: `crypt_session_t`, `decrypt_data`, `close_handshake`
-- and `dispatch_handshake_verify_ntf` (inner_v1/libatgw_proto_inner.cpp). The ciphers are of another
-- library. A session is shared by the pointers to it, so that the sessions stand in a store.
pub mod Verify
pub mod Reconnect
pub mod Post
mod Examples
use atsf4g_co.Base.{
  ℕ, zero, suc, ◌+◌, ◌-◌, ◌*◌, ◌/◌, ℤ, pos, Bool, true, false, not, ◌&&◌, ◌||◌, Option, none, some,
  List, [], ◌∷◌, ◌++◌, ltb, leb, ◌==◌, if◌then◌else◌, is_neg, is_zero,
}
use atsf4g_co.Base.Lists.{length, take, drop}
use atsf4g_co.Gateway.Codes.{
  ect_handshake, ect_closing, ect_crypt_not_supported, ect_param, ect_crypt_already_inited,
  ect_crypt_verify, ect_crypt_operation, crt_handshake,
}
use atsf4g_co.Gateway.Proto.{ProtoBase, handshake_done}

-- `util::crypto::cipher`: the calls change its state, and a negative result is an error. `encrypt` and
-- `decrypt` give
-- `none` on an error.
pub record CipherOps (C : Type 0) : Type 0 where
  pub init : C → List ℕ → C × ℤ
  pub close : C → C
  pub get_key_bits : C → ℕ
  pub get_iv_size : C → ℕ
  pub set_key : C → List ℕ → C × ℤ
  pub set_iv : C → List ℕ → C × ℤ
  pub encrypt : C → List ℕ → C × Option (List ℕ)
  pub decrypt : C → List ℕ → C × Option (List ℕ)

-- `crypt_session_t`
pub record CryptSession (C : Type 0) : Type 0 where
  pub type : List ℕ
  pub secret : List ℕ
  pub param : List ℕ
  pub cipher : C
  pub is_inited : Bool

-- The members that the end of a handshake uses: the sessions by their addresses, the pointers to them,
-- `session_id_`, `handshake_` without its Diffie-Hellman context, and the base class.
pub record Handshake (C : Type 0) : Type 0 where
  pub store : ℕ → CryptSession C
  pub crypt_read : Option ℕ
  pub crypt_write : Option ℕ
  pub crypt_handshake : ℕ
  pub session_id : ℕ
  pub switch_secret_type : ℕ
  pub has_data : Bool
  pub base : ProtoBase

-- `switch_secret_t`
abbrev pub sst_direct : ℕ
sst_direct = 0

abbrev pub sst_dh : ℕ
sst_dh = 1

abbrev pub sst_ecdh : ℕ
sst_ecdh = 2

abbrev zeros : ℕ → List ℕ
zeros zero = []
zeros (suc n) = 0 ∷ zeros n

-- `vector::resize`
unfoldable pub resize : ℕ → List ℕ → List ℕ
resize n l = take n l ++ zeros (n - length l)

abbrev pub is_empty : List ℕ → Bool
is_empty [] = true
is_empty (c ∷ rest) = false

module _ {C : Type 0} (ops : CipherOps C) where
  -- `crypt_session_t::setup`
  unfoldable pub setup : CryptSession C → List ℕ → CryptSession C × ℤ
  setup c t =
      let r = ops.init c.cipher t in
      let size = ops.get_key_bits r.0 / 8 in
      if c.is_inited
      then (c, ect_crypt_already_inited)
      else if is_empty t
      then (
        record c { secret = []; cipher = ops.close c.cipher; type = t; is_inited = true },
        pos 0,
      )
      else if is_neg r.1
      then (record c { cipher = r.0 }, ect_crypt_not_supported)
      else (
        record c {
          cipher = r.0;
          secret =
              if length c.secret * 8 == ops.get_key_bits r.0
              then c.secret
              else resize size c.secret;
          type = t;
          is_inited = true;
        },
        pos 0,
      )

  -- `crypt_session_t::close`
  abbrev close : CryptSession C → CryptSession C
  close c = record c { cipher = ops.close c.cipher; type = []; is_inited = false }

  -- The end of `swap_secret`: the key is set, and the secret taken.
  abbrev take_key : CryptSession C → List ℕ → ℕ → CryptSession C × ℤ
  take_key c input key_size =
      let r = ops.set_key c.cipher (take key_size input) in
      if is_neg r.1
      then (record c { cipher = r.0 }, r.1)
      else (record c { cipher = r.0; secret = input }, pos 0)

  -- `crypt_session_t::swap_secret`, of a secret that is not its own
  unfoldable pub swap_secret : CryptSession C → List ℕ → CryptSession C × ℤ
  swap_secret c secret =
      let key_size = ops.get_key_bits c.cipher / 8 in
      let iv_size = ops.get_iv_size c.cipher in
      let input = if ltb (length secret) key_size then resize key_size secret else secret in
      let both = resize (iv_size + key_size) input in
      let r = ops.set_iv c.cipher (drop key_size both) in
      if ltb 0 iv_size && leb (iv_size + key_size) (length input)
      then (if is_neg r.1
          then (record c { cipher = r.0 }, r.1)
          else take_key (record c { cipher = r.0 }) both key_size)
      else take_key c (resize key_size input) key_size

  -- `decrypt_data`: the session, the result, and what `out` points to
  unfoldable pub decrypt_data :
      Bool → CryptSession C → List ℕ → CryptSession C × ℤ × Option (List ℕ)
  decrypt_data closing c input =
      let r = ops.decrypt c.cipher input in
      if closing
      then (c, ect_closing, none)
      else if not c.is_inited
      then (c, ect_crypt_not_supported, none)
      else if is_empty input
      then (c, ect_param, some input)
      else if is_empty c.type
      then (c, pos 0, some input)
      else elim r.1 [
        | none ↦ (record c { cipher = r.0 }, ect_crypt_operation, none)
        | some out ↦ (record c { cipher = r.0 }, pos 0, some out)
      ]

  -- `store[at] = c`
  abbrev pub put : Handshake C → ℕ → CryptSession C → Handshake C
  put h at c = record h { store = λ j. if j == at then c else h.store j }

  -- `close_handshake`
  unfoldable pub close_handshake : Handshake C → ℤ → Handshake C
  close_handshake h status =
      let known =
        h.switch_secret_type == sst_direct
        || (h.switch_secret_type == sst_dh || h.switch_secret_type == sst_ecdh) in
      let h1 = put h h.crypt_handshake (record (h.store h.crypt_handshake) { param = [] }) in
      if not h.has_data then record h1 { base = (handshake_done h.base status).0 } else record h1 {
        has_data = false;
        base = (handshake_done h.base (if known then status else ect_crypt_not_supported)).0;
      }

  -- The loop of `dispatch_handshake_verify_ntf` over the bytes that were decrypted and those
  -- expected: every second byte is compared, up to a byte 0.
  unfoldable pub check_text : Bool → List ℕ → List ℕ → ℤ
  check_text odd seen [] = pos 0
  check_text odd [] (p ∷ ps) = pos 0
  check_text odd (c ∷ seen) (p ∷ ps) =
      let rest = check_text (not odd) seen ps in
      if c == 0 then pos 0 else if odd && not (c == p) then ect_crypt_verify else rest

  abbrev pub out_of : Option (List ℕ) → List ℕ
  out_of none = []
  out_of (some out) = out

  -- The check of a text of `dispatch_handshake_verify_ntf`: the session, and the result
  unfoldable pub verify_text : Bool → CryptSession C → Option (List ℕ) → CryptSession C × ℤ
  verify_text closing c none = (c, pos 0)
  verify_text closing c (some t) =
      let r = decrypt_data closing c t in
      let out = out_of r.2 in
      if is_empty c.param || ltb (length t) (length c.param)
      then (c, pos 0)
      else if not (is_zero r.1)
      then (r.0, r.1)
      else if ltb (length out) (length c.param)
      then (r.0, ect_handshake)
      else (r.0, check_text false out c.param)

  -- The end of `dispatch_handshake_verify_ntf`: the object, the result, and the reason that `close` is
  -- called with as the last thing, if it is
  abbrev pub conclude : Handshake C → ℤ → Handshake C × ℤ × Option ℤ
  conclude h ret =
      if is_zero ret
      then (close_handshake h (pos 0), ret, none)
      else (close_handshake h ect_crypt_verify, ret, some (pos crt_handshake))

  -- `dispatch_handshake_verify_ntf`, for a message with this switch type and text
  unfoldable pub dispatch_handshake_verify_ntf :
      Handshake C → ℕ → Option (List ℕ) → Handshake C × ℤ × Option ℤ
  dispatch_handshake_verify_ntf h switch_type crypt_param =
      let read = if switch_type == sst_direct then some h.crypt_handshake else h.crypt_read in
      let h1 = record h { crypt_read = read } in
      elim read [
        | none ↦ (h1, ect_handshake, some ect_handshake)
        | some at ↦
            let r = verify_text h.base.closing (h.store at) crypt_param in
            if not (h.switch_secret_type == switch_type)
            then (h1, ect_handshake, some ect_handshake)
            else conclude (put h1 at r.0) r.1
      ]

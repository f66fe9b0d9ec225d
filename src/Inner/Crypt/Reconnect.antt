-- ===== src/Inner/Crypt/Reconnect.antt =====
-- Who may take over a session: `check_reconnect` and `setup_handshake`
-- (inner_v1/libatgw_proto_inner.cpp).
use atsf4g_co.Base.{
  ℕ, ℤ, pos, Bool, true, false, not, ◌&&◌, ◌||◌, Option, none, some, List, [], ◌∷◌, ltb, ◌==◌,
  if◌then◌else◌, is_neg, is_zero,
}
use atsf4g_co.Base.Lists.{length, take}
use atsf4g_co.Gateway.Codes.{ect_crypt_not_supported}
use atsf4g_co.Inner.Crypt.{
  CipherOps, CryptSession, Handshake, sst_dh, sst_ecdh, sst_direct, is_empty, setup, swap_secret,
  decrypt_data, put, out_of,
}

-- The part of `crypt_conf_t` that a handshake reads
pub record Conf : Type 0 where
  pub type : List ℕ
  pub switch_secret_type : ℕ

-- `handshake_.ext_data`, the message that asks for the session: the kind of encryption and the secret
pub record Request : Type 0 where
  pub crypt_type : List ℕ
  pub crypt_param : List ℕ

-- The other object, whose session is asked for: the encryption that it reads with, or else that of
-- its handshake, and the configuration of that
pub record Other (C : Type 0) : Type 0 where
  pub session : CryptSession C
  pub session_id : ℕ
  pub shared_conf : Option Conf

unfoldable pub same : List ℕ → List ℕ → Bool
same [] [] = true
same [] (y ∷ ys) = false
same (x ∷ xs) [] = false
same (x ∷ xs) (y ∷ ys) = x == y && same xs ys

module _ {C : Type 0} (ops : CipherOps C) where
  -- `setup_handshake`: the object, and the result
  abbrev setup_handshake : Handshake C → Option Conf → Handshake C × ℤ
  setup_handshake h none = (h, pos 0)
  setup_handshake h (some conf) =
      let known =
        conf.switch_secret_type == sst_direct
        || (conf.switch_secret_type == sst_dh || conf.switch_secret_type == sst_ecdh) in
      let h1 = record h { switch_secret_type = conf.switch_secret_type } in
      if h.has_data || is_empty conf.type
      then (h, pos 0)
      else if known
      then (record h1 { has_data = true; base = record h.base { handshake_update = true } }, pos 0)
      else (h1, ect_crypt_not_supported)

  -- The number and the configuration of the session are taken over.
  abbrev adopt : Handshake C → Other C → Handshake C
  adopt h other =
      let h1 = (setup_handshake (record h { session_id = other.session_id }) other.shared_conf).0 in
      record h1 { crypt_read = some h1.crypt_handshake; crypt_write = some h1.crypt_handshake }

  -- Does the text that was sent hold the secret?
  unfoldable pub knows_secret : Bool → CryptSession C → List ℕ → Bool
  knows_secret closing c sent =
      let r = decrypt_data ops closing c sent in
      let out = out_of ops r.2 in
      is_zero r.1
      && (not (ltb (length out) (length c.secret)) && same (take (length c.secret) out) c.secret)

  -- `check_reconnect` from the decryption of the secret on
  abbrev compare_secret : Handshake C → CryptSession C → Request → Other C → Handshake C × Bool
  compare_secret h c request other =
      let h1 =
        put ops h h.crypt_handshake (decrypt_data ops h.base.closing c request.crypt_param).0 in
      if knows_secret h.base.closing c request.crypt_param
      then (adopt h1 other, true)
      else (h1, false)

  -- `check_reconnect`
  unfoldable pub check_reconnect : Handshake C → Option Request → Other C → Handshake C × Bool
  check_reconnect h none other = (h, false)
  check_reconnect h (some request) other =
      let a = setup ops (h.store h.crypt_handshake) request.crypt_type in
      let b = swap_secret ops a.0 other.session.secret in
      if h.base.closing || not (same request.crypt_type other.session.type)
      then (h, false)
      else if is_neg a.1
      then (put ops h h.crypt_handshake a.0, false)
      else if is_empty request.crypt_type
      then (adopt (put ops h h.crypt_handshake a.0) other, true)
      else if is_neg b.1
      then (put ops h h.crypt_handshake b.0, false)
      else compare_secret h b.0 request other

-- ===== src/Inner/Crypt/Post/Delivery.antt =====
-- What is posted comes out at the other side, and what comes out was posted as a message.
use mathlib.Core.Path.{subst}
use atsf4g_co.Base.{
  ℕ, suc, ◌-◌, ◌^◌, ◌<◌, ℤ, ◌≡◌, sym, ap, ◌∙◌, ◌⊎◌, inl, inr, pos, Bool, true, false, Option, some,
  List, ◌++◌, is_some, Option-cases, arith,
}
use atsf4g_co.Base.Lists.{length, take, take-append, take-all}
use atsf4g_co.Inner.Wire.{Wire, frame}
use atsf4g_co.Inner.Sender.{SendBuffers, Env, Sender, write_msg}
use atsf4g_co.Inner.Sender.Merging.{Roomy}
use atsf4g_co.Inner.Sender.Order.{pending}
use atsf4g_co.Inner.Sender.Messages as Messages
use atsf4g_co.Inner.Crypt.{CipherOps, CryptSession, Handshake, is_empty, decrypt_data, out_of}
use atsf4g_co.Inner.Crypt.Post.{
  Body, delivered, encrypt_data, encode_post, decode_post, send_post, hand_on, dispatch_post,
}

module _ {C : Type 0} (ops : CipherOps C) where
  -- The object is not closing, and the pointer is to a session that was set up to encrypt.
  pub record IsOpen (h : Handshake C) (pointer : Option ℕ) (at : ℕ) : Type 0 where
    pub running : h.base.closing ≡ false
    pub points : pointer ≡ some at
    pub inited : (h.store at).is_inited ≡ true
    pub typed : is_empty (h.store at).type ≡ false

  encode_post-encrypts :
      (h : Handshake C) (at : ℕ) (input enc : List ℕ)
      → IsOpen h h.crypt_write at
      → is_empty input ≡ false
      → (ops.encrypt (h.store at).cipher input).1 ≡ some enc
      → ((encode_post ops h input).1 ≡ pos 0) × ((encode_post ops h input).2 ≡ some enc)
  unfolding encode_post encrypt_data
  encode_post-encrypts h at input enc o filled e =
      let a = o.running in let b = o.points in let c = o.inited in let d = o.typed in (ground arith)

  decode_post-decrypts :
      (h : Handshake C) (at : ℕ) (input out : List ℕ)
      → IsOpen h h.crypt_read at
      → is_empty input ≡ false
      → (ops.decrypt (h.store at).cipher input).1 ≡ some out
      → ((decode_post ops h input).1 ≡ pos 0) × ((decode_post ops h input).2 ≡ some out)
  unfolding decode_post decrypt_data
  decode_post-decrypts h at input out o filled e =
      let a = o.running in let b = o.points in let c = o.inited in let d = o.typed in (ground arith)

  -- What a successful decryption gives: the text itself without encryption, or the text of the cipher
  unfoldable pub Decrypted : CryptSession C → List ℕ → List ℕ → Type 0
  Decrypted c sent out =
      (c.is_inited ≡ true)
      × (is_empty sent ≡ false)
      × (((is_empty c.type ≡ true) × (out ≡ sent))
          ⊎ ((is_empty c.type ≡ false) × ((ops.decrypt c.cipher sent).1 ≡ some out)))

  decrypt_data_lem :
      (closing : Bool) (c : CryptSession C) (sent : List ℕ)
      → (decrypt_data ops closing c sent).1 ≡ pos 0
      → Decrypted c sent (out_of ops (decrypt_data ops closing c sent).2)
  unfolding decrypt_data Decrypted
  decrypt_data_lem closing c sent e = elim (Option-cases (ops.decrypt c.cipher sent).1) [
    | inl failed ↦ (ground (arith, failed))
    | inr (text, given) ↦ (ground (arith, given))
  ]

  decode_post_lem :
      (h : Handshake C) (at : ℕ) (sent : List ℕ)
      → h.crypt_read ≡ some at
      → (decode_post ops h sent).1 ≡ pos 0
      → ((decrypt_data ops h.base.closing (h.store at) sent).1 ≡ pos 0)
        × ((decode_post ops h sent).2 ≡ (decrypt_data ops h.base.closing (h.store at) sent).2)
  unfolding decode_post
  decode_post_lem h at sent read e = (ground arith)

  hand_on-delivered :
      (h : Handshake C) (has_message_fn : Bool) (original n : ℕ) (sent out : List ℕ)
      → (hand_on ops h has_message_fn original (some sent)).1 ≡ delivered n out
      → ((decode_post ops h sent).1 ≡ pos 0)
        × (n ≡ original)
        × (out_of ops (decode_post ops h sent).2 ≡ out)
  unfolding hand_on
  hand_on-delivered h has_message_fn original n sent out e = (ground arith)

  hand_on_lem :
      (h : Handshake C) (has_message_fn : Bool) (original at n : ℕ) (sent out : List ℕ)
      → h.crypt_read ≡ some at
      → (hand_on ops h has_message_fn original (some sent)).1 ≡ delivered n out
      → (n ≡ original) × Decrypted (h.store at) sent out
  hand_on_lem h has_message_fn original at n sent out read e =
      let (ok, same_length, same_text) = hand_on-delivered h has_message_fn original n sent out e in
      let (ok', text) = decode_post_lem h at sent read ok in
      (
        same_length,
        subst (λ x. Decrypted (h.store at) sent x) (ap (out_of ops) (sym text) ∙ same_text)
            (decrypt_data_lem h.base.closing (h.store at) sent ok'),
      )

  dispatch_post-tests :
      (h : Handshake C) (has_message_fn : Bool) (b : Body) (n : ℕ) (out : List ℕ)
      → (dispatch_post ops h has_message_fn (some b)).1 ≡ delivered n out
      → (h.base.closing ≡ false)
        × (h.base.handshake_done ≡ true)
        × (is_some h.crypt_read ≡ true)
        × ((hand_on ops h has_message_fn b.original b.bytes).1 ≡ delivered n out)
  unfolding dispatch_post
  dispatch_post-tests h has_message_fn b n out e = (ground arith)

  -- Data comes to the callback only after the handshake and while the object is not closing, and
  -- only what `crypt_read_` makes of the bytes of the message: they are decrypted by its cipher,
  -- or are taken as they are where it has no encryption. The length that comes with them is the one
  -- that the message states.
  pub delivered-Decrypted :
      (h : Handshake C) (has_message_fn : Bool) (b : Body) (at n : ℕ) (sent out : List ℕ)
      → h.crypt_read ≡ some at
      → b.bytes ≡ some sent
      → (dispatch_post ops h has_message_fn (some b)).1 ≡ delivered n out
      → (h.base.closing ≡ false)
        × (h.base.handshake_done ≡ true)
        × (n ≡ b.original)
        × Decrypted (h.store at) sent out
  delivered-Decrypted h has_message_fn b at n sent out read bytes e =
      let (running, over, some_read, e') = dispatch_post-tests h has_message_fn b n out e in
      let handed : (hand_on ops h has_message_fn b.original (some sent)).1 ≡ delivered n out =
        ap (λ x. (hand_on ops h has_message_fn b.original x).1) (sym bytes) ∙ e' in
      let (same_length, text) = hand_on_lem h has_message_fn b.original at n sent out read handed in
      (running, over, same_length, text)

-- The body of the message
abbrev pub posted : List ℕ → List ℕ → Body
posted input enc = record { original = length input; bytes = some enc }

module _ {C M : Type 0} (ops : CipherOps C) (w : Wire) (bm : SendBuffers M) (env : Env)
    (serialize : Body → List ℕ) (parse : List ℕ → Option Body) where
  send_post-writes :
      (fuel : ℕ) (g : Handshake C) (s : Sender M) (at : ℕ) (input enc : List ℕ)
      → IsOpen ops g g.crypt_write at
      → env.has_write_fn ≡ true
      → is_empty input ≡ false
      → (ops.encrypt (g.store at).cipher input).1 ≡ some enc
      → (send_post ops w bm env serialize fuel g s input).1
        ≡ write_msg w bm env fuel s (serialize (posted input enc))
  unfolding send_post
  send_post-writes fuel g s at input enc o has filled e =
      let (ok, out) = encode_post-encrypts ops g at input enc o filled e in
      let a = o.running in let b = o.points in simp (a, has, b, ok, out)

  -- The objects are open, with sessions that encrypt, and the reader has done its handshake. The
  -- cipher of the reader gives the data back, with padding behind it; the message is read as the
  -- body it was made of, is not empty and below 2 ^ 32 - 1 bytes; the buffers of the writer take
  -- it, and the one that blocks are merged in holds a small block. Then a post returns, with as
  -- much fuel as there are blocks and two more, its message is queued behind all that was queued
  -- before, encrypted and with the length of the data, and of this message the other side hands a
  -- pointer to the data on, with their own length, not that of the padding.
  pub post-arrives :
      (fuel : ℕ) (g h : Handshake C) (s : Sender M) (m : M) (at to : ℕ) (input enc padding : List ℕ)
      → IsOpen ops g g.crypt_write at
      → IsOpen ops h h.crypt_read to
      → h.base.handshake_done ≡ true
      → is_empty input ≡ false
      → is_empty enc ≡ false
      → (ops.encrypt (g.store at).cipher input).1 ≡ some enc
      → (ops.decrypt (h.store to).cipher enc).1 ≡ some (input ++ padding)
      → Roomy w bm env
      → Messages.IsOpen bm fuel s
      → env.has_write_fn ≡ true
      → parse (serialize (posted input enc)) ≡ some (posted input enc)
      → 0 < length (serialize (posted input enc))
      → length (serialize (posted input enc)) < 2 ^ 32 - 1
      → bm.push_back s.buffers (frame w (serialize (posted input enc))) ≡ some m
      → let bytes = serialize (posted input enc) in
        (s' : Sender M) × (r : ℤ) × ((send_post ops w bm env serialize (suc fuel) g s input).1
          ≡ some (s', r))
        × (s'.sent ++ pending bm s' ≡ (s.sent ++ pending bm s) ++ frame w bytes)
        × (s'.closing ≡ false)
        × ((dispatch_post ops h true (parse bytes)).1 ≡ delivered (length input) (input ++ padding))
        × (take (length input) (input ++ padding) ≡ input)
  unfolding dispatch_post hand_on
  post-arrives fuel g h s m at to input enc padding o p over filled sent e d roomy ready has read
        some_len small q =
      let bytes = serialize (posted input enc) in
      let (ok', out') = decode_post-decrypts ops h to enc (input ++ padding) p sent d in
      let (s', r, queued, sound, same, open_) =
        Messages.write_msg-queues w bm env fuel s bytes m roomy ready some_len small q in
      let a' = p.running in
      let b' = p.points in
      (
        s',
        r,
        send_post-writes (suc fuel) g s at input enc o has filled e ∙ queued,
        same,
        open_,
        rw read (ground arith),
        take-append (length input) input padding (omega arith)
            ∙ take-all (length input) input (omega arith),
      )

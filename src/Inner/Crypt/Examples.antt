-- ===== src/Inner/Crypt/Examples.antt =====
-- The end of a handshake and a reconnection, with a cipher that adds the first byte of its key.
use atsf4g_co.Base.{
  ℕ, ◌+◌, ◌-◌, ◌++◌, ◌≡◌, ◌≢◌, refl, ◌⊎◌, ℤ, inl, Option, pos, true, false, none, some, List, [],
  ◌∷◌, arith,
}
use atsf4g_co.Base.Lists.{length, take}
use atsf4g_co.Gateway.Codes.{ect_crypt_verify, crt_handshake}
use atsf4g_co.Gateway.Proto.{Callbacks, create, handshake_done}
use atsf4g_co.Inner.Wire.{frame}
use atsf4g_co.Inner.Sender as Sender
use atsf4g_co.Inner.Sender.{Sender}
use atsf4g_co.Inner.Sender.Order.{pending}
use atsf4g_co.Inner.Examples.Data.{wire}
use atsf4g_co.Inner.Examples.Sending.{Queue, queue, env, empty_queue, push_last}
use atsf4g_co.Inner.Crypt.{
  CipherOps, CryptSession, Handshake, decrypt_data, dispatch_handshake_verify_ntf, out_of,
}
use atsf4g_co.Inner.Crypt.Post.{Body, delivered, send_post, decode_post, hand_on, dispatch_post}
use atsf4g_co.Inner.Crypt.Post.Delivery.{posted, post-arrives, Decrypted, delivered-Decrypted}
use atsf4g_co.Inner.Crypt.Verify.{compared, IsText, verify-decides, verify-unchecked}
use atsf4g_co.Inner.Crypt.Reconnect.{Request, Other}

abbrev head : List ℕ → ℕ
head [] = 0
head (k ∷ key) = k

abbrev lower : ℕ → List ℕ → List ℕ
lower k [] = []
lower k (c ∷ t) = (c - k) ∷ lower k t

abbrev raise_by : ℕ → List ℕ → List ℕ
raise_by k [] = []
raise_by k (c ∷ t) = (c + k) ∷ raise_by k t

abbrev cipher : CipherOps (List ℕ)
cipher = record {
  init = λ c t. (c, pos 0);
  close = λ c. [];
  get_key_bits = λ c. 16;
  get_iv_size = λ c. 0;
  set_key = λ c key. (key, pos 0);
  set_iv = λ c iv. (c, pos 0);
  encrypt = λ c t. (c, some (raise_by (head c) t ++ (0 ∷ [])));
  decrypt = λ c t. (c, some (lower (head c) t));
}

abbrev callbacks : Callbacks
callbacks = record {
  has_close_fn = true;
  close_fn = λ r. pos 0;
  has_handshake_done_fn = true;
  has_handshake_update_fn = true;
}

abbrev fresh_session : CryptSession (List ℕ)
fresh_session = record { type = []; secret = []; param = []; cipher = []; is_inited = false }

-- The state of an object that was just made
abbrev fresh : Handshake (List ℕ)
fresh = record {
  store = λ at. fresh_session;
  crypt_read = none;
  crypt_write = none;
  crypt_handshake = 7;
  session_id = 0;
  switch_secret_type = 0;
  has_data = false;
  base = create true callbacks;
}

-- As the first message of a connection
verify-unchecked_example :
    ((dispatch_handshake_verify_ntf cipher fresh 0 none).1 ≡ pos 0)
    × ((dispatch_handshake_verify_ntf cipher fresh 0 none).2 ≡ none)
    × ((dispatch_handshake_verify_ntf cipher fresh 0 none).0.base
        ≡ (handshake_done fresh.base (pos 0)).0)
    × ((dispatch_handshake_verify_ntf cipher fresh 0 none).0.crypt_read ≡ some 7)
unfolding create
verify-unchecked_example = verify-unchecked cipher fresh 7 0 none refl (omega arith) refl tt

-- A handshake in which the text 5, 6, 7 is expected
abbrev expecting : Handshake (List ℕ)
expecting = record fresh {
  store = λ at. record fresh_session {
    type = 1 ∷ [];
    param = 5 ∷ (6 ∷ (7 ∷ []));
    cipher = 2 ∷ [];
    is_inited = true;
  };
  crypt_read = some 7;
  switch_secret_type = 1;
  has_data = true;
}

abbrev answer : List ℕ
answer = 3 ∷ (8 ∷ (4 ∷ []))

verify-decides_example :
    ((compared false (1 ∷ (6 ∷ (2 ∷ []))) (5 ∷ (6 ∷ (7 ∷ [])))
        ≡ compared false (5 ∷ (6 ∷ (7 ∷ []))) (5 ∷ (6 ∷ (7 ∷ []))))
      × ((dispatch_handshake_verify_ntf cipher expecting 1 (some answer)).1 ≡ pos 0)
      × ((dispatch_handshake_verify_ntf cipher expecting 1 (some answer)).2 ≡ none))
    ⊎ ((compared false (1 ∷ (6 ∷ (2 ∷ []))) (5 ∷ (6 ∷ (7 ∷ [])))
          ≢ compared false (5 ∷ (6 ∷ (7 ∷ []))) (5 ∷ (6 ∷ (7 ∷ []))))
        × ((dispatch_handshake_verify_ntf cipher expecting 1 (some answer)).1 ≡ ect_crypt_verify)
        × ((dispatch_handshake_verify_ntf cipher expecting 1 (some answer)).2
            ≡ some (pos crt_handshake)))
unfolding create IsText length
verify-decides_example =
    verify-decides cipher expecting 7 1 answer (1 ∷ (6 ∷ (2 ∷ []))) refl refl refl refl refl refl
      (omega arith) (omega arith) refl (omega arith)

-- The session that is asked for, with the secret 4, 9
abbrev other : Other (List ℕ)
other = record {
  session = record fresh_session { type = 1 ∷ []; secret = 4 ∷ (9 ∷ []); is_inited = true };
  session_id = 12;
  shared_conf = none;
}

abbrev request : Request
request = record { crypt_type = 1 ∷ []; crypt_param = 8 ∷ (13 ∷ (50 ∷ [])) }

-- Both sides, after a handshake about the key 3
abbrev keyed : CryptSession (List ℕ)
keyed = record { type = 1 ∷ []; secret = 3 ∷ []; param = []; cipher = 3 ∷ []; is_inited = true }

abbrev open_side : Handshake (List ℕ)
open_side = record fresh {
  store = λ at. keyed;
  crypt_read = some 7;
  crypt_write = some 7;
  base = record (create true callbacks) { handshake_done = true };
}

abbrev open_body : Body
open_body = record { original = 2; bytes = some (8 ∷ (9 ∷ (0 ∷ []))) }

-- The body as bytes: the length, and the data
abbrev serialize : Body → List ℕ
serialize b = b.original ∷ out_of cipher b.bytes

abbrev parse : List ℕ → Option Body
parse [] = none
parse (n ∷ bytes) = some (record { original = n; bytes = some bytes })

abbrev sender : Sender Queue
sender = Sender.create empty_queue

post-arrives_example :
    let bytes = serialize (posted (5 ∷ (6 ∷ [])) (8 ∷ (9 ∷ (0 ∷ [])))) in
    (s' : Sender Queue) × (r : ℤ) × ((send_post cipher wire queue env serialize 2 open_side sender
        (5 ∷ (6 ∷ []))).1
      ≡ some (s', r))
    × (s'.sent ++ pending queue s' ≡ (sender.sent ++ pending queue sender) ++ frame wire bytes)
    × (s'.closing ≡ false)
    × ((dispatch_post cipher open_side true (parse bytes)).1 ≡ delivered 2 (5 ∷ (6 ∷ (0 ∷ []))))
    × (take {A = ℕ} 2 (5 ∷ (6 ∷ (0 ∷ []))) ≡ 5 ∷ (6 ∷ []))
unfolding create length Sender.create
post-arrives_example =
    post-arrives cipher wire queue env serialize parse 1 open_side open_side sender
      (push_last empty_queue (frame wire (serialize (posted (5 ∷ (6 ∷ [])) (8 ∷ (9 ∷ (0 ∷ [])))))))
      7 7 (5 ∷ (6 ∷ [])) (8 ∷ (9 ∷ (0 ∷ []))) (0 ∷ [])
      (record { running = refl; points = refl; inited = refl; typed = refl })
      (record { running = refl; points = refl; inited = refl; typed = refl }) refl refl refl refl
      refl (omega arith) (inl refl, refl, omega arith) refl refl (omega arith) (omega arith) refl

delivered-Decrypted_example :
    (open_side.base.closing ≡ false)
    × (open_side.base.handshake_done ≡ true)
    × (2 ≡ open_body.original)
    × Decrypted cipher keyed (8 ∷ (9 ∷ (0 ∷ []))) (5 ∷ (6 ∷ (0 ∷ [])))
unfolding create dispatch_post hand_on decode_post decrypt_data
delivered-Decrypted_example =
    delivered-Decrypted cipher open_side true open_body 7 2 (8 ∷ (9 ∷ (0 ∷ [])))
      (5 ∷ (6 ∷ (0 ∷ []))) refl refl refl

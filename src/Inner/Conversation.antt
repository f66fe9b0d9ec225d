-- ===== src/Inner/Conversation.antt =====
-- One side writes messages, the other reads the bytes: both ends of a connection together.
use mathlib.Core.Path.{subst}
use atsf4g_co.Base.{
  ℕ, suc, ◌-◌, ◌^◌, ◌<◌, ◌≡◌, refl, sym, ap, ◌∙◌, inl, ℤ, Bool, false, Option, some, List, [], ◌∷◌,
  ◌++◌,
}
use atsf4g_co.Base.Lists.{length, append_assoc, append_nil}
use atsf4g_co.Inner.Wire.{Wire, frame, BufferManager}
use atsf4g_co.Inner.Frames.{IsSendable, IsWithin, frames}
use atsf4g_co.Inner.Reader.{Reader}
use atsf4g_co.Inner.Stream.{Holds, deliver}
use atsf4g_co.Inner.Stream.Success.{Accepts}
use atsf4g_co.Inner.Stream.Runs.{Run, frames-delivered}
use atsf4g_co.Inner.Sender.{SendBuffers, Env, Sender, create, write_done, write_msg}
use atsf4g_co.Inner.Sender.Merging.{data_of, Roomy}
use atsf4g_co.Inner.Sender.Order.{pending, IsSound, pending-idle}
use atsf4g_co.Inner.Sender.Messages.{write_done-Keeps, write_msg-queues}

-- `Sends … start s bodies`: from `start` the messages `bodies` were written, and some writes
-- completed.
pub data Sends {M : Type 0} (w : Wire) (bm : SendBuffers M) (env : Env) (start : Sender M)
    : Sender M → List (List ℕ) → Type 0 where
  begun :
      {s : Sender M} {bodies : List (List ℕ)}
      → s ≡ start
      → bodies ≡ []
      → Sends w bm env start s bodies
  wrote :
      {s s' : Sender M} {bodies all : List (List ℕ)} (fuel : ℕ) (body : List ℕ) (m : M) (r : ℤ)
      → Sends w bm env start s bodies
      → bm.push_back s.buffers (frame w body) ≡ some m
      → 0 < length body
      → length body < 2 ^ 32 - 1
      → length (bm.blocks s.buffers) < fuel
      → write_msg w bm env (suc fuel) s body ≡ some (s', r)
      → all ≡ bodies ++ (body ∷ [])
      → Sends w bm env start s' all
  completed :
      {s s' : Sender M} {bodies : List (List ℕ)} (fuel : ℕ) (status r : ℤ)
      → Sends w bm env start s bodies
      → length (bm.blocks s.buffers) < fuel
      → write_done w bm env fuel s status ≡ some (s', r)
      → Sends w bm env start s' bodies

frames-snoc :
    (w : Wire) (bodies : List (List ℕ)) (body : List ℕ)
    → frames w (bodies ++ (body ∷ [])) ≡ frames w bodies ++ frame w body
unfolding frames
frames-snoc w [] body = append_nil (frame w body)
frames-snoc w (b ∷ bodies) body =
    ap (λ x. frame w b ++ x) (frames-snoc w bodies body)
    ∙ sym (append_assoc (frame w b) (frames w bodies) (frame w body))

IsSendable-snoc :
    (bodies : List (List ℕ)) (body : List ℕ)
    → IsSendable bodies
    → 0 < length body
    → length body < 2 ^ 32 - 1
    → IsSendable (bodies ++ (body ∷ []))
unfolding IsSendable
IsSendable-snoc [] body h some_len small = (some_len, small, tt)
IsSendable-snoc (b ∷ bodies) body (x, y, h) some_len small =
    (x, y, IsSendable-snoc bodies body h some_len small)

module _ {M : Type 0} (w : Wire) (bm : SendBuffers M) (env : Env) where
  -- What holds after messages were written: nothing is lost on the way out.
  abbrev pub Queued : Sender M → List (List ℕ) → Type 0
  Queued s bodies =
      IsSound bm s
      × (s.closing ≡ false)
      × (s.sent ++ pending bm s ≡ frames w bodies)
      × IsSendable bodies

  create-Queued : (m : M) → bm.blocks m ≡ [] → Queued (create m) []
  unfolding frames create IsSendable data_of
  create-Queued m e = (inl refl, refl, pending-idle w bm env (create m) refl ∙ ap data_of e, tt)

  same_result :
      (s t : Sender M) (r r' : ℤ) (o : Option (Sender M × ℤ))
      → o ≡ some (s, r)
      → o ≡ some (t, r')
      → s ≡ t
  same_result s t r r' o e f = cc

  -- The bytes given to `write_fn` so far, and then those that are queued, are the frames of the
  -- messages in the order in which they were written, whether writes complete at once or later, and
  -- however the small blocks are merged.
  pub sent-in_order :
      (m : M) (s : Sender M) (bodies : List (List ℕ))
      → Roomy w bm env
      → bm.blocks m ≡ []
      → Sends w bm env (create m) s bodies
      → Queued s bodies
  sent-in_order m s bodies roomy empty (begun e f) = rw (e, f) (create-Queued m empty)
  sent-in_order m s bodies roomy empty
        (wrote {s = t} {bodies = old} fuel body m' r before q some_len small less e all) =
      let (sound, running, bytes, sendable) = sent-in_order m t old roomy empty before in
      let (s', r', e', sound', same, running') =
        write_msg-queues w bm env fuel t body m' roomy (sound, running, less) some_len small q in
      subst (λ x. Queued x bodies)
        (same_result s' s r' r (write_msg w bm env (suc fuel) t body) e' e)
        (rw all (
          sound',
          running',
          same ∙ (ap (λ x. x ++ frame w body) bytes ∙ sym (frames-snoc w old body)),
          IsSendable-snoc old body sendable some_len small,
        ))
  sent-in_order m s bodies roomy empty (completed {s = t} fuel status r before less e) =
      let (sound, running, bytes, sendable) = sent-in_order m t bodies roomy empty before in
      let (s', r', e', (sound', same, running')) =
        write_done-Keeps w bm env fuel t status roomy (sound, running, less) in
      subst (λ x. Queued x bodies) (same_result s' s r' r (write_done w bm env fuel t status) e' e)
        (sound', running', same ∙ bytes, sendable)

  -- The buffers of the reader, while they are empty, give a block of at most `limit` bytes, each
  -- message with its head of 8 bytes is within this limit, no object is closed in between, and the
  -- buffer that the writer merges blocks in holds a small block. Then what one side writes is what
  -- the other side is handed: once all that was queued has gone out, the messages arrive whole, in
  -- their order, each once and without an error, however the writes are merged and the bytes are
  -- cut into reads on the other side.
  pub messages_arrive :
      {R P : Type 0} (rb : BufferManager R) (dispatch : P → List ℕ → ℤ → P) (closing : P → Bool)
      (limit : ℕ) (m : M) (s : Sender M) (bodies : List (List ℕ)) (r r' : Reader R P)
      → Roomy w bm env
      → bm.blocks m ≡ []
      → Sends w bm env (create m) s bodies
      → pending bm s ≡ []
      → Accepts rb limit
      → IsWithin w limit bodies []
      → Holds w rb r.head r.buffers []
      → Run w rb dispatch closing r s.sent r'
      → r'.proto ≡ deliver w rb dispatch closing r.proto bodies
  messages_arrive rb dispatch closing limit m s bodies r r' roomy empty sends nothing_left accepts
        within fresh run =
      let (sound, running, bytes, sendable) = sent-in_order m s bodies roomy empty sends in
      let all : s.sent ≡ frames w bodies =
        sym (append_nil s.sent) ∙ (ap (λ x. s.sent ++ x) (sym nothing_left) ∙ bytes) in
      (frames-delivered w rb dispatch closing limit r r' bodies accepts within fresh sendable
        (subst (λ x. Run w rb dispatch closing r x r') all run)).0

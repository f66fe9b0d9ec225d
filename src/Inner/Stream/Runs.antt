-- ===== src/Inner/Stream/Runs.antt =====
-- A connection's bytes read in any number of calls: each takes at most what `alloc_recv_buffer` gave.
use mathlib.Core.Path.{subst}
use atsf4g_co.Base.{
  ℕ, ◌≤◌, ℤ, Bool, false, ◌≡◌, refl, sym, ap, ◌∙◌, inl, inr, List, [], ◌∷◌, ◌++◌, arith,
}
use atsf4g_co.Base.Lists.{length, append_assoc, append_nil}
use atsf4g_co.Gateway.Codes.{ect_success}
use atsf4g_co.Inner.Wire.{Wire, BufferManager}
use atsf4g_co.Inner.Frames.{
  Waiting, Frames, waits, IsWithin, IsWithin-append, IsSendable, frames, frames-Frames,
  Frames-split, Frames-unique,
}
use atsf4g_co.Inner.Reader.{Reader, alloc_recv_buffer, read}
use atsf4g_co.Inner.Stream.{Holds, in_head, in_block, deliver}
use atsf4g_co.Inner.Stream.Calls.{read-Handles}
use atsf4g_co.Inner.Stream.Success.{Accepts, read-good}

-- `Run … r s r'`: calls of `read` for the bytes `s`, none of them while the object is closing.
pub data Run {M P : Type 0} (w : Wire) (bm : BufferManager M) (dispatch : P → List ℕ → ℤ → P)
    (closing : P → Bool) : Reader M P → List ℕ → Reader M P → Type 0 where
  stop : {r r' : Reader M P} {s : List ℕ} → s ≡ [] → r' ≡ r → Run w bm dispatch closing r s r'
  call :
      {r r' : Reader M P} {s : List ℕ} (bytes rest : List ℕ)
      → s ≡ bytes ++ rest
      → length bytes ≤ alloc_recv_buffer w bm dispatch closing r
      → closing r.proto ≡ false
      → Run w bm dispatch closing (read w bm dispatch closing r bytes).0 rest r'
      → Run w bm dispatch closing r s r'

module _ {M P : Type 0} (w : Wire) (bm : BufferManager M) (dispatch : P → List ℕ → ℤ → P)
    (closing : P → Bool) where
  deliver-none : (p : P) → deliver w bm dispatch closing p [] ≡ p
  unfolding deliver
  deliver-none p = refl

  deliver-append :
      (p : P) (xs ys : List (List ℕ))
      → deliver w bm dispatch closing p (xs ++ ys)
        ≡ deliver w bm dispatch closing (deliver w bm dispatch closing p xs) ys
  unfolding deliver
  deliver-append p [] ys = refl
  deliver-append p (x ∷ xs) ys = deliver-append (dispatch p x ect_success) xs ys

  Holds-Waiting :
      {head : List ℕ} {buffers : M} {s : List ℕ} → Holds w bm head buffers s → Waiting w s
  Holds-Waiting (in_head e f short) = inl short
  Holds-Waiting (in_block b e f g room long total) = subst (Waiting w) f (inr (omega arith))

  -- The buffers of the reader, while they are empty, give a block of at most `limit` bytes; each
  -- message of a stream, with its head of 8 bytes, is within this limit, also the one that is not
  -- complete at the end, and has the right hash; and the reader is not closing. Then, whatever the
  -- sizes of the calls are, the messages are handed on in their order, each once and without an
  -- error, and the bytes after the last of them are held.
  pub stream_delivered :
      (limit : ℕ) (r r' : Reader M P) (s t rest : List ℕ) (bodies : List (List ℕ))
      → Accepts bm limit
      → IsWithin w limit bodies rest
      → Holds w bm r.head r.buffers s
      → Frames w (s ++ t) bodies rest
      → Run w bm dispatch closing r t r'
      → (r'.proto ≡ deliver w bm dispatch closing r.proto bodies)
        × Holds w bm r'.head r'.buffers rest
  stream_delivered limit r r' s t rest bodies accepts within holds frames (stop e f) =
      let whole : Frames w s bodies rest =
        subst (λ l. Frames w l bodies rest) (ap (λ l. s ++ l) e ∙ append_nil s) frames in
      let (none_left, same) = Frames-unique w (waits (Holds-Waiting holds) refl) whole in
      (
        ap (λ (x : Reader M P). x.proto) f
            ∙ (sym (deliver-none r.proto) ∙ ap (deliver w bm dispatch closing r.proto) none_left),
        subst (Holds w bm r'.head r'.buffers) same
            (subst (λ (x : Reader M P). Holds w bm x.head x.buffers s) (sym f) holds),
      )
  stream_delivered limit r r' s t rest bodies accepts within holds frames
        (call bytes more e fits running run) =
      let cut : s ++ t ≡ (s ++ bytes) ++ more =
        ap (λ l. s ++ l) e ∙ sym (append_assoc s bytes more) in
      let frames' : Frames w ((s ++ bytes) ++ more) bodies rest =
        subst (λ l. Frames w l bodies rest) cut frames in
      let good =
        read-good w bm dispatch closing limit r bytes more accepts holds fits running frames'
          within in
      let (now, s', begin, holds', same) =
        read-Handles w bm dispatch closing r bytes holds fits good in
      let (others, all, later) = Frames-split w more begin frames' in
      let (done, held) =
        stream_delivered limit (read w bm dispatch closing r bytes).0 r' s' more rest others accepts
          (IsWithin-append w limit now others rest
            (subst (λ l. IsWithin w limit l rest) all within))
          holds' later run in
      (
        done
            ∙ (ap (λ p. deliver w bm dispatch closing p others) same
                ∙ (sym (deliver-append r.proto now others)
                    ∙ ap (deliver w bm dispatch closing r.proto) (sym all))),
        held,
      )

  -- The frames that `write_msg` makes of some bodies are read back as these bodies, whatever the
  -- sizes of the calls are, and no byte is left over.
  pub frames-delivered :
      (limit : ℕ) (r r' : Reader M P) (bodies : List (List ℕ))
      → Accepts bm limit
      → IsWithin w limit bodies []
      → Holds w bm r.head r.buffers []
      → IsSendable bodies
      → Run w bm dispatch closing r (frames w bodies) r'
      → (r'.proto ≡ deliver w bm dispatch closing r.proto bodies) × Holds w bm r'.head r'.buffers []
  frames-delivered limit r r' bodies accepts within empty sendable run =
      stream_delivered limit r r' [] (frames w bodies) [] bodies accepts within empty
        (frames-Frames w bodies sendable) run

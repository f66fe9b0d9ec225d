-- ===== src/Inner/Frames.antt =====
-- A stream of bytes as the messages that it holds, apart from any buffer.
use atsf4g_co.Base.{
  ℕ, ◌+◌, ◌-◌, ◌≤◌, ◌<◌, ◌^◌, ◌≡◌, refl, sym, ap, ◌∙◌, ◌⊎◌, inl, inr, List, [], ◌∷◌, ◌++◌, arith,
}
use mathlib.Core.Path.{subst}
use atsf4g_co.Base.Lists.{
  length, take, drop, length-drop, length-append, drop-append, take-append, take-all, length-take,
  drop-all,
}
use atsf4g_co.Inner.Wire.{
  Wire, msg_len, expect_hash, frame, msg_len-append, msg_len-frame, expect_hash-frame, body-frame,
  length-frame,
}

module _ (w : Wire) where
  -- No message is complete yet. A header is read once a ninth byte is there.
  abbrev pub Waiting : List ℕ → Type 0
  Waiting s = (length s ≤ 8) ⊎ (length s < 8 + msg_len w s)

module _ (w : Wire) (s t : List ℕ) (long : 8 < length s)
    (complete : 8 + msg_len w s ≤ length s) where
  body-append : take (msg_len w (s ++ t)) (drop 8 (s ++ t)) ≡ take (msg_len w s) (drop 8 s)
  body-append =
      ap (λ n. take n (drop 8 (s ++ t))) (msg_len-append w s t (omega arith))
      ∙ (ap (take (msg_len w s)) (drop-append 8 s t (omega arith))
          ∙ take-append (msg_len w s) (drop 8 s) t (omega (arith, length-drop 8 s)))

  rest-append : drop (8 + msg_len w (s ++ t)) (s ++ t) ≡ drop (8 + msg_len w s) s ++ t
  rest-append =
      ap (λ n. drop (8 + n) (s ++ t)) (msg_len-append w s t (omega arith))
      ∙ drop-append (8 + msg_len w s) s t complete

-- Bodies that `write_msg` takes: not empty, and shorter than the largest `uint32_t`.
unfoldable pub IsSendable : List (List ℕ) → Type 0
IsSendable [] = Unit
IsSendable (body ∷ bodies) = (0 < length body) × (length body < 2 ^ 32 - 1) × IsSendable bodies

-- `Frames w s bodies r`: the stream `s` is the messages `bodies`, with the hashes that they announce,
-- and then `r`.
pub data Frames (w : Wire) : List ℕ → List (List ℕ) → List ℕ → Type 0 where
  waits : {s r : List ℕ} → Waiting w s → r ≡ s → Frames w s [] r
  message :
      {s body r : List ℕ} {bodies : List (List ℕ)}
      → 8 < length s
      → 8 + msg_len w s ≤ length s
      → body ≡ take (msg_len w s) (drop 8 s)
      → w.hash body ≡ expect_hash w s
      → Frames w (drop (8 + msg_len w s) s) bodies r
      → Frames w s (body ∷ bodies) r

-- Each message with its head takes at most so many bytes, also the one that the rest begins.
unfoldable pub IsWithin : Wire → ℕ → List (List ℕ) → List ℕ → Type 0
IsWithin w limit [] r = (length r ≤ 8) ⊎ (8 + msg_len w r ≤ limit)
IsWithin w limit (body ∷ bodies) r = (8 + length body ≤ limit) × IsWithin w limit bodies r

pub IsWithin-append :
    (w : Wire) (limit : ℕ) (now later : List (List ℕ)) (r : List ℕ)
    → IsWithin w limit (now ++ later) r
    → IsWithin w limit later r
unfolding IsWithin
IsWithin-append w limit [] later r h = h
IsWithin-append w limit (body ∷ now) later r (_, h) = IsWithin-append w limit now later r h

module _ (w : Wire) where
  pub Frames-same :
      {s t r : List ℕ} {bodies : List (List ℕ)} → s ≡ t → Frames w t bodies r → Frames w s bodies r
  Frames-same {r} {bodies} e next = subst (λ x. Frames w x bodies r) (sym e) next

  -- What comes later only adds messages.
  pub Frames-append :
      (t : List ℕ) {s r r' : List ℕ} {bodies more : List (List ℕ)}
      → Frames w s bodies r
      → Frames w (r ++ t) more r'
      → Frames w (s ++ t) (bodies ++ more) r'
  Frames-append t {r'} {more} (waits h e) next = subst (λ x. Frames w (x ++ t) more r') e next
  Frames-append t {s} {r'} {more} (message long complete is_body hash_fits rest) next =
      message (omega (arith, length-append s t))
        (omega (arith, length-append s t, msg_len-append w s t (omega arith)))
        (is_body ∙ sym (body-append w s t long complete))
        (hash_fits ∙ sym (w.native.read-append s t (omega arith)))
        (Frames-same (rest-append w s t long complete) (Frames-append t rest next))

  -- The messages of a stream begin with those of its begin.
  pub Frames-split :
      (t : List ℕ) {s r r' : List ℕ} {bodies all : List (List ℕ)}
      → Frames w s bodies r
      → Frames w (s ++ t) all r'
      → (more : List (List ℕ)) × (all ≡ bodies ++ more) × Frames w (r ++ t) more r'
  Frames-split t {r'} {all} (waits h e) next =
      (all, refl, subst (λ x. Frames w (x ++ t) all r') (sym e) next)
  Frames-split t {s} (message long complete b f rest) (waits (inl h) e) =
      absurd (omega (arith, length-append s t))
  Frames-split t {s} (message long complete b f rest) (waits (inr h) e) =
      absurd (omega (arith, length-append s t, msg_len-append w s t (omega arith)))
  Frames-split t {s} (message long complete b f rest) (message l c b' f' next) =
      let (more, same, left) =
        Frames-split t rest (Frames-same (sym (rest-append w s t long complete)) next) in
      (more, (λ i. (b' ∙ (body-append w s t long complete ∙ sym b)) i ∷ same i), left)

  -- A message that is there has the hash that it announces, whatever follows.
  pub Frames-hash :
      (s t : List ℕ) {r : List ℕ} {bodies : List (List ℕ)}
      → 8 < length s
      → 8 + msg_len w s ≤ length s
      → Frames w (s ++ t) bodies r
      → (w.hash (take (msg_len w s) (drop 8 s)) ≡ expect_hash w s)
        × (body : List ℕ) × (more : List (List ℕ)) × (bodies ≡ body ∷ more)
        × Frames w (drop (8 + msg_len w s) s ++ t) more r
  Frames-hash s t long complete (waits (inl h) e) = absurd (omega (arith, length-append s t))
  Frames-hash s t long complete (waits (inr h) e) =
      absurd (omega (arith, length-append s t, msg_len-append w s t (omega arith)))
  Frames-hash s t long complete (message {body} {bodies} l c b f next) = (
    ap w.hash (sym (b ∙ body-append w s t long complete))
        ∙ (f ∙ w.native.read-append s t (omega arith)),
    body,
    bodies,
    refl,
    Frames-same (sym (rest-append w s t long complete)) next,
  )

  -- A message that has begun is not above a limit that the messages and the rest keep to.
  pub Frames-within :
      (limit : ℕ) (s t : List ℕ) {r : List ℕ} {bodies : List (List ℕ)}
      → 8 < length s
      → Frames w (s ++ t) bodies r
      → IsWithin w limit bodies r
      → 8 + msg_len w s ≤ limit
  unfolding IsWithin
  Frames-within limit s t long (waits h e) (inl small) =
      absurd (omega (arith, ap length e, length-append s t))
  Frames-within limit s t long (waits h e) (inr small) =
      omega (arith, ap (msg_len w) e, msg_len-append w s t (omega arith))
  Frames-within limit s t long (message l c b f next) (first, others) = omega (
    arith,
    ap length b,
    length-take (msg_len w (s ++ t)) (drop 8 (s ++ t)),
    length-drop 8 (s ++ t),
    msg_len-append w s t (omega arith),
  )

  -- The messages and the rest of a stream are determined by it.
  pub Frames-unique :
      {s r r' : List ℕ} {bodies others : List (List ℕ)}
      → Frames w s bodies r
      → Frames w s others r'
      → (bodies ≡ others) × (r ≡ r')
  Frames-unique (waits h e) (waits k f) = (refl, e ∙ sym f)
  Frames-unique (waits (inl h) e) (message long complete b f next) = absurd (omega arith)
  Frames-unique (waits (inr h) e) (message long complete b f next) = absurd (omega arith)
  Frames-unique (message long complete b f next) (waits (inl h) e) = absurd (omega arith)
  Frames-unique (message long complete b f next) (waits (inr h) e) = absurd (omega arith)
  Frames-unique (message l1 c1 b1 f1 next) (message l2 c2 b2 f2 next') =
      let (same, rest) = Frames-unique next next' in ((λ i. (b1 ∙ sym b2) i ∷ same i), rest)

  -- The frames of some bodies, one after the other
  unfoldable pub frames : List (List ℕ) → List ℕ
  frames [] = []
  frames (body ∷ bodies) = frame w body ++ frames bodies

  -- They are read back as those bodies, with nothing left over.
  pub frames-Frames :
      (bodies : List (List ℕ)) → IsSendable bodies → Frames w (frames bodies) bodies []
  unfolding frames IsSendable length
  frames-Frames [] h = waits (inl (omega arith)) refl
  frames-Frames (body ∷ bodies) (some_len, small, others) =
      let rest = frames bodies in
      let len = msg_len-frame w body rest (omega arith) in
      let total = length-append (frame w body) rest in
      let own = length-frame w body in
      message (omega (arith, total, own)) (omega (arith, total, own, len))
        (sym (
          ap (λ n. take n (drop 8 (frame w body ++ rest))) len
          ∙ (ap (take (length body)) (body-frame w body rest)
              ∙ (take-append (length body) body rest (omega arith)
                  ∙ take-all (length body) body (omega arith)))))
        (sym (expect_hash-frame w body rest))
        (Frames-same
          (ap (λ n. drop (8 + n) (frame w body ++ rest)) len
            ∙ (drop-append (8 + length body) (frame w body) rest (omega (arith, own))
                ∙ ap (λ x. x ++ rest)
                    (drop-all (8 + length body) (frame w body) (omega (arith, own)))))
          (frames-Frames bodies others))

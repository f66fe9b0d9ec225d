-- ===== src/Etcd/Watcher/Stream.antt =====
-- The messages of a watch do not depend on how the bytes arrive (component/etcdcli/etcd_watcher.cpp).
use atsf4g_co.Base.Lists.{length, append_assoc, append_nil}
use atsf4g_co.Base.{
  ℕ, zero, suc, ◌≡◌, ◌<◌, ◌∙◌, refl, sym, ap, Bool, true, false, not, ◌||◌, Option, some, [], ◌∷◌,
  ◌++◌, ◌==◌, arith, if◌then◌else◌, Bool-cases, ◌⊎◌, inl, inr, if-split,
}
use mathlib.Core.Path.{subst}
use atsf4g_co.Etcd.Keepalive.{Text}
use atsf4g_co.Etcd.Watcher.{
  Watcher, Trunk, opens, bracket, skip, Cut, message, open_at_end, longer, scan, on_message, finish,
  leftover, on_watch_write,
}

-- Does a buffer begin inside a message, or with one?
abbrev started : ℕ → Text → Bool
started b [] = true
started b (c ∷ cs) = not (b == 0) || (opens c || c == 0)

skip-started : (cs : Text) → started 0 (skip cs) ≡ true
unfolding skip
skip-started [] = refl
skip-started (c ∷ cs) =
    if-split (λ l. started 0 l ≡ true) (opens c || c == 0) (λ h. ground (arith, h))
      (λ h. skip-started cs)

skip-le : (cs : Text) → length (skip cs) < suc (length cs)
unfolding skip length
skip-le [] = omega arith
skip-le (c ∷ cs) =
    if-split (λ l. length l < suc (suc (length cs))) (opens c || c == 0) {x = c ∷ cs} {y = skip cs}
      (λ h. omega arith) (λ h. omega (arith, skip-le cs))

cases : (o : Cut) → ((b : ℕ) × (o ≡ open_at_end b)) ⊎ ((p : Text) × (r : Text) × (o ≡ message p r))
cases (open_at_end b) = inl (b, refl)
cases (message p r) = inr (p, r, refl)

if_true : {A : Type 0} (b : Bool) (x y : A) → b ≡ true → (if b then x else y) ≡ x
if_true true x y h = refl
if_true false x y h = absurd (ground (arith, h))

if_false : {A : Type 0} (b : Bool) (x y : A) → b ≡ false → (if b then x else y) ≡ y
if_false true x y h = absurd (ground (arith, h))
if_false false x y h = refl

open-started : (b : ℕ) (cs : Text) → (b == 0) ≡ false → started b cs ≡ true
open-started b [] h = refl
open-started b (c ∷ cs) h = ground (arith, h)

scan-lt : (b : ℕ) (cs p r : Text) → scan b cs ≡ message p r → length r < length cs
unfolding scan length
scan-lt b [] p r e = ground (arith, e)
scan-lt b (c ∷ cs) p r e = elim (cases (scan (bracket b c) cs)) [
  | inl (k, q) ↦ ground (arith, e, q)
  | inr (p', r', q) ↦ ground (arith, e, q, scan-lt (bracket b c) cs p' r')
]

module _ {E : Type 0} (parse : Text → Option (Trunk E)) where
  -- One character of a message.
  take_char : Watcher E → ℕ → Watcher E
  take_char w c =
      let b = bracket w.brackets c in
      if b == 0 then finish parse w (c ∷ []) else leftover parse w (c ∷ []) b

  -- The automaton that reads one character at a time.
  read_char : Watcher E → ℕ → Watcher E
  unfolding take_char
  read_char w c = if started w.brackets (c ∷ []) then take_char w c else w

  feed : Watcher E → Text → Watcher E
  unfolding read_char
  feed w [] = w
  feed w (c ∷ cs) = feed (read_char w c) cs

  resolve : Watcher E → Text → Cut → Watcher E
  unfolding feed
  resolve w cs (open_at_end b) = leftover parse w cs b
  resolve w cs (message piece rest) = feed (finish parse w piece) rest

  resolve-longer :
      (w : Watcher E) (c b : ℕ) (cs : Text) (cut : Cut)
      → resolve (leftover parse w (c ∷ []) b) cs cut ≡ resolve w (c ∷ cs) (longer c cut)
  unfolding resolve
  resolve-longer w c b cs (open_at_end k) =
      ap (λ s. record w { stream = s; brackets = k }) (append_assoc w.stream (c ∷ []) cs)
  resolve-longer w c b cs (message piece rest) =
      ap (λ s. feed (on_message parse (record w { stream = []; brackets = 0 }) (parse s)) rest)
        (append_assoc w.stream (c ∷ []) piece)

  feed-scan :
      (cs : Text) (w : Watcher E)
      → started w.brackets cs ≡ true
      → feed w cs ≡ resolve w cs (scan w.brackets cs)
  unfolding feed read_char take_char resolve scan
  feed-scan [] w h = ap (λ s. record w { stream = s }) (sym (append_nil w.stream))
  feed-scan (c ∷ cs) w h =
      let b = bracket w.brackets c in
      let ended = finish parse w (c ∷ []) in
      let going = leftover parse w (c ∷ []) b in
      let first : read_char w c ≡ take_char w c =
        if_true (started w.brackets (c ∷ [])) (take_char w c) w h in
      let cut = message (c ∷ []) cs in
      let cut' = longer c (scan b cs) in
      elim (Bool-cases (b == 0)) [
        | inl e ↦
            ap (λ v. feed v cs) (first ∙ if_true (b == 0) ended going e)
            ∙ sym (ap (resolve w (c ∷ cs)) (if_true (b == 0) cut cut' e))
        | inr e ↦
            ap (λ v. feed v cs) (first ∙ if_false (b == 0) ended going e)
            ∙ feed-scan cs going (open-started b cs e)
            ∙ resolve-longer w c b cs (scan b cs)
            ∙ sym (ap (resolve w (c ∷ cs)) (if_false (b == 0) cut cut' e))
      ]

  feed-skip : (cs : Text) (w : Watcher E) → (w.brackets == 0) ≡ true → feed w cs ≡ feed w (skip cs)
  unfolding feed read_char skip
  feed-skip [] w z = refl
  feed-skip (c ∷ cs) w z =
      if-split (λ l. feed w (c ∷ cs) ≡ feed w l) (opens c || c == 0) (λ h. refl)
        (λ h.
          ap (λ v. feed v cs)
            (if_false (started w.brackets (c ∷ [])) (take_char w c) w (ground (arith, z, h)))
          ∙ feed-skip cs w z)

  feed-buffer :
      (cs : Text) (w : Watcher E)
      → let buf = if w.brackets == 0 then skip cs else cs in
        (feed w cs ≡ resolve w buf (scan w.brackets buf)) × (length buf < suc (length cs))
  feed-buffer cs w =
      if-split (λ l. (feed w cs ≡ resolve w l (scan w.brackets l)) × (length l < suc (length cs)))
        (w.brackets == 0)
        (λ e.
          let z : 0 ≡ w.brackets = ground (arith, e) in
          (
            feed-skip cs w e
                ∙ feed-scan (skip cs) w
                    (subst (λ b. started b (skip cs) ≡ true) z (skip-started cs)),
            skip-le cs,
          ))
        (λ e. (feed-scan cs w (open-started w.brackets cs e), omega arith))

  feed-nil : (w : Watcher E) → w ≡ feed w []
  unfolding feed
  feed-nil w = refl

  -- The loop over a buffer, with more fuel than there are bytes, returns, and does to the watcher what
  -- the automaton does that reads the buffer one character at a time.
  write-feed :
      (fuel : ℕ) (w : Watcher E) (cs : Text)
      → length cs < fuel
      → on_watch_write parse fuel w cs ≡ some (feed w cs)
  unfolding on_watch_write length resolve
  write-feed zero w cs lt = absurd (omega arith)
  write-feed (suc fuel) w [] lt = ap (λ v. some v) (feed-nil w)
  write-feed (suc fuel) w (c ∷ cs) lt =
      let buf = if w.brackets == 0 then skip (c ∷ cs) else c ∷ cs in
      let (f, l) = feed-buffer (c ∷ cs) w in
      elim (cases (scan w.brackets buf)) [
        | inl (b, q) ↦
            let g : feed w (c ∷ cs) ≡ leftover parse w buf b = f ∙ ap (resolve w buf) q in
            rw (on_watch_write, q, g) refl
        | inr (p, r, q) ↦
            let g : feed w (c ∷ cs) ≡ feed (finish parse w p) r = f ∙ ap (resolve w buf) q in
            rw (on_watch_write, q, g)
              (write-feed fuel (finish parse w p) r
                (omega (arith, scan-lt w.brackets buf p r q, l)))
      ]

  feed-append : (xs ys : Text) (w : Watcher E) → feed w (xs ++ ys) ≡ feed (feed w xs) ys
  unfolding feed
  feed-append [] ys w = refl
  feed-append (x ∷ xs) ys w = feed-append xs ys (read_char w x)

  -- However the bytes of a watch are cut into buffers, `libcurl_callback_on_watch_write` returns for
  -- each of them, and two buffers one after the other leave the watcher as one buffer of all the bytes
  -- does: the same messages are cut out and delivered in the same order, and the same number of
  -- brackets and the same text are left open.
  pub watch_write-append :
      (w : Watcher E) (xs ys : Text)
      → (w1 : Watcher E) × (w2 : Watcher E) × (on_watch_write parse (suc (length xs)) w xs
          ≡ some w1)
        × (on_watch_write parse (suc (length ys)) w1 ys ≡ some w2)
        × (on_watch_write parse (suc (length (xs ++ ys))) w (xs ++ ys) ≡ some w2)
  watch_write-append w xs ys = (
    feed w xs,
    feed (feed w xs) ys,
    write-feed (suc (length xs)) w xs (omega arith),
    write-feed (suc (length ys)) (feed w xs) ys (omega arith),
    write-feed (suc (length (xs ++ ys))) w (xs ++ ys) (omega arith)
        ∙ ap (λ v. some v) (feed-append xs ys w),
  )

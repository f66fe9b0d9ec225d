-- ===== src/Inner/Stream.antt =====
-- What the calls of `read` hand on, for `Inner.Reader`: the messages of the stream of bytes,
-- however the bytes are cut into calls.
pub mod Steps
pub mod Calls
pub mod Success
pub mod Runs
pub mod Room
use mathlib.Core.Path.{subst}
use atsf4g_co.Base.{
  ℕ, zero, suc, ◌+◌, ◌-◌, ◌≤◌, ◌<◌, ℤ, pos, negsuc, Bool, true, false, ◌≡◌, refl, sym, ap, ◌∙◌, ◌⊎◌,
  inl, inr, Option, none, some, List, [], ◌∷◌, ◌++◌, ltb, leb, ◌==◌, if◌then◌else◌, Bool-cases,
  Option-cases, arith,
}
use atsf4g_co.Base.Lists.{
  length, length-drop, take-all, drop-all, take, drop, length-append, append_assoc, append_nil,
}
use atsf4g_co.Gateway.Codes.{ect_success, ect_bad_data}
use atsf4g_co.Inner.Wire.{Wire, msg_len, expect_hash, Block, BufferManager}
use atsf4g_co.Inner.Frames.{Waiting, Frames, waits, message, Frames-append, Frames-same}
use atsf4g_co.Inner.Reader.{
  small_size, Reader, Cursor, alloc_recv_buffer, dispatch_small, store_big, unpack, dispatch_big,
  receive, finish, read, back,
}

-- `Holds w bm head buffers s`: the small buffer or one block holds the bytes `s`, which wait for more.
pub data Holds {M : Type 0} (w : Wire) (bm : BufferManager M) (head : List ℕ) (buffers : M)
    : List ℕ → Type 0 where
  in_head :
      {s : List ℕ} → bm.blocks buffers ≡ [] → head ≡ s → length s ≤ 8 → Holds w bm head buffers s
  in_block :
      {s : List ℕ} (b : Block)
      → bm.blocks buffers ≡ b ∷ []
      → b.written ≡ s
      → head ≡ []
      → 0 < b.room
      → 8 < length b.written
      → length b.written + b.room ≡ 8 + msg_len w b.written
      → Holds w bm head buffers s

module _ {M P : Type 0} (w : Wire) (bm : BufferManager M) (dispatch : P → List ℕ → ℤ → P)
    (closing : P → Bool) where
  -- The object after some messages without an error
  unfoldable pub deliver : P → List (List ℕ) → P
  deliver p [] = p
  deliver p (body ∷ bodies) = deliver (dispatch p body ect_success) bodies

  -- Some messages of the stream `s` are handed on, and the rest of it is held.
  abbrev pub Handles : P → List ℕ → List ℕ → M → P → Type 0
  Handles p s head buffers p' =
      (bodies : List (List ℕ)) × (r : List ℕ) × Frames w s bodies r
      × Holds w bm head buffers r
      × (p' ≡ deliver p bodies)

  -- The three ways of the loop: it stops, a message is handed on, or one goes to a block.
  pub unpack-cases :
      (fuel : ℕ) (c : Cursor M P)
      → ((length c.left ≤ 8) × (unpack w bm dispatch closing (suc fuel) c ≡ c))
        ⊎ (((8 < length c.left)
              × (8 + msg_len w c.left ≤ length c.left)
              × (unpack w bm dispatch closing (suc fuel) c
                  ≡ unpack w bm dispatch closing fuel (dispatch_small w bm dispatch closing c)))
            ⊎ ((8 < length c.left)
                × (length c.left < 8 + msg_len w c.left)
                × (unpack w bm dispatch closing (suc fuel) c ≡ store_big w bm dispatch closing c)))
  unfolding unpack
  unpack-cases fuel c = ground arith

  store_big-errcode : (c : Cursor M P) → (store_big w bm dispatch closing c).errcode ≡ c.errcode
  unfolding store_big
  store_big-errcode c = ground arith

  store_big-cases :
      (c : Cursor M P)
      → bm.blocks c.buffers ≡ []
      → 8 < length c.left
      → length c.left < 8 + msg_len w c.left
      → ((store_big w bm dispatch closing c).is_free ≡ true)
        ⊎ (Holds w bm
              (store_big w bm dispatch closing c).left
              (store_big w bm dispatch closing c).buffers
              c.left
            × ((store_big w bm dispatch closing c).proto ≡ c.proto))
  unfolding store_big
  store_big-cases c e long short =
      elim (Option-cases (bm.push_back c.buffers (8 + msg_len w c.left))) [
        | inl q ↦ inl (rw (store_big, q) refl)
        | inr (m, q) ↦ inr (
            rw (store_big, q)
              (
                in_block (record { written = c.left; room = 8 + msg_len w c.left - length c.left })
                    (bm.blocks-write_back m []
                      (record { written = []; room = 8 + msg_len w c.left }) c.left
                      (bm.blocks-push_back c.buffers (8 + msg_len w c.left) m q
                        ∙ ap (λ l. l ++ (record { written = []; room = 8 + msg_len w c.left } ∷ []))
                            e)
                      (omega arith))
                    refl refl (omega arith) long (omega arith),
                refl,
              ))
      ]

  dispatch_small-errcode :
      (c : Cursor M P)
      → ((w.hash (take (msg_len w c.left) (drop 8 c.left)) ≡ expect_hash w c.left)
          × ((dispatch_small w bm dispatch closing c).errcode ≡ c.errcode))
        ⊎ ((dispatch_small w bm dispatch closing c).errcode ≡ ect_bad_data)
  unfolding dispatch_small
  dispatch_small-errcode c = ground arith

  dispatch_small-bad :
      (c : Cursor M P)
      → c.errcode ≡ ect_bad_data
      → (dispatch_small w bm dispatch closing c).errcode ≡ ect_bad_data
  unfolding dispatch_small
  dispatch_small-bad c e = ground arith

  unpack-bad :
      (fuel : ℕ) (c : Cursor M P)
      → c.errcode ≡ ect_bad_data
      → (unpack w bm dispatch closing fuel c).errcode ≡ ect_bad_data
  unpack-bad zero c e = unfold unpack in e
  unpack-bad (suc fuel) c e = elim (unpack-cases fuel c) [
    | inl (_, q) ↦ rw q e
    | inr (inl (_, _, q)) ↦
        rw q (unpack-bad fuel (dispatch_small w bm dispatch closing c) (dispatch_small-bad c e))
    | inr (inr (_, _, q)) ↦ rw q (store_big-errcode c ∙ e)
  ]

  idle :
      (c : Cursor M P)
      → bm.blocks c.buffers ≡ []
      → length c.left ≤ 8
      → Handles c.proto c.left c.left c.buffers c.proto
  unfolding deliver
  idle c e short = ([], c.left, waits (inl short) refl, in_head e refl short, refl)

  pub unpack-zero : (c : Cursor M P) → unpack w bm dispatch closing 0 c ≡ c
  unfolding unpack
  unpack-zero c = refl

  pub dispatch_small-shorter :
      (c : Cursor M P) → length (dispatch_small w bm dispatch closing c).left ≤ length c.left - 8
  unfolding dispatch_small
  dispatch_small-shorter c = omega (arith, length-drop (8 + msg_len w c.left) c.left)

  -- One message before those of the rest of the loop
  message-Handles :
      (c d : Cursor M P)
      → c.errcode ≡ ect_success
      → 8 < length c.left
      → 8 + msg_len w c.left ≤ length c.left
      → w.hash (take (msg_len w c.left) (drop 8 c.left)) ≡ expect_hash w c.left
      → (dispatch_small w bm dispatch closing c).errcode ≡ ect_success
      → Handles
          (dispatch_small w bm dispatch closing c).proto
          (dispatch_small w bm dispatch closing c).left
          d.left
          d.buffers
          d.proto
      → Handles c.proto c.left d.left d.buffers d.proto
  unfolding dispatch_small deliver
  message-Handles c d ok long complete fits good (bodies, r, rest, holds, p) =
      let body = take (msg_len w c.left) (drop 8 c.left) in
      (
        body ∷ bodies,
        r,
        message long complete refl fits rest,
        holds,
        p ∙ ap (λ e. deliver (dispatch c.proto body e) bodies) good,
      )

  -- The loop hands on the messages of the small buffer.
  pub unpack-Handles :
      (fuel : ℕ) (c d : Cursor M P)
      → length c.left ≤ fuel
      → bm.blocks c.buffers ≡ []
      → c.errcode ≡ ect_success
      → unpack w bm dispatch closing fuel c ≡ d
      → d.is_free ≡ false
      → d.errcode ≡ ect_success
      → Handles c.proto c.left d.left d.buffers d.proto
  unpack-Handles zero c d h e ok q free good =
      subst (λ d. Handles c.proto c.left d.left d.buffers d.proto) (sym (unpack-zero c) ∙ q)
        (idle c e (omega arith))
  unpack-Handles (suc fuel) c d h e ok q free good = elim (unpack-cases fuel c) [
    | inl (short, step) ↦
        subst (λ d. Handles c.proto c.left d.left d.buffers d.proto) (sym step ∙ q) (idle c e short)
    | inr (inl (long, complete, step)) ↦ elim (dispatch_small-errcode c) [
      | inl (fits, same) ↦ message-Handles c d ok long complete fits (same ∙ ok) (
          unpack-Handles fuel (dispatch_small w bm dispatch closing c) d
            (omega (arith, dispatch_small-shorter c)) (unfold dispatch_small in e) (same ∙ ok)
            (sym step ∙ q) free good)
      | inr bad ↦ cc (unpack-bad fuel (dispatch_small w bm dispatch closing c) bad)
    ]
    | inr (inr (long, short, step)) ↦ elim (store_big-cases c e long short) [
      | inl refused ↦ cc
      | inr (holds, same) ↦
          subst (λ d. Handles c.proto c.left d.left d.buffers d.proto) (sym step ∙ q)
            (unfold deliver in ([], c.left, waits (inr short) refl, holds, same))
    ]
  ]

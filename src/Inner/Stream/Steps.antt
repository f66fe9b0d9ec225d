-- ===== src/Inner/Stream/Steps.antt =====
-- The parts of one call of `read`: where the bytes go, and what a block and the end of the call do.
use atsf4g_co.Base.{
  ℕ, ◌<◌, ℤ, Bool, true, false, ◌≡◌, refl, ◌⊎◌, inl, inr, List, [], ◌∷◌, ◌++◌, ◌==◌, Bool-cases,
  arith,
}
use atsf4g_co.Base.Lists.{length, drop}
use atsf4g_co.Gateway.Codes.{ect_success, ect_bad_data}
use atsf4g_co.Inner.Wire.{Wire, expect_hash, Block, BufferManager}
use atsf4g_co.Inner.Stream.{Holds, in_head, in_block}
use atsf4g_co.Inner.Reader.{Reader, Cursor, unpack, dispatch_big, receive, finish, read, back}

module _ {M P : Type 0} (w : Wire) (bm : BufferManager M) (dispatch : P → List ℕ → ℤ → P)
    (closing : P → Bool) where
  pub dispatch_big-is_free :
      (c : Cursor M P) → (dispatch_big w bm dispatch closing c).is_free ≡ c.is_free
  unfolding dispatch_big
  dispatch_big-is_free c = ground arith

  pub dispatch_big-errcode :
      (c : Cursor M P)
      → ((dispatch_big w bm dispatch closing c).errcode ≡ c.errcode)
        ⊎ ((dispatch_big w bm dispatch closing c).errcode ≡ ect_bad_data)
  unfolding dispatch_big
  dispatch_big-errcode c = ground arith

  -- A block that still waits stays.
  pub dispatch_big-idle :
      (c : Cursor M P) {s : List ℕ}
      → Holds w bm c.left c.buffers s
      → dispatch_big w bm dispatch closing c ≡ c
  unfolding dispatch_big
  dispatch_big-idle c (in_head e f short) = rw (dispatch_big, e) refl
  dispatch_big-idle c (in_block b e f g room long total) = rw (dispatch_big, e) (ground arith)

  finish-success :
      (d : Cursor M P)
      → (finish w bm dispatch closing d).1 ≡ ect_success
      → (d.is_free ≡ false)
        × (d.errcode ≡ ect_success)
        × ((finish w bm dispatch closing d).0
            ≡ record { head = d.left; buffers = d.buffers; proto = d.proto })
  unfolding finish
  finish-success d good = ground arith

  -- A call that succeeds comes to its end with no error.
  pub read-success :
      (r : Reader M P) (bytes : List ℕ)
      → (read w bm dispatch closing r bytes).1 ≡ ect_success
      → (d : Cursor M P) × (dispatch_big w bm dispatch closing
            (receive w bm dispatch closing r bytes)
          ≡ d)
        × (d.is_free ≡ false)
        × (d.errcode ≡ ect_success)
        × ((read w bm dispatch closing r bytes).0
            ≡ record { head = d.left; buffers = d.buffers; proto = d.proto })
  unfolding read
  read-success r bytes good =
      let d = dispatch_big w bm dispatch closing (receive w bm dispatch closing r bytes) in
      elim (Bool-cases (closing r.proto)) [
        | inl e ↦ cc
        | inr e ↦ let (a, b, c) = finish-success d (rw e at good) in (d, refl, a, b, rw e c)
      ]

  pub receive-head :
      (r : Reader M P) (bytes : List ℕ)
      → bm.blocks r.buffers ≡ []
      → receive w bm dispatch closing r bytes
        ≡ unpack w bm dispatch closing (length (r.head ++ bytes)) (record {
          left = r.head ++ bytes;
          buffers = r.buffers;
          proto = r.proto;
          errcode = ect_success;
          is_free = false;
        })
  unfolding receive back
  receive-head r bytes e = rw e refl

  pub receive-block :
      (r : Reader M P) (bytes : List ℕ) (b : Block)
      → bm.blocks r.buffers ≡ b ∷ []
      → 0 < b.room
      → receive w bm dispatch closing r bytes ≡ record {
        left = r.head;
        buffers = bm.write_back r.buffers bytes;
        proto = r.proto;
        errcode = ect_success;
        is_free = false;
      }
  unfolding receive back
  receive-block r bytes b e room = rw (receive, e) (ground arith)

  pub dispatch_big-full :
      (c : Cursor M P) (b : Block)
      → bm.blocks c.buffers ≡ b ∷ []
      → (b.room == 0) ≡ true
      → ((dispatch_big w bm dispatch closing c).errcode ≡ ect_bad_data)
        ⊎ ((w.hash (drop 8 b.written) ≡ expect_hash w b.written)
            × (dispatch_big w bm dispatch closing c ≡ record c {
              proto = dispatch c.proto (drop 8 b.written) c.errcode;
              buffers = bm.pop_front c.buffers;
            }))
  unfolding dispatch_big
  dispatch_big-full c b e full = rw (dispatch_big, e) (ground arith)

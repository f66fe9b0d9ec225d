-- ===== src/Inner/Examples.antt =====
-- Two frames in calls of different sizes.
pub mod Data
pub mod Sending
use atsf4g_co.Base.{
  ℕ, ◌+◌, ◌-◌, ◌*◌, ◌/◌, ◌%◌, ◌^◌, ◌≤◌, ◌<◌, ℤ, Bool, true, false, ◌≡◌, refl, ap, ◌⊎◌, inl, some,
  List, [], ◌∷◌, ◌++◌, arith,
}
use atsf4g_co.Base.Lists.{length, take, drop}
use atsf4g_co.Inner.Wire.{Scalar, Wire, Block, BufferManager, frame}
use atsf4g_co.Inner.Frames.{IsWithin, IsSendable, frames, frames-Frames}
use atsf4g_co.Inner.Reader.{
  small_size, Reader, alloc_recv_buffer, dispatch_small, store_big, unpack, dispatch_big, receive,
  finish, read, back,
}
use atsf4g_co.Inner.Stream.{Holds, in_head, deliver}
use atsf4g_co.Inner.Stream.Success.{Accepts}
use atsf4g_co.Inner.Stream.Runs.{Run, stop, call, stream_delivered}
use atsf4g_co.Inner.Stream.Room.{read-keeps_room}
use atsf4g_co.Inner.Examples.Data.{wire, blocks, collect, never}

abbrev pub start : Reader (List Block) (List (List ℕ))
start = record { head = []; buffers = []; proto = [] }

abbrev pub bodies : List (List ℕ)
bodies = (7 ∷ (8 ∷ [])) ∷ ((9 ∷ []) ∷ [])

abbrev pub first : List ℕ
first = 15 ∷ (0 ∷ (0 ∷ (0 ∷ (2 ∷ (0 ∷ (0 ∷ (0 ∷ (7 ∷ []))))))))

abbrev pub second : List ℕ
second = 9 ∷ (0 ∷ (0 ∷ (0 ∷ (1 ∷ (0 ∷ (0 ∷ (0 ∷ (9 ∷ []))))))))

abbrev pub middle : Reader (List Block) (List (List ℕ))
middle = (read wire blocks collect never start first).0

abbrev pub later : Reader (List Block) (List (List ℕ))
later = (read wire blocks collect never middle (8 ∷ [])).0

abbrev pub last : Reader (List Block) (List (List ℕ))
last = (read wire blocks collect never later second).0

pub run : Run wire blocks collect never start (frames wire bodies) last
unfolding read dispatch_big receive finish unpack dispatch_small store_big back alloc_recv_buffer
    length take drop frames frame
run = call first (8 ∷ second) refl (omega arith) refl (
    call (8 ∷ []) second refl (omega arith) refl
      (call second [] refl (omega arith) refl (stop refl refl)))

pub accepts : Accepts blocks 64
accepts m n empty small = ground arith

pub within : IsWithin wire 64 bodies []
unfolding IsWithin length
within = (omega arith, (omega arith, inl (omega arith)))

-- The third call brings nine bytes while the second has left none.
stream_delivered_example :
    (last.proto ≡ deliver wire blocks collect never [] bodies)
    × Holds wire blocks last.head last.buffers []
unfolding length IsSendable
stream_delivered_example =
    stream_delivered wire blocks collect never 64 start last [] (frames wire bodies) [] bodies
      accepts within (in_head refl refl (omega arith)) (frames-Frames wire bodies (omega arith)) run

read-keeps_room_example :
    (length middle.head < small_size)
    × ((never middle.proto ≡ true) ⊎ (0 < alloc_recv_buffer wire blocks collect never middle))
unfolding length alloc_recv_buffer back
read-keeps_room_example =
    read-keeps_room wire blocks collect never start first (omega arith) (omega arith)

-- ===== src/Inner/Examples/Sending.antt =====
-- Two messages, the first of which is still being written when the second is queued, and closing.
use atsf4g_co.Base.{
  ℕ, suc, ◌+◌, ◌≡◌, refl, inl, inr, ℤ, pos, true, false, Option, none, some, List, [], ◌∷◌, ◌++◌,
  ltb, arith,
}
use atsf4g_co.Base.Lists.{length}
use atsf4g_co.Inner.Wire.{frame}
use atsf4g_co.Inner.Frames.{frames}
use atsf4g_co.Inner.Stream.{in_head, deliver}
use atsf4g_co.Inner.Sender.{
  Chunk, SendBuffers, Env, Sender, create, merge, merge_small, pop_written, settle, written, launch,
  try_write, write_done, write_msg, close,
}
use atsf4g_co.Inner.Sender.Merging.{data_of}
use atsf4g_co.Inner.Sender.Order.{pending}
use atsf4g_co.Inner.Sender.Closing.{IsEnding, close-ends}
use atsf4g_co.Inner.Conversation.{
  Sends, begun, wrote, completed, Queued, sent-in_order, messages_arrive,
}
use atsf4g_co.Inner.Examples.Data.{wire, blocks, collect, never}
use atsf4g_co.Inner.Examples.{start, last, bodies, accepts, within, run}

-- The next address, and the blocks
abbrev pub Queue : Type 0
Queue = ℕ × List Chunk

abbrev pub pop : Queue → Queue
pop (n, []) = (n, [])
pop (n, c ∷ rest) = (n, rest)

abbrev pub push_last : Queue → List ℕ → Queue
push_last (n, l) bytes = (n + 1, l ++ (record { ptr = n; payload = bytes } ∷ []))

abbrev pub push_first : Queue → List ℕ → Queue
push_first (n, l) bytes = (n + 1, record { ptr = n; payload = bytes } ∷ l)

pub count : List Chunk → ℕ
count [] = 0
count (c ∷ rest) = suc (count rest)

pub popped : (q : Queue) (c : Chunk) (rest : List Chunk) → q.1 ≡ c ∷ rest → (pop q).1 ≡ rest
popped (n, []) c rest e = cc
popped (n, d ∷ l) c rest e = cc

pub pushed_last :
    (q : Queue) (bytes : List ℕ) (q' : Queue)
    → some (push_last q bytes) ≡ some q'
    → (at : ℕ) × (q'.1 ≡ q.1 ++ (record { ptr = at; payload = bytes } ∷ []))
pushed_last (n, l) bytes q' e = (n, cc)

pub pushed_first :
    (q : Queue) (bytes : List ℕ)
    → (at : ℕ) × ((push_first q bytes).1 ≡ record { ptr = at; payload = bytes } ∷ q.1)
pushed_first (n, l) bytes = (n, refl)

abbrev pub queue : SendBuffers Queue
queue = record {
  blocks = λ q. q.1;
  cost_number = λ q. count q.1;
  pop_front = pop;
  push_back = λ q bytes. some (push_last q bytes);
  push_front = push_first;
  blocks-pop_front = popped;
  blocks-push_back = pushed_last;
  blocks-push_front = pushed_first;
}

-- The first write takes its time, the later ones are done at once.
abbrev pub env : Env
env = record {
  has_write_fn = true;
  write_fn = λ n. (pos 0, ltb 0 n);
  has_close_fn = true;
  close_fn = λ reason. pos 0;
  write_header_offset = 4;
  tls_length = 65536;
  is_static_mode = false;
  push_error = pos 0;
  kickoff = λ reason. 5 ∷ [];
}

abbrev pub empty_queue : Queue
empty_queue = (0, [])

abbrev state_of : Option (Sender Queue × ℤ) → Sender Queue
state_of none = create empty_queue
state_of (some (s, r)) = s

abbrev body_1 : List ℕ
body_1 = 7 ∷ (8 ∷ [])

abbrev body_2 : List ℕ
body_2 = 9 ∷ []

abbrev state_1 : Sender Queue
state_1 = state_of (write_msg wire queue env 2 (create empty_queue) body_1)

abbrev state_2 : Sender Queue
state_2 = state_of (write_msg wire queue env 3 state_1 body_2)

abbrev state_3 : Sender Queue
state_3 = state_of (write_done wire queue env 3 state_2 (pos 0))

sends : Sends wire queue env (create empty_queue) state_3 bodies
unfolding write_done write_msg try_write launch written settle merge_small merge pop_written create
    length count frame
sends =
    completed 3 (pos 0) (pos 0)
      (wrote 2 body_2 _ (pos 0)
        (wrote 1 body_1 _ (pos 0) (begun refl refl) refl (omega arith) (omega arith) (omega arith)
          refl refl)
        refl (omega arith) (omega arith) (omega arith) refl refl)
      (omega arith) refl

sent-in_order_example : Queued wire queue env state_3 bodies
unfolding create
sent-in_order_example =
    sent-in_order wire queue env empty_queue state_3 bodies (omega arith) refl sends

messages_arrive_example : last.proto ≡ deliver wire blocks collect never [] bodies
unfolding write_done write_msg try_write launch written settle merge_small merge pop_written create
    length count frame frames data_of pending
messages_arrive_example =
    messages_arrive wire queue env blocks collect never 64 empty_queue state_3 bodies start last
      (omega arith) refl sends refl accepts within (in_head refl refl (omega arith)) run

close-ends_example :
    (s' : Sender Queue) × (r : ℤ) × (close wire queue env 3 state_1 2 true ≡ some (s', r))
    × IsEnding wire queue env 2 s'
unfolding write_msg try_write launch written settle merge_small merge pop_written create length
    count frame
close-ends_example =
    close-ends wire queue env 2 state_1 2 true (omega arith)
      (inr (_, [], refl, refl), refl, omega arith) (refl, inl refl)

-- The sender while it closes and the first message is still being written
abbrev state_4 : Sender Queue
state_4 = state_of (close wire queue env 3 state_1 2 true)

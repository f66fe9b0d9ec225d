-- ===== src/Inner/Examples/Data.antt =====
-- Little-endian numbers, a hash, and buffers that are a list of blocks.
use atsf4g_co.Base.{
  ℕ, ◌+◌, ◌-◌, ◌*◌, ◌/◌, ◌%◌, ◌^◌, ◌≤◌, ◌<◌, ℤ, Bool, false, ◌≡◌, refl, ap, some, none, leb,
  if◌then◌else◌, List, [], ◌∷◌, ◌++◌, arith,
}
use atsf4g_co.Base.Lists.{length}
use atsf4g_co.Inner.Wire.{Scalar, Wire, Block, BufferManager}

-- Little-endian numbers
abbrev pub read_le : List ℕ → ℕ
read_le (a ∷ (b ∷ (c ∷ (d ∷ rest)))) = a + 256 * b + 65536 * c + 16777216 * d
read_le rest = 0

abbrev pub write_le : ℕ → List ℕ
write_le n = n % 256 ∷ ((n / 256) % 256 ∷ ((n / 65536) % 256 ∷ (n / 16777216 ∷ [])))

pub read_le-append :
    (front rest : List ℕ) → 4 ≤ length front → read_le (front ++ rest) ≡ read_le front
unfolding length
read_le-append [] rest h = absurd (omega arith)
read_le-append (a ∷ []) rest h = absurd (omega arith)
read_le-append (a ∷ (b ∷ [])) rest h = absurd (omega arith)
read_le-append (a ∷ (b ∷ (c ∷ []))) rest h = absurd (omega arith)
read_le-append (a ∷ (b ∷ (c ∷ (d ∷ l)))) rest h = refl

pub length-write_le : (n : ℕ) → length (write_le n) ≡ 4
unfolding length
length-write_le n = refl

pub read_le-write_le : (n : ℕ) → n < 2 ^ 32 → read_le (write_le n) ≡ n
read_le-write_le n h = omega arith

abbrev pub little_endian : Scalar
little_endian = record {
  read = read_le;
  write = write_le;
  length-write = length-write_le;
  read-write = read_le-write_le;
  read-append = read_le-append;
}

abbrev pub sum : List ℕ → ℕ
sum [] = 0
sum (x ∷ xs) = x + sum xs

abbrev pub sum_hash : List ℕ → ℕ
sum_hash body = sum body % 2 ^ 32

pub sum_hash-lt : (body : List ℕ) → sum_hash body < 2 ^ 32
sum_hash-lt body = omega arith

abbrev pub wire : Wire
wire = record {
  hash = sum_hash;
  hash-lt = sum_hash-lt;
  native = little_endian;
  little = little_endian;
}

-- Blocks of at most 64 bytes
abbrev pub fill : Block → List ℕ → Block
fill b bytes = record { written = b.written ++ bytes; room = b.room - length bytes }

abbrev pub fill_last : List Block → List ℕ → List Block
fill_last [] bytes = []
fill_last (b ∷ []) bytes = fill b bytes ∷ []
fill_last (b ∷ (c ∷ rest)) bytes = b ∷ fill_last (c ∷ rest) bytes

abbrev pub tail : List Block → List Block
tail [] = []
tail (b ∷ rest) = rest

pub fill_last-append :
    (front : List Block) (b : Block) (bytes : List ℕ)
    → fill_last (front ++ (b ∷ [])) bytes ≡ front ++ (fill b bytes ∷ [])
fill_last-append [] b bytes = refl
fill_last-append (x ∷ []) b bytes = refl
fill_last-append (x ∷ (y ∷ rest)) b bytes = ap (λ l. x ∷ l) (fill_last-append (y ∷ rest) b bytes)

pub pushed :
    (m : List Block) (n : ℕ) (m' : List Block)
    → (if leb n 64 then some (m ++ (record { written = []; room = n } ∷ [])) else none) ≡ some m'
    → m' ≡ m ++ (record { written = []; room = n } ∷ [])
pushed m n m' e = ground (arith, e)

abbrev pub blocks : BufferManager (List Block)
blocks = record {
  blocks = λ m. m;
  push_back =
      λ m n. if leb n 64 then some (m ++ (record { written = []; room = n } ∷ [])) else none;
  write_back = fill_last;
  pop_front = tail;
  blocks-push_back = pushed;
  blocks-write_back = λ m front b bytes e h. rw e (fill_last-append front b bytes);
  blocks-pop_front = λ m b rest e. rw e refl;
}

abbrev pub collect : List (List ℕ) → List ℕ → ℤ → List (List ℕ)
collect seen body errcode = seen ++ (body ∷ [])

abbrev pub never : List (List ℕ) → Bool
never seen = false

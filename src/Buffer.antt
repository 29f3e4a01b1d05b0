-- ===== src/Buffer.antt =====
-- network/base/MsgBuffer.h: the byte buffer of a connection. A pointer into the storage is its
-- offset from `begin()`; a `char` is a number below 256 that is only moved, and read back as part
-- of an integer. The asserts are kept: one that does not hold is `fail assertion`.
pub mod Valid
pub mod Content
pub mod Queue
pub mod Ints
pub mod Search
pub mod ReadFd
pub mod Shrink
mod Tests
use turbo_multimedia_server.Common.{
  ℕ, ◌+◌, ◌-◌, List, [], ◌++◌, take, replicate, length, slice, splice, ltb, leb, ◌==◌,
  if◌then◌else◌, Result, ok, fail, length_error, out_of_range, ◌>>=◌, ◌>>◌, assert, add_size,
  sub_size, be_bytes, from_be, ◌^◌, ◌%◌,
}

pub record MsgBuffer : Type 0 where
  pub buffer : List ℕ
  pub reader_index : ℕ
  pub writer_index : ℕ

-- `kCheapPrepend` and `kInitialSize`.
abbrev pub cheap_prepend : ℕ
cheap_prepend = 8

abbrev pub initial_size : ℕ
initial_size = 1024

-- `std::vector<char>::max_size()`, and the same of `std::string`: PTRDIFF_MAX.
abbrev pub max_size : ℕ
max_size = 2 ^ 63 - 1

abbrev pub readable_bytes : MsgBuffer → ℕ
readable_bytes b = sub_size b.writer_index b.reader_index

abbrev pub writable_bytes : MsgBuffer → ℕ
writable_bytes b = sub_size (length b.buffer) b.writer_index

abbrev pub prependable_bytes : MsgBuffer → ℕ
prependable_bytes b = b.reader_index

-- `std::vector::resize`: new bytes are 0.
pub resize : ℕ → List ℕ → Result (List ℕ)
resize n xs =
    if ltb max_size n then fail length_error else ok (take n xs ++ replicate (n - length xs) 0)

-- `std::copy` into the storage.
pub copy_to : ℕ → List ℕ → MsgBuffer → Result MsgBuffer
copy_to p d b =
    if ltb (length b.buffer) (p + length d)
    then fail out_of_range
    else ok (record b { buffer = splice p d b.buffer })

-- The constructor.
pub init : ℕ → Result MsgBuffer
unfolding resize
init size = do
  storage ← resize (add_size cheap_prepend size) []
  let b : MsgBuffer = record {
    buffer = storage;
    reader_index = cheap_prepend;
    writer_index = cheap_prepend;
  }
  assert (readable_bytes b == 0)
  assert (writable_bytes b == size)
  assert (prependable_bytes b == cheap_prepend)
  ok b

pub swap : MsgBuffer × MsgBuffer → MsgBuffer × MsgBuffer
swap (a, b) = (
  record { buffer = b.buffer; reader_index = b.reader_index; writer_index = b.writer_index },
  record { buffer = a.buffer; reader_index = a.reader_index; writer_index = a.writer_index },
)

-- The readable bytes, from `peek()` up to `beginWrite()`.
abbrev pub content : MsgBuffer → List ℕ
content b = slice b.reader_index (readable_bytes b) b.buffer

pub retrieve_all : MsgBuffer → MsgBuffer
retrieve_all b = record b { reader_index = cheap_prepend; writer_index = cheap_prepend }

pub retrieve : ℕ → MsgBuffer → Result MsgBuffer
unfolding retrieve_all
retrieve len b = do
  assert (leb len (readable_bytes b))
  ok (
      if ltb len (readable_bytes b)
      then record b { reader_index = add_size b.reader_index len }
      else retrieve_all b)

-- `end` is an offset from `begin()`.
pub retrieve_until : ℕ → MsgBuffer → Result MsgBuffer
retrieve_until end b = do
  assert (leb b.reader_index end)
  assert (leb end b.writer_index)
  retrieve (sub_size end b.reader_index) b

pub retrieve_as_string : ℕ → MsgBuffer → Result (List ℕ × MsgBuffer)
retrieve_as_string len b = do
  assert (leb len (readable_bytes b))
  let result = slice b.reader_index len b.buffer
  b' ← retrieve len b
  ok (result, b')

pub retrieve_all_as_string : MsgBuffer → Result (List ℕ × MsgBuffer)
retrieve_all_as_string b = retrieve_as_string (readable_bytes b) b

-- The length goes through `int`: the 32 low bits, and where these are negative the `size_t` made
-- of them is above every string's limit.
pub to_string_piece : MsgBuffer → Result (List ℕ)
to_string_piece b =
    let n = readable_bytes b % 2 ^ 32 in
    if ltb n (2 ^ 31) then ok (slice b.reader_index n b.buffer) else fail length_error

pub has_written : ℕ → MsgBuffer → Result MsgBuffer
has_written len b = do
  assert (leb len (writable_bytes b))
  ok (record b { writer_index = add_size b.writer_index len })

pub unwrite : ℕ → MsgBuffer → Result MsgBuffer
unwrite len b = do
  assert (leb len (readable_bytes b))
  ok (record b { writer_index = sub_size b.writer_index len })

move_front : MsgBuffer → Result MsgBuffer
unfolding copy_to
move_front b = do
  assert (ltb cheap_prepend b.reader_index)
  let readable = readable_bytes b
  b' ← copy_to cheap_prepend (content b) b
  let b'' : MsgBuffer = record b' {
    reader_index = cheap_prepend;
    writer_index = add_size cheap_prepend readable;
  }
  assert (readable == readable_bytes b'')
  ok b''

grow : ℕ → MsgBuffer → Result MsgBuffer
unfolding resize
grow len b = do
  storage ← resize (add_size b.writer_index len) b.buffer
  ok (record b { buffer = storage })

pub make_space : ℕ → MsgBuffer → Result MsgBuffer
unfolding move_front grow
make_space len b =
    if ltb (add_size (writable_bytes b) (prependable_bytes b)) (add_size len cheap_prepend)
    then grow len b
    else move_front b

pub ensure_writable_bytes : ℕ → MsgBuffer → Result MsgBuffer
unfolding make_space
ensure_writable_bytes len b = do
  b' ← (if ltb (writable_bytes b) len then make_space len b else ok b)
  assert (leb len (writable_bytes b'))
  ok b'

pub append : List ℕ → MsgBuffer → Result MsgBuffer
unfolding ensure_writable_bytes copy_to has_written
append d b = do
  b₁ ← ensure_writable_bytes (length d) b
  b₂ ← copy_to b₁.writer_index d b₁
  has_written (length d) b₂

pub prepend : List ℕ → MsgBuffer → Result MsgBuffer
unfolding copy_to
prepend d b = do
  assert (leb (length d) (prependable_bytes b))
  let b' : MsgBuffer = record b { reader_index = sub_size b.reader_index (length d) }
  copy_to b'.reader_index d b'

pub shrink : ℕ → MsgBuffer → Result MsgBuffer
shrink reserve b = do
  other₁ ← init initial_size
  other₂ ← ensure_writable_bytes (add_size (readable_bytes b) reserve) other₁
  piece ← to_string_piece b
  other₃ ← append piece other₂
  ok ((swap (b, other₃)).0)

-- The integers of the four widths: `appendInt64` is `append_int int64`, and so on.
pub data IntWidth : Type 0 where
  int8 int16 int32 int64 : IntWidth

-- `sizeof`.
abbrev pub size_of : IntWidth → ℕ
size_of int8 = 1
size_of int16 = 2
size_of int32 = 4
size_of int64 = 8

pub append_int : IntWidth → ℕ → MsgBuffer → Result MsgBuffer
append_int w x b = append (be_bytes (size_of w) x) b

pub prepend_int : IntWidth → ℕ → MsgBuffer → Result MsgBuffer
prepend_int w x b = prepend (be_bytes (size_of w) x) b

pub peek_int : IntWidth → MsgBuffer → Result ℕ
peek_int w b = do
  assert (leb (size_of w) (readable_bytes b))
  ok (from_be (slice b.reader_index (size_of w) b.buffer))

pub retrieve_int : IntWidth → MsgBuffer → Result MsgBuffer
retrieve_int w b = retrieve (size_of w) b

pub read_int : IntWidth → MsgBuffer → Result (ℕ × MsgBuffer)
read_int w b = do result ← peek_int w b; b' ← retrieve_int w b; ok (result, b')

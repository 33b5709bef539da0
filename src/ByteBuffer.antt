-- ===== src/ByteBuffer.antt =====
-- `ByteBuffer` of src/bytebuffer.h: a vector of bytes with a read and a write position. A byte is
-- only moved, never computed with, so it is any number. Positions and sizes are `size_t`, whose
-- wrap-around is written out. A pointer to `size` bytes is the list of them. An operation that
-- changes `*this` returns the new buffer, one that changes its argument too returns both. The
-- allocation of a vector does not fail here.
pub mod Valid
pub mod Bytes
pub mod Queue
use libasio.Prelude.{
  ℕ, ◌*◌, ◌/◌, List, [], length, take, drop, replicate, overwrite, resize, ltb, ◌==◌, not,
  if◌then◌else◌, add_word, sub_word, word, ◌%◌,
}

pub record ByteBuffer : Type 0 where
  pub wpos : ℕ
  pub rpos : ℕ
  pub storage : List ℕ

-- `ByteBuffer(std::size_t size)`
pub of_size : ℕ → ByteBuffer
of_size n = record { wpos = 0; rpos = 0; storage = replicate n 0 }

-- `ByteBuffer()`
unfoldable pub default : ByteBuffer
unfolding of_size
default = of_size (8 * 1024)

-- The private `Move`: the storage goes to the caller and the buffer keeps an empty one.
pub move : ByteBuffer → List ℕ × ByteBuffer
move b = (b.storage, record { wpos = 0; rpos = 0; storage = [] })

-- The copy constructor and the copy assignment, which differ in the old value that is dropped.
pub copy_of : ByteBuffer → ByteBuffer
copy_of rhs = record { wpos = rhs.wpos; rpos = rhs.rpos; storage = rhs.storage }

-- The move constructor and the move assignment: the new buffer, and what is left in `rhs`.
pub move_of : ByteBuffer → ByteBuffer × ByteBuffer
unfolding move
move_of rhs =
    let (s, rhs') = move rhs in (record { wpos = rhs.wpos; rpos = rhs.rpos; storage = s }, rhs')

pub reset : ByteBuffer → ByteBuffer
reset b = record b { wpos = 0; rpos = 0 }

pub resize_to : ℕ → ByteBuffer → ByteBuffer
resize_to bytes b = record b { storage = resize 0 bytes b.storage }

unfoldable pub read_bytes : ℕ → ByteBuffer → ByteBuffer
read_bytes bytes b = record b { rpos = add_word b.rpos bytes }

unfoldable pub write_bytes : ℕ → ByteBuffer → ByteBuffer
write_bytes bytes b = record b { wpos = add_word b.wpos bytes }

unfoldable pub size : ByteBuffer → ℕ
size b = sub_word b.wpos b.rpos

unfoldable pub valid_size : ByteBuffer → ℕ
valid_size b = sub_word (length b.storage) b.wpos

unfoldable pub capacity : ByteBuffer → ℕ
capacity b = length b.storage

-- The bytes at `ReadBegin()`, `Size()` of them.
unfoldable pub at_read_begin : ByteBuffer → List ℕ
unfolding size
at_read_begin b = take (size b) (drop b.rpos b.storage)

-- The bytes at `Data()`, `Size()` of them.
unfoldable pub at_data : ByteBuffer → List ℕ
unfolding size
at_data b = take (size b) b.storage

-- The storage after the `memmove` of `Normalize`, which is left out where nothing is to be read.
unfoldable pub memmove_to_front : ByteBuffer → List ℕ
memmove_to_front b =
    if not (b.rpos == b.wpos) then overwrite b.storage 0 (at_read_begin b) else b.storage

unfoldable pub normalize : ByteBuffer → ByteBuffer
normalize b =
    if ltb 0 b.rpos
    then record { wpos = sub_word b.wpos b.rpos; rpos = 0; storage = memmove_to_front b }
    else b

pub ensure_valid_size : ByteBuffer → ByteBuffer
unfolding valid_size
ensure_valid_size b =
    if valid_size b == 0
    then record b { storage = resize 0 (length b.storage * 3 % word / 2) b.storage }
    else b

unfoldable pub estimate_size : ℕ → ByteBuffer → ByteBuffer
unfolding valid_size
estimate_size n b =
    if ltb (valid_size b) n
    then record b { storage = resize 0 (add_word (length b.storage) n * 3 % word / 2) b.storage }
    else b

-- `memcpy(WriteBegin(), data, size)`
unfoldable pub memcpy_at_write_begin : List ℕ → ByteBuffer → ByteBuffer
memcpy_at_write_begin bytes b = record b { storage = overwrite b.storage b.wpos bytes }

unfoldable pub write : List ℕ → ByteBuffer → ByteBuffer
write bytes b =
    if ltb 0 (length bytes)
    then write_bytes (length bytes) (memcpy_at_write_begin bytes (estimate_size (length bytes) b))
    else b

-- Both buffers, `*this` first.
unfoldable pub swap : ByteBuffer → ByteBuffer → ByteBuffer × ByteBuffer
swap b rhs = (rhs, b)

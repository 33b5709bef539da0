-- ===== src/ByteBuffer/Valid.antt =====
-- The positions and sizes of a `ByteBuffer`.
use libasio.Prelude.{
  ℕ, ◌+◌, ◌-◌, ◌*◌, ◌/◌, ◌≤◌, ◌<◌, ◌≡◌, List, length, word, arith, length-resize, length-overwrite,
  refl, ap, ◌∙◌, ◌∷◌, [], length-replicate, ◌↔◌,
}
use libasio.ByteBuffer.{
  default, ByteBuffer, of_size, reset, read_bytes, write_bytes, size, valid_size, capacity,
  normalize, memmove_to_front, at_read_begin, ensure_valid_size, estimate_size,
  memcpy_at_write_begin, write,
}

pub record IsValid (b : ByteBuffer) : Type 0 where
  pub ordered : b.rpos ≤ b.wpos
  pub inside : b.wpos ≤ length b.storage
  pub fits : length b.storage < word

-- A growth by `n` bytes that `size_t` can compute.
abbrev pub CanGrow : ℕ → ByteBuffer → Type 0
CanGrow n b = (length b.storage + n) * 3 < word

pub of_size-IsValid : (n : ℕ) → n < word → IsValid (of_size n)
unfolding of_size
of_size-IsValid n h = omega (arith, length-replicate {A = ℕ} n 0)

pub default-IsValid : IsValid default
unfolding default
default-IsValid = of_size-IsValid (8 * 1024) (omega arith)

pub size-eq-sub : {b : ByteBuffer} → IsValid b → size b ≡ b.wpos - b.rpos
unfolding size
size-eq-sub v = omega arith

pub valid_size-eq-sub : {b : ByteBuffer} → IsValid b → valid_size b ≡ length b.storage - b.wpos
unfolding valid_size
valid_size-eq-sub v = omega arith

-- On a valid buffer the sizes do not wrap: the bytes read, the readable and the free ones make up the capacity.
pub sizes_add_up : {b : ByteBuffer} → IsValid b → b.rpos + size b + valid_size b ≡ capacity b
unfolding capacity
sizes_add_up v = omega (arith, size-eq-sub v, valid_size-eq-sub v)

pub reset-IsValid : {b : ByteBuffer} → IsValid b → IsValid (reset b)
unfolding reset
reset-IsValid v = omega arith

pub read_bytes-IsValid :
    {b : ByteBuffer} (n : ℕ) → n ≤ size b → IsValid b → IsValid (read_bytes n b)
unfolding read_bytes
read_bytes-IsValid n h v = omega (arith, size-eq-sub v)

pub write_bytes-IsValid :
    {b : ByteBuffer} (n : ℕ) → n ≤ valid_size b → IsValid b → IsValid (write_bytes n b)
unfolding write_bytes
write_bytes-IsValid n h v = omega (arith, valid_size-eq-sub v)

pub length-memmove_to_front : (b : ByteBuffer) → length (memmove_to_front b) ≡ length b.storage
unfolding memmove_to_front
length-memmove_to_front b = ground (arith, length-overwrite b.storage 0 (at_read_begin b))

-- `Normalize` puts the read position at 0 and keeps the sizes.
pub normalize-IsValid :
    {b : ByteBuffer}
    → IsValid b
    → let c = normalize b in
      IsValid c × (c.rpos ≡ 0) × (c.wpos ≡ size b) × (length c.storage ≡ length b.storage)
unfolding normalize
normalize-IsValid {b} v = ground (arith, size-eq-sub v, length-memmove_to_front b)

-- `EstimateSize` keeps the positions and leaves room for `n` bytes.
pub estimate_size-lem :
    {b : ByteBuffer} (n : ℕ)
    → CanGrow n b
    → IsValid b
    → let c = estimate_size n b in
      IsValid c × (n ≤ valid_size c) × (c.wpos ≡ b.wpos) × (c.rpos ≡ b.rpos)
unfolding estimate_size
estimate_size-lem {b} n g v =
    ground (arith, length-resize 0 ((length b.storage + n) * 3 / 2) b.storage)

-- `EnsureValidSize` of a valid buffer, three times the storage of which `size_t` can count, leaves it
-- valid and keeps its positions; there is no room after it exactly if the buffer was full and had at
-- most one byte of storage.
pub ensure_valid_size-IsValid :
    {b : ByteBuffer}
    → CanGrow 0 b
    → IsValid b
    → let c = ensure_valid_size b in
      IsValid c
      × (c.wpos ≡ b.wpos)
      × (c.rpos ≡ b.rpos)
      × ((valid_size c ≡ 0) ↔ ((valid_size b ≡ 0) × (capacity b ≤ 1)))
unfolding ensure_valid_size capacity
ensure_valid_size-IsValid {b} g v =
    ground (arith, length-resize 0 (length b.storage * 3 / 2) b.storage)

-- The two halves of `Write`: the copy, and the step of the write position.
pub memcpy-lem :
    {b : ByteBuffer} (d : List ℕ)
    → length d ≤ valid_size b
    → IsValid b
    → let c = write_bytes (length d) (memcpy_at_write_begin d b) in
      IsValid c
      × (c.wpos ≡ b.wpos + length d)
      × (c.rpos ≡ b.rpos)
      × (length c.storage ≡ length b.storage)
unfolding memcpy_at_write_begin write_bytes
memcpy-lem {b} d h v = omega (arith, length-overwrite b.storage b.wpos d, valid_size-eq-sub v)

-- The copy alone moves no position.
pub memcpy-IsValid : {b : ByteBuffer} (d : List ℕ) → IsValid b → IsValid (memcpy_at_write_begin d b)
unfolding memcpy_at_write_begin
memcpy-IsValid {b} d v = omega (arith, length-overwrite b.storage b.wpos d)

pub valid_size-memcpy :
    (d : List ℕ) (b : ByteBuffer) → valid_size (memcpy_at_write_begin d b) ≡ valid_size b
unfolding valid_size memcpy_at_write_begin
valid_size-memcpy d b = rw (length-overwrite b.storage b.wpos d)

pub write-eq-grow :
    (b : ByteBuffer) (x : ℕ) (xs : List ℕ)
    → write (x ∷ xs) b
      ≡ write_bytes
          (length (x ∷ xs))
          (memcpy_at_write_begin (x ∷ xs) (estimate_size (length (x ∷ xs)) b))
unfolding write
write-eq-grow b x xs = ground arith

-- `Write` moves the write position by the length of its data, and the buffer stays valid.
pub write-IsValid :
    {b : ByteBuffer} (d : List ℕ)
    → CanGrow (length d) b
    → IsValid b
    → let c = write d b in IsValid c × (c.wpos ≡ b.wpos + length d) × (c.rpos ≡ b.rpos)
write-IsValid {b} [] g v = unfold write in (v, omega arith, refl)
write-IsValid {b} (x ∷ xs) g v =
    let e = estimate_size-lem (length (x ∷ xs)) g v in
    let m = memcpy-lem (x ∷ xs) e.1 e.0 in
    rw (write-eq-grow b x xs) (m.0, m.1 ∙ ap (λ k. k + length (x ∷ xs)) e.2, m.2 ∙ e.3)

pub length-default : length default.storage ≡ 8 * 1024
unfolding default of_size
length-default = length-resize {A = ℕ} 0 (8 * 1024) []

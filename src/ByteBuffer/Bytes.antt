-- ===== src/ByteBuffer/Bytes.antt =====
-- The bytes of a `ByteBuffer` that are still to be read, and what each operation does to them.
use libasio.Prelude.{
  refl, ℕ, ◌+◌, nil_of_length, ◌*◌, ◌/◌, ◌%◌, word, ◌≤◌, ◌≡◌, sym, ap, ◌∙◌, List, [], ◌++◌, take,
  drop, length, arith, length-take, length-drop, take-drop, drop-drop, drop-append, take-overwrite,
  take-overwrite_before, take-resize, append-nil, ◌∷◌, Bool-cases, inl, inr, ltb, ◌==◌,
}
use libasio.ByteBuffer.{
  copy_of, move_of, capacity, default, ByteBuffer, read_bytes, size, at_read_begin, at_data,
  normalize, memmove_to_front, valid_size, estimate_size, memcpy_at_write_begin, write_bytes, write,
}
use libasio.ByteBuffer.Valid.{
  IsValid, CanGrow, size-eq-sub, valid_size-eq-sub, estimate_size-lem, write-eq-grow,
}

-- The bytes between the positions.
unfoldable pub readable : ByteBuffer → List ℕ
readable b = drop b.rpos (take b.wpos b.storage)

-- What a write to the socket is given is what is readable.
pub at_read_begin-readable : {b : ByteBuffer} → IsValid b → at_read_begin b ≡ readable b
unfolding at_read_begin readable
at_read_begin-readable {b} v =
    let e : b.rpos + size b ≡ b.wpos = omega (arith, size-eq-sub v) in
    take-drop (size b) b.rpos b.storage ∙ ap (λ k. drop b.rpos (take k b.storage)) e

pub length-readable : {b : ByteBuffer} → IsValid b → length (readable b) ≡ size b
unfolding readable
length-readable {b} v =
    omega (
      arith,
      length-drop b.rpos (take b.wpos b.storage),
      length-take b.wpos b.storage,
      size-eq-sub v,
    )

-- Once normalised, the readable bytes begin at `Data()`.
pub at_data-readable : {b : ByteBuffer} → IsValid b → b.rpos ≡ 0 → at_data b ≡ readable b
unfolding at_data readable
at_data-readable {b} v e = let s : size b ≡ b.wpos = omega (arith, size-eq-sub v) in rw (s, e)

pub readable-read_bytes :
    {b : ByteBuffer} (n : ℕ)
    → n ≤ size b
    → IsValid b
    → readable (read_bytes n b) ≡ drop n (readable b)
unfolding readable read_bytes
readable-read_bytes {b} n h v =
    let e : (b.rpos + n) % word ≡ b.rpos + n = omega (arith, size-eq-sub v) in
    rw e (sym (drop-drop n b.rpos (take b.wpos b.storage)))

-- Growth keeps the bytes before the write position.
take-estimate :
    {b : ByteBuffer} (n : ℕ)
    → CanGrow n b
    → IsValid b
    → take b.wpos (estimate_size n b).storage ≡ take b.wpos b.storage
unfolding estimate_size
take-estimate {b} n g v =
    ground (arith, take-resize 0 ((length b.storage + n) * 3 / 2) b.wpos b.storage)

pub readable-estimate_size :
    {b : ByteBuffer} (n : ℕ) → CanGrow n b → IsValid b → readable (estimate_size n b) ≡ readable b
unfolding readable
readable-estimate_size {b} n g v =
    let e = estimate_size-lem n g v in rw (e.2, e.3) (ap (drop b.rpos) (take-estimate n g v))

pub readable-append :
    {b : ByteBuffer} (d : List ℕ)
    → length d ≤ valid_size b
    → IsValid b
    → readable (write_bytes (length d) (memcpy_at_write_begin d b)) ≡ readable b ++ d
unfolding readable write_bytes memcpy_at_write_begin
readable-append {b} d h v =
    let e : (b.wpos + length d) % word ≡ b.wpos + length d = omega (arith, valid_size-eq-sub v) in
    rw (e, take-overwrite b.storage b.wpos d (omega (arith, valid_size-eq-sub v)))
      (drop-append b.rpos (take b.wpos b.storage) d (omega (arith, length-take b.wpos b.storage)))

-- The copy alone changes nothing that is readable.
pub readable-memcpy :
    {b : ByteBuffer} (d : List ℕ) → IsValid b → readable (memcpy_at_write_begin d b) ≡ readable b
unfolding readable memcpy_at_write_begin
readable-memcpy {b} d v = ap (drop b.rpos) (take-overwrite_before b.storage b.wpos d)

-- `Write` appends its bytes to the readable ones.
pub readable-write :
    {b : ByteBuffer} (d : List ℕ)
    → CanGrow (length d) b
    → IsValid b
    → readable (write d b) ≡ readable b ++ d
readable-write {b} [] g v = unfold write in sym (append-nil (readable b))
readable-write {b} (x ∷ xs) g v =
    let e = estimate_size-lem (length (x ∷ xs)) g v in
    rw (write-eq-grow b x xs, readable-append (x ∷ xs) e.1 e.0)
      (ap (λ l. l ++ (x ∷ xs)) (readable-estimate_size (length (x ∷ xs)) g v))

take-memmove_to_front :
    {b : ByteBuffer} → IsValid b → take (size b) (memmove_to_front b) ≡ at_read_begin b
unfolding memmove_to_front
take-memmove_to_front {b} v = elim (Bool-cases (b.rpos == b.wpos)) [
  | inl e ↦
      let z : size b ≡ 0 = ground (arith, size-eq-sub v) in
      let l : length (at_read_begin b) ≡ 0 =
        omega (arith, ap length (at_read_begin-readable v), length-readable v) in
      rw z (sym (nil_of_length (at_read_begin b) l))
  | inr ne ↦
      let l : 0 + length (at_read_begin b) ≡ size b =
        omega (arith, ap length (at_read_begin-readable v), length-readable v) in
      let fits : 0 + length (at_read_begin b) ≤ length b.storage = omega (arith, size-eq-sub v) in
      rw (ne, ← l) (take-overwrite b.storage 0 (at_read_begin b) fits)
]

-- `Normalize` moves the readable bytes to the front of the storage and changes none of them.
pub readable-normalize : {b : ByteBuffer} → IsValid b → readable (normalize b) ≡ readable b
unfolding normalize readable size
readable-normalize {b} v = elim (Bool-cases (ltb 0 b.rpos)) [
  | inl moved ↦ rw moved (take-memmove_to_front v ∙ at_read_begin-readable v)
  | inr still ↦ rw still
]

-- A new buffer has nothing to read.
pub readable-default : readable default ≡ []
unfolding readable default
readable-default = refl

-- A copy and a move have the readable bytes of their source; a copy keeps the source's capacity too.
-- What is left of a moved buffer is a valid one with nothing to read and no room.
copy_move :
    {b : ByteBuffer}
    → IsValid b
    → let c = copy_of b in
      let (d, rest) = move_of b in
      (readable c ≡ readable b)
      × (capacity c ≡ capacity b)
      × (readable d ≡ readable b)
      × IsValid d
      × IsValid rest
      × (readable rest ≡ [])
      × (valid_size rest ≡ 0)
unfolding copy_of move_of readable capacity valid_size
copy_move v = (refl, refl, refl, v, omega arith, refl, refl)

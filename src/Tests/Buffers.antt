-- ===== src/Tests/Buffers.antt =====
-- `ByteBuffer` at concrete inputs.
use libasio.Prelude.{◌↔◌, ◌+◌, ◌≡◌, ◌≤◌, refl, List, [], ◌∷◌, arith}
use libasio.ByteBuffer.{
  memmove_to_front, ByteBuffer, read_bytes, size, valid_size, capacity, write, normalize,
  at_read_begin, ensure_valid_size, estimate_size, memcpy_at_write_begin, write_bytes,
}
use libasio.ByteBuffer.Valid.{IsValid, sizes_add_up, ensure_valid_size-IsValid}
use libasio.ByteBuffer.Bytes.{readable}
use libasio.ByteBuffer.Queue
use libasio.ByteBuffer.Queue.{Op, put, consume, compact, reserve, run, run_queue, run_refines}

-- Four bytes of storage, of which the first is read and the third and fourth are free.
abbrev half_full : ByteBuffer
half_full = record { wpos = 2; rpos = 1; storage = 7 ∷ 8 ∷ 0 ∷ 0 ∷ [] }

half_full-IsValid : IsValid half_full
half_full-IsValid = omega arith

abbrev calls : List Op
calls = put (1 ∷ 2 ∷ 3 ∷ []) ∷ consume 2 ∷ compact ∷ reserve 9 ∷ put (4 ∷ []) ∷ []

write_grows : at_read_begin (write (1 ∷ 2 ∷ 3 ∷ []) half_full) ≡ 8 ∷ 1 ∷ 2 ∷ 3 ∷ []
unfolding at_read_begin write write_bytes memcpy_at_write_begin estimate_size
write_grows = refl

sizes_add_up_example : 1 + size half_full + valid_size half_full ≡ capacity half_full
sizes_add_up_example = sizes_add_up half_full-IsValid

-- A full buffer of one byte does not grow.
abbrev one_full : ByteBuffer
one_full = record { wpos = 1; rpos = 0; storage = 7 ∷ [] }

ensure_valid_size-IsValid_example :
    let c = ensure_valid_size one_full in
    IsValid c
    × (c.wpos ≡ 1)
    × (c.rpos ≡ 0)
    × ((valid_size c ≡ 0) ↔ ((valid_size one_full ≡ 0) × (capacity one_full ≤ 1)))
ensure_valid_size-IsValid_example =
    ensure_valid_size-IsValid {b = one_full} (omega arith) (omega arith)

run_refines_example :
    IsValid (run calls half_full)
    × (readable (run calls half_full) ≡ run_queue calls (readable half_full))
unfolding Queue.apply memmove_to_front at_read_begin write write_bytes memcpy_at_write_begin
    estimate_size read_bytes normalize size
run_refines_example = run_refines calls (omega arith) half_full-IsValid

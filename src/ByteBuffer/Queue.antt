-- ===== src/ByteBuffer/Queue.antt =====
-- A `ByteBuffer` as the queue of its readable bytes: what a client that only appends, consumes and
-- makes room can see of it.
use libasio.Prelude.{ℕ, ◌≤◌, ◌≡◌, refl, ap, ◌∙◌, List, [], ◌∷◌, ◌++◌, drop, length}
use libasio.ByteBuffer.{ByteBuffer, read_bytes, size, normalize, estimate_size, write}
use libasio.ByteBuffer.Valid.{
  IsValid, CanGrow, read_bytes-IsValid, normalize-IsValid, estimate_size-lem, write-IsValid,
}
use libasio.ByteBuffer.Bytes.{
  readable, readable-read_bytes, readable-write, readable-normalize, readable-estimate_size,
}

-- A client's call.
pub data Op : Type 0 where
  put : List ℕ → Op
  consume : ℕ → Op
  compact : Op
  reserve : ℕ → Op

unfoldable pub apply : Op → ByteBuffer → ByteBuffer
apply (put d) b = write d b
apply (consume n) b = read_bytes n b
apply compact b = normalize b
apply (reserve n) b = estimate_size n b

-- The same call on the queue of bytes.
pub on_queue : Op → List ℕ → List ℕ
on_queue (put d) q = q ++ d
on_queue (consume n) q = drop n q
on_queue compact q = q
on_queue (reserve n) q = q

-- A call consumes no more than is readable, and asks for a growth that `size_t` can compute.
abbrev pub Allowed : Op → ByteBuffer → Type 0
Allowed (put d) b = CanGrow (length d) b
Allowed (consume n) b = n ≤ size b
Allowed compact b = Unit {0}
Allowed (reserve n) b = CanGrow n b

pub run : List Op → ByteBuffer → ByteBuffer
run [] b = b
run (o ∷ os) b = run os (apply o b)

pub run_queue : List Op → List ℕ → List ℕ
run_queue [] q = q
run_queue (o ∷ os) q = run_queue os (on_queue o q)

abbrev pub AllAllowed : List Op → ByteBuffer → Type 0
AllAllowed [] b = Unit {0}
AllAllowed (o ∷ os) b = Allowed o b × AllAllowed os (apply o b)

apply-IsValid : (o : Op) {b : ByteBuffer} → Allowed o b → IsValid b → IsValid (apply o b)
unfolding apply
apply-IsValid (put d) a v = (write-IsValid d a v).0
apply-IsValid (consume n) a v = read_bytes-IsValid n a v
apply-IsValid compact a v = (normalize-IsValid v).0
apply-IsValid (reserve n) a v = (estimate_size-lem n a v).0

readable-apply :
    (o : Op) {b : ByteBuffer}
    → Allowed o b
    → IsValid b
    → readable (apply o b) ≡ on_queue o (readable b)
unfolding apply on_queue
readable-apply (put d) a v = readable-write d a v
readable-apply (consume n) a v = readable-read_bytes n a v
readable-apply compact a v = readable-normalize v
readable-apply (reserve n) a v = readable-estimate_size n a v

-- Any sequence of allowed calls leaves a valid buffer whose readable bytes are those of the queue
-- after the same calls.
pub run_refines :
    (os : List Op) {b : ByteBuffer}
    → AllAllowed os b
    → IsValid b
    → IsValid (run os b) × (readable (run os b) ≡ run_queue os (readable b))
unfolding run run_queue
run_refines [] a v = (v, refl)
run_refines (o ∷ os) {b} a v =
    let ih = run_refines os a.1 (apply-IsValid o a.0 v) in
    (ih.0, ih.1 ∙ ap (run_queue os) (readable-apply o a.0 v))

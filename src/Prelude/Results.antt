-- ===== src/Prelude/Results.antt =====
-- What a call of the library can end in besides returning.
use mathlib.Core.Path.{◌≡◌, refl, ap}
use mathlib.Core.Bool.{Bool, true, false}
use mathlib.Core.Option.{Option, none, some}

pub data Fault : Type 0 where
  assertion_failed : Fault  -- an `assert` of the source
  bad_function_call : Fault  -- a call of an empty `std::function`
  null_pointer : Fault  -- a member access through a null `shared_ptr`
  out_of_range : Fault  -- an index past the end of a vector
  bad_cast : Fault  -- a member of a class that the object is not of
  bad_archive : Fault  -- an exception of the archive that a packet is read from
  system_error : Fault  -- an exception of asio for a call on a socket that failed
  out_of_memory : Fault  -- an allocation that no address space can hold

-- A call that ends in a fault does nothing more.
pub data Result {κ} (R : Type κ) : Type κ where
  fault : Fault → Result R
  ok : R → Result R

pub ok-injective {κ} : {R : Type κ} {x y : R} → ok x ≡ ok y → x ≡ y
ok-injective {R} {x} {y} same = ap (elim [ ok r ↦ r | fault _ ↦ x ]) same

-- `assert(b)`
abbrev pub assert : Bool → Result (Unit {0})
assert false = fault assertion_failed
assert true = ok tt

-- A member access through a pointer that may be null.
abbrev pub deref {κ} : {R : Type κ} → Option R → Result R
deref (some r) = ok r
deref none = fault null_pointer

-- `v[i]`, given what the vector has there.
abbrev pub indexed {κ} : {R : Type κ} → Option R → Result R
indexed (some r) = ok r
indexed none = fault out_of_range

-- One call after another, for `do`.
infixl 5 ◌>>=◌ ◌>>◌
abbrev pub ◌>>=◌ {κ μ} : {R : Type κ} {S : Type μ} → Result R → (R → Result S) → Result S
fault why >>= rest = fault why
ok r >>= rest = rest r

abbrev pub ◌>>◌ {μ} : {S : Type μ} → Result (Unit {0}) → Result S → Result S
fault why >> rest = fault why
ok done >> rest = rest

-- If two calls in a row returned, the first did, and the second did from there.
pub returned {κ μ} :
    {R : Type κ} {S : Type μ} (first : Result R) (rest : R → Result S) {s : S}
    → (first >>= rest) ≡ ok s
    → (r : R) × (first ≡ ok r) × (rest r ≡ ok s)
returned (fault why) rest both = cc
returned (ok r) rest both = (r, refl, both)

-- ===== src/Prelude/Decimal.antt =====
-- `std::to_string` and `<<` of an unsigned number: its decimal digits.
use Prim.Native.Nat.{ℕ, zero, suc, ◌+◌, ◌-◌, ◌*◌, ◌/◌, ◌%◌, ◌≤◌, ◌<◌}
use mathlib.Core.Path.{◌≡◌, refl, sym, ap, ◌∙◌}
use mathlib.Core.Logic.{inl, inr}
use mathlib.Core.List.{List, [], ◌∷◌, ◌++◌}
use native.Mathlib.Omega.{arith}
use libasio.Prelude.Tests.{ltb, if◌then◌else◌, Bool-cases, codes}

-- The digits of `n`, with fuel for as many digits; `n + 1` is always enough.
digits : ℕ → ℕ → List ℕ
digits zero n = []
digits (suc f) n =
    let rest = digits f (n / 10) ++ (b'0' + n % 10) ∷ [] in
    if ltb n 10 then (b'0' + n) ∷ [] else rest

unfoldable pub to_string : ℕ → List ℕ
unfolding digits
to_string n = digits (suc n) n

-- The number that a text of digits stands for, after the number read so far.
value : ℕ → List ℕ → ℕ
value acc [] = acc
value acc (d ∷ ds) = value (acc * 10 + (d - b'0')) ds

value-snoc :
    (acc : ℕ) (ds : List ℕ) (d : ℕ) → value acc (ds ++ d ∷ []) ≡ value acc ds * 10 + (d - b'0')
unfolding value
value-snoc acc [] d = refl
value-snoc acc (x ∷ ds) d = value-snoc (acc * 10 + (x - b'0')) ds d

value-digits : (f n : ℕ) → n < f → value 0 (digits f n) ≡ n
unfolding digits
value-digits zero n h = absurd (omega arith)
value-digits (suc f) n h = elim (Bool-cases (ltb n 10)) [
  | inl small ↦ rw small (unfold value in omega arith)
  | inr large ↦
      let big : 10 ≤ n = ground arith in
      rw
        (
          large,
          value-snoc 0 (digits f (n / 10)) (b'0' + n % 10),
          value-digits f (n / 10) (omega arith),
        )
        (omega arith)
]

value-to_string : (n : ℕ) → value 0 (to_string n) ≡ n
unfolding to_string
value-to_string n = value-digits (suc n) n (omega arith)

-- Different numbers have different texts.
pub to_string-injective : {m n : ℕ} → to_string m ≡ to_string n → m ≡ n
to_string-injective {m} {n} e = sym (value-to_string m) ∙ ap (value 0) e ∙ value-to_string n

to_string_2047 : to_string 2047 ≡ codes "2047"
unfolding to_string
to_string_2047 = refl

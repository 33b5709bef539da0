-- ===== src/Prelude/Lists.antt =====
-- Lists measured and indexed by native numbers, under the library's names.
use Prim.Native.Nat.{ℕ, zero, suc, ◌+◌, ◌-◌, ◌≤◌, min}
use mathlib.Core.Path.{◌≡◌, refl, sym, ap, ◌∙◌}
use mathlib.Core.List.{List, [], ◌∷◌, ◌++◌}
use mathlib.Core.Option.{Option, none, some}
use native.Mathlib.Omega.{arith}

module _ {ℓ} {A : Type ℓ} where
  abbrev pub length : List A → ℕ
  length [] = 0
  length (x ∷ xs) = suc (length xs)

  abbrev pub get_elem? : List A → ℕ → Option A
  get_elem? [] i = none
  get_elem? (x ∷ xs) zero = some x
  get_elem? (x ∷ xs) (suc i) = get_elem? xs i

  abbrev pub take : ℕ → List A → List A
  take zero xs = []
  take (suc n) [] = []
  take (suc n) (x ∷ xs) = x ∷ take n xs

  abbrev pub drop : ℕ → List A → List A
  drop zero xs = xs
  drop (suc n) [] = []
  drop (suc n) (x ∷ xs) = drop n xs

  abbrev pub replicate : ℕ → A → List A
  replicate zero a = []
  replicate (suc n) a = a ∷ replicate n a

  -- `memcpy` and `memmove` to an offset; what would go past the end is not written.
  abbrev pub overwrite : List A → ℕ → List A → List A
  overwrite [] p ds = []
  overwrite (x ∷ xs) zero [] = x ∷ xs
  overwrite (x ∷ xs) zero (d ∷ ds) = d ∷ overwrite xs zero ds
  overwrite (x ∷ xs) (suc p) ds = x ∷ overwrite xs p ds

  -- `std::vector::resize`
  abbrev pub resize : A → ℕ → List A → List A
  resize a zero xs = []
  resize a (suc n) [] = a ∷ resize a n []
  resize a (suc n) (x ∷ xs) = x ∷ resize a n xs

module _ {ℓ} {A : Type ℓ} where
  pub length-append : (xs ys : List A) → length (xs ++ ys) ≡ length xs + length ys
  length-append [] ys = omega arith
  length-append (x ∷ xs) ys = omega (arith, length-append xs ys)

  pub nil_of_length : (xs : List A) → length xs ≡ 0 → xs ≡ []
  nil_of_length [] h = refl
  nil_of_length (x ∷ xs) h = absurd (omega arith)

  pub take-append-drop : (n : ℕ) (xs : List A) → take n xs ++ drop n xs ≡ xs
  take-append-drop zero xs = refl
  take-append-drop (suc n) [] = refl
  take-append-drop (suc n) (x ∷ xs) = ap (◌∷◌ x) (take-append-drop n xs)

  pub length-take : (n : ℕ) (xs : List A) → length (take n xs) ≡ min n (length xs)
  length-take zero xs = omega arith
  length-take (suc n) [] = omega arith
  length-take (suc n) (x ∷ xs) = omega (arith, length-take n xs)

  pub length-drop : (n : ℕ) (xs : List A) → length (drop n xs) ≡ length xs - n
  length-drop zero xs = omega arith
  length-drop (suc n) [] = omega arith
  length-drop (suc n) (x ∷ xs) = omega (arith, length-drop n xs)

  pub length-replicate : (n : ℕ) (a : A) → length (replicate n a) ≡ n
  length-replicate zero a = refl
  length-replicate (suc n) a = ap suc (length-replicate n a)

  pub take_all : (n : ℕ) (xs : List A) → length xs ≤ n → take n xs ≡ xs
  take_all zero [] h = refl
  take_all zero (x ∷ xs) h = absurd (omega arith)
  take_all (suc n) [] h = refl
  take_all (suc n) (x ∷ xs) h = ap (◌∷◌ x) (take_all n xs (omega arith))

  pub drop_all : (n : ℕ) (xs : List A) → length xs ≤ n → drop n xs ≡ []
  drop_all zero [] h = refl
  drop_all zero (x ∷ xs) h = absurd (omega arith)
  drop_all (suc n) [] h = refl
  drop_all (suc n) (x ∷ xs) h = drop_all n xs (omega arith)

  pub drop-drop : (n m : ℕ) (xs : List A) → drop n (drop m xs) ≡ drop (m + n) xs
  drop-drop n zero xs = ap (λ k. drop k xs) (omega arith)
  drop-drop n (suc m) [] = drop_all n [] (omega arith) ∙ sym (drop_all (suc m + n) [] (omega arith))
  drop-drop n (suc m) (x ∷ xs) =
      let e : suc (m + n) ≡ suc m + n = omega arith in
      drop-drop n m xs ∙ ap (λ k. drop k (x ∷ xs)) e

  pub drop-append : (n : ℕ) (xs ys : List A) → n ≤ length xs → drop n (xs ++ ys) ≡ drop n xs ++ ys
  drop-append zero xs ys h = refl
  drop-append (suc n) [] ys h = absurd (omega arith)
  drop-append (suc n) (x ∷ xs) ys h = drop-append n xs ys (omega arith)

  pub take-append : (n : ℕ) (xs ys : List A) → n ≤ length xs → take n (xs ++ ys) ≡ take n xs
  take-append zero xs ys h = refl
  take-append (suc n) [] ys h = absurd (omega arith)
  take-append (suc n) (x ∷ xs) ys h = ap (◌∷◌ x) (take-append n xs ys (omega arith))

  -- The elements from `r` to `w`, cut in either order.
  pub take-drop : (n r : ℕ) (xs : List A) → take n (drop r xs) ≡ drop r (take (r + n) xs)
  take-drop n zero xs = ap (λ k. take k xs) (omega arith)
  take-drop n (suc r) [] = ground (arith, take_all n [], take_all (suc r + n) [])
  take-drop n (suc r) (x ∷ xs) =
      let e : suc (r + n) ≡ suc r + n = omega arith in
      take-drop n r xs ∙ ap (λ k. drop (suc r) (take k (x ∷ xs))) e

  pub length-overwrite :
      (xs : List A) (p : ℕ) (ds : List A) → length (overwrite xs p ds) ≡ length xs
  length-overwrite [] p ds = refl
  length-overwrite (x ∷ xs) zero [] = refl
  length-overwrite (x ∷ xs) zero (d ∷ ds) = ap suc (length-overwrite xs zero ds)
  length-overwrite (x ∷ xs) (suc p) ds = ap suc (length-overwrite xs p ds)

  -- Up to the end of what was written, the list is its old prefix and the data.
  pub take-overwrite :
      (xs : List A) (p : ℕ) (ds : List A)
      → p + length ds ≤ length xs
      → take (p + length ds) (overwrite xs p ds) ≡ take p xs ++ ds
  take-overwrite [] p ds h = ground arith
  take-overwrite (x ∷ xs) zero [] h = refl
  take-overwrite (x ∷ xs) zero (d ∷ ds) h =
      let e : zero + suc (length ds) ≡ suc (zero + length ds) = omega arith in
      ap (λ k. take k (d ∷ overwrite xs zero ds)) e
      ∙ ap (◌∷◌ d) (take-overwrite xs zero ds (omega arith))
  take-overwrite (x ∷ xs) (suc p) ds h =
      let e : suc p + length ds ≡ suc (p + length ds) = omega arith in
      ap (λ k. take k (x ∷ overwrite xs p ds)) e ∙ ap (◌∷◌ x) (take-overwrite xs p ds (omega arith))

  pub take-overwrite_before :
      (xs : List A) (p : ℕ) (ds : List A) → take p (overwrite xs p ds) ≡ take p xs
  take-overwrite_before [] p ds = refl
  take-overwrite_before (x ∷ xs) zero ds = refl
  take-overwrite_before (x ∷ xs) (suc p) ds = ap (◌∷◌ x) (take-overwrite_before xs p ds)

  pub length-resize : (a : A) (n : ℕ) (xs : List A) → length (resize a n xs) ≡ n
  length-resize a zero xs = refl
  length-resize a (suc n) [] = ap suc (length-resize a n [])
  length-resize a (suc n) (x ∷ xs) = ap suc (length-resize a n xs)

  pub take-resize :
      (a : A) (n k : ℕ) (xs : List A) → k ≤ n → k ≤ length xs → take k (resize a n xs) ≡ take k xs
  take-resize a n zero xs h h' = refl
  take-resize a n (suc k) [] h h' = absurd (omega arith)
  take-resize a zero (suc k) (x ∷ xs) h h' = absurd (omega arith)
  take-resize a (suc n) (suc k) (x ∷ xs) h h' =
      ap (◌∷◌ x) (take-resize a n k xs (omega arith) (omega arith))

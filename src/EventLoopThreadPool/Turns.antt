-- ===== src/EventLoopThreadPool/Turns.antt =====
-- The threads of a pool take turns.
use native.Mathlib.Nat.{mod-add-mod, mod-lt, mod-eq_of_lt, mod-eq-sub-mod}
use libasio.Prelude.{
  ok-injective, ap, ℕ, zero, suc, ◌+◌, ◌-◌, ◌%◌, ◌≤◌, ◌<◌, ◌≡◌, refl, sym, false, ◌⊎◌, ◌>>=◌, ◌∙◌,
  List, [], ◌∷◌, some, Result, ok, Bool-cases, inl, inr, ltb, ◌==◌, length, get_elem?, word,
  add_word, arith,
}
use libasio.EventLoopThreadPool.{Pool, Turn, thread, take_turn}

-- A sum below `2 n`, taken modulo `n`.
mod_twice : (a n : ℕ) → a < n + n → (a < n → a % n ≡ a) × (n ≤ a → a % n ≡ a - n)
mod_twice a n h = (λ l. mod-eq_of_lt l, λ g. mod-eq-sub-mod g ∙ mod-eq_of_lt (omega arith))

-- The sum of `s` and `k` modulo `n`, from the remainder of `s`.
mod_from : (s n k : ℕ) → k < n → ((s + k) % n ≡ s % n + k) ⊎ ((s + k) % n + n ≡ s % n + k)
mod_from s n k h =
    let r : s % n < n = mod-lt s (omega arith) in
    let (small, large) = mod_twice (s % n + k) n (omega arith) in
    elim (Bool-cases (ltb (s % n + k) n)) [
      | inl l ↦ inl (sym (mod-add-mod s n k) ∙ small (ground arith))
      | inr g ↦
          let b : n ≤ s % n + k = ground arith in
          let e : (s + k) % n ≡ s % n + k - n = sym (mod-add-mod s n k) ∙ large b in
          inr (omega arith)
    ]

-- Counting `n` numbers on from `s`, modulo `n`, meets each number below `n` exactly once.
turn_of :
    (s n i : ℕ)
    → i < n
    → (j : ℕ) × (j < n) × ((s + j) % n ≡ i) × ((k : ℕ) → k < n → (s + k) % n ≡ i → k ≡ j)
turn_of s n i h =
    let r : s % n < n = mod-lt s (omega arith) in
    elim (Bool-cases (ltb i (s % n))) [
      | inl before ↦
          let b : i < s % n = ground arith in
          let m = mod_from s n (n - s % n + i) (omega arith) in
          (
            n - s % n + i,
            omega arith,
            omega (arith, m, mod-lt (s + (n - s % n + i)) {m = n} (omega arith)),
            λ k hk e. omega (arith, mod_from s n k hk),
          )
      | inr behind ↦
          let b : s % n ≤ i = ground arith in
          let m = mod_from s n (i - s % n) (omega arith) in
          (
            i - s % n,
            omega arith,
            omega (arith, m, mod-lt (s + (i - s % n)) {m = n} (omega arith)),
            λ k hk e. omega (arith, mod_from s n k hk),
          )
    ]

get_elem?-in_range :
    {A : Type 0} (xs : List A) (i : ℕ) → i < length xs → (x : A) × (get_elem? xs i ≡ some x)
get_elem?-in_range [] i h = elim h [ ]
get_elem?-in_range (x ∷ xs) zero h = (x, refl)
get_elem?-in_range (x ∷ xs) (suc i) h = get_elem?-in_range xs i (omega arith)

thread-injective : {i j : ℕ} → thread i ≡ thread j → i ≡ j
thread-injective e = cc

module _ {F : Type 0} where
  -- A turn never leaves the threads, whatever the counter is, and moves it on by one.
  pub take_turn-in_range :
      (p : Pool F)
      → 0 < length p.threads
      → (take_turn p
          ≡ ok (thread (p.next % length p.threads), record p { next = add_word p.next 1 }))
        × (p.next % length p.threads < length p.threads)
  unfolding take_turn
  take_turn-in_range p h =
      let r : p.next % length p.threads < length p.threads = mod-lt p.next h in
      let (t, e) = get_elem?-in_range p.threads (p.next % length p.threads) r in
      let z : (length p.threads == 0) ≡ false = ground arith in (simp (z, e), r)

  -- The turn after `j` others.
  pub nth_turn : ℕ → Pool F → Result Turn
  nth_turn zero p = do (t, p') ← take_turn p; ok t
  nth_turn (suc j) p = do (t, p') ← take_turn p; nth_turn j p'

  nth_turn-lem :
      (j : ℕ) (p : Pool F)
      → 0 < length p.threads
      → p.next + j < word
      → nth_turn j p ≡ ok (thread ((p.next + j) % length p.threads))
  unfolding nth_turn
  nth_turn-lem zero p h b =
      let e : p.next ≡ p.next + 0 = omega arith in
      simp ((take_turn-in_range p h).0) (ap (λ k. ok (thread (k % length p.threads))) e)
  nth_turn-lem (suc j) p h b =
      let q : Pool F = record p { next = add_word p.next 1 } in
      let s : add_word p.next 1 + j ≡ p.next + suc j = omega arith in
      simp ((take_turn-in_range p h).0)
        (nth_turn-lem j q h (omega arith) ∙ ap (λ k. ok (thread (k % length p.threads))) s)

  -- Of as many turns in a row as there are threads, each thread has exactly one, if the counter does
  -- not wrap meanwhile.
  pub turns_are_fair :
      (p : Pool F) (i : ℕ)
      → i < length p.threads
      → p.next + length p.threads ≤ word
      → (j : ℕ) × (j < length p.threads)
        × (nth_turn j p ≡ ok (thread i))
        × ((k : ℕ) → k < length p.threads → nth_turn k p ≡ ok (thread i) → k ≡ j)
  turns_are_fair p i h b =
      let (j, l, e, unique) = turn_of p.next (length p.threads) i h in
      (
        j,
        l,
        nth_turn-lem j p (omega arith) (omega arith) ∙ ap (λ m. ok (thread m)) e,
        λ k hk t. unique k hk (
            thread-injective
              (ok-injective (sym (nth_turn-lem k p (omega arith) (omega arith)) ∙ t))),
      )

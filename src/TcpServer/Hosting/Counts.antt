-- ===== src/TcpServer/Hosting/Counts.antt =====
-- Counting the connections of a table (`conns_` of src/tcp_server.h) and of the tasks that are due.
use libasio.Prelude.{
  ℕ, zero, suc, ◌+◌, ◌-◌, ◌≤◌, ◌<◌, ◌≡◌, ◌⊎◌, refl, true, Bool-cases, inl, inr, List, [], ◌∷◌, ◌++◌,
  replicate, none, some, ◌==◌, if◌then◌else◌, arith,
}
use libasio.TcpServer.{conn_name, lookup}
use libasio.TcpServer.Control.{is_empty}
use libasio.TcpServer.Conns.{table, remove_id, AllBelow, str_eq-conn_name}

-- How often a number is in a list.
abbrev pub count : ℕ → List ℕ → ℕ
count i [] = 0
count i (j ∷ ids) = (if j == i then 1 else 0) + count i ids

pub count-append : (i : ℕ) (xs ys : List ℕ) → count i (xs ++ ys) ≡ count i xs + count i ys
count-append i [] ys = omega arith
count-append i (x ∷ xs) ys = omega (arith, count-append i xs ys)

pub count-replicate : (i j k : ℕ) → count j (replicate k i) ≡ (if i == j then k else 0)
count-replicate i j zero = ground arith
count-replicate i j (suc k) = ground (arith, count-replicate i j k)

pub count-remove_id :
    (i j : ℕ) (ids : List ℕ)
    → count j (remove_id i ids) ≡ (if i == j then count j ids - 1 else count j ids)
unfolding remove_id
count-remove_id i j [] = ground arith
count-remove_id i j (x ∷ ids) = ground (arith, count-remove_id i j ids)

pub count-AllBelow : (b i : ℕ) (ids : List ℕ) → AllBelow b ids → b ≤ i → count i ids ≡ 0
count-AllBelow b i [] h l = refl
count-AllBelow b i (x ∷ ids) h l = ground (arith, count-AllBelow b i ids h.1)

pub AllBelow-append :
    (b : ℕ) (xs ys : List ℕ) → AllBelow b xs → AllBelow b ys → AllBelow b (xs ++ ys)
AllBelow-append b [] ys h k = k
AllBelow-append b (x ∷ xs) ys h k = (h.0, AllBelow-append b xs ys h.1 k)

pub AllBelow-replicate : (b i k : ℕ) → i < b → AllBelow b (replicate k i)
AllBelow-replicate b i zero h = tt
AllBelow-replicate b i (suc k) h = (h, AllBelow-replicate b i k h)

pub AllBelow-more : (b : ℕ) (ids : List ℕ) → AllBelow b ids → AllBelow (b + 1) ids
AllBelow-more b [] h = tt
AllBelow-more b (i ∷ ids) h = (omega arith, AllBelow-more b ids h.1)

-- Of one connection: how often it is in the table, how many of its removals are due, and how often
-- its close callback was called.
pub record Accounted (live due calls : ℕ) : Type 0 where
  pub once : live ≤ 1
  pub called : due ≤ calls
  pub kept : 1 ≤ calls + live
  pub leaving : (calls ≡ 0) ⊎ (live ≤ due)

-- New calls leave as many tasks.
pub Accounted-acts :
    {live due calls : ℕ} (k : ℕ) → Accounted live due calls → Accounted live (due + k) (calls + k)
Accounted-acts zero a = record {
  once = a.once;
  called = omega (arith, a.called);
  kept = omega (arith, a.kept);
  leaving = ground (arith, a.leaving);
}
Accounted-acts (suc k) a = record {
  once = a.once;
  called = omega (arith, a.called);
  kept = omega (arith, a.kept);
  leaving = inr (omega (arith, a.once));
}

-- A task takes the connection out of the table, if it is there.
pub Accounted-removes :
    {live due calls : ℕ} → Accounted live (suc due) calls → Accounted (live - 1) due calls
Accounted-removes a = record {
  once = omega (arith, a.once);
  called = omega (arith, a.called);
  kept = omega (arith, a.called);
  leaving = inr (omega (arith, a.once));
}

pub lookup-table :
    (n : List ℕ) (i : ℕ) (ids : List ℕ)
    → lookup (conn_name n i) (table n ids) ≡ (if count i ids == 0 then none else some i)
unfolding lookup table
lookup-table n i [] = refl
lookup-table n i (j ∷ ids) = elim (Bool-cases (j == i)) [
  | inl e ↦ let p : j ≡ i = ground arith in rw (str_eq-conn_name n j i, e) (ground (arith))
  | inr d ↦
      let c : 0 + count i ids ≡ count i ids = omega arith in
      rw (str_eq-conn_name n j i, d, c) (lookup-table n i ids)
]

-- With no removal due, a connection is in the table exactly if its close callback was not called.
pub shown_open :
    (i live due calls : ℕ)
    → due ≡ 0
    → Accounted live due calls
    → (if live == 0 then none else some i) ≡ (if calls == 0 then some i else none)
shown_open i live due calls d a = ground (arith, a.once, a.kept, a.leaving)

pub not_live : {live due calls : ℕ} → Accounted live due calls → due ≡ 0 → 0 < calls → live ≡ 0
not_live a d c = ground (arith, a.leaving)

pub is_empty-table :
    (name : List ℕ) (b : ℕ) (ids : List ℕ)
    → AllBelow b ids
    → ((i : ℕ) → i < b → count i ids ≡ 0)
    → is_empty (table name ids) ≡ true
unfolding is_empty table
is_empty-table name b [] h none_is = refl
is_empty-table name b (i ∷ ids) h none_is = ground (arith, none_is i h.0)

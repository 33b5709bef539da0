-- ===== src/TcpServer/Conns.antt =====
-- The server's table holds exactly the connections that were accepted and not removed.
use libasio.Prelude.{
  ℕ, ◌+◌, ◌≡◌, ◌≢◌, ◌<◌, refl, sym, ap, ◌∙◌, false, Bool-cases, inl, inr, List, [], ◌∷◌, ◌++◌, ◌==◌,
  if◌then◌else◌, word, length, map, arith,
}
use libasio.EventLoopThreadPool.{Turn}
use libasio.TcpServer.{
  Server, ConnectionMap, make, insert, erase, str_eq, conn_name, add_conn, remove_conn,
}
use libasio.TcpServer.Names.{str_eq_refl, str_eq→eq, conn_name-injective}

-- Comparing the names of two connections is comparing their numbers.
pub str_eq-conn_name : (n : List ℕ) (i j : ℕ) → str_eq (conn_name n i) (conn_name n j) ≡ (i == j)
str_eq-conn_name n i j = elim (Bool-cases (i == j)) [
  | inl e ↦ let p : i ≡ j = ground arith in rw (e, p) (str_eq_refl (conn_name n j))
  | inr d ↦
      let p : i ≢ j = ground arith in
      elim (Bool-cases (str_eq (conn_name n i) (conn_name n j))) [
        | inl s ↦ absurd (p (conn_name-injective n (str_eq→eq _ _ s)))
        | inr s ↦ s ∙ sym d
      ]
]

-- The connections `ids`, by name.
unfoldable pub table : List ℕ → List ℕ → ConnectionMap
table n [] = []
table n (i ∷ ids) = (conn_name n i, i) ∷ table n ids

-- The connections of a table.
abbrev pub ids_of : ConnectionMap → List ℕ
ids_of m = map (λ e. e.1) m

pub ids_of-table : (n : List ℕ) (ids : List ℕ) → ids_of (table n ids) ≡ ids
unfolding table
ids_of-table n [] = refl
ids_of-table n (i ∷ ids) = ap (◌∷◌ i) (ids_of-table n ids)

unfoldable pub remove_id : ℕ → List ℕ → List ℕ
remove_id i [] = []
remove_id i (j ∷ ids) = if j == i then ids else j ∷ remove_id i ids

abbrev pub AllBelow : ℕ → List ℕ → Type 0
AllBelow b [] = Unit {0}
AllBelow b (i ∷ ids) = (i < b) × AllBelow b ids

pub insert-table :
    (n : List ℕ) (b : ℕ) (ids : List ℕ)
    → AllBelow b ids
    → insert (conn_name n b) b (table n ids) ≡ table n (ids ++ b ∷ [])
unfolding insert table
insert-table n b [] h = refl
insert-table n b (i ∷ ids) h =
    let d : (i == b) ≡ false = ground arith in
    rw (str_eq-conn_name n i b, d) (ap (◌∷◌ (conn_name n i, i)) (insert-table n b ids h.1))

pub erase-table :
    (n : List ℕ) (i : ℕ) (ids : List ℕ)
    → erase (conn_name n i) (table n ids) ≡ table n (remove_id i ids)
unfolding erase table remove_id
erase-table n i [] = refl
erase-table n i (j ∷ ids) = elim (Bool-cases (j == i)) [
  | inl e ↦ rw (str_eq-conn_name n j i, e)
  | inr d ↦ rw (str_eq-conn_name n j i, d) (ap (◌∷◌ (conn_name n j, j)) (erase-table n i ids))
]

AllBelow-mono : (b : ℕ) (ids : List ℕ) → AllBelow b ids → AllBelow (b + 1) ids
AllBelow-mono b [] h = tt
AllBelow-mono b (i ∷ ids) h = (omega arith, AllBelow-mono b ids h.1)

pub AllBelow-snoc : (b : ℕ) (ids : List ℕ) → AllBelow b ids → AllBelow (b + 1) (ids ++ b ∷ [])
AllBelow-snoc b [] h = omega arith
AllBelow-snoc b (i ∷ ids) h = (omega arith, AllBelow-snoc b ids h.1)

pub AllBelow-remove_id : (b i : ℕ) (ids : List ℕ) → AllBelow b ids → AllBelow b (remove_id i ids)
unfolding remove_id
AllBelow-remove_id b i [] h = tt
AllBelow-remove_id b i (j ∷ ids) h = ground (arith, AllBelow-remove_id b i ids h.1)

-- What the acceptor and the connections make the server do.
pub data Event : Type 0 where
  opened : Turn → Event  -- a socket was accepted for that loop, and its connection constructed
  removed : ℕ → Event  -- `RemoveConn` of that connection

module _ {F : Type 0} where
  pub step : Event → Server F → Server F
  step (opened t) s = add_conn t s
  step (removed i) s = remove_conn (conn_name s.name i) s

  pub run : List Event → Server F → Server F
  run [] s = s
  run (e ∷ es) s = run es (step e s)

-- The same history of numbers alone: the next one, and those that are there.
unfoldable pub run_ids : List Event → ℕ → List ℕ → ℕ × List ℕ
run_ids [] b ids = (b, ids)
run_ids (opened t ∷ es) b ids = run_ids es (b + 1) (ids ++ b ∷ [])
run_ids (removed i ∷ es) b ids = run_ids es b (remove_id i ids)

module _ {F : Type 0} where
  run-table :
      (es : List Event) (b : ℕ) (s : Server F) (ids : List ℕ)
      → b + length es < word
      → s.next_conn_id ≡ b
      → AllBelow b ids
      → s.conns ≡ table s.name ids
      → let (b', live) = run_ids es b ids in
        ((run es s).conns ≡ table s.name live) × ((run es s).next_conn_id ≡ b') × AllBelow b' live
  unfolding run run_ids step add_conn remove_conn
  run-table [] b s ids w n h e = (e, n, h)
  run-table (opened t ∷ es) b s ids w n h e =
      run-table es (b + 1) (add_conn t s) (ids ++ b ∷ []) (omega arith) (omega arith)
        (AllBelow-snoc b ids h) (simp (n, e) (insert-table s.name b ids h))
  run-table (removed i ∷ es) b s ids w n h e =
      run-table es b (remove_conn (conn_name s.name i) s) (remove_id i ids) (omega arith) n
        (AllBelow-remove_id b i ids h) (simp e (erase-table s.name i ids))

-- After any history of accepts that return and of removals of a new server, fewer than the counter can
-- number, its table holds the connections that were accepted and not removed since, each under its
-- own name, and the counter is the number of accepts.
pub conns_are_live :
    (F : Type 0) (es : List Event) (name : List ℕ) (thread_num : ℕ)
    → length es < word
    → let (b, live) = run_ids es 0 [] in
      let s = run es (make {F = F} name thread_num) in
      (s.conns ≡ table name live) × (s.next_conn_id ≡ b) × AllBelow b live
unfolding make table
conns_are_live F es name k w = run-table es 0 (make name k) [] (omega arith) refl tt refl

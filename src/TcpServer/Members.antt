-- ===== src/TcpServer/Members.antt =====
-- The connections of a server (`conns_` of src/tcp_server.h) as a bag, which forgets the order of
-- `std::unordered_map`, and the order in which accepts and removals came.
use mathlib.Core.Quot
use mathlib.Core.Quot.{Quot}
use libasio.Prelude.{
  ℕ, suc, ◌+◌, ◌≤◌, ◌<◌, ◌≡◌, ap, ap₂, sym, ◌∙◌, Bool, true, false, ◌&&◌, ◌||◌, List, [], ◌∷◌, ◌++◌,
  ltb, ◌==◌, if◌then◌else◌, length, word, arith,
}
use libasio.TcpServer.{Server, make, conn_name, lookup}
use libasio.TcpServer.Conns.{
  Event, opened, removed, run, run_ids, remove_id, conns_are_live, ids_of, ids_of-table,
}
use libasio.TcpServer.Hosting.Counts.{count, count-append, count-remove_id, lookup-table}

abbrev pub SameMembers : List ℕ → List ℕ → Type 0
SameMembers xs ys = (i : ℕ) → count i xs ≡ count i ys

abbrev pub Members : Type 0
Members = Quot SameMembers

-- How many sockets a history accepts, and whether it removes a connection.
unfoldable pub opens : List Event → ℕ
opens [] = 0
opens (opened t ∷ es) = suc (opens es)
opens (removed i ∷ es) = opens es

unfoldable pub removes : ℕ → List Event → Bool
removes i [] = false
removes i (opened t ∷ es) = removes i es
removes i (removed j ∷ es) = (j == i) || removes i es

-- `RemoveConn` runs for connections that were accepted, of which there are `b` at first.
unfoldable pub orderly : (b : ℕ) → List Event → Bool
orderly b [] = true
orderly b (opened t ∷ es) = orderly (b + 1) es
orderly b (removed i ∷ es) = ltb i b && orderly b es

-- How often a connection is there after a history that starts with `c` times.
abbrev left : (c b i : ℕ) → List Event → ℕ
left c b i es =
    if removes i es then 0 else if ltb i b then c else if ltb i (b + opens es) then 1 else 0

count-run_ids :
    (es : List Event) (b i : ℕ) (ids : List ℕ)
    → orderly b es ≡ true
    → count i ids ≤ (if ltb i b then 1 else 0)
    → count i (run_ids es b ids).1 ≡ left (count i ids) b i es
unfolding run_ids opens removes orderly
count-run_ids [] b i ids o h = ground (arith, h)
count-run_ids (opened t ∷ es) b i ids o h =
    let k = count-append i ids (b ∷ []) in
    let rest = count-run_ids es (b + 1) i (ids ++ b ∷ []) o (ground (arith, h, k)) in
    ground (arith, rest, k, h)
count-run_ids (removed j ∷ es) b i ids o h =
    let k = count-remove_id j i ids in
    let rest = count-run_ids es b i (remove_id j ids) (ground (arith, o)) (ground (arith, h, k)) in
    ground (arith, rest, k, h, o)

run_ids-next : (es : List Event) (b : ℕ) (ids : List ℕ) → (run_ids es b ids).0 ≡ b + opens es
unfolding run_ids opens
run_ids-next [] b ids = omega arith
run_ids-next (opened t ∷ es) b ids = omega (arith, run_ids-next es (b + 1) (ids ++ b ∷ []))
run_ids-next (removed i ∷ es) b ids = run_ids-next es b (remove_id i ids)

module _ {F : Type 0} where
  -- The connections of the table, in no order.
  unfoldable pub members : Server F → Members
  members s = Quot.mk (ids_of s.conns)

run-members :
    (F : Type 0) (es : List Event) (name : List ℕ) (thread_num : ℕ)
    → length es < word
    → members (run es (make {F = F} name thread_num)) ≡ Quot.mk (run_ids es 0 []).1
unfolding members
run-members F es name n w =
    ap Quot.mk (ap ids_of (conns_are_live F es name n w).0 ∙ ids_of-table name (run_ids es 0 []).1)

-- Two histories of accepts that return and of removals of a new server, fewer events than the counter
-- can number, and each removal of a connection that was accepted before: if they accept as many sockets and
-- remove the same connections, then in whatever order that came, the server has the same
-- connections, finds the same of them by their names, and gives the next one the same number.
pub order_forgotten :
    (F : Type 0) (es es' : List Event) (name : List ℕ) (thread_num : ℕ)
    → length es < word
    → length es' < word
    → orderly 0 es ≡ true
    → orderly 0 es' ≡ true
    → opens es ≡ opens es'
    → ((i : ℕ) → removes i es ≡ removes i es')
    → let s = run es (make {F = F} name thread_num) in
      let s' = run es' (make {F = F} name thread_num) in
      (members s ≡ members s')
      × ((i : ℕ) → lookup (conn_name name i) s.conns ≡ lookup (conn_name name i) s'.conns)
      × (s.next_conn_id ≡ s'.next_conn_id)
order_forgotten F es es' name n w w' o o' e r =
    let (c, k, _) = conns_are_live F es name n w in
    let (c', k', _) = conns_are_live F es' name n w' in
    let same : (i : ℕ) → count i (run_ids es 0 []).1 ≡ count i (run_ids es' 0 []).1 = λ i.
      count-run_ids es 0 i [] o (ground arith)
      ∙ (ap₂ (λ g m. if g then 0 else if ltb i 0 then 0 else if ltb i (0 + m) then 1 else 0) (r i) e
          ∙ sym (count-run_ids es' 0 i [] o' (ground arith))) in
    (
      run-members F es name n w ∙ (Quot.sound same ∙ sym (run-members F es' name n w')),
      λ i. simp (c, c', lookup-table, same i),
      k ∙ (run_ids-next es 0 [] ∙ (ap (λ m. 0 + m) e ∙ sym (run_ids-next es' 0 []))) ∙ sym k',
    )

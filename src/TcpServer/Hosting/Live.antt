-- ===== src/TcpServer/Hosting/Live.antt =====
-- The server's table against the connections themselves.
use libasio.Prelude.{
  ok-injective, ℕ, suc, ◌+◌, ◌-◌, ◌<◌, ◌≡◌, refl, ap, ◌∙◌, true, Bool-cases, inl, inr, List, [],
  ◌∷◌, ◌++◌, replicate, none, some, ◌==◌, if◌then◌else◌, word, arith,
}
use libasio.TcpConn
use libasio.TcpConn.Types.{Endpoint, Conn, Callbacks}
use libasio.TcpConn.Socket.{Socket}
use libasio.TcpConn.Closing.{close_calls}
use libasio.EventLoopThreadPool.{Turn}
use libasio.TcpServer
use libasio.TcpServer.{
  Server, conn_name, lookup, insert, erase, add_conn, handle_new_conn, remove_conn,
}
use libasio.TcpServer.Control.{is_empty}
use libasio.TcpServer.Conns.{
  table, remove_id, AllBelow, insert-table, erase-table, AllBelow-snoc, AllBelow-remove_id,
}
use libasio.TcpServer.Hosting.{
  House, accepted_conn, place_conn, accepts, acts, removes, Reach, start, later, open_house,
}
use libasio.TcpServer.Hosting.Counts.{
  count, count-append, count-replicate, count-remove_id, count-AllBelow, AllBelow-append,
  AllBelow-replicate, AllBelow-more, Accounted, Accounted-acts, Accounted-removes, lookup-table,
  shown_open, not_live, is_empty-table,
}

module _ {F : Type 0} where
  -- `n` connections were accepted, and `live` are in the table.
  pub record Kept (name : List ℕ) (n : ℕ) (live : List ℕ) (h : House F) : Type 0 where
    pub named : h.server.name ≡ name
    pub next : h.server.next_conn_id ≡ n
    pub tabled : h.server.conns ≡ table name live
    pub live_below : AllBelow n live
    pub due_below : AllBelow n h.due
    pub each :
        (i : ℕ) → i < n → Accounted (count i live) (count i h.due) (close_calls (h.conn i).trace)

  accepted_conn-calls :
      (l r : Endpoint) (s : Server F) → close_calls (accepted_conn l r s).trace ≡ 0
  unfolding accepted_conn TcpConn.make TcpConn.set_close_callback TcpConn.set_conn_callback
      TcpConn.set_message_callback
  accepted_conn-calls l r s = refl

  accepts-Kept :
      (t : Turn) (l r : Endpoint) (name : List ℕ) (n : ℕ) (live : List ℕ) (h : House F)
      → n + 1 < word
      → Kept name n live h
      → Kept name (n + 1) (live ++ n ∷ []) (record h {
        server = add_conn t h.server;
        conn = place_conn h.server.next_conn_id (accepted_conn l r h.server) h.conn;
      })
  unfolding add_conn
  accepts-Kept t l r name n live h w k = record {
    named = k.named;
    next = omega (arith, k.next);
    tabled =
        ap (λ m. insert (conn_name m h.server.next_conn_id) h.server.next_conn_id h.server.conns)
          k.named
        ∙ (ap (λ j. insert (conn_name name j) j h.server.conns) k.next
            ∙ (ap (insert (conn_name name n) n) k.tabled ∙ insert-table name n live k.live_below));
    live_below = AllBelow-snoc n live k.live_below;
    due_below = AllBelow-more n h.due k.due_below;
    each = λ i b. elim (Bool-cases (h.server.next_conn_id == i)) [
      | inl same ↦
          let e : i ≡ n = ground (arith, k.next) in
          rw (same, accepted_conn-calls l r h.server)
            (record {
              once =
                  ground
                    (arith, count-append i live (n ∷ []), count-AllBelow n i live k.live_below);
              called = ground (arith, count-AllBelow n i h.due k.due_below);
              kept = ground (arith, count-append i live (n ∷ []));
              leaving = inl refl;
            })
      | inr apart ↦
          let a = k.each i (ground (arith, k.next)) in
          let c : count i (live ++ n ∷ []) ≡ count i live =
            ground (arith, count-append i live (n ∷ []), k.next) in
          rw (apart, c) a
    ];
  }

  acts-Kept :
      (i c : ℕ) (d : Conn) (name : List ℕ) (n : ℕ) (live : List ℕ) (h : House F)
      → i < n
      → close_calls d.trace ≡ close_calls (h.conn i).trace + c
      → Kept name n live h
      → Kept name n live (record h { conn = place_conn i d h.conn; due = h.due ++ replicate c i })
  acts-Kept i c d name n live h b e k = record {
    named = k.named;
    next = k.next;
    tabled = k.tabled;
    live_below = k.live_below;
    due_below = AllBelow-append n h.due (replicate c i) k.due_below (AllBelow-replicate n i c b);
    each = λ j l.
        let a = k.each j l in
        let q : count j (h.due ++ replicate c i) ≡ count j h.due + (if i == j then c else 0) =
          ground (arith, count-append j h.due (replicate c i), count-replicate i j c) in
        elim (Bool-cases (i == j)) [
          | inl same ↦
              let p : i ≡ j = ground arith in
              let e' = e ∙ ap (λ x. close_calls (h.conn x).trace + c) p in
              let q' : count j (h.due ++ replicate c i) ≡ count j h.due + c = ground (arith, q) in
              rw (same, q', e') (Accounted-acts c a)
          | inr apart ↦
              let r : count j (h.due ++ replicate c i) ≡ count j h.due = ground (arith, q) in
              rw (apart, r) a
        ];
  }

  removes-Kept :
      (i : ℕ) (rest : List ℕ) (name : List ℕ) (n : ℕ) (live : List ℕ) (h : House F)
      → h.due ≡ i ∷ rest
      → Kept name n live h
      → Kept name n
          (remove_id i live)
          (record h { server = remove_conn (conn_name h.server.name i) h.server; due = rest })
  unfolding remove_conn
  removes-Kept i rest name n live h e k = record {
    named = k.named;
    next = k.next;
    tabled =
        ap (λ m. erase (conn_name m i) h.server.conns) k.named
        ∙ (ap (erase (conn_name name i)) k.tabled ∙ erase-table name i live);
    live_below = AllBelow-remove_id n i live k.live_below;
    due_below = (rw e at k.due_below).1;
    each = λ j l.
        let a = k.each j l in
        let q : count j h.due ≡ (if i == j then 1 else 0) + count j rest = ap (count j) e in
        elim (Bool-cases (i == j)) [
          | inl same ↦
              let q' : count j h.due ≡ suc (count j rest) = ground (arith, q) in
              let c : count j (remove_id i live) ≡ count j live - 1 =
                ground (arith, count-remove_id i j live) in
              rw c (Accounted-removes (rw q' at a))
          | inr apart ↦
              let q' : count j h.due ≡ count j rest = ground (arith, q) in
              let c : count j (remove_id i live) ≡ count j live =
                ground (arith, count-remove_id i j live) in
              rw c (rw q' at a)
        ];
  }

module _ {F : Type 0} (sock : Socket) (app : Callbacks) where
  -- How many connections were accepted.
  unfoldable pub accepted_in : {h h' : House F} → Reach sock app h h' → ℕ
  accepted_in start = 0
  accepted_in (later r (accepts t l r' e)) = accepted_in r + 1
  accepted_in (later r (acts i e k b f a s c)) = accepted_in r
  accepted_in (later r (removes i rest e)) = accepted_in r

  module _ (name : List ℕ) (thread_num : ℕ) (conn : ℕ → Conn) where
    Reach-Kept :
        {h : House F} (run : Reach sock app (open_house F name thread_num conn) h)
        → accepted_in run < word
        → (live : List ℕ) × Kept name (accepted_in run) live h
    unfolding accepted_in TcpServer.make table handle_new_conn TcpConn.construct
    Reach-Kept start w = (
      [],
      record {
        named = refl;
        next = refl;
        tabled = refl;
        live_below = tt;
        due_below = tt;
        each = λ i b. absurd (omega arith);
      },
    )
    Reach-Kept (later {h' = h} r (accepts t l r' e)) w =
        let (live, k) = Reach-Kept r (omega arith) in
        (
          live ++ accepted_in r ∷ [],
          rw (← ok-injective e) (accepts-Kept t l r' name (accepted_in r) live h w k),
        )
    Reach-Kept (later {h' = h} r (acts i e c b f a s q)) w =
        let (live, k) = Reach-Kept r w in
        (live, acts-Kept i c _ name (accepted_in r) live h (omega (arith, k.next)) q k)
    Reach-Kept (later {h' = h} r (removes i rest e)) w =
        let (live, k) = Reach-Kept r w in (_, removes-Kept i rest name (accepted_in r) live h e k)

    -- A server and its connections, after any sequence of accepts that return, of events of the
    -- connections and of tasks of the listening loop, fewer accepts than the counter can number, with
    -- an application that leaves the close callback alone: if no removal of an accepted connection is
    -- due, then the table has it, under its name, exactly if its close callback was never called.
    pub table_is_open :
        {h : House F} (run : Reach sock app (open_house F name thread_num conn) h) (i : ℕ)
        → accepted_in run < word
        → i < accepted_in run
        → count i h.due ≡ 0
        → lookup (conn_name name i) h.server.conns
          ≡ (if close_calls (h.conn i).trace == 0 then some i else none)
    table_is_open {h} run i w b d =
        let (live, k) = Reach-Kept run w in
        let a = k.each i b in
        ap (lookup (conn_name name i)) k.tabled
        ∙ (lookup-table name i live ∙ shown_open i (count i live) _ _ d a)

    -- If the close callback of every connection that was accepted has been called, and its tasks have
    -- run, the table is empty, as the destructor asserts.
    table_empties :
        {h : House F} (run : Reach sock app (open_house F name thread_num conn) h)
        → accepted_in run < word
        → h.due ≡ []
        → ((i : ℕ) → i < accepted_in run → 0 < close_calls (h.conn i).trace)
        → is_empty h.server.conns ≡ true
    table_empties {h} run w d all =
        let (live, k) = Reach-Kept run w in
        ap is_empty k.tabled
        ∙ is_empty-table name (accepted_in run) live k.live_below
            (λ i b. not_live (k.each i b) (ap (count i) d) (all i b))

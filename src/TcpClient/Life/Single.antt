-- ===== src/TcpClient/Life/Single.antt =====
-- A client (src/tcp_client.cc) that was asked to connect once does one thing at a time.
use native.Mathlib.Decide.{dec_lt}
use libasio.Prelude.{
  ℕ, ◌+◌, ◌<◌, ◌≤◌, ◌≡◌, ◌⊎◌, Bool, true, false, Bool-cases, inl, inr, List, Option, some, ◌==◌,
  if◌then◌else◌, ok, ok-injective, subst, sym, ◌∙◌, arith,
}
use libasio.TcpConn.Types.{Callbacks}
use libasio.TcpConn.Socket.{Socket}
use libasio.TcpClient
use libasio.TcpClient.{
  Client, reconnect, connect, connect_done, connect_failed, on_remove_conn, on_remove_held,
  disconnect_in_loop, set_auto_reconnect, set_conn_callback, set_conn_of, set_message_callback,
}
use libasio.TcpClient.Retries.{tries, waits}
use libasio.TcpClient.Life.Steps.{
  connect_done-lem, held_one, released, on_remove_held-lem, Freed, released-Freed,
  disconnect_in_loop-lem, set-lem, connect_failed-lem,
}
use libasio.TcpClient.Life.{
  Life, dialing, waiting, held_count, held_id, begin, set, Move, dialed, refused, expired, notified,
  disconnects, sets, Reach, start, later,
}

-- An attempt runs, or a timer, or a connection is held, or none of it; and a connection that has not
-- notified its end is the one that is held.
pub record One (s : Life) : Type 0 where
  pub completions : s.completed ≤ tries s.client.trace
  pub expiries : s.fired ≤ waits s.client.trace
  pub single : dialing s + waiting s + held_count s.client.conn ≤ 1
  pub numbered :
      (id : ℕ) → id < s.client.next_id → s.gone id ≡ false → held_id s.client.conn ≡ some id

-- A call that asks for nothing and leaves the number of the connection.
kept :
    (s : Life) (t : Client)
    → t.trace ≡ s.client.trace
    → t.next_id ≡ s.client.next_id
    → held_id t.conn ≡ held_id s.client.conn
    → held_count t.conn ≡ held_count s.client.conn
    → One s
    → One (record s { client = t })
kept s t a b c d i = record {
  completions = rw a i.completions;
  expiries = rw a i.expiries;
  single = rw (a, d) i.single;
  numbered = λ id l g. c ∙ i.numbered id (omega (arith, l, b)) g;
}

-- Where nothing is held, no connection is left to notify.
none_left :
    (s : Life) (id : ℕ)
    → One s
    → held_count s.client.conn ≡ 0
    → id < s.client.next_id
    → s.gone id ≡ false
    → ⊥
none_left s id i z l g =
    let one = held_one s.client.conn id (i.numbered id l g) in omega (arith, one, z)

dialed-One :
    (s : Life) (t : Client)
    → 0 < dialing s
    → t.trace ≡ s.client.trace
    → ((t.conn ≡ s.client.conn) × (t.next_id ≡ s.client.next_id))
      ⊎ ((held_id t.conn ≡ some s.client.next_id) × (t.next_id ≡ s.client.next_id + 1))
    → One s
    → One (record s { client = t; completed = s.completed + 1 })
dialed-One s t d a (inl (c, n)) i = record {
  completions = rw a (omega (arith, d));
  expiries = rw a i.expiries;
  single = rw (a, c) (omega (arith, d, i.single));
  numbered = λ id l g. rw c (i.numbered id (omega (arith, l, n)) g);
}
dialed-One s t d a (inr (c, n)) i = record {
  completions = rw a (omega (arith, d));
  expiries = rw a i.expiries;
  single = rw (a, held_one t.conn _ c) (omega (arith, d, i.single));
  numbered = λ id l g. elim (dec_lt id s.client.next_id) [
    | yes old ↦ absurd (none_left s id i (omega (arith, d, i.single)) old g)
    | no new ↦ let e : id ≡ s.client.next_id = omega (arith, l, n, new) in rw e c
  ];
}

notified-One :
    (s : Life) (id : ℕ) (t : Client)
    → id < s.client.next_id
    → s.gone id ≡ false
    → Freed s.client t
    → One s
    → One (record s { client = t; gone = λ i. if i == id then true else s.gone i })
notified-One s id t l g f i =
    let was = i.numbered id l g in
    record {
      completions = omega (arith, i.completions, f.tries_on);
      expiries = omega (arith, i.expiries, f.no_wait);
      single = rw (f.empty) (
          omega (
            arith,
            i.single,
            i.completions,
            held_one s.client.conn id was,
            f.no_wait,
            f.at_most_once,
          ));
      numbered = λ j k h. elim (Bool-cases (j == id)) [
        | inl y ↦ cc (rw y at h)
        | inr n ↦
            let now = i.numbered j (omega (arith, k, f.no_number)) (rw n at h) in
            ground (arith, now, was)
      ];
    }

module _ (sock : Socket) (app : Callbacks) (remove_fn : ℕ) where
  Move-One : {s s' : Life} → Move sock app remove_fn s s' → One s → One s'
  unfolding reconnect connect tries waits on_remove_conn
  Move-One {s} (dialed ends {t} d e) i =
      let (a, c) = connect_done-lem sock app remove_fn ends s.client e in dialed-One s t d a c i
  Move-One {s} (refused d) i =
      let (a, b, c, u, v) = connect_failed-lem s.client in
      record {
        completions = omega (arith, d, c);
        expiries = omega (arith, i.expiries, u);
        single = rw a (omega (arith, d, i.single, i.expiries, c, u, v));
        numbered = λ id l g. rw a (i.numbered id (omega (arith, l, b)) g);
      }
  Move-One {s} (expired w) i = record {
    completions = omega (arith, i.completions);
    expiries = omega (arith, w);
    single = omega (arith, w, i.single, i.completions);
    numbered = i.numbered;
  }
  Move-One {s} (notified id {t} l g e) i =
      let q =
        ok-injective (sym (on_remove_held-lem id s.client.conn s.client (i.numbered id l g)) ∙ e) in
      notified-One s id t l g (subst (Freed s.client) q (released-Freed s.client)) i
  Move-One {s} (disconnects {t} e) i =
      let (a, b, c, d) = disconnect_in_loop-lem s.client e in kept s t a b c d i
  Move-One {s} (sets x) i =
      let (a, b, c, d) = set-lem x s.client in kept s (set x s.client) a b c d i

  pub Reach-One : {s s' : Life} → Reach sock app remove_fn s s' → One s → One s'
  Reach-One start i = i
  Reach-One (later r m) i = Move-One m (Reach-One r i)

pub begin-One :
    (a : List ℕ) (p : ℕ) (n : List ℕ) (auto : Bool) (cb mb : Option ℕ)
    → One (begin a p n auto cb mb)
unfolding TcpClient.make connect set_auto_reconnect set_conn_callback set_conn_of
    set_message_callback tries waits
begin-One a p n auto cb mb = record {
  completions = omega arith;
  expiries = omega arith;
  single = omega arith;
  numbered = λ id l g. absurd (omega (arith, l));
}

module _ (sock : Socket) (app : Callbacks) (remove_fn : ℕ) where
  -- A client that was asked to connect once, and whose connections notify their end at most once each:
  -- after any sequence of completions, timers, notices, disconnections that return and settings, at
  -- most one attempt runs, or one timer, or one connection is held, and never two of these.
  pub one_at_a_time :
      (a : List ℕ) (p : ℕ) (n : List ℕ) (auto : Bool) (cb mb : Option ℕ) {s : Life}
      → Reach sock app remove_fn (begin a p n auto cb mb) s
      → dialing s + waiting s + held_count s.client.conn ≤ 1
  one_at_a_time a p n auto cb mb r =
      (Reach-One sock app remove_fn r (begin-One a p n auto cb mb)).single

  -- With such a client, after such a sequence, a connection that has not notified its end is the one
  -- that the client holds, and its notice returns.
  pub notice_in_life :
      (a : List ℕ) (p : ℕ) (n : List ℕ) (auto : Bool) (cb mb : Option ℕ) (id : ℕ) {s : Life}
      → Reach sock app remove_fn (begin a p n auto cb mb) s
      → id < s.client.next_id
      → s.gone id ≡ false
      → (held_id s.client.conn ≡ some id) × (t : Client) × (on_remove_conn id s.client ≡ ok t)
  unfolding on_remove_conn
  notice_in_life a p n auto cb mb id {s} r l g =
      let i = Reach-One sock app remove_fn r (begin-One a p n auto cb mb) in
      let h = i.numbered id l g in
      (h, released s.client, on_remove_held-lem id s.client.conn s.client h)

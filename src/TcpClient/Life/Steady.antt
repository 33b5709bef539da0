-- ===== src/TcpClient/Life/Steady.antt =====
-- A client (src/tcp_client.cc) that is to reconnect does not come to rest before it gives up.
use libasio.Prelude.{
  ℕ, ◌+◌, ◌<◌, ◌≤◌, ◌≡◌, ◌⊎◌, refl, Bool, true, false, ◌&&◌, Bool-cases, inl, inr, List, [], Option,
  ltb, ◌==◌, if◌then◌else◌, ok, ok-injective, sym, subst, ◌∙◌, arith,
}
use libasio.TcpConn.Types.{Callbacks, Ends}
use libasio.TcpConn.Socket.{Socket}
use libasio.TcpClient
use libasio.TcpClient.{
  Client, default_max_reconnect_time, reconnect, connect, connect_done, connect_failed,
  on_remove_conn, handle_conn, hold_conn, new_conn, set_auto_reconnect, set_conn_callback,
  set_conn_of, set_message_callback,
}
use libasio.TcpClient.Retries.{tries, waits}
use libasio.TcpClient.Life.Steps.{
  hold_conn-lem, held_one, set_conn_of-lem, on_remove_held-lem, released,
}
use libasio.TcpClient.Life.Single.{One, Reach-One, begin-One}
use libasio.TcpClient.Life.{
  Life, dialing, waiting, held_count, begin, set, Setting, auto_reconnect, conn_callback,
  message_callback, dialed, refused, expired, notified, disconnects, sets, Reach, start, later,
}

-- What is under way.
abbrev pub under_way : Life → ℕ
under_way s = dialing s + waiting s + held_count s.client.conn

-- A client that reconnects, and has something under way or has tried as often as it may.
record Steady (s : Life) : Type 0 where
  auto : s.client.auto_reconnect ≡ true
  busy : (1 ≤ under_way s) ⊎ (default_max_reconnect_time ≤ s.client.reconnecting_times)

-- A setting that leaves `SetAutoReconnect(true)` as it is.
unfoldable pub keeps_auto : Setting → Bool
keeps_auto (auto_reconnect v) = v
keeps_auto (conn_callback cb) = true
keeps_auto (message_callback cb) = true

module _ (sock : Socket) (app : Callbacks) (remove_fn : ℕ) where
  -- Nobody told the client to disconnect or not to reconnect.
  unfoldable pub steady : {s s' : Life} → Reach sock app remove_fn s s' → Bool
  steady start = true
  steady (later r (dialed ends d e)) = steady r
  steady (later r (refused d)) = steady r
  steady (later r (expired w)) = steady r
  steady (later r (notified id l g e)) = steady r
  steady (later r (disconnects e)) = false
  steady (later r (sets x)) = keeps_auto x && steady r

  dialed-holds :
      (ends : Ends) (t : Client) {t' : Client}
      → sock.is_open [] ≡ true
      → connect_done sock app remove_fn ends t ≡ ok t'
      → (held_count t'.conn ≡ 1) × (t'.auto_reconnect ≡ t.auto_reconnect)
  unfolding connect_done handle_conn
  dialed-holds ends t {t'} o e =
      let (a, b, c, d) =
        hold_conn-lem sock app remove_fn ends (record t { reconnecting_times = 0 }) (simp o at e) in
      (held_one t'.conn t.next_id b, d)

  refused-Steady :
      (s : Life)
      → 0 < dialing s
      → One s
      → Steady s
      → Steady (record s { client = connect_failed s.client; completed = s.completed + 1 })
  unfolding connect_failed tries waits
  refused-Steady s d i v = elim (Bool-cases (ltb s.client.reconnecting_times 5)) [
    | inl l ↦ record {
      auto = rw (v.auto, l) refl;
      busy = rw (v.auto, l) (inl (omega (arith, i.expiries)));
    }
    | inr l ↦ record { auto = rw (v.auto, l) refl; busy = rw (v.auto, l) (inr (ground (arith, l))) }
  ]

  notified-Steady :
      (s : Life) (g : ℕ → Bool)
      → One s
      → Steady s
      → Steady (record s { client = released s.client; gone = g })
  unfolding reconnect connect tries waits
  notified-Steady s g i v = record {
    auto = rw (v.auto) refl;
    busy = rw (v.auto) (inl (omega (arith, i.completions)));
  }

  sets-Steady :
      (s : Life) (x : Setting)
      → keeps_auto x ≡ true
      → Steady s
      → Steady (record s { client = set x s.client })
  unfolding keeps_auto set_auto_reconnect set_conn_callback set_message_callback set_conn_of
  sets-Steady s (auto_reconnect v) k i = record { auto = k; busy = i.busy }
  sets-Steady s (conn_callback cb) k i = record {
    auto = i.auto;
    busy = rw ((set_conn_of-lem cb s.client.conn).1) i.busy;
  }
  sets-Steady s (message_callback cb) k i = record { auto = i.auto; busy = i.busy }

  Reach-Steady :
      {s s' : Life} (r : Reach sock app remove_fn s s')
      → sock.is_open [] ≡ true
      → steady r ≡ true
      → One s
      → Steady s
      → Steady s'
  unfolding steady reconnect connect tries waits on_remove_conn
  Reach-Steady start o k i v = v
  Reach-Steady (later {s' = s₁} r (dialed ends d e)) o k i v =
      let j = Reach-Steady r o k i v in
      let (h, a) = dialed-holds ends s₁.client o e in
      record { auto = a ∙ j.auto; busy = inl (omega (arith, h)) }
  Reach-Steady (later {s' = s₁} r (refused d)) o k i v =
      refused-Steady s₁ d (Reach-One sock app remove_fn r i) (Reach-Steady r o k i v)
  Reach-Steady (later {s' = s₁} r (expired w)) o k i v =
      let one = Reach-One sock app remove_fn r i in
      let j = Reach-Steady r o k i v in
      record { auto = j.auto; busy = inl (omega (arith, one.completions)) }
  Reach-Steady (later {s' = s₁} r (notified id {t} l g e)) o k i v =
      let one = Reach-One sock app remove_fn r i in
      let q =
        ok-injective
          (sym (on_remove_held-lem id s₁.client.conn s₁.client (one.numbered id l g)) ∙ e) in
      subst
        (λ t. Steady (record s₁ { client = t; gone = λ i. if i == id then true else s₁.gone i })) q
        (notified-Steady s₁ _ one (Reach-Steady r o k i v))
  Reach-Steady (later r (disconnects e)) o k i v = cc
  Reach-Steady (later {s' = s₁} r (sets x)) o k i v =
      sets-Steady s₁ x (ground (arith, k)) (Reach-Steady r o (ground (arith, k)) i v)

  -- A client that reconnects, was asked to connect once, and whose connections notify their end at
  -- most once each: if the sockets that it connects are open, and nobody tells it to disconnect or
  -- not to reconnect, then after any sequence of completions, timers, notices and settings it does
  -- exactly one thing, an attempt, a timer or a connection that it holds, or it does nothing and has
  -- tried again as often as it may.
  pub never_idle :
      (a : List ℕ) (p : ℕ) (n : List ℕ) (cb mb : Option ℕ) {s : Life}
      (r : Reach sock app remove_fn (begin a p n true cb mb) s)
      → sock.is_open [] ≡ true
      → steady r ≡ true
      → (under_way s ≡ 1)
        ⊎ ((under_way s ≡ 0) × (default_max_reconnect_time ≤ s.client.reconnecting_times))
  unfolding TcpClient.make connect set_auto_reconnect set_conn_callback set_conn_of
      set_message_callback tries waits
  never_idle a p n cb mb {s} r o k =
      let i = begin-One a p n true cb mb in
      let v = Reach-Steady r o k i (record { auto = refl; busy = inl (omega arith) }) in
      let one = Reach-One sock app remove_fn r i in
      elim (Bool-cases (under_way s == 0)) [
        | inl z ↦ ground (arith, z, v.busy)
        | inr z ↦ ground (arith, z, one.single)
      ]

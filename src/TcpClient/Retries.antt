-- ===== src/TcpClient/Retries.antt =====
-- How often a client tries: while the server refuses it, and when it was told to disconnect.
use libasio.Prelude.{
  ℕ, zero, suc, ◌+◌, ◌<◌, ◌≡◌, refl, true, false, Bool-cases, inl, inr, List, [], ◌∷◌, ltb,
  if◌then◌else◌, ok, arith, none, some,
}
use libasio.TcpConn.Types.{Conn, Callbacks, Endpoint}
use libasio.TcpConn.Socket.{Socket}
use libasio.TcpClient.Attach.{handle_conn-holds}
use libasio.TcpClient.{
  Client, Held, Action, async_connect, async_wait, default_max_reconnect_time, connect, reconnect,
  connect_failed, disconnect_in_loop, close_held, connect_done,
}

-- The attempts to connect, and the waits for the timer, in a list of actions.
unfoldable pub tries : List Action → ℕ
tries [] = 0
tries (async_connect a p ∷ t) = 1 + tries t
tries (async_wait n ∷ t) = tries t

unfoldable pub waits : List Action → ℕ
waits [] = 0
waits (async_connect a p ∷ t) = waits t
waits (async_wait n ∷ t) = 1 + waits t

-- A server that refuses so many attempts in a row, the first of which is running. If a refusal sets
-- the timer, the timer fires and the next attempt runs.
unfoldable pub refused : ℕ → Client → Client
refused zero t = t
refused (suc n) t =
    let t' = connect_failed t in
    let rest = refused n (reconnect t') in if ltb (waits t.trace) (waits t'.trace) then rest else t'

-- The client has given up: the timer is not set again.
pub record GaveUp (t : Client) (more : ℕ) (t' : Client) : Type 0 where
  pub last_time : t'.reconnecting_times ≡ default_max_reconnect_time
  pub all_tries : tries t'.trace ≡ tries t.trace + more
  pub all_waits : waits t'.trace ≡ waits t.trace + more
  pub no_timer : connect_failed t' ≡ t'

abbrev waiting : Client → Client
waiting t = record t { trace = async_wait t.reconnect_interval ∷ t.trace }

connect_failed-waits :
    (t : Client)
    → t.auto_reconnect ≡ true
    → t.reconnecting_times < default_max_reconnect_time
    → connect_failed t ≡ waiting t
unfolding connect_failed
connect_failed-waits t a h =
    let b : ltb t.reconnecting_times default_max_reconnect_time ≡ true = ground arith in simp (a, b)

connect_failed-stops :
    (t : Client) → t.reconnecting_times ≡ default_max_reconnect_time → connect_failed t ≡ t
unfolding connect_failed
connect_failed-stops t h =
    let b : ltb t.reconnecting_times default_max_reconnect_time ≡ false = ground arith in
    elim (Bool-cases t.auto_reconnect) [ inl a ↦ simp (a, b) | inr a ↦ simp (a, b) ]

refused-stops :
    (n : ℕ) (t : Client) → t.reconnecting_times ≡ default_max_reconnect_time → refused (suc n) t ≡ t
unfolding refused
refused-stops n t h =
    let b : ltb (waits t.trace) (waits t.trace) ≡ false = ground arith in
    simp (connect_failed-stops t h, b)

refused-waits :
    (n : ℕ) (t : Client)
    → t.auto_reconnect ≡ true
    → t.reconnecting_times < default_max_reconnect_time
    → refused (suc n) t ≡ refused n (reconnect (waiting t))
unfolding refused waits
refused-waits n t a h =
    let b : ltb (waits t.trace) (1 + waits t.trace) ≡ true = ground arith in
    simp (connect_failed-waits t a h, b)

-- A client that reconnects, and whose attempts are all refused, tries again until it has tried five
-- times in a row, and then gives up with no timer set.
pub refused-GaveUp :
    (n k : ℕ) (t : Client)
    → t.auto_reconnect ≡ true
    → t.reconnecting_times + k ≡ default_max_reconnect_time
    → k < n
    → GaveUp t k (refused n t)
unfolding tries waits reconnect connect
refused-GaveUp zero k t a e h = absurd (omega arith)
refused-GaveUp (suc n) zero t a e h =
    let d : t.reconnecting_times ≡ default_max_reconnect_time = omega arith in
    rw (refused-stops n t d) (record {
      last_time = d;
      all_tries = omega arith;
      all_waits = omega arith;
      no_timer = connect_failed-stops t d;
    })
refused-GaveUp (suc n) (suc k) t a e h =
    let ih = refused-GaveUp n k (reconnect (waiting t)) a (omega arith) (omega arith) in
    rw (refused-waits n t a (omega arith)) (record {
      last_time = ih.last_time;
      all_tries = omega (arith, ih.all_tries);
      all_waits = omega (arith, ih.all_waits);
      no_timer = ih.no_timer;
    })

module _ (sock : Socket) (app : Callbacks) (remove_fn : ℕ) (l r : Endpoint) where
  -- A client that reconnects, has tries left and holds no connection, and whose attempt is refused,
  -- sets the timer; `DisconnectInLoop` then returns and turns reconnecting off, but does not stop the
  -- timer: when it fires the client starts another attempt all the same, and if that succeeds, with an
  -- open socket that tells its ends and a callback that returns, it holds a connection again, with
  -- reconnecting still off.
  pub disconnect-overtaken :
      (t : Client) (f : ℕ)
      → t.auto_reconnect ≡ true
      → t.reconnecting_times < default_max_reconnect_time
      → t.conn ≡ none
      → t.conn_fn ≡ some f
      → sock.is_open [] ≡ true
      → ((c : Conn) → (c' : Conn) × (app.on_conn f c ≡ ok c'))
      → (t₁ t₂ : Client) × (h : Held) × (disconnect_in_loop (connect_failed t) ≡ ok t₁)
        × (t₁.trace ≡ async_wait t.reconnect_interval ∷ t.trace)
        × ((reconnect t₁).trace ≡ async_connect t.remote_addr t.remote_port ∷ t₁.trace)
        × (connect_done sock app remove_fn (some (l, r)) (reconnect t₁) ≡ ok t₂)
        × (t₂.conn ≡ some h)
        × (t₂.auto_reconnect ≡ false)
  unfolding disconnect_in_loop connect_done close_held reconnect connect
  disconnect-overtaken t f a n e cf o returns =
      let t₁ : Client = record (waiting t) { auto_reconnect = false; conn = none } in
      let (c, h) =
        handle_conn-holds sock app remove_fn l r (record (reconnect t₁) { reconnecting_times = 0 })
          f cf o returns in
      let held : Held = record { id = t.next_id; conn = c } in
      (t₁, _, held, simp (connect_failed-waits t a n, e), refl, refl, h, refl, refl)

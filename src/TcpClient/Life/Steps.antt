-- ===== src/TcpClient/Life/Steps.antt =====
-- What each operation of a `TCPClient` (src/tcp_client.cc) makes of its attempts, timers and connection.
use libasio.Prelude.{
  ℕ, ◌+◌, ◌≤◌, ◌≡◌, ◌⊎◌, refl, true, Bool-cases, inl, inr, [], Option, none, some, ◌==◌, ◌&&◌,
  if◌then◌else◌, not, ok, ok-injective, returned, arith,
}
use libasio.TcpConn.Types.{Ends, Callbacks}
use libasio.TcpConn.Socket.{Socket}
use libasio.TcpConn
use libasio.TcpConn.{is_disconnected, is_disconnecting}
use libasio.TcpConn.Handlers.{on_attached_to_loop}
use libasio.TcpClient.{
  Client, Held, reconnect, connect, connect_done, connect_failed, on_remove_held,
  disconnect_in_loop, close_held, handle_conn, hold_conn, new_conn, report_closed, report_unopened,
  set_auto_reconnect, set_conn_callback, set_conn_of, set_message_callback,
}
use libasio.TcpClient.Retries.{tries, waits}
use libasio.TcpClient.Life.{
  held_count, held_id, Setting, auto_reconnect, conn_callback, message_callback, set,
}

module _ (sock : Socket) (app : Callbacks) (remove_fn : ℕ) where
  -- What a socket that is open makes of a client.
  pub hold_conn-lem :
      (ends : Ends) (t : Client) {t' : Client}
      → hold_conn sock app remove_fn ends t ≡ ok t'
      → (t'.trace ≡ t.trace)
        × (held_id t'.conn ≡ some t.next_id)
        × (t'.next_id ≡ t.next_id + 1)
        × (t'.auto_reconnect ≡ t.auto_reconnect)
  unfolding hold_conn
  hold_conn-lem ends t e =
      let (made, m, e') = returned (TcpConn.construct t.name ends []) _ e in
      let (c, h, q) =
        returned (on_attached_to_loop sock app true (new_conn sock app remove_fn t made)) _ e' in
      rw (← ok-injective q) (refl, refl, refl, refl)

  -- What a successful attempt makes of a client: the same, or one that holds a new connection.
  pub connect_done-lem :
      (ends : Ends) (t : Client) {t' : Client}
      → connect_done sock app remove_fn ends t ≡ ok t'
      → (t'.trace ≡ t.trace)
        × (((t'.conn ≡ t.conn) × (t'.next_id ≡ t.next_id))
            ⊎ ((held_id t'.conn ≡ some t.next_id) × (t'.next_id ≡ t.next_id + 1)))
  unfolding connect_done handle_conn report_closed
  connect_done-lem ends t e = elim (Bool-cases (sock.is_open [])) [
    | inl o ↦
        let (a, b, c, d) = hold_conn-lem ends (record t { reconnecting_times = 0 }) (simp o at e) in
        (a, inr (b, c))
    | inr shut ↦
        let (made, m, e') = returned (TcpConn.construct t.name ends []) _ (simp shut at e) in
        let (c, h, q) = returned (report_unopened sock app remove_fn t.conn_fn made) _ e' in
        rw (← ok-injective q) (refl, inl (refl, refl))
  ]

pub held_one : (h : Option Held) (i : ℕ) → held_id h ≡ some i → held_count h ≡ 1
held_one none i e = cc
held_one (some h) i e = refl

held_none : (h : Option Held) → held_count h ≡ 0 → h ≡ none
held_none none e = refl
held_none (some h) e = absurd (omega (arith, e))

-- The client without its connection, which tries again at once or not.
abbrev pub released : Client → Client
released t =
    if t.auto_reconnect then reconnect (record t { conn = none }) else record t { conn = none }

pub on_remove_held-lem :
    (id : ℕ) (h : Option Held) (t : Client)
    → held_id h ≡ some id
    → on_remove_held id h t ≡ ok (released t)
unfolding on_remove_held
on_remove_held-lem id none t e = cc
on_remove_held-lem id (some h) t e = let z : (id == h.id) ≡ true = ground arith in rw z refl

close_held-lem :
    (h h' : Option Held)
    → close_held h ≡ ok h'
    → (held_id h' ≡ held_id h) × (held_count h' ≡ held_count h)
unfolding close_held
close_held-lem none h' e = rw (← ok-injective e) (refl, refl)
close_held-lem (some h) h' e =
    elim (Bool-cases (not (is_disconnected h.conn) && not (is_disconnecting h.conn))) [
      | inl b ↦ let q = ok-injective (rw b at e) in rw (← q) (refl, refl)
      | inr b ↦ cc (rw b at e)
    ]

pub set_conn_of-lem :
    (cb : Option ℕ) (h : Option Held)
    → (held_id (set_conn_of cb h) ≡ held_id h) × (held_count (set_conn_of cb h) ≡ held_count h)
unfolding set_conn_of
set_conn_of-lem cb none = (refl, refl)
set_conn_of-lem cb (some h) = (refl, refl)

-- What that makes of a client.
pub record Freed (t t' : Client) : Type 0 where
  pub empty : t'.conn ≡ none
  pub no_number : t'.next_id ≡ t.next_id
  pub no_wait : waits t'.trace ≡ waits t.trace
  pub tries_on : tries t.trace ≤ tries t'.trace
  pub at_most_once : tries t'.trace ≤ tries t.trace + 1

pub released-Freed : (t : Client) → Freed t (released t)
unfolding reconnect connect tries waits
released-Freed t = ground arith

pub disconnect_in_loop-lem :
    (t : Client) {t' : Client}
    → disconnect_in_loop t ≡ ok t'
    → (t'.trace ≡ t.trace)
      × (t'.next_id ≡ t.next_id)
      × (held_id t'.conn ≡ held_id t.conn)
      × (held_count t'.conn ≡ held_count t.conn)
unfolding disconnect_in_loop
disconnect_in_loop-lem t e =
    let (h, c, q) = returned (close_held t.conn) _ e in
    let (a, b) = close_held-lem t.conn h c in rw (← ok-injective q) (refl, refl, a, b)

pub set-lem :
    (x : Setting) (t : Client)
    → ((set x t).trace ≡ t.trace)
      × ((set x t).next_id ≡ t.next_id)
      × (held_id (set x t).conn ≡ held_id t.conn)
      × (held_count (set x t).conn ≡ held_count t.conn)
unfolding set_auto_reconnect set_conn_callback set_message_callback
set-lem (auto_reconnect v) t = (refl, refl, refl, refl)
set-lem (conn_callback cb) t = let (a, b) = set_conn_of-lem cb t.conn in (refl, refl, a, b)
set-lem (message_callback cb) t = (refl, refl, refl, refl)

pub connect_failed-lem :
    (t : Client)
    → ((connect_failed t).conn ≡ t.conn)
      × ((connect_failed t).next_id ≡ t.next_id)
      × (tries (connect_failed t).trace ≡ tries t.trace)
      × (waits t.trace ≤ waits (connect_failed t).trace)
      × (waits (connect_failed t).trace ≤ waits t.trace + 1)
unfolding connect_failed tries waits
connect_failed-lem t = ground arith

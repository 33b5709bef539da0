-- ===== src/TcpConn/Closing.antt =====
-- How a connection ends: `HandleClose`, `HandleError` and the failed completions.
use libasio.Prelude.{
  subst, ◌⊎◌, ℕ, ◌+◌, ◌≡◌, ◌≢◌, refl, sym, ap, ◌∙◌, true, false, Bool-cases, List, [], ◌∷◌, Option,
  none, some, inl, inr, ok, ok-injective, returned, arith,
}
use libasio.TcpConn.Types.{
  Action, call_close, Status, disconnected, ErrorCode, success, eof, other, Conn, Callbacks,
}
use libasio.TcpConn.Socket.{Socket}
use libasio.TcpConn.{status_eq}
use libasio.TcpConn.Handlers.{
  notify_conn, notify_close, close_if_open, close_and_notify, handle_close, handle_error,
  handle_read, handle_write,
}
use libasio.TcpConn.Stream.{Keeps}
use libasio.TcpConn.Stream.Close.{is_open-close_if_open}

abbrev pub IsClosed : Socket → Conn → Type 0
IsClosed sock c = sock.is_open c.trace ≡ false

pub status_eq-disconnected : (s : Status) → status_eq s disconnected ≡ true → s ≡ disconnected
status_eq-disconnected s h = ground arith

-- How often the close callback was called.
abbrev pub close_calls : List Action → ℕ
close_calls [] = 0
close_calls (call_close s ∷ t) = close_calls t + 1
close_calls (_ ∷ t) = close_calls t

-- Callbacks that leave the close callback in place. They cannot call it: it is the connection's.
pub record Quiet (app : Callbacks) : Type 0 where
  pub conn :
      (f : ℕ) {c c' : Conn}
      → app.on_conn f c ≡ ok c'
      → (c'.close_fn ≡ c.close_fn) × (close_calls c'.trace ≡ close_calls c.trace)
  pub close :
      (f : ℕ) {c c' : Conn}
      → app.on_close f c ≡ ok c'
      → (c'.close_fn ≡ c.close_fn) × (close_calls c'.trace ≡ close_calls c.trace)

module _ (sock : Socket) (app : Callbacks) where
  notify_conn-IsClosed :
      (f : Option ℕ) (c : Conn) {c' : Conn}
      → Keeps app (IsClosed sock)
      → notify_conn sock app f c ≡ ok c'
      → IsClosed sock c
      → IsClosed sock c'
  unfolding notify_conn
  notify_conn-IsClosed none c k e h = let q = ok-injective e in rw (← q) h
  notify_conn-IsClosed (some f) c k e h = k.conn f e (sock.is_open-other _ c.trace refl ∙ h)

  notify_close-IsClosed :
      (f : Option ℕ) (c : Conn) {c' : Conn}
      → Keeps app (IsClosed sock)
      → notify_close sock app f c ≡ ok c'
      → IsClosed sock c
      → IsClosed sock c'
  unfolding notify_close
  notify_close-IsClosed none c k e h = let q = ok-injective e in rw (← q) h
  notify_close-IsClosed (some f) c k e h = k.close f e (sock.is_open-other _ c.trace refl ∙ h)

  close_and_notify-IsClosed :
      (c : Conn) {c' : Conn}
      → Keeps app (IsClosed sock)
      → close_and_notify sock app c ≡ ok c'
      → (c'.status ≡ disconnected) × IsClosed sock c'
  unfolding close_and_notify
  close_and_notify-IsClosed c k e =
      let (c₂, e₂, r) = returned (notify_conn sock app _ _) _ e in
      let (c₃, e₃, r') = returned (notify_close sock app c₂.close_fn c₂) _ r in
      let q = ok-injective r' in
      rw (← q) (
        refl,
        notify_close-IsClosed c₂.close_fn c₂ k e₃
            (notify_conn-IsClosed _ _ k e₂ (is_open-close_if_open sock app c)),
      )

  -- `HandleClose` on a connection that is not disconnected closes the socket and ends as
  -- disconnected; on one that is, it does nothing.
  handle_close-IsClosed :
      {c c' : Conn}
      → Keeps app (IsClosed sock)
      → handle_close sock app true c ≡ ok c'
      → (c'.status ≡ disconnected)
        × (c.status ≢ disconnected → IsClosed sock c')
        × (c.status ≡ disconnected → c' ≡ c)
  unfolding handle_close
  handle_close-IsClosed {c} k e = elim (Bool-cases (status_eq c.status disconnected)) [
    | inl d ↦
        let s = status_eq-disconnected c.status d in
        let q = ok-injective (simp d at e) in
        (ap (λ x. x.status) (sym q) ∙ s, λ n. absurd (n s), λ _. sym q)
    | inr n ↦
        let r = close_and_notify-IsClosed c k (simp n at e) in (r.0, λ _. r.1, λ s. ground arith)
  ]

  -- `HandleError` does all of it, whatever the status was.
  handle_error-IsClosed :
      (c : Conn) {c' : Conn}
      → Keeps app (IsClosed sock)
      → handle_error sock app true c ≡ ok c'
      → (c'.status ≡ disconnected) × IsClosed sock c'
  unfolding handle_error handle_close
  handle_error-IsClosed c k e = close_and_notify-IsClosed _ k e

  notify_conn-Quiet :
      (f : Option ℕ) (c : Conn) {c' : Conn}
      → Quiet app
      → notify_conn sock app f c ≡ ok c'
      → (c'.close_fn ≡ c.close_fn) × (close_calls c'.trace ≡ close_calls c.trace)
  unfolding notify_conn
  notify_conn-Quiet none c q e = let r = ok-injective e in rw (← r) (refl, refl)
  notify_conn-Quiet (some f) c q e = q.conn f e

  notify_close-counts :
      (c : Conn) (f : ℕ) {c' : Conn}
      → Quiet app
      → notify_close sock app (some f) c ≡ ok c'
      → (c'.close_fn ≡ c.close_fn) × (close_calls c'.trace ≡ close_calls c.trace + 1)
  unfolding notify_close
  notify_close-counts c f q e = q.close f e

  close_if_open-Quiet :
      (c : Conn)
      → ((close_if_open sock app c).close_fn ≡ c.close_fn)
        × (close_calls (close_if_open sock app c).trace ≡ close_calls c.trace)
  unfolding close_if_open
  close_if_open-Quiet c = elim (Bool-cases (sock.is_open c.trace)) [
    | inl o ↦ rw o (refl, refl)
    | inr o ↦ rw o (refl, refl)
  ]

  close_calls-close_and_notify :
      (c : Conn) {c' : Conn} (f : ℕ)
      → Quiet app
      → c.close_fn ≡ some f
      → close_and_notify sock app c ≡ ok c'
      → (c'.close_fn ≡ some f) × (close_calls c'.trace ≡ close_calls c.trace + 1)
  unfolding close_and_notify
  close_calls-close_and_notify c {c'} f q h e =
      let (c₂, e₂, r) = returned (notify_conn sock app _ _) _ e in
      let (c₃, e₃, r') = returned (notify_close sock app c₂.close_fn c₂) _ r in
      let (fn₁, n₁) = close_if_open-Quiet c in
      let (fn₂, n₂) = notify_conn-Quiet _ _ q e₂ in
      let set : c₂.close_fn ≡ some f = fn₂ ∙ fn₁ ∙ h in
      let called : notify_close sock app (some f) c₂ ≡ ok c₃ =
        subst (λ g. notify_close sock app g c₂ ≡ ok c₃) set e₃ in
      let (fn₃, n₃) = notify_close-counts c₂ f q called in
      let w = ok-injective r' in rw (← w) (fn₃ ∙ set, omega (arith, n₁, n₂, n₃))

  -- Closing a connection without a close callback calls none.
  pub close_calls-close_and_notify-none :
      (c : Conn) {c' : Conn}
      → Quiet app
      → c.close_fn ≡ none
      → close_and_notify sock app c ≡ ok c'
      → close_calls c'.trace ≡ close_calls c.trace
  unfolding close_and_notify notify_close
  close_calls-close_and_notify-none c {c'} q h e =
      let (c₂, e₂, r) = returned (notify_conn sock app _ _) _ e in
      let (fn₁, n₁) = close_if_open-Quiet c in
      let (fn₂, n₂) = notify_conn-Quiet _ _ q e₂ in
      let (c₃, e₃, r') = returned (notify_close sock app c₂.close_fn c₂) _ r in
      let called : ok c₂ ≡ ok c₃ =
        subst (λ g. notify_close sock app g c₂ ≡ ok c₃) (fn₂ ∙ fn₁ ∙ h) e₃ in
      let same = ok-injective called in let w = ok-injective r' in rw (← w, ← same) (n₂ ∙ n₁)

  -- Every failed read or write of a connection with a close callback calls it once more, whatever
  -- the status was: also on a connection that is already disconnected.
  pub close_calls-failed :
      (c c' : Conn) (err : ErrorCode) (n f : ℕ)
      → Quiet app
      → c.close_fn ≡ some f
      → err ≢ success
      → (handle_read sock app err n c ≡ ok c') ⊎ (handle_write sock app err n c ≡ ok c')
      → (c'.close_fn ≡ some f) × (close_calls c'.trace ≡ close_calls c.trace + 1)
  unfolding handle_read handle_write handle_error handle_close
  close_calls-failed c c' success n f q h x e = absurd (x refl)
  close_calls-failed c c' eof n f q h x (inl e) = close_calls-close_and_notify _ f q h e
  close_calls-failed c c' (other y) n f q h x (inl e) = close_calls-close_and_notify _ f q h e
  close_calls-failed c c' eof n f q h x (inr e) = close_calls-close_and_notify _ f q h e
  close_calls-failed c c' (other y) n f q h x (inr e) = close_calls-close_and_notify _ f q h e

  -- So the peer's end of stream, followed by the failure of the write that was running, calls the
  -- close callback twice for one connection.
  pub closed_twice :
      (c c₁ c₂ : Conn) (e n m f : ℕ)
      → Quiet app
      → c.close_fn ≡ some f
      → handle_read sock app eof n c ≡ ok c₁
      → handle_write sock app (other e) m c₁ ≡ ok c₂
      → close_calls c₂.trace ≡ close_calls c.trace + 2
  closed_twice c c₁ c₂ e n m f q h r w =
      let first = close_calls-failed c c₁ eof n f q h (λ x. cc) (inl r) in
      let second = close_calls-failed c₁ c₂ (other e) m f q first.0 (λ x. cc) (inr w) in
      omega (arith, first.1, second.1)

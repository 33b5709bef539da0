-- ===== src/TcpConn/Taking.antt =====
-- A call of `Send` on an open socket takes the bytes, whichever buffer they go to.
use libasio.Prelude.{
  ℕ, suc, if◌then◌else◌, [], ◌∷◌, ◌≡◌, refl, ◌∙◌, Bool-cases, ◌||◌, inl, inr, true, List, ◌++◌,
  Option, none, some, ◌==◌, ltb, add_word, ok, ok-injective, returned,
}
use libasio.ByteBuffer.{size, at_read_begin}
use libasio.TcpConn.Types.{Action, call_message, Conn, took, write_some, call_high_water}
use libasio.TcpConn.Socket.{Socket}
use libasio.TcpConn.{store, log, async_write, swap_buffers}
use libasio.TcpConn.Handlers.{send, send_in_loop, send_idle, send_busy, notify_high_water}
use libasio.TcpConn.Stream.{accepted}
use libasio.TcpConn.Events.Returns.{HasRoom, Returning, send_in_loop-returns}
use libasio.Echo.{silent}

module _ (sock : Socket) where
  -- How often the message callback was called while the socket was open.
  abbrev pub asked : List Action → ℕ
  asked [] = 0
  asked (call_message d ∷ t) = let rest = asked t in if sock.is_open t then suc rest else rest
  asked (_ ∷ t) = asked t

  -- The bytes `d` were taken, nothing was shown, and the socket is still open.
  pub record Took (d : List ℕ) (c c' : Conn) : Type 0 where
    pub takes : accepted c'.trace ≡ accepted c.trace ++ d
    pub unasked : asked c'.trace ≡ asked c.trace
    pub still_open : sock.is_open c'.trace ≡ true

  async_write-Took : {d : List ℕ} {c c' : Conn} → Took d c c' → Took d c (async_write c')
  unfolding async_write
  async_write-Took {c' = c'} t =
      elim (Bool-cases (c'.async_writing || size c'.writing_buffer == 0)) [
        | inl stays ↦ rw stays t
        | inr writes ↦ rw writes (record {
          takes = t.takes;
          unasked = t.unasked;
          still_open =
              sock.is_open-other (write_some (at_read_begin c'.writing_buffer)) c'.trace refl
              ∙ t.still_open;
        })
      ]

  notify_high_water-Took :
      (f : Option ℕ) (n : ℕ) {d : List ℕ} {c c' c'' : Conn}
      → notify_high_water sock silent f n c' ≡ ok c''
      → Took d c c'
      → Took d c c''
  unfolding notify_high_water
  notify_high_water-Took none n e t = let q = ok-injective e in rw (← q) t
  notify_high_water-Took (some f) n {c' = c'} e t =
      let q = ok-injective e in
      rw (← q) (record {
        takes = t.takes;
        unasked = t.unasked;
        still_open = sock.is_open-other (call_high_water n) c'.trace refl ∙ t.still_open;
      })

  send_idle-Took :
      (d : List ℕ) (c : Conn) {c' : Conn}
      → sock.is_open c.trace ≡ true
      → send_idle sock silent d c ≡ ok c'
      → Took d c c'
  unfolding send_idle swap_buffers
  send_idle-Took d c o e = elim (Bool-cases (ltb 0 (size c.write_buffer))) [
    | inl more ↦
        let (b, s, r) = returned (store d (swap_buffers c).writing_buffer) _ (rw more at e) in
        let q = ok-injective r in
        rw (← q) (
          async_write-Took (record {
            takes = refl;
            unasked = refl;
            still_open = sock.is_open-other (took d) c.trace refl ∙ o;
          }))
    | inr none_waits ↦
        let (b, s, r) = returned (store d c.writing_buffer) _ (rw none_waits at e) in
        let q = ok-injective r in
        rw (← q) (
          async_write-Took (record {
            takes = refl;
            unasked = refl;
            still_open = sock.is_open-other (took d) c.trace refl ∙ o;
          }))
  ]

  send_busy-Took :
      (d : List ℕ) (c : Conn) {c' : Conn}
      → sock.is_open c.trace ≡ true
      → send_busy sock silent d c ≡ ok c'
      → Took d c c'
  unfolding send_busy
  send_busy-Took d c o e =
      let (b, s, r) = returned (store d c.write_buffer) _ e in
      let n = add_word (size b) (size c.writing_buffer) in
      let c₁ : Conn = log (took d) (record c { write_buffer = b }) in
      let t : Took d c c₁ = record {
        takes = refl;
        unasked = refl;
        still_open = sock.is_open-other (took d) c.trace refl ∙ o;
      } in
      elim (Bool-cases (ltb c.high_water_mark n)) [
        | inl high ↦ notify_high_water-Took c.high_water_mark_fn n (rw high at r) t
        | inr low ↦ let q = ok-injective (rw low at r) in rw (← q) t
      ]

  pub send-Took :
      (d : List ℕ) (c : Conn) {c' : Conn}
      → sock.is_open c.trace ≡ true
      → send sock silent true d c ≡ ok c'
      → Took d c c'
  unfolding send send_in_loop
  send-Took d c o e = elim (Bool-cases c.async_writing) [
    | inl w ↦ send_busy-Took d c o (simp (o, w) at e)
    | inr i ↦ send_idle-Took d c o (simp (o, i) at e)
  ]

  pub silent-Returning : Returning silent
  silent-Returning = record {
    conn = λ f c. (c, refl);
    message = λ f c. (c, refl);
    high_water = λ f n c. (c, refl);
    close = λ f c. (c, refl);
  }

  -- With memory for the bytes the call returns.
  pub send-takes :
      (d : List ℕ) (c : Conn)
      → sock.is_open c.trace ≡ true
      → HasRoom d c
      → (c' : Conn) × (send sock silent true d c ≡ ok c')
        × (accepted c'.trace ≡ accepted c.trace ++ d)
  unfolding send
  send-takes d c o h =
      let (c', e) = send_in_loop-returns sock silent silent-Returning d c h in
      (c', e, (send-Took d c o e).takes)

-- ===== src/TcpConn/Socket.antt =====
-- What `TCPConn` relies on of `tcp::socket`, which is asio's: whether it is open, by the calls that
-- were made on it.
use libasio.Prelude.{◌≡◌, Bool, true, false, List, ◌∷◌}
use libasio.TcpConn.Types.{Action, close_socket}

-- A call that is not `close` neither closes nor opens the socket.
abbrev pub is_close : Action → Bool
is_close close_socket = true
is_close _ = false

pub record Socket : Type 0 where
  pub is_open : List Action → Bool
  pub is_open-close : (t : List Action) → is_open (close_socket ∷ t) ≡ false
  pub is_open-other :
      (a : Action) (t : List Action) → is_close a ≡ false → is_open (a ∷ t) ≡ is_open t

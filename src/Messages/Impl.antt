-- ===== src/Messages/Impl.antt =====
-- The constructors of `TcpClientImpl` and `TcpServerImpl` (src/tcp_client_impl.h,
-- src/tcp_server_impl.h), which install `OnConnect_` and `OnRecvData_` as callbacks.
use libasio.Prelude.{ℕ, Bool, true, List, some, Result}
use libasio.TcpConn.Types.{Conn, Callbacks}
use libasio.EventLoop.{IoService}
use libasio.TcpServer
use libasio.TcpServer.{Server, set_connection_callback}
use libasio.TcpServer.Control.{start}
use libasio.TcpClient
use libasio.TcpClient.{Client, connect, set_auto_reconnect, set_conn_callback}
use libasio.Messages.{Codec, PacketHandlers, on_recv_data}
use libasio.Echo.{silent}

-- The callbacks, by number.
abbrev pub on_connect_fn : ℕ
on_connect_fn = 0

abbrev pub on_recv_data_fn : ℕ
on_recv_data_fn = 1

-- `OnConnect_`
abbrev pub forward_connect {ℓ} : {P : Type ℓ} → PacketHandlers P Conn → Conn → Result Conn
forward_connect object c = object.on_connect c

-- What the constructors install: `OnConnect_` and `OnRecvData_`.
unfoldable pub callbacks {ℓ} : {P : Type ℓ} → Codec P → PacketHandlers P Conn → Callbacks
callbacks codec object = record silent {
  on_conn = λ f c. forward_connect object c;
  on_message = λ f c. on_recv_data codec (λ d. d) object c;
}

-- `TcpServerImpl`, whose constructor starts the server: whether it returned, and the server.
unfoldable pub server_impl :
    {F : Type 0}
    → IoService F
    → (caller : ℕ) → (id_text : ℕ → List ℕ) → List ℕ
    → (name : List ℕ) → (thread_num : ℕ) → Result (Bool × Server F)
server_impl io caller id_text rounds name n = start io caller id_text rounds (
    TcpServer.set_message_callback (some on_recv_data_fn)
      (set_connection_callback (some on_connect_fn) (TcpServer.make name n)))

pub record ClientImpl : Type 0 where
  pub client : Client
  pub remote_addr : List ℕ
  pub port : ℕ

-- `TcpClientImpl`: it connects before the callbacks are set, which only run later.
unfoldable pub client_impl : (remote_addr : List ℕ) → (port : ℕ) → (name : List ℕ) → ClientImpl
client_impl remote_addr port name = record {
  client = TcpClient.set_message_callback (some on_recv_data_fn) (
      set_conn_callback (some on_connect_fn)
        (set_auto_reconnect true (connect (TcpClient.make remote_addr port name))));
  remote_addr = remote_addr;
  port = port;
}

unfoldable pub get_remote_address : ClientImpl → List ℕ
get_remote_address i = i.remote_addr

unfoldable pub get_port : ClientImpl → ℕ
get_port i = i.port

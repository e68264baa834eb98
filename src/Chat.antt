-- ===== src/Chat.antt =====
-- src/chatserver/chathost.cpp and src/chatserver/chathost.h: the chat host over a SocketManager. A
-- CChatClient * is an index into `users`, an ISocket * one into the heap of the manager, and a
-- char array the bytes before its terminator. The clock counts seconds.
pub mod Commands
pub mod Polling
pub mod Names
pub mod Arrays
pub mod Reading
pub mod Leaving
pub mod Relogin
mod Tests
use etwork.Common.{
  ℕ, zero, suc, ◌+◌, ◌/◌, ◌%◌, Bool, true, false, not, Option, none, some, List, [], ◌∷◌, ◌++◌,
  length, take, drop, ltb, leb, ◌==◌, if◌then◌else◌,
}
use etwork.Common.Map.{less_string, find, erase, insert}
use etwork.Buffer.Run.{Run, done, assert_failed, no_fuel}
use etwork.Sockets.{Socket, read, write}
use etwork.Sockets.Manager.{Platform, SocketManager, set_connection, close_socket}

-- What the system makes of a host and of a port: inet_ntoa, and ":%d" of ntohs.
pub record Texts : Type 0 where
  pub inet_ntoa : ℕ → List ℕ
  pub port_text : ℕ → List ℕ

-- The function that service_ points at.
pub data Service : Type 0 where
  service_discovered service_known : Service

pub record CChatClient : Type 0 where
  pub name : List ℕ
  pub address : List ℕ
  pub last_receive : ℕ
  pub num_messages : ℕ
  pub service : Service
  pub socket : ℕ
  pub last_keepalive : ℕ

-- `data` of the sockets is `stashed`; `made` counts the clients that were made.
pub record ChatHost : Type 0 where
  pub generation : ℕ
  pub clients : List ℕ
  pub mgr : SocketManager
  pub named_clients : List (List ℕ × ℕ)
  pub users : ℕ → CChatClient
  pub made : ℕ
  pub stashed : ℕ → ℕ

-- sizeof(name), sizeof(address), and sizeof(buf) of the two service functions.
abbrev pub name_size : ℕ
name_size = 32

abbrev pub address_size : ℕ
address_size = 32

abbrev pub buf_size : ℕ
buf_size = 2000

-- The protocol.
abbrev pub msg_login : ℕ
msg_login = 128

abbrev pub msg_text_to_server : ℕ
msg_text_to_server = 129

abbrev pub msg_logout : ℕ
msg_logout = 130

abbrev pub msg_text_from_server : ℕ
msg_text_from_server = 192

abbrev pub msg_login_accepted : ℕ
msg_login_accepted = 193

abbrev pub msg_no_login : ℕ
msg_no_login = 194

-- The constructor.
unfoldable pub new_client : ℕ → CChatClient
new_client socket = record {
  name = [];
  address = [];
  last_receive = 0;
  num_messages = 0;
  service = service_discovered;
  socket = socket;
  last_keepalive = 0;
}

unfoldable pub set_user : ℕ → CChatClient → ChatHost → ChatHost
set_user c user h = record h { users = λ d. if d == c then user else h.users d }

-- socket_->write( bytes, size )
unfoldable pub write_to : ℕ → List ℕ → SocketManager → SocketManager
write_to p bytes m = set_connection p (write (m.heap p).socket bytes).0 m

unfoldable pub answer : ℕ → List ℕ → ChatHost → ChatHost
answer c bytes h = record h { mgr = write_to (h.users c).socket bytes h.mgr }

unfoldable pub is_closed : ℕ → ChatHost → Bool
is_closed c h = (h.mgr.heap (h.users c).socket).socket.closed

-- The loop of broadcastText.
unfoldable pub broadcast_loop :
    List (List ℕ × ℕ) → (ℕ → CChatClient) → List ℕ → SocketManager → SocketManager
broadcast_loop [] users text m = m
broadcast_loop ((n, c) ∷ rest) users text m =
    broadcast_loop rest users text (write_to (users c).socket text m)

-- `client` is the one that the text is from, if any; the function does not look at it.
unfoldable pub broadcast_text : Option ℕ → List ℕ → ChatHost → ChatHost
broadcast_text client text h = record h { mgr = broadcast_loop h.named_clients h.users text h.mgr }

-- " joined." and " left."
abbrev pub joined : List ℕ
joined = 32 ∷ 106 ∷ 111 ∷ 105 ∷ 110 ∷ 101 ∷ 100 ∷ 46 ∷ []

abbrev pub left : List ℕ
left = 32 ∷ 108 ∷ 101 ∷ 102 ∷ 116 ∷ 46 ∷ []

-- Where validateName found the name.
unfoldable pub validate_found : Option ℕ → ℕ → ChatHost → ChatHost × Bool
validate_found (some d) c h = (h, d == c)
validate_found none c h =
    let name = (h.users c).name in
    let known : ChatHost = record h {
      named_clients = insert less_string name c h.named_clients;
      generation = suc h.generation;
    } in
    (broadcast_text none (msg_text_from_server ∷ name ++ joined) known, true)

unfoldable pub validate_name : ℕ → ChatHost → ChatHost × Bool
validate_name c h = validate_found (find less_string (h.users c).name h.named_clients) c h

unfoldable pub client_generation : ChatHost → ℕ
client_generation h = h.generation

unfoldable pub count_clients : ChatHost → ℕ
count_clients h = length h.clients

abbrev nth : ℕ → List ℕ → Option ℕ
nth n [] = none
nth zero (c ∷ rest) = some c
nth (suc n) (c ∷ rest) = nth n rest

unfoldable pub info : Option ℕ → ChatHost → Option CChatClient
info none h = none
info (some c) h = some (h.users c)

unfoldable pub get_client : ℕ → ChatHost → Option CChatClient
get_client index h =
    let found = info (nth index h.clients) h in if leb (length h.clients) index then none else found

-- delete of a client, whose destructor disposes the socket.
unfoldable pub dispose_client : Platform → ℕ → ChatHost → ChatHost
dispose_client w c h = record h { mgr = close_socket w (h.users c).socket h.mgr }

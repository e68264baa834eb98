-- ===== src/Sockets/Manager.antt =====
-- src/lib/socketbase.cpp and src/lib/sockimpl.h: class SocketManager, and the sockets that it
-- refers to. A Socket * is a number, an index into the heap; what the manager does to the world
-- outside, the calls of WinSock and of notifies, is a list of calls, the last one first.
pub mod Datagrams
pub mod Connecting
pub mod Service
pub mod Polling
pub mod Order
pub mod Ids
pub mod View
pub mod Core
pub mod Reach
pub mod Safety
pub mod Room
pub mod Sending
mod Tests
use etwork.Common.{
  ℕ, zero, suc, ◌+◌, ◌*◌, ◌/◌, ◌-◌, ◌%◌, ◌^◌, Bool, true, false, not, ◌||◌, ◌&&◌, Option, none,
  some, List, [], ◌∷◌, ◌++◌, length, ltb, ◌==◌, if◌then◌else◌,
}
use etwork.Common.Map.{find, erase, insert}
use etwork.Errors.{EtworkError, ErrorArea}
use etwork.Errors.Wsa.{WsaError}
use etwork.Buffer.Run.{Run, done, no_fuel, ◌>>=◌}
use etwork.Sockets.{EtworkSettings, Socket, new_socket}

-- FD_SETSIZE and FD_SET of Platform, and whether the build is one without NDEBUG.
pub record Platform : Type 0 where
  pub fd_setsize : ℕ
  pub fd_set : ℕ → List ℕ → List ℕ
  pub debug_build : Bool

-- A Socket with its handle s_, its address addr_ as 65536 times the host plus the port, accepted_
-- and whether there is a notify_; the other fields are those of a connection.
pub record Peer : Type 0 where
  pub handle : ℕ
  pub addr : ℕ
  pub is_accepted : Bool
  pub has_notify : Bool
  pub socket : Socket

pub data Call : Type 0 where
  wsa_error_from : Option ℕ → WsaError → ErrorArea → Call
  etwork_error_from : Option ℕ → EtworkError → Call
  etwork_info_from : EtworkError → Call
  assert_failure : Call
  closesocket : ℕ → Call
  sendto : ℕ → List ℕ → Call
  set_buffers : ℕ → Call
  on_notify : ℕ → Call

-- The fields of the class, with accepted_ as `waiting`, and the heap that its pointers lead to.
pub record SocketManager : Type 0 where
  pub settings : EtworkSettings
  pub listening : ℕ
  pub sockets : List (ℕ × ℕ)
  pub socket_addrs : List (ℕ × ℕ)
  pub waiting : List ℕ
  pub active : List (ℕ × Unit {0})
  pub notify : List (ℕ × Unit {0})
  pub max_num_socks : ℕ
  pub num_socks : ℕ
  pub max_sock : ℕ
  pub all_set : List ℕ
  pub write_set : List ℕ
  pub write_temp_set : List ℕ
  pub next_socket : ℕ
  pub cur_queue_space : ℕ
  pub cur_time : ℕ
  pub fill : ℕ → ℕ
  pub heap : ℕ → Peer
  pub allocated : ℕ
  pub calls : List Call

abbrev pub invalid_socket : ℕ
invalid_socket = 2 ^ 32 - 1

-- The constructor.
unfoldable pub new_socket_manager :
    Platform → EtworkSettings → (ℕ → ℕ) → (ℕ → Peer) → ℕ → SocketManager
new_socket_manager w settings fill heap now = record {
  settings = settings;
  listening = invalid_socket;
  sockets = [];
  socket_addrs = [];
  waiting = [];
  active = [];
  notify = [];
  max_num_socks = w.fd_setsize;
  num_socks = 0;
  max_sock = 0;
  all_set = [];
  write_set = [];
  write_temp_set = [];
  next_socket = 1;
  cur_queue_space = 0;
  cur_time = now;
  fill = fill;
  heap = heap;
  allocated = 0;
  calls = [];
}

unfoldable pub call : Call → SocketManager → SocketManager
call c m = record m { calls = c ∷ m.calls }

unfoldable pub debug_sock_error : SocketManager → Option ℕ → WsaError → ErrorArea → SocketManager
debug_sock_error m sock err area = call (wsa_error_from sock err area) m

abbrev pub update : (ℕ → Peer) → ℕ → Peer → ℕ → Peer
update heap p peer q = if q == p then peer else heap q

unfoldable pub store : ℕ → Peer → SocketManager → SocketManager
store p peer m = record m { heap = update m.heap p peer }

-- A field of the connection changes.
unfoldable pub set_connection : ℕ → Socket → SocketManager → SocketManager
set_connection p socket m = store p (record (m.heap p) { socket = socket }) m

-- active_.insert( s ), or notify_.insert( s ) for a socket with a notify.
unfoldable pub mark : ℕ → SocketManager → SocketManager
mark p m =
    if (m.heap p).has_notify
    then record m { notify = insert ltb p tt m.notify }
    else record m { active = insert ltb p tt m.active }

-- needed * 1.5 + 10
abbrev pub grown_sets : ℕ → ℕ
grown_sets needed = needed * 3 / 2 + 10

unfoldable pub set_all : Platform → List (ℕ × ℕ) → List ℕ → List ℕ
set_all w [] all = all
set_all w ((s, p) ∷ rest) all = set_all w rest (w.fd_set s all)

unfoldable pub max_of : List (ℕ × ℕ) → ℕ → ℕ
max_of [] most = most
max_of ((s, p) ∷ rest) most = max_of rest (if ltb most s then s else most)

unfoldable pub regenerate_sets : Platform → SocketManager → SocketManager
regenerate_sets w m =
    let needed = if m.settings.reliable then length m.sockets + 1 else 1 in
    let listens = not (m.listening == invalid_socket) in
    let first = if listens then w.fd_set m.listening [] else [] in
    let first_max = if listens && ltb 0 m.listening then m.listening else 0 in
    let grows = ltb m.max_num_socks needed in
    record m {
      max_num_socks = if grows then grown_sets needed else m.max_num_socks;
      write_set = if grows then [] else m.write_set;
      write_temp_set = if grows then [] else m.write_temp_set;
      num_socks = if listens then needed else needed - 1;
      all_set = if m.settings.reliable then set_all w m.sockets first else first;
      max_sock = if m.settings.reliable then max_of m.sockets first_max else first_max;
    }

-- accepted_.erase( std::find( accepted_.begin(), accepted_.end(), s ) )
unfoldable pub erase_waiting : ℕ → List ℕ → List ℕ
erase_waiting p [] = []
erase_waiting p (q ∷ rest) =
    let behind = erase_waiting p rest in if q == p then rest else q ∷ behind

unfoldable pub mem : ℕ → List ℕ → Bool
mem p [] = false
mem p (q ∷ rest) = let behind = mem p rest in (q == p) || behind

unfoldable pub remove_waiting : ℕ → SocketManager → SocketManager
remove_waiting p m =
    if mem p m.waiting
    then record m { waiting = erase_waiting p m.waiting }
    else call assert_failure m

unfoldable pub remove_found : Platform → ℕ → Option ℕ → SocketManager → SocketManager
remove_found w p none m = remove_waiting p m
remove_found w p (some q) m =
    let erased : SocketManager = record m { sockets = erase ltb (m.heap p).handle m.sockets } in
    if m.settings.reliable then regenerate_sets w erased else erased

unfoldable pub remove_socket : Platform → ℕ → SocketManager → SocketManager
remove_socket w p m =
    remove_found w p (find ltb (m.heap p).handle m.sockets)
      (record m { socket_addrs = erase ltb (m.heap p).addr m.socket_addrs })

abbrev pub shut : Peer → Peer
shut peer = record peer { socket = record (peer.socket) { closed = true } }

-- if( !IS_SOCKET_ERROR( s_ ) && mgr_->settings_.reliable ) ::closesocket( s_ ); s_ = INVALID_SOCKET;
unfoldable pub close_handle : ℕ → SocketManager → SocketManager
close_handle p m =
    let peer = m.heap p in
    let closing =
      if not (peer.handle == invalid_socket) && m.settings.reliable
      then call (closesocket peer.handle) m
      else m in
    store p (record peer { handle = invalid_socket }) closing

-- Socket::close_socket, which the destructor calls too.
unfoldable pub close_socket : Platform → ℕ → SocketManager → SocketManager
close_socket w p m =
    if (m.heap p).socket.closed
    then m
    else close_handle p (remove_socket w p (store p (shut (m.heap p)) m))

-- ++nextSocket_; if( !nextSocket_ ) ++nextSocket_;
unfoldable pub next_id : ℕ → ℕ
next_id n = if suc n % 2 ^ 32 == 0 then 1 else suc n % 2 ^ 32

-- Whether socket_id goes again after this id.
unfoldable pub is_taken : SocketManager → ℕ → Bool
is_taken m id = (id == m.listening) || elim (find ltb id m.sockets) [ none ↦ false | some p ↦ true ]

-- The loop of socket_id, for a count of rounds: the id, and the next one.
unfoldable pub socket_id_loop : ℕ → SocketManager → ℕ → Run (ℕ × ℕ)
socket_id_loop zero m id = no_fuel
socket_id_loop (suc n) m id =
    let again = socket_id_loop n m (next_id id) in
    if is_taken m id then again else done (id, next_id id)

unfoldable pub socket_id : SocketManager → Run (ℕ × ℕ)
socket_id m = socket_id_loop (length m.sockets + 2) m m.next_socket

-- new Socket( this, s, addr ), with `id` for s_ and nextSocket_ as it then is.
unfoldable pub allocate : SocketManager → ℕ → ℕ × ℕ → SocketManager × ℕ
allocate m addr (id, next) =
    let peer : Peer = record {
      handle = id;
      addr = addr;
      is_accepted = false;
      has_notify = false;
      socket = new_socket m.fill m.settings m.cur_time;
    } in
    let p = m.allocated in (store p peer (record m { next_socket = next; allocated = suc p }), p)

unfoldable pub new_peer : SocketManager → ℕ → ℕ → Run (SocketManager × ℕ)
new_peer m s addr =
    let minted = socket_id m in
    (if m.settings.reliable then done (s, m.next_socket) else minted) >>= λ r.
    done (allocate m addr r)

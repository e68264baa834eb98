-- ===== src/Sockets/Manager/Service.antt =====
-- src/lib/socketbase.cpp: timeout_sockets of SocketManager, what a socket's do_read, do_write and
-- do_except leave in the manager, and the three loops of poll over the handles that are ready.
use etwork.Common.{
  ℕ, ◌+◌, Bool, true, false, not, ◌&&◌, Option, none, some, List, [], ◌∷◌, length, ltb, ◌==◌,
  if◌then◌else◌,
}
use etwork.Common.Map.{find}
use etwork.Errors.{note, session, peer_timeout, new_error, severity_code, area_code, option_code}
use etwork.Errors.Wsa.{WsaError}
use etwork.Buffer.{space_used}
use etwork.Buffer.Run.{Run, done, bad_access, ◌>>=◌}
use etwork.Sockets.{
  Socket, wants_to_write, wants_to_read, Outcome, Received, nothing_yet, broken, received, moved,
  would_block, failed, do_read, do_write,
}
use etwork.Sockets.Manager.{
  Platform, SocketManager, assert_failure, etwork_error_from, call, debug_sock_error,
  set_connection, mark, close_socket,
}
use etwork.Sockets.Manager.Connecting.{greet}
use etwork.Sockets.Manager.Datagrams.{
  Arrival, Datagram, handle_listening_read, handle_listening_write, handle_listening_except,
}

-- cl->lastActive_ + settings_.timeout < curTime_
abbrev pub is_idle : SocketManager → ℕ → Bool
is_idle m p =
    ltb 0 m.settings.timeout && ltb ((m.heap p).socket.last_active + m.settings.timeout) m.cur_time

abbrev pub is_quiet : SocketManager → ℕ → Bool
is_quiet m p =
    ltb 0 m.settings.keepalive
    && ltb ((m.heap p).socket.last_keepalive + m.settings.keepalive) m.cur_time

unfoldable pub time_out : Platform → ℕ → SocketManager → SocketManager
time_out w p m =
    let code = new_error (severity_code note) (area_code session) (option_code peer_timeout) in
    let closed = close_socket w p (call (etwork_error_from (some p) code) m) in
    if (closed.heap p).is_accepted then mark p closed else closed

unfoldable pub timeout_loop : Platform → List (ℕ × ℕ) → SocketManager → SocketManager
timeout_loop w [] m = m
timeout_loop w ((s, p) ∷ rest) m =
    timeout_loop w rest
      (if is_idle m p then time_out w p m else if is_quiet m p then greet p m else m)

unfoldable pub timeout_sockets : Platform → SocketManager → SocketManager
timeout_sockets w m = timeout_loop w m.sockets m

-- What recv gave for a socket, and the error if it gave one.
unfoldable pub recv_told : ℕ → Received → WsaError → SocketManager → SocketManager
recv_told p (received bytes) e m = m
recv_told p nothing_yet e m = debug_sock_error m (some p) e session
recv_told p broken e m = debug_sock_error m (some p) e session

unfoldable pub send_told : ℕ → Outcome → WsaError → SocketManager → SocketManager
send_told p (moved n) e m = m
send_told p would_block e m = debug_sock_error m (some p) e session
send_told p failed e m = debug_sock_error m (some p) e session

-- What the step of a connection leaves: its own fields, and the manager's if it closed the socket.
unfoldable pub settle : Platform → ℕ → Socket × Bool → SocketManager → SocketManager
settle w p (s, go_on) m =
    let peer = m.heap p in
    let still : Socket = record s { closed = peer.socket.closed } in
    let kept = set_connection p still m in if s.closed then close_socket w p kept else kept

unfoldable pub do_read_of :
    Platform → ℕ → Received → WsaError → SocketManager → Run (SocketManager × Bool)
do_read_of w p r e m = do_read w.debug_build m.cur_time (m.heap p).socket r >>= λ t.
    done (settle w p t (recv_told p r e m), t.1)

unfoldable pub do_write_of :
    Platform → ℕ → Outcome → WsaError → SocketManager → Run (SocketManager × Bool)
do_write_of w p o e m =
    do_write m.cur_time (m.heap p).socket o >>= λ t. done (settle w p t (send_told p o e m), t.1)

-- The assertions of do_except, on a reliable manager and on what getsockopt returned: that is
-- compared with 4, but getsockopt returns 0 or -1.
unfoldable pub except_asserts : SocketManager → SocketManager
except_asserts m = call assert_failure (if m.settings.reliable then m else call assert_failure m)

-- `error` is what getsockopt gave, none for 0.
unfoldable pub do_except :
    Platform → ℕ → Option WsaError → WsaError → SocketManager → SocketManager × Bool
do_except w p none no_error m =
    (debug_sock_error (except_asserts m) (some p) no_error session, true)
do_except w p (some e) no_error m =
    (close_socket w p (debug_sock_error (except_asserts m) (some p) e session), true)

-- What WinSock answers in one round of poll: to each call of recv, send and getsockopt, by the
-- handle, and on the listening socket.
pub record Answers : Type 0 where
  pub recv : ℕ → Received
  pub send : ℕ → Outcome
  pub except : ℕ → Option WsaError
  pub last_error : ℕ → WsaError
  pub arrival : Arrival
  pub datagrams : List Datagram
  pub end_of_datagrams : WsaError
  pub sendto_answer : ℕ → Option WsaError
  pub no_error : WsaError

-- The manager, and `progress`.
abbrev pub Served : Type 0
Served = SocketManager × Bool

-- FD_SET( s, writeTempSet_ )
unfoldable pub write_again : Platform → ℕ → SocketManager → SocketManager
write_again w s m = record m { write_temp_set = w.fd_set s m.write_temp_set }

unfoldable pub after_read : Platform → ℕ → ℕ → Bool → SocketManager → Served
after_read w s p progress m =
    let socket = (m.heap p).socket in
    let again = progress && ltb 0 (space_used socket.buf_out) && not socket.closed in
    (if again then write_again w s m else m, progress)

unfoldable pub read_socket : Platform → Answers → ℕ → Option ℕ → Served → Run Served
read_socket w a s none (m, progress) = done (call assert_failure m, progress)
read_socket w a s (some p) (m, progress) =
    let reading = do_read_of w p (a.recv s) (a.last_error s) m >>= λ r.
    done (after_read w s p (progress && r.1) (mark p r.0)) in
    if wants_to_read (m.heap p).socket then reading else done (after_read w s p progress m)

unfoldable pub after_write : Platform → ℕ → ℕ → Bool → SocketManager × Bool → Served
after_write w s p progress (m, go_on) =
    let m' = if go_on then mark p m else m in
    let on = progress && go_on in
    (if on && wants_to_write (m'.heap p).socket then write_again w s m' else m', on)

unfoldable pub write_socket : Platform → Answers → ℕ → Option ℕ → Served → Run Served
write_socket w a s none t = done t
write_socket w a s (some p) (m, progress) =
    let writing =
      do_write_of w p (a.send s) (a.last_error s) m >>= λ r. done (after_write w s p progress r) in
    if wants_to_write (m.heap p).socket then writing else done (m, progress)

-- (*ptr).second once more, by what sockets_ has of the handle then: do_except may have closed the
-- socket, and then ptr was erased.
unfoldable pub after_except : Bool → SocketManager × Bool → Option ℕ → Run Served
after_except progress r none = bad_access
after_except progress (m, go_on) (some p) = done (mark p m, progress && go_on)

unfoldable pub except_socket : Platform → Answers → ℕ → Option ℕ → Served → Run Served
except_socket w a s none t = done t
except_socket w a s (some p) (m, progress) =
    let r = do_except w p (a.except s) a.no_error m in
    after_except progress r (find ltb s r.0.sockets)

abbrev pub and_progress : Bool → SocketManager × Bool → Served
and_progress progress (m, go_on) = (m, progress && go_on)

unfoldable pub service_read : Platform → Answers → ℕ → ℕ → Served → Run Served
service_read w a max_active s (m, progress) =
    let listening =
      handle_listening_read m max_active a.arrival a.datagrams a.end_of_datagrams >>= λ r.
      done (and_progress progress r) in
    let other = read_socket w a s (find ltb s m.sockets) (m, progress) in
    if s == m.listening then listening else other

unfoldable pub service_write : Platform → Answers → ℕ → ℕ → Served → Run Served
service_write w a max_active s (m, progress) =
    let listening =
      handle_listening_write m a.sendto_answer max_active >>= λ r. done (and_progress progress r) in
    let other = write_socket w a s (find ltb s m.sockets) (m, progress) in
    if s == m.listening then listening else other

unfoldable pub service_except : Platform → Answers → ℕ → ℕ → Served → Run Served
service_except w a max_active s (m, progress) =
    let listening = done (and_progress progress (handle_listening_except m (a.last_error s))) in
    let other = except_socket w a s (find ltb s m.sockets) (m, progress) in
    if s == m.listening then listening else other

-- One of the three loops of a round, over the handles that select left in a set. The flag says
-- that the loop went to no_more_actives.
unfoldable pub service_loop : (ℕ → Served → Run Served) → ℕ → List ℕ → Served → Run (Served × Bool)
service_loop service max_active [] t = done (t, false)
service_loop service max_active (s ∷ rest) t = service s t >>= λ t'.
    let more = service_loop service max_active rest t' in
    if length t'.0.active == max_active then done (t', true) else more

-- What ::select comes to: an error, or the handles that it left in the three sets.
pub data Selected : Type 0 where
  select_failed : WsaError → Selected
  ready : List ℕ → List ℕ → List ℕ → Selected

-- Goes on with the next loop unless the last one went to no_more_actives.
unfoldable pub then_loop : (Served → Run (Served × Bool)) → Served × Bool → Run (Served × Bool)
then_loop loop (t, true) = done (t, true)
then_loop loop (t, false) = loop t

unfoldable pub service_round :
    Platform → Answers → ℕ → List ℕ → List ℕ → List ℕ → SocketManager → Run (Served × Bool)
service_round w a max_active reads writes excepts m =
    let start : SocketManager = record m { write_temp_set = [] } in
    service_loop (service_read w a max_active) max_active reads (start, true) >>= λ r.
    then_loop (service_loop (service_write w a max_active) max_active writes) r >>= λ r'.
    then_loop (service_loop (service_except w a max_active) max_active excepts) r'

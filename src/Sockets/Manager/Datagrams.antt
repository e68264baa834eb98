-- ===== src/Sockets/Manager/Datagrams.antt =====
-- src/lib/socketbase.cpp: handle_listening_read, handle_listening_write and
-- handle_listening_except of SocketManager.
use etwork.Common.{
  ℕ, zero, suc, Bool, true, false, Option, none, some, List, [], ◌∷◌, ◌++◌, length, ltb, ◌==◌,
  if◌then◌else◌,
}
use etwork.Common.Map.{find, insert}
use etwork.Errors.{warning, session, buffer_full, new_error, severity_code, area_code, option_code}
use etwork.Errors.Wsa.{WsaError, wsaewouldblock}
use etwork.Buffer.{put_message, get_message, message_count}
use etwork.Buffer.Run.{Run, done, no_fuel, ◌>>=◌}
use etwork.Sockets.{Socket, wants_to_write}
use etwork.Sockets.Manager.{
  SocketManager, assert_failure, sendto, etwork_error_from, call, debug_sock_error, set_connection,
  mark, new_peer,
}

-- What ::accept gave: a handle and an address, or an error.
pub data Arrival : Type 0 where
  arrived : ℕ → ℕ → Arrival
  no_arrival : WsaError → Arrival

-- accepted_.push_back( s )
unfoldable pub await : SocketManager × ℕ → SocketManager
await (m, p) = record m { waiting = m.waiting ++ p ∷ [] }

unfoldable pub listening_accept : SocketManager → Arrival → Run (SocketManager × Bool)
listening_accept m (no_arrival e) = done (debug_sock_error m none e session, false)
listening_accept m (arrived s addr) = new_peer m s addr >>= λ r. done (await r, true)

-- A datagram that ::recvfrom gave, and what ::sendto answers if it is acknowledged.
pub record Datagram : Type 0 where
  pub from : ℕ
  pub bytes : List ℕ
  pub answer : Option WsaError

unfoldable pub told_of : Option WsaError → SocketManager → SocketManager
told_of none m = m
told_of (some e) m = debug_sock_error m none e session

-- A new unreliable socket, and the empty packet that acknowledges it.
unfoldable pub welcome : Datagram → SocketManager × ℕ → SocketManager
welcome d (m, p) =
    let awaiting = await (m, p) in
    told_of d.answer (
      call (sendto d.from [])
        (record awaiting { socket_addrs = insert ltb d.from p awaiting.socket_addrs }))

unfoldable pub touch : ℕ → SocketManager → SocketManager
touch p m =
    let marked = mark p m in
    let peer = m.heap p in
    let here : Socket = record (peer.socket) { last_active = m.cur_time } in
    if peer.is_accepted then set_connection p here marked else m

-- s->bufIn_.put_message( tmpBuffer_, r )
unfoldable pub deliver : ℕ → List ℕ → SocketManager → SocketManager
deliver p bytes m =
    let peer = m.heap p in
    let r = put_message peer.socket.buf_in bytes in
    let kept = set_connection p (record (peer.socket) { buf_in = r.0 }) m in
    let full = new_error (severity_code warning) (area_code session) (option_code buffer_full) in
    let sock = if peer.is_accepted then some p else none in
    elim r.1 [ none ↦ call (etwork_error_from sock full) kept | some n ↦ kept ]

unfoldable pub receive_from : Option ℕ → SocketManager → Datagram → Run SocketManager
receive_from (some p) m d = done (deliver p d.bytes (touch p m))
receive_from none m d =
    let made = new_peer m 0 d.from in
    if m.settings.accepting then (made >>= λ r. done (welcome d r)) else done m

-- The loop of recvfrom, over the datagrams that came before the error that ends it.
unfoldable pub receive_loop : List Datagram → SocketManager → Run SocketManager
receive_loop [] m = done m
receive_loop (d ∷ ds) m =
    receive_from (find ltb d.from m.socket_addrs) m d >>= λ m'. receive_loop ds m'

unfoldable pub is_would_block : WsaError → Bool
is_would_block wsaewouldblock = true
is_would_block e = false

unfoldable pub drained : WsaError → SocketManager → SocketManager
drained e m = if is_would_block e then m else debug_sock_error m none e session

unfoldable pub handle_listening_read :
    SocketManager → ℕ → Arrival → List Datagram → WsaError → Run (SocketManager × Bool)
handle_listening_read m max_active arrival ds e =
    let m' = if ltb (length m.active) max_active then m else call assert_failure m in
    let received = receive_loop ds m' >>= λ m''. done (drained e m'', true) in
    if m.settings.reliable then listening_accept m' arrival else received

-- What is left of a message once get_message took it: the socket, and the message.
unfoldable pub take_message : ℕ → SocketManager → SocketManager × List ℕ
take_message p m =
    let peer = m.heap p in
    let r = get_message peer.socket.buf_out m.settings.max_message_size in
    (set_connection p (record (peer.socket) { buf_out = r.0 }) m, r.1)

unfoldable pub sent_to : ℕ → SocketManager → SocketManager
sent_to p m =
    set_connection p (record ((m.heap p).socket) { last_keepalive = m.cur_time }) (mark p m)

-- Where a loop of handle_listening_write stands: the manager, the number of calls of ::sendto so
-- far, and the error at which it goes to error_writing.
pub record Writing : Type 0 where
  pub manager : SocketManager
  pub sends : ℕ
  pub stopped : Option WsaError

-- After ::sendto: to error_writing, out of the loop with a full active_, or on.
unfoldable pub after_sendto :
    Option WsaError → SocketManager → Writing → ℕ → Run Writing → Run Writing
after_sendto (some e) out gone max_active more =
    done (record { manager = out; sends = gone.sends; stopped = some e })
after_sendto none out gone max_active more =
    if length gone.manager.active == max_active then done gone else more

-- while( s->wants_to_write() ), for a count of rounds; `send` is what each call of ::sendto comes to.
unfoldable pub write_loop : (ℕ → Option WsaError) → ℕ → ℕ → ℕ → Writing → Run Writing
write_loop send max_active zero p t =
    if wants_to_write (t.manager.heap p).socket then no_fuel else done t
write_loop send max_active (suc n) p t =
    let r = take_message p t.manager in
    let out = call (sendto (t.manager.heap p).addr r.1) r.0 in
    let gone : Writing = record { manager = sent_to p out; sends = suc t.sends; stopped = none } in
    let more = write_loop send max_active n p gone in
    if wants_to_write (t.manager.heap p).socket
    then after_sendto (send t.sends) out gone max_active more
    else done t

unfoldable pub unless_stopped : Option WsaError → Writing → Run Writing → Run Writing
unless_stopped none t more = more
unless_stopped (some e) t more = done t

-- The loop over sockets_.
unfoldable pub write_sockets : (ℕ → Option WsaError) → ℕ → List (ℕ × ℕ) → Writing → Run Writing
write_sockets send max_active [] t = done t
write_sockets send max_active ((s, p) ∷ rest) t =
    write_loop send max_active (message_count (t.manager.heap p).socket.buf_out) p t >>= λ t'.
    unless_stopped t'.stopped t' (write_sockets send max_active rest t')

unfoldable pub error_writing : SocketManager → WsaError → SocketManager × Bool
error_writing m e = (debug_sock_error m none e session, is_would_block e)

unfoldable pub written : Option WsaError → SocketManager → SocketManager × Bool
written none m = (m, true)
written (some e) m = error_writing m e

unfoldable pub handle_listening_write :
    SocketManager → (ℕ → Option WsaError) → ℕ → Run (SocketManager × Bool)
handle_listening_write m send max_active =
    let start : Writing = record { manager = m; sends = 0; stopped = none } in
    let writing =
      write_sockets send max_active m.sockets start >>= λ t. done (written t.stopped t.manager) in
    if m.settings.reliable then done (call assert_failure m, false) else writing

-- `e` is what getsockopt gave.
unfoldable pub handle_listening_except : SocketManager → WsaError → SocketManager × Bool
handle_listening_except m e = (debug_sock_error (call assert_failure m) none e session, false)

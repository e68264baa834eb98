-- ===== src/Sockets/Manager/Connecting.antt =====
-- src/lib/socketbase.cpp: change_queuing_space, open, accept and connect of SocketManager. What
-- WinSock answered is a parameter; an error is the number that WSAGetLastError gave.
use etwork.Common.{
  ℕ, zero, suc, ◌+◌, ◌*◌, ◌%◌, ◌^◌, Bool, true, false, not, ◌||◌, ◌&&◌, Option, none, some, List,
  [], ◌∷◌, length, ltb, ◌==◌, if◌then◌else◌,
}
use Prim.Native.String.{String}
use etwork.Common.Map.{insert}
use etwork.Common.Int.{pos, ltb_ℤ, to_signed}
use etwork.Errors.{
  error, init, address, connect, invalid_parameters, new_error, set_text, severity_code, area_code,
  option_code,
}
use etwork.Errors.Wsa.{WsaError}
use etwork.Buffer.Run.{Run, done, ◌>>=◌}
use etwork.Sockets.{
  Verdict, unsupported_version, too_large, accepted, check_settings, EtworkSettings, write,
}
use etwork.Sockets.Manager.{
  Peer, new_socket_manager, Platform, SocketManager, closesocket, set_buffers, etwork_info_from,
  invalid_socket, call, debug_sock_error, store, set_connection, regenerate_sets, new_peer,
}

-- `needed` before the room for clients that might connect, as the bits of an int.
unfoldable pub needed_space : SocketManager → ℕ
needed_space m =
    let asked = to_signed (m.settings.queue_size % 2 ^ 32) in
    let per_socket = if ltb_ℤ asked (pos 1024) then 1024 else m.settings.queue_size in
    let needed = (1 + length m.sockets) * per_socket % 2 ^ 32 in
    if ltb_ℤ (to_signed needed) (pos 4096) then 4096 else needed

unfoldable pub spare_space : SocketManager → ℕ → ℕ
spare_space m needed =
    if m.settings.accepting then (needed + 5 * m.settings.queue_size) % 2 ^ 32 else needed

-- What setsockopt came to for SO_SNDBUF, and for SO_RCVBUF if it is asked.
unfoldable pub set_space : SocketManager → ℕ → Option WsaError → Option WsaError → SocketManager
set_space m needed (some e) receive = debug_sock_error m none e init
set_space m needed none (some e) = debug_sock_error m none e init
set_space m needed none none = call (set_buffers needed) (record m { cur_queue_space = needed })

unfoldable pub change_queuing_space :
    SocketManager → Option WsaError → Option WsaError → SocketManager
change_queuing_space m send receive =
    let needed = needed_space m in
    let set = set_space m (spare_space m needed) send receive in
    if ltb_ℤ (to_signed m.cur_queue_space) (to_signed needed) then set else m

-- How far the calls of open came: ::socket failed; a call on the new handle failed; all succeeded.
pub data Opening : Type 0 where
  no_socket : WsaError → Opening
  call_failed : ℕ → WsaError → Opening
  opened : ℕ → Opening

unfoldable pub open_listening :
    Platform → SocketManager → Option WsaError → Option WsaError → Opening → SocketManager × Bool
open_listening w m send receive (no_socket e) =
    (debug_sock_error (record m { listening = invalid_socket }) none e init, false)
open_listening w m send receive (call_failed s e) =
    let told = debug_sock_error m none e init in
    (call (closesocket s) (record told { listening = invalid_socket }), false)
open_listening w m send receive (opened s) =
    let listens : SocketManager = record m { listening = s } in
    let spaced =
      if m.settings.reliable then listens else change_queuing_space listens send receive in
    (regenerate_sets w spaced, true)

abbrev pub port_text : String
port_text = "Port may not be 0 when accepting in EtworkSettings."

unfoldable pub «open» :
    Platform
    → SocketManager
    → EtworkSettings
    → Option WsaError
    → Option WsaError
    → Opening
    → SocketManager × Bool
«open» w m settings send receive opening =
    let asked : SocketManager = record m { settings = settings } in
    let code = new_error (severity_code error) (area_code init) (option_code invalid_parameters) in
    if settings.accepting && settings.port == 0
    then (call (etwork_info_from (set_text code (some port_text))) asked, false)
    else if settings.accepting || not settings.reliable
    then open_listening w asked send receive opening
    else (regenerate_sets w asked, true)

-- sockets_[s->s_] = s; s->accepted_ = true;
unfoldable pub register : ℕ → SocketManager → SocketManager
register p m =
    let peer = m.heap p in
    store p (record peer { is_accepted = true })
      (record m { sockets = insert ltb peer.handle p m.sockets })

-- The loop of accept, over accepted_: the manager, and what it put out.
unfoldable pub accept_loop : ℕ → List ℕ → SocketManager → SocketManager × List ℕ
accept_loop zero waiting m = (record m { waiting = waiting }, [])
accept_loop (suc n) [] m = (record m { waiting = [] }, [])
accept_loop (suc n) (p ∷ rest) m = let r = accept_loop n rest (register p m) in (r.0, p ∷ r.1)

unfoldable pub accept :
    Platform → SocketManager → ℕ → Option WsaError → Option WsaError → SocketManager × List ℕ
accept w m max_accepted send receive =
    let r = accept_loop max_accepted m.waiting m in
    let changed = regenerate_sets w (change_queuing_space r.0 send receive) in
    if length r.1 == 0 then (r.0, []) else (changed, r.1)

-- What connect was told: of the host; for a reliable manager, of the new handle, whose last call
-- may fail.
pub data Connecting : Type 0 where
  no_host : WsaError → Connecting
  not_made : WsaError → Connecting
  refused : ℕ → WsaError → Connecting
  connected : ℕ → Option WsaError → Connecting

unfoldable pub told : Option WsaError → SocketManager → SocketManager
told none m = m
told (some e) m = debug_sock_error m none e connect

-- so->write( "", 0 )
unfoldable pub greet : ℕ → SocketManager → SocketManager
greet p m = set_connection p (write (m.heap p).socket []).0 m

unfoldable pub connect_peer : Platform → ℕ → SocketManager × ℕ → SocketManager × Option ℕ
connect_peer w addr (m, p) =
    let joined = regenerate_sets w (register p m) in
    let found : SocketManager = record joined {
      socket_addrs = insert ltb addr p joined.socket_addrs;
    } in
    (if m.settings.reliable then joined else greet p found, some p)

-- The socket that is put out, if the result is 1 and not -1.
unfoldable pub connect_to :
    Platform → SocketManager → ℕ → Connecting → Run (SocketManager × Option ℕ)
connect_to w m addr (no_host e) = done (debug_sock_error m none e address, none)
connect_to w m addr (not_made e) = done (debug_sock_error m none e connect, none)
connect_to w m addr (refused s e) =
    done (call (closesocket s) (debug_sock_error m none e connect), none)
connect_to w m addr (connected s no_delay) =
    let made =
      if m.settings.reliable
      then new_peer (told no_delay m) s addr
      else new_peer m m.listening addr in
    made >>= λ r. done (connect_peer w addr r)

-- CreateEtwork, with whether WSAStartup is called and fails: the manager, if it is not 0.
unfoldable pub opened_manager : SocketManager × Bool → Option SocketManager
opened_manager (m, true) = some m
opened_manager (m, false) = none

unfoldable pub create_checked :
    Platform → Bool → (EtworkSettings → SocketManager × Bool) → Verdict → Option SocketManager
create_checked w startup_fails opens unsupported_version = none
create_checked w startup_fails opens too_large = none
create_checked w startup_fails opens (accepted settings) =
    if startup_fails then none else opened_manager (opens settings)

unfoldable pub create_etwork :
    Platform
    → EtworkSettings
    → Bool
    → (ℕ → ℕ)
    → (ℕ → Peer)
    → ℕ
    → Option WsaError
    → Option WsaError
    → Opening
    → Option SocketManager
create_etwork w settings startup_fails fill heap now send receive opening =
    create_checked w startup_fails
      (λ s. «open» w (new_socket_manager w s fill heap now) s send receive opening)
      (check_settings settings)

-- The destructor.
unfoldable pub destroy : SocketManager → SocketManager
destroy m =
    if m.listening == invalid_socket
    then m
    else call (closesocket m.listening) (record m { listening = invalid_socket })

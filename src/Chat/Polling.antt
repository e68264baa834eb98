-- ===== src/Chat/Polling.antt =====
-- src/chatserver/chathost.cpp: open, poll and kickUser of ChatHost.
use etwork.Common.{
  ℕ, suc, ◌+◌, Bool, true, false, Option, none, some, List, [], ◌∷◌, ◌++◌, length, ltb, leb, ◌==◌,
  if◌then◌else◌,
}
use etwork.Common.Map.{less_string, find, erase, insert}
use etwork.Errors.Wsa.{WsaError}
use etwork.Buffer.Run.{Run, done, assert_failed, ◌>>=◌}
use etwork.Sockets.{EtworkSettings}
use etwork.Sockets.Manager.{Peer, Platform, SocketManager, erase_waiting, close_socket, mem}
use etwork.Sockets.Manager.Connecting.{accept, Opening, create_etwork, destroy}
use etwork.Sockets.Manager.Polling.{Round, poll}
use etwork.Chat.{
  Texts, ChatHost, msg_text_from_server, left, new_client, set_user, broadcast_text, dispose_client,
}
use etwork.Chat.Commands.{service, service_keepalive}

-- What a poll of the host comes to: a result, exit( 1 ), or what the standard leaves undefined.
pub data Outcome (A : Type 0) : Type 0 where
  returns : A → Outcome A
  exits : Outcome A
  undefined : Outcome A

unfoldable pub and_then : {A B : Type 0} → Outcome A → (A → Run (Outcome B)) → Run (Outcome B)
and_then (returns a) f = f a
and_then exits f = done exits
and_then undefined f = done undefined

-- The settings that open asks for, in tenths of a second; the rest is as EtworkSettings has it.
unfoldable pub host_settings : EtworkSettings → ℕ → Bool → EtworkSettings
host_settings defaults port reliable = record defaults {
  accepting = true;
  port = port;
  reliable = reliable;
  debug = true;
  keepalive = 45;
  timeout = 200;
}

-- A std::set of clients.
abbrev pub Clients : Type 0
Clients = List (ℕ × Unit {0})

unfoldable pub kill_unless : Bool → ℕ → Clients → Clients
kill_unless stays c to_kill = if stays then to_kill else insert ltb c tt to_kill

-- The loop over the sockets that the manager put out.
unfoldable pub service_active : Texts → ℕ → List ℕ → ChatHost → Clients → Run (ChatHost × Clients)
service_active t now [] h to_kill = done (h, to_kill)
service_active t now (p ∷ rest) h to_kill =
    let c = h.stashed p in
    service t now c h >>= λ r. service_active t now rest r.0 (kill_unless r.1 c to_kill)

-- A client's time: a minute without a message, or 20 seconds without a keepalive.
unfoldable pub check_times : ℕ → ℕ → ChatHost → ChatHost × Bool
check_times now c h =
    let user = h.users c in
    let kept = service_keepalive now c h in
    if ltb (user.last_receive + 60) now
    then (h, false)
    else if ltb (user.last_keepalive + 20) now
    then kept
    else (h, true)

unfoldable pub check_clients : ℕ → List ℕ → ChatHost → Clients → ChatHost × Clients
check_clients now [] h to_kill = (h, to_kill)
check_clients now (c ∷ rest) h to_kill =
    let r = check_times now c h in check_clients now rest r.0 (kill_unless r.1 c to_kill)

-- namedClients_.erase( nc ) with what find gave, dispose, and clients_.erase with what std::find gave.
-- Either erase is undefined where nothing was found.
unfoldable pub erase_named : Platform → Option ℕ → ℕ → ChatHost → Outcome ChatHost
erase_named w none c h = undefined
erase_named w (some d) c h =
    let unnamed : ChatHost = record h {
      named_clients = erase less_string (h.users c).name h.named_clients;
    } in
    let gone = dispose_client w c unnamed in
    if mem c gone.clients
    then returns (record gone { clients = erase_waiting c gone.clients })
    else undefined

unfoldable pub kill_client : Platform → ℕ → ChatHost → Outcome ChatHost
kill_client w c h = erase_named w (find less_string (h.users c).name h.named_clients) c h

unfoldable pub left_after :
    List ℕ → Outcome (ChatHost × List (List ℕ)) → Outcome (ChatHost × List (List ℕ))
left_after text (returns (h, texts)) = returns (h, text ∷ texts)
left_after text exits = exits
left_after text undefined = undefined

unfoldable pub kill_next :
    (ChatHost → Outcome (ChatHost × List (List ℕ)))
    → List ℕ
    → Outcome ChatHost
    → Outcome (ChatHost × List (List ℕ))
kill_next again text (returns h) = left_after text (again h)
kill_next again text exits = exits
kill_next again text undefined = undefined

-- The loop over tokill: the host, and toBroadcast.
unfoldable pub kill_loop : Platform → Clients → ChatHost → Outcome (ChatHost × List (List ℕ))
kill_loop w [] h = returns (h, [])
kill_loop w ((c, u) ∷ rest) h =
    kill_next (kill_loop w rest) ((h.users c).name ++ left) (kill_client w c h)

-- The loop over toBroadcast.
unfoldable pub broadcast_left : List (List ℕ) → ChatHost → ChatHost
broadcast_left [] h = h
broadcast_left (text ∷ rest) h =
    broadcast_left rest (broadcast_text none (msg_text_from_server ∷ text) h)

-- A new CChatClient that has been serviced once: in clients_, or disposed.
unfoldable pub after_startup : Platform → ℕ → ℕ → ChatHost × Bool → ChatHost
after_startup w now c (h, true) =
    set_user c (record (h.users c) { last_receive = now })
      (record h { clients = h.clients ++ c ∷ [] })
after_startup w now c (h, false) = dispose_client w c h

unfoldable pub make_client : ℕ → ChatHost → ChatHost
make_client p h =
    let c = h.made in
    set_user c (new_client p)
      (record h { made = suc c; stashed = λ q. if q == p then c else h.stashed q })

unfoldable pub greet_newcomer : Platform → Texts → ℕ → ℕ → ChatHost → Run ChatHost
greet_newcomer w t now p h =
    let started =
      service t now h.made (make_client p h) >>= λ r. done (after_startup w now h.made r) in
    if leb 99 (length h.clients) then done (record h { mgr = close_socket w p h.mgr }) else started

unfoldable pub greet_newcomers : Platform → Texts → ℕ → List ℕ → ChatHost → Run ChatHost
greet_newcomers w t now [] h = done h
greet_newcomers w t now (p ∷ rest) h =
    greet_newcomer w t now p h >>= λ h'. greet_newcomers w t now rest h'

-- ++generation_ if there are any.
unfoldable pub count_change : ℕ → ChatHost → ChatHost
count_change n h = if n == 0 then h else record h { generation = suc h.generation }

unfoldable pub accept_newcomers :
    Platform → Texts → ℕ → Option WsaError → Option WsaError → ChatHost → Run (Outcome ChatHost)
accept_newcomers w t now send receive h =
    let r = accept w h.mgr 100 send receive in
    greet_newcomers w t now r.1 (count_change (length r.1) (record h { mgr = r.0 })) >>= λ h'.
    done (returns h')

-- From the manager's poll on; its result none is the -1 at which the program exits.
unfoldable pub after_poll :
    Platform
    → Texts
    → ℕ
    → Option WsaError
    → Option WsaError
    → Option (List ℕ)
    → ChatHost
    → Run (Outcome ChatHost)
after_poll w t now send receive none h = done exits
after_poll w t now send receive (some active) h = service_active t now active h [] >>= λ r.
    let checked = check_clients now r.0.clients r.0 r.1 in
    let killed = kill_loop w checked.1 (count_change (length checked.1) checked.0) in
    and_then killed λ k. accept_newcomers w t now send receive (broadcast_left k.1 k.0)

unfoldable pub host_poll :
    Platform
    → Texts
    → ℕ
    → ℕ
    → List Round
    → Option WsaError
    → Option WsaError
    → ChatHost
    → Run (Outcome ChatHost)
host_poll w t time now rounds send receive h = poll w h.mgr true 100 time now rounds >>= λ r.
    after_poll w t now send receive r.1 (record h { mgr = r.0 })

-- kickUser: in a debug build its assertion fails, in another it does nothing.
unfoldable pub kick_user : Bool → List ℕ → ChatHost → Run (ChatHost × Bool)
kick_user debug user h = if debug then assert_failed else done (h, true)

-- open, with what CreateEtwork is told by the system: the host, and its result.
unfoldable pub host_opened : Option SocketManager → ChatHost → ChatHost × Bool
host_opened none h = (h, false)
host_opened (some m) h = (record h { mgr = m }, true)

unfoldable pub open_host :
    Platform
    → EtworkSettings
    → ℕ
    → Bool
    → Bool
    → (ℕ → ℕ)
    → (ℕ → Peer)
    → ℕ
    → Option WsaError
    → Option WsaError
    → Opening
    → ChatHost
    → ChatHost × Bool
open_host w defaults port reliable startup_fails fill heap now send receive opening h =
    host_opened
      (create_etwork w (host_settings defaults port reliable) startup_fails fill heap now send
        receive opening)
      h

-- The destructor: every client, and then the manager.
unfoldable pub dispose_clients : Platform → List ℕ → ChatHost → ChatHost
dispose_clients w [] h = h
dispose_clients w (c ∷ rest) h = dispose_clients w rest (dispose_client w c h)

unfoldable pub dispose_host : Platform → ChatHost → ChatHost
dispose_host w h =
    let gone = dispose_clients w h.clients h in record gone { mgr = destroy gone.mgr }

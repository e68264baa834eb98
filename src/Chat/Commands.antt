-- ===== src/Chat/Commands.antt =====
-- src/chatserver/chathost.cpp: serviceDiscovered, serviceKnown and serviceKeepalive.
use etwork.Common.{
  ℕ, zero, suc, ◌-◌, ◌/◌, ◌%◌, Bool, true, false, not, Option, none, some, List, [], ◌∷◌, ◌++◌,
  length, take, drop, ltb, leb, ◌==◌, if◌then◌else◌,
}
use etwork.Buffer.{message_count}
use etwork.Buffer.Run.{Run, done, no_fuel}
use etwork.Sockets.{read}
use etwork.Sockets.Manager.{set_connection}
use etwork.Chat.{
  Texts, Service, service_discovered, service_known, CChatClient, ChatHost, name_size, buf_size,
  msg_login, msg_text_to_server, msg_text_from_server, msg_login_accepted, msg_no_login, set_user,
  answer, is_closed, broadcast_text, validate_name,
}

-- The bytes before the first 0.
unfoldable pub c_string : List ℕ → List ℕ
c_string [] = []
c_string (b ∷ bs) = let rest = c_string bs in if b == 0 then [] else b ∷ rest

-- namelen, of a message of r bytes.
unfoldable pub name_length : ℕ → ℕ
name_length r = if leb name_size (r - 1) then name_size - 1 else r - 1

-- strncpy( name, &buf[1], namelen ); name[namelen] = 0;
unfoldable pub name_in : List ℕ → List ℕ
name_in buf = c_string (take (name_length (length buf)) (drop 1 buf))

-- strncmp( name, bytes, n ) == 0
unfoldable pub same_start : ℕ → List ℕ → List ℕ → Bool
same_start zero name bytes = true
same_start (suc n) [] [] = true
same_start (suc n) [] (b ∷ bs) = b == 0
same_start (suc n) (a ∷ as') [] = a == 0
same_start (suc n) (a ∷ as') (b ∷ bs) =
    let rest = same_start n as' bs in if a == b then (if a == 0 then true else rest) else false

unfoldable pub rename : ℕ → List ℕ → ChatHost → ChatHost
rename c name h = set_user c (record (h.users c) { name = name }) h

-- The "address" field of a client on a socket of this address.
unfoldable pub address_text : Texts → ℕ → List ℕ
address_text t addr =
    let dotted = take 31 (t.inet_ntoa (addr / 65536)) in
    if ltb (length dotted) 25 then dotted ++ take 8 (t.port_text (addr % 65536)) else dotted

-- After a login that was accepted.
unfoldable pub welcome : Texts → ℕ → ChatHost → ChatHost
welcome t c h =
    let told = answer c (msg_login_accepted ∷ []) h in
    let user = told.users c in
    let known : CChatClient = record user {
      service = service_known;
      address = address_text t (told.mgr.heap user.socket).addr;
    } in
    set_user c known (record told { generation = suc told.generation })

unfoldable pub login_answer : Texts → ℕ → ChatHost × Bool → ChatHost
login_answer t c (h, true) = welcome t c h
login_answer t c (h, false) = answer c (msg_no_login ∷ []) (rename c [] h)

unfoldable pub discovered_login : Texts → ℕ → List ℕ → ChatHost → ChatHost
discovered_login t c buf h = login_answer t c (validate_name c (rename c (name_in buf) h))

-- What a message does to a client: the host, and whether the loop goes on.
unfoldable pub handle_discovered : Texts → ℕ → List ℕ → ChatHost → ChatHost × Bool
handle_discovered t c [] h = (h, true)
handle_discovered t c (command ∷ bytes) h =
    if command == msg_login
    then (discovered_login t c (command ∷ bytes) h, true)
    else if command == msg_text_to_server
    then (answer c (msg_no_login ∷ []) h, true)
    else (h, false)

unfoldable pub known_answer : ℕ → ChatHost × Bool → ChatHost × Bool
known_answer c (h, true) = (answer c (msg_login_accepted ∷ []) h, true)
known_answer c (h, false) = (answer c (msg_no_login ∷ []) (rename c [] h), false)

unfoldable pub known_login : ℕ → List ℕ → ChatHost → ChatHost × Bool
known_login c buf h =
    let validated = known_answer c (validate_name c (rename c (name_in buf) h)) in
    if same_start (name_length (length buf)) (h.users c).name (drop 1 buf)
    then validated
    else (h, false)

-- r, with room for the name and the colon.
unfoldable pub text_size : ℕ → ℕ → ℕ
text_size r len = if ltb (buf_size - len - 1) r then buf_size - len - 1 else r

-- The text that goes to everybody: the command, the name, a colon, and the bytes that were sent.
unfoldable pub text_from : List ℕ → List ℕ → List ℕ
text_from name buf =
    msg_text_from_server ∷ name ++ 58 ∷ take (text_size (length buf) (length name) - 1) (drop 1 buf)

unfoldable pub known_text : ℕ → List ℕ → ChatHost → ChatHost
known_text c buf h =
    let sent = broadcast_text (some c) (text_from (h.users c).name buf) h in
    let user = sent.users c in
    set_user c (record user { num_messages = suc user.num_messages }) sent

unfoldable pub handle_known : ℕ → List ℕ → ChatHost → ChatHost × Bool
handle_known c [] h = (h, true)
handle_known c (command ∷ bytes) h =
    if command == msg_login
    then known_login c (command ∷ bytes) h
    else if command == msg_text_to_server
    then (known_text c (command ∷ bytes) h, true)
    else (h, false)

unfoldable pub handle : Service → Texts → ℕ → List ℕ → ChatHost → ChatHost × Bool
handle service_discovered t c buf h = handle_discovered t c buf h
handle service_known t c buf h = handle_known c buf h

-- socket_->read( buf, sizeof( buf ) ), with what it returns.
unfoldable pub read_from : ℕ → ChatHost → ChatHost × List ℕ × Option ℕ
read_from c h =
    let p = (h.users c).socket in
    let (s, buf, r) = read (h.mgr.heap p).socket buf_size in
    (record h { mgr = set_connection p s h.mgr }, buf, r)

unfoldable pub receive_at : ℕ → ℕ → ChatHost → ChatHost
receive_at now c h = set_user c (record (h.users c) { last_receive = now }) h

-- One round of the loop: an error of read ends it, an empty message is a keepalive.
unfoldable pub after_read :
    (ChatHost → Run (ChatHost × Bool))
    → Service
    → Texts
    → ℕ
    → ℕ
    → ChatHost × List ℕ × Option ℕ
    → Run (ChatHost × Bool)
after_read again f t now c (h, buf, none) = done (h, not (is_closed c h))
after_read again f t now c (h, buf, some r) =
    let handled = handle f t c buf (receive_at now c h) in
    let next = again handled.0 in if handled.1 then next else done handled

-- The loop of the function that service_ pointed at when it was called.
unfoldable pub service_loop : ℕ → Service → Texts → ℕ → ℕ → ChatHost → Run (ChatHost × Bool)
service_loop zero f t now c h = no_fuel
service_loop (suc n) f t now c h = after_read (service_loop n f t now c) f t now c (read_from c h)

unfoldable pub waiting_messages : ℕ → ChatHost → ℕ
waiting_messages c h = message_count (h.mgr.heap (h.users c).socket).socket.buf_in

-- (cc->*(cc->service_))( now )
unfoldable pub service : Texts → ℕ → ℕ → ChatHost → Run (ChatHost × Bool)
service t now c h = service_loop (suc (waiting_messages c h)) (h.users c).service t now c h

unfoldable pub service_keepalive : ℕ → ℕ → ChatHost → ChatHost × Bool
service_keepalive now c h =
    let sent = answer c [] h in
    let user = sent.users c in
    if is_closed c h
    then (h, false)
    else (set_user c (record user { last_keepalive = now }) sent, true)

-- ===== src/Chat/Arrays.antt =====
-- src/chatserver/chathost.cpp: the fixed arrays of the clients, and servicing a client.
pub mod Polls
use etwork.Common.{
  ℕ, zero, suc, ◌<◌, ◌≤◌, Bool, true, false, Option, none, some, List, [], ◌∷◌, ◌++◌, ◌≡◌, refl,
  ◌∙◌, sym, ap, inl, inr, arith, length, take, drop, ltb, leb, ◌==◌, ◌/◌, ◌%◌, ◌+◌, subst,
  length-append, length-take,
}
use etwork.Common.Map.{less_string, find}
use etwork.Errors.Wsa.{WsaError}
use etwork.Buffer.Run.{Run, done, assert_failed, no_fuel, ◌>>=◌}
use etwork.Sockets.Manager.{Platform, close_socket, erase_waiting}
use etwork.Sockets.Manager.Connecting.{accept}
use etwork.Sockets.Manager.Core.{if_both, Ends}
use etwork.Sockets.Manager.Polling.{Round, poll}
use etwork.Chat.{
  Texts, Service, service_discovered, service_known, service_known, CChatClient, ChatHost,
  name_size, address_size, msg_login, msg_text_to_server, set_user, answer, is_closed,
  broadcast_text, validate_found, validate_name, dispose_client, new_client, left,
  msg_text_from_server, msg_login_accepted, msg_no_login,
}
use etwork.Chat.Commands.{
  name_in, name_length, same_start, rename, address_text, welcome, login_answer, discovered_login,
  handle_discovered, known_answer, known_login, known_text, text_from, handle_known, handle,
  read_from, receive_at, after_read, service_loop, service, service_keepalive,
}
use etwork.Chat.Polling.{
  Outcome, returns, exits, undefined, and_then, Clients, kill_unless, service_active, check_times,
  check_clients, erase_named, kill_client, left_after, kill_next, kill_loop, broadcast_left,
  after_startup, make_client, greet_newcomer, greet_newcomers, count_change, accept_newcomers,
  after_poll, host_poll,
}
use etwork.Chat.Names.{name_in_fits}

-- What ":%d" comes to for the number of a port.
abbrev pub ShortPorts : Texts → Type 0
ShortPorts t = (port : ℕ) → port < 65536 → length (t.port_text port) ≤ 6

-- The name and the address fit into their arrays, with a terminator.
abbrev pub Fits : CChatClient → Type 0
Fits user = (length user.name < name_size) × (length user.address < address_size)

abbrev pub AllFit : ChatHost → Type 0
AllFit h = (c : ℕ) → Fits (h.users c)

-- What a poll that returns leaves.
abbrev pub Returned : {A : Type 0} → (A → Type 0) → Outcome A → Type 0
Returned P (returns a) = P a
Returned P exits = Unit {0}
Returned P undefined = Unit {0}

pub set_user-AllFit :
    (c : ℕ) (user : CChatClient) (h : ChatHost) → Fits user → AllFit h → AllFit (set_user c user h)
unfolding set_user
set_user-AllFit c user h fits all d = if_both Fits (d == c) user (h.users d) fits (all d)

validate_found-AllFit :
    (o : Option ℕ) (c : ℕ) (h : ChatHost) → AllFit h → AllFit (validate_found o c h).0
unfolding validate_found broadcast_text
validate_found-AllFit (some d) c h all = all
validate_found-AllFit none c h all = all

validate_name-AllFit : (c : ℕ) (h : ChatHost) → AllFit h → AllFit (validate_name c h).0
unfolding validate_name
validate_name-AllFit c h = validate_found-AllFit _ c h

rename-AllFit :
    (c : ℕ) (name : List ℕ) (h : ChatHost)
    → length name < name_size
    → AllFit h
    → AllFit (rename c name h)
unfolding rename
rename-AllFit c name h short all = set_user-AllFit c _ h (short, (all c).1) all

-- A client under the name of a login, if the host likes it.
validated-AllFit :
    (c : ℕ) (buf : List ℕ) (h : ChatHost)
    → AllFit h
    → AllFit (validate_name c (rename c (name_in buf) h)).0
validated-AllFit c buf h all =
    validate_name-AllFit c (rename c (name_in buf) h)
      (rename-AllFit c (name_in buf) h (name_in_fits buf) all)

address_text_fits :
    (t : Texts) (addr : ℕ) → ShortPorts t → length (address_text t addr) < address_size
unfolding address_text
address_text_fits t addr short =
    let dotted = take 31 (t.inet_ntoa (addr / 65536)) in
    let port = take 8 (t.port_text (addr % 65536)) in
    let a = length-take 31 (t.inet_ntoa (addr / 65536)) in
    let b = length-take 8 (t.port_text (addr % 65536)) in
    let c = length-append dotted port in let d = short (addr % 65536) (omega arith) in ground arith

module _ (t : Texts) (short : ShortPorts t) where
  welcome-AllFit : (c : ℕ) (h : ChatHost) → AllFit h → AllFit (welcome t c h)
  unfolding welcome answer set_user
  welcome-AllFit c h all = set_user-AllFit c _ h ((all c).0, address_text_fits t _ short) all

  login_answer-AllFit :
      (c : ℕ) (h : ChatHost) (ok : Bool) → AllFit h → AllFit (login_answer t c (h, ok))
  unfolding login_answer answer
  login_answer-AllFit c h true all = welcome-AllFit c h all
  login_answer-AllFit c h false all = rename-AllFit c [] h (omega arith) all

  handle_discovered-AllFit :
      (c : ℕ) (buf : List ℕ) (h : ChatHost) → AllFit h → AllFit (handle_discovered t c buf h).0
  unfolding handle_discovered discovered_login answer
  handle_discovered-AllFit c [] h all = all
  handle_discovered-AllFit c (command ∷ bytes) h all =
      let v = validate_name c (rename c (name_in (command ∷ bytes)) h) in
      if_both {A = ChatHost × Bool} (λ r. AllFit r.0) (command == msg_login) _ _
        (login_answer-AllFit c v.0 v.1 (validated-AllFit c (command ∷ bytes) h all))
        (if_both {A = ChatHost × Bool} (λ r. AllFit r.0) (command == msg_text_to_server) _ _ all
          all)

  known_answer-AllFit :
      (c : ℕ) (h : ChatHost) (ok : Bool) → AllFit h → AllFit (known_answer c (h, ok)).0
  unfolding known_answer answer
  known_answer-AllFit c h true all = all
  known_answer-AllFit c h false all = rename-AllFit c [] h (omega arith) all

  handle_known-AllFit :
      (c : ℕ) (buf : List ℕ) (h : ChatHost) → AllFit h → AllFit (handle_known c buf h).0
  unfolding handle_known known_login known_text broadcast_text set_user
  handle_known-AllFit c [] h all = all
  handle_known-AllFit c (command ∷ bytes) h all =
      let buf = command ∷ bytes in
      let v = validate_name c (rename c (name_in buf) h) in
      if_both {A = ChatHost × Bool} (λ r. AllFit r.0) (command == msg_login) _ _
        (if_both {A = ChatHost × Bool} (λ r. AllFit r.0)
          (same_start (name_length (length buf)) (h.users c).name (drop 1 buf)) _ _
          (known_answer-AllFit c v.0 v.1 (validated-AllFit c buf h all)) all)
        (if_both {A = ChatHost × Bool} (λ r. AllFit r.0) (command == msg_text_to_server) _ _
          (set_user-AllFit c _ h (all c) all) all)

  handle-AllFit :
      (f : Service) (c : ℕ) (buf : List ℕ) (h : ChatHost) → AllFit h → AllFit (handle f t c buf h).0
  unfolding handle
  handle-AllFit service_discovered c buf h = handle_discovered-AllFit c buf h
  handle-AllFit service_known c buf h = handle_known-AllFit c buf h

  after_read-AllFit :
      (again : ChatHost → Run (ChatHost × Bool)) (f : Service) (now c : ℕ) (h : ChatHost)
      (buf : List ℕ) (o : Option ℕ)
      → ((g : ChatHost) → AllFit g → Ends (λ r. AllFit r.0) (again g))
      → AllFit h
      → Ends (λ r. AllFit r.0) (after_read again f t now c (h, buf, o))
  unfolding after_read receive_at
  after_read-AllFit again f now c h buf none goes all = all
  after_read-AllFit again f now c h buf (some k) goes all =
      let handled = handle f t c buf (receive_at now c h) in
      let fit = handle-AllFit f c buf (receive_at now c h) (set_user-AllFit c _ h (all c) all) in
      if_both (Ends (λ r. AllFit r.0)) handled.1 _ _ (goes handled.0 fit) fit

  service_loop-AllFit :
      (n : ℕ) (f : Service) (now c : ℕ) (h : ChatHost)
      → AllFit h
      → Ends (λ r. AllFit r.0) (service_loop n f t now c h)
  unfolding service_loop read_from
  service_loop-AllFit zero f now c h all = tt
  service_loop-AllFit (suc n) f now c h all =
      let r = read_from c h in
      after_read-AllFit (service_loop n f t now c) f now c r.0 r.1 r.2
        (service_loop-AllFit n f now c) all

  pub service-AllFit :
      (now c : ℕ) (h : ChatHost) → AllFit h → Ends (λ r. AllFit r.0) (service t now c h)
  unfolding service
  service-AllFit now c h = service_loop-AllFit _ _ now c h

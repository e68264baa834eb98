-- ===== src/Chat/Tests.antt =====
-- src/chatserver/chathost.cpp at concrete input: a host with one client, "ann" where it has logged in.
use etwork.Common.{
  take, ℕ, suc, ◌+◌, ◌≤◌, ◌<◌, Bool, true, false, none, some, List, [], ◌∷◌, ◌≡◌, ◌≢◌, refl, ◌⊎◌,
  arith, length, ◌==◌, if◌then◌else◌,
}
use etwork.Common.Map.{less_string, find, insert}
use etwork.Buffer.Run.{Run, done}
use etwork.Sockets.{EtworkSettings, new_socket, read, write}
use etwork.Sockets.Manager.{
  Platform, Peer, new_socket_manager, set_connection, store, regenerate_sets, call,
}
use etwork.Chat.{
  Texts, service_known, ChatHost, new_client, msg_login, validate_name, broadcast_text, buf_size,
  is_closed, set_user, answer, write_to, validate_found, broadcast_loop,
}
use etwork.Chat.Commands.{
  service, handle_known, text_from, service_keepalive, service_loop, after_read, read_from, handle,
  handle_discovered, waiting_messages, discovered_login, login_answer, rename, receive_at, name_in,
  c_string, name_length, welcome,
}
use etwork.Chat.Polling.{
  after_startup, Outcome, undefined, returns, after_poll, host_poll, service_active, and_then,
  kill_loop, check_clients, kill_unless, check_times, accept_newcomers, greet_newcomers,
  broadcast_left, count_change, greet_newcomer, make_client,
}
use etwork.Chat.Reading.{service_done}
use etwork.Sockets.Manager.Polling.{poll, poll_loop, no_more_actives, notify_active, notify_all}
use etwork.Sockets.Manager.Service.{timeout_sockets, timeout_loop}
use etwork.Sockets.Manager.Connecting.{
  accept, accept_loop, change_queuing_space, register, needed_space, set_space,
}
use etwork.Buffer.{get_message, message_count}
use etwork.Chat.Arrays.{ShortPorts, AllFit}
use etwork.Chat.Arrays.Polls.{host_poll-AllFit}
use etwork.Chat.Names.{whole_text, text_from_fits, writes, broadcast_text-writes, validate_name_lem}
use etwork.Chat.Leaving.{after_poll_stranger}
use etwork.Chat.Relogin.{relogin_prefix}

abbrev platform : Platform
platform = record { fd_setsize = 64; fd_set = λ s set. s ∷ set; debug_build = false }

abbrev texts : Texts
texts = record { inet_ntoa = λ n. 49 ∷ []; port_text = λ n. 58 ∷ 56 ∷ [] }

abbrev server : EtworkSettings
server = record {
  etwork_version = 318771968;
  max_message_count = 50;
  max_message_size = 1400;
  queue_size = 4000;
  port = 11001;
  reliable = true;
  accepting = true;
  debug = true;
  keepalive = 45;
  timeout = 200;
}

abbrev blank : Peer
blank = record {
  handle = 0;
  addr = 0;
  is_accepted = true;
  has_notify = false;
  socket = new_socket (λ i. 0) server 0;
}

abbrev ann : List ℕ
ann = 97 ∷ 110 ∷ 110 ∷ []

-- A client on socket 0 that has just connected, and one that has logged in.
abbrev stranger : ChatHost
stranger = record {
  generation = 1;
  clients = 0 ∷ [];
  mgr = new_socket_manager platform server (λ i. 0) (λ p. blank) 7;
  named_clients = [];
  users = λ c. new_client 0;
  made = 1;
  stashed = λ p. 0;
}

abbrev ann_in : ChatHost
ann_in = record stranger {
  named_clients = (ann, 0) ∷ [];
  users = λ c. record (new_client 0) { name = ann; service = service_known };
}

service_done_example : (r : (ChatHost × Bool)) × (service texts 5 0 ann_in ≡ done r)
service_done_example = service_done texts 5 0 ann_in

text_from_fits_example :
    (text_from ann (129 ∷ 104 ∷ 105 ∷ []) ≡ take buf_size (whole_text ann (129 ∷ 104 ∷ 105 ∷ [])))
    × (length (text_from ann (129 ∷ 104 ∷ 105 ∷ [])) ≤ buf_size)
text_from_fits_example =
    text_from_fits ann (129 ∷ 104 ∷ 105 ∷ []) (omega arith) (omega arith) (omega arith)

broadcast_text-writes_example :
    ((broadcast_text (some 0) (192 ∷ 104 ∷ []) ann_in).mgr.heap 0).socket
    ≡ writes 0 ann_in.users ann_in.named_clients (192 ∷ 104 ∷ []) (ann_in.mgr.heap 0).socket
broadcast_text-writes_example = broadcast_text-writes (some 0) (192 ∷ 104 ∷ []) ann_in 0

validate_name_lem_example :
    let name = (ann_in.users 1).name in
    let held = find less_string name ann_in.named_clients in
    let r = validate_name 1 ann_in in
    ((held ≡ none)
      × (r.1 ≡ true)
      × (find less_string name r.0.named_clients ≡ some 1)
      × (length r.0.named_clients ≡ suc (length ann_in.named_clients))
      × (r.0.generation ≡ suc ann_in.generation)
      × (r.0.users ≡ ann_in.users))
    ⊎ (((held ≡ some 1) × (r ≡ (ann_in, true)))
        ⊎ ((d : ℕ) × (d ≢ 1) × (held ≡ some d) × (r ≡ (ann_in, false))))
validate_name_lem_example = validate_name_lem 1 ann_in

silent : (stranger.users 0).last_receive + 60 < 90
unfolding new_client
silent = omega arith

unnamed : find less_string (stranger.users 0).name stranger.named_clients ≡ none
unfolding find
unnamed = refl

after_poll_stranger_example :
    after_poll platform texts 90 none none (some []) stranger ≡ done undefined
after_poll_stranger_example =
    after_poll_stranger platform texts 90 0 none none stranger refl silent unnamed

nobody_an : find less_string (97 ∷ 110 ∷ []) ann_in.named_clients ≡ none
unfolding find
nobody_an = refl

known_as_ann : find less_string ann ann_in.named_clients ≡ some 0
unfolding find
known_as_ann = refl

relogin_prefix_example :
    let r = handle_known 0 (msg_login ∷ 97 ∷ 110 ∷ []) ann_in in
    (r.1 ≡ true)
    × (find less_string (97 ∷ 110 ∷ []) r.0.named_clients ≡ some 0)
    × (find less_string ann r.0.named_clients ≡ some 0)
    × (length r.0.named_clients ≡ suc (length ann_in.named_clients))
relogin_prefix_example =
    relogin_prefix 0 110 (97 ∷ 110 ∷ []) [] ann_in refl (omega arith, (omega arith, tt))
      (omega arith) nobody_an known_as_ann

-- Bob has connected, and his login waits.
abbrev bob : Peer
bob = record blank {
  handle = 1;
  is_accepted = false;
  socket = record blank.socket {
    buf_in = record blank.socket.buf_in {
      queue = record { offset = 4; size = 4; payload = msg_login ∷ 98 ∷ 111 ∷ 98 ∷ [] } ∷ [];
      written = 4;
    };
  };
}

abbrev bob_waits : ChatHost
bob_waits = record ann_in {
  mgr = record ann_in.mgr { waiting = 1 ∷ []; heap = λ p. if p == 1 then bob else blank };
}

abbrev host_of : Run (Outcome ChatHost) → ChatHost
host_of (done (returns h)) = h
host_of r = ann_in

-- Ann is told that the host is there, and bob logs in.
abbrev greeted : Run (Outcome ChatHost)
greeted = host_poll platform texts 5 30 [] none none bob_waits

greeted_returns :
    (greeted ≡ done (returns (host_of greeted)))
    × (((host_of greeted).users 1).name ≡ 98 ∷ 111 ∷ 98 ∷ [])
unfolding host_poll poll poll_loop timeout_sockets timeout_loop new_socket_manager after_poll
    no_more_actives service_active and_then kill_loop check_clients kill_unless check_times
    new_client service_keepalive is_closed notify_active notify_all new_socket accept_newcomers
    greet_newcomers accept accept_loop broadcast_left count_change set_user answer write_to
    set_connection store greet_newcomer service service_loop after_read read_from read get_message
    make_client regenerate_sets change_queuing_space register needed_space insert set_space call
    handle handle_discovered waiting_messages message_count discovered_login login_answer
    validate_name validate_found find rename receive_at name_in c_string name_length welcome
    broadcast_text write broadcast_loop after_startup
greeted_returns = (refl, refl)

bob_waits-AllFit : AllFit bob_waits
unfolding new_client
bob_waits-AllFit c = (omega arith, omega arith)

short_ports : ShortPorts texts
short_ports port small = omega arith

host_poll-AllFit_example : AllFit (host_of greeted)
host_poll-AllFit_example =
    host_poll-AllFit platform texts 5 30 [] none none bob_waits (host_of greeted) short_ports
      bob_waits-AllFit greeted_returns.0

-- ===== src/Sockets/Manager/Tests.antt =====
-- src/lib/socketbase.cpp at concrete input: a manager that listens, to which two clients connect,
-- of which one is accepted and one closed.
use etwork.Common.{
  Bool, [], arith, drop, false, length, ltb, none, refl, some, subst, suc, sym, take, true, ℕ, ◌+◌,
  ◌<◌, ◌∷◌, ◌≡◌, ◌≤◌,
}
use etwork.Common.Map.{find}
use etwork.Buffer.Run.{done}
use etwork.Sockets.{EtworkSettings, new_socket}
use etwork.Sockets.Manager.{
  Platform, Peer, SocketManager, new_socket_manager, close_socket, remove_socket, regenerate_sets,
  allocate, new_peer, store, mem, is_taken, socket_id, call, remove_found, remove_waiting,
  close_handle,
}
use etwork.Sockets.Manager.Connecting.{opened, open_listening, «open», accept}
use etwork.Sockets.Manager.Datagrams.{arrived, await, listening_accept}
use etwork.Sockets.Manager.Ids.{socket_id_fresh}
use etwork.Sockets.Manager.View.{IsConsistent, view, false≢true}
use etwork.Sockets.Manager.Core.Arrives.{HasIds, true≢false}
use etwork.Sockets.Manager.Reach.{arrives, user_disposes, Reach, start, later, Reach-IsConsistent}
use etwork.Sockets.Manager.Safety.{IsForgotten, closed-IsForgotten, remove_socket_found, accept_lem}
use etwork.Common.Map.{erase, insert}
use etwork.Errors.Wsa.{wsaewouldblock}
use etwork.Buffer.Run.{Run, assert_failed, bad_access, no_fuel}
use etwork.Sockets.{received, would_block, do_read, wants_to_read}
use etwork.Sockets.Manager.{
  set_all, max_of, set_connection, mark, remove_found, remove_waiting, close_handle, remove_socket,
}
use etwork.Sockets.Manager.Connecting.{
  accept_loop, register, change_queuing_space, needed_space, spare_space, set_space,
}
use etwork.Sockets.Manager.Datagrams.{no_arrival}
use etwork.Sockets.Manager.Service.{
  Answers, ready, timeout_sockets, timeout_loop, service_round, service_loop, service_read,
  read_socket, do_read_of, after_read, recv_told, settle, then_loop, write_again,
}
use etwork.Sockets.Manager.Polling.{
  Round, PollResult, poll, poll_loop, serve_selected, round_end, goes_again, no_more_actives,
  notify_active, notify_all,
}
use etwork.Sockets.Manager.Room.{poll-HasRoom}
use etwork.Sockets.Manager.Sending.{handle_listening_write_done}
use etwork.Sockets.Manager.Datagrams.{handle_listening_write}
use etwork.Buffer.{space_used, message_count, new_impl}
use etwork.Sockets

abbrev platform : Platform
platform = record { fd_setsize = 64; fd_set = λ s set. s ∷ set; debug_build = false }

abbrev server : EtworkSettings
server = record {
  etwork_version = 318771968;
  max_message_count = 50;
  max_message_size = 1400;
  queue_size = 4000;
  port = 11001;
  reliable = true;
  accepting = true;
  debug = false;
  keepalive = 45;
  timeout = 200;
}

abbrev blank : Peer
blank = record {
  handle = 0;
  addr = 0;
  is_accepted = false;
  has_notify = false;
  socket = new_socket (λ i. 0) server 0;
}

abbrev fresh : SocketManager
fresh = new_socket_manager platform server (λ i. 0) (λ p. blank) 7

abbrev listens : SocketManager
listens = («open» platform fresh server none none (opened 100)).0

listens-Reach : Reach platform listens
unfolding new_socket_manager
listens-Reach = start server (λ i. 0) (λ p. blank) 7 none none (opened 100)

abbrev one_waits : SocketManager
one_waits = await (allocate listens 5 (101, listens.next_socket))

one_waits-Reach : Reach platform one_waits
unfolding new_socket_manager «open» open_listening regenerate_sets listening_accept new_peer find
    mem
one_waits-Reach = later listens-Reach (
    arrives (arrived 101 5) true
      (λ s a e. (λ r. (refl, λ q h. absurd (false≢true h)), λ r. absurd (true≢false r))) refl)

Reach-IsConsistent_example : IsConsistent (view one_waits)
Reach-IsConsistent_example = Reach-IsConsistent platform one_waits one_waits-Reach

one_more : one_waits.allocated ≡ 1
unfolding new_socket_manager «open» open_listening regenerate_sets await allocate store
one_more = refl

is_open : (one_waits.heap 0).socket.closed ≡ false
unfolding new_socket_manager «open» open_listening regenerate_sets await allocate store new_socket
is_open = refl

remove_socket_found_example : (remove_socket platform 0 one_waits).calls ≡ one_waits.calls
remove_socket_found_example =
    remove_socket_found platform one_waits 0 one_waits-Reach
      (subst (λ n. 0 < n) (sym one_more) (omega arith)) is_open

accept_lem_example :
    let r = accept platform one_waits 3 none none in
    (r.1 ≡ take 3 one_waits.waiting)
    × (r.0.waiting ≡ drop 3 one_waits.waiting)
    × ((p : ℕ) → mem p r.1 ≡ true → find ltb (one_waits.heap p).handle r.0.sockets ≡ some p)
accept_lem_example = accept_lem platform one_waits 3 none none one_waits-Reach

abbrev one_gone : SocketManager
one_gone = close_socket platform 0 one_waits

one_gone-Reach : Reach platform one_gone
one_gone-Reach =
    later one_waits-Reach (user_disposes 0 (subst (λ n. 0 < n) (sym one_more) (omega arith)))

is_closed : (one_gone.heap 0).socket.closed ≡ true
unfolding new_socket_manager «open» open_listening regenerate_sets await allocate store new_socket
    close_socket remove_socket remove_found remove_waiting close_handle call find mem
is_closed = refl

closed-IsForgotten_example : IsForgotten 0 one_gone
closed-IsForgotten_example = closed-IsForgotten platform one_gone 0 one_gone-Reach is_closed

ids_left : HasIds listens
unfolding new_socket_manager «open» open_listening regenerate_sets
ids_left = omega arith

socket_id_fresh_example :
    (id : ℕ) × (socket_id listens ≡ done (id, suc id))
    × (is_taken listens id ≡ false)
    × (listens.next_socket ≤ id)
    × (id < listens.next_socket + length listens.sockets + 2)
socket_id_fresh_example = socket_id_fresh listens ids_left

-- The client is accepted, and then it closes its end.
abbrev one_in : SocketManager
one_in = (accept platform one_waits 1 none none).0

abbrev hangs_up : Answers
hangs_up = record {
  recv = λ s. received [];
  send = λ s. would_block;
  except = λ s. none;
  last_error = λ s. wsaewouldblock;
  arrival = no_arrival wsaewouldblock;
  datagrams = [];
  end_of_datagrams = wsaewouldblock;
  sendto_answer = λ n. none;
  no_error = wsaewouldblock;
}

abbrev one_round : Round
one_round = record { before = 8; selected = ready (101 ∷ []) [] []; answers = hangs_up; after = 9 }

abbrev polled : Run PollResult
polled = poll platform one_in true 2 1 8 (one_round ∷ [])

abbrev manager_of : Run PollResult → SocketManager
manager_of (done r) = r.0
manager_of assert_failed = one_in
manager_of bad_access = one_in
manager_of no_fuel = one_in

polled_out : polled ≡ done (manager_of polled, some (0 ∷ []))
unfolding new_socket_manager «open» open_listening regenerate_sets await allocate store new_socket
    close_socket remove_socket remove_found remove_waiting close_handle call find mem accept
    accept_loop register change_queuing_space needed_space spare_space set_space poll poll_loop
    timeout_sockets timeout_loop serve_selected service_round service_loop service_read read_socket
    do_read_of do_read after_read recv_told settle set_connection mark then_loop round_end
    goes_again no_more_actives notify_active notify_all wants_to_read insert erase set_all max_of
    write_again space_used new_impl message_count Sockets.close_socket
polled_out = refl

in_reliable : one_in.settings.reliable ≡ true
unfolding new_socket_manager «open» open_listening regenerate_sets await allocate store call accept
    accept_loop register change_queuing_space needed_space spare_space set_space insert
in_reliable = refl

in_room : length (timeout_sockets platform (record one_in { active = []; cur_time = 8 })).active < 2
unfolding new_socket_manager «open» open_listening regenerate_sets await allocate store new_socket
    call accept accept_loop register change_queuing_space needed_space spare_space set_space
    timeout_sockets timeout_loop insert
in_room = omega arith

poll-HasRoom_example : length {A = ℕ} (0 ∷ []) ≤ 2
poll-HasRoom_example =
    poll-HasRoom platform one_in 2 1 8 (one_round ∷ []) (0 ∷ []) (manager_of polled) in_reliable
      in_room polled_out

-- An unreliable manager with a message to send.
abbrev datagrams_out : SocketManager
datagrams_out = record fresh {
  settings = record server { reliable = false };
  listening = 100;
  sockets = (5, 0) ∷ [];
  heap = λ p. record blank {
    handle = 5;
    socket = record (new_socket (λ i. 0) server 0) {
      buf_out = record (new_impl (λ i. 0) 1400 4000 50) {
        queue = record { offset = 0; size = 1; payload = 9 ∷ [] } ∷ [];
        written = 1;
      };
    };
  };
  allocated = 1;
}

handle_listening_write_done_example :
    (r : (SocketManager × Bool)) × (handle_listening_write datagrams_out (λ n. none) 3 ≡ done r)
unfolding new_socket_manager new_socket new_impl
handle_listening_write_done_example =
    handle_listening_write_done datagrams_out (λ n. none) 3 refl ((refl, (omega arith, tt)), tt)

-- ===== src/Chat/Arrays/Polls.antt =====
-- src/chatserver/chathost.cpp: the fixed arrays of the clients, through a poll of the host.
use etwork.Common.{
  ℕ, Bool, true, false, Option, none, some, List, [], ◌∷◌, ◌≡◌, arith, length, ltb, leb, ◌==◌, ◌+◌,
  subst,
}
use etwork.Common.Map.{less_string, find}
use etwork.Errors.Wsa.{WsaError}
use etwork.Buffer.Run.{Run, done, assert_failed, bad_access, no_fuel}
use etwork.Sockets.Manager.{mem, Platform}
use etwork.Sockets.Manager.Connecting.{accept}
use etwork.Sockets.Manager.Core.{if_both, Ends, Ends->>=}
use etwork.Sockets.Manager.Polling.{Round, poll}
use etwork.Chat.{
  Texts, ChatHost, set_user, answer, is_closed, broadcast_text, dispose_client, new_client,
  msg_text_from_server,
}
use etwork.Chat.Commands.{service, service_keepalive}
use etwork.Chat.Polling.{
  Outcome, returns, exits, undefined, and_then, Clients, kill_unless, service_active, check_times,
  check_clients, erase_named, kill_client, left_after, kill_next, kill_loop, broadcast_left,
  after_startup, make_client, greet_newcomer, greet_newcomers, count_change, accept_newcomers,
  after_poll, host_poll,
}
use etwork.Chat.Arrays.{ShortPorts, AllFit, Returned, set_user-AllFit, service-AllFit}

module _ (t : Texts) (short : ShortPorts t) where
  service_active-AllFit :
      (now : ℕ) (active : List ℕ) (h : ChatHost) (to_kill : Clients)
      → AllFit h
      → Ends (λ r. AllFit r.0) (service_active t now active h to_kill)
  unfolding service_active
  service_active-AllFit now [] h to_kill all = all
  service_active-AllFit now (p ∷ rest) h to_kill all =
      let c = h.stashed p in
      Ends->>= (λ r. AllFit r.0) (λ r. AllFit r.0) (service t now c h) _
        (service-AllFit t short now c h all)
        (λ r fit. service_active-AllFit now rest r.0 (kill_unless r.1 c to_kill) fit)

  make_client-AllFit : (p : ℕ) (h : ChatHost) → AllFit h → AllFit (make_client p h)
  unfolding make_client new_client set_user
  make_client-AllFit p h all =
      set_user-AllFit h.made (new_client p) h (omega arith, omega arith) all

  after_startup-AllFit :
      (w : Platform) (now c : ℕ) (r : ChatHost × Bool)
      → AllFit r.0
      → AllFit (after_startup w now c r)
  unfolding after_startup dispose_client set_user
  after_startup-AllFit w now c (h, true) all = set_user-AllFit c _ h (all c) all
  after_startup-AllFit w now c (h, false) all = all

  greet_newcomer-AllFit :
      (w : Platform) (now p : ℕ) (h : ChatHost)
      → AllFit h
      → Ends AllFit (greet_newcomer w t now p h)
  unfolding greet_newcomer
  greet_newcomer-AllFit w now p h all = if_both (Ends AllFit) (leb 99 (length h.clients)) _ _ all (
      Ends->>= (λ r. AllFit r.0) AllFit (service t now h.made (make_client p h)) _
        (service-AllFit t short now h.made (make_client p h) (make_client-AllFit p h all))
        (λ r fit. after_startup-AllFit w now h.made r fit))

  greet_newcomers-AllFit :
      (w : Platform) (now : ℕ) (made : List ℕ) (h : ChatHost)
      → AllFit h
      → Ends AllFit (greet_newcomers w t now made h)
  unfolding greet_newcomers
  greet_newcomers-AllFit w now [] h all = all
  greet_newcomers-AllFit w now (p ∷ rest) h all =
      Ends->>= AllFit AllFit (greet_newcomer w t now p h) _ (greet_newcomer-AllFit w now p h all)
        (greet_newcomers-AllFit w now rest)

  check_times-AllFit : (now c : ℕ) (h : ChatHost) → AllFit h → AllFit (check_times now c h).0
  unfolding check_times service_keepalive answer set_user
  check_times-AllFit now c h all =
      let user = h.users c in
      if_both {A = ChatHost × Bool} (λ r. AllFit r.0) (ltb (user.last_receive + 60) now) _ _ all
        (if_both {A = ChatHost × Bool} (λ r. AllFit r.0) (ltb (user.last_keepalive + 20) now) _ _
          (if_both {A = ChatHost × Bool} (λ r. AllFit r.0) (is_closed c h) _ _ all
            (set_user-AllFit c _ h (all c) all))
          all)

  check_clients-AllFit :
      (now : ℕ) (clients : List ℕ) (h : ChatHost) (to_kill : Clients)
      → AllFit h
      → AllFit (check_clients now clients h to_kill).0
  unfolding check_clients
  check_clients-AllFit now [] h to_kill all = all
  check_clients-AllFit now (c ∷ rest) h to_kill all =
      check_clients-AllFit now rest (check_times now c h).0 _ (check_times-AllFit now c h all)

  kill_client-AllFit :
      (w : Platform) (c : ℕ) (h : ChatHost) → AllFit h → Returned AllFit (kill_client w c h)
  unfolding kill_client erase_named dispose_client
  kill_client-AllFit w c h all = erased (find less_string (h.users c).name h.named_clients)
    where
      erased : (o : Option ℕ) → Returned AllFit (erase_named w o c h)
      erased none = tt
      erased (some d) = if_both (Returned AllFit) (mem c h.clients) _ undefined all tt

  left_after-AllFit :
      (text : List ℕ) (o : Outcome (ChatHost × List (List ℕ)))
      → Returned (λ r. AllFit r.0) o
      → Returned (λ r. AllFit r.0) (left_after text o)
  unfolding left_after
  left_after-AllFit text (returns (h, texts)) all = all
  left_after-AllFit text exits all = tt
  left_after-AllFit text undefined all = tt

  kill_next-AllFit :
      (again : ChatHost → Outcome (ChatHost × List (List ℕ))) (text : List ℕ) (o : Outcome ChatHost)
      → ((h : ChatHost) → AllFit h → Returned (λ r. AllFit r.0) (again h))
      → Returned AllFit o
      → Returned (λ r. AllFit r.0) (kill_next again text o)
  unfolding kill_next
  kill_next-AllFit again text (returns h) goes all = left_after-AllFit text (again h) (goes h all)
  kill_next-AllFit again text exits goes all = tt
  kill_next-AllFit again text undefined goes all = tt

  kill_loop-AllFit :
      (w : Platform) (to_kill : Clients) (h : ChatHost)
      → AllFit h
      → Returned (λ r. AllFit r.0) (kill_loop w to_kill h)
  unfolding kill_loop
  kill_loop-AllFit w [] h all = all
  kill_loop-AllFit w ((c, u) ∷ rest) h all =
      kill_next-AllFit (kill_loop w rest) _ (kill_client w c h) (kill_loop-AllFit w rest)
        (kill_client-AllFit w c h all)

  broadcast_left-AllFit :
      (texts : List (List ℕ)) (h : ChatHost) → AllFit h → AllFit (broadcast_left texts h)
  unfolding broadcast_left broadcast_text
  broadcast_left-AllFit [] h all = all
  broadcast_left-AllFit (text ∷ rest) h all =
      broadcast_left-AllFit rest (broadcast_text none (msg_text_from_server ∷ text) h) all

  count_change-AllFit : (n : ℕ) (h : ChatHost) → AllFit h → AllFit (count_change n h)
  unfolding count_change
  count_change-AllFit n h all = if_both AllFit (n == 0) _ _ all all

  accept_newcomers-AllFit :
      (w : Platform) (now : ℕ) (send receive : Option WsaError) (h : ChatHost)
      → AllFit h
      → Ends (Returned AllFit) (accept_newcomers w t now send receive h)
  unfolding accept_newcomers
  accept_newcomers-AllFit w now send receive h all =
      let r = accept w h.mgr 100 send receive in
      let host : ChatHost = record h { mgr = r.0 } in
      Ends->>= AllFit (Returned AllFit)
        (greet_newcomers w t now r.1 (count_change (length r.1) host)) _
        (greet_newcomers-AllFit w now r.1 _ (count_change-AllFit (length r.1) host all))
        (λ h' fit. fit)

  and_then-AllFit :
      (o : Outcome (ChatHost × List (List ℕ)))
      (f : ChatHost × List (List ℕ) → Run (Outcome ChatHost))
      → Returned (λ r. AllFit r.0) o
      → ((r : ChatHost × List (List ℕ)) → AllFit r.0 → Ends (Returned AllFit) (f r))
      → Ends (Returned AllFit) (and_then o f)
  unfolding and_then
  and_then-AllFit (returns r) f all goes = goes r all
  and_then-AllFit exits f all goes = tt
  and_then-AllFit undefined f all goes = tt

  after_poll-AllFit :
      (w : Platform) (now : ℕ) (send receive : Option WsaError) (o : Option (List ℕ)) (h : ChatHost)
      → AllFit h
      → Ends (Returned AllFit) (after_poll w t now send receive o h)
  unfolding after_poll
  after_poll-AllFit w now send receive none h all = tt
  after_poll-AllFit w now send receive (some active) h all =
      Ends->>= (λ r. AllFit r.0) (Returned AllFit) (service_active t now active h []) _
        (service_active-AllFit now active h [] all)
        λ r fit.
          let checked = check_clients now r.0.clients r.0 r.1 in
          let changed = count_change (length checked.1) checked.0 in
          and_then-AllFit (kill_loop w checked.1 changed) _
            (kill_loop-AllFit w checked.1 changed (
              count_change-AllFit (length checked.1) checked.0
                (check_clients-AllFit now r.0.clients r.0 r.1 fit)))
            (λ k fit'.
              accept_newcomers-AllFit w now send receive _ (broadcast_left-AllFit k.1 k.0 fit'))

-- The name and the address of every client fit into their arrays with a terminator, after a poll of
-- the host as before it, whatever the clients sent: a login that is too long is cut. The text of a
-- port has at most six bytes.
pub host_poll-AllFit :
    (w : Platform) (t : Texts) (time now : ℕ) (rounds : List Round) (send receive : Option WsaError)
    (h h' : ChatHost)
    → ShortPorts t
    → AllFit h
    → host_poll w t time now rounds send receive h ≡ done (returns h')
    → AllFit h'
unfolding host_poll
host_poll-AllFit w t time now rounds send receive h h' short all e =
    subst (Ends (Returned AllFit)) e (
      Ends->>= (λ _. Unit {0}) (Returned AllFit) (poll w h.mgr true 100 time now rounds) _
        (ended (poll w h.mgr true 100 time now rounds))
        (λ r _. after_poll-AllFit t short w now send receive r.1 (record h { mgr = r.0 }) all))
  where
    ended : {A : Type 0} (r : Run A) → Ends (λ _. Unit {0}) r
    ended (done a) = tt
    ended assert_failed = tt
    ended bad_access = tt
    ended no_fuel = tt

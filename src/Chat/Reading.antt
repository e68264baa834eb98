-- ===== src/Chat/Reading.antt =====
-- src/chatserver/chathost.cpp: the loop of serviceDiscovered and serviceKnown, over the messages
-- that wait on the client's socket.
use etwork.Common.{
  ℕ, zero, suc, ◌<◌, Bool, true, false, not, Option, none, some, List, [], ◌∷◌, ◌≡◌, refl, sym, ◌∙◌,
  ap, ◌⊎◌, inl, inr, arith, length, drop, ltb, ◌==◌, Bool-cases, ==_iff,
}
use etwork.Buffer.{Impl, Message, take_front, get_message, message_count}
use etwork.Buffer.Run.{Run, done}
use etwork.Sockets.{read, write}
use etwork.Sockets.Manager.{SocketManager, set_connection, store}
use etwork.Chat.{
  Texts, Service, service_discovered, service_known, CChatClient, ChatHost, set_user, write_to,
  answer, is_closed, broadcast_loop, broadcast_text, validate_found, validate_name, buf_size,
  msg_login, msg_text_to_server, msg_login_accepted, msg_no_login,
}
use etwork.Sockets.Manager.Core.{if_both, if_true, if_false}
use etwork.Chat.Commands.{
  name_in, name_length, same_start, text_from, rename, welcome, login_answer, discovered_login,
  handle_discovered, known_answer, known_login, known_text, handle_known, handle, read_from,
  receive_at, after_read, service_loop, waiting_messages, service,
}

-- The messages that wait on each socket, and the socket of each client: what handling a message
-- leaves as it is.
abbrev SameQueues : ChatHost → ChatHost → Type 0
SameQueues h h' =
    ((p : ℕ) → (h'.mgr.heap p).socket.buf_in ≡ (h.mgr.heap p).socket.buf_in)
    × ((c : ℕ) → (h'.users c).socket ≡ (h.users c).socket)

same_queues : (h : ChatHost) → SameQueues h h
same_queues h = (λ p. refl, λ c. refl)

then_same : (h h' h'' : ChatHost) → SameQueues h h' → SameQueues h' h'' → SameQueues h h''
then_same h h' h'' (a, b) (a', b') = (λ p. a' p ∙ a p, λ c. b' c ∙ b c)

write_to-queues :
    (p q : ℕ) (bytes : List ℕ) (m : SocketManager)
    → ((write_to p bytes m).heap q).socket.buf_in ≡ (m.heap q).socket.buf_in
unfolding write_to set_connection store write
write_to-queues p q bytes m = elim (Bool-cases (q == p)) [
  | inl e ↦ rw e (ap (λ x. (m.heap x).socket.buf_in) (sym ((==_iff q p).0 e)))
  | inr e ↦ rw e refl
]

broadcast_loop-queues :
    (named : List (List ℕ × ℕ)) (users : ℕ → CChatClient) (text : List ℕ) (m : SocketManager)
    (q : ℕ)
    → ((broadcast_loop named users text m).heap q).socket.buf_in ≡ (m.heap q).socket.buf_in
unfolding broadcast_loop
broadcast_loop-queues [] users text m q = refl
broadcast_loop-queues ((n, c) ∷ rest) users text m q =
    broadcast_loop-queues rest users text (write_to (users c).socket text m) q
    ∙ write_to-queues (users c).socket q text m

answer-same : (c : ℕ) (bytes : List ℕ) (h : ChatHost) → SameQueues h (answer c bytes h)
unfolding answer
answer-same c bytes h = (λ p. write_to-queues (h.users c).socket p bytes h.mgr, λ d. refl)

broadcast-same :
    (client : Option ℕ) (text : List ℕ) (h : ChatHost) → SameQueues h (broadcast_text client text h)
unfolding broadcast_text
broadcast-same client text h =
    (λ p. broadcast_loop-queues h.named_clients h.users text h.mgr p, λ d. refl)

set_user-same :
    (c : ℕ) (user : CChatClient) (h : ChatHost)
    → user.socket ≡ (h.users c).socket
    → SameQueues h (set_user c user h)
unfolding set_user
set_user-same c user h e = (
  λ p. refl,
  λ d. elim (Bool-cases (d == c)) [
    | inl i ↦ rw i (e ∙ ap (λ x. (h.users x).socket) (sym ((==_iff d c).0 i)))
    | inr i ↦ rw i refl
  ],
)

validate_found-same : (o : Option ℕ) (c : ℕ) (h : ChatHost) → SameQueues h (validate_found o c h).0
unfolding validate_found broadcast_text
validate_found-same (some d) c h = same_queues h
validate_found-same none c h = (λ p. broadcast_loop-queues _ h.users _ h.mgr p, λ d. refl)

validate_name-same : (c : ℕ) (h : ChatHost) → SameQueues h (validate_name c h).0
unfolding validate_name
validate_name-same c h = validate_found-same _ c h

rename-same : (c : ℕ) (name : List ℕ) (h : ChatHost) → SameQueues h (rename c name h)
unfolding rename
rename-same c name h = set_user-same c _ h refl

welcome-same : (t : Texts) (c : ℕ) (h : ChatHost) → SameQueues h (welcome t c h)
unfolding welcome set_user answer
welcome-same t c h =
    then_same h (answer c (msg_login_accepted ∷ []) h) (welcome t c h) (answer-same c _ h)
      (set_user-same c _ (answer c (msg_login_accepted ∷ []) h) refl)

-- A refused name.
refused-same : (c : ℕ) (h : ChatHost) → SameQueues h (answer c (msg_no_login ∷ []) (rename c [] h))
refused-same c h =
    then_same h (rename c [] h) (answer c (msg_no_login ∷ []) (rename c [] h)) (rename-same c [] h)
      (answer-same c _ (rename c [] h))

login_answer-same :
    (t : Texts) (c : ℕ) (h : ChatHost) (ok : Bool) → SameQueues h (login_answer t c (h, ok))
unfolding login_answer
login_answer-same t c h true = welcome-same t c h
login_answer-same t c h false = refused-same c h

known_answer-same : (c : ℕ) (h : ChatHost) (ok : Bool) → SameQueues h (known_answer c (h, ok)).0
unfolding known_answer
known_answer-same c h true = answer-same c _ h
known_answer-same c h false = refused-same c h

-- A client under a new name, if the host likes it.
validated-same :
    (c : ℕ) (name : List ℕ) (h : ChatHost) → SameQueues h (validate_name c (rename c name h)).0
validated-same c name h =
    then_same h (rename c name h) (validate_name c (rename c name h)).0 (rename-same c name h)
      (validate_name-same c (rename c name h))

handle_discovered-same :
    (t : Texts) (c : ℕ) (buf : List ℕ) (h : ChatHost) → SameQueues h (handle_discovered t c buf h).0
unfolding handle_discovered discovered_login
handle_discovered-same t c [] h = same_queues h
handle_discovered-same t c (command ∷ bytes) h =
    let v = validate_name c (rename c (name_in (command ∷ bytes)) h) in
    if_both {A = ChatHost × Bool} (λ r. SameQueues h r.0) (command == msg_login) _ _
      (then_same h v.0 (login_answer t c v) (validated-same c _ h) (login_answer-same t c v.0 v.1))
      (if_both {A = ChatHost × Bool} (λ r. SameQueues h r.0) (command == msg_text_to_server) _ _
        (answer-same c _ h) (same_queues h))

abbrev one_more : CChatClient → CChatClient
one_more user = record user { num_messages = suc user.num_messages }

handle_known-same : (c : ℕ) (buf : List ℕ) (h : ChatHost) → SameQueues h (handle_known c buf h).0
unfolding handle_known known_login known_text
handle_known-same c [] h = same_queues h
handle_known-same c (command ∷ bytes) h =
    let buf = command ∷ bytes in
    let v = validate_name c (rename c (name_in buf) h) in
    let sent = broadcast_text (some c) (text_from (h.users c).name buf) h in
    if_both {A = ChatHost × Bool} (λ r. SameQueues h r.0) (command == msg_login) _ _
      (if_both {A = ChatHost × Bool} (λ r. SameQueues h r.0)
        (same_start (name_length (length buf)) (h.users c).name (drop 1 buf)) _ _
        (then_same h v.0 (known_answer c v).0 (validated-same c _ h) (known_answer-same c v.0 v.1))
        (same_queues h))
      (if_both {A = ChatHost × Bool} (λ r. SameQueues h r.0) (command == msg_text_to_server) _ _
        (then_same h sent (set_user c (one_more (sent.users c)) sent) (broadcast-same (some c) _ h)
          (set_user-same c (one_more (sent.users c)) sent refl))
        (same_queues h))

handle-same :
    (f : Service) (t : Texts) (c : ℕ) (buf : List ℕ) (h : ChatHost)
    → SameQueues h (handle f t c buf h).0
unfolding handle
handle-same service_discovered t c buf h = handle_discovered-same t c buf h
handle-same service_known t c buf h = handle_known-same c buf h

-- A read that gives a message takes it out of the queue.
take_front_shorter :
    (im : Impl) (n : ℕ) (queue : List Message)
    → ((take_front im n queue).2 ≡ none)
      ⊎ ((k : ℕ) × ((take_front im n queue).2 ≡ some k)
          × (suc (length (take_front im n queue).0.queue) ≡ length queue))
unfolding take_front
take_front_shorter im n [] = inl refl
take_front_shorter im n (m ∷ rest) = elim (Bool-cases (ltb n m.size)) [
  | inl e ↦ inl (rw e refl)
  | inr e ↦ inr (m.size, rw e refl, rw e refl)
]

-- The same of the client's socket.
read_from_shorter :
    (c : ℕ) (h : ChatHost)
    → ((read_from c h).2 ≡ none)
      ⊎ ((k : ℕ) × ((read_from c h).2 ≡ some k)
          × (suc (waiting_messages c (read_from c h).0) ≡ waiting_messages c h))
unfolding read_from read get_message set_connection store waiting_messages message_count
read_from_shorter c h =
    let p = (h.users c).socket in
    let im = (h.mgr.heap p).socket.buf_in in
    let here : (p == p) ≡ true = ground arith in
    elim (take_front_shorter im buf_size im.queue) [
      | inl e ↦ inl e
      | inr (k, e, shorter) ↦ inr (k, e, rw here shorter)
    ]

waiting-same :
    (c : ℕ) (h h' : ChatHost) → SameQueues h h' → waiting_messages c h' ≡ waiting_messages c h
unfolding waiting_messages
waiting-same c h h' (a, b) =
    ap (λ p. message_count (h'.mgr.heap p).socket.buf_in) (b c)
    ∙ ap message_count (a (h.users c).socket)

after_read-done :
    (again : ChatHost → Run (ChatHost × Bool)) (f : Service) (t : Texts) (now c : ℕ) (h : ChatHost)
    (buf : List ℕ) (o : Option ℕ)
    → ((k : ℕ)
        → o ≡ some k
        → (r : (ChatHost × Bool)) × (again (handle f t c buf (receive_at now c h)).0 ≡ done r))
    → (r : (ChatHost × Bool)) × (after_read again f t now c (h, buf, o) ≡ done r)
unfolding after_read
after_read-done again f t now c h buf none goes = ((h, not (is_closed c h)), refl)
after_read-done again f t now c h buf (some k) goes =
    let handled = handle f t c buf (receive_at now c h) in
    elim (Bool-cases handled.1) [
      | inl e ↦ let (r, is) = goes k refl in (r, if_true handled.1 _ _ e ∙ is)
      | inr e ↦ (handled, if_false handled.1 _ _ e)
    ]

receive_at-same : (now c : ℕ) (h : ChatHost) → SameQueues h (receive_at now c h)
unfolding receive_at
receive_at-same now c h = set_user-same c _ h refl

shorter :
    (c : ℕ) (h : ChatHost) (k : ℕ)
    → (read_from c h).2 ≡ some k
    → waiting_messages c (read_from c h).0 < waiting_messages c h
shorter c h k e = elim (read_from_shorter c h) [
  | inl i ↦ absurd (some≢none (sym e ∙ i))
  | inr (k', i, s) ↦ omega arith
]
  where
    some≢none : {k : ℕ} → some k ≡ none → ⊥
    some≢none h = cc

service_loop-done :
    (n : ℕ) (f : Service) (t : Texts) (now c : ℕ) (h : ChatHost)
    → waiting_messages c h < n
    → (r : (ChatHost × Bool)) × (service_loop n f t now c h ≡ done r)
unfolding service_loop
service_loop-done zero f t now c h lt = absurd (omega arith)
service_loop-done (suc n) f t now c h lt =
    let (h1, buf, o) = read_from c h in
    after_read-done (service_loop n f t now c) f t now c h1 buf o (λ k e.
      let received = receive_at now c h1 in
      let same =
        then_same h1 received (handle f t c buf received).0 (receive_at-same now c h1)
          (handle-same f t c buf received) in
      let fewer = shorter c h k e in
      service_loop-done n f t now c (handle f t c buf received).0
        (let w = waiting-same c h1 (handle f t c buf received).0 same in omega arith))

-- Whatever a client sent, servicing it ends: one round for each message that waits on its socket,
-- and one for the error of read after the last, are enough.
pub service_done :
    (t : Texts) (now c : ℕ) (h : ChatHost) → (r : (ChatHost × Bool)) × (service t now c h ≡ done r)
unfolding service
service_done t now c h =
    service_loop-done (suc (waiting_messages c h)) (h.users c).service t now c h (omega arith)

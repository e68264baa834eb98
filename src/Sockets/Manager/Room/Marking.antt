-- ===== src/Sockets/Manager/Room/Marking.antt =====
-- src/lib/socketbase.cpp, the loops of SocketManager::poll: how many sockets one turn marks as active.
use etwork.Common.{
  ℕ, suc, ◌≤◌, Bool, true, ◌&&◌, Option, none, some, List, [], ◌∷◌, ◌≡◌, refl, sym, ◌∙◌, ap, arith,
  length, ltb, ◌==◌, if◌then◌else◌,
}
use etwork.Common.Map.{find, insert}
use etwork.Errors.{session}
use etwork.Errors.Wsa.{WsaError}
use etwork.Buffer.Run.{Run, done, ◌>>=◌}
use etwork.Sockets.{
  Socket, Outcome, moved, would_block, failed, Received, received, nothing_yet, broken, do_read,
  do_write, wants_to_read, wants_to_write,
}
use etwork.Sockets.Manager.{
  Platform, SocketManager, call, debug_sock_error, store, set_connection, mark, regenerate_sets,
  remove_waiting, remove_found, remove_socket, close_handle, shut, close_socket, allocate, new_peer,
  socket_id, assert_failure,
}
use etwork.Sockets.Manager.Datagrams.{
  await, Arrival, arrived, no_arrival, listening_accept, handle_listening_read,
  handle_listening_write, handle_listening_except,
}
use etwork.Sockets.Manager.Service.{
  recv_told, send_told, settle, do_read_of, do_write_of, except_asserts, do_except, after_except,
  Answers, Served, write_again, after_read, read_socket, after_write, write_socket, except_socket,
  and_progress, service_read, service_write, service_except,
}
use etwork.Sockets.Manager.Core.Arrives.{true≢false}
use etwork.Sockets.Manager.Core.{Ends-map, if_both, if_cases, Ends, Ends->>=, Ends-then}

-- The same active_, in a manager as reliable as before.
abbrev pub SameActive : SocketManager → SocketManager → Type 0
SameActive m m' = (m'.active ≡ m.active) × (m'.settings.reliable ≡ m.settings.reliable)

pub debug-active :
    (m : SocketManager) (sock : Option ℕ) (e : WsaError)
    → SameActive m (debug_sock_error m sock e session)
unfolding debug_sock_error call
debug-active m sock e = (refl, refl)

remove_found-active :
    (w : Platform) (p : ℕ) (o : Option ℕ) (m : SocketManager) → SameActive m (remove_found w p o m)
unfolding remove_found remove_waiting regenerate_sets call
remove_found-active w p none m = if_both (SameActive m) _ _ _ (refl, refl) (refl, refl)
remove_found-active w p (some q) m =
    if_both (SameActive m) m.settings.reliable _ _ (refl, refl) (refl, refl)

then_active : (m m' m'' : SocketManager) → SameActive m m' → SameActive m' m'' → SameActive m m''
then_active m m' m'' (a, r) (a', r') = (a' ∙ a, r' ∙ r)

close_handle-active : (p : ℕ) (m : SocketManager) → SameActive m (close_handle p m)
unfolding close_handle store call
close_handle-active p m = if_both (SameActive m) _ _ _ (refl, refl) (refl, refl)

remove_socket-active :
    (w : Platform) (p : ℕ) (m : SocketManager) → SameActive m (remove_socket w p m)
unfolding remove_socket
remove_socket-active w p m = remove_found-active w p _ _

pub close_socket-active :
    (w : Platform) (p : ℕ) (m : SocketManager) → SameActive m (close_socket w p m)
unfolding close_socket store
close_socket-active w p m =
    let shutting = store p (shut (m.heap p)) m in
    let removed = remove_socket w p shutting in
    if_both (SameActive m) (m.heap p).socket.closed m (close_handle p removed) (refl, refl)
      (then_active m removed (close_handle p removed) (remove_socket-active w p shutting)
        (close_handle-active p removed))

settle-active :
    (w : Platform) (p : ℕ) (s : Socket) (go_on : Bool) (m : SocketManager)
    → SameActive m (settle w p (s, go_on) m)
unfolding settle set_connection store
settle-active w p s go_on m =
    if_both (SameActive m) s.closed _ _ (close_socket-active w p _) (refl, refl)

recv_told-active :
    (p : ℕ) (r : Received) (e : WsaError) (m : SocketManager) → SameActive m (recv_told p r e m)
unfolding recv_told
recv_told-active p (received bytes) e m = (refl, refl)
recv_told-active p nothing_yet e m = debug-active m (some p) e
recv_told-active p broken e m = debug-active m (some p) e

send_told-active :
    (p : ℕ) (o : Outcome) (e : WsaError) (m : SocketManager) → SameActive m (send_told p o e m)
unfolding send_told
send_told-active p (moved n) e m = (refl, refl)
send_told-active p would_block e m = debug-active m (some p) e
send_told-active p failed e m = debug-active m (some p) e

do_read_of-active :
    (w : Platform) (p : ℕ) (r : Received) (e : WsaError) (m : SocketManager)
    → Ends (λ t. SameActive m t.0) (do_read_of w p r e m)
unfolding do_read_of
do_read_of-active w p r e m =
    Ends-then (λ t. SameActive m t.0) (do_read w.debug_build m.cur_time (m.heap p).socket r)
      (λ t. (settle w p t (recv_told p r e m), t.1))
      (λ t.
        then_active m (recv_told p r e m) (settle w p t (recv_told p r e m))
          (recv_told-active p r e m) (settle-active w p t.0 t.1 (recv_told p r e m)))

do_write_of-active :
    (w : Platform) (p : ℕ) (o : Outcome) (e : WsaError) (m : SocketManager)
    → Ends (λ t. SameActive m t.0) (do_write_of w p o e m)
unfolding do_write_of
do_write_of-active w p o e m =
    Ends-then (λ t. SameActive m t.0) (do_write m.cur_time (m.heap p).socket o)
      (λ t. (settle w p t (send_told p o e m), t.1))
      (λ t.
        then_active m (send_told p o e m) (settle w p t (send_told p o e m))
          (send_told-active p o e m) (settle-active w p t.0 t.1 (send_told p o e m)))

asserted-active :
    (m : SocketManager) (sock : Option ℕ) (e : WsaError)
    → SameActive m (debug_sock_error (except_asserts m) sock e session)
unfolding except_asserts call
asserted-active m sock e =
    then_active m (except_asserts m) (debug_sock_error (except_asserts m) sock e session)
      (if_both (SameActive m) m.settings.reliable m _ (refl, refl) (refl, refl))
      (debug-active (except_asserts m) sock e)

do_except-active :
    (w : Platform) (p : ℕ) (o : Option WsaError) (e : WsaError) (m : SocketManager)
    → SameActive m (do_except w p o e m).0
unfolding do_except
do_except-active w p none e m = asserted-active m (some p) e
do_except-active w p (some e') e m =
    let told = debug_sock_error (except_asserts m) (some p) e' session in
    then_active m told (close_socket w p told) (asserted-active m (some p) e')
      (close_socket-active w p told)

insert_size : (p : ℕ) (set : List (ℕ × Unit {0})) → length (insert ltb p tt set) ≤ suc (length set)
unfolding insert
insert_size p [] = omega arith
insert_size p ((q, u) ∷ rest) = let h = insert_size p rest in ground arith

-- At most one more in active_.
abbrev pub OneMore : SocketManager → SocketManager → Type 0
OneMore m m' =
    (length m'.active ≤ suc (length m.active)) × (m'.settings.reliable ≡ m.settings.reliable)

no_more : (m m' : SocketManager) → SameActive m m' → OneMore m m'
no_more m m' (a, r) = (let e = ap length a in omega arith, r)

pub mark-OneMore : (p : ℕ) (m : SocketManager) → OneMore m (mark p m)
unfolding mark
mark-OneMore p m =
    if_both (OneMore m) (m.heap p).has_notify _ _ (omega arith, refl) (insert_size p m.active, refl)

after_same : (m m' m'' : SocketManager) → SameActive m m' → OneMore m' m'' → OneMore m m''
after_same m m' m'' (a, r) (b, r') = (let e = ap length a in omega arith, r' ∙ r)

before_same : (m m' m'' : SocketManager) → OneMore m m' → SameActive m' m'' → OneMore m m''
before_same m m' m'' (b, r) (a, r') = (let e = ap length a in omega arith, r' ∙ r)

write_again-active : (w : Platform) (s : ℕ) (m : SocketManager) → SameActive m (write_again w s m)
unfolding write_again
write_again-active w s m = (refl, refl)

after_read-active :
    (w : Platform) (s p : ℕ) (progress : Bool) (m : SocketManager)
    → SameActive m (after_read w s p progress m).0
unfolding after_read
after_read-active w s p progress m =
    if_both (SameActive m) _ _ m (write_again-active w s m) (refl, refl)

-- Each of the services of a reliable manager marks at most one socket.
abbrev pub Services : SocketManager → Run Served → Type 0
Services m r = Ends (λ t. OneMore m t.0) r

read_socket-Services :
    (w : Platform) (a : Answers) (s : ℕ) (o : Option ℕ) (m : SocketManager) (progress : Bool)
    → Services m (read_socket w a s o (m, progress))
unfolding read_socket call
read_socket-Services w a s none m progress = (omega arith, refl)
read_socket-Services w a s (some p) m progress =
    if_both (Services m) (wants_to_read (m.heap p).socket) _ _
      (Ends->>= {A = SocketManager × Bool} {B = Served} (λ t. SameActive m t.0) (λ t. OneMore m t.0)
        (do_read_of w p (a.recv s) (a.last_error s) m) _
        (do_read_of-active w p (a.recv s) (a.last_error s) m)
        (λ t same.
          before_same m (mark p t.0) (after_read w s p (progress && t.1) (mark p t.0)).0
            (after_same m t.0 (mark p t.0) same (mark-OneMore p t.0))
            (after_read-active w s p (progress && t.1) (mark p t.0))))
      (no_more m (after_read w s p progress m).0 (after_read-active w s p progress m))

after_write-OneMore :
    (w : Platform) (s p : ℕ) (progress : Bool) (m : SocketManager) (go_on : Bool)
    → OneMore m (after_write w s p progress (m, go_on)).0
unfolding after_write
after_write-OneMore w s p progress m go_on =
    let m' = if go_on then mark p m else m in
    let one = if_both (OneMore m) go_on (mark p m) m (mark-OneMore p m) (omega arith, refl) in
    if_both (OneMore m) (progress && go_on && wants_to_write (m'.heap p).socket)
      (write_again w s m') m'
      (before_same m m' (write_again w s m') one (write_again-active w s m')) one

write_socket-Services :
    (w : Platform) (a : Answers) (s : ℕ) (o : Option ℕ) (m : SocketManager) (progress : Bool)
    → Services m (write_socket w a s o (m, progress))
unfolding write_socket
write_socket-Services w a s none m progress = (omega arith, refl)
write_socket-Services w a s (some p) m progress =
    if_both (Services m) (wants_to_write (m.heap p).socket) _ (done (m, progress))
      (Ends->>= {A = SocketManager × Bool} {B = Served} (λ t. SameActive m t.0) (λ t. OneMore m t.0)
        (do_write_of w p (a.send s) (a.last_error s) m) _
        (do_write_of-active w p (a.send s) (a.last_error s) m)
        (λ t same.
          after_same m t.0 (after_write w s p progress (t.0, t.1)).0 same
            (after_write-OneMore w s p progress t.0 t.1)))
      (omega arith, refl)

after_except-Services :
    (m : SocketManager) (progress : Bool) (r : SocketManager × Bool) (o : Option ℕ)
    → SameActive m r.0
    → Services m (after_except progress r o)
unfolding after_except
after_except-Services m progress r none same = tt
after_except-Services m progress (m', go_on) (some p) same =
    after_same m m' (mark p m') same (mark-OneMore p m')

except_socket-Services :
    (w : Platform) (a : Answers) (s : ℕ) (o : Option ℕ) (m : SocketManager) (progress : Bool)
    → Services m (except_socket w a s o (m, progress))
unfolding except_socket
except_socket-Services w a s none m progress = (omega arith, refl)
except_socket-Services w a s (some p) m progress =
    let r = do_except w p (a.except s) a.no_error m in
    after_except-Services m progress r (find ltb s r.0.sockets)
      (do_except-active w p (a.except s) a.no_error m)

new_peer-active :
    (m : SocketManager) (s addr : ℕ) → Ends (λ t. SameActive m t.0) (new_peer m s addr)
unfolding new_peer allocate store
new_peer-active m s addr =
    Ends-then {A = ℕ × ℕ} {B = SocketManager × ℕ} (λ t. SameActive m t.0)
      (if m.settings.reliable then done (s, m.next_socket) else socket_id m) (allocate m addr)
      (λ r. (refl, refl))

listening_accept-active :
    (m : SocketManager) (r : Arrival) → Ends (λ t. SameActive m t.0) (listening_accept m r)
unfolding listening_accept await
listening_accept-active m (arrived s addr) =
    Ends->>= {A = SocketManager × ℕ} {B = SocketManager × Bool} (λ t. SameActive m t.0)
      (λ t. SameActive m t.0) (new_peer m s addr) _ (new_peer-active m s addr) (λ t same. same)
listening_accept-active m (no_arrival e) = debug-active m none e

abbrev pub IsReliable : SocketManager → Type 0
IsReliable m = m.settings.reliable ≡ true

module _ (w : Platform) (a : Answers) (most : ℕ) where
  handle_read-active :
      (m : SocketManager)
      → IsReliable m
      → Ends
          (λ t. SameActive m t.0)
          (handle_listening_read m most a.arrival a.datagrams a.end_of_datagrams)
  unfolding handle_listening_read call
  handle_read-active m reliable =
      let m' = if ltb (length m.active) most then m else call assert_failure m in
      let same =
        if_both (SameActive m) (ltb (length m.active) most) m (call assert_failure m) (refl, refl)
          (refl, refl) in
      if_cases (Ends (λ t. SameActive m t.0)) m.settings.reliable _ _
        (λ e.
          Ends-map {A = SocketManager × Bool} (λ t. SameActive m' t.0) (λ t. SameActive m t.0)
            (listening_accept m' a.arrival) (λ t later. then_active m m' t.0 same later)
            (listening_accept-active m' a.arrival))
        (λ e. absurd (true≢false (sym reliable ∙ e)))

  handle_write-active :
      (m : SocketManager)
      → IsReliable m
      → Ends (λ t. SameActive m t.0) (handle_listening_write m a.sendto_answer most)
  unfolding handle_listening_write call
  handle_write-active m reliable =
      if_cases (Ends (λ t. SameActive m t.0)) m.settings.reliable _ _ (λ e. (refl, refl))
        (λ e. absurd (true≢false (sym reliable ∙ e)))

  with_progress :
      (m : SocketManager) (progress : Bool) (r : Run (SocketManager × Bool))
      → Ends (λ t. SameActive m t.0) r
      → Services m (r >>= λ t. done (and_progress progress t))
  with_progress m progress r same =
      Ends->>= {A = SocketManager × Bool} {B = Served} (λ t. SameActive m t.0) (λ t. OneMore m t.0)
        r _ same (λ t s. no_more m t.0 s)

  pub service_read-Services :
      (s : ℕ) (m : SocketManager) (progress : Bool)
      → IsReliable m
      → Services m (service_read w a most s (m, progress))
  unfolding service_read
  service_read-Services s m progress reliable =
      if_both (Services m) (s == m.listening) _ _
        (with_progress m progress
          (handle_listening_read m most a.arrival a.datagrams a.end_of_datagrams)
          (handle_read-active m reliable))
        (read_socket-Services w a s (find ltb s m.sockets) m progress)

  pub service_write-Services :
      (s : ℕ) (m : SocketManager) (progress : Bool)
      → IsReliable m
      → Services m (service_write w a most s (m, progress))
  unfolding service_write
  service_write-Services s m progress reliable =
      if_both (Services m) (s == m.listening) _ _
        (with_progress m progress (handle_listening_write m a.sendto_answer most)
          (handle_write-active m reliable))
        (write_socket-Services w a s (find ltb s m.sockets) m progress)

  pub service_except-Services :
      (s : ℕ) (m : SocketManager) (progress : Bool)
      → IsReliable m
      → Services m (service_except w a most s (m, progress))
  unfolding service_except handle_listening_except call
  service_except-Services s m progress reliable =
      if_both (Services m) (s == m.listening) _ _
        (no_more m (debug_sock_error (call assert_failure m) none (a.last_error s) session)
          (debug-active (call assert_failure m) none (a.last_error s)))
        (except_socket-Services w a s (find ltb s m.sockets) m progress)

-- ===== src/Sockets/Manager/Reach.antt =====
-- src/lib/socketbase.cpp: the states that a SocketManager comes to, by the calls of its user and by
-- what poll has it do.
use etwork.Common.{
  ℕ, ◌<◌, Bool, not, ◌||◌, ◌&&◌, Option, none, List, [], ◌∷◌, ◌≡◌, refl, sym, ◌∙◌, ap, subst, arith,
  ltb, ◌==◌,
}
use etwork.Common.Map.{find}
use etwork.Errors.Wsa.{WsaError}
use etwork.Buffer.Run.{done}
use etwork.Sockets.{EtworkSettings, read, write, Outcome, Received}
use etwork.Sockets.Manager.{
  Platform, Peer, SocketManager, assert_failure, new_socket_manager, set_connection, store, mark,
  close_socket, mem, debug_sock_error, call,
}
use etwork.Sockets.Manager.Connecting.{
  Opening, no_socket, call_failed, opened, open_listening, «open», accept, Connecting, connected,
  connect_to,
}
use etwork.Sockets.Manager.Datagrams.{
  Arrival, arrived, Datagram, receive_from, listening_accept, drained, is_would_block,
  handle_listening_write, handle_listening_except,
}
use etwork.Sockets.Manager.Service.{timeout_sockets, do_read_of, do_write_of, do_except}
use etwork.Sockets.Manager.Polling.{set_etwork_socket_notify, notify_all, notify_active}
use etwork.Sockets.Manager.View.{IsConsistent, view, none≢some, false≢true}
use etwork.Sockets.Manager.Core.{
  core, view_of, view-stored, view-set_connection, core-call, if_both, Ends_result,
}
use etwork.Sockets.Manager.Core.Closes.{close_socket-IsConsistent}
use etwork.Sockets.Manager.Core.Joins.{
  core-regenerate, core-change_queuing_space, accept-IsConsistent,
}
use etwork.Sockets.Manager.Core.Serves.{
  mark-view, debug-view, timeout_sockets-IsConsistent, do_read_of-IsConsistent,
  do_write_of-IsConsistent, do_except-IsConsistent,
}
use etwork.Sockets.Manager.Core.Writes.{handle_listening_write-view}
use etwork.Sockets.Manager.Core.Arrives.{
  CanJoin, listening_accept-Ends, receive_from-Ends, connect_to-Ends,
}

-- A call of the user's, or what poll has the manager do.
pub data Step (w : Platform) : SocketManager → SocketManager → Type 0 where
  accepts :
      {m : SocketManager} (n : ℕ) (send receive : Option WsaError)
      → Step w m (accept w m n send receive).0
  connects :
      {m m' : SocketManager} (a : ℕ) (o : Connecting) (p : Option ℕ)
      → ((s : ℕ) (d : Option WsaError) → o ≡ connected s d → CanJoin m s)
      → connect_to w m a o ≡ done (m', p)
      → Step w m m'
  arrives :
      {m m' : SocketManager} (r : Arrival) (go_on : Bool)
      → ((s a : ℕ) → r ≡ arrived s a → CanJoin m s)
      → listening_accept m r ≡ done (m', go_on)
      → Step w m m'
  receives :
      {m m' : SocketManager} (d : Datagram)
      → CanJoin m 0
      → receive_from (find ltb d.from m.socket_addrs) m d ≡ done m'
      → Step w m m'
  asserts : {m : SocketManager} → Step w m (call assert_failure m)
  drains : {m : SocketManager} (e : WsaError) → Step w m (drained e m)
  sends :
      {m m' : SocketManager} (send : ℕ → Option WsaError) (most : ℕ) (go_on : Bool)
      → handle_listening_write m send most ≡ done (m', go_on)
      → Step w m m'
  excepts_listening : {m : SocketManager} (e : WsaError) → Step w m (handle_listening_except m e).0
  reads :
      {m m' : SocketManager} (p : ℕ) (r : Received) (e : WsaError) (go_on : Bool)
      → p < m.allocated
      → do_read_of w p r e m ≡ done (m', go_on)
      → Step w m m'
  writes :
      {m m' : SocketManager} (p : ℕ) (o : Outcome) (e : WsaError) (go_on : Bool)
      → p < m.allocated
      → do_write_of w p o e m ≡ done (m', go_on)
      → Step w m m'
  excepts :
      {m : SocketManager} (p : ℕ) (o : Option WsaError) (e : WsaError)
      → p < m.allocated
      → Step w m (do_except w p o e m).0
  marks : {m : SocketManager} (p : ℕ) → Step w m (mark p m)
  times_out : {m : SocketManager} → Step w m (timeout_sockets w m)
  ticks : {m : SocketManager} (now : ℕ) → Step w m (record m { active = []; cur_time = now })
  notifies : {m : SocketManager} → Step w m (notify_active m)
  user_reads :
      {m : SocketManager} (p n : ℕ) → Step w m (set_connection p (read (m.heap p).socket n).0 m)
  user_writes :
      {m : SocketManager} (p : ℕ) (bytes : List ℕ)
      → Step w m (set_connection p (write (m.heap p).socket bytes).0 m)
  user_notify :
      {m : SocketManager} (p : ℕ) (has_notify : Bool)
      → Step w m (set_etwork_socket_notify p has_notify m)
  user_disposes : {m : SocketManager} (p : ℕ) → p < m.allocated → Step w m (close_socket w p m)

-- The states after CreateEtwork's new manager was opened.
pub data Reach (w : Platform) : SocketManager → Type 0 where
  start :
      (s : EtworkSettings) (fill : ℕ → ℕ) (heap : ℕ → Peer) (now : ℕ)
      (send receive : Option WsaError) (o : Opening)
      → Reach w («open» w (new_socket_manager w s fill heap now) s send receive o).0
  later : {m m' : SocketManager} → Reach w m → Step w m m' → Reach w m'

new-IsConsistent :
    (w : Platform) (s : EtworkSettings) (fill : ℕ → ℕ) (heap : ℕ → Peer) (now : ℕ)
    → IsConsistent (view (new_socket_manager w s fill heap now))
unfolding new_socket_manager find mem
new-IsConsistent w s fill heap now = record {
  sockets_sorted = tt;
  addrs_sorted = tt;
  registered = λ k p e. absurd (none≢some e);
  addressed = λ k p e. absurd (none≢some e);
  queued = λ p e. absurd (false≢true e);
  apart = λ p q e. absurd (false≢true e);
  once = tt;
  below = λ u p e. absurd (false≢true e);
  held = λ p lt. absurd (omega arith);
}

core-open_listening :
    (w : Platform) (m : SocketManager) (send receive : Option WsaError) (o : Opening)
    → core (open_listening w m send receive o).0 ≡ core m
unfolding open_listening call debug_sock_error
core-open_listening w m send receive (no_socket e) = refl
core-open_listening w m send receive (call_failed s e) = refl
core-open_listening w m send receive (opened s) =
    core-regenerate w _
    ∙ if_both (λ x. core x ≡ core m) m.settings.reliable _ _ refl
        (core-change_queuing_space (record m { listening = s }) send receive)

core-open :
    (w : Platform) (m : SocketManager) (send receive : Option WsaError) (o : Opening)
    → core («open» w m m.settings send receive o).0 ≡ core m
unfolding «open» call
core-open w m send receive o =
    if_both {A = SocketManager × Bool} (λ x. core x.0 ≡ core m)
      (m.settings.accepting && m.settings.port == 0) _ _ refl
      (if_both {A = SocketManager × Bool} (λ x. core x.0 ≡ core m)
        (m.settings.accepting || not m.settings.reliable) _ _
        (core-open_listening w m send receive o) (core-regenerate w m))

core-notify_all : (set : List (ℕ × Unit {0})) (m : SocketManager) → core (notify_all set m) ≡ core m
unfolding notify_all call
core-notify_all [] m = refl
core-notify_all ((p, u) ∷ rest) m = core-notify_all rest _

notify_active-view : (m : SocketManager) → view (notify_active m) ≡ view m
unfolding notify_active
notify_active-view m = ap view_of (core-notify_all m.notify _)

set_notify-view :
    (p : ℕ) (b : Bool) (m : SocketManager) → view (set_etwork_socket_notify p b m) ≡ view m
unfolding set_etwork_socket_notify store
set_notify-view p b m =
    view-stored p (record (m.heap p) { has_notify = b }) (core m) (refl, refl, refl)

drained-view : (e : WsaError) (m : SocketManager) → view (drained e m) ≡ view m
unfolding drained
drained-view e m = if_both (λ x. view x ≡ view m) (is_would_block e) m _ refl (debug-view m none e)

except_listening-view :
    (m : SocketManager) (e : WsaError) → view (handle_listening_except m e).0 ≡ view m
unfolding handle_listening_except call
except_listening-view m e = debug-view (call assert_failure m) none e

user_reads-view :
    (p n : ℕ) (m : SocketManager) → view (set_connection p (read (m.heap p).socket n).0 m) ≡ view m
unfolding read
user_reads-view p n m = view-set_connection p _ m refl

user_writes-view :
    (p : ℕ) (bytes : List ℕ) (m : SocketManager)
    → view (set_connection p (write (m.heap p).socket bytes).0 m) ≡ view m
unfolding write
user_writes-view p bytes m = view-set_connection p _ m refl

-- Every step keeps maps, queue and sockets in agreement, if it joins no socket under a handle that
-- is in use and an unreliable manager has ids left.
pub Step-IsConsistent :
    (w : Platform) (m m' : SocketManager)
    → Step w m m'
    → IsConsistent (view m)
    → IsConsistent (view m')
Step-IsConsistent w m m' (accepts n send receive) c = accept-IsConsistent w m n send receive c
Step-IsConsistent w m m' (connects a o p can e) c =
    Ends_result (λ t. IsConsistent (view t.0)) _ (m', p) e (connect_to-Ends w m a o can c)
Step-IsConsistent w m m' (arrives r go_on can e) c =
    Ends_result (λ t. IsConsistent (view t.0)) _ (m', go_on) e (listening_accept-Ends m r can c)
Step-IsConsistent w m m' (receives d can e) c =
    Ends_result (λ t. IsConsistent (view t)) _ m' e (receive_from-Ends _ m d can c)
Step-IsConsistent w m _ asserts c =
    subst IsConsistent (sym (ap view_of (core-call assert_failure m))) c
Step-IsConsistent w m _ (drains e) c = subst IsConsistent (sym (drained-view e m)) c
Step-IsConsistent w m m' (sends send most go_on e) c =
    subst IsConsistent
      (sym (
        Ends_result (λ t. view t.0 ≡ view m) _ (m', go_on) e
          (handle_listening_write-view m send most)))
      c
Step-IsConsistent w m _ (excepts_listening e) c =
    subst IsConsistent (sym (except_listening-view m e)) c
Step-IsConsistent w m m' (reads p r e go_on lt is) c =
    Ends_result (λ t. IsConsistent (view t.0)) _ (m', go_on) is
      (do_read_of-IsConsistent w p r e m lt c)
Step-IsConsistent w m m' (writes p o e go_on lt is) c =
    Ends_result (λ t. IsConsistent (view t.0)) _ (m', go_on) is
      (do_write_of-IsConsistent w p o e m lt c)
Step-IsConsistent w m _ (excepts p o e lt) c = do_except-IsConsistent w p o e m lt c
Step-IsConsistent w m _ (marks p) c = subst IsConsistent (sym (mark-view p m)) c
Step-IsConsistent w m _ times_out c = timeout_sockets-IsConsistent w m c
Step-IsConsistent w m _ (ticks now) c = c
Step-IsConsistent w m _ notifies c = subst IsConsistent (sym (notify_active-view m)) c
Step-IsConsistent w m _ (user_reads p n) c = subst IsConsistent (sym (user_reads-view p n m)) c
Step-IsConsistent w m _ (user_writes p bytes) c =
    subst IsConsistent (sym (user_writes-view p bytes m)) c
Step-IsConsistent w m _ (user_notify p b) c = subst IsConsistent (sym (set_notify-view p b m)) c
Step-IsConsistent w m _ (user_disposes p lt) c = close_socket-IsConsistent w p m lt c

-- In every state that is reached, maps, queue and sockets agree.
pub Reach-IsConsistent : (w : Platform) (m : SocketManager) → Reach w m → IsConsistent (view m)
unfolding new_socket_manager
Reach-IsConsistent w _ (start s fill heap now send receive o) =
    subst IsConsistent
      (sym (ap view_of (core-open w (new_socket_manager w s fill heap now) send receive o)))
      (new-IsConsistent w s fill heap now)
Reach-IsConsistent w m' (later r step) = Step-IsConsistent w _ m' step (Reach-IsConsistent w _ r)

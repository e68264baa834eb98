-- ===== src/Sockets/Manager/Core/Serves.antt =====
-- src/lib/socketbase.cpp: what serving a socket does to the bookkeeping of a manager: data that
-- comes or goes leaves it as it is, and an error or a timeout closes the socket.
use etwork.Common.{
  ℕ, ◌<◌, Bool, Option, none, some, List, [], ◌∷◌, ◌≡◌, refl, sym, ◌∙◌, ap, subst, ltb,
  if◌then◌else◌, All,
}
use etwork.Common.Map.{find}
use etwork.Common.Map.Order.{find_entries}
use etwork.Errors.{
  session, EtworkError, new_error, severity_code, note, area_code, option_code, peer_timeout,
}
use etwork.Errors.Wsa.{WsaError}
use etwork.Buffer.{put_message}
use etwork.Sockets.{
  Socket, Outcome, moved, would_block, failed, Received, received, nothing_yet, broken, do_read,
  do_write,
}
use etwork.Sockets.Manager.{
  Platform, SocketManager, Call, etwork_error_from, call, debug_sock_error, mark, set_connection,
  close_socket,
}
use etwork.Sockets.Manager.Connecting.{greet}
use etwork.Sockets.Manager.Datagrams.{touch, deliver, take_message, sent_to}
use etwork.Sockets.Manager.Service.{
  time_out, timeout_loop, timeout_sockets, recv_told, send_told, settle, do_except, except_asserts,
  do_read_of, do_write_of, is_idle, is_quiet,
}
use etwork.Sockets.Manager.View.{IsConsistent, view}
use etwork.Sockets.Manager.Core.{
  view_of, if_both, view-set_connection, Ends, Ends-then, core-mark, core-debug,
}
use etwork.Sockets.Manager.Core.Closes.{close_socket-IsConsistent, allocated-close_socket}
use etwork.Sockets.Manager.Core.Joins.{greet-view}

pub mark-view : (p : ℕ) (m : SocketManager) → view (mark p m) ≡ view m
mark-view p m = ap view_of (core-mark p m)

pub debug-view :
    (m : SocketManager) (sock : Option ℕ) (e : WsaError)
    → view (debug_sock_error m sock e session) ≡ view m
debug-view m sock e = ap view_of (core-debug m sock e session)

-- A connection's data, after it was marked.
marked-view :
    (p : ℕ) (socket : Socket) (m : SocketManager)
    → socket.closed ≡ (m.heap p).socket.closed
    → view (set_connection p socket (mark p m)) ≡ view m
marked-view p socket m o =
    view-set_connection p socket (mark p m)
      (o ∙ ap (λ c. (c.heap p).socket.closed) (sym (core-mark p m)))
    ∙ mark-view p m

pub touch-view : (p : ℕ) (m : SocketManager) → view (touch p m) ≡ view m
unfolding touch
touch-view p m =
    if_both (λ x. view x ≡ view m) (m.heap p).is_accepted _ m (marked-view p _ m refl) refl

delivered :
    (b : Option ℕ) (c : Call) (m : SocketManager)
    → view (elim b [ none ↦ call c m | some n ↦ m ]) ≡ view m
unfolding call
delivered none c m = refl
delivered (some n) c m = refl

pub deliver-view : (p : ℕ) (bytes : List ℕ) (m : SocketManager) → view (deliver p bytes m) ≡ view m
unfolding deliver
deliver-view p bytes m =
    delivered (put_message (m.heap p).socket.buf_in bytes).1 _ _ ∙ view-set_connection p _ m refl

pub take_message-view : (p : ℕ) (m : SocketManager) → view (take_message p m).0 ≡ view m
unfolding take_message
take_message-view p m = view-set_connection p _ m refl

pub sent_to-view : (p : ℕ) (m : SocketManager) → view (sent_to p m) ≡ view m
unfolding sent_to
sent_to-view p m = marked-view p _ m refl

recv_told-view :
    (p : ℕ) (r : Received) (e : WsaError) (m : SocketManager) → view (recv_told p r e m) ≡ view m
unfolding recv_told
recv_told-view p (received bytes) e m = refl
recv_told-view p nothing_yet e m = debug-view m (some p) e
recv_told-view p broken e m = debug-view m (some p) e

send_told-view :
    (p : ℕ) (o : Outcome) (e : WsaError) (m : SocketManager) → view (send_told p o e m) ≡ view m
unfolding send_told
send_told-view p (moved n) e m = refl
send_told-view p would_block e m = debug-view m (some p) e
send_told-view p failed e m = debug-view m (some p) e

-- A step of a connection, and the closing that may follow.
settled :
    (w : Platform) (p : ℕ) (s : Socket) (go_on : Bool) (m : SocketManager)
    → p < m.allocated
    → IsConsistent (view m)
    → IsConsistent (view (settle w p (s, go_on) m))
unfolding settle
settled w p s go_on m lt c =
    let kept = set_connection p (record s { closed = (m.heap p).socket.closed }) m in
    let same = view-set_connection p (record s { closed = (m.heap p).socket.closed }) m refl in
    let c' = subst IsConsistent (sym same) c in
    if_both (λ x. IsConsistent (view x)) s.closed (close_socket w p kept) kept
      (close_socket-IsConsistent w p kept (subst (λ v. p < v.allocated) (sym same) lt) c') c'

-- Consistent, with n sockets made so far.
abbrev pub IsKept : ℕ → SocketManager → Type 0
IsKept n m = IsConsistent (view m) × (m.allocated ≡ n)

pub same-IsKept : (n : ℕ) (x y : SocketManager) → view x ≡ view y → IsKept n y → IsKept n x
same-IsKept n x y e k = subst (λ v. IsConsistent v × (v.allocated ≡ n)) (sym e) k

close-IsKept :
    (w : Platform) (p n : ℕ) (m : SocketManager)
    → p < n
    → IsKept n m
    → IsKept n (close_socket w p m)
close-IsKept w p n m lt (c, e) =
    let lt' = subst (λ x. p < x) (sym e) lt in
    (close_socket-IsConsistent w p m lt' c, allocated-close_socket w p m lt' c ∙ e)

marked-IsKept :
    (b : Bool) (p n : ℕ) (m : SocketManager) → IsKept n m → IsKept n (if b then mark p m else m)
marked-IsKept b p n m k =
    if_both (IsKept n) b (mark p m) m (same-IsKept n (mark p m) m (mark-view p m) k) k

abbrev pub timeout_code : EtworkError
timeout_code = new_error (severity_code note) (area_code session) (option_code peer_timeout)

time_out-IsKept :
    (w : Platform) (p n : ℕ) (m : SocketManager) → p < n → IsKept n m → IsKept n (time_out w p m)
unfolding time_out call
time_out-IsKept w p n m lt k =
    let m' : SocketManager = record m {
      calls = etwork_error_from (some p) timeout_code ∷ m.calls;
    } in
    marked-IsKept _ p n (close_socket w p m') (close-IsKept w p n m' lt k)

timeout_loop-IsKept :
    (w : Platform) (n : ℕ) (entries : List (ℕ × ℕ)) (m : SocketManager)
    → All (λ e. e.1 < n) entries
    → IsKept n m
    → IsKept n (timeout_loop w entries m)
unfolding timeout_loop
timeout_loop-IsKept w n [] m lts k = k
timeout_loop-IsKept w n ((s, p) ∷ rest) m (lt, lts) k = timeout_loop-IsKept w n rest _ lts (
    if_both (IsKept n) (is_idle m p) _ _ (time_out-IsKept w p n m lt k)
      (if_both (IsKept n) (is_quiet m p) _ _ (same-IsKept n (greet p m) m (greet-view p m) k) k))

All-map :
    {A : Type 0} (P Q : A → Type 0) → ((a : A) → P a → Q a) → (xs : List A) → All P xs → All Q xs
All-map P Q h [] a = tt
All-map P Q h (x ∷ xs) (a, as') = (h x a, All-map P Q h xs as')

pub timeout_sockets-IsConsistent :
    (w : Platform) (m : SocketManager)
    → IsConsistent (view m)
    → IsConsistent (view (timeout_sockets w m))
unfolding timeout_sockets
timeout_sockets-IsConsistent w m c =
    (timeout_loop-IsKept w m.allocated m.sockets m
      (All-map (λ e. find ltb e.0 m.sockets ≡ some e.1) (λ e. e.1 < m.allocated)
        (λ e f. (c.registered e.0 e.1 f).0) m.sockets (find_entries m.sockets c.sockets_sorted))
      (c, refl)).0

pub do_read_of-IsConsistent :
    (w : Platform) (p : ℕ) (r : Received) (e : WsaError) (m : SocketManager)
    → p < m.allocated
    → IsConsistent (view m)
    → Ends (λ t. IsConsistent (view t.0)) (do_read_of w p r e m)
unfolding do_read_of
do_read_of-IsConsistent w p r e m lt c =
    let same = recv_told-view p r e m in
    Ends-then (λ t. IsConsistent (view t.0)) (do_read w.debug_build m.cur_time (m.heap p).socket r)
      (λ t. (settle w p t (recv_told p r e m), t.1))
      (λ t.
        settled w p t.0 t.1 (recv_told p r e m) (subst (λ v. p < v.allocated) (sym same) lt)
          (subst IsConsistent (sym same) c))

pub do_write_of-IsConsistent :
    (w : Platform) (p : ℕ) (o : Outcome) (e : WsaError) (m : SocketManager)
    → p < m.allocated
    → IsConsistent (view m)
    → Ends (λ t. IsConsistent (view t.0)) (do_write_of w p o e m)
unfolding do_write_of
do_write_of-IsConsistent w p o e m lt c =
    let same = send_told-view p o e m in
    Ends-then (λ t. IsConsistent (view t.0)) (do_write m.cur_time (m.heap p).socket o)
      (λ t. (settle w p t (send_told p o e m), t.1))
      (λ t.
        settled w p t.0 t.1 (send_told p o e m) (subst (λ v. p < v.allocated) (sym same) lt)
          (subst IsConsistent (sym same) c))

except_asserts-view : (m : SocketManager) → view (except_asserts m) ≡ view m
unfolding except_asserts call
except_asserts-view m = if_both (λ x. view x ≡ view m) m.settings.reliable m _ refl refl

pub do_except-IsConsistent :
    (w : Platform) (p : ℕ) (o : Option WsaError) (e : WsaError) (m : SocketManager)
    → p < m.allocated
    → IsConsistent (view m)
    → IsConsistent (view (do_except w p o e m).0)
unfolding do_except
do_except-IsConsistent w p none e m lt c =
    subst IsConsistent (sym (debug-view (except_asserts m) (some p) e ∙ except_asserts-view m)) c
do_except-IsConsistent w p (some e') e m lt c =
    let same = debug-view (except_asserts m) (some p) e' ∙ except_asserts-view m in
    close_socket-IsConsistent w p _ (subst (λ v. p < v.allocated) (sym same) lt)
      (subst IsConsistent (sym same) c)

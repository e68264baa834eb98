-- ===== src/Sockets/Manager/Core/Writes.antt =====
-- src/lib/socketbase.cpp: what handle_listening_write does to the bookkeeping of a manager.
use etwork.Common.{
  ℕ, zero, suc, Bool, Option, none, some, List, [], ◌∷◌, ◌≡◌, refl, ◌∙◌, ap, length, ◌==◌,
}
use etwork.Errors.Wsa.{WsaError}
use etwork.Buffer.{message_count}
use etwork.Buffer.Run.{Run, done, assert_failed, bad_access, no_fuel}
use etwork.Sockets.{wants_to_write}
use etwork.Sockets.Manager.{SocketManager, Call, sendto, call}
use etwork.Sockets.Manager.Datagrams.{
  take_message, sent_to, after_sendto, unless_stopped, written, Writing, write_loop, write_sockets,
  error_writing, handle_listening_write,
}
use etwork.Sockets.Manager.View.{view}
use etwork.Sockets.Manager.Core.{view_of, if_both, Ends, Ends->>=, core-call}
use etwork.Sockets.Manager.Core.Serves.{take_message-view, sent_to-view, debug-view}

-- The loops of handle_listening_write.
sent-view :
    (p : ℕ) (c : Call) (m : SocketManager) → view (sent_to p (call c (take_message p m).0)) ≡ view m
unfolding call
sent-view p c m = sent_to-view p _ ∙ take_message-view p m

-- A step of writing leaves the view.
abbrev Writes : SocketManager → Run Writing → Type 0
Writes m r = Ends (λ t. view t.manager ≡ view m) r

after_sendto-Writes :
    (o : Option WsaError) (m out : SocketManager) (gone : Writing) (most : ℕ) (more : Run Writing)
    → view out ≡ view m
    → view gone.manager ≡ view m
    → Writes m more
    → Writes m (after_sendto o out gone most more)
unfolding after_sendto
after_sendto-Writes (some e) m out gone most more a b c = a
after_sendto-Writes none m out gone most more a b c =
    if_both (Writes m) (length gone.manager.active == most) (done gone) more b c

Writes-after :
    (m m' : SocketManager) (r : Run Writing) → view m' ≡ view m → Writes m' r → Writes m r
Writes-after m m' (done t) e h = h ∙ e
Writes-after m m' assert_failed e h = tt
Writes-after m m' bad_access e h = tt
Writes-after m m' no_fuel e h = tt

write_loop-Writes :
    (send : ℕ → Option WsaError) (most n p : ℕ) (t : Writing)
    → Writes t.manager (write_loop send most n p t)
unfolding write_loop
write_loop-Writes send most zero p t =
    if_both (Writes t.manager) (wants_to_write (t.manager.heap p).socket) no_fuel (done t) tt refl
write_loop-Writes send most (suc n) p t =
    let r = take_message p t.manager in
    let c = sendto (t.manager.heap p).addr r.1 in
    let gone : Writing = record {
      manager = sent_to p (call c r.0);
      sends = suc t.sends;
      stopped = none;
    } in
    if_both (Writes t.manager) (wants_to_write (t.manager.heap p).socket) _ (done t)
      (after_sendto-Writes (send t.sends) t.manager (call c r.0) gone most
        (write_loop send most n p gone)
        (ap view_of (core-call c r.0) ∙ take_message-view p t.manager) (sent-view p c t.manager)
        (Writes-after t.manager gone.manager (write_loop send most n p gone)
          (sent-view p c t.manager) (write_loop-Writes send most n p gone)))
      refl

unless_stopped-Writes :
    (o : Option WsaError) (m : SocketManager) (t : Writing) (more : Run Writing)
    → view t.manager ≡ view m
    → Writes m more
    → Writes m (unless_stopped o t more)
unfolding unless_stopped
unless_stopped-Writes none m t more a b = b
unless_stopped-Writes (some e) m t more a b = a

write_sockets-Writes :
    (send : ℕ → Option WsaError) (most : ℕ) (entries : List (ℕ × ℕ)) (t : Writing)
    → Writes t.manager (write_sockets send most entries t)
unfolding write_sockets
write_sockets-Writes send most [] t = refl
write_sockets-Writes send most ((s, p) ∷ rest) t =
    Ends->>= (λ t'. view t'.manager ≡ view t.manager) (λ t'. view t'.manager ≡ view t.manager)
      (write_loop send most (message_count (t.manager.heap p).socket.buf_out) p t) _
      (write_loop-Writes send most (message_count (t.manager.heap p).socket.buf_out) p t)
      (λ t' same.
        unless_stopped-Writes t'.stopped t.manager t' (write_sockets send most rest t') same
          (Writes-after t.manager t'.manager _ same (write_sockets-Writes send most rest t')))

error_writing-view : (m : SocketManager) (e : WsaError) → view (error_writing m e).0 ≡ view m
unfolding error_writing
error_writing-view m e = debug-view m none e

written-view : (o : Option WsaError) (m : SocketManager) → view (written o m).0 ≡ view m
unfolding written
written-view none m = refl
written-view (some e) m = error_writing-view m e

pub handle_listening_write-view :
    (m : SocketManager) (send : ℕ → Option WsaError) (most : ℕ)
    → Ends (λ t. view t.0 ≡ view m) (handle_listening_write m send most)
unfolding handle_listening_write call
handle_listening_write-view m send most =
    let start : Writing = record { manager = m; sends = 0; stopped = none } in
    if_both (Ends (λ t. view t.0 ≡ view m)) m.settings.reliable _ _ refl (
      Ends->>= {B = SocketManager × Bool} (λ t. view t.manager ≡ view m) (λ t. view t.0 ≡ view m)
        (write_sockets send most m.sockets start) _ (write_sockets-Writes send most m.sockets start)
        (λ t same. written-view t.stopped t.manager ∙ same))

-- ===== src/Sockets/Manager/Room.antt =====
-- src/lib/socketbase.cpp, SocketManager::poll: how many sockets it puts out.
pub mod Marking
use etwork.Common.{
  ℕ, zero, suc, ◌+◌, ◌<◌, ◌≤◌, Bool, true, false, not, ◌&&◌, ◌||◌, Option, none, some, List, [],
  ◌∷◌, ◌≡◌, refl, sym, ◌∙◌, ap, subst, ◌⊎◌, inl, inr, arith, length, map, ltb, ◌==◌, if◌then◌else◌,
  Bool-cases, ==_iff,
}
use etwork.Errors.{session}
use etwork.Errors.Wsa.{WsaError}
use etwork.Buffer.Run.{Run, done, assert_failed, no_fuel, ◌>>=◌}
use etwork.Sockets.{
  Socket, Outcome, moved, would_block, failed, Received, received, nothing_yet, broken, do_read,
  do_write, wants_to_read, wants_to_write,
}
use etwork.Sockets.Manager.{
  Platform, SocketManager, etwork_error_from, call, debug_sock_error, store, set_connection, mark,
  regenerate_sets, remove_waiting, remove_found, remove_socket, close_handle, shut, close_socket,
  allocate, new_peer, socket_id, assert_failure,
}
use etwork.Sockets.Manager.Datagrams.{
  await, Arrival, arrived, no_arrival, listening_accept, handle_listening_read,
  handle_listening_write, handle_listening_except,
}
use etwork.Sockets.Manager.Service.{
  recv_told, send_told, settle, do_read_of, do_write_of, do_except, Answers, Served, write_again,
  after_read, read_socket, after_write, write_socket, except_socket, and_progress, service_read,
  service_write, service_except, service_loop, then_loop, service_round, Selected, select_failed,
  ready,
}
use etwork.Sockets.Manager.Polling.{
  Round, PollResult, pointers, no_more_actives, select_error, goes_again, serve_selected, round_end,
  poll_loop,
}
use etwork.Sockets.Manager.Core.Arrives.{true≢false}
use etwork.Sockets.Manager.Core.Serves.{timeout_code}
use etwork.Sockets.Manager.Core.{
  Ends_result, Ends-map, if_both, if_cases, Ends, Ends->>=, Ends-then,
}
use etwork.Sockets.Manager.Connecting.{greet}
use etwork.Sockets.Manager.Service.{time_out, timeout_loop, timeout_sockets, is_idle, is_quiet}
use etwork.Sockets.Manager.Polling.{notify_active, poll}
use Marking.{
  SameActive, OneMore, Services, IsReliable, service_read-Services, service_write-Services,
  service_except-Services, debug-active, mark-OneMore, close_socket-active,
}

module _ (w : Platform) (most : ℕ) where
  -- After a loop: no more than `most` in active_, and fewer unless it went to no_more_actives.
  abbrev IsFitting : Served × Bool → Type 0
  IsFitting t =
      (length t.0.0.active ≤ most) × (t.1 ≡ false → length t.0.0.active < most) × IsReliable t.0.0

  service_loop-IsFitting :
      (service : ℕ → Served → Run Served)
      → ((s : ℕ) (m : SocketManager) (progress : Bool)
          → IsReliable m
          → Services m (service s (m, progress)))
      → (handles : List ℕ) (m : SocketManager) (progress : Bool) → IsReliable m
      → length m.active < most
      → Ends IsFitting (service_loop service most handles (m, progress))
  unfolding service_loop
  service_loop-IsFitting service ok [] m progress reliable lt = (omega arith, λ e. lt, reliable)
  service_loop-IsFitting service ok (s ∷ rest) m progress reliable lt =
      Ends->>= {A = Served} {B = Served × Bool} (λ t. OneMore m t.0) IsFitting
        (service s (m, progress)) _ (ok s m progress reliable)
        (λ t (one, kept).
          if_cases (Ends IsFitting) (length t.0.active == most) _ _
            (λ e. (omega arith, λ f. absurd (true≢false f), kept ∙ reliable))
            (λ e.
              service_loop-IsFitting service ok rest t.0 t.1 (kept ∙ reliable)
                (let n = e in ground arith)))

  then_loop-IsFitting :
      (loop : Served → Run (Served × Bool))
      → ((t : Served) → IsReliable t.0 → length t.0.active < most → Ends IsFitting (loop t))
      → (r : Served × Bool) → IsFitting r
      → Ends IsFitting (then_loop loop r)
  unfolding then_loop
  then_loop-IsFitting loop ok (t, true) fits = fits
  then_loop-IsFitting loop ok (t, false) (le, lt, reliable) = ok t reliable (lt refl)

  service_round-IsFitting :
      (a : Answers) (reads writes excepts : List ℕ) (m : SocketManager)
      → IsReliable m
      → length m.active < most
      → Ends IsFitting (service_round w a most reads writes excepts m)
  unfolding service_round
  service_round-IsFitting a reads writes excepts m reliable lt =
      let start : SocketManager = record m { write_temp_set = [] } in
      let step = Ends->>= {A = Served × Bool} {B = Served × Bool} IsFitting IsFitting in
      step (service_loop (service_read w a most) most reads (start, true)) _
        (service_loop-IsFitting (service_read w a most) (service_read-Services w a most) reads start
          true reliable lt)
        (λ r fits.
          step (then_loop (service_loop (service_write w a most) most writes) r) _
            (then_loop-IsFitting _
              (λ t rel lt'.
                service_loop-IsFitting (service_write w a most) (service_write-Services w a most)
                  writes t.0 t.1 rel lt')
              r fits)
            (λ r' fits'.
              then_loop-IsFitting _
                (λ t rel lt'.
                  service_loop-IsFitting (service_except w a most)
                    (service_except-Services w a most) excepts t.0 t.1 rel lt')
                r' fits'))

  -- What poll puts out has room for it.
  abbrev HasRoom : Option (List ℕ) → Type 0
  HasRoom none = Unit
  HasRoom (some out) = length out ≤ most

  length-pointers : (set : List (ℕ × Unit {0})) → length (pointers set) ≡ length set
  length-pointers [] = refl
  length-pointers (e ∷ rest) = ap suc (length-pointers rest)

  no_more_actives-HasRoom :
      (m : SocketManager) → length m.active ≤ most → HasRoom (no_more_actives m).1
  unfolding no_more_actives
  no_more_actives-HasRoom m le = let e = length-pointers m.active in omega arith

  select_error-HasRoom :
      (m : SocketManager) (e : WsaError) → length m.active ≤ most → HasRoom (select_error m e).1
  unfolding select_error debug_sock_error call
  select_error-HasRoom m e le =
      if_both {A = PollResult} (λ r. HasRoom r.1) (ltb 0 (length m.active)) _ _
        (no_more_actives-HasRoom (debug_sock_error m none e session) le) tt

  not_full :
      (seconds now after : ℕ) (t : Served × Bool)
      → goes_again seconds now after t ≡ true
      → t.1 ≡ false
  unfolding goes_again
  not_full seconds now after ((m, progress), true) e = absurd (true≢false (sym e))
  not_full seconds now after ((m, progress), false) e = refl

  -- After a round: the result has room, or another round has.
  abbrev IsServed : PollResult ⊎ (Served × Bool) → Type 0
  IsServed (inl r) = HasRoom r.1
  IsServed (inr t) = IsFitting t

  serve_selected-IsServed :
      (r : Round) (m : SocketManager) (selected : Selected)
      → IsReliable m
      → length m.active < most
      → Ends IsServed (serve_selected w most r m selected)
  unfolding serve_selected
  serve_selected-IsServed r m (select_failed e) reliable lt = select_error-HasRoom m e (omega arith)
  serve_selected-IsServed r m (ready reads writes excepts) reliable lt =
      Ends->>= {A = Served × Bool} {B = PollResult ⊎ (Served × Bool)} IsFitting IsServed
        (service_round w r.answers most reads writes excepts m) _
        (service_round-IsFitting r.answers reads writes excepts m reliable lt) (λ t fits. fits)

  round_end-HasRoom :
      (again : SocketManager → Run PollResult) (seconds now after : ℕ)
      → ((m : SocketManager)
          → IsReliable m
          → length m.active < most
          → Ends (λ r. HasRoom r.1) (again m))
      → (s : PollResult ⊎ (Served × Bool)) → IsServed s
      → Ends (λ r. HasRoom r.1) (round_end again seconds now after s)
  unfolding round_end
  round_end-HasRoom again seconds now after ok (inl r) served = served
  round_end-HasRoom again seconds now after ok (inr t) (le, lt, reliable) =
      if_cases {A = Run PollResult} (Ends (λ r. HasRoom r.1)) (goes_again seconds now after t) _ _
        (λ e. ok _ reliable (lt (not_full seconds now after t e)))
        (λ e. no_more_actives-HasRoom t.0.0 le)

  poll_loop-HasRoom :
      (seconds now : ℕ) (rounds : List Round) (m : SocketManager)
      → IsReliable m
      → length m.active < most
      → Ends (λ r. HasRoom r.1) (poll_loop w most seconds now rounds m)
  unfolding poll_loop
  poll_loop-HasRoom seconds now [] m reliable lt =
      if_both {A = Run PollResult} (Ends (λ r. HasRoom r.1)) (m.num_socks == 0) _ _
        (no_more_actives-HasRoom m (omega arith)) tt
  poll_loop-HasRoom seconds now (r ∷ rest) m reliable lt =
      if_both {A = Run PollResult} (Ends (λ x. HasRoom x.1)) (m.num_socks == 0) _ _
        (no_more_actives-HasRoom m (omega arith))
        (Ends->>= {A = PollResult ⊎ (Served × Bool)} {B = PollResult} IsServed (λ x. HasRoom x.1)
          (serve_selected w most r (record m { cur_time = r.before }) r.selected) _
          (serve_selected-IsServed r (record m { cur_time = r.before }) r.selected reliable lt)
          (λ s served.
            round_end-HasRoom (poll_loop w most seconds now rest) seconds now r.after
              (poll_loop-HasRoom seconds now rest) s served))

-- The manager as reliable as before.
abbrev KeepsReliable : SocketManager → SocketManager → Type 0
KeepsReliable m m' = m'.settings.reliable ≡ m.settings.reliable

greet-reliable : (p : ℕ) (m : SocketManager) → KeepsReliable m (greet p m)
unfolding greet set_connection store
greet-reliable p m = refl

time_out-reliable : (w : Platform) (p : ℕ) (m : SocketManager) → KeepsReliable m (time_out w p m)
unfolding time_out call
time_out-reliable w p m =
    let told : SocketManager = record m {
      calls = etwork_error_from (some p) timeout_code ∷ m.calls;
    } in
    let closed = close_socket w p told in
    if_both (KeepsReliable m) (closed.heap p).is_accepted (mark p closed) closed
      ((mark-OneMore p closed).1 ∙ (close_socket-active w p told).1)
      (close_socket-active w p told).1

timeout_loop-reliable :
    (w : Platform) (entries : List (ℕ × ℕ)) (m : SocketManager)
    → KeepsReliable m (timeout_loop w entries m)
unfolding timeout_loop
timeout_loop-reliable w [] m = refl
timeout_loop-reliable w ((s, p) ∷ rest) m =
    timeout_loop-reliable w rest _
    ∙ if_both (KeepsReliable m) (is_idle m p) _ _ (time_out-reliable w p m)
        (if_both (KeepsReliable m) (is_quiet m p) _ _ (greet-reliable p m) refl)

-- Of a reliable manager: where closing the sockets that timed out leaves fewer than maxActive to
-- put out, and poll comes to a result, whatever became ready in however many rounds, it puts out no
-- more than maxActive. (A failed assert of a debug build is no result, nor is the use of an erased
-- iterator, to which an error that select reports of a socket leads.)
pub poll-HasRoom :
    (w : Platform) (m : SocketManager) (most seconds now : ℕ) (rounds : List Round) (out : List ℕ)
    (m' : SocketManager)
    → m.settings.reliable ≡ true
    → length (timeout_sockets w (record m { active = []; cur_time = now })).active < most
    → poll w m true most seconds now rounds ≡ done (m', some out)
    → length out ≤ most
unfolding poll timeout_sockets
poll-HasRoom w m most seconds now rounds out m' reliable lt result =
    let start : SocketManager = record m { active = []; cur_time = now } in
    let timed = timeout_loop w start.sockets start in
    Ends_result (λ r. HasRoom w most r.1) (poll w m true most seconds now rounds) (m', some out)
      result
      (if_both {A = Run PollResult} (Ends (λ r. HasRoom w most r.1)) (ltb most 1 || not true) _ _ tt
        (Ends->>= {A = PollResult} {B = PollResult} (λ r. HasRoom w most r.1)
          (λ r. HasRoom w most r.1)
          (poll_loop w most seconds now rounds (record timed { write_set = timed.all_set })) _
          (poll_loop-HasRoom w most seconds now rounds (record timed { write_set = timed.all_set })
            (timeout_loop-reliable w start.sockets start ∙ reliable) lt)
          (λ r fits. fits)))

-- ===== src/Sockets/Manager/Polling.antt =====
-- src/lib/socketbase.cpp: poll and SetEtworkSocketNotify of SocketManager.
use etwork.Common.{
  ◌⊎◌, inl, inr, ℕ, ◌+◌, Bool, not, ◌||◌, ◌&&◌, Option, none, some, List, [], ◌∷◌, map, length, ltb,
  ◌==◌, if◌then◌else◌,
}
use etwork.Errors.{
  warning, session, internal_error, new_error, severity_code, area_code, option_code,
}
use etwork.Errors.Wsa.{WsaError, wsaeinval}
use etwork.Buffer.Run.{Run, done, no_fuel, ◌>>=◌}
use etwork.Sockets.Manager.{
  Platform, SocketManager, etwork_error_from, on_notify, call, debug_sock_error, store,
}
use etwork.Sockets.Manager.Service.{
  Answers, Served, timeout_sockets, Selected, select_failed, ready, service_round,
}

-- A round: the time before ::select, what it came to, what was answered after it, and the time
-- after the round.
pub record Round : Type 0 where
  pub before : ℕ
  pub selected : Selected
  pub answers : Answers
  pub after : ℕ

-- active_ as it is copied to outActive; none is the result -1.
abbrev pub pointers : List (ℕ × Unit {0}) → List ℕ
pointers set = map (λ entry. entry.0) set

abbrev pub PollResult : Type 0
PollResult = SocketManager × Option (List ℕ)

unfoldable pub no_more_actives : SocketManager → PollResult
no_more_actives m = (m, some (pointers m.active))

unfoldable pub select_error : SocketManager → WsaError → PollResult
select_error m e =
    let m' = debug_sock_error m none e session in
    if ltb 0 (length m.active) then no_more_actives m' else (m', none)

-- if( then-now < seconds && progress )
unfoldable pub goes_again : ℕ → ℕ → ℕ → Served × Bool → Bool
goes_again seconds now after ((m, progress), full) =
    not full && (ltb after (now + seconds) && progress)

-- A round after ::select, up to the choice to go again.
unfoldable pub serve_selected :
    Platform → ℕ → Round → SocketManager → Selected → Run (PollResult ⊎ (Served × Bool))
serve_selected w max_active r m (select_failed e) = done (inl (select_error m e))
serve_selected w max_active r m (ready reads writes excepts) =
    service_round w r.answers max_active reads writes excepts m >>= λ t. done (inr t)

unfoldable pub round_end :
    (SocketManager → Run PollResult) → ℕ → ℕ → ℕ → PollResult ⊎ (Served × Bool) → Run PollResult
round_end again seconds now after (inl result) = done result
round_end again seconds now after (inr t) =
    let m = t.0.0 in
    let next = again (record m { write_set = m.write_temp_set }) in
    if goes_again seconds now after t then next else done (no_more_actives m)

-- From `again`, over the rounds that the clock and WinSock bring; without one more, poll waits.
unfoldable pub poll_loop : Platform → ℕ → ℕ → ℕ → List Round → SocketManager → Run PollResult
poll_loop w max_active seconds now [] m =
    if m.num_socks == 0 then done (no_more_actives m) else no_fuel
poll_loop w max_active seconds now (r ∷ rest) m =
    let serve = serve_selected w max_active r (record m { cur_time = r.before }) r.selected >>= λ t.
    round_end (poll_loop w max_active seconds now rest) seconds now r.after t in
    if m.num_socks == 0 then done (no_more_actives m) else serve

-- NotifyActive: what its destructor does, on every way out of poll.
unfoldable pub notify_all : List (ℕ × Unit {0}) → SocketManager → SocketManager
notify_all [] m = m
notify_all ((p, u) ∷ rest) m =
    let code = new_error (severity_code warning) (area_code session) (option_code internal_error) in
    let c = if (m.heap p).has_notify then on_notify p else etwork_error_from (some p) code in
    notify_all rest (call c m)

unfoldable pub notify_active : SocketManager → SocketManager
notify_active m = notify_all m.notify (record m { notify = [] })

-- `has_room` is whether there is an outActive; `seconds` is 0 for a negative time.
unfoldable pub poll : Platform → SocketManager → Bool → ℕ → ℕ → ℕ → List Round → Run PollResult
poll w m has_room max_active seconds now rounds =
    let start : SocketManager = record m { active = []; cur_time = now } in
    let timed = timeout_sockets w start in
    let polled =
      poll_loop w max_active seconds now rounds (record timed { write_set = timed.all_set })
      >>= λ r. done (notify_active r.0, r.1) in
    if ltb max_active 1 || not has_room
    then done (debug_sock_error m none wsaeinval session, none)
    else polled

-- SetEtworkSocketNotify
unfoldable pub set_etwork_socket_notify : ℕ → Bool → SocketManager → SocketManager
set_etwork_socket_notify p has_notify m = store p (record (m.heap p) { has_notify = has_notify }) m

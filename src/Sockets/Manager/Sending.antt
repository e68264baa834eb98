-- ===== src/Sockets/Manager/Sending.antt =====
-- src/lib/socketbase.cpp, SocketManager::handle_listening_write: its loops end.
use etwork.Common.{
  ℕ, zero, suc, ◌≤◌, Bool, true, false, ◌||◌, Option, none, some, List, [], ◌∷◌, ◌≡◌, refl, sym,
  ◌∙◌, ap, subst, inl, inr, arith, length, All, ltb, ◌==◌, Bool-cases, List-cases,
}
use etwork.Errors.Wsa.{WsaError}
use etwork.Buffer.{Impl, Message, take_front, get_message, message_count}
use etwork.Buffer.Run.{Run, done, no_fuel, ◌>>=◌}
use etwork.Sockets.{Socket, wants_to_write}
use etwork.Sockets.Manager.{SocketManager, Call, sendto, call, store, set_connection, mark}
use etwork.Sockets.Manager.Datagrams.{
  take_message, sent_to, Writing, after_sendto, write_loop, unless_stopped, write_sockets, written,
  handle_listening_write,
}
use etwork.Sockets.Manager.Core.{if_true, if_false}

-- A socket of an unreliable manager: it writes nothing but messages, each within maxMessageSize.
abbrev pub IsSender : ℕ → Socket → Type 0
IsSender most s = (s.writebuf ≡ []) × All (λ m. m.size ≤ most) s.buf_out.queue

abbrev pub AllSend : SocketManager → Type 0
AllSend m = All (λ e. IsSender m.settings.max_message_size (m.heap e.1).socket) m.sockets

-- Of one socket, by its pointer.
abbrev Sends : ℕ → SocketManager → Type 0
Sends p m = IsSender m.settings.max_message_size (m.heap p).socket

abbrev count : ℕ → SocketManager → ℕ
count p m = message_count (m.heap p).socket.buf_out

-- From one manager to a later one, every socket that sends still does.
abbrev Keeps : SocketManager → SocketManager → Type 0
Keeps m m' = (q : ℕ) → Sends q m → Sends q m'

set_connection-Keeps :
    (p : ℕ) (s : Socket) (m : SocketManager)
    → IsSender m.settings.max_message_size s
    → Keeps m (set_connection p s m)
unfolding set_connection store
set_connection-Keeps p s m sends q before = elim (Bool-cases (q == p)) [
  | inl e ↦ rw e sends
  | inr e ↦ rw e before
]

set_here : (p : ℕ) (s : Socket) (m : SocketManager) → ((set_connection p s m).heap p).socket ≡ s
unfolding set_connection store
set_here p s m = let here : (p == p) ≡ true = ground arith in rw here refl

-- The message at the front of a queue, taken.
taken :
    (im : Impl) (most : ℕ) (m : Message) (rest : List Message)
    → im.queue ≡ m ∷ rest
    → m.size ≤ most
    → (get_message im most).0.queue ≡ rest
unfolding get_message take_front
taken im most m rest e fits =
    let f : ltb most m.size ≡ false = ground arith in
    ap (λ q. (take_front im most q).0.queue) e ∙ rw f refl

abbrev gone_to : ℕ → Call → SocketManager → SocketManager
gone_to p c m = sent_to p (call c (take_message p m).0)

take_message-Sends :
    (p : ℕ) (m : SocketManager) (first : Message) (rest : List Message)
    → (m.heap p).socket.buf_out.queue ≡ first ∷ rest
    → Sends p m
    → Keeps m (take_message p m).0 × (count p (take_message p m).0 ≡ length rest)
unfolding take_message message_count
take_message-Sends p m first rest e (empty, fits) =
    let (fit, others) = subst (All (λ x. x.size ≤ m.settings.max_message_size)) e fits in
    let left = taken (m.heap p).socket.buf_out m.settings.max_message_size first rest e fit in
    let s : Socket = record ((m.heap p).socket) {
      buf_out = (get_message (m.heap p).socket.buf_out m.settings.max_message_size).0;
    } in
    (
      set_connection-Keeps p s m
          (empty, subst (All (λ x. x.size ≤ m.settings.max_message_size)) (sym left) others),
      ap (λ x. length x.buf_out.queue) (set_here p s m) ∙ ap length left,
    )

heap-mark : (p : ℕ) (m : SocketManager) → (mark p m).heap ≡ m.heap
unfolding mark
heap-mark p m = elim (Bool-cases (m.heap p).has_notify) [ inl e ↦ rw e refl | inr e ↦ rw e refl ]

settings-mark : (p : ℕ) (m : SocketManager) → (mark p m).settings ≡ m.settings
unfolding mark
settings-mark p m = elim (Bool-cases (m.heap p).has_notify) [
  | inl e ↦ rw e refl
  | inr e ↦ rw e refl
]

mark-Keeps : (p : ℕ) (m : SocketManager) → Keeps m (mark p m)
mark-Keeps p m q (empty, fits) = (
  ap (λ h. (h q).socket.writebuf) (heap-mark p m) ∙ empty,
  subst (λ s. All (λ x. x.size ≤ s.max_message_size) ((mark p m).heap q).socket.buf_out.queue)
      (sym (settings-mark p m))
      (subst (λ h. All (λ x. x.size ≤ m.settings.max_message_size) (h q).socket.buf_out.queue)
        (sym (heap-mark p m)) fits),
)

sent_to-Sends :
    (p : ℕ) (m : SocketManager)
    → Sends p m
    → Keeps m (sent_to p m) × (count p (sent_to p m) ≡ count p m)
unfolding sent_to message_count
sent_to-Sends p m sends =
    let s : Socket = record ((m.heap p).socket) { last_keepalive = m.cur_time } in
    (
      λ q before.
          set_connection-Keeps p s (mark p m)
            (subst (λ x. IsSender x.max_message_size s) (sym (settings-mark p m)) sends) q
            (mark-Keeps p m q before),
      ap (λ x. length x.buf_out.queue) (set_here p s (mark p m)),
    )

gone_to-Sends :
    (p : ℕ) (c : Call) (m : SocketManager) (first : Message) (rest : List Message)
    → (m.heap p).socket.buf_out.queue ≡ first ∷ rest
    → Sends p m
    → Keeps m (gone_to p c m) × (count p (gone_to p c m) ≡ length rest)
unfolding call
gone_to-Sends p c m first rest e sends =
    let m1 = (take_message p m).0 in
    let (keeps, less) = take_message-Sends p m first rest e sends in
    let (keeps', same) = sent_to-Sends p (call c m1) (keeps p sends) in
    (λ q before. keeps' q (keeps q before), same ∙ less)

called-Keeps :
    (p : ℕ) (c : Call) (m : SocketManager) (first : Message) (rest : List Message)
    → (m.heap p).socket.buf_out.queue ≡ first ∷ rest
    → Sends p m
    → Keeps m (call c (take_message p m).0)
unfolding call
called-Keeps p c m first rest e sends = (take_message-Sends p m first rest e sends).0

-- A loop ends, and the sockets that send still do.
abbrev Ended : SocketManager → Run Writing → Type 0
Ended m r = (t : Writing) × (r ≡ done t) × Keeps m t.manager

wants :
    (m : SocketManager) (p n : ℕ)
    → Sends p m
    → count p m ≡ n
    → wants_to_write (m.heap p).socket ≡ ltb 0 n
unfolding wants_to_write
wants m p n (empty, fits) e = ap (λ t. ltb 0 (length t) || ltb 0 (count p m)) empty ∙ ap (ltb 0) e

after_sendto-Ended :
    (o : Option WsaError) (m out : SocketManager) (gone : Writing) (most : ℕ) (more : Run Writing)
    → Keeps m out
    → Keeps m gone.manager
    → Ended m more
    → Ended m (after_sendto o out gone most more)
unfolding after_sendto
after_sendto-Ended (some e) m out gone most more a b c = (_, refl, a)
after_sendto-Ended none m out gone most more a b (t, e, k) =
    elim (Bool-cases (length gone.manager.active == most)) [
      | inl full ↦ (gone, if_true (length gone.manager.active == most) _ _ full, b)
      | inr room ↦ (t, if_false (length gone.manager.active == most) _ _ room ∙ e, k)
    ]

write_loop-Ended :
    (send : ℕ → Option WsaError) (most n p : ℕ) (t : Writing)
    → Sends p t.manager
    → count p t.manager ≡ n
    → Ended t.manager (write_loop send most n p t)
unfolding write_loop message_count
write_loop-Ended send most zero p t sends e =
    (t, if_false _ no_fuel (done t) (wants t.manager p 0 sends e), λ q before. before)
write_loop-Ended send most (suc n) p t sends e =
    elim (List-cases (t.manager.heap p).socket.buf_out.queue) [
      | inl nothing ↦ absurd (let z = ap length nothing in omega arith)
      | inr (first, rest, shape) ↦
          let m = t.manager in
          let r = take_message p m in
          let c = sendto (m.heap p).addr r.1 in
          let gone : Writing = record {
            manager = sent_to p (call c r.0);
            sends = suc t.sends;
            stopped = none;
          } in
          let (keeps, less) = gone_to-Sends p c m first rest shape sends in
          let size = ap length shape in
          let (t', again, k) =
            write_loop-Ended send most n p gone (keeps p sends) (less ∙ (omega arith)) in
          let more : Ended m (write_loop send most n p gone) =
            (t', again, λ q before. k q (keeps q before)) in
          let (t'', is, k') =
            after_sendto-Ended (send t.sends) m (call c r.0) gone most
              (write_loop send most n p gone) (called-Keeps p c m first rest shape sends) keeps
              more in
          (t'', if_true _ _ (done t) (wants m p (suc n) sends e ∙ positive n) ∙ is, k')
    ]
  where
    positive : (n : ℕ) → ltb 0 (suc n) ≡ true
    positive n = ground arith

unless_stopped-Ended :
    (o : Option WsaError) (m : SocketManager) (t : Writing) (more : Run Writing)
    → Keeps m t.manager
    → Ended m more
    → Ended m (unless_stopped o t more)
unfolding unless_stopped
unless_stopped-Ended none m t more a b = b
unless_stopped-Ended (some e) m t more a b = (t, refl, a)

later :
    (entries : List (ℕ × ℕ)) (m m' : SocketManager)
    → Keeps m m'
    → All (λ e. Sends e.1 m) entries
    → All (λ e. Sends e.1 m') entries
later [] m m' k all = tt
later (e ∷ rest) m m' k (s, all) = (k e.1 s, later rest m m' k all)

write_sockets-Ended :
    (send : ℕ → Option WsaError) (most : ℕ) (entries : List (ℕ × ℕ)) (t : Writing)
    → All (λ e. Sends e.1 t.manager) entries
    → Ended t.manager (write_sockets send most entries t)
unfolding write_sockets
write_sockets-Ended send most [] t all = (t, refl, λ q before. before)
write_sockets-Ended send most ((s, p) ∷ rest) t (sends, all) =
    let (t1, e, k) = write_loop-Ended send most (count p t.manager) p t sends refl in
    let (t2, e', k') =
      write_sockets-Ended send most rest t1 (later rest t.manager t1.manager k all) in
    let (t3, e'', k'') =
      unless_stopped-Ended t1.stopped t.manager t1 (write_sockets send most rest t1) k
        (t2, e', λ q before. k' q (k q before)) in
    (
      t3,
      ap (λ r. r >>= λ t'. unless_stopped t'.stopped t' (write_sockets send most rest t')) e ∙ e'',
      k'',
    )

-- Of an unreliable manager whose sockets each have nothing but messages to write, within
-- maxMessageSize: whatever sendto comes to, handle_listening_write ends.
pub handle_listening_write_done :
    (m : SocketManager) (send : ℕ → Option WsaError) (most : ℕ)
    → m.settings.reliable ≡ false
    → AllSend m
    → (r : (SocketManager × Bool)) × (handle_listening_write m send most ≡ done r)
unfolding handle_listening_write
handle_listening_write_done m send most unreliable sends =
    let start : Writing = record { manager = m; sends = 0; stopped = none } in
    let (t, e, k) = write_sockets-Ended send most m.sockets start sends in
    (
      written t.stopped t.manager,
      if_false m.settings.reliable _ _ unreliable
          ∙ ap (λ r. r >>= λ t'. done (written t'.stopped t'.manager)) e,
    )

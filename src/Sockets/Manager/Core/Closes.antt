-- ===== src/Sockets/Manager/Core/Closes.antt =====
-- src/lib/sockimpl.h, Socket::close_socket, with SocketManager::remove_socket: what closing a socket
-- does to the bookkeeping of the manager.
use etwork.Common.{
  ℕ, ◌<◌, true, false, not, ◌&&◌, none, some, ◌≡◌, refl, sym, ◌∙◌, ap, subst, inl, inr, arith, ltb,
  ◌==◌, if◌then◌else◌, Bool-cases, ==_iff, ap₃,
}
use mathlib.Core.Path.{fun_ext}
use etwork.Common.Map.{find, erase}
use etwork.Sockets.Manager.{
  Platform, Peer, SocketManager, invalid_socket, call, closesocket, update, store, mem,
  erase_waiting, remove_waiting, remove_found, remove_socket, regenerate_sets, shut, close_handle,
  close_socket,
}
use etwork.Sockets.Manager.View.{View, IsConsistent, view}
use etwork.Sockets.Manager.View.Closing.{
  closed_found, closed_found-IsConsistent, closed_waiting, closed_waiting-IsConsistent,
}
use etwork.Sockets.Manager.Core.{Core, core, view_of, core_if, with_fields, stored}

core-regenerate : (w : Platform) (m : SocketManager) → core (regenerate_sets w m) ≡ core m
unfolding regenerate_sets
core-regenerate w m = refl

-- The core that remove_socket leaves, by where it found the socket.
abbrev taken_out : ℕ → Core → Core
taken_out p c = record c {
  sockets = erase ltb (c.heap p).handle c.sockets;
  addrs = erase ltb (c.heap p).addr c.addrs;
}

abbrev taken_back : ℕ → Core → Core
taken_back p c = record c {
  waiting = erase_waiting p c.waiting;
  addrs = erase ltb (c.heap p).addr c.addrs;
}

core-remove_found :
    (w : Platform) (p q : ℕ) (m : SocketManager)
    → find ltb (m.heap p).handle m.sockets ≡ some q
    → core (remove_socket w p m) ≡ taken_out p (core m)
unfolding remove_socket remove_found
core-remove_found w p q m e = rw e (elim (Bool-cases m.settings.reliable) [
  | inl r ↦ rw r (core-regenerate w _)
  | inr r ↦ rw r refl
])

core-remove_waiting :
    (w : Platform) (p : ℕ) (m : SocketManager)
    → find ltb (m.heap p).handle m.sockets ≡ none
    → mem p m.waiting ≡ true
    → core (remove_socket w p m) ≡ taken_back p (core m)
unfolding remove_socket remove_found remove_waiting
core-remove_waiting w p m e waits = rw (e, waits) refl

abbrev without_handle : Peer → Peer
without_handle peer = record peer { handle = invalid_socket }

core-close_handle :
    (p : ℕ) (m : SocketManager)
    → core (close_handle p m) ≡ stored p (without_handle (m.heap p)) (core m)
unfolding close_handle store call
core-close_handle p m = ap (stored p (without_handle (m.heap p))) (
    core_if (not ((m.heap p).handle == invalid_socket) && m.settings.reliable)
      (call (closesocket (m.heap p).handle) m) m refl)

-- Closing on the core, with `remove` for what the maps lose.
abbrev closes : (ℕ → Core → Core) → ℕ → Core → Core
closes remove p c =
    let removed = remove p (stored p (shut (c.heap p)) c) in
    stored p (without_handle (removed.heap p)) removed

module _ (heap : ℕ → Peer) (p : ℕ) where
  abbrev twice : ℕ → Peer
  twice =
      update (update heap p (shut (heap p))) p (without_handle (update heap p (shut (heap p)) p))

  fields-twice {ℓ} :
      {A : Type ℓ} (f : Peer → A)
      → ◌≡◌ {A = ℕ → A}
          (λ q. f (twice q))
          (λ q. if q == p then f (without_handle (shut (heap p))) else f (heap q))
  fields-twice f =
      let here : (p == p) ≡ true = ground arith in
      fun_ext λ q. elim (Bool-cases (q == p)) [ inl e ↦ rw (e, here) refl | inr e ↦ rw e refl ]

  addr-twice : ◌≡◌ {A = ℕ → ℕ} (λ q. (twice q).addr) (λ q. (heap q).addr)
  addr-twice =
      fields-twice (λ x. x.addr)
      ∙ fun_ext λ q. elim (Bool-cases (q == p)) [
        | inl e ↦ rw e (ap (λ x. (heap x).addr) (sym ((==_iff q p).0 e)))
        | inr e ↦ rw e refl
      ]

update_here : (heap : ℕ → Peer) (p : ℕ) (peer : Peer) → update heap p peer p ≡ peer
update_here heap p peer = let here : (p == p) ≡ true = ground arith in rw here refl

view-closes_found : (p : ℕ) (c : Core) → view_of (closes taken_out p c) ≡ closed_found p (view_of c)
view-closes_found p c =
    ap₃ (with_fields (view_of (taken_out p (stored p (shut (c.heap p)) c))))
      (fields-twice c.heap p (λ x. x.handle)) (addr-twice c.heap p)
      (fields-twice c.heap p (λ x. x.socket.closed))
    ∙ ap
        (λ x. (record (closed_found p (view_of c)) {
          sockets = erase ltb x.handle c.sockets;
          addrs = erase ltb x.addr c.addrs;
        }))
        (update_here c.heap p (shut (c.heap p)))

view-closes_waiting :
    (p : ℕ) (c : Core) → view_of (closes taken_back p c) ≡ closed_waiting p (view_of c)
view-closes_waiting p c =
    ap₃ (with_fields (view_of (taken_back p (stored p (shut (c.heap p)) c))))
      (fields-twice c.heap p (λ x. x.handle)) (addr-twice c.heap p)
      (fields-twice c.heap p (λ x. x.socket.closed))
    ∙ ap (λ x. (record (closed_waiting p (view_of c)) { addrs = erase ltb x.addr c.addrs }))
        (update_here c.heap p (shut (c.heap p)))

module _ (w : Platform) (p : ℕ) (m : SocketManager) where
  abbrev shutting : SocketManager
  shutting = store p (shut (m.heap p)) m

  core-closes :
      (remove : ℕ → Core → Core)
      → (m.heap p).socket.closed ≡ false
      → core (remove_socket w p shutting) ≡ remove p (core shutting)
      → core (close_socket w p m) ≡ closes remove p (core m)
  unfolding close_socket store
  core-closes remove o e = rw o (
      core-close_handle p (remove_socket w p (store p (shut (m.heap p)) m))
      ∙ ap (λ c. stored p (without_handle (c.heap p)) c) e)

  handle_of_shut : ((shutting).heap p).handle ≡ (m.heap p).handle
  unfolding store
  handle_of_shut = ap (λ x. x.handle) (update_here m.heap p (shut (m.heap p)))

  close_socket_closed : (m.heap p).socket.closed ≡ true → close_socket w p m ≡ m
  unfolding close_socket
  close_socket_closed e = rw e refl

  -- Consistent, with as many sockets made as before.
  abbrev Stays : View → Type 0
  Stays v = IsConsistent v × (v.allocated ≡ m.allocated)

  close_socket-Stays : p < m.allocated → IsConsistent (view m) → Stays (view (close_socket w p m))
  unfolding store
  close_socket-Stays lt c = elim (Bool-cases (m.heap p).socket.closed) [
    | inl already ↦ subst (λ x. Stays (view x)) (sym (close_socket_closed already)) (c, refl)
    | inr o ↦ elim (c.held p lt o) [
      | inl found ↦
          subst Stays
            (sym (
              ap view_of (
                core-closes taken_out o (
                  core-remove_found w p p shutting
                    (ap (λ x. find ltb x m.sockets) handle_of_shut ∙ found)))
              ∙ view-closes_found p (core m)))
            (closed_found-IsConsistent (view m) p c lt found, refl)
      | inr waits ↦
          subst Stays
            (sym (
              ap view_of (
                core-closes taken_back o (
                  core-remove_waiting w p shutting
                    (ap (λ x. find ltb x m.sockets) handle_of_shut ∙ (c.queued p waits).2) waits))
              ∙ view-closes_waiting p (core m)))
            (closed_waiting-IsConsistent (view m) p c waits, refl)
    ]
  ]

  pub close_socket-IsConsistent :
      p < m.allocated → IsConsistent (view m) → IsConsistent (view (close_socket w p m))
  close_socket-IsConsistent lt c = (close_socket-Stays lt c).0

  pub allocated-close_socket :
      p < m.allocated → IsConsistent (view m) → (close_socket w p m).allocated ≡ m.allocated
  allocated-close_socket lt c = (close_socket-Stays lt c).1

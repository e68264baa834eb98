-- ===== src/Sockets/Manager/Core/Joins.antt =====
-- src/lib/socketbase.cpp: what a new socket, accept and connect do to the bookkeeping of a manager.
use etwork.Common.{
  ℕ, zero, suc, ◌<◌, true, false, Option, none, some, List, [], ◌∷◌, ◌++◌, ◌≡◌, refl, sym, ◌∙◌,
  subst, inl, inr, arith, length, ltb, ◌==◌, Bool-cases, ap₃,
}
use etwork.Common.Map.{insert}
use etwork.Common.Int.{ltb_ℤ, to_signed}
use etwork.Errors.Wsa.{WsaError}
use etwork.Sockets.{new_socket, write}
use etwork.Sockets.Manager.{Platform, SocketManager, call, store, regenerate_sets, allocate}
use etwork.Sockets.Manager.Connecting.{
  set_space, needed_space, spare_space, change_queuing_space, register, accept_loop, accept, greet,
  connect_peer,
}
use etwork.Sockets.Manager.Datagrams.{Datagram, await, told_of, welcome}
use etwork.Sockets.Manager.View.{IsConsistent, view}
use etwork.Sockets.Manager.View.Joining.{
  IsFresh, IsMinted, registered_first, registered_first-IsConsistent, created,
  created_last-IsConsistent, created_first-IsConsistent, named-IsConsistent,
}
use etwork.Sockets.Manager.Core.{
  Core, core, view_of, core_if, if_both, with_fields, stored, field-update, view-stored,
  view-set_connection, core-debug,
}

core-set_space :
    (m : SocketManager) (n : ℕ) (send receive : Option WsaError)
    → core (set_space m n send receive) ≡ core m
unfolding set_space call
core-set_space m n (some e) receive = core-debug m none e _
core-set_space m n none (some e) = core-debug m none e _
core-set_space m n none none = refl

pub core-change_queuing_space :
    (m : SocketManager) (send receive : Option WsaError)
    → core (change_queuing_space m send receive) ≡ core m
unfolding change_queuing_space
core-change_queuing_space m send receive =
    core_if (ltb_ℤ (to_signed m.cur_queue_space) (to_signed (needed_space m)))
      (set_space m (spare_space m (needed_space m)) send receive) m
      (core-set_space m (spare_space m (needed_space m)) send receive)

pub core-regenerate : (w : Platform) (m : SocketManager) → core (regenerate_sets w m) ≡ core m
unfolding regenerate_sets
core-regenerate w m = refl

-- The first socket of accepted_, registered and no longer waiting.
abbrev joins : ℕ → List ℕ → Core → Core
joins p rest c =
    stored p (record (c.heap p) { is_accepted = true })
      (record c { sockets = insert ltb (c.heap p).handle p c.sockets; waiting = rest })

view-joins :
    (p : ℕ) (rest : List ℕ) (c : Core)
    → view_of (joins p rest c) ≡ registered_first p rest (view_of c)
view-joins p rest c =
    view-stored p (record (c.heap p) { is_accepted = true })
      (record c { sockets = insert ltb (c.heap p).handle p c.sockets; waiting = rest })
      (refl, refl, refl)

-- accepted_ as accept's loop has it, while the manager still has the whole of it.
abbrev pub waits : List ℕ → SocketManager → SocketManager
waits ps m = record m { waiting = ps }

pub view-register :
    (p : ℕ) (rest : List ℕ) (m : SocketManager)
    → view (waits rest (register p m)) ≡ registered_first p rest (view m)
unfolding register store
view-register p rest m = view-joins p rest (core m)

pub register-IsConsistent :
    (m : SocketManager) (p : ℕ) (rest : List ℕ)
    → IsConsistent (view (waits (p ∷ rest) m))
    → IsConsistent (view (waits rest (register p m)))
unfolding register store
register-IsConsistent m p rest c =
    subst IsConsistent (sym (view-joins p rest (core m)))
      (registered_first-IsConsistent (view (waits (p ∷ rest) m)) p rest refl c)

accept_loop-IsConsistent :
    (n : ℕ) (ps : List ℕ) (m : SocketManager)
    → IsConsistent (view (waits ps m))
    → IsConsistent (view (accept_loop n ps m).0)
unfolding accept_loop
accept_loop-IsConsistent zero ps m c = c
accept_loop-IsConsistent (suc n) [] m c = c
accept_loop-IsConsistent (suc n) (p ∷ rest) m c =
    accept_loop-IsConsistent n rest (register p m) (register-IsConsistent m p rest c)

pub accept-IsConsistent :
    (w : Platform) (m : SocketManager) (n : ℕ) (send receive : Option WsaError)
    → IsConsistent (view m)
    → IsConsistent (view (accept w m n send receive).0)
unfolding accept
accept-IsConsistent w m n send receive c =
    let looped = accept_loop-IsConsistent n m.waiting m c in
    let r = accept_loop n m.waiting m in
    elim (Bool-cases (length r.1 == 0)) [
      | inl e ↦ rw e looped
      | inr e ↦ rw e (
          subst (λ x. IsConsistent (view_of x))
            (sym (
              core-regenerate w (change_queuing_space r.0 send receive)
              ∙ core-change_queuing_space r.0 send receive))
            looped)
    ]

view-allocate :
    (m : SocketManager) (a id next : ℕ) (ps : List ℕ)
    → view (waits ps (allocate m a (id, next)).0) ≡ created ps id next a (view m)
unfolding allocate store new_socket
view-allocate m a id next ps =
    ap₃ (with_fields (record (view m) { waiting = ps; allocated = suc m.allocated; next = next }))
      (field-update (λ x. x.handle) m.heap m.allocated _)
      (field-update (λ x. x.addr) m.heap m.allocated _)
      (field-update (λ x. x.socket.closed) m.heap m.allocated _)

view-await :
    (m : SocketManager) (a id next : ℕ)
    → view (await (allocate m a (id, next)))
      ≡ created (m.waiting ++ m.allocated ∷ []) id next a (view m)
unfolding await allocate store
view-await m a id next = view-allocate m a id next (m.waiting ++ m.allocated ∷ [])

-- accepted_.push_back of a new socket with a fresh handle.
pub await-IsConsistent :
    (m : SocketManager) (a id next : ℕ)
    → IsMinted id next (view m)
    → IsFresh id (view m)
    → IsConsistent (view m)
    → IsConsistent (view (await (allocate m a (id, next))))
await-IsConsistent m a id next minted fresh c =
    subst IsConsistent (sym (view-await m a id next))
      (created_last-IsConsistent (view m) c id next a minted fresh)

-- The socket that allocate made.
allocated_peer :
    (m : SocketManager) (a id next : ℕ)
    → (((allocate m a (id, next)).0.heap m.allocated).addr ≡ a)
      × (((allocate m a (id, next)).0.heap m.allocated).socket.closed ≡ false)
unfolding allocate store new_socket
allocated_peer m a id next =
    let here : (m.allocated == m.allocated) ≡ true = ground arith in (rw here refl, rw here refl)

named :
    (m : SocketManager) (a p : ℕ)
    → p < m.allocated
    → (m.heap p).addr ≡ a
    → (m.heap p).socket.closed ≡ false
    → IsConsistent (view m)
    → IsConsistent (view (record m { socket_addrs = insert ltb a p m.socket_addrs }))
named m a p lt at o c = named-IsConsistent (view m) c a p lt at o

core-told_of : (o : Option WsaError) (m : SocketManager) → core (told_of o m) ≡ core m
unfolding told_of
core-told_of none m = refl
core-told_of (some e) m = core-debug m none e _

grown :
    (m : SocketManager) (a id next : ℕ) → m.allocated < (await (allocate m a (id, next))).allocated
unfolding await allocate store
grown m a id next = omega arith

awaiting :
    (m : SocketManager) (a id next : ℕ)
    → IsMinted id next (view m)
    → IsFresh id (view m)
    → IsConsistent (view m)
    → let m' = await (allocate m a (id, next)) in
      IsConsistent (view (record m' { socket_addrs = insert ltb a m.allocated m'.socket_addrs }))
unfolding await
awaiting m a id next minted fresh c =
    let (at, o) = allocated_peer m a id next in
    named (await (allocate m a (id, next))) a m.allocated (grown m a id next) at o
      (await-IsConsistent m a id next minted fresh c)

-- A new datagram's socket: waiting, and found by its address.
pub welcome-IsConsistent :
    (m : SocketManager) (d : Datagram) (id next : ℕ)
    → IsMinted id next (view m)
    → IsFresh id (view m)
    → IsConsistent (view m)
    → IsConsistent (view (welcome d (allocate m d.from (id, next))))
unfolding welcome call allocate
welcome-IsConsistent m d id next minted fresh c =
    subst (λ x. IsConsistent (view_of x)) (sym (core-told_of d.answer _))
      (awaiting m d.from id next minted fresh c)

-- connect, for a reliable manager and for an unreliable one.
joined_at_once :
    (m : SocketManager) (a id next : ℕ)
    → IsMinted id next (view m)
    → IsFresh id (view m)
    → IsConsistent (view m)
    → IsConsistent (view (register m.allocated (allocate m a (id, next)).0))
unfolding register store allocate
joined_at_once m a id next minted fresh c =
    register-IsConsistent (allocate m a (id, next)).0 m.allocated m.waiting (
      subst IsConsistent (sym (view-allocate m a id next (m.allocated ∷ m.waiting)))
        (created_first-IsConsistent (view m) c id next a minted fresh))

registered_peer :
    (m : SocketManager) (a id next : ℕ)
    → let m' = register m.allocated (allocate m a (id, next)).0 in
      (m.allocated < m'.allocated)
      × ((m'.heap m.allocated).addr ≡ a)
      × ((m'.heap m.allocated).socket.closed ≡ false)
unfolding register store allocate new_socket
registered_peer m a id next =
    let here : (m.allocated == m.allocated) ≡ true = ground arith in
    (omega arith, rw here refl, rw here refl)

pub greet-view : (p : ℕ) (m : SocketManager) → view (greet p m) ≡ view m
unfolding greet write
greet-view p m = view-set_connection p _ m refl

connected :
    (w : Platform) (m : SocketManager) (a p : ℕ)
    → p < (register p m).allocated
    → ((register p m).heap p).addr ≡ a
    → ((register p m).heap p).socket.closed ≡ false
    → IsConsistent (view (register p m))
    → IsConsistent (view (connect_peer w a (m, p)).0)
unfolding connect_peer regenerate_sets
connected w m a p lt at o c =
    if_both (λ x. IsConsistent (view x)) m.settings.reliable _ _ c
      (subst IsConsistent (sym (greet-view p _)) (named (register p m) a p lt at o c))

pub connect_peer-IsConsistent :
    (w : Platform) (m : SocketManager) (a id next : ℕ)
    → IsMinted id next (view m)
    → IsFresh id (view m)
    → IsConsistent (view m)
    → IsConsistent (view (connect_peer w a (allocate m a (id, next))).0)
unfolding allocate
connect_peer-IsConsistent w m a id next minted fresh c =
    let (lt, at, o) = registered_peer m a id next in
    connected w (allocate m a (id, next)).0 a m.allocated lt at o
      (joined_at_once m a id next minted fresh c)

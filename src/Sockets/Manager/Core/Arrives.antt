-- ===== src/Sockets/Manager/Core/Arrives.antt =====
-- src/lib/socketbase.cpp: what connections and datagrams that arrive, and connect, do to the
-- bookkeeping of a manager.
use etwork.Common.{
  ℕ, suc, ◌+◌, ◌^◌, ◌<◌, Bool, true, false, ◌||◌, Option, none, some, ◌≡◌, refl, sym, ◌∙◌, ap,
  subst, inl, inr, arith, length, ltb, ◌==◌, Bool-cases, Option-cases,
}
use etwork.Common.Map.{find}
use etwork.Errors.Wsa.{WsaError}
use etwork.Buffer.Run.{Run, done, ◌>>=◌}
use etwork.Sockets.Manager.{
  Platform, SocketManager, allocate, new_peer, is_taken, socket_id, debug_sock_error, call,
}
use etwork.Sockets.Manager.Ids.{socket_id_fresh}
use etwork.Sockets.Manager.Connecting.{
  Connecting, no_host, not_made, refused, connected, told, connect_peer, connect_to,
}
use etwork.Sockets.Manager.Datagrams.{
  Arrival, arrived, no_arrival, Datagram, await, welcome, receive_from, listening_accept, touch,
}
use etwork.Sockets.Manager.View.{IsConsistent, view}
use etwork.Sockets.Manager.View.Joining.{IsFresh, IsMinted}
use etwork.Sockets.Manager.Core.{
  view_of, core-debug, core-call, if_both, if_cases, if_true, if_false, Ends,
}
use etwork.Sockets.Manager.Core.Joins.{
  await-IsConsistent, welcome-IsConsistent, connect_peer-IsConsistent,
}
use etwork.Sockets.Manager.Core.Serves.{debug-view, touch-view, deliver-view}

-- Enough ids below 2^32 to mint one more.
abbrev pub HasIds : SocketManager → Type 0
HasIds m = m.next_socket + length m.sockets + 2 < 2 ^ 32

-- What a new socket needs: of a reliable manager, that WinSock gave a handle that no other open
-- socket has; of an unreliable one, that there are ids left.
abbrev pub CanJoin : SocketManager → ℕ → Type 0
CanJoin m s =
    (m.settings.reliable ≡ true → IsFresh s (view m)) × (m.settings.reliable ≡ false → HasIds m)

unused : (m : SocketManager) (id : ℕ) → is_taken m id ≡ false → find ltb id m.sockets ≡ none
unfolding is_taken
unused m id free = elim (Option-cases (find ltb id m.sockets)) [
  | inl e ↦ e
  | inr (p, e) ↦ absurd (taken (id == m.listening) (rw e at free))
]
  where
    taken : (b : Bool) → (b || true) ≡ false → ⊥
    taken true h = cc
    taken false h = cc

minted :
    (m : SocketManager)
    → m.settings.reliable ≡ false
    → HasIds m
    → IsConsistent (view m)
    → (id : ℕ) × (socket_id m ≡ done (id, suc id))
      × IsFresh id (view m)
      × IsMinted id (suc id) (view m)
minted m u h c =
    let (id, e, free, le, lt) = socket_id_fresh m h in
    (
      id,
      e,
      (unused m id free, λ q w i. (let b = c.below u q w in omega arith)),
      λ r. (omega arith, omega arith),
    )

pub true≢false : true ≡ false → ⊥
true≢false h = cc

-- new Socket, whatever is done with it.
new_peer-Joins :
    (P : SocketManager × ℕ → Type 0) (m : SocketManager) (s a : ℕ)
    → CanJoin m s
    → IsConsistent (view m)
    → ((id next : ℕ)
        → IsMinted id next (view m)
        → IsFresh id (view m)
        → P (allocate m a (id, next)))
    → (r : SocketManager × ℕ) × (new_peer m s a ≡ done r) × P r
unfolding new_peer
new_peer-Joins P m s a (fresh, ids) c h = elim (Bool-cases m.settings.reliable) [
  | inl e ↦ (
    allocate m a (s, m.next_socket),
    ap (λ x. x >>= λ t. done (allocate m a t)) (if_true m.settings.reliable _ _ e),
    h s m.next_socket (λ f. absurd (true≢false (sym e ∙ f))) (fresh e),
  )
  | inr e ↦
      let (id, is, f, mi) = minted m e (ids e) c in
      (
        allocate m a (id, suc id),
        ap (λ x. x >>= λ t. done (allocate m a t)) (if_false m.settings.reliable _ _ e ∙ is),
        h id (suc id) mi f,
      )
]

Ends-result :
    {A B : Type 0} (P : B → Type 0) (r : Run A) (f : A → B)
    → (a : A) × (r ≡ done a) × P (f a)
    → Ends P (r >>= λ a. done (f a))
Ends-result P r f (a, e, h) = rw e h

pub listening_accept-Ends :
    (m : SocketManager) (r : Arrival)
    → ((s a : ℕ) → r ≡ arrived s a → CanJoin m s)
    → IsConsistent (view m)
    → Ends (λ t. IsConsistent (view t.0)) (listening_accept m r)
unfolding listening_accept
listening_accept-Ends m (arrived s a) can c =
    Ends-result {B = SocketManager × Bool} (λ t. IsConsistent (view t.0)) (new_peer m s a) _
      (new_peer-Joins (λ t. IsConsistent (view (await t))) m s a (can s a refl) c
        (λ id next mi f. await-IsConsistent m a id next mi f c))
listening_accept-Ends m (no_arrival e) can c = subst IsConsistent (sym (debug-view m none e)) c

pub receive_from-Ends :
    (o : Option ℕ) (m : SocketManager) (d : Datagram)
    → CanJoin m 0
    → IsConsistent (view m)
    → Ends (λ t. IsConsistent (view t)) (receive_from o m d)
unfolding receive_from
receive_from-Ends (some p) m d can c =
    subst IsConsistent (sym (deliver-view p d.bytes (touch p m) ∙ touch-view p m)) c
receive_from-Ends none m d can c =
    if_both (Ends (λ t. IsConsistent (view t))) m.settings.accepting _ (done m)
      (Ends-result (λ t. IsConsistent (view t)) (new_peer m 0 d.from) (welcome d)
        (new_peer-Joins (λ t. IsConsistent (view (welcome d t))) m 0 d.from can c
          (λ id next mi f. welcome-IsConsistent m d id next mi f c)))
      c

told-view : (o : Option WsaError) (m : SocketManager) → view (told o m) ≡ view m
unfolding told
told-view none m = refl
told-view (some e) m = ap view_of (core-debug m none e _)

told-settings : (o : Option WsaError) (m : SocketManager) → (told o m).settings ≡ m.settings
unfolding told debug_sock_error call
told-settings none m = refl
told-settings (some e) m = refl

told-sockets : (o : Option WsaError) (m : SocketManager) → HasIds m → HasIds (told o m)
unfolding told debug_sock_error call
told-sockets none m h = h
told-sockets (some e) m h = h

can_told : (d : Option WsaError) (m : SocketManager) (s : ℕ) → CanJoin m s → CanJoin (told d m) s
can_told d m s (fresh, ids) = (
  λ r.
      subst (IsFresh s) (sym (told-view d m))
        (fresh (sym (ap (λ x. x.reliable) (told-settings d m)) ∙ r)),
  λ r. told-sockets d m (ids (sym (ap (λ x. x.reliable) (told-settings d m)) ∙ r)),
)

connected-Ends :
    (w : Platform) (a : ℕ) (m : SocketManager) (s : ℕ)
    → CanJoin m s
    → IsConsistent (view m)
    → Ends (λ t. IsConsistent (view t.0)) (new_peer m s a >>= λ t. done (connect_peer w a t))
connected-Ends w a m s can c =
    Ends-result {B = SocketManager × Option ℕ} (λ t. IsConsistent (view t.0)) (new_peer m s a)
      (connect_peer w a)
      (new_peer-Joins (λ t. IsConsistent (view (connect_peer w a t).0)) m s a can c
        (λ id next mi f. connect_peer-IsConsistent w m a id next mi f c))

pub connect_to-Ends :
    (w : Platform) (m : SocketManager) (a : ℕ) (o : Connecting)
    → ((s : ℕ) (d : Option WsaError) → o ≡ connected s d → CanJoin m s)
    → IsConsistent (view m)
    → Ends (λ t. IsConsistent (view t.0)) (connect_to w m a o)
unfolding connect_to
connect_to-Ends w m a (no_host e) can c =
    subst IsConsistent (sym (ap view_of (core-debug m none e _))) c
connect_to-Ends w m a (not_made e) can c =
    subst IsConsistent (sym (ap view_of (core-debug m none e _))) c
connect_to-Ends w m a (refused s e) can c =
    subst IsConsistent (sym (ap view_of (core-call _ _ ∙ core-debug m none e _))) c
connect_to-Ends w m a (connected s d) can c =
    let bind = λ (r : Run (SocketManager × ℕ)). r >>= λ t. done (connect_peer w a t) in
    if_cases (λ r. Ends (λ t. IsConsistent (view t.0)) (bind r)) m.settings.reliable
      (new_peer (told d m) s a) (new_peer m m.listening a)
      (λ e.
        connected-Ends w a (told d m) s (can_told d m s (can s d refl))
          (subst IsConsistent (sym (told-view d m)) c))
      (λ e.
        connected-Ends w a m m.listening (λ r. absurd (true≢false (sym r ∙ e)), (can s d refl).1) c)

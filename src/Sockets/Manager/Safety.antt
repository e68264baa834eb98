-- ===== src/Sockets/Manager/Safety.antt =====
-- src/lib/socketbase.cpp: what the agreement of maps, queue and sockets is good for: no pointer to a
-- closed socket, no failed ASSERT, and the order in which accept hands sockets out.
use etwork.Common.{
  ℕ, zero, suc, ◌<◌, Bool, true, false, Option, some, List, [], ◌∷◌, ◌≡◌, ◌≢◌, refl, sym, ◌∙◌, ap,
  subst, inl, inr, length, take, drop, ltb, ◌==◌, arith, ==_iff,
}
use etwork.Common.Map.{find}
use etwork.Errors.Wsa.{WsaError}
use etwork.Sockets.Manager.{
  Platform, SocketManager, mem, remove_socket, remove_found, remove_waiting, regenerate_sets,
}
use etwork.Sockets.Manager.Connecting.{register, accept_loop, accept}
use etwork.Sockets.Manager.View.{
  View, IsConsistent, view, Once, false≢true, mem_head, mem_behind, mem_tail, same_or_other,
}
use etwork.Sockets.Manager.View.Joining.{registered_first}
use etwork.Sockets.Manager.Core.{core, view_of, if_both, if_cases}
use etwork.Sockets.Manager.Core.Joins.{
  accept-IsConsistent, view-register, core-regenerate, core-change_queuing_space,
}
use etwork.Sockets.Manager.Reach.{Reach, Reach-IsConsistent}

-- No pointer of the manager leads to the socket.
abbrev pub IsForgotten : ℕ → SocketManager → Type 0
IsForgotten p m =
    ((s : ℕ) → find ltb s m.sockets ≢ some p)
    × ((a : ℕ) → find ltb a m.socket_addrs ≢ some p)
    × (mem p m.waiting ≡ false)

-- In every state that is reached, nothing in sockets_, socketAddrs_ and accepted_ leads to a socket
-- that is closed.
pub closed-IsForgotten :
    (w : Platform) (m : SocketManager) (p : ℕ)
    → Reach w m
    → (m.heap p).socket.closed ≡ true
    → IsForgotten p m
closed-IsForgotten w m p r shut =
    let c = Reach-IsConsistent w m r in
    (
      λ s e. false≢true (sym (c.registered s p e).2 ∙ shut),
      λ a e. false≢true (sym (c.addressed a p e).2 ∙ shut),
      unqueued c (mem p m.waiting) refl,
    )
  where
    unqueued : IsConsistent (view m) → (b : Bool) → mem p m.waiting ≡ b → b ≡ false
    unqueued c true e = absurd (false≢true (sym (c.queued p e).1 ∙ shut))
    unqueued c false e = refl

-- In every state that is reached, remove_socket of an open socket finds it: the assertion that it
-- has for a socket that is nowhere does not fail, and nothing else is called.
pub remove_socket_found :
    (w : Platform) (m : SocketManager) (p : ℕ)
    → Reach w m
    → p < m.allocated
    → (m.heap p).socket.closed ≡ false
    → (remove_socket w p m).calls ≡ m.calls
unfolding remove_socket remove_found remove_waiting regenerate_sets
remove_socket_found w m p r lt o =
    let c = Reach-IsConsistent w m r in
    elim (c.held p lt o) [
      | inl e ↦
          rw e
            (if_both {A = SocketManager} (λ x. x.calls ≡ m.calls) m.settings.reliable _ _ refl refl)
      | inr queued ↦ rw ((c.queued p queued).2, queued) refl
    ]

-- accept's loop, on the pointers.
accept_loop_lem :
    (n : ℕ) (ps : List ℕ) (m : SocketManager)
    → ((accept_loop n ps m).1 ≡ take n ps) × ((accept_loop n ps m).0.waiting ≡ drop n ps)
unfolding accept_loop
accept_loop_lem zero ps m = (refl, refl)
accept_loop_lem (suc n) [] m = (refl, refl)
accept_loop_lem (suc n) (p ∷ rest) m =
    let (out, left) = accept_loop_lem n rest (register p m) in (ap (λ t. p ∷ t) out, left)

module _ {A : Type 0} (f : View → A)
    (kept : (v : View) (p : ℕ) (rest : List ℕ) → f (registered_first p rest v) ≡ f v) where
  kept-accept_loop :
      (n : ℕ) (ps : List ℕ) (m : SocketManager)
      → ((v : View) (qs : List ℕ) → f (record v { waiting = qs }) ≡ f v)
      → f (view (accept_loop n ps m).0) ≡ f (view m)
  unfolding accept_loop
  kept-accept_loop zero ps m k = k (view m) ps
  kept-accept_loop (suc n) [] m k = k (view m) []
  kept-accept_loop (suc n) (p ∷ rest) m k =
      kept-accept_loop n rest (register p m) k
      ∙ sym (k (view (register p m)) rest)
      ∙ ap f (view-register p rest m)
      ∙ kept (view m) p rest

handle-accept_loop :
    (n : ℕ) (ps : List ℕ) (m : SocketManager)
    → (view (accept_loop n ps m).0).handle ≡ (view m).handle
handle-accept_loop n ps m =
    kept-accept_loop (λ v. v.handle) (λ v p rest. refl) n ps m (λ v qs. refl)

closed-accept_loop :
    (n : ℕ) (ps : List ℕ) (m : SocketManager)
    → (view (accept_loop n ps m).0).closed ≡ (view m).closed
closed-accept_loop n ps m =
    kept-accept_loop (λ v. v.closed) (λ v p rest. refl) n ps m (λ v qs. refl)

allocated-accept_loop :
    (n : ℕ) (ps : List ℕ) (m : SocketManager) → (accept_loop n ps m).0.allocated ≡ m.allocated
allocated-accept_loop n ps m =
    kept-accept_loop (λ v. v.allocated) (λ v p rest. refl) n ps m (λ v qs. refl)

mem_dropped : (q n : ℕ) (ps : List ℕ) → mem q (drop n ps) ≡ true → mem q ps ≡ true
mem_dropped q zero ps h = h
mem_dropped q (suc n) [] h = h
mem_dropped q (suc n) (p ∷ rest) h = mem_behind q p rest (mem_dropped q n rest h)

mem-take : (q n : ℕ) (ps : List ℕ) → mem q (take n ps) ≡ true → mem q ps ≡ true
unfolding mem
mem-take q zero ps h = absurd (false≢true h)
mem-take q (suc n) [] h = h
mem-take q (suc n) (p ∷ rest) h = elim (same_or_other q p) [
  | inl e ↦ subst (λ x. mem q (x ∷ rest) ≡ true) e (mem_head q rest)
  | inr d ↦ mem_behind q p rest (mem-take q n rest (sym (mem_tail q p (take n rest) d) ∙ h))
]

-- What accept hands out does not wait any more.
mem-drop : (q n : ℕ) (ps : List ℕ) → Once ps → mem q (take n ps) ≡ true → mem q (drop n ps) ≡ false
unfolding mem
mem-drop q zero ps o h = absurd (false≢true h)
mem-drop q (suc n) [] o h = refl
mem-drop q (suc n) (p ∷ rest) (a, o) h = elim (same_or_other q p) [
  | inl e ↦ subst (λ x. mem x (drop n rest) ≡ false) (sym e) (gone (mem p (drop n rest)) refl)
  | inr d ↦ mem-drop q n rest o (sym (mem_tail q p (take n rest) d) ∙ h)
]
  where
    gone : (b : Bool) → mem p (drop n rest) ≡ b → b ≡ false
    gone true e = absurd (false≢true (sym a ∙ mem_dropped p n rest e))
    gone false e = refl

none_out : (ps : List ℕ) → (length ps == 0) ≡ true → ps ≡ []
none_out [] e = refl
none_out (p ∷ rest) e = absurd (let n = (==_iff (suc (length rest)) 0).0 e in omega arith)

-- What accept leaves of the loop's manager, but for what the bookkeeping is not about.
accept-core :
    (w : Platform) (m : SocketManager) (n : ℕ) (send receive : Option WsaError)
    → let looped = accept_loop n m.waiting m in
      let r = accept w m n send receive in (core r.0 ≡ core looped.0) × (r.1 ≡ looped.1)
unfolding accept
accept-core w m n send receive =
    let looped = accept_loop n m.waiting m in
    if_cases {A = SocketManager × List ℕ} (λ x. (core x.0 ≡ core looped.0) × (x.1 ≡ looped.1))
      (length looped.1 == 0) (looped.0, []) _ (λ e. (refl, sym (none_out looped.1 e)))
      (λ e. (core-regenerate w _ ∙ core-change_queuing_space looped.0 send receive, refl))

-- In every state that is reached, accept hands out the sockets that wait in their order, up to the
-- count that is asked for; the others keep waiting, and each that is handed out is found in
-- sockets_ under its handle.
pub accept_lem :
    (w : Platform) (m : SocketManager) (n : ℕ) (send receive : Option WsaError)
    → Reach w m
    → let r = accept w m n send receive in
      (r.1 ≡ take n m.waiting)
      × (r.0.waiting ≡ drop n m.waiting)
      × ((p : ℕ) → mem p r.1 ≡ true → find ltb (m.heap p).handle r.0.sockets ≡ some p)
accept_lem w m n send receive reach =
    let c = Reach-IsConsistent w m reach in
    let r = accept w m n send receive in
    let c' = accept-IsConsistent w m n send receive c in
    let (same, out) = accept-core w m n send receive in
    let (taken, left) = accept_loop_lem n m.waiting m in
    let handles : (view r.0).handle ≡ (view m).handle =
      ap (λ x. (view_of x).handle) same ∙ handle-accept_loop n m.waiting m in
    let opens : (view r.0).closed ≡ (view m).closed =
      ap (λ x. (view_of x).closed) same ∙ closed-accept_loop n m.waiting m in
    let count : r.0.allocated ≡ m.allocated =
      ap (λ x. x.allocated) same ∙ allocated-accept_loop n m.waiting m in
    let rest : r.0.waiting ≡ drop n m.waiting = ap (λ x. x.waiting) same ∙ left in
    (
      out ∙ taken,
      rest,
      λ p h.
          let h' : mem p (take n m.waiting) ≡ true = ap (mem p) (sym (out ∙ taken)) ∙ h in
          let (lt, o, u) = c.queued p (mem-take p n m.waiting h') in
          elim (c'.held p (subst (λ x. p < x) (sym count) lt) (ap (λ f. f p) opens ∙ o)) [
            | inl e ↦ ap (λ f. find ltb (f p) r.0.sockets) (sym handles) ∙ e
            | inr q ↦
                absurd
                  (false≢true (sym (mem-drop p n m.waiting c.once h') ∙ ap (mem p) (sym rest) ∙ q))
          ],
    )

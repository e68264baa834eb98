-- ===== src/Sockets/Manager/View.antt =====
-- src/lib/socketbase.cpp: what sockets_, socketAddrs_, accepted_ and the sockets themselves must
-- agree on, and how a manager is seen for it.
pub mod Closing
pub mod Joining
use etwork.Common.{
  ℕ, suc, ◌<◌, Bool, true, false, ◌||◌, Option, none, some, List, [], ◌∷◌, ◌++◌, ◌≡◌, ◌≢◌, refl,
  sym, ◌∙◌, ap, subst, ◌⊎◌, inl, inr, arith, ltb, ◌==◌, if◌then◌else◌, Bool-cases, ==_iff,
}
use etwork.Common.Map.{find, erase, insert}
use etwork.Common.Map.Order.{IsSorted, against, before, behind, same}
use etwork.Sockets.Manager.{SocketManager, mem, erase_waiting}

-- The maps, accepted_, nextSocket_, and of each socket its handle, its address and whether it is
-- closed.
pub record View : Type 0 where
  pub sockets : List (ℕ × ℕ)
  pub addrs : List (ℕ × ℕ)
  pub waiting : List ℕ
  pub allocated : ℕ
  pub next : ℕ
  pub reliable : Bool
  pub handle : ℕ → ℕ
  pub addr : ℕ → ℕ
  pub closed : ℕ → Bool

abbrev pub view : SocketManager → View
view m = record {
  sockets = m.sockets;
  addrs = m.socket_addrs;
  waiting = m.waiting;
  allocated = m.allocated;
  next = m.next_socket;
  reliable = m.settings.reliable;
  handle = λ p. (m.heap p).handle;
  addr = λ p. (m.heap p).addr;
  closed = λ p. (m.heap p).socket.closed;
}

-- No socket stands twice in accepted_.
abbrev pub Once : List ℕ → Type 0
Once [] = Unit
Once (p ∷ rest) = (mem p rest ≡ false) × Once rest

-- Each entry of a map leads to an open socket with that key; each socket that waits is open and
-- has a handle that no other has, minted before nextSocket_ if the manager is unreliable; each
-- open socket is under its handle or waits.
pub record IsConsistent (v : View) : Type 0 where
  pub sockets_sorted : IsSorted v.sockets
  pub addrs_sorted : IsSorted v.addrs
  pub registered :
      (s p : ℕ)
      → find ltb s v.sockets ≡ some p
      → (p < v.allocated) × (v.handle p ≡ s) × (v.closed p ≡ false)
  pub addressed :
      (a p : ℕ)
      → find ltb a v.addrs ≡ some p
      → (p < v.allocated) × (v.addr p ≡ a) × (v.closed p ≡ false)
  pub queued :
      (p : ℕ)
      → mem p v.waiting ≡ true
      → (p < v.allocated) × (v.closed p ≡ false) × (find ltb (v.handle p) v.sockets ≡ none)
  pub apart :
      (p q : ℕ) → mem p v.waiting ≡ true → mem q v.waiting ≡ true → v.handle p ≡ v.handle q → p ≡ q
  pub once : Once v.waiting
  pub below : v.reliable ≡ false → (p : ℕ) → mem p v.waiting ≡ true → v.handle p < v.next
  pub held :
      (p : ℕ)
      → p < v.allocated
      → v.closed p ≡ false
      → (find ltb (v.handle p) v.sockets ≡ some p) ⊎ (mem p v.waiting ≡ true)

abbrev pub set {ℓ} : {A : Type ℓ} → (ℕ → A) → ℕ → A → ℕ → A
set f p a q = if q == p then a else f q

module _ {ℓ} {A : Type ℓ} (f : ℕ → A) (p : ℕ) (a : A) where
  pub set_same : set f p a p ≡ a
  set_same = let e : (p == p) ≡ true = ground arith in rw e refl

  pub set_other : (q : ℕ) → q ≢ p → set f p a q ≡ f q
  set_other q n = elim (Bool-cases (q == p)) [
    | inl e ↦ absurd (n ((==_iff q p).0 e))
    | inr e ↦ rw e refl
  ]

pub same_or_other : (q p : ℕ) → (q ≡ p) ⊎ (q ≢ p)
same_or_other q p = elim (against q p) [
  | before t h ↦ inr (λ e. omega arith)
  | behind f t h ↦ inr (λ e. omega arith)
  | same f f' e ↦ inl e
]

pub none≢some : {q : ℕ} → none ≡ some q → ⊥
none≢some h = cc

pub some_inj : {p q : ℕ} → some p ≡ some q → p ≡ q
some_inj h = cc

pub false≢true : false ≡ true → ⊥
false≢true h = cc

-- What mem gives for the lists that an operation leaves in accepted_.
pub mem_head : (p : ℕ) (rest : List ℕ) → mem p (p ∷ rest) ≡ true
unfolding mem
mem_head p rest = let e : (p == p) ≡ true = ground arith in rw e refl

pub mem_tail : (q p : ℕ) (rest : List ℕ) → q ≢ p → mem q (p ∷ rest) ≡ mem q rest
unfolding mem
mem_tail q p rest n = let e : (p == q) ≡ false = different (p == q) ((==_iff p q).0) n in rw e refl
  where
    different : {p q : ℕ} (b : Bool) → (b ≡ true → p ≡ q) → q ≢ p → b ≡ false
    different true h n = absurd (n (sym (h refl)))
    different false h n = refl

pub mem_behind : (q p : ℕ) (rest : List ℕ) → mem q rest ≡ true → mem q (p ∷ rest) ≡ true
mem_behind q p rest h = elim (same_or_other q p) [
  | inl e ↦ subst (λ x. mem q (x ∷ rest) ≡ true) e (mem_head q rest)
  | inr n ↦ mem_tail q p rest n ∙ h
]

pub mem-snoc : (q p : ℕ) (xs : List ℕ) → q ≢ p → mem q (xs ++ p ∷ []) ≡ mem q xs
mem-snoc q p [] n = mem_tail q p [] n
mem-snoc q p (x ∷ xs) n = elim (same_or_other q x) [
  | inl e ↦
      subst (λ y. mem q (y ∷ (xs ++ p ∷ [])) ≡ mem q (y ∷ xs)) e
        (mem_head q (xs ++ p ∷ []) ∙ sym (mem_head q xs))
  | inr d ↦ mem_tail q x (xs ++ p ∷ []) d ∙ mem-snoc q p xs n ∙ sym (mem_tail q x xs d)
]

pub mem-snoc_same : (p : ℕ) (xs : List ℕ) → mem p (xs ++ p ∷ []) ≡ true
mem-snoc_same p [] = mem_head p []
mem-snoc_same p (x ∷ xs) = mem_behind p x (xs ++ p ∷ []) (mem-snoc_same p xs)

pub snoc-Once : (p : ℕ) (xs : List ℕ) → mem p xs ≡ false → Once xs → Once (xs ++ p ∷ [])
snoc-Once p [] h o = (h, tt)
snoc-Once p (x ∷ xs) h (a, o) = elim (same_or_other x p) [
  | inl e ↦ absurd (false≢true (sym h ∙ subst (λ y. mem p (y ∷ xs) ≡ true) (sym e) (mem_head p xs)))
  | inr n ↦ (mem-snoc x p xs n ∙ a, snoc-Once p xs (sym (mem_tail p x xs (λ e. n (sym e))) ∙ h) o)
]

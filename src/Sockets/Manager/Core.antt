-- ===== src/Sockets/Manager/Core.antt =====
-- src/lib/socketbase.cpp: the fields of a manager that its bookkeeping is about, and what the
-- operations that only touch the others leave of them.
pub mod Closes
pub mod Joins
pub mod Serves
pub mod Writes
pub mod Arrives
use etwork.Common.{
  ℕ, suc, ◌<◌, Bool, true, false, ◌||◌, Option, none, some, List, [], ◌∷◌, ◌++◌, ◌≡◌, refl, sym,
  ◌∙◌, ap, subst, inl, inr, arith, ltb, ◌==◌, if◌then◌else◌, Bool-cases, ==_iff, ap₃,
}
use mathlib.Core.Path.{fun_ext}
use etwork.Errors.{ErrorArea}
use etwork.Errors.Wsa.{WsaError}
use etwork.Buffer.Run.{Run, done, assert_failed, bad_access, no_fuel, ◌>>=◌}
use etwork.Sockets.{Socket}
use etwork.Sockets.Manager.{
  Peer, SocketManager, Call, call, debug_sock_error, update, store, mark, set_connection,
}
use etwork.Sockets.Manager.View.{View, view, set}

pub record Core : Type 0 where
  pub sockets : List (ℕ × ℕ)
  pub addrs : List (ℕ × ℕ)
  pub waiting : List ℕ
  pub allocated : ℕ
  pub next : ℕ
  pub reliable : Bool
  pub heap : ℕ → Peer

abbrev pub core : SocketManager → Core
core m = record {
  sockets = m.sockets;
  addrs = m.socket_addrs;
  waiting = m.waiting;
  allocated = m.allocated;
  next = m.next_socket;
  reliable = m.settings.reliable;
  heap = m.heap;
}

abbrev pub view_of : Core → View
view_of c = record {
  sockets = c.sockets;
  addrs = c.addrs;
  waiting = c.waiting;
  allocated = c.allocated;
  next = c.next;
  reliable = c.reliable;
  handle = λ p. (c.heap p).handle;
  addr = λ p. (c.heap p).addr;
  closed = λ p. (c.heap p).socket.closed;
}

pub core_if :
    (b : Bool) (x y : SocketManager) → core x ≡ core y → core (if b then x else y) ≡ core y
core_if true x y e = e
core_if false x y e = refl

-- What both branches of a test have.
pub if_both {ℓ} :
    {A : Type ℓ} (P : A → Type 0) (b : Bool) (x y : A) → P x → P y → P (if b then x else y)
if_both P true x y h k = h
if_both P false x y h k = k

pub if_cases {ℓ} :
    {A : Type ℓ} (P : A → Type 0) (b : Bool) (x y : A)
    → (b ≡ true → P x)
    → (b ≡ false → P y)
    → P (if b then x else y)
if_cases P true x y h k = h refl
if_cases P false x y h k = k refl

pub if_true {ℓ} : {A : Type ℓ} (b : Bool) (x y : A) → b ≡ true → (if b then x else y) ≡ x
if_true b x y e = rw e refl

pub if_false {ℓ} : {A : Type ℓ} (b : Bool) (x y : A) → b ≡ false → (if b then x else y) ≡ y
if_false b x y e = rw e refl

-- A field of the sockets once one of them is replaced.
pub field-update {ℓ} :
    {A : Type ℓ} (f : Peer → A) (heap : ℕ → Peer) (p : ℕ) (peer : Peer)
    → (λ q. f (update heap p peer q)) ≡ set (λ q. f (heap q)) p (f peer)
field-update f heap p peer =
    fun_ext λ q. elim (Bool-cases (q == p)) [ inl e ↦ rw e refl | inr e ↦ rw e refl ]

set_kept {ℓ} : {A : Type ℓ} (f : ℕ → A) (p : ℕ) (a : A) → a ≡ f p → set f p a ≡ f
set_kept f p a h = fun_ext λ q. elim (Bool-cases (q == p)) [
  | inl e ↦ rw e (h ∙ ap f (sym ((==_iff q p).0 e)))
  | inr e ↦ rw e refl
]

abbrev pub with_fields : View → (ℕ → ℕ) → (ℕ → ℕ) → (ℕ → Bool) → View
with_fields v h a c = record v { handle = h; addr = a; closed = c }

-- The socket at p replaced.
abbrev pub stored : ℕ → Peer → Core → Core
stored p peer c = record c { heap = update c.heap p peer }

-- The same handle and address, and as open as before.
abbrev pub IsLike : Peer → Peer → Type 0
IsLike x y = (x.handle ≡ y.handle) × (x.addr ≡ y.addr) × (x.socket.closed ≡ y.socket.closed)

pub view-stored :
    (p : ℕ) (peer : Peer) (c : Core)
    → IsLike peer (c.heap p)
    → view_of (stored p peer c) ≡ view_of c
view-stored p peer c (h, a, o) =
    ap₃ (with_fields (view_of c))
      (field-update (λ x. x.handle) c.heap p peer ∙ set_kept _ p peer.handle h)
      (field-update (λ x. x.addr) c.heap p peer ∙ set_kept _ p peer.addr a)
      (field-update (λ x. x.socket.closed) c.heap p peer ∙ set_kept _ p peer.socket.closed o)

pub core-mark : (p : ℕ) (m : SocketManager) → core (mark p m) ≡ core m
unfolding mark
core-mark p m = elim (Bool-cases (m.heap p).has_notify) [ inl e ↦ rw e refl | inr e ↦ rw e refl ]

pub core-call : (c : Call) (m : SocketManager) → core (call c m) ≡ core m
unfolding call
core-call c m = refl

pub core-debug :
    (m : SocketManager) (sock : Option ℕ) (err : WsaError) (area : ErrorArea)
    → core (debug_sock_error m sock err area) ≡ core m
unfolding debug_sock_error
core-debug m sock err area = core-call _ m

-- Data that comes or goes on a connection leaves the view.
pub view-set_connection :
    (p : ℕ) (socket : Socket) (m : SocketManager)
    → socket.closed ≡ (m.heap p).socket.closed
    → view (set_connection p socket m) ≡ view m
unfolding set_connection store
view-set_connection p socket m o =
    view-stored p (record (m.heap p) { socket = socket }) (core m) (refl, refl, o)

-- What a computation comes to, if it comes to a result.
abbrev pub Ends : {A : Type 0} → (A → Type 0) → Run A → Type 0
Ends P (done a) = P a
Ends P assert_failed = Unit
Ends P bad_access = Unit
Ends P no_fuel = Unit

pub Ends->>= :
    {A B : Type 0} (Q : A → Type 0) (P : B → Type 0) (r : Run A) (f : A → Run B)
    → Ends Q r
    → ((a : A) → Q a → Ends P (f a))
    → Ends P (r >>= f)
Ends->>= Q P (done a) f q h = h a q
Ends->>= Q P assert_failed f q h = tt
Ends->>= Q P bad_access f q h = tt
Ends->>= Q P no_fuel f q h = tt

pub Ends-then :
    {A B : Type 0} (P : B → Type 0) (r : Run A) (f : A → B)
    → ((a : A) → P (f a))
    → Ends P (r >>= λ a. done (f a))
Ends-then P (done a) f h = h a
Ends-then P assert_failed f h = tt
Ends-then P bad_access f h = tt
Ends-then P no_fuel f h = tt

pub Ends_result : {A : Type 0} (P : A → Type 0) (r : Run A) (a : A) → r ≡ done a → Ends P r → P a
Ends_result P r a e h = subst (Ends P) e h

pub Ends-map :
    {A : Type 0} (P Q : A → Type 0) (r : Run A) → ((a : A) → P a → Q a) → Ends P r → Ends Q r
Ends-map P Q (done a) h p = h a p
Ends-map P Q assert_failed h p = tt
Ends-map P Q bad_access h p = tt
Ends-map P Q no_fuel h p = tt

-- ===== src/Sockets/Manager/Ids.antt =====
-- src/lib/socketbase.cpp, SocketManager::socket_id: how many rounds its loop makes.
use etwork.Common.{
  ℕ, zero, suc, ◌+◌, ◌%◌, ◌^◌, ◌≤◌, ◌<◌, Bool, true, false, ◌||◌, none, some, List, [], ◌∷◌, ◌≡◌,
  refl, ◌∙◌, arith, length, ltb, leb, ◌==◌, if◌then◌else◌, inl, inr, Bool-cases, Option-cases,
}
use etwork.Common.Map.{find}
use etwork.Common.Map.Order.{against, before, behind, same}
use etwork.Buffer.Run.{done}
use etwork.Sockets.Manager.{SocketManager, next_id, is_taken, socket_id_loop, socket_id}

-- How many keys are not below n.
abbrev above : ℕ → List (ℕ × ℕ) → ℕ
above n [] = 0
above n ((k, p) ∷ rest) = if leb n k then suc (above n rest) else above n rest

above-suc : (n : ℕ) (m : List (ℕ × ℕ)) → above (suc n) m ≤ above n m
above-suc n [] = omega arith
above-suc n ((k, p) ∷ rest) = let h = above-suc n rest in ground arith

above-length : (n : ℕ) (m : List (ℕ × ℕ)) → above n m ≤ length m
above-length n [] = omega arith
above-length n ((k, p) ∷ rest) = let h = above-length n rest in ground arith

above-find : (n p : ℕ) (m : List (ℕ × ℕ)) → find ltb n m ≡ some p → above (suc n) m < above n m
unfolding find
above-find n p [] h = absurd (none≢some h)
  where
    none≢some : {q : ℕ} → none ≡ some q → ⊥
    none≢some h = cc
above-find n p ((k, q) ∷ rest) h = elim (against n k) [
  | before t g ↦ absurd (none≢some (rw t at h))
  | behind f t g ↦ let ih = above-find n p rest (rw (f, t) at h) in ground arith
  | same f f' e ↦ let le = above-suc n rest in ground arith
]
  where
    none≢some : {q : ℕ} → none ≡ some q → ⊥
    none≢some h = cc

-- The keys not below n, and the listening socket if its handle is not below n.
abbrev ahead : ℕ → SocketManager → ℕ
ahead n m = (if leb n m.listening then 1 else 0) + above n m.sockets

taken-ahead : (m : SocketManager) (n : ℕ) → is_taken m n ≡ true → ahead (suc n) m < ahead n m
unfolding is_taken
taken-ahead m n h = elim (Option-cases (find ltb n m.sockets)) [
  | inl e ↦
      let l : (n == m.listening) ≡ true = only (n == m.listening) (rw e at h) in
      let le = above-suc n m.sockets in ground arith
  | inr (p, e) ↦ let le = above-find n p m.sockets e in ground arith
]
  where
    only : (b : Bool) → (b || false) ≡ true → b ≡ true
    only true h = refl
    only false h = h

next_id_small : (n : ℕ) → suc n < 2 ^ 32 → next_id n ≡ suc n
unfolding next_id
next_id_small n h =
    let small : suc n % 2 ^ 32 ≡ suc n = omega arith in
    let positive : (suc n == 0) ≡ false = ground arith in rw (small, positive) refl

goes_on :
    (fuel : ℕ) (m : SocketManager) (n : ℕ)
    → is_taken m n ≡ true
    → suc n < 2 ^ 32
    → socket_id_loop (suc fuel) m n ≡ socket_id_loop fuel m (suc n)
unfolding socket_id_loop
goes_on fuel m n t h = rw (t, next_id_small n h) refl

ends :
    (fuel : ℕ) (m : SocketManager) (n : ℕ)
    → is_taken m n ≡ false
    → suc n < 2 ^ 32
    → socket_id_loop (suc fuel) m n ≡ done (n, suc n)
unfolding socket_id_loop
ends fuel m n f h = rw (f, next_id_small n h) refl

socket_id_loop-free :
    (fuel : ℕ) (m : SocketManager) (n : ℕ)
    → ahead n m < fuel
    → n + fuel < 2 ^ 32
    → (id : ℕ) × (socket_id_loop fuel m n ≡ done (id, suc id))
      × (is_taken m id ≡ false)
      × (n ≤ id)
      × (id < n + fuel)
socket_id_loop-free zero m n h k = absurd (omega arith)
socket_id_loop-free (suc fuel) m n h k = elim (Bool-cases (is_taken m n)) [
  | inl t ↦
      let less = taken-ahead m n t in
      let (id, e, free, le, lt) = socket_id_loop-free fuel m (suc n) (omega arith) (omega arith) in
      (id, goes_on fuel m n t (omega arith) ∙ e, free, omega arith, omega arith)
  | inr f ↦ (n, ends fuel m n f (omega arith), f, omega arith, omega arith)
]

-- While the ids are below 2^32, with the sockets of the map and two more in reserve, the loop of
-- socket_id ends: in an id that is no socket's of the map and not the listening one, that is not
-- below nextSocket_, and that nextSocket_ is one above of afterwards.
pub socket_id_fresh :
    (m : SocketManager)
    → m.next_socket + length m.sockets + 2 < 2 ^ 32
    → (id : ℕ) × (socket_id m ≡ done (id, suc id))
      × (is_taken m id ≡ false)
      × (m.next_socket ≤ id)
      × (id < m.next_socket + length m.sockets + 2)
unfolding socket_id
socket_id_fresh m h =
    let few = above-length m.next_socket m.sockets in
    let (id, e, free, le, lt) =
      socket_id_loop-free (length m.sockets + 2) m m.next_socket (ground arith) (omega arith) in
    (id, e, free, le, omega arith)

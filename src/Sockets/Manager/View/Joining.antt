-- ===== src/Sockets/Manager/View/Joining.antt =====
-- src/lib/socketbase.cpp: the view of a manager once a socket is made, registered or named.
use etwork.Common.{
  ℕ, suc, ◌<◌, ◌≤◌, Bool, true, false, none, some, List, [], ◌∷◌, ◌++◌, ◌≡◌, ◌≢◌, refl, sym, ◌∙◌,
  ap, subst, inl, inr, arith, ltb,
}
use etwork.Common.Map.{find, insert, find-insert}
use etwork.Common.Map.Order.{find-insert_other, insert-IsSorted}
use etwork.Sockets.Manager.{mem}
use etwork.Sockets.Manager.View.{
  View, IsConsistent, Once, set, set_same, set_other, same_or_other, none≢some, some_inj,
  false≢true, mem_head, mem_tail, mem_behind, mem-snoc, mem-snoc_same, snoc-Once,
}

-- No socket in sockets_ or accepted_ has this handle.
abbrev pub IsFresh : ℕ → View → Type 0
IsFresh id v = (find ltb id v.sockets ≡ none) × ((q : ℕ) → mem q v.waiting ≡ true → v.handle q ≢ id)

-- An unreliable manager mints a handle from nextSocket_ on, and leaves nextSocket_ above it.
abbrev pub IsMinted : ℕ → ℕ → View → Type 0
IsMinted id next v = v.reliable ≡ false → (id < next) × (v.next ≤ next)

find_here : (k : ℕ) (p : ℕ) (m : List (ℕ × ℕ)) → find ltb k (insert ltb k p m) ≡ some p
find_here k p m = let e : ltb k k ≡ false = ground arith in find-insert ltb k p m e

-- The first socket that waits moves to sockets_.
abbrev pub registered_first : ℕ → List ℕ → View → View
registered_first p rest v = record v {
  waiting = rest;
  sockets = insert ltb (v.handle p) p v.sockets;
}

pub registered_first-IsConsistent :
    (v : View) (p : ℕ) (rest : List ℕ)
    → v.waiting ≡ p ∷ rest
    → IsConsistent v
    → IsConsistent (registered_first p rest v)
registered_first-IsConsistent v p rest shape c = record {
  sockets_sorted = insert-IsSorted (v.handle p) p v.sockets c.sockets_sorted;
  addrs_sorted = c.addrs_sorted;
  registered = λ s q e. elim (same_or_other s (v.handle p)) [
    | inl i ↦
        let is : p ≡ q = some_inj (
          sym (find_here (v.handle p) p v.sockets)
          ∙ subst (λ x. find ltb x (insert ltb (v.handle p) p v.sockets) ≡ some q) i e) in
        let (lt, o, u) = c.queued p first in
        (subst (λ x. x < v.allocated) is lt, ap v.handle (sym is) ∙ sym i, ap v.closed (sym is) ∙ o)
    | inr n ↦
        c.registered s q (sym (find-insert_other s (v.handle p) p v.sockets c.sockets_sorted n) ∙ e)
  ];
  addressed = c.addressed;
  queued = λ q w.
      let (d, w') = also q w in
      let (lt, o, u) = c.queued q w' in
      let n : v.handle q ≢ v.handle p = λ i. d (c.apart q p w' first i) in
      (lt, o, find-insert_other (v.handle q) (v.handle p) p v.sockets c.sockets_sorted n ∙ u);
  apart = λ q r w x i. c.apart q r (also q w).1 (also r x).1 i;
  once = (subst Once shape c.once).1;
  below = λ u q w. c.below u q (also q w).1;
  held = λ q lt o. elim (same_or_other q p) [
    | inl e ↦ inl (
        subst (λ x. find ltb (v.handle x) (insert ltb (v.handle p) p v.sockets) ≡ some x) (sym e)
          (find_here (v.handle p) p v.sockets))
    | inr d ↦ elim (c.held q lt o) [
      | inl f ↦
          let n : v.handle q ≢ v.handle p = λ i.
            none≢some (sym (c.queued p first).2 ∙ ap (λ x. find ltb x v.sockets) (sym i) ∙ f) in
          inl (find-insert_other (v.handle q) (v.handle p) p v.sockets c.sockets_sorted n ∙ f)
      | inr w ↦ inr (sym (mem_tail q p rest d) ∙ subst (λ x. mem q x ≡ true) shape w)
    ]
  ];
}
  where
    first : mem p v.waiting ≡ true
    first = subst (λ x. mem p x ≡ true) (sym shape) (mem_head p rest)

    also : (q : ℕ) → mem q rest ≡ true → (q ≢ p) × (mem q v.waiting ≡ true)
    also q w = (
      λ e. false≢true (sym (subst Once shape c.once).0 ∙ subst (λ x. mem x rest ≡ true) e w),
      subst (λ x. mem q x ≡ true) (sym shape) (mem_behind q p rest w),
    )

-- A new socket, in some place of accepted_.
abbrev pub created : List ℕ → ℕ → ℕ → ℕ → View → View
created waiting id next a v = record v {
  waiting = waiting;
  allocated = suc v.allocated;
  next = next;
  handle = set v.handle v.allocated id;
  addr = set v.addr v.allocated a;
  closed = set v.closed v.allocated false;
}

module _ (v : View) (c : IsConsistent v) where
  below : (q : ℕ) → q < v.allocated → q ≢ v.allocated
  below q lt e = omega arith

  pub created-IsConsistent :
      (waiting : List ℕ) (id next a : ℕ)
      → IsMinted id next v
      → IsFresh id v
      → mem v.allocated waiting ≡ true
      → ((q : ℕ) → q ≢ v.allocated → mem q waiting ≡ mem q v.waiting)
      → Once waiting
      → IsConsistent (created waiting id next a v)
  created-IsConsistent waiting id next a minted (unused, unlike) new old o = record {
    sockets_sorted = c.sockets_sorted;
    addrs_sorted = c.addrs_sorted;
    registered = λ s q e.
        let (lt, at, is) = c.registered s q e in
        let n = below q lt in
        (
          omega arith,
          set_other v.handle v.allocated id q n ∙ at,
          set_other v.closed v.allocated false q n ∙ is,
        );
    addressed = λ s q e.
        let (lt, at, is) = c.addressed s q e in
        let n = below q lt in
        (
          omega arith,
          set_other v.addr v.allocated a q n ∙ at,
          set_other v.closed v.allocated false q n ∙ is,
        );
    queued = λ q w. elim (same_or_other q v.allocated) [
      | inl e ↦ (
        omega arith,
        ap (set v.closed v.allocated false) e ∙ set_same v.closed v.allocated false,
        ap (λ x. find ltb (set v.handle v.allocated id x) v.sockets) e
            ∙ ap (λ x. find ltb x v.sockets) (set_same v.handle v.allocated id)
            ∙ unused,
      )
      | inr n ↦
          let (lt, is, u) = c.queued q (sym (old q n) ∙ w) in
          (
            omega arith,
            set_other v.closed v.allocated false q n ∙ is,
            ap (λ x. find ltb x v.sockets) (set_other v.handle v.allocated id q n) ∙ u,
          )
    ];
    apart = λ q r w x i. elim (same_or_other q v.allocated) [
      | inl e ↦ elim (same_or_other r v.allocated) [
        | inl f ↦ e ∙ sym f
        | inr n ↦ absurd (unlike r (sym (old r n) ∙ x) (sym (has r n) ∙ sym i ∙ is_id q e))
      ]
      | inr n ↦ elim (same_or_other r v.allocated) [
        | inl f ↦ absurd (unlike q (sym (old q n) ∙ w) (sym (has q n) ∙ i ∙ is_id r f))
        | inr m ↦ c.apart q r (sym (old q n) ∙ w) (sym (old r m) ∙ x) (sym (has q n) ∙ i ∙ has r m)
      ]
    ];
    once = o;
    below = λ u q w. elim (same_or_other q v.allocated) [
      | inl e ↦ subst (λ x. x < next) (sym (is_id q e)) (minted u).0
      | inr n ↦
          subst (λ x. x < next) (sym (has q n))
            (let lt = c.below u q (sym (old q n) ∙ w) in let le = (minted u).1 in omega arith)
    ];
    held = λ q lt is. elim (same_or_other q v.allocated) [
      | inl e ↦ inr (ap (λ x. mem x waiting) e ∙ new)
      | inr n ↦
          elim (c.held q (omega arith) (sym (set_other v.closed v.allocated false q n) ∙ is)) [
            | inl f ↦ inl (ap (λ x. find ltb x v.sockets) (has q n) ∙ f)
            | inr w ↦ inr (old q n ∙ w)
          ]
    ];
  }
    where
      has : (q : ℕ) → q ≢ v.allocated → set v.handle v.allocated id q ≡ v.handle q
      has q n = set_other v.handle v.allocated id q n

      is_id : (q : ℕ) → q ≡ v.allocated → set v.handle v.allocated id q ≡ id
      is_id q e = ap (set v.handle v.allocated id) e ∙ set_same v.handle v.allocated id

  not_waiting : mem v.allocated v.waiting ≡ false
  not_waiting = go (mem v.allocated v.waiting) refl
    where
      go : (b : Bool) → mem v.allocated v.waiting ≡ b → b ≡ false
      go true e = absurd (let lt = (c.queued v.allocated e).0 in omega arith)
      go false e = refl

  pub created_last-IsConsistent :
      (id next a : ℕ)
      → IsMinted id next v
      → IsFresh id v
      → IsConsistent (created (v.waiting ++ v.allocated ∷ []) id next a v)
  created_last-IsConsistent id next a minted fresh =
      created-IsConsistent (v.waiting ++ v.allocated ∷ []) id next a minted fresh
        (mem-snoc_same v.allocated v.waiting) (λ q n. mem-snoc q v.allocated v.waiting n)
        (snoc-Once v.allocated v.waiting not_waiting c.once)

  pub created_first-IsConsistent :
      (id next a : ℕ)
      → IsMinted id next v
      → IsFresh id v
      → IsConsistent (created (v.allocated ∷ v.waiting) id next a v)
  created_first-IsConsistent id next a minted fresh =
      created-IsConsistent (v.allocated ∷ v.waiting) id next a minted fresh
        (mem_head v.allocated v.waiting) (λ q n. mem_tail q v.allocated v.waiting n)
        (not_waiting, c.once)

  -- socketAddrs_[addr] = s
  pub named-IsConsistent :
      (a p : ℕ)
      → p < v.allocated
      → v.addr p ≡ a
      → v.closed p ≡ false
      → IsConsistent (record v { addrs = insert ltb a p v.addrs })
  named-IsConsistent a p lt at o = record {
    sockets_sorted = c.sockets_sorted;
    addrs_sorted = insert-IsSorted a p v.addrs c.addrs_sorted;
    registered = c.registered;
    addressed = λ b q e. elim (same_or_other b a) [
      | inl i ↦
          let is : p ≡ q = some_inj (
            sym (find_here a p v.addrs)
            ∙ subst (λ x. find ltb x (insert ltb a p v.addrs) ≡ some q) i e) in
          (
            subst (λ x. x < v.allocated) is lt,
            ap v.addr (sym is) ∙ at ∙ sym i,
            ap v.closed (sym is) ∙ o,
          )
      | inr n ↦ c.addressed b q (sym (find-insert_other b a p v.addrs c.addrs_sorted n) ∙ e)
    ];
    queued = c.queued;
    apart = c.apart;
    once = c.once;
    below = c.below;
    held = c.held;
  }

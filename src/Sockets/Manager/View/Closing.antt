-- ===== src/Sockets/Manager/View/Closing.antt =====
-- src/lib/sockimpl.h, Socket::close_socket: the view of a manager once a socket is taken out.
use etwork.Common.{
  ℕ, ◌<◌, true, false, none, some, List, [], ◌∷◌, ◌≡◌, ◌≢◌, refl, sym, ◌∙◌, ap, subst, inl, inr,
  arith, ltb, ◌==◌, Bool-cases, ==_iff,
}
use etwork.Common.Map.{find, erase}
use etwork.Common.Map.Order.{find-erase_same, find-erase_other, erase-IsSorted}
use etwork.Sockets.Manager.{mem, erase_waiting, invalid_socket}
use etwork.Sockets.Manager.View.{
  View, IsConsistent, Once, set, set_same, set_other, same_or_other, none≢some, some_inj,
  false≢true, mem_head, mem_tail,
}

erase_waiting_other :
    (p x : ℕ) (rest : List ℕ) → x ≢ p → erase_waiting p (x ∷ rest) ≡ x ∷ erase_waiting p rest
unfolding erase_waiting
erase_waiting_other p x rest n = elim (Bool-cases (x == p)) [
  | inl e ↦ absurd (n ((==_iff x p).0 e))
  | inr e ↦ rw e refl
]

erase_waiting_head : (p : ℕ) (rest : List ℕ) → erase_waiting p (p ∷ rest) ≡ rest
unfolding erase_waiting
erase_waiting_head p rest = let e : (p == p) ≡ true = ground arith in rw e refl

-- Only p leaves accepted_.
mem-erase_other : (q p : ℕ) (xs : List ℕ) → q ≢ p → mem q (erase_waiting p xs) ≡ mem q xs
unfolding erase_waiting
mem-erase_other q p [] n = refl
mem-erase_other q p (x ∷ rest) n = elim (same_or_other x p) [
  | inl e ↦
      subst (λ y. mem q (erase_waiting p (y ∷ rest)) ≡ mem q (y ∷ rest)) (sym e)
        (ap (mem q) (erase_waiting_head p rest) ∙ sym (mem_tail q p rest n))
  | inr d ↦ ap (mem q) (erase_waiting_other p x rest d) ∙ elim (same_or_other q x) [
    | inl e ↦
        subst (λ y. mem q (y ∷ erase_waiting p rest) ≡ mem q (y ∷ rest)) e
          (mem_head q (erase_waiting p rest) ∙ sym (mem_head q rest))
    | inr f ↦
        mem_tail q x (erase_waiting p rest) f
        ∙ mem-erase_other q p rest n
        ∙ sym (mem_tail q x rest f)
  ]
]

mem-erase_same : (p : ℕ) (xs : List ℕ) → Once xs → mem p (erase_waiting p xs) ≡ false
unfolding erase_waiting mem
mem-erase_same p [] o = refl
mem-erase_same p (x ∷ rest) (a, o) = elim (same_or_other x p) [
  | inl e ↦
      subst (λ y. mem y rest ≡ false → mem p (erase_waiting p (y ∷ rest)) ≡ false) (sym e)
        (λ b. ap (mem p) (erase_waiting_head p rest) ∙ b) a
  | inr d ↦
      ap (mem p) (erase_waiting_other p x rest d)
      ∙ mem_tail p x (erase_waiting p rest) (λ e. d (sym e))
      ∙ mem-erase_same p rest o
]

erase-Once : (p : ℕ) (xs : List ℕ) → Once xs → Once (erase_waiting p xs)
unfolding erase_waiting
erase-Once p [] o = tt
erase-Once p (x ∷ rest) (a, o) = elim (same_or_other x p) [
  | inl e ↦
      subst (λ y. Once (erase_waiting p (y ∷ rest))) (sym e)
        (subst Once (sym (erase_waiting_head p rest)) o)
  | inr d ↦
      subst Once (sym (erase_waiting_other p x rest d))
        (mem-erase_other x p rest d ∙ a, erase-Once p rest o)
]

-- remove_socket where the map has the handle.
abbrev pub closed_found : ℕ → View → View
closed_found p v = record v {
  sockets = erase ltb (v.handle p) v.sockets;
  addrs = erase ltb (v.addr p) v.addrs;
  handle = set v.handle p invalid_socket;
  closed = set v.closed p true;
}

-- remove_socket where the socket still waits.
abbrev pub closed_waiting : ℕ → View → View
closed_waiting p v = record v {
  waiting = erase_waiting p v.waiting;
  addrs = erase ltb (v.addr p) v.addrs;
  handle = set v.handle p invalid_socket;
  closed = set v.closed p true;
}

module _ (v : View) (p : ℕ) (c : IsConsistent v) where
  -- What is left of socketAddrs_ leads to sockets other than p.
  left_addressed :
      (a q : ℕ)
      → find ltb a (erase ltb (v.addr p) v.addrs) ≡ some q
      → (q < v.allocated) × (v.addr q ≡ a) × (set v.closed p true q ≡ false)
  left_addressed a q e = elim (same_or_other a (v.addr p)) [
    | inl s ↦ absurd (
        none≢some (
          sym (find-erase_same (v.addr p) v.addrs c.addrs_sorted)
          ∙ subst (λ x. find ltb x (erase ltb (v.addr p) v.addrs) ≡ some q) s e))
    | inr n ↦
        let (lt, at, o) =
          c.addressed a q (sym (find-erase_other a (v.addr p) v.addrs c.addrs_sorted n) ∙ e) in
        let d : q ≢ p = λ s. n (sym at ∙ ap v.addr s) in (lt, at, set_other v.closed p true q d ∙ o)
  ]

  open_other : (q : ℕ) → set v.closed p true q ≡ false → (q ≢ p) × (v.closed q ≡ false)
  open_other q o = elim (same_or_other q p) [
    | inl e ↦ absurd (
        false≢true
          (sym (subst (λ x. set v.closed p true x ≡ false) e o) ∙ set_same v.closed p true))
    | inr n ↦ (n, sym (set_other v.closed p true q n) ∙ o)
  ]

  pub closed_found-IsConsistent :
      p < v.allocated → find ltb (v.handle p) v.sockets ≡ some p → IsConsistent (closed_found p v)
  closed_found-IsConsistent h found = record {
    sockets_sorted = erase-IsSorted (v.handle p) v.sockets c.sockets_sorted;
    addrs_sorted = erase-IsSorted (v.addr p) v.addrs c.addrs_sorted;
    registered = λ s q e. elim (same_or_other s (v.handle p)) [
      | inl i ↦ absurd (
          none≢some (
            sym (find-erase_same (v.handle p) v.sockets c.sockets_sorted)
            ∙ subst (λ x. find ltb x (erase ltb (v.handle p) v.sockets) ≡ some q) i e))
      | inr n ↦
          let (lt, at, o) =
            c.registered s q
              (sym (find-erase_other s (v.handle p) v.sockets c.sockets_sorted n) ∙ e) in
          let d : q ≢ p = λ i. n (sym at ∙ ap v.handle i) in
          (lt, set_other v.handle p invalid_socket q d ∙ at, set_other v.closed p true q d ∙ o)
    ];
    addressed = left_addressed;
    queued = λ q w.
        let (lt, o, u) = c.queued q w in
        let d : q ≢ p = not_queued q u in
        let n : v.handle q ≢ v.handle p =
          λ i. none≢some (sym u ∙ ap (λ x. find ltb x v.sockets) i ∙ found) in
        (
          lt,
          set_other v.closed p true q d ∙ o,
          ap (λ x. find ltb x (erase ltb (v.handle p) v.sockets))
                (set_other v.handle p invalid_socket q d)
              ∙ find-erase_other (v.handle q) (v.handle p) v.sockets c.sockets_sorted n
              ∙ u,
        );
    apart = λ q r w x i.
        let d : q ≢ p = not_queued q (c.queued q w).2 in
        let d' : r ≢ p = not_queued r (c.queued r x).2 in
        c.apart q r w x (
          sym (set_other v.handle p invalid_socket q d)
          ∙ i
          ∙ set_other v.handle p invalid_socket r d');
    once = c.once;
    below = λ u q w.
        let d : q ≢ p = not_queued q (c.queued q w).2 in
        subst (λ x. x < v.next) (sym (set_other v.handle p invalid_socket q d)) (c.below u q w);
    held = λ q lt o.
        let (n, o') = open_other q o in
        elim (c.held q lt o') [
          | inl f ↦
              let m : v.handle q ≢ v.handle p =
                λ i. n (some_inj (sym f ∙ ap (λ x. find ltb x v.sockets) i ∙ found)) in
              inl (
                ap (λ x. find ltb x (erase ltb (v.handle p) v.sockets))
                  (set_other v.handle p invalid_socket q n)
                ∙ find-erase_other (v.handle q) (v.handle p) v.sockets c.sockets_sorted m
                ∙ f)
          | inr w ↦ inr w
        ];
  }
    where
      not_queued : (q : ℕ) → find ltb (v.handle q) v.sockets ≡ none → q ≢ p
      not_queued q u i = none≢some (sym u ∙ ap (λ x. find ltb (v.handle x) v.sockets) i ∙ found)

  pub closed_waiting-IsConsistent : mem p v.waiting ≡ true → IsConsistent (closed_waiting p v)
  closed_waiting-IsConsistent waits = record {
    sockets_sorted = c.sockets_sorted;
    addrs_sorted = erase-IsSorted (v.addr p) v.addrs c.addrs_sorted;
    registered = λ s q e.
        let (lt, at, o) = c.registered s q e in
        let d : q ≢ p = λ i. none≢some (
          sym (c.queued p waits).2
          ∙ ap (λ x. find ltb (v.handle x) v.sockets) (sym i)
          ∙ ap (λ x. find ltb x v.sockets) at
          ∙ e) in
        (lt, set_other v.handle p invalid_socket q d ∙ at, set_other v.closed p true q d ∙ o);
    addressed = left_addressed;
    queued = λ q w.
        let (d, w') = still q w in
        let (lt, o, u) = c.queued q w' in
        (
          lt,
          set_other v.closed p true q d ∙ o,
          ap (λ x. find ltb x v.sockets) (set_other v.handle p invalid_socket q d) ∙ u,
        );
    apart = λ q r w x i.
        let (d, w') = still q w in
        let (d', x') = still r x in
        c.apart q r w' x' (
          sym (set_other v.handle p invalid_socket q d)
          ∙ i
          ∙ set_other v.handle p invalid_socket r d');
    once = erase-Once p v.waiting c.once;
    below = λ u q w.
        let (d, w') = still q w in
        subst (λ x. x < v.next) (sym (set_other v.handle p invalid_socket q d)) (c.below u q w');
    held = λ q lt o.
        let (n, o') = open_other q o in
        elim (c.held q lt o') [
          | inl f ↦
              inl (ap (λ x. find ltb x v.sockets) (set_other v.handle p invalid_socket q n) ∙ f)
          | inr w ↦ inr (mem-erase_other q p v.waiting n ∙ w)
        ];
  }
    where
      still :
          (q : ℕ) → mem q (erase_waiting p v.waiting) ≡ true → (q ≢ p) × (mem q v.waiting ≡ true)
      still q w = elim (same_or_other q p) [
        | inl e ↦ absurd (
            false≢true (
              sym (mem-erase_same p v.waiting c.once)
              ∙ subst (λ x. mem x (erase_waiting p v.waiting) ≡ true) e w))
        | inr n ↦ (n, sym (mem-erase_other q p v.waiting n) ∙ w)
      ]

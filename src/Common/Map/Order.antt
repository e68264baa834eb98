-- ===== src/Common/Map/Order.antt =====
-- A std::map whose keys are numbers: the keys in rising order, and what each operation finds then.
use Prim.Native.Nat.{ℕ, ◌≤◌, ◌<◌}
use mathlib.Core.Path.{◌≡◌, refl, sym, ◌∙◌, subst}
use mathlib.Core.Logic.{◌≢◌, inl, inr}
use mathlib.Core.Bool.{true, false}
use mathlib.Core.Option.{none, some}
use mathlib.Core.List.{List, [], ◌∷◌}
use native.Mathlib.Omega.{arith}
use etwork.Common.Tests.{ltb, Bool-cases}
use etwork.Common.Lists.{All}
use etwork.Common.Map.{find, erase, insert}

-- Three cases of a key against the first one.
pub data Against (k k' : ℕ) : Type 0 where
  before : ltb k k' ≡ true → k < k' → Against k k'
  behind : ltb k k' ≡ false → ltb k' k ≡ true → k' < k → Against k k'
  same : ltb k k' ≡ false → ltb k' k ≡ false → k ≡ k' → Against k k'

pub against : (k k' : ℕ) → Against k k'
against k k' = elim (Bool-cases (ltb k k')) [
  | inl t ↦ before t (ground arith)
  | inr f ↦ elim (Bool-cases (ltb k' k)) [
    | inl t ↦ behind f t (ground arith)
    | inr f' ↦ same f f' (ground arith)
  ]
]

module _ {V : Type 0} where
  -- The first key, if there is one, is above k.
  abbrev pub Above : ℕ → List (ℕ × V) → Type 0
  Above k [] = Unit
  Above k ((k', v) ∷ rest) = k < k'

  abbrev pub IsSorted : List (ℕ × V) → Type 0
  IsSorted [] = Unit
  IsSorted ((k, v) ∷ rest) = Above k rest × IsSorted rest

  find-Above : (j k : ℕ) (m : List (ℕ × V)) → j ≤ k → Above k m → find ltb j m ≡ none
  unfolding find
  find-Above j k [] h a = refl
  find-Above j k ((k', v) ∷ rest) h a = let e : ltb j k' ≡ true = ground arith in rw e refl

  pub find_head : (k : ℕ) (v : V) (rest : List (ℕ × V)) → find ltb k ((k, v) ∷ rest) ≡ some v
  unfolding find
  find_head k v rest = let e : ltb k k ≡ false = ground arith in rw e refl

  pub find-erase_same : (k : ℕ) (m : List (ℕ × V)) → IsSorted m → find ltb k (erase ltb k m) ≡ none
  unfolding find erase
  find-erase_same k [] s = refl
  find-erase_same k ((k', v) ∷ rest) (a, s) = elim (against k k') [
    | before t h ↦ rw (t, t) refl
    | behind f t h ↦ rw (f, t) (rw (f, t) (find-erase_same k rest s))
    | same f f' e ↦ rw (f, f') (find-Above k k' rest (omega arith) a)
  ]

  pub find-erase_other :
      (j k : ℕ) (m : List (ℕ × V)) → IsSorted m → j ≢ k → find ltb j (erase ltb k m) ≡ find ltb j m
  unfolding find erase
  find-erase_other j k [] s n = refl
  find-erase_other j k ((k', v) ∷ rest) (a, s) n = elim (against k k') [
    | before t h ↦ rw t refl
    | behind f t h ↦ elim (against j k') [
      | before u g ↦ rw (f, t, u) refl
      | behind u u' g ↦ rw (f, t, u, u') (find-erase_other j k rest s n)
      | same u u' g ↦ rw (f, t, u, u') refl
    ]
    | same f f' e ↦ elim (against j k') [
      | before u g ↦ rw (f, f', u) (find-Above j k' rest (omega arith) a)
      | behind u u' g ↦ rw (f, f', u, u') refl
      | same u u' g ↦ absurd (n (g ∙ sym e))
    ]
  ]

  pub find-insert_other :
      (j k : ℕ) (v : V) (m : List (ℕ × V))
      → IsSorted m
      → j ≢ k
      → find ltb j (insert ltb k v m) ≡ find ltb j m
  unfolding find insert
  find-insert_other j k v [] s n = elim (against j k) [
    | before t h ↦ rw t refl
    | behind f t h ↦ rw (f, t) refl
    | same f f' e ↦ absurd (n e)
  ]
  find-insert_other j k v ((k', v') ∷ rest) (a, s) n = elim (against k k') [
    | before t h ↦ elim (against j k) [
      | before u g ↦ let e : ltb j k' ≡ true = ground arith in rw (t, u, e) refl
      | behind u u' g ↦ rw (t, u, u') refl
      | same u u' e ↦ absurd (n e)
    ]
    | behind f t h ↦ elim (against j k') [
      | before u g ↦ rw (f, t, u) refl
      | behind u u' g ↦ rw (f, t, u, u') (find-insert_other j k v rest s n)
      | same u u' g ↦ rw (f, t, u, u') refl
    ]
    | same f f' e ↦ elim (against j k) [
      | before u g ↦ let w : ltb j k' ≡ true = ground arith in rw (f, f', u, w) refl
      | behind u u' g ↦
          let w : ltb j k' ≡ false = ground arith in
          let w' : ltb k' j ≡ true = ground arith in rw (f, f', u, u', w, w') refl
      | same u u' g ↦ absurd (n g)
    ]
  ]

  widen : (l k' : ℕ) (rest : List (ℕ × V)) → l < k' → Above k' rest → Above l rest
  widen l k' [] h b = tt
  widen l k' ((k'', v) ∷ rest) h b = omega arith

  erase-Above : (l k : ℕ) (m : List (ℕ × V)) → IsSorted m → Above l m → Above l (erase ltb k m)
  unfolding erase
  erase-Above l k [] s a = tt
  erase-Above l k ((k', v) ∷ rest) (b, s) a = elim (against k k') [
    | before t h ↦ rw t a
    | behind f t h ↦ rw (f, t) a
    | same f f' e ↦ rw (f, f') (widen l k' rest a b)
  ]

  pub erase-IsSorted : (k : ℕ) (m : List (ℕ × V)) → IsSorted m → IsSorted (erase ltb k m)
  unfolding erase
  erase-IsSorted k [] s = tt
  erase-IsSorted k ((k', v) ∷ rest) (a, s) = elim (against k k') [
    | before t h ↦ rw t (a, s)
    | behind f t h ↦ rw (f, t) (erase-Above k' k rest s a, erase-IsSorted k rest s)
    | same f f' e ↦ rw (f, f') s
  ]

  insert-Above :
      (l k : ℕ) (v : V) (m : List (ℕ × V)) → l < k → Above l m → Above l (insert ltb k v m)
  unfolding insert
  insert-Above l k v [] h a = h
  insert-Above l k v ((k', v') ∷ rest) h a = elim (against k k') [
    | before t g ↦ rw t h
    | behind f t g ↦ rw (f, t) a
    | same f f' e ↦ rw (f, f') h
  ]

  pub insert-IsSorted :
      (k : ℕ) (v : V) (m : List (ℕ × V)) → IsSorted m → IsSorted (insert ltb k v m)
  unfolding insert
  insert-IsSorted k v [] s = (tt, tt)
  insert-IsSorted k v ((k', v') ∷ rest) (a, s) = elim (against k k') [
    | before t h ↦ rw t (h, (a, s))
    | behind f t h ↦ rw (f, t) (insert-Above k' k v rest h a, insert-IsSorted k v rest s)
    | same f f' e ↦ rw (f, f') (subst (λ x. Above x rest) (sym e) a, s)
  ]

  keys-Above : (k : ℕ) (m : List (ℕ × V)) → Above k m → IsSorted m → All (λ e. k < e.0) m
  keys-Above k [] a s = tt
  keys-Above k ((k', v) ∷ rest) a (b, s) = (a, keys-Above k rest (widen k k' rest a b) s)

  past_head :
      (k : ℕ) (v : V) (rest part : List (ℕ × V))
      → All (λ e. k < e.0) part
      → All (λ e. find ltb e.0 rest ≡ some e.1) part
      → All (λ e. find ltb e.0 ((k, v) ∷ rest) ≡ some e.1) part
  unfolding find
  past_head k v rest [] lt f = tt
  past_head k v rest ((k', v') ∷ part) (lt, lts) (f, fs) =
      let a : ltb k' k ≡ false = ground arith in
      let b : ltb k k' ≡ true = ground arith in (rw (a, b) f, past_head k v rest part lts fs)

  -- Each entry is found under its key.
  pub find_entries : (m : List (ℕ × V)) → IsSorted m → All (λ e. find ltb e.0 m ≡ some e.1) m
  find_entries [] s = tt
  find_entries ((k, v) ∷ rest) (a, s) =
      (find_head k v rest, past_head k v rest rest (keys-Above k rest a s) (find_entries rest s))

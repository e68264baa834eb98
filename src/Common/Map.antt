-- ===== src/Common/Map.antt =====
-- std::map: its entries in the order of the comparison that it is given.
pub mod Order
pub mod Strings
use Prim.Native.Nat.{ℕ, suc}
use mathlib.Core.Path.{◌≡◌, refl, ap}
use mathlib.Core.Logic.{◌⊎◌, inl, inr}
use mathlib.Core.Bool.{Bool, true, false}
use mathlib.Core.Option.{Option, none, some}
use mathlib.Core.List.{List, [], ◌∷◌}
use native.Mathlib.Omega.{arith}
use etwork.Common.Tests.{if◌then◌else◌, ltb, Bool-cases}
use etwork.Common.Lists.{length}

-- std::less of two strings.
abbrev pub less_string : List ℕ → List ℕ → Bool
less_string [] [] = false
less_string [] (d ∷ ds) = true
less_string (c ∷ cs) [] = false
less_string (c ∷ cs) (d ∷ ds) =
    let behind = less_string cs ds in if ltb c d then true else if ltb d c then false else behind

pub less_string_irreflexive : (s : List ℕ) → less_string s s ≡ false
less_string_irreflexive [] = refl
less_string_irreflexive (c ∷ cs) =
    let e : ltb c c ≡ false = ground arith in rw (e, less_string_irreflexive cs) refl

module _ {K V : Type 0} (less : K → K → Bool) where
  unfoldable pub find : K → List (K × V) → Option V
  find k [] = none
  find k ((k', v) ∷ rest) =
      let behind = find k rest in if less k k' then none else if less k' k then behind else some v

  unfoldable pub erase : K → List (K × V) → List (K × V)
  erase k [] = []
  erase k ((k', v) ∷ rest) =
      let behind = erase k rest in
      if less k k' then (k', v) ∷ rest else if less k' k then (k', v) ∷ behind else rest

  -- m[k] = v
  unfoldable pub insert : K → V → List (K × V) → List (K × V)
  insert k v [] = (k, v) ∷ []
  insert k v ((k', v') ∷ rest) =
      let behind = insert k v rest in
      if less k k'
      then (k, v) ∷ (k', v') ∷ rest
      else if less k' k
      then (k', v') ∷ behind
      else (k, v) ∷ rest

  -- What is found is erased.
  pub find-erase :
      (k : K) (m : List (K × V)) → (find k m ≡ none) ⊎ (suc (length (erase k m)) ≡ length m)
  unfolding find erase
  find-erase k [] = inl refl
  find-erase k ((k', v') ∷ rest) = elim (Bool-cases (less k k')) [
    | inl t ↦ inl (rw t refl)
    | inr f ↦ elim (Bool-cases (less k' k)) [
      | inl t ↦ elim (find-erase k rest) [
        | inl e ↦ inl (rw (f, t) e)
        | inr e ↦ inr (rw (f, t) (ap suc e))
      ]
      | inr f' ↦ inr (rw (f, f') refl)
    ]
  ]

  pub erase_first :
      (k : K) (v : V) (rest : List (K × V)) → less k k ≡ false → erase k ((k, v) ∷ rest) ≡ rest
  unfolding erase
  erase_first k v rest e = rw e refl

  -- What is inserted is found.
  pub find-insert :
      (k : K) (v : V) (m : List (K × V)) → less k k ≡ false → find k (insert k v m) ≡ some v
  unfolding find insert
  find-insert k v [] e = rw e refl
  find-insert k v ((k', v') ∷ rest) e = elim (Bool-cases (less k k')) [
    | inl t ↦ rw (t, e) refl
    | inr f ↦ elim (Bool-cases (less k' k)) [
      | inl t ↦ rw (f, t) (rw (f, t) (find-insert k v rest e))
      | inr f' ↦ rw (f, f') (rw e refl)
    ]
  ]

  -- What is not found is a new entry.
  pub length-insert :
      (k : K) (v : V) (m : List (K × V)) → find k m ≡ none → length (insert k v m) ≡ suc (length m)
  unfolding find insert
  length-insert k v [] e = refl
  length-insert k v ((k', v') ∷ rest) e = elim (Bool-cases (less k k')) [
    | inl t ↦ rw t refl
    | inr f ↦ elim (Bool-cases (less k' k)) [
      | inl t ↦ rw (f, t) (ap suc (length-insert k v rest (rw (f, t) at e)))
      | inr f' ↦ absurd (some≢none (rw (f, f') at e))
    ]
  ]
    where
      some≢none : {v : V} → some v ≡ none → ⊥
      some≢none h = cc

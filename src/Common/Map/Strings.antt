-- ===== src/Common/Map/Strings.antt =====
-- A std::map whose keys are strings: what erase and insert leave of the other keys.
use Prim.Native.Nat.{ℕ}
use mathlib.Core.Path.{◌≡◌, refl, sym, ◌∙◌, ap, subst}
use mathlib.Core.Logic.{◌≢◌, inl, inr}
use mathlib.Core.Bool.{true, false}
use mathlib.Core.Option.{none, some}
use mathlib.Core.List.{List, [], ◌∷◌, ◌++◌}
use native.Mathlib.Omega.{arith}
use etwork.Common.Tests.{ltb, Bool-cases}
use etwork.Common.Map.{less_string, find, erase, insert}
use etwork.Common.Map.Order.{before, behind, same, against}

true≢false : true ≡ false → ⊥
true≢false h = cc

-- Neither of two equal strings is less.
pub less_string_same : (s t : List ℕ) → less_string s t ≡ false → less_string t s ≡ false → s ≡ t
less_string_same [] [] h k = refl
less_string_same [] (d ∷ ds) h k = absurd (true≢false h)
less_string_same (c ∷ cs) [] h k = absurd (true≢false k)
less_string_same (c ∷ cs) (d ∷ ds) h k = elim (against c d) [
  | before t l ↦ absurd (true≢false (rw t at h))
  | behind f t l ↦ absurd (true≢false (rw t at k))
  | same f f' e ↦
      ap (λ x. x ∷ cs) e
      ∙ ap (λ xs. d ∷ xs) (less_string_same cs ds (rw (f, f') at h) (rw (f', f) at k))
]

pub less_string_trans :
    (r s t : List ℕ) → less_string r s ≡ true → less_string s t ≡ true → less_string r t ≡ true
less_string_trans [] [] t h k = absurd (true≢false (sym h))
less_string_trans [] (d ∷ ds) [] h k = absurd (true≢false (sym k))
less_string_trans [] (d ∷ ds) (e ∷ es) h k = refl
less_string_trans (c ∷ cs) [] t h k = absurd (true≢false (sym h))
less_string_trans (c ∷ cs) (d ∷ ds) [] h k = absurd (true≢false (sym k))
less_string_trans (c ∷ cs) (d ∷ ds) (e ∷ es) h k = elim (against c d) [
  | before t l ↦ elim (against d e) [
    | before u g ↦ let w : ltb c e ≡ true = ground arith in rw w refl
    | behind u u' g ↦ absurd (true≢false (sym (rw (u, u') at k)))
    | same u u' g ↦ let w : ltb c e ≡ true = ground arith in rw w refl
  ]
  | behind f t l ↦ absurd (true≢false (sym (rw (f, t) at h)))
  | same f f' l ↦ elim (against d e) [
    | before u g ↦ let w : ltb c e ≡ true = ground arith in rw w refl
    | behind u u' g ↦ absurd (true≢false (sym (rw (u, u') at k)))
    | same u u' g ↦
        let w : ltb c e ≡ false = ground arith in
        let w' : ltb e c ≡ false = ground arith in
        rw (w, w') (less_string_trans cs ds es (rw (f, f') at h) (rw (u, u') at k))
  ]
]

module _ {V : Type 0} where
  abbrev pub Above : List ℕ → List (List ℕ × V) → Type 0
  Above k [] = Unit
  Above k ((k', v) ∷ rest) = less_string k k' ≡ true

  abbrev pub IsSorted : List (List ℕ × V) → Type 0
  IsSorted [] = Unit
  IsSorted ((k, v) ∷ rest) = Above k rest × IsSorted rest

  find-Above : (k : List ℕ) (m : List (List ℕ × V)) → Above k m → find less_string k m ≡ none
  unfolding find
  find-Above k [] a = refl
  find-Above k ((k', v) ∷ rest) a = rw a refl

  before_Above :
      (j k : List ℕ) (m : List (List ℕ × V)) → less_string j k ≡ true → Above k m → Above j m
  before_Above j k [] h a = tt
  before_Above j k ((k', v) ∷ rest) h a = less_string_trans j k k' h a

  pub find-erase_same :
      (k : List ℕ) (m : List (List ℕ × V))
      → IsSorted m
      → find less_string k (erase less_string k m) ≡ none
  unfolding find erase
  find-erase_same k [] s = refl
  find-erase_same k ((k', v) ∷ rest) (a, s) = elim (Bool-cases (less_string k k')) [
    | inl t ↦ rw (t, t) refl
    | inr f ↦ elim (Bool-cases (less_string k' k)) [
      | inl t ↦ rw (f, t) (rw (f, t) (find-erase_same k rest s))
      | inr f' ↦
          rw (f, f')
            (find-Above k rest (subst (λ x. Above x rest) (sym (less_string_same k k' f f')) a))
    ]
  ]

  pub find-erase_other :
      (j k : List ℕ) (m : List (List ℕ × V))
      → IsSorted m
      → j ≢ k
      → find less_string j (erase less_string k m) ≡ find less_string j m
  unfolding find erase
  find-erase_other j k [] s n = refl
  find-erase_other j k ((k', v) ∷ rest) (a, s) n = elim (Bool-cases (less_string k k')) [
    | inl t ↦ rw t refl
    | inr f ↦ elim (Bool-cases (less_string k' k)) [
      | inl t ↦ rw (f, t, find-erase_other j k rest s n) refl
      | inr f' ↦ elim (Bool-cases (less_string j k')) [
        | inl u ↦ rw (f, f', u) (find-Above j rest (before_Above j k' rest u a))
        | inr u ↦ elim (Bool-cases (less_string k' j)) [
          | inl u' ↦ rw (f, f', u, u') refl
          | inr u' ↦ absurd (n (less_string_same j k' u u' ∙ sym (less_string_same k k' f f')))
        ]
      ]
    ]
  ]

  -- A new key leaves a key behind it as it was.
  pub find-insert_behind :
      (j k : List ℕ) (v : V) (m : List (List ℕ × V))
      → less_string k j ≡ true
      → less_string j k ≡ false
      → find less_string k m ≡ none
      → find less_string j (insert less_string k v m) ≡ find less_string j m
  unfolding find insert
  find-insert_behind j k v [] h h' free = rw (h, h') refl
  find-insert_behind j k v ((k', v') ∷ rest) h h' free = elim (Bool-cases (less_string k k')) [
    | inl t ↦ rw (t, h, h') refl
    | inr f ↦ elim (Bool-cases (less_string k' k)) [
      | inl t ↦ rw (f, t, find-insert_behind j k v rest h h' (rw (f, t) at free)) refl
      | inr f' ↦ absurd (some≢none (rw (f, f') at free))
    ]
  ]
    where
      some≢none : {v : V} → some v ≡ none → ⊥
      some≢none h = cc

-- The beginning of a string is less than the string.
pub less_string_prefix :
    (s : List ℕ) (c : ℕ) (cs : List ℕ)
    → (less_string s (s ++ c ∷ cs) ≡ true) × (less_string (s ++ c ∷ cs) s ≡ false)
less_string_prefix [] c cs = (refl, refl)
less_string_prefix (d ∷ s) c cs =
    let e : ltb d d ≡ false = ground arith in
    let (h, k) = less_string_prefix s c cs in (rw e h, rw e k)

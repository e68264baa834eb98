-- ===== src/Marshal/Manager/Termination.antt =====
-- class MarshalManager of src/lib/marshal.cpp: the recursion between finding a marshaller and resolving
-- one, which takes each from toResolve_ before its members are looked for.
use etwork.Common.{
  ℕ, zero, suc, ◌-◌, ◌≤◌, ◌<◌, Option, none, some, List, [], ◌∷◌, ◌≡◌, refl, ap, ◌∙◌, inl, inr,
  arith, length, ◌==◌, Option-cases, Bool-cases,
}
use etwork.Common.Map.{less_string, less_string_irreflexive, find, erase, find-erase, erase_first}
use etwork.Marshal.{Error, Result, ok, err, ◌>>=◌, logic_error, no_fuel}
use etwork.Marshal.Interface.{IMarshaller}
use etwork.Marshal.Members.{MemberDesc}
use etwork.Marshal.Manager.{
  Declared, MarshalManager, Sizes, count_member, find_marshaller, resolve_members, resolve_type,
  store_marshaller, resolve_entry, found_or_taken, marshaller, give_id, resolve_round, resolve,
}

-- An error of the code, not one of the recursion's fuel.
abbrev pub IsThrown : Error → Type 0
IsThrown no_fuel = ⊥
IsThrown _ = Unit

-- There was fuel enough, and at most n marshallers are left to resolve.
abbrev pub LeavesAtMost {ℓ} : {A : Type ℓ} → ℕ → Result (MarshalManager × A) → Type 0
LeavesAtMost n (ok (mgr, _)) = length mgr.to_resolve ≤ n
LeavesAtMost n (err e) = IsThrown e

LeavesAtMost-weaken :
    {A : Type 0} (m n : ℕ) (r : Result (MarshalManager × A))
    → m ≤ n
    → LeavesAtMost m r
    → LeavesAtMost n r
LeavesAtMost-weaken m n (ok (mgr, _)) h k = omega arith
LeavesAtMost-weaken m n (err e) h k = k

LeavesAtMost-then :
    {A B : Type 0} (n : ℕ) (r : Result (MarshalManager × A))
    (f : MarshalManager × A → Result (MarshalManager × B))
    → LeavesAtMost n r
    → ((mgr : MarshalManager) (a : A) → length mgr.to_resolve ≤ n → LeavesAtMost n (f (mgr, a)))
    → LeavesAtMost n (r >>= f)
LeavesAtMost-then n (ok (mgr, a)) f h k = k mgr a h
LeavesAtMost-then n (err e) f h k = h

-- A way to look for a marshaller that leaves at most n where at most n were left.
abbrev Looks : ℕ → (MarshalManager → List ℕ → Result (MarshalManager × Option IMarshaller)) → Type 0
Looks n look =
    (mgr : MarshalManager) (type : List ℕ)
    → length mgr.to_resolve ≤ n
    → LeavesAtMost n (look mgr type)

find_marshaller-LeavesAtMost :
    (n : ℕ) (look : MarshalManager → List ℕ → Result (MarshalManager × Option IMarshaller))
    → Looks n look
    → (mgr : MarshalManager) (md : MemberDesc) → length mgr.to_resolve ≤ n
    → LeavesAtMost n (find_marshaller look mgr md)
unfolding find_marshaller
find_marshaller-LeavesAtMost n look l mgr md h = elim (Option-cases md.marshaller) [
  | inr (m, e) ↦ rw e h
  | inl e ↦ rw e (LeavesAtMost-then n (look mgr md.type) _ (l mgr md.type h) found)
]
  where
    found :
        (mgr : MarshalManager) (o : Option IMarshaller)
        → length mgr.to_resolve ≤ n
        → LeavesAtMost n (elim o [ none ↦ err logic_error | some m ↦ ok (mgr, m) ])
    found mgr none k = tt
    found mgr (some m) k = k

resolve_members-LeavesAtMost :
    (n : ℕ) (look : MarshalManager → List ℕ → Result (MarshalManager × Option IMarshaller))
    → Looks n look
    → (mgr : MarshalManager) (mds : List MemberDesc) (sizes : Sizes) → length mgr.to_resolve ≤ n
    → LeavesAtMost {A = List MemberDesc × Sizes} n (resolve_members look mgr mds sizes)
unfolding resolve_members
resolve_members-LeavesAtMost n look l mgr [] sizes h = h
resolve_members-LeavesAtMost n look l mgr (md ∷ mds) sizes h =
    LeavesAtMost-then n (find_marshaller look mgr md) _
      (find_marshaller-LeavesAtMost n look l mgr md h)
      (λ mgr' m h'.
        LeavesAtMost-then {A = List MemberDesc × Sizes} n
          (resolve_members look mgr' mds (count_member sizes md.offset m)) _
          (resolve_members-LeavesAtMost n look l mgr' mds (count_member sizes md.offset m) h')
          (λ mgr'' q h''. h''))

resolve_entry-LeavesAtMost :
    (n : ℕ) (look : MarshalManager → List ℕ → Result (MarshalManager × Option IMarshaller))
    → Looks n look
    → (mgr : MarshalManager) (name : List ℕ) (d : Declared)
    → length (erase less_string name mgr.to_resolve) ≤ n
    → LeavesAtMost n (resolve_entry look mgr name d)
unfolding resolve_entry resolve_type store_marshaller
resolve_entry-LeavesAtMost n look l mgr name d h =
    LeavesAtMost-then n (resolve_type look _ d.description) _
      (LeavesAtMost-then {A = List MemberDesc × Sizes} n _ _
        (resolve_members-LeavesAtMost n look l _ d.description.descs.items _ h) (λ mgr' q h'. h'))
      (λ mgr' t h'. h')

none_not_some : {A : Type 0} (o : Option A) (a : A) → o ≡ none → o ≡ some a → ⊥
none_not_some none a p q = ground arith
none_not_some (some b) a p q = ground arith

-- An entry that is taken, resolved with less fuel.
taken :
    (fuel n : ℕ) (mgr : MarshalManager) (type : List ℕ) (d : Declared)
    → n < suc fuel
    → length mgr.to_resolve ≤ n
    → find less_string type mgr.to_resolve ≡ some d
    → ((m : ℕ) → m < fuel → Looks m (marshaller fuel))
    → LeavesAtMost n (resolve_entry (marshaller fuel) mgr type d)
taken fuel n mgr type d h k e less = elim (find-erase less_string type mgr.to_resolve) [
  | inl absent ↦ absurd (none_not_some _ d absent e)
  | inr shorter ↦ LeavesAtMost-weaken (n - 1) n _ (omega arith) (
      resolve_entry-LeavesAtMost (n - 1) (marshaller fuel) (less (n - 1) (omega arith)) mgr type d
        (omega arith))
]

found_or_taken-LeavesAtMost :
    (fuel n : ℕ) (mgr : MarshalManager) (type : List ℕ) (ready : Option IMarshaller)
    (res : Option Declared)
    → n < suc fuel
    → length mgr.to_resolve ≤ n
    → find less_string type mgr.to_resolve ≡ res
    → ((m : ℕ) → m < fuel → Looks m (marshaller fuel))
    → LeavesAtMost n (found_or_taken (marshaller fuel) mgr type ready res)
unfolding found_or_taken
found_or_taken-LeavesAtMost fuel n mgr type (some m) res h k e less = k
found_or_taken-LeavesAtMost fuel n mgr type none none h k e less = k
found_or_taken-LeavesAtMost fuel n mgr type none (some d) h k e less =
    LeavesAtMost-then n (resolve_entry (marshaller fuel) mgr type d) _
      (taken fuel n mgr type d h k e less) (λ mgr' m h'. h')

-- marshaller( type ) ends, with fuel above the number of the marshallers left to resolve.
pub marshaller-LeavesAtMost :
    (fuel n : ℕ) (mgr : MarshalManager) (type : List ℕ)
    → n < fuel
    → length mgr.to_resolve ≤ n
    → LeavesAtMost n (marshaller fuel mgr type)
unfolding marshaller
marshaller-LeavesAtMost zero n mgr type h k = absurd (omega arith)
marshaller-LeavesAtMost (suc fuel) n mgr type h k =
    found_or_taken-LeavesAtMost fuel n mgr type (find less_string type mgr.string_marshallers)
      (find less_string type mgr.to_resolve) h k refl
      (λ m q m' t q'. marshaller-LeavesAtMost fuel m m' t q q')

-- What resolve comes to: nothing is left to resolve, or the code threw.
abbrev pub Completes : Result MarshalManager → Type 0
Completes (ok mgr) = mgr.to_resolve ≡ []
Completes (err e) = IsThrown e

Completes-then :
    {A : Type 0} (n : ℕ) (r : Result (MarshalManager × A))
    (f : MarshalManager × A → Result MarshalManager)
    → LeavesAtMost n r
    → ((mgr : MarshalManager) (a : A) → length mgr.to_resolve ≤ n → Completes (f (mgr, a)))
    → Completes (r >>= f)
Completes-then n (ok (mgr, a)) f h k = k mgr a h
Completes-then n (err e) f h k = h

give_id-to_resolve :
    (mgr : MarshalManager) (name : List ℕ) (id : ℕ)
    → (give_id mgr name id).to_resolve ≡ mgr.to_resolve
unfolding give_id
give_id-to_resolve mgr name id = elim (Bool-cases (id == 0)) [
  | inl e ↦ rw e refl
  | inr e ↦ rw e refl
]

resolve_round-Completes :
    (fuel : ℕ) (mgr : MarshalManager) (left : List (List ℕ × Declared))
    → length mgr.to_resolve < suc fuel
    → mgr.to_resolve ≡ left
    → ((mgr' : MarshalManager) → length mgr'.to_resolve < fuel → Completes (resolve fuel mgr'))
    → Completes (resolve_round (resolve fuel) (marshaller fuel) mgr left)
unfolding resolve_round
resolve_round-Completes fuel mgr [] h e again = e
resolve_round-Completes fuel mgr ((name, d) ∷ rest) h e again =
    let len : length mgr.to_resolve ≡ suc (length rest) = ap length e in
    let shorter : length (erase less_string name mgr.to_resolve) ≡ length rest =
      ap (λ m. length (erase less_string name m)) e
      ∙ ap length (erase_first less_string name d rest (less_string_irreflexive name)) in
    Completes-then (length rest) (resolve_entry (marshaller fuel) mgr name d) _
      (resolve_entry-LeavesAtMost (length rest) (marshaller fuel)
        (λ m t q. marshaller-LeavesAtMost fuel (length rest) m t (omega arith) q) mgr name d
        (omega arith))
      (λ mgr' m h'.
        again (give_id mgr' name d.id)
          (omega (arith, ap length (give_id-to_resolve mgr' name d.id))))

-- With fuel above the number of marshallers left, MarshalManager::resolve ends, whatever the
-- structures ask for, cycles included: it throws, or none is left to resolve.
pub resolve-Completes :
    (fuel : ℕ) (mgr : MarshalManager) → length mgr.to_resolve < fuel → Completes (resolve fuel mgr)
unfolding resolve
resolve-Completes zero mgr h = absurd (omega arith)
resolve-Completes (suc fuel) mgr h =
    resolve_round-Completes fuel mgr mgr.to_resolve h refl (λ m q. resolve-Completes fuel m q)

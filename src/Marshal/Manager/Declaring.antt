-- ===== src/Marshal/Manager/Declaring.antt =====
-- class MarshalManager of src/lib/marshal.cpp: the declaration of marshallers.
use etwork.Common.{ℕ, List, ◌≡◌, refl, inl, inr, Option-cases}
use etwork.Common.Map.{less_string, less_string_irreflexive, find, find-insert}
use etwork.Marshal.{err, ◌>>=◌, invalid_argument}
use etwork.Marshal.Manager.{MarshalManager, Declared, declare_unless, set_marshaller}

-- Two marshallers are never declared for one type before they are resolved: the second declaration
-- throws, or the first has done so already.
pub set_marshaller_twice :
    (mgr : MarshalManager) (type : List ℕ) (m m' : Declared)
    → (set_marshaller mgr type m >>= λ mgr'. set_marshaller mgr' type m') ≡ err invalid_argument
unfolding set_marshaller declare_unless
set_marshaller_twice mgr type m m' = elim (Option-cases (find less_string type mgr.to_resolve)) [
  | inl e ↦
      rw (e, find-insert less_string type m mgr.to_resolve (less_string_irreflexive type)) refl
  | inr (d, e) ↦ rw e refl
]

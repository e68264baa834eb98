-- ===== src/Marshal/Manager/Typed.antt =====
-- IMarshalManager::marshal and IMarshalManager::demarshal of src/etwork/marshal.h, the templates that
-- look up the marshaller of their argument's type. The type is given by its name.
use etwork.Common.{
  [], ◌∷◌, ◌^◌, sym, subst, ℕ, suc, ◌+◌, ◌-◌, ◌<◌, ◌≤◌, Bool, true, not, Option, none, some, List,
  ◌≡◌, refl, arith, length, ◌==◌, All,
}
use etwork.Common.Map.{less_string, find, erase, find-insert, less_string_irreflexive}
use etwork.Block.{Block, IsBlock, seek}
use etwork.Marshal.{Result, ok, err, ◌>>=◌, bad_object}
use etwork.Marshal.Interface.{Memory, IMarshaller, Carries}
use etwork.Marshal.Members.Carried.{carried_round_trip, AllCarried, type_object-Carries}
use etwork.Marshal.Members.{MemberDesc, TypeMarshal, type_object}
use etwork.Marshal.Manager.Announced.{resolve_members-AllCarried}
use etwork.Marshal.Manager.{
  MarshalManager, Declared, Sizes, count_member, find_marshaller, resolve_members, round_up,
  resolve_type, resolve_entry, store_marshaller, found_or_taken, marshaller,
}

-- m->marshal( &src, o ) != 0, where m is what was found; it is not tested for 0.
unfoldable pub marshal_with :
    Memory
    → ℕ
    → Block
    → MarshalManager × Option IMarshaller
    → Result (MarshalManager × Block × Bool)
marshal_with mem src o (mgr, none) = err bad_object
marshal_with mem src o (mgr, some m) = m.marshal mem src o >>= λ r. ok (mgr, r.0, not (r.1 == 0))

unfoldable pub marshal_typed :
    ℕ → MarshalManager → List ℕ → Memory → ℕ → Block → Result (MarshalManager × Block × Bool)
marshal_typed fuel mgr type mem src o = marshaller fuel mgr type >>= marshal_with mem src o

unfoldable pub demarshal_with :
    Memory
    → ℕ
    → Block
    → MarshalManager × Option IMarshaller
    → Result (MarshalManager × Block × Memory × Bool)
demarshal_with mem dst o (mgr, none) = err bad_object
demarshal_with mem dst o (mgr, some m) =
    m.demarshal o mem dst >>= λ r. ok (mgr, r.0, r.1, not (r.2 == 0))

unfoldable pub demarshal_typed :
    ℕ
    → MarshalManager
    → List ℕ
    → Memory
    → ℕ
    → Block
    → Result (MarshalManager × Block × Memory × Bool)
demarshal_typed fuel mgr type mem dst o = marshaller fuel mgr type >>= demarshal_with mem dst o

some_bytes : (n : ℕ) → 0 < n → not (n == 0) ≡ true
some_bytes n h = ground arith

-- Members, and the same with the marshallers that resolve finds for them: their own, or what is
-- known under the name of their type.
pub data Named (known : List (List ℕ × IMarshaller))
    : List MemberDesc → List MemberDesc → Type 0 where
  no_names : Named known [] []
  has_own :
      {md : MemberDesc} {mds mds' : List MemberDesc} {m : IMarshaller}
      → md.marshaller ≡ some m
      → Named known mds mds'
      → Named known (md ∷ mds) (record md { marshaller = some m } ∷ mds')
  by_name :
      {md : MemberDesc} {mds mds' : List MemberDesc} {m : IMarshaller}
      → md.marshaller ≡ none
      → find less_string md.type known ≡ some m
      → Named known mds mds'
      → Named known (md ∷ mds) (record md { marshaller = some m } ∷ mds')

resolve_members-Named :
    (fuel : ℕ) (mgr : MarshalManager) (s : Sizes) {mds mds' : List MemberDesc}
    → Named mgr.string_marshallers mds mds'
    → resolve_members (marshaller (suc fuel)) mgr mds s
      ≡ resolve_members (marshaller (suc fuel)) mgr mds' s
unfolding resolve_members find_marshaller marshaller found_or_taken
resolve_members-Named fuel mgr s no_names = refl
resolve_members-Named fuel mgr s (has_own {md} {m} own rest) =
    rw (own, resolve_members-Named fuel mgr (count_member s md.offset m) rest) refl
resolve_members-Named fuel mgr s (by_name {md} {m} none_yet found rest) =
    rw (none_yet, found, resolve_members-Named fuel mgr (count_member s md.offset m) rest) refl

-- The first use of a declared type resolves it.
resolve_type-Named :
    (fuel : ℕ) (mgr : MarshalManager) (t : TypeMarshal) (mem : Memory) (src : ℕ)
    {mds : List MemberDesc} {fields bytes : List ℕ} {max : ℕ}
    → Named mgr.string_marshallers t.descs.items mds
    → AllCarried mem src mds fields bytes max
    → max < 2 ^ 32
    → (t' : TypeMarshal) × (resolve_type (marshaller (suc fuel)) mgr t ≡ ok (mgr, t'))
      × (t'.descs.items ≡ mds)
      × (t'.max_marshalled_size ≡ max)
unfolding resolve_type
resolve_type-Named fuel mgr t mem src {mds} named carried small =
    let start : Sizes = record { m_size = 0; mem_size = 0; max_mem_size = 0 } in
    let (s, r, e) =
      resolve_members-AllCarried (marshaller (suc fuel)) mgr mem src start carried (omega arith) in
    let t' : TypeMarshal = record t {
      descs = record t.descs { items = mds };
      instance_size = round_up s.mem_size s.max_mem_size;
      max_marshalled_size = s.m_size;
    } in
    (t', rw (resolve_members-Named fuel mgr start named, r) refl, refl, omega (arith, e))

-- An object of a type that is declared but not yet resolved, whose members have their marshallers or
-- the names of types that are known, and are carried by those: its first marshal through the manager
-- resolves the type and keeps it, so that demarshal through the manager that this leaves, from the
-- same place, finds it. In a well-formed block with room for the sum of what the members announce,
-- which is below 2^32, both succeed, and each field is at its offset from the address that was given.
pub marshal_typed_round_trip :
    (fuel : ℕ) (mgr : MarshalManager) (type : List ℕ) (d : Declared) (mds : List MemberDesc)
    (mem : Memory) (src : ℕ) (fields bytes : List ℕ) (max : ℕ) (o : Block) (to : Memory) (dst : ℕ)
    → find less_string type mgr.string_marshallers ≡ none
    → find less_string type mgr.to_resolve ≡ some d
    → Named mgr.string_marshallers d.description.descs.items mds
    → AllCarried mem src mds fields bytes max
    → 0 < length bytes
    → max < 2 ^ 32
    → IsBlock o
    → max ≤ o.size - o.pos
    → (mgr' : MarshalManager) × (o' : Block) × (to' : Memory) × (e : Bool) × (marshal_typed
          (suc (suc fuel))
          mgr
          type
          mem
          src
          o
        ≡ ok (mgr', o', true))
      × (demarshal_typed (suc (suc fuel)) mgr' type to dst (seek o' o.pos)
          ≡ ok (mgr', record o' { at_eof = e }, to', true))
      × All (λ f. to' (dst + f) ≡ mem (src + f)) fields
unfolding marshal_typed demarshal_typed marshal_with demarshal_with marshaller found_or_taken
    resolve_entry store_marshaller
marshal_typed_round_trip fuel mgr type d mds mem src fields bytes max o to dst new declared named
      carried least small block room =
    let taken : MarshalManager = record mgr {
      to_resolve = erase less_string type mgr.to_resolve;
    } in
    let (t, resolved, items, announced) =
      resolve_type-Named fuel taken d.description mem src named carried small in
    let m = type_object d.construct t in
    let c : Carries m mem src fields bytes =
      type_object-Carries d.construct t mem src fields bytes max
        (subst (λ x. AllCarried mem src x fields bytes max) (sym items) carried)
        (omega (arith, announced)) least in
    let size : m.max_marshalled_size ≤ o.size - o.pos =
      unfold type_object in (omega (arith, announced)) in
    let (o', to', e, w, r, _, copied) =
      carried_round_trip m mem src fields bytes o to dst c block size in
    let went = some_bytes (length bytes) least in
    let kept =
      find-insert less_string type m mgr.string_marshallers (less_string_irreflexive type) in
    (
      store_marshaller taken type d.id m,
      o',
      to',
      e,
      rw (new, declared, resolved, w, went) refl,
      rw (kept, r, went) refl,
      copied,
    )

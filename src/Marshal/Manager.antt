-- ===== src/Marshal/Manager.antt =====
-- TypeMarshal::resolve and class MarshalManager of src/lib/marshal.cpp: the marshallers that are
-- declared, and how they find each other. An error that is thrown carries no manager: the program ends
-- its start-up there.
pub mod Termination
pub mod Announced
pub mod Declaring
pub mod Typed
use etwork.Common.{
  ℕ, zero, suc, ◌+◌, ◌-◌, ◌%◌, Bool, true, false, Option, none, some, List, [], ◌∷◌, length, ltb,
  leb, ◌==◌, if◌then◌else◌,
}
use etwork.Common.Bytes.{add_size, sub_size}
use etwork.Common.Map.{less_string, find, erase, insert}
use etwork.Marshal.{Result, ok, err, ◌>>=◌, invalid_argument, logic_error, no_fuel}
use etwork.Marshal.Interface.{Memory, IMarshaller}
use etwork.Marshal.PublicVector.{PublicVector}
use etwork.Marshal.Members.{MemberDesc, TypeMarshal, type_object}

-- A marshaller that is declared: its id (as an unsigned int), its description and the constructor of
-- its type.
pub record Declared : Type 0 where
  pub id : ℕ
  pub description : TypeMarshal
  pub construct : Memory → ℕ → Memory

-- `ids` holds id_ of each marshaller, by the name of its type, where it is not 0.
pub record MarshalManager : Type 0 where
  pub int_marshallers : List (ℕ × IMarshaller)
  pub string_marshallers : List (List ℕ × IMarshaller)
  pub to_resolve : List (List ℕ × Declared)
  pub ids : List (List ℕ × ℕ)

unfoldable pub new_manager : MarshalManager
new_manager = record { int_marshallers = []; string_marshallers = []; to_resolve = []; ids = [] }

-- What setMarshaller does, by what it finds under the name of the type.
unfoldable pub declare_unless :
    MarshalManager → List ℕ → Declared → Option Declared → Result MarshalManager
declare_unless mgr type m none =
    ok (record mgr { to_resolve = insert less_string type m mgr.to_resolve })
declare_unless mgr type m (some _) = err invalid_argument

unfoldable pub set_marshaller : MarshalManager → List ℕ → Declared → Result MarshalManager
set_marshaller mgr type m = declare_unless mgr type m (find less_string type mgr.to_resolve)

-- mSize, memSize and maxMemSize of resolve.
pub record Sizes : Type 0 where
  pub m_size : ℕ
  pub mem_size : ℕ
  pub max_mem_size : ℕ

unfoldable pub count_member : Sizes → ℕ → IMarshaller → Sizes
count_member s offset m =
    let max_mem = add_size offset m.instance_size in
    record {
      m_size = add_size s.m_size m.max_marshalled_size;
      mem_size = if ltb s.mem_size max_mem then max_mem else s.mem_size;
      max_mem_size = if ltb s.max_mem_size m.instance_size then m.instance_size else s.max_mem_size;
    }

-- manager->marshaller( type ), where it is needed.
unfoldable pub find_marshaller :
    (MarshalManager → List ℕ → Result (MarshalManager × Option IMarshaller))
    → MarshalManager
    → MemberDesc
    → Result (MarshalManager × IMarshaller)
find_marshaller look mgr md = elim md.marshaller [
  | some m ↦ ok (mgr, m)
  | none ↦ look mgr md.type >>= λ r. elim r.1 [ none ↦ err logic_error | some m ↦ ok (r.0, m) ]
]

unfoldable pub resolve_members :
    (MarshalManager → List ℕ → Result (MarshalManager × Option IMarshaller))
    → MarshalManager
    → List MemberDesc
    → Sizes
    → Result (MarshalManager × (List MemberDesc × Sizes))
resolve_members look mgr [] sizes = ok (mgr, ([], sizes))
resolve_members look mgr (md ∷ mds) sizes = find_marshaller look mgr md >>= λ r.
    resolve_members look r.0 mds (count_member sizes md.offset r.1) >>= λ q.
    ok (q.0, (record md { marshaller = some r.1 } ∷ q.1.0, q.1.1))

-- (memSize + (maxMemSize-1)) & -maxMemSize for an alignment of 1, 2 or 4, and 0 where there is no
-- member.
unfoldable pub round_up : ℕ → ℕ → ℕ
round_up mem_size max_mem_size =
    let align = if leb 3 max_mem_size then 4 else max_mem_size in
    let sum = add_size mem_size (sub_size align 1) in if align == 0 then 0 else sum - sum % align

-- TypeMarshal::resolve, in a build without assertions.
unfoldable pub resolve_type :
    (MarshalManager → List ℕ → Result (MarshalManager × Option IMarshaller))
    → MarshalManager
    → TypeMarshal
    → Result (MarshalManager × TypeMarshal)
resolve_type look mgr t =
    resolve_members look mgr t.descs.items (record { m_size = 0; mem_size = 0; max_mem_size = 0 })
    >>= λ r. ok (
      r.0,
      record t {
        descs = record t.descs { items = r.1.0 };
        instance_size = round_up r.1.1.mem_size r.1.1.max_mem_size;
        max_marshalled_size = r.1.1.m_size;
      },
    )

-- stringMarshallers_[name] = m; if( id != 0 ) intMarshallers_[id] = m;
unfoldable pub store_marshaller : MarshalManager → List ℕ → ℕ → IMarshaller → MarshalManager
store_marshaller mgr name id m = record mgr {
  string_marshallers = insert less_string name m mgr.string_marshallers;
  int_marshallers = if id == 0 then mgr.int_marshallers else insert ltb id m mgr.int_marshallers;
}

-- The entry taken from toResolve_ is resolved and stored.
unfoldable pub resolve_entry :
    (MarshalManager → List ℕ → Result (MarshalManager × Option IMarshaller))
    → MarshalManager
    → List ℕ
    → Declared
    → Result (MarshalManager × IMarshaller)
resolve_entry look mgr name d =
    resolve_type look (record mgr { to_resolve = erase less_string name mgr.to_resolve })
      d.description
    >>= λ r. let m = type_object d.construct r.1 in ok (store_marshaller r.0 name d.id m, m)

-- What is found under the name in stringMarshallers_, or else in toResolve_.
unfoldable pub found_or_taken :
    (MarshalManager → List ℕ → Result (MarshalManager × Option IMarshaller))
    → MarshalManager
    → List ℕ
    → Option IMarshaller
    → Option Declared
    → Result (MarshalManager × Option IMarshaller)
found_or_taken look mgr type (some m) res = ok (mgr, some m)
found_or_taken look mgr type none none = ok (mgr, none)
found_or_taken look mgr type none (some d) =
    resolve_entry look mgr type d >>= λ r. ok (r.0, some r.1)

-- marshaller( char const * type ). A logic_error on the way is thrown again with a longer text.
unfoldable pub marshaller :
    ℕ → MarshalManager → List ℕ → Result (MarshalManager × Option IMarshaller)
marshaller zero mgr type = err no_fuel
marshaller (suc fuel) mgr type =
    found_or_taken (marshaller fuel) mgr type (find less_string type mgr.string_marshallers)
      (find less_string type mgr.to_resolve)

-- m->id_ = id, which only the loop of resolve does.
unfoldable pub give_id : MarshalManager → List ℕ → ℕ → MarshalManager
give_id mgr name id =
    if id == 0 then mgr else record mgr { ids = insert less_string name id mgr.ids }

-- One round of the loop, with the rounds after it.
unfoldable pub resolve_round :
    (MarshalManager → Result MarshalManager)
    → (MarshalManager → List ℕ → Result (MarshalManager × Option IMarshaller))
    → MarshalManager
    → List (List ℕ × Declared)
    → Result MarshalManager
resolve_round again look mgr [] = ok mgr
resolve_round again look mgr ((name, d) ∷ _) =
    resolve_entry look mgr name d >>= λ r. again (give_id r.0 name d.id)

-- The loop of MarshalManager::resolve; the exceptions that it catches are its error.
unfoldable pub resolve : ℕ → MarshalManager → Result MarshalManager
resolve zero mgr = err no_fuel
resolve (suc fuel) mgr = resolve_round (resolve fuel) (marshaller fuel) mgr mgr.to_resolve

-- marshaller( int id )
unfoldable pub marshaller_by_id : MarshalManager → ℕ → Option IMarshaller
marshaller_by_id mgr id = find ltb id mgr.int_marshallers

unfoldable pub count_marshallers : MarshalManager → ℕ
count_marshallers mgr = length mgr.string_marshallers

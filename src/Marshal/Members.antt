-- ===== src/Marshal/Members.antt =====
-- class TypeMarshal of src/lib/marshal.cpp: a structure is marshalled member by member, and a member
-- that fails takes the position back to where the structure began.
pub mod Carried
pub mod Failure
use etwork.Common.{ℕ, ◌+◌, Option, none, some, List, [], ◌∷◌, ◌++◌, ◌==◌, if◌then◌else◌}
use etwork.Common.Bytes.{sub_size}
use etwork.Block.{Block, seek}
use etwork.Marshal.{Result, ok, err, ◌>>=◌, bad_object}
use etwork.Marshal.PublicVector.{PublicVector}
use etwork.Marshal.Interface.{Memory, IMarshaller}

-- A name is the list of its characters. The marshaller is null for a member of another structure,
-- before resolve has found it.
pub record MemberDesc : Type 0 where
  pub name : List ℕ
  pub type : List ℕ
  pub offset : ℕ
  pub marshaller : Option IMarshaller

pub record TypeMarshal : Type 0 where
  pub type_name : List ℕ
  pub descs : PublicVector MemberDesc
  pub instance_size : ℕ
  pub max_marshalled_size : ℕ

-- md.marshaller_, dereferenced.
abbrev pub marshaller_of : MemberDesc → Result IMarshaller
marshaller_of md = elim md.marshaller [ none ↦ err bad_object | some m ↦ ok m ]

-- for( a = 0; a < cnt; ++a ), from the position where the structure began.
unfoldable pub marshal_members : ℕ → List MemberDesc → Memory → ℕ → Block → Result (Block × ℕ)
marshal_members start [] mem at dst = ok (dst, sub_size dst.pos start)
marshal_members start (md ∷ mds) mem at dst = marshaller_of md >>= λ m.
    m.marshal mem (at + md.offset) dst >>= λ r.
    let rest = marshal_members start mds mem at r.0 in
    if r.1 == 0 then ok (seek r.0 start, 0) else rest

unfoldable pub marshal : TypeMarshal → Memory → ℕ → Block → Result (Block × ℕ)
marshal t mem at dst = marshal_members dst.pos t.descs.items mem at dst

unfoldable pub demarshal_members :
    ℕ → List MemberDesc → Block → Memory → ℕ → Result (Block × Memory × ℕ)
demarshal_members start [] src to dst = ok (src, to, sub_size src.pos start)
demarshal_members start (md ∷ mds) src to dst = marshaller_of md >>= λ m.
    m.demarshal src to (dst + md.offset) >>= λ r.
    let rest = demarshal_members start mds r.0 r.1 dst in
    if r.2 == 0 then ok (seek r.0 start, r.1, 0) else rest

unfoldable pub demarshal : TypeMarshal → Block → Memory → ℕ → Result (Block × Memory × ℕ)
demarshal t src to dst = demarshal_members src.pos t.descs.items src to dst

-- A structure as an IMarshaller; its constructor is that of the type, which the application has.
unfoldable pub type_object : (Memory → ℕ → Memory) → TypeMarshal → IMarshaller
type_object construct t = record {
  marshal = λ mem at dst. marshal t mem at dst;
  demarshal = λ src to dst. demarshal t src to dst;
  construct = construct;
  instance_size = t.instance_size;
  max_marshalled_size = t.max_marshalled_size;
}

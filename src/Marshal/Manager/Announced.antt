-- ===== src/Marshal/Manager/Announced.antt =====
-- TypeMarshal::resolve of src/lib/marshal.cpp: the size that it announces for a structure.
use etwork.Common.{ℕ, ◌+◌, ◌-◌, ◌^◌, ◌≤◌, ◌<◌, Bool, Option, List, ◌≡◌, refl, arith, length, All}
use etwork.Block.{Block, IsBlock, seek}
use etwork.Marshal.{Result, ok}
use etwork.Marshal.Interface.{Memory, IMarshaller}
use etwork.Marshal.Members.{MemberDesc, TypeMarshal, marshal, demarshal}
use etwork.Marshal.Members.Carried.{AllCarried, no_members, a_member, demarshal-marshal_type}
use etwork.Marshal.Manager.{
  MarshalManager, Sizes, count_member, find_marshaller, resolve_members, resolve_type, round_up,
}

pub resolve_members-AllCarried :
    (look : MarshalManager → List ℕ → Result (MarshalManager × Option IMarshaller))
    (mgr : MarshalManager) (mem : Memory) (at : ℕ) {mds : List MemberDesc} {fields bytes : List ℕ}
    {max : ℕ} (s : Sizes)
    → AllCarried mem at mds fields bytes max
    → s.m_size + max < 2 ^ 32
    → (s' : Sizes) × (resolve_members look mgr mds s ≡ ok (mgr, (mds, s')))
      × (s'.m_size ≡ s.m_size + max)
unfolding resolve_members find_marshaller
resolve_members-AllCarried look mgr mem at s no_members h = (s, refl, omega arith)
resolve_members-AllCarried look mgr mem at s
      (a_member name type offset m fields bytes {mds} {rest} {more} {max} c cs) h =
    let t = count_member s offset m in
    let counted : t.m_size ≡ s.m_size + m.max_marshalled_size =
      unfold count_member in (omega arith) in
    let (s', r, e) = resolve_members-AllCarried look mgr mem at t cs (omega (arith, counted)) in
    (s', rw r refl, omega (arith, e, counted))

-- A structure whose members have their marshallers, whose sizes add up to less than 2^32, is
-- resolved, without a look at the manager, to one that announces that sum; and in a well-formed
-- block with that much room each object whose members are carried, in some bytes, makes the
-- round trip.
pub resolve_type_round_trip :
    (look : MarshalManager → List ℕ → Result (MarshalManager × Option IMarshaller))
    (mgr : MarshalManager) (t : TypeMarshal) (mem : Memory) (at : ℕ) (fields bytes : List ℕ)
    (max : ℕ) (b : Block) (to : Memory) (dst : ℕ)
    → AllCarried mem at t.descs.items fields bytes max
    → 0 < length bytes
    → max < 2 ^ 32
    → IsBlock b
    → max ≤ b.size - b.pos
    → (t' : TypeMarshal) × (b' : Block) × (to' : Memory) × (e : Bool) × (resolve_type look mgr t
        ≡ ok (mgr, t'))
      × (t'.max_marshalled_size ≡ max)
      × (marshal t' mem at b ≡ ok (b', length bytes))
      × (demarshal t' (seek b' b.pos) to dst ≡ ok (record b' { at_eof = e }, to', length bytes))
      × All (λ o. to' (dst + o) ≡ mem (at + o)) fields
unfolding resolve_type
resolve_type_round_trip look mgr t mem at fields bytes max b to dst cs least small block room =
    let (s, r, e) =
      resolve_members-AllCarried look mgr mem at
        (record { m_size = 0; mem_size = 0; max_mem_size = 0 }) cs (omega arith) in
    let t' : TypeMarshal = record t {
      instance_size = round_up s.mem_size s.max_mem_size;
      max_marshalled_size = s.m_size;
    } in
    let (b', to', e', w, back, _, copied) =
      demarshal-marshal_type t' mem at fields bytes max b to dst cs least (omega (arith, e)) block
        (omega (arith, e)) in
    (t', b', to', e', rw r refl, omega (arith, e), w, back, copied)

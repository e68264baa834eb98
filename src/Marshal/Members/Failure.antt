-- ===== src/Marshal/Members/Failure.antt =====
-- class TypeMarshal of src/lib/marshal.cpp: what its operations return, also where a member fails.
use etwork.Common.{ℕ, ◌+◌, ◌<◌, Bool, true, false, List, [], ◌∷◌, ◌≡◌, refl, arith, ◌==◌, some}
use etwork.Common.Bytes.{sub_size}
use etwork.Block.{Block, seek}
use etwork.Marshal.{ok}
use etwork.Marshal.Interface.{Memory, IMarshaller}
use etwork.Marshal.Members.{
  MemberDesc, TypeMarshal, marshal_members, marshal, demarshal_members, demarshal,
}

-- The members of an object written one after the other, from a block to the one that this leaves: all
-- of them (`true`), or those before a first one that returns 0, and that one (`false`).
pub data Writes (mem : Memory) (at : ℕ) : List MemberDesc → Block → Block → Bool → Type 0 where
  all_written : {b : Block} → Writes mem at [] b b true
  not_written :
      {md : MemberDesc} {mds : List MemberDesc} {m : IMarshaller} {b b' : Block}
      → md.marshaller ≡ some m
      → m.marshal mem (at + md.offset) b ≡ ok (b', 0)
      → Writes mem at (md ∷ mds) b b' false
  writes :
      {md : MemberDesc} {mds : List MemberDesc} {m : IMarshaller} {b b' b'' : Block} {n : ℕ}
      {whole : Bool}
      → md.marshaller ≡ some m
      → m.marshal mem (at + md.offset) b ≡ ok (b', n)
      → 0 < n
      → Writes mem at mds b' b'' whole
      → Writes mem at (md ∷ mds) b b'' whole

-- The same of reading, with the memory that it leaves.
pub data Reads (dst : ℕ) : List MemberDesc → Block → Memory → Block → Memory → Bool → Type 0 where
  all_read : {b : Block} {to : Memory} → Reads dst [] b to b to true
  not_read :
      {md : MemberDesc} {mds : List MemberDesc} {m : IMarshaller} {b b' : Block} {to to' : Memory}
      → md.marshaller ≡ some m
      → m.demarshal b to (dst + md.offset) ≡ ok (b', to', 0)
      → Reads dst (md ∷ mds) b to b' to' false
  reads :
      {md : MemberDesc} {mds : List MemberDesc} {m : IMarshaller} {b b' b'' : Block}
      {to to' to'' : Memory} {n : ℕ} {whole : Bool}
      → md.marshaller ≡ some m
      → m.demarshal b to (dst + md.offset) ≡ ok (b', to', n)
      → 0 < n
      → Reads dst mds b' to' b'' to'' whole
      → Reads dst (md ∷ mds) b to b'' to'' whole

-- What an operation that began at a position makes of that: how far the position moved if all
-- members succeeded; 0, and the position back at the start, if one did not.
abbrev pub ended : ℕ → Bool → Block → Block × ℕ
ended start true b = (b, sub_size b.pos start)
ended start false b = (seek b start, 0)

marshal_members-ended :
    (start : ℕ) (mem : Memory) (at : ℕ) {mds : List MemberDesc} {b b' : Block} {whole : Bool}
    → Writes mem at mds b b' whole
    → marshal_members start mds mem at b ≡ ok (ended start whole b')
unfolding marshal_members
marshal_members-ended start mem at all_written = refl
marshal_members-ended start mem at (not_written p e) = rw (p, e) refl
marshal_members-ended start mem at (writes {n} p e some_bytes more) =
    let went : (n == 0) ≡ false = ground arith in
    rw (p, e, went) (marshal_members-ended start mem at more)

demarshal_members-ended :
    (start dst : ℕ) {mds : List MemberDesc} {b b' : Block} {to to' : Memory} {whole : Bool}
    → Reads dst mds b to b' to' whole
    → demarshal_members start mds b to dst
      ≡ ok ((ended start whole b').0, to', (ended start whole b').1)
unfolding demarshal_members
demarshal_members-ended start dst all_read = refl
demarshal_members-ended start dst (not_read p e) = rw (p, e) refl
demarshal_members-ended start dst (reads {n} p e some_bytes more) =
    let went : (n == 0) ≡ false = ground arith in
    rw (p, e, went) (demarshal_members-ended start dst more)

-- Whatever its members are: where they are written one after the other, TypeMarshal's marshal
-- returns how far the position moved; where one of them returns 0 it stops there, returns 0, and
-- the position is back where the structure began. The same holds of demarshal, and the memory is
-- as the members left it that were read before and the one that failed.
pub type_marshal-Writes :
    (t : TypeMarshal) (mem : Memory) (at : ℕ) (b b' : Block) (written : Bool) (to to' : Memory)
    (dst : ℕ) (c c' : Block) (read : Bool)
    → Writes mem at t.descs.items b b' written
    → Reads dst t.descs.items c to c' to' read
    → (marshal t mem at b ≡ ok (ended b.pos written b'))
      × (demarshal t c to dst ≡ ok ((ended c.pos read c').0, to', (ended c.pos read c').1))
unfolding marshal demarshal
type_marshal-Writes t mem at b b' written to to' dst c c' read ws rs =
    (marshal_members-ended b.pos mem at ws, demarshal_members-ended c.pos dst rs)

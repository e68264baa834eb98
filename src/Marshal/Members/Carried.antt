-- ===== src/Marshal/Members/Carried.antt =====
-- class TypeMarshal of src/lib/marshal.cpp: structures of members that are carried.
use etwork.Common.{
  ℕ, ◌+◌, ◌-◌, ◌≤◌, ◌<◌, Bool, true, false, some, List, [], ◌∷◌, ◌++◌, ◌≡◌, refl, ap, sym, ◌∙◌,
  arith, length, ◌==◌, length-append, take-append-drop, Bool-cases, inl, inr, All,
}
use etwork.Common.Bytes.{sub_size}
use etwork.Block.{Block, IsBlock, cur, seek, splice}
use etwork.Marshal.{ok}
use etwork.Marshal.Interface.{Memory, set, IMarshaller, Carries, copy_fields}
use etwork.Marshal.Cursor.{
  advanced, skipped, StandsAt, advanced-advanced, advanced-IsBlock, skipped-IsBlock, StandsAt-first,
  StandsAt-skipped, StandsAt-room, advanced-StandsAt, at_start-IsBlock,
}
use etwork.Marshal.Members.{
  MemberDesc, TypeMarshal, marshal_members, marshal, demarshal_members, demarshal, type_object,
}

-- The offsets of a member's fields, from the start of the structure.
abbrev pub fields_at : ℕ → List ℕ → List ℕ
fields_at offset [] = []
fields_at offset (o ∷ os) = (offset + o) ∷ fields_at offset os

-- Each member has its marshaller and is carried: its fields and bytes are those of the structure, one
-- member after the other.
pub data AllCarried (mem : Memory) (at : ℕ)
    : (mds : List MemberDesc) (fields bytes : List ℕ) (max : ℕ) → Type 0 where
  no_members : AllCarried mem at [] [] [] 0
  a_member :
      (name type : List ℕ) (offset : ℕ) (m : IMarshaller) (fields bytes : List ℕ)
      {mds : List MemberDesc} {rest more : List ℕ} {max : ℕ}
      → Carries m mem (at + offset) fields bytes
      → AllCarried mem at mds rest more max
      → AllCarried mem at
          (record { name = name; type = type; offset = offset; marshaller = some m } ∷ mds)
          (fields_at offset fields ++ rest)
          (bytes ++ more)
          (m.max_marshalled_size + max)

-- A member's fields, copied, are the structure's fields of those offsets, copied.
copy_fields-fields_at :
    (offset : ℕ) (fields rest : List ℕ) (mem : Memory) (at : ℕ) (to : Memory) (dst : ℕ)
    → copy_fields (fields_at offset fields ++ rest) mem at to dst
      ≡ copy_fields rest mem at (copy_fields fields mem (at + offset) to (dst + offset)) dst
copy_fields-fields_at offset [] rest mem at to dst = refl
copy_fields-fields_at offset (o ∷ os) rest mem at to dst =
    let p : dst + (offset + o) ≡ dst + offset + o = omega arith in
    let q : at + (offset + o) ≡ at + offset + o = omega arith in
    let moved : set to (dst + (offset + o)) (mem (at + (offset + o)))
        ≡ set to (dst + offset + o) (mem (at + offset + o)) =
      λ i. set to (p i) (mem (q i)) in
    ap (λ (t : Memory). copy_fields (fields_at offset os ++ rest) mem at t dst) moved
    ∙ copy_fields-fields_at offset os rest mem at
        (set to (dst + offset + o) (mem (at + offset + o))) dst

splice_nothing : (buf : List ℕ) (pos : ℕ) → splice buf pos [] ≡ buf
unfolding splice
splice_nothing buf pos = let q : pos + 0 ≡ pos = omega arith in rw q (take-append-drop pos buf)

-- The flag for the end is no part of what makes a block well-formed.
flagged-IsBlock : (b : Block) (e : Bool) → IsBlock b → IsBlock (record b { at_eof = e })
flagged-IsBlock b e h = record { sized = h.sized; inside = h.inside; small = h.small }

flagged-StandsAt :
    (b : Block) (e : Bool) (bytes : List ℕ)
    → StandsAt b bytes
    → StandsAt (record b { at_eof = e }) bytes
unfolding cur
flagged-StandsAt b e bytes (rest, q) = (rest, q)

-- The result of the members, in a block that is k bytes past the start.
marshal_members-Carried :
    (mem : Memory) (at start k : ℕ) {mds : List MemberDesc} {fields bytes : List ℕ} {max : ℕ}
    (b : Block)
    → AllCarried mem at mds fields bytes max
    → IsBlock b
    → b.pos ≡ start + k
    → length bytes ≤ b.size - b.pos
    → (e : Bool) × (marshal_members start mds mem at b
        ≡ ok (record (advanced b bytes) { at_eof = e }, k + length bytes))
unfolding marshal_members
marshal_members-Carried mem at start k b no_members block p room =
    let same : splice b.buf b.pos [] ≡ b.buf = splice_nothing b.buf b.pos in
    let q : b.pos + 0 ≡ b.pos = omega arith in
    let d : sub_size b.pos start ≡ k + 0 = omega arith in (b.at_eof, rw (same, q, d) refl)
marshal_members-Carried mem at start k b
      (a_member name type offset m fields bytes {mds} {rest} {more} {max} c cs) block p room =
    let len = length-append bytes more in
    let (e, w) = c.written b block (omega (arith, len)) in
    let b' : Block = record (advanced b bytes) { at_eof = e } in
    let block' : IsBlock b' =
      flagged-IsBlock (advanced b bytes) e (advanced-IsBlock b bytes block (omega (arith, len))) in
    let (e', r) =
      marshal_members-Carried mem at start (k + length bytes) b' cs block' (omega arith)
        (omega (arith, len)) in
    let least = c.some_bytes in
    let count : k + length bytes + length more ≡ k + length (bytes ++ more) = omega (arith, len) in
    let went : (length bytes == 0) ≡ false = ground arith in
    let joined = advanced-advanced b bytes more block (omega (arith, len)) in
    (e', rw (w, went) (r ∙ λ i. ok (record (joined i) { at_eof = e' }, count i)))

demarshal_members-Carried :
    (mem : Memory) (at start k : ℕ) {mds : List MemberDesc} {fields bytes : List ℕ} {max : ℕ}
    (b : Block) (to : Memory) (dst : ℕ)
    → AllCarried mem at mds fields bytes max
    → IsBlock b
    → b.pos ≡ start + k
    → StandsAt b bytes
    → (e : Bool) × (demarshal_members start mds b to dst
        ≡ ok (
          record b { pos = b.pos + length bytes; at_eof = e },
          copy_fields fields mem at to dst,
          k + length bytes,
        ))
unfolding demarshal_members
demarshal_members-Carried mem at start k b to dst no_members block p stands =
    let q : b.pos + 0 ≡ b.pos = omega arith in
    let d : sub_size b.pos start ≡ k + 0 = omega arith in (b.at_eof, rw (q, d) refl)
demarshal_members-Carried mem at start k b to dst
      (a_member name type offset m fields bytes {mds} {rest} {more} {max} c cs) block p stands =
    let len = length-append bytes more in
    let room = StandsAt-room b (bytes ++ more) block stands in
    let (e, w) = c.read_back b to (dst + offset) block (StandsAt-first b bytes more stands) in
    let b' : Block = record b { pos = b.pos + length bytes; at_eof = e } in
    let to' = copy_fields fields mem (at + offset) to (dst + offset) in
    let block' : IsBlock b' =
      flagged-IsBlock (skipped b (length bytes)) e
        (skipped-IsBlock b (length bytes) block (omega (arith, len))) in
    let stands' : StandsAt b' more =
      flagged-StandsAt (skipped b (length bytes)) e more (StandsAt-skipped b bytes more stands) in
    let (e', r) =
      demarshal_members-Carried mem at start (k + length bytes) b' to' dst cs block' (omega arith)
        stands' in
    let least = c.some_bytes in
    let went : (length bytes == 0) ≡ false = ground arith in
    let count : k + length bytes + length more ≡ k + length (bytes ++ more) = omega (arith, len) in
    let position : b.pos + length bytes + length more ≡ b.pos + length (bytes ++ more) =
      omega (arith, len) in
    let copied = copy_fields-fields_at offset fields rest mem at to dst in
    (
      e',
      rw (w, went)
          (r ∙ λ i. ok (record b { pos = position i; at_eof = e' }, sym copied i, count i)),
    )

-- A value that is already the source's stays so.
copy_fields-keeps :
    (fields : List ℕ) (mem : Memory) (at : ℕ) (to : Memory) (dst o : ℕ)
    → to (dst + o) ≡ mem (at + o)
    → copy_fields fields mem at to dst (dst + o) ≡ mem (at + o)
copy_fields-keeps [] mem at to dst o e = e
copy_fields-keeps (o' ∷ os) mem at to dst o e =
    copy_fields-keeps os mem at (set to (dst + o') (mem (at + o'))) dst o
      (elim (Bool-cases (dst + o == dst + o')) [
        | inl t ↦ let q : o' ≡ o = ground arith in rw t (ap (λ n. mem (at + n)) q)
        | inr f ↦ rw f e
      ])

pub copy_fields-copies :
    (fields : List ℕ) (mem : Memory) (at : ℕ) (to : Memory) (dst : ℕ)
    → All (λ o. copy_fields fields mem at to dst (dst + o) ≡ mem (at + o)) fields
copy_fields-copies [] mem at to dst = tt
copy_fields-copies (o ∷ os) mem at to dst =
    let here : (dst + o == dst + o) ≡ true = ground arith in
    let e : set to (dst + o) (mem (at + o)) (dst + o) ≡ mem (at + o) = rw here refl in
    (
      copy_fields-keeps os mem at (set to (dst + o) (mem (at + o))) dst o e,
      copy_fields-copies os mem at (set to (dst + o) (mem (at + o))) dst,
    )

announced_members :
    (mem : Memory) (at : ℕ) {mds : List MemberDesc} {fields bytes : List ℕ} {max : ℕ}
    → AllCarried mem at mds fields bytes max
    → length bytes ≤ max
announced_members mem at no_members = omega arith
announced_members mem at (a_member name type offset m fields bytes {mds} {rest} {more} c cs) =
    omega (arith, announced_members mem at cs, c.announced, length-append bytes more)

-- A structure of members that are carried is carried, if it announces what its members announce: a
-- structure can be a member of another.
pub type_object-Carries :
    (construct : Memory → ℕ → Memory) (t : TypeMarshal) (mem : Memory) (at : ℕ)
    (fields bytes : List ℕ) (max : ℕ)
    → AllCarried mem at t.descs.items fields bytes max
    → max ≤ t.max_marshalled_size
    → 0 < length bytes
    → Carries (type_object construct t) mem at fields bytes
unfolding type_object marshal demarshal
type_object-Carries construct t mem at fields bytes max cs announced least = record {
  some_bytes = least;
  announced = omega (arith, announced_members mem at cs);
  written = λ b block room.
      let (e, r) = marshal_members-Carried mem at b.pos 0 b cs block (omega arith) room in
      (e, r ∙ ap (λ n. ok (record (advanced b bytes) { at_eof = e }, n)) (omega arith));
  read_back = λ b to dst block stands.
      let (e, r) =
        demarshal_members-Carried mem at b.pos 0 b to dst cs block (omega arith) stands in
      (
        e,
        r
            ∙ ap
                (λ n. ok (
                  record b { pos = b.pos + length bytes; at_eof = e },
                  copy_fields fields mem at to dst,
                  n,
                ))
                (omega arith),
      );
}

-- Whatever is carried comes back: what is written takes no more bytes than announced, and from its
-- place it is read to any address, each field to its offset, over the same bytes.
pub carried_round_trip :
    (m : IMarshaller) (mem : Memory) (at : ℕ) (fields bytes : List ℕ) (b : Block) (to : Memory)
    (dst : ℕ)
    → Carries m mem at fields bytes
    → IsBlock b
    → m.max_marshalled_size ≤ b.size - b.pos
    → (b' : Block) × (to' : Memory) × (e : Bool) × (m.marshal mem at b ≡ ok (b', length bytes))
      × (m.demarshal (seek b' b.pos) to dst ≡ ok (record b' { at_eof = e }, to', length bytes))
      × (length bytes ≤ m.max_marshalled_size)
      × All (λ o. to' (dst + o) ≡ mem (at + o)) fields
unfolding seek
carried_round_trip m mem at fields bytes b to dst c block room =
    let announced = c.announced in
    let (e, w) = c.written b block (omega arith) in
    let back : Block = record (advanced b bytes) { pos = b.pos } in
    let (e', r) =
      c.read_back back to dst (at_start-IsBlock b bytes block (omega arith))
        (advanced-StandsAt b bytes block) in
    (
      record (advanced b bytes) { at_eof = e },
      copy_fields fields mem at to dst,
      e',
      w,
      r,
      c.announced,
      copy_fields-copies fields mem at to dst,
    )

-- For a structure whose members have their marshallers and are carried by them, some bytes in
-- all, and which announces at least what its members do: where a well-formed block has the room
-- that it announces, marshal writes the bytes of the members, and demarshal at their place reads
-- each field, those of nested structures included, to its offset from any address.
pub demarshal-marshal_type :
    (t : TypeMarshal) (mem : Memory) (at : ℕ) (fields bytes : List ℕ) (max : ℕ) (b : Block)
    (to : Memory) (dst : ℕ)
    → AllCarried mem at t.descs.items fields bytes max
    → 0 < length bytes
    → max ≤ t.max_marshalled_size
    → IsBlock b
    → t.max_marshalled_size ≤ b.size - b.pos
    → (b' : Block) × (to' : Memory) × (e : Bool) × (marshal t mem at b ≡ ok (b', length bytes))
      × (demarshal t (seek b' b.pos) to dst ≡ ok (record b' { at_eof = e }, to', length bytes))
      × (length bytes ≤ t.max_marshalled_size)
      × All (λ o. to' (dst + o) ≡ mem (at + o)) fields
unfolding type_object
demarshal-marshal_type t mem at fields bytes max b to dst cs least announced block room =
    carried_round_trip (type_object (λ m _. m) t) mem at fields bytes b to dst
      (type_object-Carries (λ m _. m) t mem at fields bytes max cs announced least) block room

-- ===== src/Marshal/Interface.antt =====
-- class IMarshaller of src/etwork/marshal.h: the operations of a marshaller, the memory that they read
-- and write, and what it is for a marshaller to carry an object from one place to another.
use etwork.Common.{ℕ, ◌+◌, ◌-◌, ◌≤◌, ◌<◌, Bool, List, [], ◌∷◌, ◌≡◌, length, ◌==◌, if◌then◌else◌}
use etwork.Common.Int.{ℤ}
use etwork.Block.{Block, IsBlock}
use etwork.Marshal.{Result, ok}
use etwork.Marshal.Cursor.{advanced, StandsAt}

-- What stands at an address: an int, an unsigned int, an unsigned long long or the bit pattern of a
-- double, a bool, a std::string, or nothing that a marshaller reads.
pub data Value : Type 0 where
  int_value : ℤ → Value
  uint_value : ℕ → Value
  uint64_value : ℕ → Value
  bool_value : Bool → Value
  string_value : List ℕ → Value
  no_value : Value

abbrev pub Memory : Type 0
Memory = ℕ → Value

abbrev pub set : Memory → ℕ → Value → Memory
set mem at value = λ a. if a == at then value else mem a

-- The virtual functions. The result 0 is a failure, with the block and the memory as it leaves them.
pub record IMarshaller : Type 0 where
  pub marshal : Memory → ℕ → Block → Result (Block × ℕ)
  pub demarshal : Block → Memory → ℕ → Result (Block × Memory × ℕ)
  pub construct : Memory → ℕ → Memory
  pub instance_size : ℕ
  pub max_marshalled_size : ℕ

-- The values at some offsets from an address, copied to the same offsets from another address.
abbrev pub copy_fields : List ℕ → Memory → ℕ → Memory → ℕ → Memory
copy_fields [] mem at to dst = to
copy_fields (o ∷ os) mem at to dst = copy_fields os mem at (set to (dst + o) (mem (at + o))) dst

-- The marshaller writes the object at an address as the given bytes wherever there is room, returns
-- how many, and no more than it announces; and from where the bytes stand it reads the object to any
-- address.
pub record Carries (m : IMarshaller) (mem : Memory) (at : ℕ) (fields bytes : List ℕ) : Type 0 where
  pub some_bytes : 0 < length bytes
  pub announced : length bytes ≤ m.max_marshalled_size
  pub written :
      (b : Block)
      → IsBlock b
      → length bytes ≤ b.size - b.pos
      → (e : Bool) × (m.marshal mem at b
          ≡ ok (record (advanced b bytes) { at_eof = e }, length bytes))
  pub read_back :
      (b : Block) (to : Memory) (dst : ℕ)
      → IsBlock b
      → StandsAt b bytes
      → (e : Bool) × (m.demarshal b to dst
          ≡ ok (
            record b { pos = b.pos + length bytes; at_eof = e },
            copy_fields fields mem at to dst,
            length bytes,
          ))

-- ===== src/Marshal/Text.antt =====
-- class StringMarshaller of src/lib/marshal.cpp: the length of a string and its characters.
pub mod RoundTrip
use etwork.Common.{ℕ, Bool, true, false, Option, none, some, List, ◌++◌, length, ltb, if◌then◌else◌}
use etwork.Common.Bytes.{add_size}
use etwork.Common.Int.{ℤ, pos, to_signed, to_unsigned}
use etwork.Block.{Block, left, seek, write}
use etwork.Marshal.{Result, ok, err, ◌>>=◌, invalid_argument}
use etwork.Marshal.Cursor.{peek}
use etwork.Marshal.Int.{IntMarshaller, set_range}
use etwork.Marshal.Int as Int

pub record StringMarshaller : Type 0 where
  pub int_marshaller : IntMarshaller
  pub max_size : ℕ

unfoldable pub string_marshaller : ℕ → StringMarshaller
string_marshaller max_size = record {
  int_marshaller = set_range (pos 0) (to_signed max_size);
  max_size = max_size;
}

-- What follows the length, in the block where the length has been written.
unfoldable pub write_chars : StringMarshaller → List ℕ → Block × ℕ → Block × ℕ
write_chars m s (dst, _) = ((write dst s).0, add_size (length s) m.int_marshaller.bytes)

unfoldable pub marshal : StringMarshaller → List ℕ → Block → Result (Block × ℕ)
marshal m s dst =
    if ltb m.max_size (length s)
    then err invalid_argument
    else if ltb (left dst) (add_size m.int_marshaller.bytes (length s))
    then ok (dst, 0)
    else (Int.marshal m.int_marshaller (to_signed (length s)) dst >>= λ r. ok (write_chars m s r))

-- What follows the length that was read, or the failure to read it; `start` is where it stood.
unfoldable pub read_chars :
    StringMarshaller → ℕ → Block × Option (ℤ × ℕ) → Block × Option (List ℕ × ℕ)
read_chars m start (src, none) = (src, none)
read_chars m start (src, some (i, _)) =
    let n = to_unsigned i in
    if ltb (left src) n
    then (seek src start, none)
    else (seek src (add_size src.pos n), some (peek src n, add_size m.int_marshaller.bytes n))

unfoldable pub demarshal : StringMarshaller → Block → Result (Block × Option (List ℕ × ℕ))
demarshal m src = Int.demarshal m.int_marshaller src >>= λ r. ok (read_chars m src.pos r)

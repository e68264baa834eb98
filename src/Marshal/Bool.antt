-- ===== src/Marshal/Bool.antt =====
-- class BoolMarshaller of src/lib/marshal.cpp: a byte that is 0 for false.
use etwork.Common.{ℕ, Bool, Option, none, some, List, [], ◌∷◌, ltb, ◌==◌, if◌then◌else◌, not}
use etwork.Block.{Block, left, read, write}
use etwork.Marshal.{Result, ok}

abbrev pub byte_of : Bool → ℕ
byte_of v = if v then 1 else 0

unfoldable pub marshal : Bool → Block → Result (Block × ℕ)
marshal v dst = if ltb (left dst) 1 then ok (dst, 0) else ok (write dst (byte_of v ∷ []))

-- The block that Block::read leaves, whether it read the byte or not.
unfoldable pub got : Block × List ℕ × ℕ → Block × Option (Bool × ℕ)
got (src, [], n) = (src, none)
got (src, c ∷ _, n) = (src, if n == 0 then none else some (not (c == 0), 1))

unfoldable pub demarshal : Block → Result (Block × Option (Bool × ℕ))
demarshal src = ok (got (read src 1))

-- ===== src/Marshal/Uint.antt =====
-- class UintMarshaller of src/lib/marshal.cpp: an unsigned int of a number of bits.
pub mod RoundTrip
use etwork.Common.{
  ℕ, zero, suc, ◌+◌, ◌-◌, ◌*◌, ◌%◌, ◌^◌, ◌≤◌, ◌<◌, Bool, true, false, Option, none, some, List, ltb,
  leb, if◌then◌else◌,
}
use etwork.Common.Bytes.{add_size}
use etwork.Block.{Block, left, seek}
use etwork.Marshal.{Result, ok, err, invalid_argument}
use etwork.Marshal.Word.{write_word, word_at}

pub record UintMarshaller : Type 0 where
  pub bits : ℕ
  pub bytes : ℕ

-- while( bytes_ < sizeof(unsigned int) ) { if( bytes_*8 >= bits ) break; ++bytes_; }, with the number
-- of rounds that the test allows.
unfoldable pub count_bytes : ℕ → ℕ → ℕ → ℕ
count_bytes zero bits bytes = bytes
count_bytes (suc rounds) bits bytes =
    let more = count_bytes rounds bits (bytes + 1) in if leb bits (bytes * 8) then bytes else more

unfoldable pub set_bits : ℕ → UintMarshaller
set_bits bits = record { bits = bits; bytes = count_bytes 3 bits 1 }

-- (1ULL << bits) - 1. A shift by 64 or more is undefined in C++; the shift of 32-bit Visual C++
-- gives 0 for it, as here.
unfoldable pub all_ones : ℕ → ℕ
all_ones bits = (2 ^ bits % 2 ^ 64 + 2 ^ 64 - 1) % 2 ^ 64

-- The same as an unsigned int.
unfoldable pub limit : ℕ → ℕ
limit bits = all_ones bits % 2 ^ 32

unfoldable pub marshal : UintMarshaller → ℕ → Block → Result (Block × ℕ)
marshal m v dst =
    if ltb (limit m.bits) v then err invalid_argument else ok (write_word m.bytes v dst)

unfoldable pub demarshal : UintMarshaller → Block → Result (Block × Option (ℕ × ℕ))
demarshal m src =
    if ltb (left src) m.bytes
    then ok (src, none)
    else (let v = word_at (2 ^ 32) m.bytes src in
        if ltb (limit m.bits) v
        then err invalid_argument
        else ok (seek src (add_size src.pos m.bytes), some (v, m.bytes)))

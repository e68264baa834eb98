-- ===== src/Marshal/Uint64.antt =====
-- classes Uint64Marshaller and DoubleMarshaller of src/lib/marshal.cpp: an unsigned long long of a
-- number of bits, and the bit pattern of a double.
use etwork.Common.{
  ℕ, ◌+◌, ◌-◌, ◌/◌, ◌^◌, ◌≤◌, ◌<◌, true, false, Option, none, some, [], ◌≡◌, refl, ap, ◌∙◌, arith,
  ltb, if◌then◌else◌,
}
use etwork.Common.Bytes.{add_size}
use etwork.Block.{Block, IsBlock, left, seek}
use etwork.Marshal.{Result, ok, err, invalid_argument}
use etwork.Marshal.Digits.{put_bytes}
use etwork.Marshal.Cursor.{skipped, StandsAt}
use etwork.Marshal.Word.{
  write_word, word_at, with_word, write_word_room, word_at_stands, word_enough, seek_word, at_word,
  at_word-IsBlock, at_word-StandsAt, skipped-at_word,
}
use etwork.Marshal.Uint.{all_ones}
use etwork.Marshal.Uint.RoundTrip.{2^_fits, 256^_le}
use native.Mathlib.Nat.{pow-le-pow_right, one-le-pow}

pub record Uint64Marshaller : Type 0 where
  pub bits : ℕ
  pub bytes : ℕ

-- After assert( bits >= 0 && bits <= 64 ), which is not compiled into a release build.
unfoldable pub set_bits : ℕ → Uint64Marshaller
set_bits bits = record { bits = bits; bytes = (bits + 7) / 8 }

unfoldable pub marshal : Uint64Marshaller → ℕ → Block → Result (Block × ℕ)
marshal m v dst =
    if ltb (all_ones m.bits) v then err invalid_argument else ok (write_word m.bytes v dst)

-- Without a check of the value that was read.
unfoldable pub demarshal : Uint64Marshaller → Block → Result (Block × Option (ℕ × ℕ))
demarshal m src =
    if ltb (left src) m.bytes
    then ok (src, none)
    else ok (seek src (add_size src.pos m.bytes), some (word_at (2 ^ 64) m.bytes src, m.bytes))

-- DoubleMarshaller() : int_(64)
abbrev pub double_marshaller : Uint64Marshaller
double_marshaller = set_bits 64

unfoldable pub marshal_double : ℕ → Block → Result (Block × ℕ)
marshal_double pattern dst = marshal double_marshaller pattern dst

unfoldable pub demarshal_double : Block → Result (Block × Option (ℕ × ℕ))
demarshal_double src = demarshal double_marshaller src

all_ones_bits : (bits : ℕ) → bits ≤ 64 → all_ones bits ≡ 2 ^ bits - 1
unfolding all_ones
all_ones_bits bits h =
    let p : 2 ^ bits ≤ 2 ^ 64 = pow-le-pow_right (omega arith) h in
    let q : 1 ≤ 2 ^ bits = one-le-pow bits 2 (omega arith) in omega arith

pub fits_bits : (bits v : ℕ) → v < 2 ^ bits → v < 256 ^ (set_bits bits).bytes
unfolding set_bits
fits_bits bits v k = 2^_fits bits ((bits + 7) / 8) v (omega arith) k

few_bytes : (bits : ℕ) → bits ≤ 64 → 256 ^ (set_bits bits).bytes ≤ 2 ^ 64
unfolding set_bits
few_bytes bits h = 256^_le ((bits + 7) / 8) 8 (omega arith)

allows : (bits v : ℕ) → bits ≤ 64 → v < 2 ^ bits → ltb (all_ones (set_bits bits).bits) v ≡ false
unfolding set_bits
allows bits v h k = let l = all_ones_bits bits h in ground arith

pub marshal_uint64_room :
    (bits v : ℕ) (b : Block)
    → bits ≤ 64
    → v < 2 ^ bits
    → IsBlock b
    → (set_bits bits).bytes ≤ b.size - b.pos
    → marshal (set_bits bits) v b ≡ ok (with_word (set_bits bits).bytes v b, (set_bits bits).bytes)
unfolding marshal
marshal_uint64_room bits v b h k block room =
    rw (allows bits v h k) (ap ok (write_word_room (set_bits bits).bytes v b block room))

-- Whatever fits into the bytes is read, within the bits or not.
pub demarshal_uint64_stands :
    (bits v : ℕ) (b : Block)
    → bits ≤ 64
    → v < 256 ^ (set_bits bits).bytes
    → IsBlock b
    → StandsAt b (put_bytes (set_bits bits).bytes v [])
    → demarshal (set_bits bits) b
      ≡ ok (skipped b (set_bits bits).bytes, some (v, (set_bits bits).bytes))
unfolding demarshal
demarshal_uint64_stands bits v b h fits block stands =
    let c = (set_bits bits).bytes in
    let word = word_at_stands (2 ^ 64) c v b stands fits (few_bytes bits h) in
    rw (word_enough c v b block stands, word, seek_word c v b block stands) refl

-- Each value of up to 64 bits, in a well-formed block with room for it, comes back from where it
-- was written, and both operations return (bits + 7) / 8.
pub demarshal-marshal_uint64 :
    (bits v : ℕ) (b : Block)
    → bits ≤ 64
    → v < 2 ^ bits
    → IsBlock b
    → (set_bits bits).bytes ≤ b.size - b.pos
    → (b' : Block) × (marshal (set_bits bits) v b ≡ ok (b', (bits + 7) / 8))
      × (demarshal (set_bits bits) (seek b' b.pos) ≡ ok (b', some (v, (bits + 7) / 8)))
unfolding set_bits
demarshal-marshal_uint64 bits v b h k block room =
    let c = (set_bits bits).bytes in
    (
      with_word c v b,
      marshal_uint64_room bits v b h k block room,
      demarshal_uint64_stands bits v (at_word c v b) h (fits_bits bits v k)
            (at_word-IsBlock c v b block room) (at_word-StandsAt c v b block)
          ∙ ap (λ (d : Block). ok (d, some (v, c))) (skipped-at_word c v b),
    )

-- A value of 2^bits or more, for up to 64 bits, that the bytes still hold is refused by marshal,
-- with an exception, but is read by demarshal where it stands in a well-formed block.
pub uint64_unchecked :
    (bits v : ℕ) (dst src : Block)
    → bits ≤ 64
    → 2 ^ bits ≤ v
    → v < 256 ^ (set_bits bits).bytes
    → IsBlock src
    → StandsAt src (put_bytes (set_bits bits).bytes v [])
    → (marshal (set_bits bits) v dst ≡ err invalid_argument)
      × (demarshal (set_bits bits) src
          ≡ ok (skipped src (set_bits bits).bytes, some (v, (set_bits bits).bytes)))
unfolding marshal set_bits
uint64_unchecked bits v dst src h k fits block stands =
    let l = all_ones_bits bits h in
    let q : 1 ≤ 2 ^ bits = one-le-pow bits 2 (omega arith) in
    let beyond : ltb (all_ones bits) v ≡ true = ground arith in
    (rw beyond refl, demarshal_uint64_stands bits v src h fits block stands)

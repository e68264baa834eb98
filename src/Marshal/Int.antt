-- ===== src/Marshal/Int.antt =====
-- class IntMarshaller of src/lib/marshal.cpp: an int in a range, in the fewest bytes for the range.
pub mod RoundTrip
use etwork.Common.{
  ℕ, zero, suc, ◌+◌, ◌-◌, ◌*◌, ◌%◌, ◌^◌, ◌≤◌, ◌<◌, Bool, true, false, ◌||◌, Option, none, some,
  List, [], ◌∷◌, ◌≡◌, refl, ◌⊎◌, inl, inr, arith, length, take, ltb, ◌==◌, if◌then◌else◌,
  Bool-cases,
}
use etwork.Common.Bytes.{add_size}
use etwork.Common.Int.{
  ℤ, pos, negsuc, ◌≤ℤ◌, ltb_ℤ, pos_part, neg_part, to_unsigned, to_signed, IsInt,
}
use etwork.Block.{Block, left, seek}
use etwork.Marshal.{Result, ok, err, invalid_argument}
use etwork.Marshal.Digits.{put_bytes, get_bytes}
use etwork.Marshal.Cursor.{put_at, peek}

pub record IntMarshaller : Type 0 where
  pub min : ℤ
  pub max : ℤ
  pub bytes : ℕ

-- max_ - min_ as an int. A difference that is no int is undefined in C++; it wraps, as on the platform
-- that the library is for.
unfoldable pub range : ℤ → ℤ → ℤ
range min max = to_signed ((to_unsigned max + 2 ^ 32 - to_unsigned min) % 2 ^ 32)

-- while( bytes_ < sizeof(int) ) { if( 1<<(bytes_*8) > (max_-min_) ) break; ++bytes_; }, with the
-- number of rounds that the test allows.
unfoldable pub count_bytes : ℕ → ℤ → ℕ → ℕ
count_bytes zero range bytes = bytes
count_bytes (suc rounds) range bytes =
    let more = count_bytes rounds range (bytes + 1) in
    if ltb_ℤ range (pos (2 ^ (bytes * 8))) then bytes else more

unfoldable pub set_range : ℤ → ℤ → IntMarshaller
unfolding range count_bytes
set_range min max = record { min = min; max = max; bytes = count_bytes 3 (range min max) 1 }

abbrev pub out_of_bounds : IntMarshaller → ℤ → Bool
out_of_bounds m v = ltb_ℤ v m.min || ltb_ℤ m.max v

unfoldable pub marshal : IntMarshaller → ℤ → Block → Result (Block × ℕ)
marshal m v dst =
    if out_of_bounds m v
    then err invalid_argument
    else if ltb (left dst) m.bytes
    then ok (dst, 0)
    else ok (put_at dst (put_bytes m.bytes (to_unsigned v) []), m.bytes)

-- unsigned int ret of the bytes, with min_ added, as an int.
unfoldable pub decode : IntMarshaller → List ℕ → ℤ
decode m bytes = to_signed ((get_bytes (2 ^ 32) bytes 0 + to_unsigned m.min) % 2 ^ 32)

-- `none` is the result 0, with the destination left alone.
unfoldable pub demarshal : IntMarshaller → Block → Result (Block × Option (ℤ × ℕ))
demarshal m src =
    if ltb (left src) m.bytes
    then ok (src, none)
    else (let v = decode m (peek src m.bytes) in
        if out_of_bounds m v
        then err invalid_argument
        else ok (seek src (add_size src.pos m.bytes), some (v, m.bytes)))

-- max - min of two ints.
abbrev pub width : ℤ → ℤ → ℕ
width min max = (pos_part max + neg_part min) - (pos_part min + neg_part max)

range-width :
    (min max : ℤ)
    → IsInt min
    → IsInt max
    → min ≤ℤ max
    → width min max < 2 ^ 31
    → range min max ≡ pos (width min max)
unfolding range
range-width (pos m) (pos n) a b c d = ground arith
range-width (pos m) (negsuc n) a b c d = absurd (omega arith)
range-width (negsuc m) (pos n) a b c d = ground arith
range-width (negsuc m) (negsuc n) a b c d = ground arith

count_bytes_least :
    (d : ℕ)
    → d < 2 ^ 31
    → let c = count_bytes 3 (pos d) 1 in
      (d < 256 ^ c) × (1 ≤ c) × (c ≤ 4) × ((c ≡ 1) ⊎ (256 ^ (c - 1) ≤ d))
unfolding count_bytes
count_bytes_least d h = elim (Bool-cases (ltb (d + 0) 256)) [
  | inl a ↦ rw a (ground arith, omega arith, omega arith, inl refl)
  | inr a ↦ elim (Bool-cases (ltb (d + 0) 65536)) [
    | inl b ↦ rw (a, b) (ground arith, omega arith, omega arith, inr (ground arith))
    | inr b ↦ elim (Bool-cases (ltb (d + 0) 16777216)) [
      | inl c ↦ rw (a, b, c) (ground arith, omega arith, omega arith, inr (ground arith))
      | inr c ↦ rw (a, b, c) (omega arith, omega arith, omega arith, inr (ground arith))
    ]
  ]
]

-- setRange takes from 1 to 4 bytes, enough for max - min, and no more than it needs, if the range is
-- that of an int.
pub set_range_bytes :
    (min max : ℤ)
    → IsInt min
    → IsInt max
    → min ≤ℤ max
    → width min max < 2 ^ 31
    → let c = (set_range min max).bytes in
      (width min max < 256 ^ c) × (1 ≤ c) × (c ≤ 4) × ((c ≡ 1) ⊎ (256 ^ (c - 1) ≤ width min max))
unfolding set_range
set_range_bytes min max a b c d =
    rw (range-width min max a b c d) (count_bytes_least (width min max) d)

-- Where max - min is not an int, and wraps to a negative number (C++ leaves it undefined), one byte
-- is taken for it: with the whole range of int, for instance.
pub set_range_wide :
    (min max : ℤ)
    → IsInt min
    → IsInt max
    → min ≤ℤ max
    → 2 ^ 31 ≤ width min max
    → (set_range min max).bytes ≡ 1
unfolding set_range range count_bytes
set_range_wide (pos m) (pos n) a b c d = absurd (omega arith)
set_range_wide (pos m) (negsuc n) a b c d = absurd (omega arith)
set_range_wide (negsuc m) (pos n) a b c d = ground arith
set_range_wide (negsuc m) (negsuc n) a b c d = absurd (omega arith)

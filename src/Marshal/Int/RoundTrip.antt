-- ===== src/Marshal/Int/RoundTrip.antt =====
-- class IntMarshaller of src/lib/marshal.cpp: what demarshal makes of what marshal wrote.
use etwork.Common.{
  ℕ, zero, suc, ◌+◌, ◌-◌, ◌%◌, ◌^◌, ◌≤◌, ◌<◌, false, Option, some, List, [], ◌≡◌, refl, ap, sym,
  ◌∙◌, ◌≢◌, arith, length, ltb, if◌then◌else◌,
}
use etwork.Common.Bytes.{add_size}
use etwork.Common.Int.{ℤ, pos}
use etwork.Block.{Block, IsBlock, left, seek}
use etwork.Block.Stream.{left-IsBlock}
use etwork.Marshal.{Result, ok, err, invalid_argument}
use etwork.Marshal.Digits.{put_bytes, length-put_bytes, get_bytes-put_bytes}
use etwork.Marshal.Cursor.{
  peek, advanced, skipped, put_at_lem, StandsAt, StandsAt-peek, StandsAt-room, advanced-StandsAt,
  at_start-IsBlock,
}
use etwork.Marshal.Int.{IntMarshaller, set_range, set_range_bytes, marshal, demarshal, decode}

-- A marshaller of the numbers from lo to hi, both at least 0.
abbrev pub between : ℕ → ℕ → IntMarshaller
between lo hi = set_range (pos lo) (pos hi)

-- A marshaller of numbers from 0, as StringMarshaller has one.
abbrev pub from_zero : ℕ → IntMarshaller
from_zero max = between 0 max

between_min : (lo hi : ℕ) → (between lo hi).min ≡ pos lo
unfolding set_range
between_min lo hi = refl

between_max : (lo hi : ℕ) → (between lo hi).max ≡ pos hi
unfolding set_range
between_max lo hi = refl

-- The bytes of a number.
abbrev pub digits : IntMarshaller → ℕ → List ℕ
digits m v = put_bytes m.bytes v []

pub 256^_le : (c : ℕ) → c ≤ 4 → 256 ^ c ≤ 2 ^ 32
256^_le zero h = omega arith
256^_le (suc zero) h = omega arith
256^_le (suc (suc zero)) h = omega arith
256^_le (suc (suc (suc zero))) h = omega arith
256^_le (suc (suc (suc (suc zero)))) h = omega arith
256^_le (suc (suc (suc (suc (suc c))))) h = absurd (omega arith)

-- What is read from the bytes of v is v and the minimum, not v.
decode-digits :
    (lo hi v : ℕ)
    → lo ≤ hi
    → hi < 2 ^ 30
    → v ≤ hi
    → v < 256 ^ (between lo hi).bytes
    → decode (between lo hi) (digits (between lo hi) v) ≡ pos (v + lo)
unfolding decode
decode-digits lo hi v a h k fits =
    let (_, _, few, _) =
      set_range_bytes (pos lo) (pos hi) (omega arith) (omega arith) (omega arith) (omega arith) in
    let back = get_bytes-put_bytes (between lo hi).bytes (2 ^ 32) v fits (256^_le _ few) in
    rw (back, between_min lo hi) (ground arith)

pub length-digits : (m : IntMarshaller) (v : ℕ) → length (digits m v) ≡ m.bytes
length-digits m v = omega (arith, length-put_bytes m.bytes v [])

marshal-between :
    (lo hi v : ℕ) (b : Block)
    → lo ≤ v
    → v ≤ hi
    → hi < 2 ^ 31
    → IsBlock b
    → (between lo hi).bytes ≤ b.size - b.pos
    → marshal (between lo hi) (pos v) b
      ≡ ok (advanced b (digits (between lo hi) v), (between lo hi).bytes)
unfolding marshal
marshal-between lo hi v b a c h block room =
    let m = between lo hi in
    let below : ltb (v + 0) (lo + 0) ≡ false = ground arith in
    let above : ltb (hi + 0) (v + 0) ≡ false = ground arith in
    let l = left-IsBlock b block in
    let enough : ltb (left b) m.bytes ≡ false = ground arith in
    let same : v % 2 ^ 32 ≡ v = omega arith in
    rw (between_min lo hi, between_max lo hi, below, above, enough, same)
      (ap (λ (d : Block). ok (d, m.bytes))
        (put_at_lem b (digits m v) block (omega (arith, length-digits m v))))

-- The sum of the value and the minimum, or the exception where that is out of bounds.
abbrev pub sum_or_throw : ℕ → ℕ → ℕ → Block → Result (Block × Option (ℤ × ℕ))
sum_or_throw lo hi v b =
    if ltb hi (v + lo)
    then err invalid_argument
    else ok (b, some (pos (v + lo), (between lo hi).bytes))

demarshal-between :
    (lo hi v : ℕ) (b : Block)
    → lo ≤ v
    → v ≤ hi
    → hi < 2 ^ 30
    → v < 256 ^ (between lo hi).bytes
    → IsBlock b
    → StandsAt b (digits (between lo hi) v)
    → demarshal (between lo hi) b ≡ sum_or_throw lo hi v (skipped b (between lo hi).bytes)
unfolding demarshal seek
demarshal-between lo hi v b a c h fits block stands =
    let m = between lo hi in
    let len = length-digits m v in
    let l = left-IsBlock b block in
    let room = StandsAt-room b (digits m v) block stands in
    let enough : ltb (left b) m.bytes ≡ false = ground arith in
    let bytes : peek b m.bytes ≡ digits m v =
      ap (peek b) (omega (arith, len)) ∙ StandsAt-peek b (digits m v) stands in
    let below : ltb (v + lo + 0) (lo + 0) ≡ false = ground arith in
    let plus : hi + 0 ≡ hi = omega arith in
    let plus' : v + lo + 0 ≡ v + lo = omega arith in
    let p : add_size b.pos m.bytes ≡ b.pos + m.bytes = omega arith in
    rw
      (
        enough,
        bytes,
        decode-digits lo hi v (omega arith) h c fits,
        between_min lo hi,
        between_max lo hi,
        below,
        p,
        plus,
        plus',
      )
      refl

-- A number as a marshaller of numbers from 0 writes it.
pub marshal-from_zero :
    (max v : ℕ) (b : Block)
    → v ≤ max
    → max < 2 ^ 30
    → IsBlock b
    → (from_zero max).bytes ≤ b.size - b.pos
    → marshal (from_zero max) (pos v) b
      ≡ ok (advanced b (digits (from_zero max) v), (from_zero max).bytes)
marshal-from_zero max v b h k block room =
    marshal-between 0 max v b (omega arith) h (omega arith) block room

fits_from_zero : (max v : ℕ) → v ≤ max → max < 2 ^ 30 → v < 256 ^ (from_zero max).bytes
fits_from_zero max v h k =
    let (fits, _, _, _) =
      set_range_bytes (pos 0) (pos max) (omega arith) (omega arith) (omega arith) (omega arith) in
    omega arith

-- And reads it.
pub demarshal-from_zero :
    (max v : ℕ) (b : Block)
    → v ≤ max
    → max < 2 ^ 30
    → IsBlock b
    → StandsAt b (digits (from_zero max) v)
    → demarshal (from_zero max) b
      ≡ ok (skipped b (from_zero max).bytes, some (pos v, (from_zero max).bytes))
demarshal-from_zero max v b h k block stands =
    let inside : ltb max (v + 0) ≡ false = ground arith in
    let same : v + 0 ≡ v = omega arith in
    demarshal-between 0 max v b (omega arith) h k (fits_from_zero max v h k) block stands
    ∙ rw (inside, same) refl

pub from_zero_positive : (max : ℕ) → max < 2 ^ 30 → 0 < (from_zero max).bytes
from_zero_positive max h =
    let (_, least, _, _) =
      set_range_bytes (pos 0) (pos max) (omega arith) (omega arith) (omega arith) (omega arith) in
    least

-- With a minimum of 0 and a maximum below 2^30, a value up to the maximum that marshal wrote to
-- a well-formed block with room for it is the value that demarshal reads at its place, and both
-- return the bytes of the range.
pub demarshal-marshal_from_zero :
    (max v : ℕ) (b : Block)
    → v ≤ max
    → max < 2 ^ 30
    → IsBlock b
    → (from_zero max).bytes ≤ b.size - b.pos
    → (b' : Block) × (marshal (from_zero max) (pos v) b ≡ ok (b', (from_zero max).bytes))
      × (demarshal (from_zero max) (seek b' b.pos) ≡ ok (b', some (pos v, (from_zero max).bytes)))
unfolding seek
demarshal-marshal_from_zero max v b h k block room =
    let m = from_zero max in
    let len = length-digits m v in
    let b' = advanced b (digits m v) in
    let at_start : Block = record b' { pos = b.pos } in
    (
      b',
      marshal-from_zero max v b h k block room,
      demarshal-from_zero max v at_start h k
            (at_start-IsBlock b (digits m v) block (omega (arith, len)))
            (advanced-StandsAt b (digits m v) block)
          ∙ ap (λ n. ok (record b' { pos = n }, some (pos v, m.bytes))) (omega (arith, len)),
    )

-- With a minimum above 0 and a maximum below 2^30, where a value in range fits the bytes and the
-- block has room, demarshal adds the minimum to what marshal wrote: it throws where the sum is
-- out of bounds, and gives the sum, never the value, where it is not.
pub demarshal-marshal_shifted :
    (lo hi v : ℕ) (b : Block)
    → 0 < lo
    → lo ≤ v
    → v ≤ hi
    → hi < 2 ^ 30
    → v < 256 ^ (between lo hi).bytes
    → IsBlock b
    → (between lo hi).bytes ≤ b.size - b.pos
    → (b' : Block) × (marshal (between lo hi) (pos v) b ≡ ok (b', (between lo hi).bytes))
      × (demarshal (between lo hi) (seek b' b.pos) ≡ sum_or_throw lo hi v b')
      × (demarshal (between lo hi) (seek b' b.pos) ≢ ok (b', some (pos v, (between lo hi).bytes)))
unfolding seek
demarshal-marshal_shifted lo hi v b p a c h fits block room =
    let m = between lo hi in
    let len = length-digits m v in
    let b' = advanced b (digits m v) in
    let at_start : Block = record b' { pos = b.pos } in
    let back : demarshal m at_start ≡ sum_or_throw lo hi v b' =
      demarshal-between lo hi v at_start a c h fits
        (at_start-IsBlock b (digits m v) block (omega (arith, len)))
        (advanced-StandsAt b (digits m v) block)
      ∙ ap (λ n. sum_or_throw lo hi v (record b' { pos = n })) (omega (arith, len)) in
    (
      b',
      marshal-between lo hi v b a c (omega arith) block room,
      back,
      λ e. other _ _ (sym back ∙ e),
    )
  where
    other : (d e : Block) → sum_or_throw lo hi v d ≡ ok (e, some (pos v, (between lo hi).bytes)) → ⊥
    other d e q = ground arith

-- ===== src/Marshal/Text/RoundTrip.antt =====
-- class StringMarshaller of src/lib/marshal.cpp: what demarshal makes of what marshal wrote.
use etwork.Common.{
  ℕ, ◌+◌, ◌-◌, ◌%◌, ◌^◌, ◌≤◌, ◌<◌, true, false, none, some, List, ◌++◌, ◌≡◌, refl, ap, subst, ◌∙◌,
  arith, length, ltb, length-append,
}
use etwork.Common.Bytes.{add_size}
use etwork.Common.Int.{pos, to_signed}
use etwork.Block.{Block, IsBlock, left, seek}
use etwork.Block.Stream.{left-IsBlock, write_fits}
use etwork.Marshal.{ok}
use etwork.Marshal.Cursor.{
  advanced, skipped, advanced-advanced, skipped-skipped, advanced-IsBlock, skipped-IsBlock,
  StandsAt, StandsAt-peek, StandsAt-first, StandsAt-skipped, StandsAt-room, advanced-StandsAt,
  at_start-IsBlock,
}
use etwork.Marshal.Int.{set_range}
use etwork.Marshal.Int.RoundTrip.{
  from_zero, digits, marshal-from_zero, demarshal-from_zero, length-digits,
}
use etwork.Marshal.Int.{set_range_bytes}
use etwork.Marshal.Text.{
  StringMarshaller, string_marshaller, write_chars, read_chars, marshal, demarshal,
}

-- The bytes of a string.
abbrev pub encoded : ℕ → List ℕ → List ℕ
encoded max s = digits (from_zero max) (length s) ++ s

pub length-encoded :
    (max : ℕ) (s : List ℕ) → length (encoded max s) ≡ (from_zero max).bytes + length s
length-encoded max s = omega (
  arith,
  length-append (digits (from_zero max) (length s)) s,
  length-digits (from_zero max) (length s),
)

-- The range of the length is from 0 to the maximum, if that is an int.
pub ranged :
    (max : ℕ)
    → max < 2 ^ 30
    → string_marshaller max ≡ record { int_marshaller = from_zero max; max_size = max }
unfolding string_marshaller
ranged max h =
    let e : to_signed max ≡ pos max = ground arith in
    ap (λ n. record { int_marshaller = set_range (pos 0) n; max_size = max }) e

pub few : (max : ℕ) → max < 2 ^ 30 → (from_zero max).bytes ≤ 4
few max h =
    let (_, _, c, _) =
      set_range_bytes (pos 0) (pos max) (omega arith) (omega arith) (omega arith) (omega arith) in
    c

write_chars-advanced :
    (max : ℕ) (s : List ℕ) (b : Block) (n : ℕ)
    → max < 2 ^ 30
    → length s ≤ max
    → IsBlock b
    → (from_zero max).bytes + length s ≤ b.size - b.pos
    → write_chars
        (record { int_marshaller = from_zero max; max_size = max })
        s
        (advanced b (digits (from_zero max) (length s)), n)
      ≡ (advanced b (encoded max s), length (encoded max s))
unfolding write_chars
write_chars-advanced max s b n h k block room =
    let ds = digits (from_zero max) (length s) in
    let len = length-digits (from_zero max) (length s) in
    let c = few max h in
    let block' = advanced-IsBlock b ds block (omega (arith, len)) in
    let total : add_size (length s) (from_zero max).bytes ≡ length (encoded max s) =
      omega (arith, length-encoded max s) in
    rw (write_fits (advanced b ds) s block' (omega (arith, len)), total)
      (ap (λ (d : Block). (d, length (encoded max s)))
        (advanced-advanced b ds s block (omega (arith, len))))

pub marshal_string_room :
    (max : ℕ) (s : List ℕ) (b : Block)
    → max < 2 ^ 30
    → length s ≤ max
    → IsBlock b
    → (from_zero max).bytes + length s ≤ b.size - b.pos
    → marshal (string_marshaller max) s b ≡ ok (advanced b (encoded max s), length (encoded max s))
unfolding marshal
marshal_string_room max s b h k block room =
    let l = left-IsBlock b block in
    let c = few max h in
    let short : ltb max (length s) ≡ false = ground arith in
    let enough : ltb (left b) (add_size (from_zero max).bytes (length s)) ≡ false = ground arith in
    let i : to_signed (length s) ≡ pos (length s) = ground arith in
    rw (ranged max h, short, enough, i, marshal-from_zero max (length s) b k h block (omega arith))
      (ap ok (write_chars-advanced max s b _ h k block room))

seek_past : (b : Block) (n : ℕ) → b.pos + n < 2 ^ 32 → seek b (add_size b.pos n) ≡ skipped b n
unfolding seek
seek_past b n h = ap (seek b) (omega arith)

-- The characters behind the length.
read_chars_stands :
    (m : StringMarshaller) (start n : ℕ) (s : List ℕ) (b : Block)
    → length s < 2 ^ 30
    → m.int_marshaller.bytes ≤ 4
    → IsBlock b
    → StandsAt b s
    → read_chars m start (b, some (pos (length s), n))
      ≡ (skipped b (length s), some (s, m.int_marshaller.bytes + length s))
unfolding read_chars
read_chars_stands m start n s b h c block stands =
    let l = left-IsBlock b block in
    let room = StandsAt-room b s block stands in
    let i : length s % 2 ^ 32 ≡ length s = omega arith in
    let enough : ltb (left b) (length s) ≡ false = ground arith in
    let total : add_size m.int_marshaller.bytes (length s) ≡ m.int_marshaller.bytes + length s =
      omega arith in
    rw (i, enough, total, StandsAt-peek b s stands, seek_past b (length s) (omega arith)) refl

-- Where there are not as many characters, the position goes back before the length.
read_chars_missing :
    (m : StringMarshaller) (start n k : ℕ) (b : Block)
    → k < 2 ^ 30
    → IsBlock b
    → b.size - b.pos < k
    → read_chars m start (b, some (pos k, n)) ≡ (seek b start, none)
unfolding read_chars
read_chars_missing m start n k b h block short =
    let l = left-IsBlock b block in
    let i : k % 2 ^ 32 ≡ k = omega arith in
    let lacks : ltb (left b) k ≡ true = ground arith in rw (i, lacks) refl

pub demarshal_string_stands :
    (max : ℕ) (s : List ℕ) (b : Block)
    → max < 2 ^ 30
    → length s ≤ max
    → IsBlock b
    → StandsAt b (encoded max s)
    → demarshal (string_marshaller max) b
      ≡ ok (skipped b (length (encoded max s)), some (s, length (encoded max s)))
unfolding demarshal
demarshal_string_stands max s b h k block stands =
    let m = from_zero max in
    let ds = digits m (length s) in
    let len = length-digits m (length s) in
    let room = StandsAt-room b (encoded max s) block stands in
    let total = length-encoded max s in
    let behind : StandsAt (skipped b m.bytes) s =
      subst (λ n. StandsAt (skipped b n) s) (omega (arith, len)) (StandsAt-skipped b ds s stands) in
    let block' = skipped-IsBlock b m.bytes block (omega (arith, total)) in
    rw (ranged max h, demarshal-from_zero max (length s) b k h block (StandsAt-first b ds s stands))
      (ap ok (
        read_chars_stands _ b.pos m.bytes s (skipped b m.bytes) (omega arith) (few max h) block'
          behind
        ∙ rw total (
            ap (λ (d : Block). (d, some (s, m.bytes + length s)))
              (skipped-skipped b m.bytes (length s)))))

-- A string no longer than a maximum below 2^30, in a well-formed block with room for it and its
-- length, comes back from where it was written, and both operations return the bytes of its
-- length and its characters.
pub demarshal-marshal_string :
    (max : ℕ) (s : List ℕ) (b : Block)
    → max < 2 ^ 30
    → length s ≤ max
    → IsBlock b
    → (from_zero max).bytes + length s ≤ b.size - b.pos
    → (b' : Block) × (marshal (string_marshaller max) s b
        ≡ ok (b', (from_zero max).bytes + length s))
      × (demarshal (string_marshaller max) (seek b' b.pos)
          ≡ ok (b', some (s, (from_zero max).bytes + length s)))
unfolding seek
demarshal-marshal_string max s b h k block room =
    let bytes = encoded max s in
    let total = length-encoded max s in
    let back : Block = record (advanced b bytes) { pos = b.pos } in
    (
      advanced b bytes,
      marshal_string_room max s b h k block room ∙ ap (λ n. ok (advanced b bytes, n)) total,
      demarshal_string_stands max s back h k (at_start-IsBlock b bytes block (omega (arith, total)))
            (advanced-StandsAt b bytes block)
          ∙ ap (λ n. ok (advanced b bytes, some (s, n))) total,
    )

-- Where the length of a string, up to a maximum below 2^30, stands in a well-formed block but
-- fewer characters follow it, nothing is read and the position is the one before the length.
pub demarshal_string_missing :
    (max n : ℕ) (b : Block)
    → max < 2 ^ 30
    → n ≤ max
    → IsBlock b
    → StandsAt b (digits (from_zero max) n)
    → b.size - b.pos < (from_zero max).bytes + n
    → demarshal (string_marshaller max) b ≡ ok (seek b b.pos, none)
unfolding demarshal seek
demarshal_string_missing max n b h k block stands short =
    let m = from_zero max in
    let len = length-digits m n in
    let room = StandsAt-room b (digits m n) block stands in
    let block' = skipped-IsBlock b m.bytes block (omega (arith, len)) in
    rw (ranged max h, demarshal-from_zero max n b k h block stands)
      (ap ok (
        read_chars_missing _ b.pos m.bytes n (skipped b m.bytes) (omega arith) block'
          (omega arith)))

-- ===== src/Marshal/Leaves/Carried.antt =====
-- The marshallers of src/lib/marshal.cpp for the basic types, and the values in their ranges.
use etwork.Common.{
  ℕ, ◌+◌, ◌-◌, ◌^◌, ◌≤◌, ◌<◌, Bool, true, false, some, List, [], ◌∷◌, ◌≡◌, refl, ap, sym, ◌∙◌,
  arith, length, ltb, not, ◌==◌, take,
}
use etwork.Common.Int.{pos}
use etwork.Block.{Block, IsBlock, left, cur}
use etwork.Marshal.{ok}
use etwork.Marshal.Digits.{put_bytes, length-put_bytes}
use etwork.Marshal.Cursor.{advanced, skipped, StandsAt}
use etwork.Marshal.Interface.{
  Value, int_value, uint_value, uint64_value, bool_value, string_value, Memory, set, IMarshaller,
  Carries, copy_fields,
}
use etwork.Marshal.Leaves.{
  int_object, uint_object, uint64_object, double_object, bool_object, string_object,
}
use etwork.Marshal.Int.RoundTrip.{
  from_zero, digits, marshal-from_zero, demarshal-from_zero, length-digits, from_zero_positive,
}
use etwork.Marshal.Uint as Uint
use etwork.Marshal.Uint.RoundTrip.{set_bits_bytes, marshal_uint_room, demarshal_uint_stands}
use etwork.Marshal.Uint64.{
  double_marshaller, marshal_double, demarshal_double, marshal_uint64_room, demarshal_uint64_stands,
  fits_bits,
}
use etwork.Marshal.Uint64 as Uint64
use etwork.Marshal.Bool.{byte_of}
use etwork.Marshal.Bool as Bool
use etwork.Marshal.Text.{string_marshaller}
use etwork.Marshal.Text.RoundTrip.{
  encoded, length-encoded, marshal_string_room, demarshal_string_stands, few, ranged,
}
use etwork.Common.Bytes.{add_size}
use etwork.Block.Stream.{left-IsBlock, written, write_fits, read_fits}
use etwork.Marshal.Cursor.{peek, StandsAt-room, StandsAt-peek}

abbrev pub one_field : List ℕ
one_field = 0 ∷ []

positive_bytes : (bits : ℕ) → 0 < bits → 0 < (Uint64.set_bits bits).bytes
unfolding Uint64.set_bits
positive_bytes bits h = omega arith

string_announced :
    (max : ℕ) (s : List ℕ)
    → max < 2 ^ 30
    → length s ≤ max
    → length (encoded max s) ≤ add_size (string_marshaller max).int_marshaller.bytes max
string_announced max s h k =
    let c = few max h in rw (ranged max h) (omega (arith, length-encoded max s))

bool_written :
    (v : Bool) (b : Block)
    → IsBlock b
    → 1 ≤ b.size - b.pos
    → Bool.marshal v b ≡ ok (written b (byte_of v ∷ []), 1)
unfolding Bool.marshal
bool_written v b block room =
    let l = left-IsBlock b block in
    let enough : ltb (left b) 1 ≡ false = ground arith in
    rw enough (ap ok (write_fits b (byte_of v ∷ []) block room))

byte_of_back : (v : Bool) → not (byte_of v == 0) ≡ v
byte_of_back true = refl
byte_of_back false = refl

bool_read :
    (v : Bool) (b : Block)
    → IsBlock b
    → StandsAt b (byte_of v ∷ [])
    → Bool.demarshal b ≡ ok (record b { pos = b.pos + 1 }, some (v, 1))
unfolding Bool.demarshal Bool.got
bool_read v b block stands =
    let room = StandsAt-room b (byte_of v ∷ []) block stands in
    let byte : take 1 (cur b) ≡ byte_of v ∷ [] =
      unfold peek in StandsAt-peek b (byte_of v ∷ []) stands in
    rw (read_fits b 1 block room, byte, byte_of_back v) refl

-- A value read to an address, as a copy of the one field that the object has.
copied_value :
    (mem : Memory) (at : ℕ) (to : Memory) (dst : ℕ) (value : Value)
    → mem at ≡ value
    → set to dst value ≡ copy_fields one_field mem at to dst
copied_value mem at to dst value e =
    let p : at + 0 ≡ at = omega arith in let q : dst + 0 ≡ dst = omega arith in rw (p, q, e) refl

-- An object of one field: what it takes to carry it, with the count n that its operations return.
one_field-Carries :
    (m : IMarshaller) (mem : Memory) (at n : ℕ) (value : Value) (bytes : List ℕ)
    → mem at ≡ value
    → length bytes ≡ n
    → 0 < n
    → n ≤ m.max_marshalled_size
    → ((b : Block) → IsBlock b → n ≤ b.size - b.pos → m.marshal mem at b ≡ ok (advanced b bytes, n))
    → ((b : Block) (to : Memory) (dst : ℕ)
        → IsBlock b
        → StandsAt b bytes
        → m.demarshal b to dst ≡ ok (skipped b n, set to dst value, n))
    → Carries m mem at one_field bytes
one_field-Carries m mem at n value bytes e len least max write read = record {
  some_bytes = omega (arith, len);
  announced = omega (arith, len);
  written = λ b block room.
      (false, write b block (omega (arith, len)) ∙ ap (λ k. ok (advanced b bytes, k)) (sym len));
  read_back = λ b to dst block stands. (
    false,
    read b to dst block stands
        ∙ rw (copied_value mem at to dst value e)
            (ap (λ k. ok (skipped b k, copy_fields one_field mem at to dst, k)) (sym len)),
  );
}

pub int_object-Carries :
    (max v : ℕ) (mem : Memory) (at : ℕ)
    → max < 2 ^ 30
    → v ≤ max
    → mem at ≡ int_value (pos v)
    → Carries (int_object (from_zero max)) mem at one_field (digits (from_zero max) v)
unfolding int_object
int_object-Carries max v mem at h k e =
    let m = from_zero max in
    one_field-Carries (int_object m) mem at m.bytes _ (digits m v) e (length-digits m v)
      (from_zero_positive max h) (omega arith)
      (λ b block room. rw e (marshal-from_zero max v b k h block room))
      (λ b to dst block stands. rw (demarshal-from_zero max v b k h block stands) refl)

pub uint_object-Carries :
    (bits v : ℕ) (mem : Memory) (at : ℕ)
    → bits ≤ 32
    → v < 2 ^ bits
    → mem at ≡ uint_value v
    → Carries
        (uint_object (Uint.set_bits bits))
        mem
        at
        one_field
        (put_bytes (Uint.set_bits bits).bytes v [])
unfolding uint_object
uint_object-Carries bits v mem at h k e =
    let m = Uint.set_bits bits in
    let (_, least, _, _) = set_bits_bytes bits h in
    one_field-Carries (uint_object m) mem at m.bytes _ (put_bytes m.bytes v []) e
      (omega (arith, length-put_bytes m.bytes v [])) least (omega arith)
      (λ b block room. rw e (marshal_uint_room bits v b h k block room))
      (λ b to dst block stands. rw (demarshal_uint_stands bits v b h k block stands) refl)

pub uint64_object-Carries :
    (bits v : ℕ) (mem : Memory) (at : ℕ)
    → 0 < bits
    → bits ≤ 64
    → v < 2 ^ bits
    → mem at ≡ uint64_value v
    → Carries
        (uint64_object (Uint64.set_bits bits))
        mem
        at
        one_field
        (put_bytes (Uint64.set_bits bits).bytes v [])
unfolding uint64_object
uint64_object-Carries bits v mem at p h k e =
    let m = Uint64.set_bits bits in
    one_field-Carries (uint64_object m) mem at m.bytes _ (put_bytes m.bytes v []) e
      (omega (arith, length-put_bytes m.bytes v [])) (positive_bytes bits p) (omega arith)
      (λ b block room. rw e (marshal_uint64_room bits v b h k block room))
      (λ b to dst block stands.
        rw (demarshal_uint64_stands bits v b h (fits_bits bits v k) block stands) refl)

-- Every bit pattern of a double.
pub double_object-Carries :
    (v : ℕ) (mem : Memory) (at : ℕ)
    → v < 2 ^ 64
    → mem at ≡ uint64_value v
    → Carries double_object mem at one_field (put_bytes double_marshaller.bytes v [])
unfolding double_object marshal_double demarshal_double
double_object-Carries v mem at k e =
    let m = double_marshaller in
    one_field-Carries double_object mem at m.bytes _ (put_bytes m.bytes v []) e
      (omega (arith, length-put_bytes m.bytes v [])) (positive_bytes 64 (omega arith)) (omega arith)
      (λ b block room. rw e (marshal_uint64_room 64 v b (omega arith) k block room))
      (λ b to dst block stands.
        rw (demarshal_uint64_stands 64 v b (omega arith) (fits_bits 64 v k) block stands) refl)

pub string_object-Carries :
    (sizeof_string max : ℕ) (s : List ℕ) (mem : Memory) (at : ℕ)
    → max < 2 ^ 30
    → length s ≤ max
    → mem at ≡ string_value s
    → Carries (string_object sizeof_string (string_marshaller max)) mem at one_field (encoded max s)
unfolding string_object string_marshaller
string_object-Carries sizeof_string max s mem at h k e =
    let m = string_marshaller max in
    one_field-Carries (string_object sizeof_string m) mem at (length (encoded max s)) _
      (encoded max s) e refl (omega (arith, length-encoded max s, from_zero_positive max h))
      (string_announced max s h k)
      (λ b block room.
        rw e (marshal_string_room max s b h k block (omega (arith, length-encoded max s))))
      (λ b to dst block stands. rw (demarshal_string_stands max s b h k block stands) refl)

-- Bool marshalling goes through Block::write and Block::read, which leave the flag for the end as it is.
pub bool_object-Carries :
    (v : Bool) (mem : Memory) (at : ℕ)
    → mem at ≡ bool_value v
    → Carries bool_object mem at one_field (byte_of v ∷ [])
unfolding bool_object
bool_object-Carries v mem at e = record {
  some_bytes = omega arith;
  announced = omega arith;
  written = λ b block room. (b.at_eof, rw e (bool_written v b block room));
  read_back = λ b to dst block stands.
      (b.at_eof, rw (bool_read v b block stands, copied_value mem at to dst (bool_value v) e) refl);
}

-- ===== src/Marshal/Uint/RoundTrip.antt =====
-- class UintMarshaller of src/lib/marshal.cpp: what demarshal makes of what marshal wrote.
use etwork.Common.{
  ℕ, zero, suc, ◌+◌, ◌-◌, ◌*◌, ◌^◌, ◌≤◌, ◌<◌, true, false, some, [], ◌≡◌, refl, ap, sym, ◌∙◌, ◌⊎◌,
  inl, inr, arith, ltb, leb, Bool-cases,
}
use etwork.Block.{Block, IsBlock, seek}
use etwork.Marshal.{ok, err, invalid_argument}
use etwork.Marshal.Digits.{put_bytes}
use etwork.Marshal.Cursor.{skipped, StandsAt}
use etwork.Marshal.Word.{
  with_word, write_word_room, word_at_stands, word_enough, seek_word, at_word, at_word-IsBlock,
  at_word-StandsAt, skipped-at_word,
}
use etwork.Marshal.Uint.{set_bits, all_ones, limit, marshal, demarshal, count_bytes}
use native.Mathlib.Nat.{pow-suc, pow-le-pow_right, one-le-pow}

-- setBits takes from 1 to 4 bytes for up to 32 bits, enough for them, and no more than they need.
pub set_bits_bytes :
    (bits : ℕ)
    → bits ≤ 32
    → let c = (set_bits bits).bytes in
      (bits ≤ c * 8) × (1 ≤ c) × (c ≤ 4) × ((c ≡ 1) ⊎ ((c - 1) * 8 < bits))
unfolding set_bits count_bytes
set_bits_bytes bits h = elim (Bool-cases (leb bits 8)) [
  | inl a ↦ rw a (ground arith, omega arith, omega arith, inl refl)
  | inr a ↦ elim (Bool-cases (leb bits 16)) [
    | inl b ↦ rw (a, b) (ground arith, omega arith, omega arith, inr (ground arith))
    | inr b ↦ elim (Bool-cases (leb bits 24)) [
      | inl c ↦ rw (a, b, c) (ground arith, omega arith, omega arith, inr (ground arith))
      | inr c ↦ rw (a, b, c) (omega arith, omega arith, omega arith, inr (ground arith))
    ]
  ]
]

-- A byte more.
2^_byte : (n : ℕ) → 2 ^ suc (suc (suc (suc (suc (suc (suc (suc n))))))) ≡ 2 ^ n * 256
2^_byte n = omega (
  arith,
  pow-suc 2 n,
  pow-suc 2 (n + 1),
  pow-suc 2 (n + 2),
  pow-suc 2 (n + 3),
  pow-suc 2 (n + 4),
  pow-suc 2 (n + 5),
  pow-suc 2 (n + 6),
  pow-suc 2 (n + 7),
)

pub 2^_8* : (c : ℕ) → 2 ^ (c * 8) ≡ 256 ^ c
2^_8* zero = refl
2^_8* (suc c) =
    let e : suc c * 8 ≡ suc (suc (suc (suc (suc (suc (suc (suc (c * 8)))))))) = omega arith in
    rw e (2^_byte (c * 8) ∙ ap (λ n. n * 256) (2^_8* c) ∙ sym (pow-suc 256 c))

-- Bytes for the bits are enough for what the bits hold.
pub 2^_fits : (bits c v : ℕ) → bits ≤ c * 8 → v < 2 ^ bits → v < 256 ^ c
2^_fits bits c v h k =
    let p : 2 ^ bits ≤ 2 ^ (c * 8) = pow-le-pow_right (omega arith) h in omega (arith, 2^_8* c)

pub 256^_le : (c d : ℕ) → c ≤ d → 256 ^ c ≤ 256 ^ d
256^_le c d h = pow-le-pow_right (omega arith) h

pub limit_bits : (bits : ℕ) → bits ≤ 32 → limit bits ≡ 2 ^ bits - 1
unfolding limit all_ones
limit_bits bits h =
    let p : 2 ^ bits ≤ 2 ^ 32 = pow-le-pow_right (omega arith) h in
    let q : 1 ≤ 2 ^ bits = one-le-pow bits 2 (omega arith) in omega arith

limit_allows : (bits v : ℕ) → bits ≤ 32 → v < 2 ^ bits → ltb (limit (set_bits bits).bits) v ≡ false
unfolding set_bits
limit_allows bits v h k = let l = limit_bits bits h in ground arith

fits_bits : (bits v : ℕ) → bits ≤ 32 → v < 2 ^ bits → v < 256 ^ (set_bits bits).bytes
fits_bits bits v h k =
    let (enough, _, _, _) = set_bits_bytes bits h in 2^_fits bits (set_bits bits).bytes v enough k

few_bytes : (bits : ℕ) → bits ≤ 32 → 256 ^ (set_bits bits).bytes ≤ 2 ^ 32
few_bytes bits h = let (_, _, few, _) = set_bits_bytes bits h in 256^_le (set_bits bits).bytes 4 few

pub marshal_uint_room :
    (bits v : ℕ) (b : Block)
    → bits ≤ 32
    → v < 2 ^ bits
    → IsBlock b
    → (set_bits bits).bytes ≤ b.size - b.pos
    → marshal (set_bits bits) v b ≡ ok (with_word (set_bits bits).bytes v b, (set_bits bits).bytes)
unfolding marshal
marshal_uint_room bits v b h k block room =
    rw (limit_allows bits v h k) (ap ok (write_word_room (set_bits bits).bytes v b block room))

pub demarshal_uint_stands :
    (bits v : ℕ) (b : Block)
    → bits ≤ 32
    → v < 2 ^ bits
    → IsBlock b
    → StandsAt b (put_bytes (set_bits bits).bytes v [])
    → demarshal (set_bits bits) b
      ≡ ok (skipped b (set_bits bits).bytes, some (v, (set_bits bits).bytes))
unfolding demarshal
demarshal_uint_stands bits v b h k block stands =
    let c = (set_bits bits).bytes in
    let word = word_at_stands (2 ^ 32) c v b stands (fits_bits bits v h k) (few_bytes bits h) in
    rw (word_enough c v b block stands, word, limit_allows bits v h k, seek_word c v b block stands)
      refl

-- Each value of up to 32 bits, in a well-formed block with room for it, comes back from where it
-- was written, and both operations return the bytes for the bits.
pub demarshal-marshal_uint :
    (bits v : ℕ) (b : Block)
    → bits ≤ 32
    → v < 2 ^ bits
    → IsBlock b
    → (set_bits bits).bytes ≤ b.size - b.pos
    → (b' : Block) × (marshal (set_bits bits) v b ≡ ok (b', (set_bits bits).bytes))
      × (demarshal (set_bits bits) (seek b' b.pos) ≡ ok (b', some (v, (set_bits bits).bytes)))
demarshal-marshal_uint bits v b h k block room =
    let c = (set_bits bits).bytes in
    (
      with_word c v b,
      marshal_uint_room bits v b h k block room,
      demarshal_uint_stands bits v (at_word c v b) h k (at_word-IsBlock c v b block room)
            (at_word-StandsAt c v b block)
          ∙ ap (λ (d : Block). ok (d, some (v, c))) (skipped-at_word c v b),
    )

-- A value of 2^bits or more, for up to 32 bits, that the bytes still hold is neither written
-- nor, where it stands in a well-formed block, read: both throw.
pub uint_out_of_bounds :
    (bits v : ℕ) (dst src : Block)
    → bits ≤ 32
    → 2 ^ bits ≤ v
    → v < 256 ^ (set_bits bits).bytes
    → IsBlock src
    → StandsAt src (put_bytes (set_bits bits).bytes v [])
    → (marshal (set_bits bits) v dst ≡ err invalid_argument)
      × (demarshal (set_bits bits) src ≡ err invalid_argument)
unfolding marshal demarshal set_bits
uint_out_of_bounds bits v dst src h k fits block stands =
    let c = (set_bits bits).bytes in
    let l = limit_bits bits h in
    let q : 1 ≤ 2 ^ bits = one-le-pow bits 2 (omega arith) in
    let beyond : ltb (limit bits) v ≡ true = ground arith in
    let word = word_at_stands (2 ^ 32) c v src stands fits (few_bytes bits h) in
    (rw beyond refl, rw (word_enough c v src block stands, word, beyond) refl)

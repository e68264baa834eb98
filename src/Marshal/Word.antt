-- ===== src/Marshal/Word.antt =====
-- What UintMarshaller and Uint64Marshaller of src/lib/marshal.cpp have in common: a word of a fixed
-- number of bytes.
use etwork.Common.{ℕ, ◌-◌, ◌^◌, ◌≤◌, ◌<◌, false, [], ◌≡◌, ap, ◌∙◌, arith, ltb, if◌then◌else◌}
use etwork.Common.Bytes.{add_size}
use etwork.Block.{Block, IsBlock, left, seek}
use etwork.Block.Stream.{left-IsBlock}
use etwork.Marshal.Digits.{put_bytes, get_bytes, length-put_bytes, get_bytes-put_bytes}
use etwork.Marshal.Cursor.{
  put_at, peek, advanced, skipped, put_at_lem, StandsAt, StandsAt-peek, StandsAt-room,
  advanced-StandsAt, at_start-IsBlock,
}

-- if( dst.left() < bytes_ ) return 0; the bytes of the value; return bytes_.
unfoldable pub write_word : ℕ → ℕ → Block → Block × ℕ
write_word bytes v dst =
    if ltb (left dst) bytes then (dst, 0) else (put_at dst (put_bytes bytes v []), bytes)

-- The word that a block holds at its position.
unfoldable pub word_at : ℕ → ℕ → Block → ℕ
word_at modulus bytes src = get_bytes modulus (peek src bytes) 0

-- What the bytes of a word make of a block.
abbrev pub with_word : ℕ → ℕ → Block → Block
with_word bytes v b = advanced b (put_bytes bytes v [])

pub write_word_room :
    (bytes v : ℕ) (b : Block)
    → IsBlock b
    → bytes ≤ b.size - b.pos
    → write_word bytes v b ≡ (with_word bytes v b, bytes)
unfolding write_word
write_word_room bytes v b block room =
    let l = left-IsBlock b block in
    let enough : ltb (left b) bytes ≡ false = ground arith in
    let len = length-put_bytes bytes v [] in
    rw enough (
      ap (λ (d : Block). (d, bytes))
        (put_at_lem b (put_bytes bytes v []) block (omega (arith, len))))

pub word_at_stands :
    (modulus bytes v : ℕ) (b : Block)
    → StandsAt b (put_bytes bytes v [])
    → v < 256 ^ bytes
    → 256 ^ bytes ≤ modulus
    → word_at modulus bytes b ≡ v
unfolding word_at
word_at_stands modulus bytes v b stands h k =
    let len = length-put_bytes bytes v [] in
    let digits : peek b bytes ≡ put_bytes bytes v [] =
      ap (peek b) (omega (arith, len)) ∙ StandsAt-peek b (put_bytes bytes v []) stands in
    rw digits (get_bytes-put_bytes bytes modulus v h k)

-- A block where a word stands has the room that a read of it asks for.
pub word_enough :
    (bytes v : ℕ) (b : Block)
    → IsBlock b
    → StandsAt b (put_bytes bytes v [])
    → ltb (left b) bytes ≡ false
word_enough bytes v b block stands =
    let len = length-put_bytes bytes v [] in
    let l = left-IsBlock b block in
    let room = StandsAt-room b (put_bytes bytes v []) block stands in ground arith

pub seek_word :
    (bytes v : ℕ) (b : Block)
    → IsBlock b
    → StandsAt b (put_bytes bytes v [])
    → seek b (add_size b.pos bytes) ≡ skipped b bytes
unfolding seek
seek_word bytes v b block stands =
    let len = length-put_bytes bytes v [] in
    let room = StandsAt-room b (put_bytes bytes v []) block stands in ap (seek b) (omega arith)

-- Where the word was written.
abbrev pub at_word : ℕ → ℕ → Block → Block
at_word bytes v b = seek (with_word bytes v b) b.pos

pub at_word-IsBlock :
    (bytes v : ℕ) (b : Block) → IsBlock b → bytes ≤ b.size - b.pos → IsBlock (at_word bytes v b)
unfolding seek
at_word-IsBlock bytes v b block room =
    at_start-IsBlock b (put_bytes bytes v []) block (omega (arith, length-put_bytes bytes v []))

pub at_word-StandsAt :
    (bytes v : ℕ) (b : Block) → IsBlock b → StandsAt (at_word bytes v b) (put_bytes bytes v [])
unfolding seek
at_word-StandsAt bytes v b block = advanced-StandsAt b (put_bytes bytes v []) block

pub skipped-at_word :
    (bytes v : ℕ) (b : Block) → skipped (at_word bytes v b) bytes ≡ with_word bytes v b
unfolding seek
skipped-at_word bytes v b =
    ap (seek (with_word bytes v b)) (omega (arith, length-put_bytes bytes v []))

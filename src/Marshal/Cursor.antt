-- ===== src/Marshal/Cursor.antt =====
-- How the marshallers of src/lib/marshal.cpp use a Block: bytes at the position, which then moves
-- on, and bytes that are looked at from the position.
use etwork.Common.{
  ℕ, ◌+◌, ◌-◌, ◌≤◌, false, List, ◌++◌, ◌≡◌, ap, ◌∙◌, arith, length, take, drop, take-append,
  drop-append, drop-drop, sym, length-append, length-drop, append_assoc,
}
use etwork.Common.Bytes.{add_size}
use etwork.Block.{Block, IsBlock, cur, seek, splice, store}
use etwork.Block.Stream.{length-splice, drop-splice, splice-splice}

-- The bytes written through cur(), and the position moved behind them by seek.
unfoldable pub put_at : Block → List ℕ → Block
put_at b bytes = seek (store b bytes) (add_size b.pos (length bytes))

-- The bytes from cur() on, up to a count.
unfoldable pub peek : Block → ℕ → List ℕ
peek b n = take n (cur b)

-- What bytes written at the position make of a block.
abbrev pub advanced : Block → List ℕ → Block
advanced b bytes = record b {
  buf = splice b.buf b.pos bytes;
  pos = b.pos + length bytes;
  at_eof = false;
}

-- The position behind n bytes.
abbrev pub skipped : Block → ℕ → Block
skipped b n = record b { pos = b.pos + n; at_eof = false }

pub put_at_lem :
    (b : Block) (bytes : List ℕ)
    → IsBlock b
    → length bytes ≤ b.size - b.pos
    → put_at b bytes ≡ advanced b bytes
unfolding put_at seek
put_at_lem b bytes h k = ap (λ p. record (store b bytes) { pos = p; at_eof = false }) (omega arith)

pub advanced-IsBlock :
    (b : Block) (bytes : List ℕ)
    → IsBlock b
    → length bytes ≤ b.size - b.pos
    → IsBlock (advanced b bytes)
advanced-IsBlock b bytes h k = record {
  sized = omega (arith, length-splice b.buf b.pos bytes (omega arith));
  inside = omega arith;
  small = h.small;
}

pub skipped-IsBlock : (b : Block) (n : ℕ) → IsBlock b → n ≤ b.size - b.pos → IsBlock (skipped b n)
skipped-IsBlock b n h k = record { sized = h.sized; inside = omega arith; small = h.small }

-- The bytes stand at the position of the block, with anything behind them.
abbrev pub StandsAt : Block → List ℕ → Type 0
StandsAt b bytes = (rest : List ℕ) × (cur b ≡ bytes ++ rest)

pub StandsAt-peek : (b : Block) (bytes : List ℕ) → StandsAt b bytes → peek b (length bytes) ≡ bytes
unfolding peek
StandsAt-peek b bytes (rest, e) = ap (take (length bytes)) e ∙ take-append bytes rest

-- There is room to read what stands there.
pub StandsAt-room :
    (b : Block) (bytes : List ℕ) → IsBlock b → StandsAt b bytes → length bytes ≤ b.size - b.pos
unfolding cur
StandsAt-room b bytes h (rest, e) =
    omega (arith, ap length e, length-append bytes rest, length-drop b.pos b.buf)

pub advanced-StandsAt :
    (b : Block) (bytes : List ℕ)
    → IsBlock b
    → StandsAt (record (advanced b bytes) { pos = b.pos }) bytes
unfolding cur
advanced-StandsAt b bytes h = (_, drop-splice b.buf b.pos bytes (omega arith))

-- What follows stands at the position behind.
pub StandsAt-skipped :
    (b : Block) (bytes more : List ℕ)
    → StandsAt b (bytes ++ more)
    → StandsAt (skipped b (length bytes)) more
unfolding cur
StandsAt-skipped b bytes more (rest, e) = (
  rest,
  sym (drop-drop b.pos (length bytes) b.buf)
      ∙ ap (drop (length bytes)) (e ∙ append_assoc bytes more rest)
      ∙ drop-append bytes (more ++ rest),
)

pub StandsAt-first :
    (b : Block) (bytes more : List ℕ) → StandsAt b (bytes ++ more) → StandsAt b bytes
StandsAt-first b bytes more (rest, e) = (more ++ rest, e ∙ append_assoc bytes more rest)

-- Back at the position where the bytes were written.
pub at_start-IsBlock :
    (b : Block) (bytes : List ℕ)
    → IsBlock b
    → length bytes ≤ b.size - b.pos
    → IsBlock (record (advanced b bytes) { pos = b.pos })
at_start-IsBlock b bytes h k = record {
  sized = omega (arith, length-splice b.buf b.pos bytes (omega arith));
  inside = h.inside;
  small = h.small;
}

pub advanced-advanced :
    (b : Block) (xs ys : List ℕ)
    → IsBlock b
    → length xs + length ys ≤ b.size - b.pos
    → advanced (advanced b xs) ys ≡ advanced b (xs ++ ys)
advanced-advanced b xs ys h k =
    ap (λ t. record b { buf = t; pos = b.pos + length xs + length ys; at_eof = false })
      (splice-splice b.buf b.pos xs ys (omega arith))
    ∙ ap (λ p. record b { buf = splice b.buf b.pos (xs ++ ys); pos = p; at_eof = false })
        (omega (arith, length-append xs ys))

pub skipped-skipped : (b : Block) (m n : ℕ) → skipped (skipped b m) n ≡ skipped b (m + n)
skipped-skipped b m n = ap (λ p. record b { pos = p; at_eof = false }) (omega arith)

-- ===== src/Block/Tests.antt =====
-- src/lib/block.cpp at concrete input: a block of four bytes, with one of them read.
use etwork.Common.{ℕ, ◌+◌, false, [], ◌∷◌, ◌≡◌, refl, arith, length, take}
use etwork.Block.{Block, IsBlock, read, write, seek, splice}
use etwork.Block.Stream.{read-write}

abbrev four : Block
four = record { buf = 1 ∷ 2 ∷ 3 ∷ 4 ∷ []; size = 4; pos = 1; delete_it = false; at_eof = false }

four-IsBlock : IsBlock four
four-IsBlock = record { sized = refl; inside = omega arith; small = omega arith }

write_short_test : (write four (7 ∷ 8 ∷ 9 ∷ 10 ∷ [])).0.buf ≡ 1 ∷ 7 ∷ 8 ∷ 9 ∷ []
unfolding write splice
write_short_test = refl

read-write_example :
    let chunk = take {A = ℕ} 3 (7 ∷ 8 ∷ 9 ∷ 10 ∷ []) in
    let (b', count) = write four (7 ∷ 8 ∷ 9 ∷ 10 ∷ []) in
    (count ≡ length chunk)
    × (read (seek b' 1) count ≡ (record b' { at_eof = false }, chunk, length chunk))
    × (b'.pos ≡ 1 + length chunk)
read-write_example = read-write four (7 ∷ 8 ∷ 9 ∷ 10 ∷ []) four-IsBlock

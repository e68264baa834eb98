-- ===== src/Block.antt =====
-- src/lib/block.cpp: class Block, a stretch of memory with a position in it. The memory is the list
-- of its bytes; a size that is read or written past its end is undefined in C++.
pub mod Stream
mod Tests
use etwork.Common.{
  ℕ, ◌+◌, ◌-◌, ◌≤◌, ◌<◌, ◌^◌, Bool, true, false, ◌||◌, ◌&&◌, List, ◌++◌, ◌≡◌, length, take, drop,
  ltb, ◌==◌, if◌then◌else◌,
}
use etwork.Common.Bytes.{add_size, sub_size, fresh_bytes}

pub record Block : Type 0 where
  pub buf : List ℕ
  pub size : ℕ
  pub pos : ℕ
  pub delete_it : Bool
  pub at_eof : Bool

-- Block( void * base, size_t size ), over memory of that size.
unfoldable pub wrap_block : List ℕ → Block
wrap_block base = record {
  buf = base;
  size = length base;
  pos = 0;
  delete_it = false;
  at_eof = false;
}

-- Block( size_t size ), with what the allocator leaves in the memory.
unfoldable pub new_block : (ℕ → ℕ) → ℕ → Block
new_block fill size = record {
  buf = fresh_bytes fill size;
  size = size;
  pos = 0;
  delete_it = true;
  at_eof = false;
}

unfoldable pub left : Block → ℕ
left b = sub_size b.size b.pos

-- The bytes from cur() on.
unfoldable pub cur : Block → List ℕ
cur b = drop b.pos b.buf

unfoldable pub seek : Block → ℕ → Block
seek b pos = record b { pos = pos; at_eof = false }

-- memcpy( buf_ + pos_, bytes, size of bytes )
unfoldable pub splice : List ℕ → ℕ → List ℕ → List ℕ
splice buf pos bytes = take pos buf ++ (bytes ++ drop (pos + length bytes) buf)

abbrev pub store : Block → List ℕ → Block
store b bytes = record b { buf = splice b.buf b.pos bytes }

-- The bytes that were read, and their count.
unfoldable pub read : Block → ℕ → Block × List ℕ × ℕ
unfolding left cur
read b size =
    let short = ltb (left b) size in
    let size' = if short then left b else size in
    (
      record b {
        pos = add_size b.pos size';
        at_eof = if short && (left b == 0) then true else b.at_eof;
      },
      take size' (cur b),
      size',
    )

unfoldable pub write : Block → List ℕ → Block × ℕ
unfolding left
write b bytes =
    let short = ltb (left b) (length bytes) in
    let size = if short then left b else length bytes in
    let stored = store b (take size bytes) in
    (record stored { pos = add_size b.pos size; at_eof = if short then true else b.at_eof }, size)

-- Block & operator<<( Block const & o )
unfoldable pub append : Block → Block → Block
append b o = (write b (take o.size o.buf)).0

-- Block & operator>>( Block & o ): the pair is this block and o.
unfoldable pub extract : Block → Block → Block × Block
extract b o =
    let (o', n) = write o (take b.size b.buf) in
    (record b { at_eof = if ltb n b.size then true else b.at_eof }, o')

unfoldable pub eof : Block → Bool
eof b = b.at_eof

-- A block over memory of its size, with its position in it.
pub record IsBlock (b : Block) : Type 0 where
  pub sized : b.size ≡ length b.buf
  pub inside : b.pos ≤ b.size
  pub small : b.size < 2 ^ 32

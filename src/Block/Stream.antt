-- ===== src/Block/Stream.antt =====
-- src/lib/block.cpp: writing to a block, and reading from it what was written.
use etwork.Common.{
  ℕ, ◌+◌, ◌-◌, ◌≤◌, ◌<◌, Bool, true, false, ◌⊎◌, inl, inr, List, ◌++◌, ◌≡◌, refl, ap, ◌∙◌, arith,
  length, take, drop, ltb, ◌==◌, if◌then◌else◌, length-append, length-take, length-drop, take_all,
  take-append, drop-append, drop-drop, append_assoc, sym, Bool-cases, ltb→lt,
}
use etwork.Common.Bytes.{add_size}
use etwork.Block.{Block, left, cur, seek, splice, store, read, write, IsBlock}

pub left-IsBlock : (b : Block) → IsBlock b → left b ≡ b.size - b.pos
unfolding left
left-IsBlock b h = omega arith

pub length-splice :
    (buf : List ℕ) (pos : ℕ) (bytes : List ℕ)
    → pos + length bytes ≤ length buf
    → length (splice buf pos bytes) ≡ length buf
unfolding splice
length-splice buf pos bytes k = omega (
  arith,
  length-append (take pos buf) (bytes ++ drop (pos + length bytes) buf),
  length-append bytes (drop (pos + length bytes) buf),
  length-take pos buf,
  length-drop (pos + length bytes) buf,
)

drop-at : (n : ℕ) (xs ys : List ℕ) → n ≡ length xs → drop n (xs ++ ys) ≡ ys
drop-at n xs ys e = rw e (drop-append xs ys)

take-at : (n : ℕ) (xs ys : List ℕ) → n ≡ length xs → take n (xs ++ ys) ≡ xs
take-at n xs ys e = rw e (take-append xs ys)

-- What stands at the position after the bytes were stored there.
pub drop-splice :
    (buf : List ℕ) (pos : ℕ) (bytes : List ℕ)
    → pos ≤ length buf
    → drop pos (splice buf pos bytes) ≡ bytes ++ drop (pos + length bytes) buf
unfolding splice
drop-splice buf pos bytes h = drop-at pos (take pos buf) _ (omega (arith, length-take pos buf))

-- Bytes stored behind bytes.
pub splice-splice :
    (buf : List ℕ) (pos : ℕ) (xs ys : List ℕ)
    → pos + (length xs + length ys) ≤ length buf
    → splice (splice buf pos xs) (pos + length xs) ys ≡ splice buf pos (xs ++ ys)
unfolding splice
splice-splice buf pos xs ys k =
    let front = take pos buf in
    let behind = drop (pos + length xs) buf in
    let n : pos + length xs ≡ length (front ++ xs) =
      omega (arith, length-append front xs, length-take pos buf) in
    let shape : front ++ (xs ++ behind) ≡ (front ++ xs) ++ behind =
      sym (append_assoc front xs behind) in
    let before : take (pos + length xs) (front ++ (xs ++ behind)) ≡ front ++ xs =
      ap (take (pos + length xs)) shape ∙ take-at _ (front ++ xs) behind n in
    let after : drop (pos + length xs + length ys) (front ++ (xs ++ behind))
        ≡ drop (pos + length (xs ++ ys)) buf =
      sym (drop-drop (pos + length xs) (length ys) (front ++ (xs ++ behind)))
      ∙ ap (drop (length ys)) (ap (drop (pos + length xs)) shape ∙ drop-at _ (front ++ xs) behind n)
      ∙ drop-drop (pos + length xs) (length ys) buf
      ∙ ap (λ p. drop p buf) (omega (arith, length-append xs ys)) in
    rw (before, after) (append_assoc front xs _ ∙ ap (λ t. front ++ t) (sym (append_assoc xs ys _)))

-- The block when some bytes have been written: they stand before the position, and what stood
-- before them and behind them is as it was.
abbrev pub written : Block → List ℕ → Block
written b bytes = record (store b bytes) { pos = b.pos + length bytes }

pub write_fits :
    (b : Block) (bytes : List ℕ)
    → IsBlock b
    → length bytes ≤ b.size - b.pos
    → write b bytes ≡ (written b bytes, length bytes)
unfolding write
write_fits b bytes h k =
    let l = left-IsBlock b h in
    let fits : ltb (left b) (length bytes) ≡ false = ground arith in
    let p : add_size b.pos (length bytes) ≡ b.pos + length bytes = omega arith in
    rw (fits, take_all (length bytes) bytes (omega arith), p) refl

write_short :
    (b : Block) (bytes : List ℕ)
    → IsBlock b
    → b.size - b.pos < length bytes
    → write b bytes
      ≡ (record (written b (take (b.size - b.pos) bytes)) { at_eof = true }, b.size - b.pos)
unfolding write
write_short b bytes h k =
    let l = left-IsBlock b h in
    let short : ltb (left b) (length bytes) ≡ true = ground arith in
    let n : length (take (b.size - b.pos) bytes) ≡ b.size - b.pos =
      omega (arith, length-take (b.size - b.pos) bytes) in
    let p : add_size b.pos (b.size - b.pos) ≡ b.pos + (b.size - b.pos) = omega arith in
    rw (short, l, p) (rw n refl)

-- write puts all the bytes at the position, or as many as there is room for and then reports the
-- end; it returns their count.
pub write_cases :
    (b : Block) (bytes : List ℕ)
    → IsBlock b
    → ((length bytes ≤ b.size - b.pos) × (write b bytes ≡ (written b bytes, length bytes)))
      ⊎ ((b.size - b.pos < length bytes)
          × (write b bytes ≡ (
            record (written b (take (b.size - b.pos) bytes)) { at_eof = true },
            b.size - b.pos,
          )))
write_cases b bytes h = elim (Bool-cases (ltb (b.size - b.pos) (length bytes))) [
  | inl t ↦ let k = ltb→lt (b.size - b.pos) (length bytes) t in inr (k, write_short b bytes h k)
  | inr f ↦ let k : length bytes ≤ b.size - b.pos = ground arith in inl (k, write_fits b bytes h k)
]

written-IsBlock :
    (b : Block) (bytes : List ℕ) (e : Bool)
    → IsBlock b
    → length bytes ≤ b.size - b.pos
    → IsBlock (record (written b bytes) { at_eof = e })
written-IsBlock b bytes e h k = record {
  sized = omega (arith, length-splice b.buf b.pos bytes (omega arith));
  inside = omega arith;
  small = h.small;
}

-- write leaves a well-formed block its size and the position within it, for any bytes.
pub write-IsBlock : (b : Block) (bytes : List ℕ) → IsBlock b → IsBlock (write b bytes).0
write-IsBlock b bytes h = elim (write_cases b bytes h) [
  | inl (k, e) ↦ rw e (written-IsBlock b bytes b.at_eof h k)
  | inr (k, e) ↦ rw e (
      written-IsBlock b (take (b.size - b.pos) bytes) true h
        (omega (arith, length-take (b.size - b.pos) bytes)))
]

pub read_fits :
    (b : Block) (n : ℕ)
    → IsBlock b
    → n ≤ b.size - b.pos
    → read b n ≡ (record b { pos = b.pos + n }, take n (cur b), n)
unfolding read
read_fits b n h k =
    let l = left-IsBlock b h in
    let fits : ltb (left b) n ≡ false = ground arith in
    let p : add_size b.pos n ≡ b.pos + n = omega arith in rw (fits, p) refl

-- The bytes of a list, read from where it was stored.
read_written :
    (b : Block) (bytes : List ℕ) (e : Bool)
    → IsBlock b
    → length bytes ≤ b.size - b.pos
    → read (seek (record (written b bytes) { at_eof = e }) b.pos) (length bytes)
      ≡ (record (written b bytes) { at_eof = false }, bytes, length bytes)
unfolding seek
read_written b bytes e h k =
    let back : Block = record (store b bytes) { at_eof = false } in
    let same : take (length bytes) (cur back) ≡ bytes =
      unfold cur in
      ap (take (length bytes)) (drop-splice b.buf b.pos bytes (omega arith))
      ∙ take-append bytes _ in
    read_fits back (length bytes)
      (record {
        sized = omega (arith, length-splice b.buf b.pos bytes (omega arith));
        inside = h.inside;
        small = h.small;
      })
      k
    ∙ ap (λ t. (record (written b bytes) { at_eof = false }, t, length bytes)) same

-- In a well-formed block, what write put, all of it or as much as there was room for, is read
-- back from where it was put, and the position is then behind it.
pub read-write :
    (b : Block) (bytes : List ℕ)
    → IsBlock b
    → let chunk = take (b.size - b.pos) bytes in
      let (b', count) = write b bytes in
      (count ≡ length chunk)
      × (read (seek b' b.pos) count ≡ (record b' { at_eof = false }, chunk, length chunk))
      × (b'.pos ≡ b.pos + length chunk)
read-write b bytes h = elim (write_cases b bytes h) [
  | inl (k, e) ↦
      rw (e, take_all (b.size - b.pos) bytes k) (refl, read_written b bytes b.at_eof h k, refl)
  | inr (k, e) ↦
      let n : b.size - b.pos ≡ length (take (b.size - b.pos) bytes) =
        omega (arith, length-take (b.size - b.pos) bytes) in
      rw e (
        n,
        ap
              (λ k.
                read
                  (seek (record (written b (take (b.size - b.pos) bytes)) { at_eof = true }) b.pos)
                  k)
              n
            ∙ read_written b (take (b.size - b.pos) bytes) true h (omega arith),
        refl,
      )
]

read_short :
    (b : Block) (n : ℕ)
    → IsBlock b
    → b.size - b.pos < n
    → read b n ≡ (
      record b {
        pos = b.pos + (b.size - b.pos);
        at_eof = if b.size - b.pos == 0 then true else b.at_eof;
      },
      take (b.size - b.pos) (cur b),
      b.size - b.pos,
    )
unfolding read
read_short b n h k =
    let l = left-IsBlock b h in
    let short : ltb (left b) n ≡ true = ground arith in
    let p : add_size b.pos (b.size - b.pos) ≡ b.pos + (b.size - b.pos) = omega arith in
    rw (short, l, p) refl

-- read leaves the position of a well-formed block within it, for any size that is asked for.
pub read-IsBlock : (b : Block) (n : ℕ) → IsBlock b → IsBlock (read b n).0
read-IsBlock b n h = elim (Bool-cases (ltb (b.size - b.pos) n)) [
  | inl t ↦
      rw (read_short b n h (ltb→lt _ _ t))
        (record { sized = h.sized; inside = omega arith; small = h.small })
  | inr f ↦
      rw (read_fits b n h (ground arith))
        (record { sized = h.sized; inside = ground arith; small = h.small })
]

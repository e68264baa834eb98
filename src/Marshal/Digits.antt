-- ===== src/Marshal/Digits.antt =====
-- The loops of src/lib/marshal.cpp that write a number as bytes, high byte first, and read it back.
use etwork.Common.{
  ℕ, zero, suc, ◌+◌, ◌*◌, ◌/◌, ◌%◌, ◌^◌, ◌≤◌, ◌<◌, List, [], ◌∷◌, ◌++◌, ◌≡◌, refl, ap, sym,
  append_assoc, ◌∙◌, arith, length, All,
}
use etwork.Common.Bytes.{IsByte}
use native.Mathlib.Nat.{pow-suc, mod-eq_of_lt}

-- for( c = bytes; c > 0; --c ) { d[c-1] = val & 0xff; val >>= 8; }, with what follows the bytes.
unfoldable pub put_bytes : ℕ → ℕ → List ℕ → List ℕ
put_bytes zero val rest = rest
put_bytes (suc c) val rest = put_bytes c (val / 2 ^ 8) (val % 2 ^ 8 ∷ rest)

-- for( i = 0; i < bytes; ++i ) { ret = (ret << 8) | s[i]; }, over a word of the given modulus. The
-- low byte of the shifted word is 0, so that the or with a byte is a sum.
unfoldable pub get_bytes : ℕ → List ℕ → ℕ → ℕ
get_bytes modulus [] ret = ret
get_bytes modulus (s ∷ ss) ret = get_bytes modulus ss (ret * 2 ^ 8 % modulus + s)

pub length-put_bytes : (n v : ℕ) (rest : List ℕ) → length (put_bytes n v rest) ≡ n + length rest
unfolding put_bytes
length-put_bytes zero v rest = omega arith
length-put_bytes (suc n) v rest = omega (arith, length-put_bytes n (v / 2 ^ 8) (v % 2 ^ 8 ∷ rest))

pub put_bytes-append : (n v : ℕ) (rest : List ℕ) → put_bytes n v rest ≡ put_bytes n v [] ++ rest
unfolding put_bytes
put_bytes-append zero v rest = refl
put_bytes-append (suc n) v rest =
    put_bytes-append n (v / 2 ^ 8) (v % 2 ^ 8 ∷ rest)
    ∙ sym (append_assoc (put_bytes n (v / 2 ^ 8) []) (v % 2 ^ 8 ∷ []) rest)
    ∙ ap (λ t. t ++ rest) (sym (put_bytes-append n (v / 2 ^ 8) (v % 2 ^ 8 ∷ [])))

get_bytes-put_bytes_from :
    (n modulus v ret : ℕ) (rest : List ℕ)
    → v < 256 ^ n
    → (ret + 1) * 256 ^ n ≤ modulus
    → get_bytes modulus (put_bytes n v rest) ret ≡ get_bytes modulus rest (ret * 256 ^ n + v)
unfolding put_bytes
get_bytes-put_bytes_from zero modulus v ret rest h k = ap (get_bytes modulus rest) (omega arith)
get_bytes-put_bytes_from (suc n) modulus v ret rest h k =
    let p : 256 ^ suc n ≡ 256 ^ n * 256 = pow-suc _ _ in
    let q : ret * 256 ^ suc n ≡ ret * (256 ^ n * 256) = ap (λ t. ret * t) p in
    let small : (ret * 256 ^ n + v / 2 ^ 8) * 2 ^ 8 < modulus = omega (arith, p, q) in
    get_bytes-put_bytes_from n modulus (v / 2 ^ 8) ret (v % 2 ^ 8 ∷ rest) (omega (arith, p))
      (omega (arith, p, q))
    ∙ unfold get_bytes in
      ap (get_bytes modulus rest) (rw (mod-eq_of_lt small) (omega (arith, p, q)))

-- Reading the bytes that a number was written as gives the number, if the bytes are enough for it
-- and the word holds them.
pub get_bytes-put_bytes :
    (n modulus v : ℕ) → v < 256 ^ n → 256 ^ n ≤ modulus → get_bytes modulus (put_bytes n v []) 0 ≡ v
get_bytes-put_bytes n modulus v h k =
    get_bytes-put_bytes_from n modulus v 0 [] h (omega arith) ∙ unfold get_bytes in (omega arith)

pub put_bytes-IsByte : (n v : ℕ) (rest : List ℕ) → All IsByte rest → All IsByte (put_bytes n v rest)
unfolding put_bytes
put_bytes-IsByte zero v rest h = h
put_bytes-IsByte (suc n) v rest h =
    put_bytes-IsByte n (v / 2 ^ 8) (v % 2 ^ 8 ∷ rest) (omega arith, h)

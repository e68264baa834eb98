-- ===== src/Common/Bytes.antt =====
-- Bytes, the widths of the platform's integers, and memory that the allocator hands out.
-- The library is built for 32-bit Windows: int, unsigned int and size_t have 32 bits.
use Prim.Native.Nat.{ℕ, zero, suc, ◌+◌, ◌-◌, ◌%◌, ◌^◌, ◌<◌}
use mathlib.Core.Path.{◌≡◌, refl, ap}
use mathlib.Core.List.{List, [], ◌∷◌}
use etwork.Common.Lists.{length}

abbrev pub IsByte : ℕ → Type 0
IsByte b = b < 256

-- Sums and differences of size_t values, which wrap.
abbrev pub add_size : ℕ → ℕ → ℕ
add_size a b = (a + b) % 2 ^ 32

abbrev pub sub_size : ℕ → ℕ → ℕ
sub_size a b = (a + 2 ^ 32 - b) % 2 ^ 32

-- Fresh memory of n bytes: whatever the allocator's `fill` leaves in it.
unfoldable pub fresh_bytes : (ℕ → ℕ) → ℕ → List ℕ
fresh_bytes fill zero = []
fresh_bytes fill (suc n) = fill n ∷ fresh_bytes fill n

pub length-fresh_bytes : (fill : ℕ → ℕ) (n : ℕ) → length (fresh_bytes fill n) ≡ n
unfolding fresh_bytes
length-fresh_bytes fill zero = refl
length-fresh_bytes fill (suc n) = ap suc (length-fresh_bytes fill n)

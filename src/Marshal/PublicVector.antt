-- ===== src/Marshal/PublicVector.antt =====
-- class public_vector of src/etwork/marshal.h: a vector whose memory grows by a quarter and five.
use etwork.Common.{
  ℕ, zero, suc, ◌+◌, ◌*◌, ◌/◌, ◌%◌, ◌^◌, ◌≤◌, ◌<◌, Option, none, some, List, [], ◌∷◌, ◌++◌, ◌≡◌,
  inl, inr, arith, length, ◌==◌, if◌then◌else◌, Bool-cases, length-append,
}

-- The objects constructed in data_, whose count is logical_, and the number that data_ has room for.
pub record PublicVector (A : Type 0) : Type 0 where
  pub items : List A
  pub physical : ℕ

-- (size_t)(physical_ * 1.25) + 5, exactly: a double holds the product.
unfoldable pub grown : ℕ → ℕ
grown physical = (physical * 5 / 4 + 5) % 2 ^ 32

module _ {A : Type 0} where
  unfoldable pub new_vector : PublicVector A
  new_vector = record { items = []; physical = 0 }

  -- The copy has room for the objects and no more.
  unfoldable pub copy_vector : PublicVector A → PublicVector A
  copy_vector old = record { items = old.items; physical = length old.items }

  unfoldable pub size : PublicVector A → ℕ
  size v = length v.items

  -- Memory behind the objects, constructed or not, is read through a reference: none.
  unfoldable pub at : PublicVector A → ℕ → Option A
  at v ix = get v.items ix
    where
      get : List A → ℕ → Option A
      get [] ix = none
      get (x ∷ xs) zero = some x
      get (x ∷ xs) (suc ix) = get xs ix

  unfoldable pub push_back : PublicVector A → A → PublicVector A
  push_back v t = record {
    items = v.items ++ (t ∷ []);
    physical = if length v.items == v.physical then grown v.physical else v.physical;
  }

  -- The objects have room.
  pub record HasRoom (v : PublicVector A) : Type 0 where
    pub room : length v.items ≤ v.physical
    pub small : v.physical < 2 ^ 30

  -- On a vector with room for its objects and a capacity below 2^30, a push has room for the
  -- object that it adds, whether the memory grew or not, and adds one object, and a copy has room
  -- for its objects.
  pub push_back-HasRoom :
      (v : PublicVector A) (t : A)
      → HasRoom v
      → (length (push_back v t).items ≤ (push_back v t).physical)
        × (size (push_back v t) ≡ size v + 1)
        × HasRoom (copy_vector v)
  unfolding push_back copy_vector size grown
  push_back-HasRoom v t h =
      let len = length-append v.items (t ∷ []) in
      let room = h.room in
      let small = h.small in
      (
        elim (Bool-cases (length v.items == v.physical)) [
          | inl e ↦
              let full : length v.items ≡ v.physical = ground arith in
              rw e (omega (arith, len, full))
          | inr e ↦
              let free : length v.items < v.physical = ground arith in
              rw e (omega (arith, len, free))
        ],
        omega (arith, len),
        record { room = omega arith; small = omega arith },
      )

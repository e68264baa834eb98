-- ===== src/Marshal.antt =====
-- src/lib/marshal.cpp: data structures packed into a Block. What is thrown is an error; a marshaller
-- that returns 0 has failed for lack of room or of data.
pub mod Digits
mod Tests
pub mod Cursor
pub mod Int
pub mod Word
pub mod Uint
pub mod Uint64
pub mod Bool
pub mod Text
pub mod Interface
pub mod Leaves
pub mod PublicVector
pub mod Members
pub mod Ops
pub mod Manager

-- std::invalid_argument, std::logic_error, and what C++ leaves undefined: an object of another
-- type, or none, at an address that is read. `no_fuel` is none of the code: it is what a recursion on
-- fuel gives when the fuel was too little.
pub data Error : Type 0 where
  invalid_argument logic_error bad_object no_fuel : Error

pub data Result {ℓ} (A : Type ℓ) : Type ℓ where
  ok : A → Result A
  err : Error → Result A

infixl 5 ◌>>=◌
abbrev pub ◌>>=◌ {ℓ κ} : {A : Type ℓ} {B : Type κ} → Result A → (A → Result B) → Result B
ok a >>= f = f a
err e >>= f = err e

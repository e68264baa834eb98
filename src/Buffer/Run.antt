-- ===== src/Buffer/Run.antt =====
-- What a loop of src/lib/buffer.cpp or src/lib/socketbase.cpp ends in: a result, a failed assert of a
-- debug build, a use of what is gone (which C++ leaves undefined), or a count of rounds that was too
-- small.
use etwork.Common.{Bool, true, false}

pub data Run {ℓ} (A : Type ℓ) : Type ℓ where
  done : A → Run A
  assert_failed : Run A
  bad_access : Run A
  no_fuel : Run A

infixl 5 ◌>>=◌ ◌>>◌
abbrev pub ◌>>=◌ {ℓ κ} : {A : Type ℓ} {B : Type κ} → Run A → (A → Run B) → Run B
done a >>= f = f a
assert_failed >>= f = assert_failed
bad_access >>= f = bad_access
no_fuel >>= f = no_fuel

abbrev pub ◌>>◌ {ℓ} : {B : Type ℓ} → Run (Unit {0}) → Run B → Run B
m >> k = m >>= λ _. k

-- assert( test ) in a build with NDEBUG (`debug` is false) is no test.
abbrev pub assert : Bool → Bool → Run (Unit {0})
assert true false = assert_failed
assert true true = done tt
assert false test = done tt

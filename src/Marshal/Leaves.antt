-- ===== src/Marshal/Leaves.antt =====
-- The marshallers of src/lib/marshal.cpp for an int, an unsigned int, an unsigned long long, a double, a
-- bool and a string, as classes that derive from IMarshaller: the object is read from the memory and
-- written to it.
pub mod Carried
use etwork.Common.{ℕ, ◌+◌, Bool, true, false, Option, none, some, List, [], ◌∷◌}
use etwork.Common.Bytes.{add_size}
use etwork.Common.Int.{ℤ, pos}
use etwork.Block.{Block}
use etwork.Marshal.{Result, ok, err, ◌>>=◌, bad_object}
use etwork.Marshal.Interface.{
  Value, int_value, uint_value, uint64_value, bool_value, string_value, no_value, Memory, set,
  IMarshaller,
}
use etwork.Marshal.Int.{IntMarshaller}
use etwork.Marshal.Int as Int
use etwork.Marshal.Uint.{UintMarshaller}
use etwork.Marshal.Uint as Uint
use etwork.Marshal.Uint64.{Uint64Marshaller, double_marshaller, marshal_double, demarshal_double}
use etwork.Marshal.Uint64 as Uint64
use etwork.Marshal.Bool as Bool
use etwork.Marshal.Text.{StringMarshaller}
use etwork.Marshal.Text as Text

-- *(T *)dst = the value that was read, if one was.
abbrev pub assign {ℓ} :
    {A : Type ℓ} (value : A → Value)
    → Memory
    → ℕ
    → Block × Option (A × ℕ)
    → Result (Block × Memory × ℕ)
assign value to dst (src, none) = ok (src, to, 0)
assign value to dst (src, some (a, n)) = ok (src, set to dst (value a), n)

-- v = *(int const *)src
abbrev pub as_int : Value → Result ℤ
as_int (int_value v) = ok v
as_int _ = err bad_object

abbrev pub as_uint : Value → Result ℕ
as_uint (uint_value v) = ok v
as_uint _ = err bad_object

abbrev pub as_uint64 : Value → Result ℕ
as_uint64 (uint64_value v) = ok v
as_uint64 _ = err bad_object

abbrev pub as_bool : Value → Result Bool
as_bool (bool_value v) = ok v
as_bool _ = err bad_object

abbrev pub as_string : Value → Result (List ℕ)
as_string (string_value s) = ok s
as_string _ = err bad_object

unfoldable pub int_object : IntMarshaller → IMarshaller
int_object m = record {
  marshal = λ mem at dst. as_int (mem at) >>= λ v. Int.marshal m v dst;
  demarshal = λ src to dst. Int.demarshal m src >>= λ r. assign int_value to dst r;
  construct = λ mem at. set mem at (int_value (pos 0));
  instance_size = 4;
  max_marshalled_size = m.bytes;
}

unfoldable pub uint_object : UintMarshaller → IMarshaller
uint_object m = record {
  marshal = λ mem at dst. as_uint (mem at) >>= λ v. Uint.marshal m v dst;
  demarshal = λ src to dst. Uint.demarshal m src >>= λ r. assign uint_value to dst r;
  construct = λ mem at. set mem at (uint_value 0);
  instance_size = 4;
  max_marshalled_size = m.bytes;
}

unfoldable pub uint64_object : Uint64Marshaller → IMarshaller
uint64_object m = record {
  marshal = λ mem at dst. as_uint64 (mem at) >>= λ v. Uint64.marshal m v dst;
  demarshal = λ src to dst. Uint64.demarshal m src >>= λ r. assign uint64_value to dst r;
  construct = λ mem at. set mem at (uint64_value 0);
  instance_size = 8;
  max_marshalled_size = m.bytes;
}

-- The bit pattern of the double 0 is 0.
unfoldable pub double_object : IMarshaller
double_object = record {
  marshal = λ mem at dst. as_uint64 (mem at) >>= λ v. marshal_double v dst;
  demarshal = λ src to dst. demarshal_double src >>= λ r. assign uint64_value to dst r;
  construct = λ mem at. set mem at (uint64_value 0);
  instance_size = 8;
  max_marshalled_size = double_marshaller.bytes;
}

unfoldable pub bool_object : IMarshaller
bool_object = record {
  marshal = λ mem at dst. as_bool (mem at) >>= λ v. Bool.marshal v dst;
  demarshal = λ src to dst. Bool.demarshal src >>= λ r. assign bool_value to dst r;
  construct = λ mem at. set mem at (bool_value false);
  instance_size = 1;
  max_marshalled_size = 1;
}

-- The size of std::string is that of the C++ library.
unfoldable pub string_object : ℕ → StringMarshaller → IMarshaller
string_object sizeof_string m = record {
  marshal = λ mem at dst. as_string (mem at) >>= λ s. Text.marshal m s dst;
  demarshal = λ src to dst. Text.demarshal m src >>= λ r. assign string_value to dst r;
  construct = λ mem at. set mem at (string_value []);
  instance_size = sizeof_string;
  max_marshalled_size = add_size m.int_marshaller.bytes m.max_size;
}

-- ===== src/Marshal/Ops.antt =====
-- class MarshalOp of src/lib/marshal.cpp: the members that the MARSHAL_ macros of src/etwork/marshal.h add
-- to a description. addFloat stands with any marshaller of a float.
use etwork.Common.{ℕ, none, some, List}
use etwork.Common.Int.{ℤ}
use etwork.Marshal.Interface.{IMarshaller}
use etwork.Marshal.Int.{set_range}
use etwork.Marshal.Uint as Uint
use etwork.Marshal.Uint64 as Uint64
use etwork.Marshal.Text.{string_marshaller}
use etwork.Marshal.Leaves.{
  int_object, uint_object, uint64_object, double_object, bool_object, string_object,
}
use etwork.Marshal.PublicVector.{new_vector, push_back}
use etwork.Marshal.Members.{MemberDesc, TypeMarshal}

-- typeid( T ).name() of the types, and the size of std::string: the compiler's.
pub record Platform : Type 0 where
  pub int_name : List ℕ
  pub uint_name : List ℕ
  pub uint64_name : List ℕ
  pub float_name : List ℕ
  pub double_name : List ℕ
  pub bool_name : List ℕ
  pub string_name : List ℕ
  pub sizeof_string : ℕ

-- TypeMarshal( char const * name )
unfoldable pub new_type : List ℕ → TypeMarshal
new_type name = record {
  type_name = name;
  descs = new_vector;
  instance_size = 0;
  max_marshalled_size = 0;
}

unfoldable pub add_member : TypeMarshal → MemberDesc → TypeMarshal
add_member it md = record it { descs = push_back it.descs md }

unfoldable pub add_int : Platform → TypeMarshal → List ℕ → ℕ → ℤ → ℤ → TypeMarshal
add_int p it name offset min max = add_member it (record {
  name = name;
  offset = offset;
  type = p.int_name;
  marshaller = some (int_object (set_range min max));
})

unfoldable pub add_uint : Platform → TypeMarshal → List ℕ → ℕ → ℕ → TypeMarshal
add_uint p it name offset bits = add_member it (record {
  name = name;
  offset = offset;
  type = p.uint_name;
  marshaller = some (uint_object (Uint.set_bits bits));
})

unfoldable pub add_uint64 : Platform → TypeMarshal → List ℕ → ℕ → ℕ → TypeMarshal
add_uint64 p it name offset bits = add_member it (record {
  name = name;
  offset = offset;
  type = p.uint64_name;
  marshaller = some (uint64_object (Uint64.set_bits bits));
})

unfoldable pub add_float : Platform → TypeMarshal → List ℕ → ℕ → IMarshaller → TypeMarshal
add_float p it name offset float_object =
    add_member it
      (record { name = name; offset = offset; type = p.float_name; marshaller = some float_object })

unfoldable pub add_double : Platform → TypeMarshal → List ℕ → ℕ → TypeMarshal
add_double p it name offset =
    add_member it (record {
      name = name;
      offset = offset;
      type = p.double_name;
      marshaller = some double_object;
    })

unfoldable pub add_bool : Platform → TypeMarshal → List ℕ → ℕ → TypeMarshal
add_bool p it name offset =
    add_member it
      (record { name = name; offset = offset; type = p.bool_name; marshaller = some bool_object })

unfoldable pub add_string : Platform → TypeMarshal → List ℕ → ℕ → ℕ → TypeMarshal
add_string p it name offset max_size = add_member it (record {
  name = name;
  offset = offset;
  type = p.string_name;
  marshaller = some (string_object p.sizeof_string (string_marshaller max_size));
})

-- Its marshaller is found later, by resolve.
unfoldable pub add_some_type : TypeMarshal → List ℕ → List ℕ → ℕ → TypeMarshal
add_some_type it type_name name offset =
    add_member it (record { name = name; offset = offset; type = type_name; marshaller = none })

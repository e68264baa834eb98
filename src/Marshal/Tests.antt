-- ===== src/Marshal/Tests.antt =====
-- src/lib/marshal.cpp at concrete input: a block of twenty bytes, and a structure of an int and a string.
use etwork.Common.{
  Option, none, true, ℕ, ◌+◌, ◌^◌, ◌≤◌, ◌<◌, Bool, false, none, some, List, [], ◌∷◌, ◌++◌, ◌≡◌, ◌≢◌,
  refl, arith, length, All,
}
use etwork.Common.Int.{pos, negsuc}
use etwork.Common.Map.{find, insert}
use etwork.Block.{Block, IsBlock, seek, cur}
use etwork.Marshal.{ok, err, logic_error}
use etwork.Marshal.Digits.{put_bytes}
use etwork.Marshal.Cursor.{StandsAt}
use etwork.Marshal.Int.{set_range, set_range_bytes, set_range_wide, width, count_bytes}
use etwork.Marshal.Int as Int
use etwork.Marshal.Int.RoundTrip.{
  from_zero, between, digits, sum_or_throw, demarshal-marshal_from_zero, demarshal-marshal_shifted,
}
use etwork.Marshal.Uint as Uint
use etwork.Marshal.Manager.Typed.{
  Named, no_names, has_own, by_name, marshal_typed, demarshal_typed, marshal_typed_round_trip,
}
use etwork.Marshal.Uint64 as Uint64
use etwork.Marshal.Uint64.{demarshal-marshal_uint64, uint64_unchecked}
use etwork.Marshal.Text.{string_marshaller}
use etwork.Marshal.Text as Text
use etwork.Marshal.Text.RoundTrip.{demarshal-marshal_string, encoded}
use etwork.Marshal.Interface.{Memory, int_value, string_value, no_value, set}
use etwork.Block.{left, splice}
use etwork.Marshal.Cursor.{put_at, peek}
use etwork.Marshal.Digits.{get_bytes}
use etwork.Marshal.Leaves.{int_object, string_object}
use etwork.Marshal.Leaves.Carried.{int_object-Carries, string_object-Carries}
use etwork.Marshal.PublicVector.{
  PublicVector, HasRoom, push_back, size, copy_vector, push_back-HasRoom,
}
use etwork.Marshal.Members.{MemberDesc, TypeMarshal, marshal, demarshal}
use etwork.Marshal.Members.Carried.{AllCarried, no_members, a_member, demarshal-marshal_type}
use etwork.Marshal.Members.Failure.{
  Writes, not_written, writes, Reads, not_read, reads, type_marshal-Writes,
}
use etwork.Marshal.Manager.{MarshalManager, Declared, resolve, new_manager}
use etwork.Common.Map.{less_string, find}
use etwork.Marshal.Interface.{IMarshaller}
use etwork.Marshal.Manager as Manager
use etwork.Common.Map as Map
use etwork.Marshal.Manager.Announced.{resolve_type_round_trip}
use etwork.Marshal.Manager.Termination.{Completes, resolve-Completes}

abbrev blank : Block
blank = record {
  buf = 0 ∷ 0 ∷ 0 ∷ 0 ∷ 0 ∷ 0 ∷ 0 ∷ 0 ∷ 0 ∷ 0 ∷ 0 ∷ 0 ∷ 0 ∷ 0 ∷ 0 ∷ 0 ∷ 0 ∷ 0 ∷ 0 ∷ 0 ∷ [];
  size = 20;
  pos = 2;
  delete_it = false;
  at_eof = false;
}

blank-IsBlock : IsBlock blank
blank-IsBlock = record { sized = refl; inside = omega arith; small = omega arith }

set_range_wide_example : (set_range (negsuc 2147483647) (pos 2147483647)).bytes ≡ 1
set_range_wide_example =
    set_range_wide (negsuc 2147483647) (pos 2147483647) (omega arith) (omega arith) (omega arith)
      (omega arith)

thousand_bytes : (from_zero 1000).bytes ≡ 2
unfolding set_range count_bytes Int.range
thousand_bytes = refl

demarshal-marshal_from_zero_example :
    (b' : Block) × (Int.marshal (from_zero 1000) (pos 300) blank ≡ ok (b', (from_zero 1000).bytes))
    × (Int.demarshal (from_zero 1000) (seek b' 2) ≡ ok (b', some (pos 300, (from_zero 1000).bytes)))
demarshal-marshal_from_zero_example =
    demarshal-marshal_from_zero 1000 300 blank (omega arith) (omega arith) blank-IsBlock
      (omega (arith, thousand_bytes))

shifted_bytes : (between 100 200).bytes ≡ 1
unfolding set_range count_bytes Int.range
shifted_bytes = refl

shifted_fits : 150 < 256 ^ (between 100 200).bytes
shifted_fits = rw shifted_bytes (omega arith)

demarshal-marshal_shifted_example :
    (b' : Block) × (Int.marshal (between 100 200) (pos 150) blank
      ≡ ok (b', (between 100 200).bytes))
    × (Int.demarshal (between 100 200) (seek b' 2) ≡ sum_or_throw 100 200 150 b')
    × (Int.demarshal (between 100 200) (seek b' 2)
        ≢ ok (b', some (pos 150, (between 100 200).bytes)))
demarshal-marshal_shifted_example =
    demarshal-marshal_shifted 100 200 150 blank (omega arith) (omega arith) (omega arith)
      (omega arith) shifted_fits blank-IsBlock (omega (arith, shifted_bytes))

nine_bits : (Uint.set_bits 9).bytes ≡ 2
unfolding Uint.set_bits Uint.count_bytes
nine_bits = refl

-- A block where 0x0234 stands.
abbrev beyond : Block
beyond = record { buf = 2 ∷ 52 ∷ 0 ∷ []; size = 3; pos = 0; delete_it = false; at_eof = false }

beyond-IsBlock : IsBlock beyond
beyond-IsBlock = record { sized = refl; inside = omega arith; small = omega arith }

uint_stands : StandsAt beyond (put_bytes (Uint.set_bits 9).bytes 564 [])
unfolding cur put_bytes Uint.set_bits Uint.count_bytes
uint_stands = (0 ∷ [], refl)

uint_fits : 564 < 256 ^ (Uint.set_bits 9).bytes
uint_fits = rw nine_bits (omega arith)

nine_bits64 : (Uint64.set_bits 9).bytes ≡ 2
unfolding Uint64.set_bits
nine_bits64 = refl

uint64_stands : StandsAt beyond (put_bytes (Uint64.set_bits 9).bytes 564 [])
unfolding cur put_bytes Uint64.set_bits
uint64_stands = (0 ∷ [], refl)

uint64_fits : 564 < 256 ^ (Uint64.set_bits 9).bytes
uint64_fits = rw nine_bits64 (omega arith)

ten_bytes : (from_zero 10).bytes ≡ 1
unfolding set_range count_bytes Int.range
ten_bytes = refl

abbrev word : List ℕ
word = 104 ∷ 105 ∷ []

demarshal-marshal_string_example :
    (b' : Block) × (Text.marshal (string_marshaller 10) word blank
      ≡ ok (b', (from_zero 10).bytes + 2))
    × (Text.demarshal (string_marshaller 10) (seek b' 2)
        ≡ ok (b', some (word, (from_zero 10).bytes + 2)))
demarshal-marshal_string_example =
    demarshal-marshal_string 10 word blank (omega arith) (omega arith) blank-IsBlock
      (omega (arith, ten_bytes))

-- Three characters are announced, two follow.
abbrev cut : Block
cut = record { buf = 3 ∷ 104 ∷ 105 ∷ []; size = 3; pos = 0; delete_it = false; at_eof = false }

cut-IsBlock : IsBlock cut
cut-IsBlock = record { sized = refl; inside = omega arith; small = omega arith }

cut_stands : StandsAt cut (digits (from_zero 10) 3)
unfolding cur put_bytes set_range count_bytes Int.range
cut_stands = (104 ∷ 105 ∷ [], refl)

-- struct { int count; std::string name; } at address 50.
abbrev members : List MemberDesc
members =
    record { name = []; type = []; offset = 0; marshaller = some (int_object (from_zero 10)) }
    ∷ record {
      name = [];
      type = [];
      offset = 4;
      marshaller = some (string_object 28 (string_marshaller 10));
    }
    ∷ []

abbrev memory : Memory
memory = set (set (λ a. no_value) 50 (int_value (pos 7))) 54 (string_value word)

abbrev struct_bytes : List ℕ
struct_bytes = digits (from_zero 10) 7 ++ (encoded 10 word ++ [])

abbrev struct_max : ℕ
struct_max =
    (int_object (from_zero 10)).max_marshalled_size
    + ((string_object 28 (string_marshaller 10)).max_marshalled_size + 0)

struct_carried : AllCarried memory 50 members (0 ∷ 4 ∷ []) struct_bytes struct_max
struct_carried =
    a_member [] [] 0 _ (0 ∷ []) (digits (from_zero 10) 7)
      (int_object-Carries 10 7 memory 50 (omega arith) (omega arith) refl)
      (a_member [] [] 4 _ (0 ∷ []) (encoded 10 word)
        (string_object-Carries 28 10 word memory 54 (omega arith) (omega arith) refl) no_members)

abbrev struct : TypeMarshal
struct = record {
  type_name = [];
  descs = record { items = members; physical = 5 };
  instance_size = 32;
  max_marshalled_size = 12;
}

struct_max_12 : struct_max ≡ 12
unfolding int_object string_object string_marshaller set_range count_bytes Int.range
struct_max_12 = refl

struct_bytes_4 : length struct_bytes ≡ 4
unfolding put_bytes set_range count_bytes Int.range
struct_bytes_4 = refl

demarshal-marshal_type_example :
    (b' : Block) × (to' : Memory) × (e : Bool) × (marshal struct memory 50 blank
      ≡ ok (b', length struct_bytes))
    × (demarshal struct (seek b' 2) memory 100
        ≡ ok (record b' { at_eof = e }, to', length struct_bytes))
    × (length struct_bytes ≤ 12)
    × All (λ o. to' (100 + o) ≡ memory (50 + o)) (0 ∷ 4 ∷ [])
demarshal-marshal_type_example =
    demarshal-marshal_type struct memory 50 (0 ∷ 4 ∷ []) struct_bytes struct_max blank memory 100
      struct_carried (omega (arith, struct_bytes_4)) (omega (arith, struct_max_12)) blank-IsBlock
      (omega arith)

resolve_type_round_trip_example :
    (t' : TypeMarshal) × (b' : Block) × (to' : Memory) × (e : Bool) × (Manager.resolve_type
        (Manager.marshaller 1)
        new_manager
        struct
      ≡ ok (new_manager, t'))
    × (t'.max_marshalled_size ≡ struct_max)
    × (marshal t' memory 50 blank ≡ ok (b', length struct_bytes))
    × (demarshal t' (seek b' 2) memory 100
        ≡ ok (record b' { at_eof = e }, to', length struct_bytes))
    × All (λ o. to' (100 + o) ≡ memory (50 + o)) (0 ∷ 4 ∷ [])
resolve_type_round_trip_example =
    resolve_type_round_trip (Manager.marshaller 1) new_manager struct memory 50 (0 ∷ 4 ∷ [])
      struct_bytes struct_max blank memory 100 struct_carried (omega (arith, struct_bytes_4))
      (omega (arith, struct_max_12)) blank-IsBlock (omega (arith, struct_max_12))

-- A number and the length of a string that is cut off.
abbrev half : Block
half = record { buf = 7 ∷ 2 ∷ 104 ∷ []; size = 3; pos = 0; delete_it = false; at_eof = false }

abbrev one_byte : Block
one_byte = record { buf = 7 ∷ 104 ∷ 105 ∷ []; size = 3; pos = 1; delete_it = false; at_eof = false }

cut-Writes : Writes memory 50 members cut one_byte false
unfolding int_object Int.marshal set_range left put_at seek splice put_bytes string_object
    Text.marshal string_marshaller
cut-Writes = writes refl first_written (omega arith) (not_written refl second_failed)
  where
    first_written : (int_object (from_zero 10)).marshal memory 50 cut ≡ ok (one_byte, 1)
    first_written = refl

    second_failed :
        (string_object 28 (string_marshaller 10)).marshal memory 54 one_byte ≡ ok (one_byte, 0)
    second_failed = refl

abbrev read_one : Block
read_one = record half { pos = 1 }

half-Reads : Reads 100 members half memory read_one (set memory 100 (int_value (pos 7))) false
unfolding int_object Int.demarshal left set_range Int.decode get_bytes peek cur seek string_object
    Text.demarshal string_marshaller Text.read_chars
half-Reads = reads refl first_read (omega arith) (not_read refl second_failed)
  where
    first_read :
        (int_object (from_zero 10)).demarshal half memory 100
        ≡ ok (read_one, set memory 100 (int_value (pos 7)), 1)
    first_read = refl

    second_failed :
        (string_object 28 (string_marshaller 10)).demarshal read_one
          (set memory 100 (int_value (pos 7)))
          104
        ≡ ok (read_one, set memory 100 (int_value (pos 7)), 0)
    second_failed = refl

type_marshal-Writes_example :
    (marshal struct memory 50 cut ≡ ok (seek one_byte 0, 0))
    × (demarshal struct half memory 100
        ≡ ok (seek read_one 0, set memory 100 (int_value (pos 7)), 0))
type_marshal-Writes_example =
    type_marshal-Writes struct memory 50 cut one_byte false memory
      (set memory 100 (int_value (pos 7))) 100 half read_one false cut-Writes half-Reads

abbrev three_items : PublicVector ℕ
three_items = record { items = 1 ∷ 2 ∷ 3 ∷ []; physical = 3 }

push_back-HasRoom_example :
    (length (push_back three_items 4).items ≤ (push_back three_items 4).physical)
    × (size (push_back three_items 4) ≡ size three_items + 1)
    × HasRoom (copy_vector three_items)
push_back-HasRoom_example =
    push_back-HasRoom three_items 4 (record { room = omega arith; small = omega arith })

-- A structure that has itself as a member.
abbrev cyclic : MarshalManager
cyclic = record {
  int_marshallers = [];
  string_marshallers = [];
  to_resolve =
      ((
        65 ∷ [],
        record {
          id = 1;
          description = record {
            type_name = 65 ∷ [];
            descs = record {
              items = record { name = []; type = 65 ∷ []; offset = 0; marshaller = none } ∷ [];
              physical = 5;
            };
            instance_size = 0;
            max_marshalled_size = 0;
          };
          construct = λ m _. m;
        },
      )
        ∷ []);
  ids = [];
}

cyclic_test : resolve 2 cyclic ≡ err logic_error
unfolding resolve Manager.resolve_round Manager.resolve_entry Manager.resolve_type
    Manager.resolve_members Manager.find_marshaller Manager.marshaller Manager.found_or_taken find
    Map.erase
cyclic_test = refl

abbrev a_declaration : Declared
a_declaration = record { id = 2; description = struct; construct = λ m _. m }

resolve-Completes_example : Completes (resolve 2 cyclic)
resolve-Completes_example = resolve-Completes 2 cyclic (omega arith)

-- The same members, the number by the name of its type, and as they are resolved.
abbrev text_member : MemberDesc
text_member = record {
  name = [];
  type = [];
  offset = 4;
  marshaller = some (string_object 28 (string_marshaller 10));
}

abbrev number : Option IMarshaller → MemberDesc
number m = record { name = []; type = 67 ∷ []; offset = 0; marshaller = m }

abbrev by_names : Declared
by_names = record {
  id = 2;
  description = record struct {
    descs = record { items = number none ∷ text_member ∷ []; physical = 5 };
  };
  construct = λ m _. m;
}

abbrev knowing : MarshalManager
knowing = record {
  int_marshallers = [];
  string_marshallers = (67 ∷ [], int_object (from_zero 10)) ∷ [];
  to_resolve = (66 ∷ [], by_names) ∷ [];
  ids = [];
}

not_known : find less_string (66 ∷ []) knowing.string_marshallers ≡ none
unfolding find
not_known = refl

declared_one : find less_string (66 ∷ []) knowing.to_resolve ≡ some by_names
unfolding find
declared_one = refl

members-Named :
    Named knowing.string_marshallers
      (number none ∷ text_member ∷ [])
      (number (some (int_object (from_zero 10))) ∷ text_member ∷ [])
unfolding find
members-Named = by_name refl refl (has_own refl no_names)

named_carried :
    AllCarried memory 50
      (number (some (int_object (from_zero 10))) ∷ text_member ∷ [])
      (0 ∷ 4 ∷ [])
      struct_bytes
      struct_max
named_carried =
    a_member [] (67 ∷ []) 0 _ (0 ∷ []) (digits (from_zero 10) 7)
      (int_object-Carries 10 7 memory 50 (omega arith) (omega arith) refl)
      (a_member [] [] 4 _ (0 ∷ []) (encoded 10 word)
        (string_object-Carries 28 10 word memory 54 (omega arith) (omega arith) refl) no_members)

marshal_typed_round_trip_example :
    (mgr' : MarshalManager) × (o' : Block) × (to' : Memory) × (e : Bool) × (marshal_typed 2 knowing
        (66 ∷ [])
        memory
        50
        blank
      ≡ ok (mgr', o', true))
    × (demarshal_typed 2 mgr' (66 ∷ []) memory 100 (seek o' 2)
        ≡ ok (mgr', record o' { at_eof = e }, to', true))
    × All (λ f. to' (100 + f) ≡ memory (50 + f)) (0 ∷ 4 ∷ [])
marshal_typed_round_trip_example =
    marshal_typed_round_trip 0 knowing (66 ∷ []) by_names
      (number (some (int_object (from_zero 10))) ∷ text_member ∷ []) memory 50 (0 ∷ 4 ∷ [])
      struct_bytes struct_max blank memory 100 not_known declared_one members-Named named_carried
      (omega (arith, struct_bytes_4)) (omega (arith, struct_max_12)) blank-IsBlock
      (omega (arith, struct_max_12))

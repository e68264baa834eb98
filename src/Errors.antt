-- ===== src/Errors.antt =====
-- class EtworkError of src/lib/errors.cpp and the enumerations of src/etwork/errors.h: a severity, an area
-- and an option in the bits of one int, and the text that describes them.
pub mod Wsa
mod Tests
pub mod Codes
pub mod Notify
pub mod SystemText
use etwork.Common.{
  Option, none, some, ℕ, ◌+◌, ◌*◌, ◌/◌, ◌%◌, ◌^◌, Bool, true, false, not, ◌==◌, if◌then◌else◌,
}
use Prim.Native.String.{String, ◌++◌ as ◌<>◌}

pub data ErrorSeverity : Type 0 where
  note warning error catastrophe internal : ErrorSeverity

pub data ErrorArea : Type 0 where
  init address connect buffer session dispose unknown : ErrorArea

pub data ErrorOption : Type 0 where
  no_error unknown_error unsupported_version unsupported_platform invalid_parameters buffer_full
        out_of_resources bad_address already_in_use peer_refused peer_dropped peer_timeout
        peer_violation internal_error :
      ErrorOption

abbrev pub severity_code : ErrorSeverity → ℕ
severity_code note = 0
severity_code warning = 67108864
severity_code error = 134217728
severity_code catastrophe = 201326592
severity_code internal = 268435456

abbrev pub area_code : ErrorArea → ℕ
area_code init = 65536
area_code address = 131072
area_code connect = 196608
area_code buffer = 262144
area_code session = 327680
area_code dispose = 393216
area_code unknown = 458752

abbrev pub option_code : ErrorOption → ℕ
option_code no_error = 0
option_code unknown_error = 1
option_code unsupported_version = 2
option_code unsupported_platform = 3
option_code invalid_parameters = 4
option_code buffer_full = 5
option_code out_of_resources = 6
option_code bad_address = 7
option_code already_in_use = 8
option_code peer_refused = 9
option_code peer_dropped = 10
option_code peer_timeout = 11
option_code peer_violation = 12
option_code internal_error = 13

-- The int as its bits, and the text that has been made or set.
pub record EtworkError : Type 0 where
  pub code : ℕ
  pub text : Option String

-- EtworkError()
unfoldable pub no_etwork_error : EtworkError
no_etwork_error = record { code = 0; text = none }

-- EtworkError( int severity, int area, int option ). With the three in their masks, as is asserted,
-- the bits are disjoint and the or of them is a sum.
unfoldable pub new_error : ℕ → ℕ → ℕ → EtworkError
new_error severity area option = record { code = severity + area + option; text = none }

-- error_ & ES_mask, 0x7f000000
unfoldable pub severity : EtworkError → ℕ
severity e = e.code / 2 ^ 24 % 2 ^ 7 * 2 ^ 24

-- error_ & EA_mask, 0xff0000
unfoldable pub area : EtworkError → ℕ
area e = e.code / 2 ^ 16 % 2 ^ 8 * 2 ^ 16

-- error_ & EO_mask, 0xffff
unfoldable pub option : EtworkError → ℕ
option e = e.code % 2 ^ 16

-- operator=( int err ), which keeps the text.
unfoldable pub assign_code : EtworkError → ℕ → EtworkError
assign_code e code = record e { code = code }

-- The copy of an error, by construction and by assignment.
unfoldable pub copy_error : EtworkError → EtworkError
copy_error o = record { code = o.code; text = o.text }

-- operator==
unfoldable pub same_error : EtworkError → EtworkError → Bool
same_error a b = a.code == b.code

-- operator bool
unfoldable pub is_error : EtworkError → Bool
is_error e = not (e.code == 0)

unfoldable pub severity_str : ℕ → String
severity_str sev =
    let s = sev / 2 ^ 24 % 2 ^ 7 * 2 ^ 24 in
    if s == 268435456
    then "internal error"
    else if s == 201326592
    then "catastrophic error"
    else if s == 134217728
    then "runtime error"
    else if s == 67108864
    then "runtime warning"
    else if s == 0
    then "runtime note"
    else "illegal severity code"

unfoldable pub area_str : ℕ → String
area_str area =
    let a = area / 2 ^ 16 % 2 ^ 8 * 2 ^ 16 in
    if a == 458752
    then "unknown area"
    else if a == 393216
    then "dispose"
    else if a == 327680
    then "session"
    else if a == 262144
    then "buffer"
    else if a == 196608
    then "connection"
    else if a == 131072
    then "address"
    else if a == 65536
    then "initialization"
    else "illegal area code"

unfoldable pub option_str : ℕ → String
option_str option =
    let o = option % 2 ^ 16 in
    if o == 0
    then "no error"
    else if o == 1
    then "unknown error"
    else if o == 2
    then "unsupported version"
    else if o == 3
    then "unsupported platform"
    else if o == 4
    then "invalid parameters"
    else if o == 5
    then "buffer full"
    else if o == 6
    then "out of resources"
    else if o == 7
    then "bad address"
    else if o == 8
    then "already in use"
    else if o == 9
    then "peer refused connection"
    else if o == 10
    then "peer dropped connection"
    else if o == 11
    then "peer timed out"
    else if o == 12
    then "peer violated protocol"
    else "illegal option code"

-- The text that c_str makes: the texts of the three fit into its buffer.
unfoldable pub describe : EtworkError → String
describe e =
    severity_str (severity e) <> " in " <> area_str (area e) <> ": " <> option_str (option e)

-- c_str keeps the text that it makes.
unfoldable pub c_str : EtworkError → EtworkError × String
c_str e = elim e.text [
  | none ↦ let text = describe e in (record e { text = some text }, text)
  | some text ↦ (e, text)
]

-- setText; none is the null pointer.
unfoldable pub set_text : EtworkError → Option String → EtworkError
set_text e text = record e { text = text }

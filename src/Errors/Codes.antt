-- ===== src/Errors/Codes.antt =====
-- src/lib/errors.cpp: the bits of an error and its text.
use etwork.Common.{
  ℕ, ◌+◌, ◌*◌, ◌%◌, ◌^◌, ◌<◌, true, false, ◌≡◌, ◌≢◌, refl, ap, ◌⊎◌, inl, inr, arith, ◌==◌,
}
use Prim.Native.String.{String}
use Prim.Native.Char.{code}
use etwork.Errors.{
  EtworkError, new_error, severity, area, option, assign_code, copy_error, same_error, is_error,
  severity_code, area_code, option_code, ErrorSeverity, note, warning, error, catastrophe, internal,
  ErrorArea, init, address, connect, buffer, session, dispose, unknown, ErrorOption, no_error,
  unknown_error, unsupported_version, unsupported_platform, invalid_parameters, buffer_full,
  out_of_resources, bad_address, already_in_use, peer_refused, peer_dropped, peer_timeout,
  peer_violation, internal_error, option_str,
}

severity_code_mask :
    (s : ErrorSeverity) → (severity_code s % 2 ^ 24 ≡ 0) × (severity_code s < 2 ^ 31)
severity_code_mask note = ground arith
severity_code_mask warning = ground arith
severity_code_mask error = ground arith
severity_code_mask catastrophe = ground arith
severity_code_mask internal = ground arith

area_code_mask :
    (a : ErrorArea) → (area_code a % 2 ^ 16 ≡ 0) × (0 < area_code a) × (area_code a < 2 ^ 24)
area_code_mask init = ground arith
area_code_mask address = ground arith
area_code_mask connect = ground arith
area_code_mask buffer = ground arith
area_code_mask session = ground arith
area_code_mask dispose = ground arith
area_code_mask unknown = ground arith

option_code_mask : (o : ErrorOption) → option_code o < 2 ^ 16
option_code_mask no_error = ground arith
option_code_mask unknown_error = ground arith
option_code_mask unsupported_version = ground arith
option_code_mask unsupported_platform = ground arith
option_code_mask invalid_parameters = ground arith
option_code_mask buffer_full = ground arith
option_code_mask out_of_resources = ground arith
option_code_mask bad_address = ground arith
option_code_mask already_in_use = ground arith
option_code_mask peer_refused = ground arith
option_code_mask peer_dropped = ground arith
option_code_mask peer_timeout = ground arith
option_code_mask peer_violation = ground arith
option_code_mask internal_error = ground arith

-- The error of three enumerators.
abbrev pub error_of : ErrorSeverity → ErrorArea → ErrorOption → EtworkError
error_of s a o = new_error (severity_code s) (area_code a) (option_code o)

pub severity-new_error :
    (s : ErrorSeverity) (a : ErrorArea) (o : ErrorOption)
    → severity (error_of s a o) ≡ severity_code s
unfolding severity new_error
severity-new_error s a o =
    let (sm, ss) = severity_code_mask s in
    let (am, ap', as') = area_code_mask a in let om = option_code_mask o in omega arith

-- severity(), area() and option() give back the three enumerators that an error was made of, also when
-- it went through an int, and it counts as an error.
pub error_of_parts :
    (s : ErrorSeverity) (a : ErrorArea) (o : ErrorOption) (other : EtworkError)
    → let e = assign_code other (error_of s a o).code in
      (severity e ≡ severity_code s)
      × (area e ≡ area_code a)
      × (option e ≡ option_code o)
      × (is_error e ≡ true)
      × (same_error e (copy_error (error_of s a o)) ≡ true)
unfolding severity area option assign_code new_error is_error same_error copy_error
error_of_parts s a o other =
    let (sm, ss) = severity_code_mask s in
    let (am, ap', as') = area_code_mask a in
    let om = option_code_mask o in
    (omega arith, omega arith, omega arith, ground arith, ground arith)

-- A number of a text, which tells some texts apart.
abbrev measure : String → ℕ
measure String.[] = 0
measure (String.◌∷◌ c s) = code c + 2 * measure s

different : (s t : String) → (measure s == measure t) ≡ false → s ≢ t
different s t e p = unequal (measure s) (measure t) e (ap measure p)
  where
    unequal : (m n : ℕ) → (m == n) ≡ false → m ≡ n → ⊥
    unequal m n e q = ground arith

illegal : (s : String) → (measure s == measure (option_str 65535)) ≡ false → s ≢ option_str 65535
illegal s e = different s (option_str 65535) e

-- option_str has a text of its own for every option but internal_error, which is told as an illegal code.
pub option_str_names :
    (o : ErrorOption)
    → ((o ≡ internal_error) × (option_str (option_code o) ≡ option_str 65535))
      ⊎ (option_str (option_code o) ≢ option_str 65535)
unfolding option_str
option_str_names no_error = inr (illegal (option_str (option_code no_error)) refl)
option_str_names unknown_error = inr (illegal (option_str (option_code unknown_error)) refl)
option_str_names unsupported_version =
    inr (illegal (option_str (option_code unsupported_version)) refl)
option_str_names unsupported_platform =
    inr (illegal (option_str (option_code unsupported_platform)) refl)
option_str_names invalid_parameters =
    inr (illegal (option_str (option_code invalid_parameters)) refl)
option_str_names buffer_full = inr (illegal (option_str (option_code buffer_full)) refl)
option_str_names out_of_resources = inr (illegal (option_str (option_code out_of_resources)) refl)
option_str_names bad_address = inr (illegal (option_str (option_code bad_address)) refl)
option_str_names already_in_use = inr (illegal (option_str (option_code already_in_use)) refl)
option_str_names peer_refused = inr (illegal (option_str (option_code peer_refused)) refl)
option_str_names peer_dropped = inr (illegal (option_str (option_code peer_dropped)) refl)
option_str_names peer_timeout = inr (illegal (option_str (option_code peer_timeout)) refl)
option_str_names peer_violation = inr (illegal (option_str (option_code peer_violation)) refl)
option_str_names internal_error = inl (refl, refl)

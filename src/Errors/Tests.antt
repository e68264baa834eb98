-- ===== src/Errors/Tests.antt =====
-- src/lib/errors.cpp at concrete input.
use etwork.Common.{ℕ, true, false, none, some, List, [], ◌∷◌, ◌≡◌, refl, arith, take}
use etwork.Errors.{
  EtworkError, no_etwork_error, assign_code, severity, area, option, is_error, same_error,
  copy_error, severity_code, area_code, option_code, warning, session, internal_error, c_str,
  describe, option_str, severity_str, area_str, new_error, error, connect, peer_refused,
}
use etwork.Errors.Codes.{error_of, error_of_parts}
use etwork.Errors.Wsa.{wsaeconnrefused, wsa_severity}
use etwork.Errors.Notify.{Globals, Settings, SocketRef, is_grave}
use etwork.Errors.SystemText.{get_error_string, get_error_string_lem, without}

c_str_test :
    (c_str (error_of error connect peer_refused)).1
    ≡ "runtime error in connection: peer refused connection"
unfolding c_str describe option_str severity_str area_str severity area option new_error
c_str_test = refl

error_of_parts_example :
    let e = assign_code no_etwork_error (error_of warning session internal_error).code in
    (severity e ≡ severity_code warning)
    × (area e ≡ area_code session)
    × (option e ≡ option_code internal_error)
    × (is_error e ≡ true)
    × (same_error e (copy_error (error_of warning session internal_error)) ≡ true)
error_of_parts_example = error_of_parts warning session internal_error no_etwork_error

abbrev nobody : Globals
nobody = record { error_notify = none; debugging = false }

refused-grave : is_grave (wsa_severity wsaeconnrefused) ≡ true
unfolding wsa_severity
refused-grave = refl

abbrev first : Settings
first = record { notify = some 100; debug = false }

abbrev second : Settings
second = record { notify = some 200; debug = true }

abbrev a_socket : SocketRef
a_socket = record { id = 7; mgr = first }

abbrev refused : EtworkError
refused = error_of error connect peer_refused

-- "a." and a line end.
abbrev text_of : ℕ → List ℕ
text_of n = 97 ∷ 46 ∷ 13 ∷ 10 ∷ []

get_error_string_lem_example :
    get_error_string text_of 5 ≡ without 46 (without 13 (without 10 (take 2047 (text_of 5))))
get_error_string_lem_example = get_error_string_lem text_of 5 (λ p. ground arith)

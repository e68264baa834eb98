-- ===== src/Errors/Wsa.antt =====
-- src/lib/errors.cpp, GetWsaError: what Etwork makes of an error of WinSock.
use etwork.Common.{ℕ}
use etwork.Errors.{
  EtworkError, new_error, ErrorSeverity, warning, error, catastrophe, severity_code, ErrorOption,
  option_code, ErrorArea, area_code, unknown_error, unsupported_version, unsupported_platform,
  invalid_parameters, out_of_resources, bad_address, already_in_use, peer_refused, peer_dropped,
  peer_timeout,
}

-- The codes of WinSock's header that the code names, and any other number.
pub data WsaError : Type 0 where
  wsaeintr wsaeacces wsaefault wsaeinval wsaemfile wsaewouldblock wsaeinprogress wsaealready
        wsaenotsock wsaedestaddrreq wsaemsgsize wsaeprototype wsaenoprotoopt wsaeprotonosupport
        wsaesocktnosupport wsaeopnotsupp wsaepfnosupport wsaeafnosupport wsaeaddrinuse
        wsaeaddrnotavail wsaenetdown wsaenetunreach wsaenetreset wsaeconnaborted wsaeconnreset
        wsaenobufs wsaeisconn wsaenotconn wsaeshutdown wsaetimedout wsaeconnrefused wsaehostdown
        wsaehostunreach wsaeproclim wsasysnotready wsavernotsupported wsanotinitialised wsaediscon
        wsatype_not_found wsahost_not_found wsatry_again wsano_recovery wsano_data
        wsa_invalid_handle wsa_invalid_parameter wsa_io_incomplete wsa_io_pending
        wsa_not_enough_memory wsa_operation_aborted wsasyscallfailure :
      WsaError
  other : ℕ → WsaError

unfoldable pub wsa_option : WsaError → ErrorOption
wsa_option wsaeacces = already_in_use
wsa_option wsaefault = invalid_parameters
wsa_option wsaeinval = invalid_parameters
wsa_option wsaemfile = out_of_resources
wsa_option wsaealready = invalid_parameters
wsa_option wsaenotsock = invalid_parameters
wsa_option wsaedestaddrreq = invalid_parameters
wsa_option wsaemsgsize = out_of_resources
wsa_option wsaeprototype = invalid_parameters
wsa_option wsaenoprotoopt = invalid_parameters
wsa_option wsaeprotonosupport = unsupported_platform
wsa_option wsaesocktnosupport = unsupported_platform
wsa_option wsaeopnotsupp = invalid_parameters
wsa_option wsaepfnosupport = unsupported_platform
wsa_option wsaeafnosupport = unsupported_platform
wsa_option wsaeaddrinuse = already_in_use
wsa_option wsaeaddrnotavail = invalid_parameters
wsa_option wsaenetdown = out_of_resources
wsa_option wsaenetunreach = bad_address
wsa_option wsaenetreset = out_of_resources
wsa_option wsaeconnaborted = peer_timeout
wsa_option wsaeconnreset = peer_dropped
wsa_option wsaenobufs = out_of_resources
wsa_option wsaeisconn = invalid_parameters
wsa_option wsaenotconn = invalid_parameters
wsa_option wsaeshutdown = invalid_parameters
wsa_option wsaetimedout = peer_timeout
wsa_option wsaeconnrefused = peer_refused
wsa_option wsaehostdown = peer_timeout
wsa_option wsaehostunreach = bad_address
wsa_option wsaeproclim = out_of_resources
wsa_option wsasysnotready = unsupported_platform
wsa_option wsavernotsupported = unsupported_version
wsa_option wsaediscon = peer_dropped
wsa_option wsahost_not_found = bad_address
wsa_option wsatry_again = bad_address
wsa_option wsano_recovery = bad_address
wsa_option wsano_data = bad_address
wsa_option wsa_invalid_handle = invalid_parameters
wsa_option wsa_invalid_parameter = invalid_parameters
wsa_option wsa_not_enough_memory = out_of_resources
wsa_option wsa_operation_aborted = peer_dropped
wsa_option _ = unknown_error

unfoldable pub wsa_severity : WsaError → ErrorSeverity
wsa_severity wsaemfile = catastrophe
wsa_severity wsaewouldblock = warning
wsa_severity wsaeinprogress = warning
wsa_severity wsaedestaddrreq = catastrophe
wsa_severity wsaemsgsize = warning
wsa_severity wsaeprotonosupport = catastrophe
wsa_severity wsaesocktnosupport = catastrophe
wsa_severity wsaepfnosupport = catastrophe
wsa_severity wsaeafnosupport = catastrophe
wsa_severity wsaeisconn = catastrophe
wsa_severity wsaenotconn = catastrophe
wsa_severity wsaeproclim = catastrophe
wsa_severity wsasysnotready = catastrophe
wsa_severity wsavernotsupported = catastrophe
wsa_severity wsanotinitialised = catastrophe
wsa_severity wsa_invalid_handle = catastrophe
wsa_severity wsa_invalid_parameter = catastrophe
wsa_severity _ = error

unfoldable pub get_wsa_error : WsaError → ErrorArea → EtworkError
get_wsa_error wsa_error area =
    new_error (severity_code (wsa_severity wsa_error)) (area_code area)
      (option_code (wsa_option wsa_error))

-- ===== src/Errors/Notify.antt =====
-- src/lib/errors.cpp: who is told of an error, and whether it leaves a chance of going on. A notify is
-- an address; what it is told, and what goes to the debugger, are events.
use etwork.Common.{
  ℕ, Bool, true, false, not, ◌||◌, Option, none, some, List, [], ◌∷◌, ◌≡◌, refl, ltb, leb, length,
  if◌then◌else◌,
}
use Prim.Native.String.{String}
use etwork.Errors.{
  EtworkError, new_error, severity, severity_code, area_code, option_code, set_text, ErrorSeverity,
  note, warning, error, catastrophe, internal, ErrorArea, unknown, unknown_error, no_error,
}
use etwork.Errors.Wsa.{WsaError, get_wsa_error, wsa_severity, wsa_option}
use etwork.Errors.Codes.{severity-new_error}

-- info.osError: none for 0, an error of WinSock, or the -1 of a failed assertion.
pub data OsError : Type 0 where
  none_os minus_one : OsError
  wsa : WsaError → OsError

-- settings_.notify and settings_.debug of a manager.
pub record Settings : Type 0 where
  pub notify : Option ℕ
  pub debug : Bool

-- A socket that is named in an error, and its mgr_.
pub record SocketRef : Type 0 where
  pub id : ℕ
  pub mgr : Settings

pub record ErrorInfo : Type 0 where
  pub error : EtworkError
  pub os_error : OsError
  pub socket : Option SocketRef

-- gErrorNotify and gDebugging.
pub record Globals : Type 0 where
  pub error_notify : Option ℕ
  pub debugging : Bool

pub data Event : Type 0 where
  on_socket_error : ℕ → ErrorInfo → Event
  output_debug : ErrorInfo → Event

unfoldable pub set_etwork_error_notify : Globals → Option ℕ → Globals
set_etwork_error_notify g notify = record g { error_notify = notify }

-- smgr->settings_.notify if there is a manager that has one, else what there was.
unfoldable pub prefer : Option Settings → Option ℕ → Option ℕ
prefer none en = en
prefer (some s) en = elim s.notify [ none ↦ en | some n ↦ some n ]

-- sm && sm->settings_.debug
unfoldable pub debugs : Option Settings → Bool
debugs none = false
debugs (some s) = s.debug

unfoldable pub tell : Option ℕ → Bool → ErrorInfo → List Event
tell (some n) quietly info = on_socket_error n info ∷ []
tell none loud info = if loud then output_debug info ∷ [] else []

-- info.error.severity() < ES_catastrophe
unfoldable pub goes_on : EtworkError → Bool
goes_on e = ltb (severity e) (severity_code catastrophe)

unfoldable pub wsa_error_from :
    Globals → Option SocketRef → Option Settings → WsaError → ErrorArea → List Event × Bool
wsa_error_from g sock mgr wsa_err area =
    let e = get_wsa_error wsa_err area in
    let info : ErrorInfo = record { error = e; os_error = wsa wsa_err; socket = sock } in
    (
      tell (prefer mgr g.error_notify)
          (leb (severity_code error) (severity e) || debugs mgr || g.debugging) info,
      goes_on e,
    )

abbrev pub mgr_of : Option SocketRef → Option Settings
mgr_of none = none
mgr_of (some s) = some s.mgr

-- wsa_error_from( sock, wsaErr, area )
unfoldable pub wsa_error_from_socket :
    Globals → Option SocketRef → WsaError → ErrorArea → List Event × Bool
wsa_error_from_socket g sock wsa_err area = wsa_error_from g sock (mgr_of sock) wsa_err area

unfoldable pub wsa_error : Globals → WsaError → ErrorArea → List Event × Bool
wsa_error g wsa_err area = wsa_error_from g none none wsa_err area

unfoldable pub etwork_error_from :
    Globals → Option SocketRef → Option Settings → EtworkError → List Event × Bool
etwork_error_from g sock mgr e =
    let info : ErrorInfo = record { error = e; os_error = none_os; socket = sock } in
    (tell (prefer mgr g.error_notify) (debugs mgr || g.debugging) info, goes_on e)

abbrev pub manager_asked : Option SocketRef → Option Settings → Option Settings
manager_asked none mgr = mgr
manager_asked (some s) mgr = some s.mgr

-- The manager of the socket, if the error names one, is asked before the manager that is given.
unfoldable pub etwork_info_from : Globals → Option Settings → ErrorInfo → List Event × Bool
etwork_info_from g mgr info =
    let sm = manager_asked info.socket mgr in
    let en = prefer (mgr_of info.socket) (prefer mgr g.error_notify) in
    (tell en (debugs sm || g.debugging) info, goes_on info.error)

-- etwork_log, with its text formatted: the socket that it is given is not named in the error.
unfoldable pub etwork_log : Globals → Option SocketRef → ErrorSeverity → String → List Event × Bool
etwork_log g sock sev text = etwork_info_from g none (record {
  error =
      set_text (new_error (severity_code sev) (area_code unknown) (option_code no_error))
        (some text);
  os_error = none_os;
  socket = none;
})

-- assert_failure, up to the dialog that it shows without a notify.
unfoldable pub assert_failure : Globals → String → List Event
assert_failure g text = tell g.error_notify true (record {
  error =
      set_text (new_error (severity_code internal) (area_code unknown) (option_code unknown_error))
        (some text);
  os_error = minus_one;
  socket = none;
})

-- The severities with no chance of going on, and those that are worth a message of their own.
abbrev pub is_fatal : ErrorSeverity → Bool
is_fatal catastrophe = true
is_fatal internal = true
is_fatal _ = false

abbrev pub is_grave : ErrorSeverity → Bool
is_grave note = false
is_grave warning = false
is_grave _ = true

code_is_fatal :
    (s : ErrorSeverity) → ltb (severity_code s) (severity_code catastrophe) ≡ not (is_fatal s)
code_is_fatal note = refl
code_is_fatal warning = refl
code_is_fatal error = refl
code_is_fatal catastrophe = refl
code_is_fatal internal = refl

code_is_grave : (s : ErrorSeverity) → leb (severity_code error) (severity_code s) ≡ is_grave s
code_is_grave note = refl
code_is_grave warning = refl
code_is_grave error = refl
code_is_grave catastrophe = refl
code_is_grave internal = refl

severity-get_wsa_error :
    (w : WsaError) (a : ErrorArea) → severity (get_wsa_error w a) ≡ severity_code (wsa_severity w)
unfolding get_wsa_error
severity-get_wsa_error w a = severity-new_error (wsa_severity w) a (wsa_option w)

length-tell_loud : (en : Option ℕ) (info : ErrorInfo) → length (tell en true info) ≡ 1
unfolding tell
length-tell_loud none info = refl
length-tell_loud (some n) info = refl

-- An error of WinSock that is at least an error, not a warning, is told exactly once, whoever is there to
-- hear of it and whether anybody debugs; the result says whether its severity leaves a chance of
-- going on.
pub wsa_error_from_lem :
    (g : Globals) (sock : Option SocketRef) (mgr : Option Settings) (w : WsaError) (a : ErrorArea)
    → is_grave (wsa_severity w) ≡ true
    → (length (wsa_error_from g sock mgr w a).0 ≡ 1)
      × ((wsa_error_from g sock mgr w a).1 ≡ not (is_fatal (wsa_severity w)))
unfolding wsa_error_from goes_on
wsa_error_from_lem g sock mgr w a h = (
  rw (severity-get_wsa_error w a, code_is_grave (wsa_severity w), h) (length-tell_loud _ _),
  rw (severity-get_wsa_error w a) (code_is_fatal (wsa_severity w)),
)

-- An error with a socket whose manager has a notify is told to it alone; an error without a
-- socket, and any error that etwork_error_from is given with a manager, is told to the notify of
-- the manager that is given, if it has one, alone.
pub etwork_info_from_lem :
    (g : Globals) (mgr : Option Settings) (e : EtworkError) (os : OsError) (sock : SocketRef)
    (s : Settings) (n m : ℕ)
    → sock.mgr.notify ≡ some n
    → s.notify ≡ some m
    → let info : ErrorInfo = record { error = e; os_error = os; socket = some sock } in
      let lone : ErrorInfo = record { error = e; os_error = os; socket = none } in
      ((etwork_info_from g mgr info).0 ≡ on_socket_error n info ∷ [])
      × ((etwork_info_from g (some s) lone).0 ≡ on_socket_error m lone ∷ [])
      × ((etwork_error_from g (some sock) (some s) e).0
          ≡ on_socket_error m (record { error = e; os_error = none_os; socket = some sock }) ∷ [])
unfolding etwork_info_from etwork_error_from prefer tell
etwork_info_from_lem g mgr e os sock s n m h k = (rw h refl, rw k refl, rw k refl)

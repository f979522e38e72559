-- ===== src/Errors.antt =====
-- aras/src/errors.rs. An error of a library is known by what the source reads of it: its `Display`
-- text and, of fastwebsockets, the variants that the source names.
use trap.Shared.{◌++◌, Result}
use trap.Text.Utf8.{Str, str}

-- `http::Error`
pub record HttpError : Type 0 where
  pub display : Str

-- The variants of `fastwebsockets::WebSocketError` that the source names; `other` is any other.
pub data WebSocketErrorKind : Type 0 where
  invalid_close_code invalid_close_frame invalid_utf8 connection_closed other : WebSocketErrorKind

pub record WebSocketError : Type 0 where
  pub kind : WebSocketErrorKind
  pub display : Str

-- `std::string::FromUtf8Error`
pub record FromUtf8Error : Type 0 where
  pub display : Str

pub data ArasError : Type 0 where
  custom : Str → ArasError
  http : HttpError → ArasError
  websocket_error : WebSocketError → ArasError
  ws_utf8_error : FromUtf8Error → ArasError
  application_error : Str → ArasError
  application_not_running : ArasError
  unexpected_asgi_message : Str → ArasError
  startup_failed : Str → ArasError
  shutdown_failed : Str → ArasError
  timeout_elapsed : ArasError

-- `Display`, as the `error` attributes give it.
unfoldable pub to_string : ArasError → Str
to_string (custom m) = m
to_string (http e) = e.display
to_string (websocket_error e) = e.display
to_string (ws_utf8_error e) = e.display
to_string (application_error m) = m
to_string application_not_running = str "Application is not running"
to_string (unexpected_asgi_message m) = str "Unexpected ASGI message received. " ++ m
to_string (startup_failed m) = m
to_string (shutdown_failed m) = m
to_string timeout_elapsed = str "ASGI await timeout elapsed"

abbrev pub ArasResult : Type 0 → Type 0
ArasResult A = Result A ArasError

-- `format!("{x:?}")`: the text that a derived `Debug` prints.
pub record Debug (A : Type 0) : Type 0 where
  pub debug : A → Str

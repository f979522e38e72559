-- ===== src/Python/Messages.antt =====
-- wrappers.rs and convert.rs: which mapping stands for which event of an application.
use trap.Shared.{
  ◌<◌, ◌≡◌, refl, sym, ◌⊎◌, inl, inr, false, Option, none, some, List, [], Result, ok, err, ok_or,
  to_option,
}
use trap.Text.Utf8.{Str, Bytes, str}
use trap.Asgi.Events.{lifespan_startup_complete_event, lifespan_shutdown_complete_event}
use trap.Asgi.Spec.{
  AsgiSendEvent, startup_complete, startup_failed, shutdown_complete, shutdown_failed,
  http_response_start, http_response_body, websocket_accept, websocket_close, websocket_send,
  send_variant_str,
}
use trap.Python.Library.{PyErr, PyCrate}
use trap.Python.Parse.{field, parse_type, extract}

module _ {P D : Type 0} (py : PyCrate P D) where
  -- The mapping has the object under the key, or it has nothing or `None` there.
  abbrev pub Has : D → Str → P → Type 0
  Has m key v = py.get_item key m ≡ ok v

  abbrev pub Lacks : D → Str → Type 0
  Lacks m key = ((e : PyErr) × (py.get_item key m ≡ err e)) ⊎ (py.get_item key m ≡ ok py.none)

  -- The value stands under the key, or it is the default and nothing stands there.
  abbrev pub HasOr : {A : Type 0} → D → Str → (A → P) → A → A → Type 0
  HasOr m key new default a = Has m key (new a) ⊎ (Lacks m key × (a ≡ default))

  abbrev pub HasOption : {A : Type 0} → D → Str → (A → P) → Option A → Type 0
  HasOption m key new none = Lacks m key
  HasOption m key new (some a) = Has m key (new a)

  -- The fields of a message for an event, beside its type: those that the ASGI specification names, of
  -- which one may be left out where the conversion has a default for it. The conversion has none for the
  -- `body` of `http.response.body`, which the specification lets an application leave out.
  abbrev pub Fields : D → AsgiSendEvent → Type 0
  Fields m (startup_complete _) = Unit
  Fields m (startup_failed e) = HasOr m (str "message") py.new_str [] e.message
  Fields m (shutdown_complete _) = Unit
  Fields m (shutdown_failed e) = HasOr m (str "message") py.new_str [] e.message
  Fields m (http_response_start e) =
      Has m (str "status") (py.new_int e.status)
      × (e.status < 65536)
      × HasOr m (str "headers") py.new_pairs [] e.headers
  Fields m (http_response_body e) =
      Has m (str "body") (py.new_bytes e.body)
      × HasOr m (str "more_body") py.new_bool false e.more_body
  Fields m (websocket_accept e) =
      HasOption m (str "subprotocol") py.new_str e.subprotocol
      × HasOr m (str "headers") py.new_pairs [] e.headers
  Fields m (websocket_close e) =
      HasOr m (str "code") py.new_int 1000 e.code
      × (e.code < 65536)
      × HasOr m (str "reason") py.new_str [] e.reason
  Fields m (websocket_send e) =
      HasOption m (str "bytes") py.new_bytes e.bytes × HasOption m (str "text") py.new_str e.text

  -- A message of the event: its type is the name of the event.
  abbrev pub IsMessageOf : D → AsgiSendEvent → Type 0
  IsMessageOf m e = Has m (str "type") (py.new_str (send_variant_str e)) × Fields m e

  module _ {A : Type 0} (read : P → Result A PyErr) (new : A → P)
      (refuses : (e : PyErr) × (read py.none ≡ err e)) where
    field-Has :
        (m : D) (key : Str) (a : A)
        → read (new a) ≡ ok a
        → Has m key (new a)
        → field py read key m ≡ ok a
    field-Has m key a r h = rw (h, r)

    field-Lacks : (m : D) (key : Str) → Lacks m key → (e : PyErr) × (field py read key m ≡ err e)
    field-Lacks m key (inl (e, h)) = (e, rw h)
    field-Lacks m key (inr h) = (refuses.0, rw (h, refuses.1))

    field_or :
        (m : D) (key : Str) (default a : A)
        → read (new a) ≡ ok a
        → HasOr m key new default a
        → ok_or default (field py read key m) ≡ a
    field_or m key default a r (inl h) = rw (field-Has m key a r h)
    field_or m key default a r (inr (l, e)) = rw ((field-Lacks m key l).1) (sym e)

    field_option :
        (m : D) (key : Str) (o : Option A)
        → ((a : A) → read (new a) ≡ ok a)
        → HasOption m key new o
        → to_option (field py read key m) ≡ o
    field_option m key none r l = rw ((field-Lacks m key l).1)
    field_option m key (some a) r h = rw (field-Has m key a (r a) h)

  message_lem :
      (m : D) (a : Str)
      → HasOr m (str "message") py.new_str [] a
      → ok_or [] (field py py.extract_str (str "message") m) ≡ a
  message_lem m a h =
      field_or py.extract_str py.new_str py.extract_str-none m _ [] a (py.extract_str-new_str a) h

  headers_lem :
      (m : D) (a : List (Bytes × Bytes))
      → HasOr m (str "headers") py.new_pairs [] a
      → ok_or [] (field py py.extract_pairs (str "headers") m) ≡ a
  headers_lem m a h =
      field_or py.extract_pairs py.new_pairs py.extract_pairs-none m _ [] a
        (py.extract_pairs-new_pairs a) h

  parse_type_lem :
      (m : D) (e : AsgiSendEvent) → Fields m e → parse_type py (send_variant_str e) m ≡ ok e
  unfolding parse_type send_variant_str
  parse_type_lem m (startup_complete lifespan_startup_complete_event) h = refl
  parse_type_lem m (startup_failed e) h = rw (message_lem m e.message h)
  parse_type_lem m (shutdown_complete lifespan_shutdown_complete_event) h = refl
  parse_type_lem m (shutdown_failed e) h = rw (message_lem m e.message h)
  parse_type_lem m (http_response_start e) (s, small, hs) = rw (
    field-Has py.extract_u16 py.new_int py.extract_u16-none m _ e.status
        (py.extract_u16-new_int e.status small) s,
    headers_lem m e.headers hs,
  )
  parse_type_lem m (http_response_body e) (b, more) = rw (
    field-Has py.extract_bytes py.new_bytes py.extract_bytes-none m _ e.body
        (py.extract_bytes-new_bytes e.body) b,
    field_or py.extract_bool py.new_bool py.extract_bool-none m _ false e.more_body
        (py.extract_bool-new_bool e.more_body) more,
  )
  parse_type_lem m (websocket_accept e) (p, hs) = rw (
    field_option py.extract_str py.new_str py.extract_str-none m _ e.subprotocol
        py.extract_str-new_str p,
    headers_lem m e.headers hs,
  )
  parse_type_lem m (websocket_close e) (c, small, r) = rw (
    field_or py.extract_u16 py.new_int py.extract_u16-none m _ 1000 e.code
        (py.extract_u16-new_int e.code small) c,
    field_or py.extract_str py.new_str py.extract_str-none m _ [] e.reason
        (py.extract_str-new_str e.reason) r,
  )
  parse_type_lem m (websocket_send e) (b, t) = rw (
    field_option py.extract_bytes py.new_bytes py.extract_bytes-none m _ e.bytes
        py.extract_bytes-new_bytes b,
    field_option py.extract_str py.new_str py.extract_str-none m _ e.text py.extract_str-new_str t,
  )

  -- A mapping with the type and the fields that the ASGI specification names for an event is read as that
  -- very event, where a field is left out or `None` only if the conversion has a default for it: the
  -- `body` of `http.response.body` must be there, although the specification gives it a default.
  pub extract-IsMessageOf :
      (obj : P) (m : D) (e : AsgiSendEvent)
      → py.cast_mapping obj ≡ ok m
      → IsMessageOf m e
      → extract py obj ≡ ok e
  unfolding extract
  extract-IsMessageOf obj m e c (t, h) =
      rw (c, t, py.cast_str-new_str (send_variant_str e)) (parse_type_lem m e h)

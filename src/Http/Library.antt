-- ===== src/Http/Library.antt =====
-- What the program uses of the crates `http` and `http-body`: header maps, the response builder,
-- and a body as a stream of parts.
use trap.Shared.{ℕ, ◌≡◌, Option, List, [], ◌∷◌, ◌++◌, if◌then◌else◌, Result, ok, err, list_eq}
use trap.Text.Utf8.{Str, Bytes}
use trap.Asgi.Events.{Headers}
use trap.Errors.{HttpError}

-- The values that the fields of a name have, in order.
abbrev pub values : Bytes → Headers → List Bytes
values name [] = []
values name ((k, v) ∷ rest) = (if list_eq name k then v ∷ [] else []) ++ values name rest

-- Which status codes and which header fields `http` accepts. A header name is put in its canonical
-- form; a status or a field that is refused gives an error. A `HeaderMap` is the list of its fields in
-- the order of its iteration, which is the crate's: it keeps the fields of one name together, and
-- `append` adds a value after those that its name has, or refuses it when the map is full.
pub record HttpCrate : Type 0 where
  pub check_status : ℕ → Result ℕ HttpError
  pub check_header : Bytes → Bytes → Result (Bytes × Bytes) HttpError
  pub append : Headers → Bytes × Bytes → Result Headers HttpError
  pub values-append :
      (hs hs' : Headers) (kv : Bytes × Bytes) (name : Bytes)
      → append hs kv ≡ ok hs'
      → values name hs' ≡ values name hs ++ values name (kv ∷ [])

pub record ResponseHead : Type 0 where
  pub status : ℕ
  pub headers : Headers

-- `http::Response<B>`
pub record Response (B : Type 0) : Type 0 where
  pub head : ResponseHead
  pub body : B

-- `http::response::Builder`: the head so far, or the first error.
abbrev pub Builder : Type 0
Builder = Result ResponseHead HttpError

abbrev pub builder : Builder
builder = ok (record { status = 200; headers = [] })

module _ ⦃http : HttpCrate⦄ where
  set_status : ResponseHead → Result ℕ HttpError → Builder
  set_status h (ok s) = ok (record h { status = s })
  set_status h (err e) = err e

  set_headers : ResponseHead → Result Headers HttpError → Builder
  set_headers h (ok hs) = ok (record h { headers = hs })
  set_headers h (err e) = err e

  add_header : ResponseHead → Result (Bytes × Bytes) HttpError → Builder
  unfolding set_headers
  add_header h (ok kv) = set_headers h (http.append h.headers kv)
  add_header h (err e) = err e

  -- `Builder::status`, `Builder::header`
  unfoldable pub status : ℕ → Builder → Builder
  unfolding set_status
  status s (ok h) = set_status h (http.check_status s)
  status s (err e) = err e

  unfoldable pub header : Bytes → Bytes → Builder → Builder
  unfolding add_header
  header k v (ok h) = add_header h (http.check_header k v)
  header k v (err e) = err e

-- `Builder::status` with a `StatusCode`, which the crate takes as it is.
unfoldable pub status_code : ℕ → Builder → Builder
status_code s (ok h) = ok (record h { status = s })
status_code s (err e) = err e

-- `Builder::header` with a field of a header map, whose name and value the crate takes as they are.
module _ ⦃http : HttpCrate⦄ where
  unfoldable pub append_field : Bytes × Bytes → Builder → Builder
  unfolding set_headers
  append_field kv (ok h) = set_headers h (http.append h.headers kv)
  append_field kv (err e) = err e

  unfoldable pub append_fields : Headers → Builder → Builder
  unfolding append_field
  append_fields [] b = b
  append_fields (kv ∷ rest) b = append_fields rest (append_field kv b)

-- `Builder::body`
unfoldable pub body : {B : Type 0} → B → Builder → Result (Response B) HttpError
body b (ok h) = ok (record { head = h; body = b })
body b (err e) = err e

-- What a request body still gives: parts, each after some time (`none`: it never comes), with the
-- upper bound of `size_hint` once it has been taken, or an error with its text; then the end.
pub data BodyStream : Type 0 where
  end : Option ℕ → BodyStream
  part : Option ℕ → Bytes → Option ℕ → BodyStream → BodyStream
  broken : Option ℕ → Str → BodyStream → BodyStream

-- ===== src/Http/Relay.antt =====
-- http.rs: the response that reaches the client, against the events of the application.
use trap.Shared.{
  sym, list_eq, if◌then◌else◌, ℕ, zero, suc, ◌≤◌, ◌<◌, ◌≡◌, refl, ap, ◌∙◌, some, Bool, true, false,
  List, [], ◌∷◌, ◌++◌, map, append-nil, append_assoc, length, ok, arith,
}
use trap.Text.Utf8.{Bytes}
use trap.Asgi.Events.{Headers}
use trap.Asgi.Spec.{AsgiSendEvent, new_http_response_start, new_http_response_body}
use trap.Errors.{ArasResult, Debug}
use trap.Communication.Interface.{ReceiveFromAsgiApp, ready}
use trap.Communication.Waiting.{timeout_of_Arrives}
use trap.Http.Library.{values, HttpCrate, ResponseHead, status, header, body}
use trap.Http.Response.{
  ResponseBody, response_body, add_headers, next_item, make_response, poll_items,
}

module _ ⦃http : HttpCrate⦄ where
  -- The crate accepts every field of the first list, and the second list is their canonical form.
  abbrev pub Accepts : Headers → Headers → Type 0
  Accepts [] [] = Unit {0}
  Accepts [] (_ ∷ _) = ⊥
  Accepts (_ ∷ _) [] = ⊥
  Accepts ((k, v) ∷ hs) (kv ∷ hs') = (http.check_header k v ≡ ok kv) × Accepts hs hs'

  -- The crate appends the fields to the second map, one after another, which gives the third.
  abbrev pub Appends : Headers → Headers → Headers → Type 0
  Appends [] m m' = m ≡ m'
  Appends (kv ∷ hs) m m' = (m1 : Headers) × (http.append m kv ≡ ok m1) × Appends hs m1 m'

  values-cons :
      (name : Bytes) (kv : Bytes × Bytes) (hs : Headers)
      → values name (kv ∷ []) ++ values name hs ≡ values name (kv ∷ hs)
  values-cons name kv hs =
      ap (λ z. z ++ values name hs) (append-nil (if list_eq name kv.0 then kv.1 ∷ [] else []))

  -- The values of each name are those that it had and then those of the fields.
  pub values-Appends :
      (name : Bytes) (hs m m' : Headers)
      → Appends hs m m'
      → values name m' ≡ values name m ++ values name hs
  values-Appends name [] m m' e = ap (values name) (sym e) ∙ sym (append-nil (values name m))
  values-Appends name (kv ∷ hs) m m' (m1, e, a) =
      values-Appends name hs m1 m' a
      ∙ ap (λ z. z ++ values name hs) (http.values-append m m1 kv name e)
      ∙ append_assoc (values name m) (values name (kv ∷ [])) (values name hs)
      ∙ ap (λ z. values name m ++ z) (values-cons name kv hs)

  pub add_headers_lem :
      (hs hs' m : Headers) (h : ResponseHead)
      → Accepts hs hs'
      → Appends hs' h.headers m
      → add_headers hs (ok h) ≡ ok (record h { headers = m })
  unfolding add_headers header
  add_headers_lem [] [] m h a e = ap (λ z. ok (record h { headers = z })) e
  add_headers_lem [] (_ ∷ _) m h a e = absurd a
  add_headers_lem (_ ∷ _) [] m h a e = absurd a
  add_headers_lem ((k, v) ∷ hs) (kv ∷ hs') m h (a, as') (m1, e, es) =
      rw (a, e, header) (add_headers_lem hs hs' m (record h { headers = m1 }) as' es)

module _ {R : Type 0} ⦃receiver : ReceiveFromAsgiApp R⦄ ⦃debug : Debug AsgiSendEvent⦄ where
  -- The application sends the parts of a body, each in time, and marks the last one.
  pub data Streams (limit : ℕ) : R → List Bytes → R → Type 0 where
    last :
        {r r' : R} {b : Bytes} (t : ℕ)
        → t ≤ limit
        → receiver.receive r ≡ (r', ready t (ok (new_http_response_body b false)))
        → Streams limit r (b ∷ []) r'
    next :
        {r r' r'' : R} {b : Bytes} {bs : List Bytes} (t : ℕ)
        → t ≤ limit
        → receiver.receive r ≡ (r', ready t (ok (new_http_response_body b true)))
        → Streams limit r' bs r''
        → Streams limit r (b ∷ bs) r''

  abbrev pub finished : ℕ → R → ResponseBody R
  finished limit r = record {
    more_data = false;
    ended = true;
    timeout_for_stream = limit;
    receive_from_app = r;
  }

  pub next_part :
      (limit t : ℕ) (r r' : R) (b : Bytes) (m : Bool)
      → t ≤ limit
      → receiver.receive r ≡ (r', ready t (ok (new_http_response_body b m)))
      → next_item (response_body limit r)
        ≡ (record (response_body limit r') { more_data = m }, some (ok b))
  unfolding next_item response_body
  next_part limit t r r' b m h e =
      ground (arith, timeout_of_Arrives limit (receiver.receive r).1 _ (t, h, ap (λ p. p.1) e))

  poll_end :
      (limit n : ℕ) (r : R)
      → 0 < n
      → poll_items n (record (response_body limit r) { more_data = false }) ≡ (finished limit r, [])
  unfolding poll_items next_item response_body
  poll_end limit zero r h = elim h [ ]
  poll_end limit (suc n) r h = refl

  pub poll_next :
      (n : ℕ) (b b' : ResponseBody R) (i : ArasResult Bytes)
      → next_item b ≡ (b', some i)
      → poll_items (suc n) b ≡ ((poll_items n b').0, i ∷ (poll_items n b').1)
  unfolding poll_items
  poll_next n b b' i e = ground arith

  -- A body that the application streams in time reaches the reader part by part, in order and
  -- without an error, and the stream then ends and asks the application for nothing more.
  pub poll_items-Streams :
      (limit n : ℕ) (r r' : R) (bs : List Bytes)
      → Streams limit r bs r'
      → length bs < n
      → poll_items n (response_body limit r) ≡ (finished limit r', map ok bs)
  unfolding response_body
  poll_items-Streams limit zero r r' bs st h = elim h [ ]
  poll_items-Streams limit (suc n) r r' _ (last {b = b} t p e) h =
      poll_next n _ _ (ok b) (next_part limit t r r' b false p e)
      ∙ ap (λ x. (x.0, ok b ∷ x.1)) (poll_end limit n r' (omega arith))
  poll_items-Streams limit (suc n) r r' _ (next {r' = r1} {b = b} {bs = bs} t p e st) h =
      poll_next n _ _ (ok b) (next_part limit t r r1 b true p e)
      ∙ ap (λ x. (x.0, ok b ∷ x.1)) (poll_items-Streams limit n r1 r' bs st (omega arith))

  -- A first event in time that starts a response, with a status and fields that the crate accepts and
  -- whose map it can hold, gives a response with that status and that map, in which each name has the
  -- values that it has among those fields in their canonical form, in their order.
  pub make_response_accepted :
      ⦃http : HttpCrate⦄
      → (limit t : ℕ) (r r' : R) (st st' : ℕ) (hs hs' m : Headers) → t ≤ limit
      → receiver.receive r ≡ (r', ready t (ok (new_http_response_start st hs)))
      → http.check_status st ≡ ok st'
      → Accepts hs hs'
      → Appends hs' [] m
      → (make_response limit r
          ≡ ok (record {
            head = record { status = st'; headers = m };
            body = response_body limit r';
          }))
        × ((name : Bytes) → values name m ≡ values name hs')
  unfolding make_response status body
  make_response_accepted ⦃http⦄ limit t r r' st st' hs hs' m p e c a b = (
    ground (
      arith,
      timeout_of_Arrives limit (receiver.receive r).1 _ (t, p, ap (λ q. q.1) e),
      add_headers_lem hs hs' m (record { status = st'; headers = [] }) a b,
    ),
    λ name. values-Appends name hs' [] m b,
  )

-- ===== src/Python/Types.antt =====
-- wrappers.rs: the type that an accepted message has.
use trap.Shared.{
  ◌≢◌, none, ◌≡◌, refl, ap, ◌∙◌, inl, inr, true, false, [], ◌∷◌, ◌++◌, list_eq, ==_iff, Bool-cases,
  Result, ok, err, Result-cases, and_then, arith, if◌then◌else◌,
}
use trap.Text.Utf8.{Str, str}
use trap.Asgi.Spec.{
  AsgiSendEvent, send_variant_str, new_startup_complete, new_startup_failed, new_shutdown_complete,
  new_shutdown_failed, new_http_response_start, new_http_response_body, new_websocket_accept,
  new_websocket_close, new_websocket_send,
}
use trap.Python.Library.{PyErr, PyCrate}
use trap.Python.Parse.{field, parse_type, extract}

list_eq→eq : (s t : Str) → list_eq s t ≡ true → s ≡ t
list_eq→eq [] [] h = refl
list_eq→eq [] (y ∷ t) h = absurd (cc h)
list_eq→eq (x ∷ s) [] h = absurd (cc h)
list_eq→eq (x ∷ s) (y ∷ t) h = ground (arith, ==_iff x y, list_eq→eq s t)

-- Every event that a parser gives has the name.
abbrev Gives : {D : Type 0} → Str → (D → Result AsgiSendEvent PyErr) → Type 0
Gives {D} name parse = (m : D) (e : AsgiSendEvent) → parse m ≡ ok e → name ≡ send_variant_str e

-- One test of the chain.
test :
    {D : Type 0} (t name : Str) (parse rest : D → Result AsgiSendEvent PyErr)
    → Gives name parse
    → Gives t rest
    → Gives t (λ m. if list_eq t name then parse m else rest m)
test t name parse rest g r m e h = elim (Bool-cases (list_eq t name)) [
  | inl yes_it ↦ list_eq→eq t name yes_it ∙ g m e (rw yes_it at h)
  | inr not_it ↦ r m e (rw not_it at h)
]

refused : {D : Type 0} (t : Str) (x : D → PyErr) → Gives {D = D} t (λ m. err (x m))
refused t x m e h = absurd (cc h)

always :
    {D : Type 0} (name : Str) (f : D → AsgiSendEvent)
    → ((m : D) → name ≡ send_variant_str (f m))
    → Gives {D = D} name (λ m. ok (f m))
always name f g m e h = g m ∙ ap send_variant_str (cc h)

after :
    {D A : Type 0} (name : Str) (read : D → Result A PyErr) (f : D → A → AsgiSendEvent)
    → ((m : D) (a : A) → name ≡ send_variant_str (f m a))
    → Gives {D = D} name (λ m. and_then (read m) λ a. ok (f m a))
after name read f g m e h = elim (Result-cases (read m)) [
  | inl (a, r) ↦ g m a ∙ ap send_variant_str (cc (rw r at h))
  | inr (x, r) ↦ absurd (cc (rw r at h))
]

module _ {P D : Type 0} (py : PyCrate P D) where
  type_of_parsed : (t : Str) → Gives t (parse_type py t)
  unfolding parse_type send_variant_str
  type_of_parsed t = test t _ _ _ (after _ _ _ (λ m a. refl)) (
      test t _ _ _ (after _ _ _ (λ m a. refl)) (
        test t _ _ _ (always _ _ (λ m. refl)) (
          test t _ _ _ (always _ _ (λ m. refl)) (
            test t _ _ _ (always _ _ (λ m. refl)) (
              test t _ _ _ (always _ _ (λ m. refl)) (
                test t _ _ _ (always _ _ (λ m. refl)) (
                  test t _ _ _ (always _ _ (λ m. refl))
                    (test t _ _ _ (always _ _ (λ m. refl)) (refused t _)))))))))

  -- What is read as an event is a mapping whose type is the name that asgispec gives to that event.
  pub extract_type :
      (obj : P) (e : AsgiSendEvent)
      → extract py obj ≡ ok e
      → (m : D) × (py.cast_mapping obj ≡ ok m)
        × (field py py.cast_str (str "type") m ≡ ok (send_variant_str e))
  unfolding extract
  extract_type obj e h = elim (Result-cases (py.cast_mapping obj)) [
    | inr (x, c) ↦ absurd (cc (rw c at h))
    | inl (m, c) ↦ elim (Result-cases (field py py.cast_str (str "type") m)) [
      | inr (x, r) ↦ absurd (cc (rw (c, r) at h))
      | inl (t, r) ↦ (m, c, r ∙ ap ok (type_of_parsed t m e (rw (c, r) at h)))
    ]
  ]

-- The text is the name of no event.
abbrev pub IsNoName : Str → Type 0
IsNoName t = (e : AsgiSendEvent) → t ≢ send_variant_str e

skip :
    {A : Type 0} (t : Str) (e : AsgiSendEvent) (a rest x : A)
    → IsNoName t
    → rest ≡ x
    → (if list_eq t (send_variant_str e) then a else rest) ≡ x
skip t e a rest x n r = elim (Bool-cases (list_eq t (send_variant_str e))) [
  | inl same ↦ absurd (n e (list_eq→eq t _ same))
  | inr differs ↦ rw differs r
]

module _ {P D : Type 0} (py : PyCrate P D) where
  parse_type_invalid :
      (t : Str) (m : D)
      → IsNoName t
      → parse_type py t m ≡ err (py.value_error (str "Invalid message type '" ++ t ++ str "'"))
  unfolding parse_type send_variant_str
  parse_type_invalid t m n = skip t (new_http_response_start 0 []) _ _ _ n (
      skip t (new_http_response_body [] false) _ _ _ n (
        skip t new_startup_complete _ _ _ n (
          skip t (new_startup_failed []) _ _ _ n (
            skip t new_shutdown_complete _ _ _ n (
              skip t (new_shutdown_failed []) _ _ _ n (
                skip t (new_websocket_accept none []) _ _ _ n (
                  skip t (new_websocket_send none none) _ _ _ n
                    (skip t (new_websocket_close 0 []) _ _ _ n refl))))))))

  -- A mapping whose type is a text that names no event is refused, and the error shows the text.
  pub extract_invalid :
      (obj : P) (m : D) (t : Str)
      → py.cast_mapping obj ≡ ok m
      → field py py.cast_str (str "type") m ≡ ok t
      → IsNoName t
      → extract py obj ≡ err (py.value_error (str "Invalid message type '" ++ t ++ str "'"))
  unfolding extract
  extract_invalid obj m t c r n = rw (c, r) (parse_type_invalid t m n)

-- ===== src/Server/Settings.antt =====
-- aras_py/src/lib.rs and server.rs: the parameters of `serve_python` against the settings of the server.
use trap.Shared.{
  ℕ, ◌*◌, ◌%◌, ◌^◌, ◌≡◌, refl, inl, inr, Option, none, some, List, [], ◌∷◌, ◌++◌, ok, append_assoc,
  append-nil, ap, ◌∙◌, Bool-cases,
}
use trap.Text.Utf8.{Str}
use trap.Asgi.Events.{unwrap_or}
use trap.Server.Config.{
  v4, ArasServerBuilder, new_builder, no_keep_alive, set_concurrency_limit, set_request_ids,
  disable_auto_date_header, sensitive_header, build,
}
use trap.Server.Python.{
  Parameters, HeaderNames, redact, redact_all, base, flags, limit_concurrency, serve_python,
}

module _ ⦃names : HeaderNames⦄ where
  -- The texts are header names, with these names.
  abbrev pub Names : List Str → List Str → Type 0
  Names [] ns = ns ≡ []
  Names (h ∷ hs) [] = ⊥
  Names (h ∷ hs) (n ∷ ns) = (names.try_into h ≡ ok n) × Names hs ns

  redact_step :
      (h n : Str) (hs : List Str) (s : ArasServerBuilder)
      → names.try_into h ≡ ok n
      → redact (h ∷ hs) s ≡ redact hs (sensitive_header n s)
  unfolding redact
  redact_step h n hs s e = rw (e, redact)

  redact_end : (s : ArasServerBuilder) → redact [] s ≡ ok s
  unfolding redact
  redact_end s = refl

  redact-Names :
      (hs ns : List Str) (s : ArasServerBuilder)
      → Names hs ns
      → redact hs s ≡ ok (record s { sensitive_headers = s.sensitive_headers ++ ns })
  unfolding sensitive_header
  redact-Names [] [] s e = rw (redact_end s, append-nil s.sensitive_headers)
  redact-Names [] (n ∷ ns) s e = absurd (cc e)
  redact-Names (h ∷ hs) [] s e = absurd e
  redact-Names (h ∷ hs) (n ∷ ns) s e =
      redact_step h n hs s e.0
      ∙ redact-Names hs ns (sensitive_header n s) e.1
      ∙ rw (append_assoc s.sensitive_headers (n ∷ []) ns)

  redact_all-Names :
      (o : Option (List Str)) (ns : List Str) (s : ArasServerBuilder)
      → Names (unwrap_or [] o) ns
      → redact_all o s ≡ ok (record s { sensitive_headers = s.sensitive_headers ++ ns })
  unfolding redact_all
  redact_all-Names none ns s w = rw (w, append-nil s.sensitive_headers)
  redact_all-Names (some hs) ns s w = redact-Names hs ns s w

  flags-base :
      (max_permits : ℕ) (p : Parameters)
      → flags p (base max_permits p) ≡ record (base max_permits p) {
        keep_alive = p.keep_alive;
        request_ids = p.request_ids;
        auto_date_header = p.auto_date_header;
      }
  unfolding flags base set_request_ids no_keep_alive disable_auto_date_header
  flags-base max_permits p = elim (Bool-cases p.request_ids) [
    | inl e ↦ elim (Bool-cases p.keep_alive) [
      | inl e' ↦ elim (Bool-cases p.auto_date_header) [
        | inl d ↦ rw (e, e', d)
        | inr d ↦ rw (e, e', d)
      ]
      | inr e' ↦ elim (Bool-cases p.auto_date_header) [
        | inl d ↦ rw (e, e', d)
        | inr d ↦ rw (e, e', d)
      ]
    ]
    | inr e ↦ elim (Bool-cases p.keep_alive) [
      | inl e' ↦ elim (Bool-cases p.auto_date_header) [
        | inl d ↦ rw (e, e', d)
        | inr d ↦ rw (e, e', d)
      ]
      | inr e' ↦ elim (Bool-cases p.auto_date_header) [
        | inl d ↦ rw (e, e', d)
        | inr d ↦ rw (e, e', d)
      ]
    ]
  ]

  limit_lem :
      (o : Option ℕ) (s : ArasServerBuilder)
      → limit_concurrency o s ≡ record s { concurrency_limit = unwrap_or s.concurrency_limit o }
  unfolding limit_concurrency set_concurrency_limit
  limit_lem none s = refl
  limit_lem (some n) s = refl

  serve_step :
      (max_permits : ℕ) (p : Parameters) (s : ArasServerBuilder)
      → redact_all p.sensitive_headers (flags p (base max_permits p)) ≡ ok s
      → serve_python max_permits p ≡ ok (build (limit_concurrency p.max_concurrency s))
  unfolding serve_python build
  serve_step max_permits p s e = rw (e, serve_python)

  -- Where every sensitive header is a header name, each parameter is the setting of the server that it
  -- stands for: the body limit in bytes, which is exact below the width of `usize`, and the largest
  -- number of requests in flight where none is given.
  pub serve_python_lem :
      (max_permits : ℕ) (p : Parameters) (ns : List Str)
      → Names (unwrap_or [] p.sensitive_headers) ns
      → serve_python max_permits p
        ≡ ok (record {
          addr = v4 p.addr;
          port = p.port;
          keep_alive = p.keep_alive;
          request_timeout = p.request_timeout;
          body_limit = p.max_size_kb * 1000 % 2 ^ 64;
          concurrency_limit = unwrap_or max_permits p.max_concurrency;
          rate_limit = p.rate_limit;
          buffer_size = p.buffer_size;
          backpressure_timeout = p.backpressure_timeout;
          backpressure_size = p.backpressure_size;
          max_ws_frame_size = p.max_ws_frame_size;
          request_ids = p.request_ids;
          auto_date_header = p.auto_date_header;
          sensitive_headers = ns;
        })
  unfolding build base new_builder
  serve_python_lem max_permits p ns w =
      serve_step max_permits p _
        (redact_all-Names p.sensitive_headers ns (flags p (base max_permits p)) w)
      ∙ ap (λ s. ok (build s)) (limit_lem p.max_concurrency _)
      ∙ rw (flags-base max_permits p)

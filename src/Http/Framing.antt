-- ===== src/Http/Framing.antt =====
-- http.rs: what a well-formed sequence of request events is, and the sequences of `read_body`.
use trap.Shared.{
  ℕ, suc, ◌≤◌, ◌≡◌, refl, sym, ap, ◌∙◌, ◌⊎◌, inl, inr, Option, none, some, Bool, true, false, List,
  [], ◌∷◌, ◌++◌, append-nil, append_assoc, ok, err, Result-cases, is_ok, arith,
}
use trap.Text.Utf8.{Str, Bytes, str}
use trap.Asgi.Spec.{AsgiReceiveEvent, http_request, new_http_request}
use trap.Errors.{ArasError, custom, timeout_elapsed}
use trap.Communication.Interface.{SendToAsgiApp, application_result_into, timeout}
use trap.Communication.Waiting.{timeout-cases}
use trap.Http.Library.{BodyStream, end, part, broken}
use trap.Http.Request.{is_none_or_positive, arrival, send_request, read_loop, read_body}

-- How many items the stream still has, and the bytes of its parts.
abbrev pub items : BodyStream → ℕ
items (end t) = 0
items (part t b u rest) = suc (items rest)
items (broken t e rest) = suc (items rest)

abbrev pub stream_data : BodyStream → Bytes
stream_data (end t) = []
stream_data (part t b u rest) = b ++ stream_data rest
stream_data (broken t e rest) = stream_data rest

abbrev pub Bounds : Option ℕ → ℕ → Type 0
Bounds none n = Unit {0}
Bounds (some u) n = n ≤ u

-- `size_hint` keeps its contract: its upper bound is one for the items that are left.
abbrev pub HasHonestHints : BodyStream → Type 0
HasHonestHints (end t) = Unit {0}
HasHonestHints (part t b u rest) = Bounds u (items rest) × HasHonestHints rest
HasHonestHints (broken t e rest) = HasHonestHints rest

pub hint_zero : (u : Option ℕ) (n : ℕ) → is_none_or_positive u ≡ false → Bounds u n → n ≡ 0
hint_zero none n e h = cc
hint_zero (some u) n e h = ground arith

-- Events that announce more of the body.
abbrev pub IsPartial : List AsgiReceiveEvent → Type 0
IsPartial [] = Unit {0}
IsPartial (http_request r ∷ es) = (r.more_body ≡ true) × IsPartial es
IsPartial (_ ∷ es) = ⊥

-- A whole body: every event but the last announces more, and the last one does not.
abbrev pub IsWhole : List AsgiReceiveEvent → Type 0
IsWhole [] = ⊥
IsWhole (http_request r ∷ []) = r.more_body ≡ false
IsWhole (http_request r ∷ e ∷ es) = (r.more_body ≡ true) × IsWhole (e ∷ es)
IsWhole (_ ∷ es) = ⊥

abbrev pub bodies : List AsgiReceiveEvent → Bytes
bodies [] = []
bodies (http_request r ∷ es) = r.body ++ bodies es
bodies (_ ∷ es) = bodies es

-- Events that announce more of the body, with the bytes that the body begins with.
abbrev pub Begins : List AsgiReceiveEvent → BodyStream → Type 0
Begins es stream = IsPartial es × (rest : Bytes) × (bodies es ++ rest ≡ stream_data stream)

Begins-cons :
    (t : Option ℕ) (b : Bytes) (u : Option ℕ) (rest : BodyStream) (es : List AsgiReceiveEvent)
    → Begins es rest
    → Begins (new_http_request b true ∷ es) (part t b u rest)
Begins-cons t b u rest es (p, bs, e) =
    ((refl, p), bs, append_assoc b (bodies es) bs ∙ ap (◌++◌ b) e)

IsWhole-cons :
    (b : Bytes) (es : List AsgiReceiveEvent) → IsWhole es → IsWhole (new_http_request b true ∷ es)
IsWhole-cons b [] h = absurd h
IsWhole-cons b (e ∷ es) h = (refl, h)

IsWhole-bodies :
    (b : Bytes) (es : List AsgiReceiveEvent) (bs : Bytes)
    → IsWhole es × (bodies es ≡ bs)
    → IsWhole (new_http_request b true ∷ es) × (b ++ bodies es ≡ b ++ bs)
IsWhole-bodies b es bs (w, e) = (IsWhole-cons b es w, ap (◌++◌ b) e)

module _ {S : Type 0} ⦃sender : SendToAsgiApp S⦄ where
  -- The events that take the application from one state to another.
  abbrev pub Delivers : S → List AsgiReceiveEvent → S → Type 0
  Delivers s es s' = sender.delivered s' ≡ sender.delivered s ++ es

  -- What a run has delivered: a part of the body, or the whole of it, and the whole if it succeeded.
  abbrev pub SendsWith : BodyStream → S → S → Bool → Type 0
  SendsWith stream s s' done =
      (es : List AsgiReceiveEvent) × Delivers s es s'
      × (Begins es stream ⊎ (IsWhole es × (bodies es ≡ stream_data stream)))
      × (done ≡ true → IsWhole es × (bodies es ≡ stream_data stream))

  pub send_request-cases :
      (b : Bytes) (m : Bool) (s : S)
      → (((send_request b m s).1 ≡ ok tt)
          × Delivers s (new_http_request b m ∷ []) (send_request b m s).0)
        ⊎ ((e : ArasError) × ((send_request b m s).1 ≡ err e)
            × Delivers s [] (send_request b m s).0)
  unfolding send_request
  send_request-cases b m s =
      let d = sender.delivered-send s (new_http_request b m) in
      elim (Result-cases (sender.send s (new_http_request b m)).1) [
        | inl (tt, e) ↦ inl (ground arith, ground arith)
        | inr (r, e) ↦ inr (
          application_result_into r,
          ground arith,
          rw e at d ∙ sym (append-nil (sender.delivered s)),
        )
      ]

  pub nothing : (stream : BodyStream) (s s' : S) → Delivers s [] s' → SendsWith stream s s' false
  nothing stream s s' d = ([], d, inl (tt, stream_data stream, refl), λ e. cc)

  pub stays : (s : S) → Delivers s [] s
  stays s = sym (append-nil (sender.delivered s))

  -- One more event in front.
  pub after_part :
      (t : Option ℕ) (b : Bytes) (u : Option ℕ) (rest : BodyStream) (s s1 s2 : S) (done : Bool)
      → Delivers s (new_http_request b true ∷ []) s1
      → SendsWith rest s1 s2 done
      → SendsWith (part t b u rest) s s2 done
  after_part t b u rest s s1 s2 done d (es, e, framed, whole) = (
    new_http_request b true ∷ es,
    e ∙ ap (λ x. x ++ es) d ∙ append_assoc (sender.delivered s) _ _,
    elim framed [
      | inl p ↦ inl (Begins-cons t b u rest es p)
      | inr w ↦ inr (IsWhole-bodies b es _ w)
    ],
    λ o. IsWhole-bodies b es _ (whole o),
  )

  -- The last part closed the body: nothing follows but the end of the stream.
  closed_end :
      (limit : ℕ) (t : Option ℕ) (s : S) → Delivers s [] (read_loop limit false (end t) s).0
  unfolding read_loop
  closed_end limit t s = elim (timeout-cases limit (arrival t)) [
    | inl (u, _, e) ↦ rw (e, read_loop) (stays s)
    | inr (e, _) ↦ rw (e, read_loop) (stays s)
  ]

  -- The end of a body that no part has closed.
  open_end :
      (limit : ℕ) (t : Option ℕ) (s : S)
      → let r = read_loop limit true (end t) s in SendsWith (end t) s r.0 (is_ok r.1)
  unfolding read_loop
  open_end limit t s = elim (timeout-cases limit (arrival t)) [
    | inl (u, _, e) ↦
        rw (e, read_loop)
          (elim (send_request-cases [] false s) [
            | inl (o, d) ↦ (new_http_request [] false ∷ [], d, inr (refl, refl), λ _. (refl, refl))
            | inr (r, o, d) ↦ ([], d, inl (tt, [], refl), λ h. ground arith)
          ])
    | inr (e, _) ↦ rw (e, read_loop) (nothing (end t) s s (stays s))
  ]

  -- A part whose hint leaves nothing after it.
  last_part :
      (limit : ℕ) (t : Option ℕ) (b : Bytes) (u : Option ℕ) (rest : BodyStream) (s s1 : S)
      → items rest ≡ 0
      → Delivers s (new_http_request b false ∷ []) s1
      → let r = read_loop limit false rest s1 in SendsWith (part t b u rest) s r.0 (is_ok r.1)
  last_part limit t b u (end t') s s1 z d = (
    new_http_request b false ∷ [],
    closed_end limit t' s1 ∙ append-nil (sender.delivered s1) ∙ d,
    inr (refl, refl),
    λ _. (refl, refl),
  )
  last_part limit t b u (part _ _ _ _) s s1 z d = absurd (omega arith)
  last_part limit t b u (broken _ _ _) s s1 z d = absurd (omega arith)

  after_sent :
      (limit : ℕ) (t : Option ℕ) (b : Bytes) (u : Option ℕ) (rest : BodyStream) (s s1 : S)
      (m : Bool)
      → (m ≡ false → items rest ≡ 0)
      → Delivers s (new_http_request b m ∷ []) s1
      → (let r = read_loop limit true rest s1 in SendsWith rest s1 r.0 (is_ok r.1))
      → let r = read_loop limit m rest s1 in SendsWith (part t b u rest) s r.0 (is_ok r.1)
  after_sent limit t b u rest s s1 true z d ih = after_part t b u rest s s1 _ _ d ih
  after_sent limit t b u rest s s1 false z d ih = last_part limit t b u rest s s1 (z refl) d

  -- The steps of the loop at a part.
  pub part_late :
      (limit : ℕ) (m : Bool) (t : Option ℕ) (b : Bytes) (u : Option ℕ) (rest : BodyStream) (s : S)
      {x : ArasError}
      → timeout limit (arrival t) ≡ err x
      → read_loop limit m (part t b u rest) s ≡ (s, err x)
  unfolding read_loop
  part_late limit m t b u rest s e = rw (e, read_loop)

  pub part_refused :
      (limit : ℕ) (m : Bool) (t : Option ℕ) (b : Bytes) (u : Option ℕ) (rest : BodyStream) (s : S)
      {v : Unit {0}} {x : ArasError}
      → timeout limit (arrival t) ≡ ok v
      → (send_request b (is_none_or_positive u) s).1 ≡ err x
      → read_loop limit m (part t b u rest) s
        ≡ ((send_request b (is_none_or_positive u) s).0, err x)
  unfolding read_loop
  part_refused limit m t b u rest s e o = ground arith

  pub part_sent :
      (limit : ℕ) (m : Bool) (t : Option ℕ) (b : Bytes) (u : Option ℕ) (rest : BodyStream) (s : S)
      {v : Unit {0}}
      → timeout limit (arrival t) ≡ ok v
      → (send_request b (is_none_or_positive u) s).1 ≡ ok tt
      → read_loop limit m (part t b u rest) s
        ≡ read_loop limit (is_none_or_positive u) rest (send_request b (is_none_or_positive u) s).0
  unfolding read_loop
  part_sent limit m t b u rest s e o = ground arith

  broken_fails :
      (limit : ℕ) (m : Bool) (t : Option ℕ) (text : Str) (rest : BodyStream) (s : S)
      → (x : ArasError) × (read_loop limit m (broken t text rest) s ≡ (s, err x))
  unfolding read_loop
  broken_fails limit m t text rest s = elim (timeout-cases limit (arrival t)) [
    | inl (u, _, e) ↦ (custom (str "Failed to read body: " ++ text), rw (e, read_loop))
    | inr (e, _) ↦ (timeout_elapsed, rw (e, read_loop))
  ]

  -- Whatever the outcome, the application is sent events of the request that announce more of the
  -- body, whose bodies are the bytes that it begins with, or such events and then one last that does not,
  -- and then their bodies are the whole body.
  read_loop-SendsWith :
      (limit : ℕ) (stream : BodyStream) (s : S)
      → HasHonestHints stream
      → let r = read_loop limit true stream s in SendsWith stream s r.0 (is_ok r.1)
  read_loop-SendsWith limit (end t) s h = open_end limit t s
  read_loop-SendsWith limit (broken t text rest) s h =
      let (x, e) = broken_fails limit true t text rest s in
      rw e (nothing (broken t text rest) s s (stays s))
  read_loop-SendsWith limit (part t b u rest) s (h, hs) =
      let ih = read_loop-SendsWith limit rest in
      elim (timeout-cases limit (arrival t)) [
        | inr (e, _) ↦
            rw (part_late limit true t b u rest s e) (nothing (part t b u rest) s s (stays s))
        | inl (v, _, e) ↦ elim (send_request-cases b (is_none_or_positive u) s) [
          | inr (x, o, d) ↦
              rw (part_refused limit true t b u rest s e o) (nothing (part t b u rest) s _ d)
          | inl (o, d) ↦ rw (part_sent limit true t b u rest s e o) (
              after_sent limit t b u rest s _ (is_none_or_positive u)
                (λ z. hint_zero u (items rest) z h) d (ih _ hs))
        ]
      ]

  pub read_body-SendsWith :
      (limit : ℕ) (stream : BodyStream) (s : S)
      → HasHonestHints stream
      → SendsWith stream s (read_body limit stream s).0 (is_ok (read_body limit stream s).1)
  unfolding read_body
  read_body-SendsWith limit stream s h = read_loop-SendsWith limit stream s h

  -- What a run has delivered: without success perhaps a part of the body, otherwise the whole of it.
  abbrev pub Sends : BodyStream → S → S → Bool → Type 0
  Sends stream s s' done =
      (es : List AsgiReceiveEvent) × Delivers s es s'
      × ((Begins es stream × (done ≡ false)) ⊎ (IsWhole es × (bodies es ≡ stream_data stream)))

  pub Sends-SendsWith :
      (stream : BodyStream) (s s' : S) (done : Bool)
      → SendsWith stream s s' done
      → Sends stream s s' done
  Sends-SendsWith stream s s' true (es, d, framed, whole) = (es, d, inr (whole refl))
  Sends-SendsWith stream s s' false (es, d, inl i, whole) = (es, d, inl (i, refl))
  Sends-SendsWith stream s s' false (es, d, inr i, whole) = (es, d, inr i)

  -- Whatever the outcome of reading a body whose size hints keep their contract, the application is
  -- sent events of the request that announce more of the body, whose bodies are the bytes that it
  -- begins with, or such events and then a last one that does not, and in that case their bodies add up
  -- to the whole body. A reading that succeeds sends the last one.
  pub read_body-Sends :
      (limit : ℕ) (stream : BodyStream) (s : S)
      → HasHonestHints stream
      → Sends stream s (read_body limit stream s).0 (is_ok (read_body limit stream s).1)
  read_body-Sends limit stream s h =
      Sends-SendsWith stream s _ _ (read_body-SendsWith limit stream s h)

-- ===== src/Suite/Layers.antt =====
-- The tests of aras/src/layers/error_handler.rs.
use trap.Shared.{◌≡◌, refl, [], Result, ok, err}
use trap.Text.Utf8.{Bytes, str}
use trap.Http.Library.{Response}
use trap.Layers.ErrorHandler.{BoxError, overloaded, elapsed, other, BoxBody, inner_body, full, call}
use trap.Suite.{IsOkAnd}

-- A service that answers every request alike.
abbrev service : Result (Response Bytes) BoxError → Unit {0} → Result (Response Bytes) BoxError
service answer request = answer

abbrev TestOverloadedIs503 : Type 0
TestOverloadedIs503 = IsOkAnd (λ r. r.head.status ≡ 503) (call (service (err overloaded)) tt)

test_overloaded_is_503 : TestOverloadedIs503
unfolding call
test_overloaded_is_503 = refl

abbrev TestTimeoutIs504 : Type 0
TestTimeoutIs504 = IsOkAnd (λ r. r.head.status ≡ 504) (call (service (err elapsed)) tt)

test_timeout_is_504 : TestTimeoutIs504
unfolding call
test_timeout_is_504 = refl

abbrev TestOtherErrorIs500 : Type 0
TestOtherErrorIs500 =
    IsOkAnd (λ r. r.head.status ≡ 500) (call (service (err (other (str "other error")))) tt)

test_other_error_is_500 : TestOtherErrorIs500
unfolding call
test_other_error_is_500 = refl

-- The bytes of a body that are at hand.
abbrev collected : BoxBody Bytes → Bytes
collected (inner_body b) = b
collected (full b) = b

abbrev TestSuccessResponsePassesThrough : Type 0
TestSuccessResponsePassesThrough =
    IsOkAnd (λ r. (r.head.status ≡ 200) × (collected r.body ≡ str "success"))
      (call
        (service
          (ok (record { head = record { status = 200; headers = [] }; body = str "success" })))
        tt)

test_success_response_passes_through : TestSuccessResponsePassesThrough
unfolding call
test_success_response_passes_through = (refl, refl)

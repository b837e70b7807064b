-- ===== src/Python/Errors.antt =====
-- Exceptions as values. `ValidationFailed` and `InvalidRequest` are the classes of
-- app/__init__.py, `weasyprint_error` is that of app/weasyprint_hack.py; the others are raised by
-- Python and by the libraries.
use notifications_template_p.Prelude.{
  ℕ, String, Bool, true, false, List, [], ◌∷◌, Option, ◌≡◌, refl, ◌⊎◌, inl, inr,
}

pub data Exn : Type 0 where
  -- message, invalid_pages, page_count; the code is always the default, 400.
  validation_failed : String → Option (List ℕ) → Option ℕ → Exn
  -- message; the code is always the default, 400.
  invalid_request : String → Exn
  -- werkzeug's `abort(code, description)`; no text stands for the one that werkzeug puts in
  http_exception : ℕ → String → Exn
  -- `Exception(message)`, raised by the source itself
  exception : String → Exn
  pdf_read_error boto_client_error s3_object_not_found weasyprint_error : Exn
  missing_delegate_error runtime_error index_error key_error value_error type_error : Exn
  attribute_error : Exn
  zero_division_error recursion_error : Exn
  -- celery's `Retry`
  retry : Exn
  -- any other exception of a library
  other : Exn

pub data Result {ℓ} (A : Type ℓ) : Type ℓ where
  ok : A → Result A
  raised : Exn → Result A

-- A step, and what is done with its value; an exception ends both.
infixl 5 ◌>>◌ ◌>>=◌
abbrev pub ◌>>=◌ {ℓ κ} :
    {Value : Type ℓ} {Next : Type κ} → Result Value → (Value → Result Next) → Result Next
raised e >>= next = raised e
ok value >>= next = next value

abbrev pub ◌>>◌ {ℓ κ} : {Value : Type ℓ} {Next : Type κ} → Result Value → Result Next → Result Next
step >> next = step >>= (λ value. next)

-- `if b: raise e`
abbrev pub raise_if : Bool → Exn → Result (Unit {0})
raise_if true e = raised e
raise_if false e = ok tt

-- `l[0]`
abbrev pub first {ℓ} : {A : Type ℓ} → List A → Result A
first [] = raised Exn.index_error
first (x ∷ xs) = ok x

pub Result-cases {ℓ} :
    {A : Type ℓ} (r : Result A) → ((a : A) × (r ≡ ok a)) ⊎ ((e : Exn) × (r ≡ raised e))
Result-cases (ok a) = inl (a, refl)
Result-cases (raised e) = inr (e, refl)

-- A step and its continuation give a value only if both do.
pub >>=-ok {ℓ κ} :
    {Value : Type ℓ} {Next : Type κ} (step : Result Value) (next : Value → Result Next) {out : Next}
    → (step >>= next) ≡ ok out
    → (value : Value) × (step ≡ ok value) × (next value ≡ ok out)
>>=-ok (raised e) next done = cc
>>=-ok (ok value) next done = (value, refl, done)

-- ===== src/App/Http.antt =====
-- Requests and responses, as far as the endpoints of the application look at them.
use text.Mathlib.Text.{◌==◌ as eq_str}
use notifications_template_p.Prelude.{ℕ, String, List, [], ◌∷◌, Option, none, some, if◌then◌else◌}
use notifications_template_p.Prelude.Int.{ℤ}
use notifications_template_p.Python.Errors.{Result}
use notifications_template_p.Python.Stream.{Bytes}
use notifications_template_p.Json.{Json}
use notifications_template_p.Precompiled.Sanitise.{SanitisationDetails}

-- The token is that of the `Authorization` header, empty if there is none; `json` is what
-- `request.get_json()` gives or raises.
pub record Request : Type 0 where
  pub token : String
  pub args : List (String × String)
  pub body : Bytes
  pub json : Result Json

-- The dict of `page_count`.
pub record Counts : Type 0 where
  pub count : ℤ
  pub welsh_page_count : ℤ
  pub attachment_page_count : ℤ

-- The answer of `_status`.
pub record Versions : Type 0 where
  pub commit : String
  pub build_time : String
  pub ghostscript_version : String
  pub imagemagick_version : String

-- `error` is `jsonify(result="error", message=…)`, with or without a message.
pub data Content : Type 0 where
  error : Option String → Content
  plain : String → Content
  png : Bytes → Content
  pdf : Bytes → Content
  counts : Counts → Content
  sanitised : SanitisationDetails → Content
  versions : Versions → Content

pub record Response : Type 0 where
  pub status : ℕ
  pub content : Content

-- What a view function returns without a status.
abbrev pub success : Content → Response
success c = record { status = 200; content = c }

-- `request.args.get(key)`
unfoldable pub find_arg : String → List (String × String) → Option String
find_arg key [] = none
find_arg key ((k, v) ∷ args) = if eq_str key k then some v else find_arg key args

-- `request.args.get(key, default)`
abbrev pub arg_or : String → String → Request → String
arg_or key default request = elim (find_arg key request.args) [ none ↦ default | some v ↦ v ]

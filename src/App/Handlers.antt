-- ===== src/App/Handlers.antt =====
-- The error handlers that `init_app` of app/__init__.py registers.
use text.Mathlib.Text.{◌==◌ as eq_str}
use notifications_template_p.Prelude.{◌==◌, String, none, some, if◌then◌else◌}
use notifications_template_p.Python.Errors.{Exn}
use notifications_template_p.App.Http.{Response, error}

-- `invalid_request`: `error.message or ""` with the exception's code.
abbrev pub invalid_request : String → Response
invalid_request message = record { status = 400; content = error (some message) }

-- `bad_request`, with the text of the exception.
abbrev pub bad_request : String → Response
bad_request text_of_error = record { status = 400; content = error (some text_of_error) }

-- `page_not_found`
abbrev pub page_not_found : String → Response
page_not_found description = record {
  status = 404;
  content = error (some (if eq_str description "" then "Not found" else description));
}

-- `exception`, on an exception with a `message`, with a `code` only, and with neither.
unfoldable pub exception : (Exn → String) → Exn → Response
exception text_of (Exn.validation_failed message _ _) = record {
  status = 400;
  content = error (some message);
}
exception text_of (Exn.invalid_request message) = record {
  status = 400;
  content = error (some message);
}
exception text_of (Exn.http_exception code _) = record {
  status = if code == 0 then 500 else code;
  content = error none;
}
exception text_of e = record { status = 500; content = error (some (text_of e)) }

-- Flask's choice of the handler: that of the exception's own class or code, and else that of
-- `Exception`.
unfoldable pub handle : (Exn → String) → Exn → Response
handle text_of (Exn.invalid_request message) = invalid_request message
handle text_of (Exn.http_exception code description) =
    if code == 400
    then bad_request (text_of (Exn.http_exception code description))
    else if code == 404
    then page_not_found description
    else exception text_of (Exn.http_exception code description)
handle text_of e = exception text_of e

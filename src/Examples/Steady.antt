-- ===== src/Examples/Steady.antt =====
-- Services whose S3 always answers, and requests to the endpoints.
use text.Mathlib.Text.{◌==◌ as eq_str}
use notifications_template_p.Prelude.{
  ◌≡◌, refl, ap, sym, ◌∙◌, if◌then◌else◌, ◌&&◌, subst, inl, inr, ◌⊎◌, String, Bool, true, false, [],
  ◌∷◌, Option, none, some, All, arith,
}
use notifications_template_p.Python.Errors.{Exn, Result, ok, raised}
use notifications_template_p.Python.Stream.{Bytes, BytesIo, bytes_io}
use notifications_template_p.Python.Base64.{IsByte}
use notifications_template_p.Json.{Json, null, string, object, member, no_members}
use notifications_template_p.Storage.{Services, IsLawful, Upload, World}
use notifications_template_p.Cache.{find_cached}
use notifications_template_p.Cache.Coherent.{IsAvailable, IsFresh, IsCoherent}
use notifications_template_p.App.Http.{Request, plain}
use notifications_template_p.App.Serve.{Web}
use notifications_template_p.Examples.{services}
use notifications_template_p.Examples.Validator.{accepts}

-- S3 that always answers, and knows each file that was put.
abbrev pub Shelf : Type 0
Shelf = String → String → Option Bytes

abbrev answer : Option Bytes → Result Bytes
answer none = raised Exn.s3_object_not_found
answer (some bytes) = ok bytes

abbrev put : Upload → Shelf → Shelf
put u files b k =
    if eq_str b u.bucket_name && eq_str k u.file_location then some u.filedata else files b k

abbrev pub steady : Services
steady = record (services false) {
  S3 = Shelf;
  s3download = λ files b k. answer (files b k);
  s3upload = λ files u. ok (put u files);
  copy_object = λ files c. raised Exn.boto_client_error;
}

abbrev shelf_of : Shelf → Result Shelf → Shelf
shelf_of files (ok s) = s
shelf_of files (raised e) = files

answer_if :
    (c : Bool) (bytes : Bytes) (o : Option Bytes)
    → answer (if c then some bytes else o) ≡ (if c then ok bytes else answer o)
answer_if true bytes o = refl
answer_if false bytes o = refl

pub steady-IsLawful : IsLawful steady
steady-IsLawful = record {
  download-upload = λ s t u b k h.
      ap (λ r. answer (shelf_of s r b k)) (sym h)
      ∙ answer_if (eq_str b u.bucket_name && eq_str k u.file_location) u.filedata (s b k);
  download-copy = λ s t c b k h. cc;
}

found_or_not :
    (o : Option Bytes)
    → ((bytes : Bytes) × (answer o ≡ ok bytes)) ⊎ (answer o ≡ raised Exn.s3_object_not_found)
found_or_not none = inr refl
found_or_not (some bytes) = inl (bytes, refl)

pub steady-IsAvailable : IsAvailable steady
steady-IsAvailable = record {
  found = λ s b k. found_or_not (s b k);
  stored = λ s u. (put u s, refl);
}

abbrev pub empty : World Shelf
empty = record { s3 = λ b k. none; sent = []; cached = [] }

abbrev pub web : Web
web = record {
  validate = accepts;
  machine = record { check_output = λ command. ok "1"; git_commit = "abc"; build_time = "now" };
  secrets = "key" ∷ [];
  text_of = λ e. "error";
  unauthorized = record { status = 401; content = plain "Unauthorized Access" };
}

abbrev pub preview_json : Json
preview_json = object (
    member "letter_contact_block" null (
      member "template"
        (object (member "subject" (string "s") (member "content" (string "c") no_members)))
        (member "values" null (member "filename" null no_members))))

abbrev pub request : Request
request = record { token = "key"; args = []; body = []; json = ok preview_json }

abbrev pub stranger : Request
stranger = record request { token = "lock" }

-- Whatever is generated is page 4.
abbrev pub page_four : String → Result BytesIo
page_four key = ok (bytes_io (4 ∷ []))

abbrev stream_of : Result BytesIo → BytesIo
stream_of (ok f) = f
stream_of (raised e) = bytes_io []

pub page_four-IsFresh : IsFresh page_four
page_four-IsFresh key f made =
    subst (λ g. (g ≡ bytes_io g.contents) × All IsByte g.contents) (ap stream_of made)
      (refl, (omega arith, tt))

pub empty-IsCoherent : IsCoherent steady page_four empty
unfolding find_cached
empty-IsCoherent = record {
  in_s3 = λ key bytes there. cc;
  in_process = λ key encoded there. absurd cc;
}

-- ===== src/Schemas.antt =====
-- app/schemas.py: the two schemas, and `get_and_validate_json_from_request`. The validator is that
-- of the package jsonschema, which is a parameter.
pub mod Laws
use notifications_template_p.Prelude.{String, Bool, true, false, List, [], ◌∷◌, if◌then◌else◌}
use notifications_template_p.Python.Errors.{Exn, Result, ok, raised, ◌>>=◌, ◌>>◌, raise_if}
use notifications_template_p.Json.{Json}
use notifications_template_p.Prelude.{not}

-- The values of the keyword `type` that the schemas use.
pub data JsonType : Type 0 where
  string_type null_type integer_type object_type : JsonType

-- A schema with the keywords that are used: `type`, `oneOf`, and for an object `properties`,
-- `required` and `additionalProperties`.
mutual
  pub data Schema : Type 0 where
    typed : List JsonType → Schema
    one_of : Schemas → Schema
    object_of : Properties → List String → Bool → Schema

  pub data Schemas : Type 0 where
    no_schemas : Schemas
    schema : Schema → Schemas → Schemas

  pub data Properties : Type 0 where
    no_properties : Properties
    property : String → Schema → Properties → Properties

abbrev pub string_or_null : Schema
string_or_null = typed (string_type ∷ null_type ∷ [])

-- `letter_attachment` in the schema of a template.
abbrev pub attachment_schema : Schema
attachment_schema = one_of (
    schema
      (object_of (property "page_count" (typed (integer_type ∷ [])) no_properties)
        ("page_count" ∷ []) true)
      (schema (typed (null_type ∷ [])) no_schemas))

abbrev pub template_schema : Schema
template_schema =
    object_of
      (property "service" (typed (string_type ∷ [])) (
        property "subject" (typed (string_type ∷ [])) (
          property "content" (typed (string_type ∷ []))
            (property "letter_attachment" attachment_schema no_properties))))
      ("subject" ∷ "content" ∷ []) true

abbrev pub preview_schema : Schema
preview_schema =
    object_of
      (property "letter_contact_block" string_or_null (
        property "values" (typed (object_type ∷ null_type ∷ [])) (
          property "template" template_schema
            (property "filename" string_or_null (property "date" string_or_null no_properties)))))
      ("letter_contact_block" ∷ "template" ∷ "values" ∷ "filename" ∷ []) false

abbrev pub letter_attachment_preview_schema : Schema
letter_attachment_preview_schema =
    object_of
      (property "service_id" (typed (string_type ∷ []))
        (property "letter_attachment_id" (typed (string_type ∷ [])) no_properties))
      ("service_id" ∷ "letter_attachment_id" ∷ []) false

-- `get_and_validate_json_from_request`: the JSON of the request, or the exception of `get_json`,
-- and whether `jsonschema.validate` accepts it. The text of the refusal is left out.
unfoldable pub get_and_validate_json_from_request :
    (Schema → Json → Bool) → Result Json → Schema → Result Json
get_and_validate_json_from_request validate json wanted = do
  j ← json
  raise_if (not (validate wanted j)) (Exn.http_exception 400 "")
  ok j

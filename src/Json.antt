-- ===== src/Json.antt =====
-- JSON as Python's `json` reads it, and how the source looks into it. A number with a fraction is
-- kept by its text; one without, 2.0 among them, is an integer.
use text.Mathlib.Text.{◌==◌ as eq_str}
use notifications_template_p.Prelude.{
  String, Bool, true, false, not, Option, none, some, if◌then◌else◌,
}
use notifications_template_p.Prelude.Int.{ℤ, pos, eq_ℤ}
use notifications_template_p.Python.Errors.{Exn, Result, ok, raised}

mutual
  pub data Json : Type 0 where
    null : Json
    boolean : Bool → Json
    integer : ℤ → Json
    fraction : String → Json
    string : String → Json
    sequence : Elements → Json
    object : Members → Json

  pub data Elements : Type 0 where
    no_elements : Elements
    element : Json → Elements → Elements

  pub data Members : Type 0 where
    no_members : Members
    member : String → Json → Members → Members

unfoldable pub get_member : String → Members → Option Json
get_member key no_members = none
get_member key (member k v ms) = if eq_str key k then some v else get_member key ms

-- `json[key]`
unfoldable pub index : String → Json → Result Json
index key (object ms) = elim (get_member key ms) [ none ↦ raised Exn.key_error | some v ↦ ok v ]
index key _ = raised Exn.type_error

-- `json.get(key)`, with `null` for a key that is not there.
unfoldable pub get : String → Json → Result Json
get key (object ms) = elim (get_member key ms) [ none ↦ ok null | some v ↦ ok v ]
get key _ = raised Exn.attribute_error

-- `bool(json)`
abbrev pub is_truthy : Json → Bool
is_truthy null = false
is_truthy (boolean b) = b
is_truthy (integer n) = not (eq_ℤ n (pos 0))
is_truthy (fraction s) = true
is_truthy (string s) = not (eq_str s "")
is_truthy (sequence no_elements) = false
is_truthy (sequence (element v vs)) = true
is_truthy (object no_members) = false
is_truthy (object (member k v ms)) = true

-- A text, or nothing where JSON has anything else.
abbrev pub as_text : Json → Option String
as_text (string s) = some s
as_text _ = none

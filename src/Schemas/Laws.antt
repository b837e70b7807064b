-- ===== src/Schemas/Laws.antt =====
-- The documented behaviour of jsonschema that the endpoints rely on, and what follows for a JSON that
-- `preview_schema` admits.
use notifications_template_p.Prelude.{
  String, Bool, true, List, [], ◌∷◌, ◌≡◌, ◌⊎◌, inl, inr, none, some, All, arith, Option-cases,
  Bool-cases,
}
use notifications_template_p.Prelude.Int.{ℤ}
use notifications_template_p.Python.Errors.{ok}
use notifications_template_p.Json.{
  Json, Members, null, integer, string, object, get_member, index, get, is_truthy,
}
use notifications_template_p.Storage.{LetterDetails}
use notifications_template_p.Schemas.{
  JsonType, string_type, null_type, integer_type, object_type, Schema, typed, one_of, object_of,
  Schemas, no_schemas, schema, Properties, no_properties, property, attachment_schema,
  preview_schema,
}
use notifications_template_p.Preview.Details.{letter_details, attachment_of, details_of}

abbrev pub HasType : JsonType → Json → Type 0
HasType string_type v = (s : String) × (v ≡ string s)
HasType null_type v = v ≡ null
HasType integer_type v = (n : ℤ) × (v ≡ integer n)
HasType object_type v = (ms : Members) × (v ≡ object ms)

abbrev pub HasOneType : List JsonType → Json → Type 0
HasOneType [] v = ⊥
HasOneType (t ∷ ts) v = HasType t v ⊎ HasOneType ts v

abbrev pub IsSome : String → Members → Type 0
IsSome key ms = (u : Json) × (get_member key ms ≡ some u)

module _ (validate : Schema → Json → Bool) where
  abbrev pub MatchesOne : Schemas → Json → Type 0
  MatchesOne no_schemas v = ⊥
  MatchesOne (schema s ss) v = (validate s v ≡ true) ⊎ MatchesOne ss v

  -- Each property that is there has its schema.
  abbrev pub MatchesAll : Properties → Members → Type 0
  MatchesAll no_properties ms = Unit
  MatchesAll (property key s ps) ms =
      ((u : Json) → get_member key ms ≡ some u → validate s u ≡ true) × MatchesAll ps ms

  -- What draft 7 says of the keywords `type`, `oneOf`, `properties` and `required`.
  pub record IsDraft7 : Type 0 where
    pub types : (ts : List JsonType) (v : Json) → validate (typed ts) v ≡ true → HasOneType ts v
    pub one_of_matches : (ss : Schemas) (v : Json) → validate (one_of ss) v ≡ true → MatchesOne ss v
    pub properties :
        (ps : Properties) (required : List String) (additional : Bool) (v : Json)
        → validate (object_of ps required additional) v ≡ true
        → (ms : Members) × (v ≡ object ms) × All (λ key. IsSome key ms) required × MatchesAll ps ms

get-object : (key : String) (ms : Members) → (u : Json) × (get key (object ms) ≡ ok u)
unfolding get
get-object key ms = elim (Option-cases (get_member key ms)) [
  | inl absent ↦ (null, ground arith)
  | inr (u, there) ↦ (u, ground arith)
]

get-member :
    (key : String) (ms : Members) (u : Json)
    → get key (object ms) ≡ ok u
    → (get_member key ms ≡ some u) ⊎ (u ≡ null)
unfolding get
get-member key ms u h = elim (Option-cases (get_member key ms)) [
  | inl absent ↦ inr (ground arith)
  | inr (v, there) ↦ inl (ground arith)
]

index-object :
    (key : String) (ms : Members) (u : Json)
    → get_member key ms ≡ some u
    → index key (object ms) ≡ ok u
unfolding index
index-object key ms u h = ground arith

letter_details-read :
    (json : Json) (ms tms : Members)
    (template languages attachment filename values block date : Json)
    → json ≡ object ms
    → get_member "template" ms ≡ some template
    → template ≡ object tms
    → get "letter_languages" (object tms) ≡ ok languages
    → get "letter_attachment" (object tms) ≡ ok attachment
    → get_member "filename" ms ≡ some filename
    → get_member "values" ms ≡ some values
    → get_member "letter_contact_block" ms ≡ some block
    → get "date" (object ms) ≡ ok date
    → letter_details json ≡ ok (details_of template languages attachment filename values block date)
unfolding letter_details
letter_details-read json ms tms template languages attachment filename values block date o t to l a
      f v b d =
    rw (
      o,
      index-object "template" ms template t,
      to,
      l,
      a,
      index-object "filename" ms filename f,
      index-object "values" ms values v,
      index-object "letter_contact_block" ms block b,
      d,
    )

-- A letter has no attachment, or one whose number of pages can be read.
abbrev pub Counted : LetterDetails → Type 0
Counted d =
    (d.letter_attachment ≡ none)
    ⊎ ((a : Json) × (n : ℤ) × (d.letter_attachment ≡ some a)
        × (index "page_count" a ≡ ok (integer n)))

module _ (validate : Schema → Json → Bool) (draft7 : IsDraft7 validate) where
  -- What an object that matches the schema of an attachment gives as its number of pages.
  counted-object :
      (v : Json)
      → validate attachment_schema v ≡ true
      → (v ≡ null) ⊎ ((n : ℤ) × (index "page_count" v ≡ ok (integer n)))
  counted-object v h = elim (draft7.one_of_matches _ v h) [
    | inl matches ↦
        let (ms, is_object, ((u, there), _), (counts, _)) = draft7.properties _ _ _ v matches in
        elim (draft7.types _ u (counts u there)) [
          | inl (n, is_integer) ↦
              inr (n, rw (is_object, index-object "page_count" ms u there, is_integer))
          | inr none_left ↦ absurd none_left
        ]
    | inr (inl is_null) ↦ elim (draft7.types _ v is_null) [
      | inl e ↦ inl e
      | inr none_left ↦ absurd none_left
    ]
    | inr (inr none_left) ↦ absurd none_left
  ]

  attachment_of-counted :
      (v : Json)
      → (v ≡ null) ⊎ (validate attachment_schema v ≡ true)
      → (attachment_of v ≡ none)
        ⊎ ((a : Json) × (n : ℤ) × (attachment_of v ≡ some a)
            × (index "page_count" a ≡ ok (integer n)))
  attachment_of-counted v h = elim (Bool-cases (is_truthy v)) [
    | inr nothing ↦ inl (ground arith)
    | inl there ↦ elim h [
      | inl is_null ↦ absurd (ground arith)
      | inr matches ↦ elim (counted-object v matches) [
        | inl is_null ↦ absurd (ground arith)
        | inr (n, counts) ↦ inr (v, n, rw there, counts)
      ]
    ]
  ]

  -- A JSON that `preview_schema` admits is read without an exception, and its attachment, if it has
  -- one, says how many pages it has.
  pub letter_details-total :
      (json : Json)
      → validate preview_schema json ≡ true
      → (d : LetterDetails) × (letter_details json ≡ ok d) × Counted d
  letter_details-total json h =
      let (ms, is_object, required, matches) = draft7.properties _ _ _ json h in
      let (block, has_block) = required.0 in
      let (template, has_template) = required.1.0 in
      let (values, has_values) = required.1.1.0 in
      let (filename, has_filename) = required.1.1.1.0 in
      let (tms, template_object, _, template_properties) =
        draft7.properties _ _ _ template (matches.1.1.0 template has_template) in
      let (languages, get_languages) = get-object "letter_languages" tms in
      let (attachment, get_attachment) = get-object "letter_attachment" tms in
      let (date, get_date) = get-object "date" ms in
      let kept : (attachment ≡ null) ⊎ (validate attachment_schema attachment ≡ true) =
        elim (get-member "letter_attachment" tms attachment get_attachment) [
          | inl there ↦ inr (template_properties.1.1.1.0 attachment there)
          | inr is_null ↦ inl is_null
        ] in
      (
        details_of template languages attachment filename values block date,
        letter_details-read json ms tms template languages attachment filename values block date
            is_object has_template template_object get_languages get_attachment has_filename
            has_values has_block get_date,
        attachment_of-counted attachment kept,
      )

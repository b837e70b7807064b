-- ===== src/Examples/Validator.antt =====
-- A validator of JSON schemas that can be run.
use notifications_template_p.Prelude.{
  String, Bool, true, false, ◌&&◌, ◌||◌, List, [], ◌∷◌, ◌≡◌, refl, inl, inr, Option, none, some,
  All, arith, Option-cases, &&-iff, ||-cases,
}
use notifications_template_p.Json.{Json, Members, null, integer, string, object, get_member}
use notifications_template_p.Schemas.{
  JsonType, string_type, null_type, integer_type, object_type, Schema, typed, one_of, object_of,
  Schemas, no_schemas, schema, Properties, no_properties, property,
}
use notifications_template_p.Schemas.Laws.{
  HasOneType, HasType, IsSome, MatchesOne, MatchesAll, IsDraft7,
}

abbrev has_type : JsonType → Json → Bool
has_type string_type (string s) = true
has_type null_type null = true
has_type integer_type (integer n) = true
has_type object_type (object ms) = true
has_type t v = false

abbrev has_one_type : List JsonType → Json → Bool
has_one_type [] v = false
has_one_type (t ∷ ts) v = has_type t v || has_one_type ts v

abbrev has_keys : List String → Members → Bool
has_keys [] ms = true
has_keys (key ∷ keys) ms = elim (get_member key ms) [ none ↦ false | some u ↦ has_keys keys ms ]

abbrev members_or_none : Json → Option Members
members_or_none (object ms) = some ms
members_or_none v = none

unfoldable mutual
  pub accepts : Schema → Json → Bool
  accepts (typed ts) v = has_one_type ts v
  accepts (one_of ss) v = accepts_one ss v
  accepts (object_of ps required additional) v = elim (members_or_none v) [
    | none ↦ false
    | some ms ↦ has_keys required ms && accepts_all ps ms
  ]

  accepts_one : Schemas → Json → Bool
  accepts_one no_schemas v = false
  accepts_one (schema s ss) v = accepts s v || accepts_one ss v

  accepts_all : Properties → Members → Bool
  accepts_all no_properties ms = true
  accepts_all (property key s ps) ms =
      elim (get_member key ms) [ none ↦ true | some u ↦ accepts s u ] && accepts_all ps ms

has_type-HasType : (t : JsonType) (v : Json) → has_type t v ≡ true → HasType t v
has_type-HasType string_type (string s) h = (s, refl)
has_type-HasType null_type null h = refl
has_type-HasType integer_type (integer n) h = (n, refl)
has_type-HasType object_type (object ms) h = (ms, refl)
has_type-HasType t v h = absurd (ground arith)

has_one_type-HasOneType :
    (ts : List JsonType) (v : Json) → has_one_type ts v ≡ true → HasOneType ts v
has_one_type-HasOneType [] v h = absurd (ground arith)
has_one_type-HasOneType (t ∷ ts) v h = elim (||-cases _ _ h) [
  | inl e ↦ inl (has_type-HasType t v e)
  | inr e ↦ inr (has_one_type-HasOneType ts v e)
]

accepts_one-MatchesOne :
    (ss : Schemas) (v : Json) → accepts_one ss v ≡ true → MatchesOne accepts ss v
unfolding accepts_one
accepts_one-MatchesOne no_schemas v h = absurd (ground arith)
accepts_one-MatchesOne (schema s ss) v h = elim (||-cases _ _ h) [
  | inl e ↦ inl e
  | inr e ↦ inr (accepts_one-MatchesOne ss v e)
]

accepts_all-MatchesAll :
    (ps : Properties) (ms : Members) → accepts_all ps ms ≡ true → MatchesAll accepts ps ms
unfolding accepts_all
accepts_all-MatchesAll no_properties ms h = tt
accepts_all-MatchesAll (property key s ps) ms h =
    (λ u there. ground arith, accepts_all-MatchesAll ps ms (ground arith))

has_keys-IsSome :
    (keys : List String) (ms : Members) → has_keys keys ms ≡ true → All (λ key. IsSome key ms) keys
has_keys-IsSome [] ms h = tt
has_keys-IsSome (key ∷ keys) ms h = elim (Option-cases (get_member key ms)) [
  | inl absent ↦ absurd (ground arith)
  | inr (u, there) ↦ ((u, there), has_keys-IsSome keys ms (ground arith))
]

pub accepts-IsDraft7 : IsDraft7 accepts
unfolding accepts
accepts-IsDraft7 = record {
  types = λ ts v h. has_one_type-HasOneType ts v h;
  one_of_matches = λ ss v h. accepts_one-MatchesOne ss v h;
  properties = objects;
}
  where
    objects :
        (ps : Properties) (required : List String) (additional : Bool) (v : Json)
        → accepts (object_of ps required additional) v ≡ true
        → (ms : Members) × (v ≡ object ms)
          × All (λ key. IsSome key ms) required
          × MatchesAll accepts ps ms
    objects ps required additional (object ms) h =
        let (there, match) = (&&-iff _ _).0 h in
        (ms, refl, has_keys-IsSome required ms there, accepts_all-MatchesAll ps ms match)
    objects ps required additional v h = absurd (ground arith)

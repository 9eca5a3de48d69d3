-- ===== src/Integration/Tests.antt =====
-- Examples: a payload with two entities and a relationship of them. A path is one name.
use ai_de.Common.{String, ◌≡◌, refl, true, none, some, List, [], ◌∷◌, All}
use ai_de.Integration.{
  Json, text, object, field, no_field, Token, name_token, EntityMapping, Mapping, Ref, entity,
  relationship, Normalized, normalize_custom_artifact, resolve_dot_path,
}
use ai_de.Integration.Endpoints.{HasEndpoints, normalize_custom_artifact-HasEndpoints}

abbrev one_name : String → List Token
one_name s = name_token s ∷ []

abbrev as_is : String → String
as_is s = s

abbrev payload : Json
payload = object (field "deal" (text "d1") (field "owner" (text "jane") no_field))

abbrev named_by : String → EntityMapping
named_by path = record {
  key = path;
  type = "thing";
  external_id_path = path;
  display_name_path = path;
  body_path = none;
  attributes = [];
}

abbrev mapping : Mapping
mapping = record {
  entities = named_by "deal" ∷ named_by "owner" ∷ [];
  relationships = record { from = "deal"; predicate = "owned_by"; to = "owner" } ∷ [];
}

abbrev ref : String → Ref
ref id = record { connector = "crm"; external_id = id }

abbrev derived : Normalized
derived = record {
  records =
      entity "thing" "d1" (ref "d1") [] none
      ∷ entity "thing" "jane" (ref "jane") [] none
      ∷ relationship (ref "d1") "owned_by" (ref "jane")
      ∷ [];
  refs = ("owner", ref "jane") ∷ ("deal", ref "d1") ∷ [];
  issues = [];
}

normalizing : normalize_custom_artifact one_name as_is "crm" payload mapping true ≡ some derived
unfolding normalize_custom_artifact resolve_dot_path
normalizing = refl

normalize_custom_artifact-HasEndpoints_example : All (HasEndpoints derived.records) derived.records
normalize_custom_artifact-HasEndpoints_example =
    normalize_custom_artifact-HasEndpoints one_name as_is "crm" payload mapping true derived
      normalizing

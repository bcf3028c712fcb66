-- ===== src/Tests/Validator.antt =====
-- A validator for the keywords of JSON Schema that the advertiser uses.
use x402_nockchain.Prelude.{
  Result, ok, err, String, Bool, true, false, ◌&&◌, ◌||◌, not, List, [], ◌∷◌, names, is_distinct,
  Option, none, some, ◌==◌, string_eq, if◌then◌else◌,
}
use mathlib.Core.Option
use x402_nockchain.Advertiser.Schema.{dialect_uri}
use x402_nockchain.Facilitator.Bazaar.{Web}
use x402_nockchain.Tests.Samples.{
  Node, Nodes, Entries, flag, text, row, table, end, item, last, entry, find,
}

abbrev pub of_type : Node → Node → Bool
of_type (text t) (text s) = t == "string"
of_type (text t) (table fields) = t == "object"
of_type t v = false

abbrev pub same_text : Node → Node → Bool
same_text (text a) (text b) = a == b
same_text a b = false

abbrev pub one_of : Nodes → Node → Bool
one_of end v = false
one_of (item u us) v = if same_text u v then true else one_of us v

abbrev pub is_some : Option Node → Bool
is_some none = false
is_some (some v) = true

abbrev pub has_all : Nodes → Entries → Bool
has_all (item (text name) names) fields = is_some (find name fields) && has_all names fields
has_all end fields = true
has_all names fields = false

abbrev pub only_in : Entries → Entries → Bool
only_in schemas last = true
only_in schemas (entry name v rest) = is_some (find name schemas) && only_in schemas rest

abbrev pub closed : Option Node → Node → Bool
closed (some (table schemas)) (table fields) = only_in schemas fields
closed (some v) (table fields) = false
closed none (table fields) = false
closed schemas v = true

-- Whether a value is a schema, with texts for `type` and `$schema` that are known.
abbrev pub names_of : Entries → List String
names_of last = []
names_of (entry name v rest) = name ∷ names_of rest

abbrev pub texts_of : Nodes → Option (List String)
texts_of end = some []
texts_of (item (text s) vs) = Option.map (λ rest. s ∷ rest) (texts_of vs)
texts_of (item v vs) = none

abbrev pub all_distinct : Option (List String) → Bool
all_distinct none = false
all_distinct (some ss) = is_distinct ss

unfoldable mutual
  pub is_schema : Node → Bool
  is_schema (table keywords) = is_distinct (names_of keywords) && are_keywords keywords
  is_schema v = false

  pub are_keywords : Entries → Bool
  are_keywords last = true
  are_keywords (entry name argument rest) = is_keyword name argument && are_keywords rest

  pub is_keyword : String → Node → Bool
  is_keyword name (text s) =
      if name == "$schema"
      then s == dialect_uri
      else if name == "type"
      then s == "string" || s == "object"
      else name == "const"
  is_keyword name (row vs) = (name == "enum" || name == "required") && all_distinct (texts_of vs)
  is_keyword name (table schemas) =
      name == "properties" && (is_distinct (names_of schemas) && are_schemas schemas)
  is_keyword name (flag b) = name == "additionalProperties" && not b
  is_keyword name v = false

  pub are_schemas : Entries → Bool
  are_schemas last = true
  are_schemas (entry name schema rest) = is_schema schema && are_schemas rest

unfoldable mutual
  pub conforms : Node → Node → Bool
  conforms (table keywords) v = all_keywords keywords keywords v
  conforms schema v = false

  pub all_keywords : Entries → Entries → Node → Bool
  all_keywords all last v = true
  all_keywords all (entry name argument rest) v =
      keyword all name argument v && all_keywords all rest v

  pub keyword : Entries → String → Node → Node → Bool
  keyword all name (text s) v =
      if name == "$schema"
      then true
      else if name == "type"
      then of_type (text s) v
      else if name == "const"
      then same_text (text s) v
      else false
  keyword all name (row vs) v =
      if name == "enum"
      then one_of vs v
      else if name == "required"
      then (elim v [ table fields ↦ has_all vs fields | _ ↦ true ])
      else false
  keyword all name (table schemas) v =
      if name == "properties"
      then (elim v [ table fields ↦ each_property schemas fields | _ ↦ true ])
      else false
  keyword all name (flag b) v =
      if name == "additionalProperties" then closed (find "properties" all) v else false
  keyword all name argument v = false

  pub each_property : Entries → Entries → Bool
  each_property last fields = true
  each_property (entry name schema rest) fields =
      (elim (find name fields) [ none ↦ true | some v ↦ conforms schema v ])
      && each_property rest fields

abbrev pub compiled : Bool → Node → Result String Node
compiled true v = ok v
compiled false v = err "not a schema"

abbrev pub validated : Bool → Result (List String) (Unit {0})
validated true = ok tt
validated false = err ("not of the schema" ∷ [])

abbrev pub validating_web : Web Node
validating_web = record {
  Compiled = Node;
  HeaderValue = String;
  compile = λ v. compiled (is_schema v) v;
  validate = λ s v. validated (conforms s v);
  header_text = λ r. some "{}";
  base64 = λ s. s;
  header_value = λ s. some s;
}

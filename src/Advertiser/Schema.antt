-- ===== src/Advertiser/Schema.antt =====
-- JSON Schema (draft 2020-12), for the keywords and arguments that the schemas of the advertiser
-- use: what is a schema, and when a value conforms to one.
use x402_nockchain.Prelude.{
  String, ◌≡◌, true, false, none, some, List, [], ◌∷◌, map, All, Among, Dict, lookup, names,
  is_distinct,
}
use x402_nockchain.Types.Json.{Json}

abbrev pub dialect_uri : String
dialect_uri = "https://json-schema.org/draft/2020-12/schema"

module _ (J : Json) where
  open J use {Value, string, boolean, array, object}

  abbrev pub Has : Dict Value → String → Type 0
  Has fields name = (v : Value) × (lookup name fields ≡ some v)

  -- The names of an object, each of which stands there once.
  abbrev pub IsDistinct : Dict Value → Type 0
  IsDistinct fields = is_distinct (names fields) ≡ true

  mutual
    -- A schema: an object of keywords with the arguments that they may have.
    pub data IsSchema : Value → Type 0 where
      known_keywords :
          (keywords : Dict Value)
          → IsDistinct keywords
          → AreKeywords keywords
          → IsSchema (object keywords)

    pub data AreKeywords : Dict Value → Type 0 where
      no_more : AreKeywords []
      one_more :
          (name : String) (argument : Value) (rest : Dict Value)
          → IsKeyword name argument
          → AreKeywords rest
          → AreKeywords ((name, argument) ∷ rest)

    pub data IsKeyword : String → Value → Type 0 where
      dialect_keyword : IsKeyword "$schema" (string dialect_uri)
      string_keyword : IsKeyword "type" (string "string")
      object_keyword : IsKeyword "type" (string "object")
      constant_keyword : (s : String) → IsKeyword "const" (string s)
      enumeration_keyword :
          (choices : List String)
          → is_distinct choices ≡ true
          → IsKeyword "enum" (array (map string choices))
      required_keyword :
          (fields : List String)
          → is_distinct fields ≡ true
          → IsKeyword "required" (array (map string fields))
      properties_keyword :
          (schemas : Dict Value)
          → IsDistinct schemas
          → AreSchemas schemas
          → IsKeyword "properties" (object schemas)
      closed_keyword : IsKeyword "additionalProperties" (boolean false)

    pub data AreSchemas : Dict Value → Type 0 where
      no_schema : AreSchemas []
      one_schema :
          (name : String) (schema : Value) (rest : Dict Value)
          → IsSchema schema
          → AreSchemas rest
          → AreSchemas ((name, schema) ∷ rest)

  mutual
    -- An object of keywords, each of which the value obeys.
    pub data Conforms : Value → Value → Type 0 where
      conforms :
          (keywords : Dict Value) (v : Value)
          → IsDistinct keywords
          → Keywords keywords keywords v
          → Conforms (object keywords) v

    -- The keywords of a list, beside all those of the schema.
    pub data Keywords : Dict Value → Dict Value → Value → Type 0 where
      no_keyword : (all : Dict Value) (v : Value) → Keywords all [] v
      keyword :
          (all rest : Dict Value) (name : String) (argument v : Value)
          → Keyword all name argument v
          → Keywords all rest v
          → Keywords all ((name, argument) ∷ rest) v

    pub data Keyword : Dict Value → String → Value → Value → Type 0 where
      dialect : (all : Dict Value) (v : Value) → Keyword all "$schema" (string dialect_uri) v
      string_type :
          (all : Dict Value) (s : String) → Keyword all "type" (string "string") (string s)
      object_type : (all fields : Dict Value) → Keyword all "type" (string "object") (object fields)
      constant : (all : Dict Value) (s : String) → Keyword all "const" (string s) (string s)
      enumeration :
          (all : Dict Value) (choices : List String) (s : String)
          → Among s choices
          → Keyword all "enum" (array (map string choices)) (string s)
      required :
          (all fields : Dict Value) (needed : List String)
          → All (Has fields) needed
          → Keyword all "required" (array (map string needed)) (object fields)
      properties :
          (all schemas fields : Dict Value)
          → IsDistinct schemas
          → Fields schemas fields
          → Keyword all "properties" (object schemas) (object fields)
      -- `"additionalProperties": false`
      no_other_property :
          (all schemas fields : Dict Value)
          → lookup "properties" all ≡ some (object schemas)
          → All (λ (field : String × Value). Has schemas field.0) fields
          → Keyword all "additionalProperties" (boolean false) (object fields)

    -- Each field conforms to the schema of its name, if there is one.
    pub data Fields : Dict Value → Dict Value → Type 0 where
      no_field : (schemas : Dict Value) → Fields schemas []
      free :
          (schemas rest : Dict Value) (name : String) (v : Value)
          → lookup name schemas ≡ none
          → Fields schemas rest
          → Fields schemas ((name, v) ∷ rest)
      field :
          (schemas rest : Dict Value) (name : String) (v schema : Value)
          → lookup name schemas ≡ some schema
          → Conforms schema v
          → Fields schemas rest
          → Fields schemas ((name, v) ∷ rest)

-- ===== src/Advertiser/Conforming.antt =====
-- How a value that is written field by field conforms to a schema, and the schemas that the
-- declarations share.
use x402_nockchain.Prelude.{
  String, ◌≡◌, refl, false, Option, none, some, OnSome, List, [], ◌∷◌, ◌++◌, All, Among, inl, inr,
  Dict, lookup, ◌==◌, string_eq,
}
use x402_nockchain.Types.Json.{Json}
use x402_nockchain.Types.Bazaar.{
  QueryMethod, get, head, delete, BodyMethod, post, put, patch, BodyType, json, form_data, text,
  McpTransport, streamable_http, sse, DiscoveryInput, DiscoveryOutput,
}
use x402_nockchain.Types.Written.{
  query_method_text, body_method_text, body_type_text, transport_text, optional, input_value,
  output_value, info_value,
}
use x402_nockchain.Advertiser.{typed, enum, const, output_schema, schema_of}
use x402_nockchain.Advertiser.Schema.{
  Has, IsDistinct, Conforms, conforms, no_keyword, keyword, dialect, string_type, object_type,
  constant, enumeration, required, properties, Fields, no_field, free, field,
}

module _ (J : Json) where
  open J use {Value, string, boolean, array, object}

  pub typed-Conforms : (s : String) → Conforms J (typed J "string") (string s)
  typed-Conforms s = conforms _ _ refl (keyword _ _ _ _ _ (string_type _ s) (no_keyword _ _))

  pub object-Conforms : (fields : Dict Value) → Conforms J (typed J "object") (object fields)
  object-Conforms fields =
      conforms _ _ refl (keyword _ _ _ _ _ (object_type _ fields) (no_keyword _ _))

  pub const-Conforms : (s : String) → Conforms J (const J s) (string s)
  const-Conforms s =
      conforms _ _ refl
        (keyword _ _ _ _ _ (string_type _ s) (keyword _ _ _ _ _ (constant _ s) (no_keyword _ _)))

  pub enum-Conforms :
      (names : List String) (s : String) → Among s names → Conforms J (enum J names) (string s)
  enum-Conforms names s m = conforms _ _ refl (
      keyword _ _ _ _ _ (string_type _ s)
        (keyword _ _ _ _ _ (enumeration _ _ _ m) (no_keyword _ _)))

  pub empty-Conforms : (v : Value) → Conforms J (object []) v
  empty-Conforms v = conforms _ _ refl (no_keyword _ _)

  pub Fields-append :
      (schemas xs ys : Dict Value)
      → Fields J schemas xs
      → Fields J schemas ys
      → Fields J schemas (xs ++ ys)
  Fields-append schemas [] ys f g = g
  Fields-append schemas ((name, v) ∷ xs) ys (free _ _ _ _ e f) g =
      free _ _ _ _ e (Fields-append schemas xs ys f g)
  Fields-append schemas ((name, v) ∷ xs) ys (field _ _ _ _ _ e c f) g =
      field _ _ _ _ _ e c (Fields-append schemas xs ys f g)

  pub Fields-optional :
      {A : Type 0} (schemas : Dict Value) (name : String) (show : A → Value) (o : Option A)
      (schema : Value)
      → lookup name schemas ≡ some schema
      → OnSome (λ a. Conforms J schema (show a)) o
      → Fields J schemas (optional J name show o)
  Fields-optional schemas name show none schema e c = no_field _
  Fields-optional schemas name show (some a) schema e c = field _ _ _ _ _ e c (no_field _)

  pub Fields-optional_free :
      {A : Type 0} (schemas : Dict Value) (name : String) (show : A → Value) (o : Option A)
      → lookup name schemas ≡ none
      → Fields J schemas (optional J name show o)
  Fields-optional_free schemas name show none e = no_field _
  Fields-optional_free schemas name show (some a) e = free _ _ _ _ e (no_field _)

  abbrev pub IsKnown : Dict Value → String × Value → Type 0
  IsKnown schemas f = Has J schemas f.0

  pub All-optional :
      {A : Type 0} (schemas : Dict Value) (name : String) (show : A → Value) (o : Option A)
      (schema : Value)
      → lookup name schemas ≡ some schema
      → All (IsKnown schemas) (optional J name show o)
  All-optional schemas name show none schema e = tt
  All-optional schemas name show (some a) schema e = ((schema, e), tt)

  pub lookup-optional :
      {A : Type 0} (other name : String) (show : A → Value) (o : Option A) (rest : Dict Value)
      → (name == other) ≡ false
      → lookup other (optional J name show o ++ rest) ≡ lookup other rest
  unfolding lookup
  lookup-optional other name show none rest e = refl
  lookup-optional other name show (some a) rest e = rw e

  pub output-IsDistinct :
      (input : Value) (output : Option (DiscoveryOutput Value))
      → IsDistinct J (("input", input) ∷ output_schema J output)
  output-IsDistinct input none = refl
  output-IsDistinct input (some o) = refl

  -- The schema of an output, whatever it is.
  pub output-Fields :
      (input : Value) (output : Option (DiscoveryOutput Value))
      → Fields J
          (("input", input) ∷ output_schema J output)
          (optional J "output" (output_value J) output)
  unfolding lookup output_value
  output-Fields input none = no_field _
  output-Fields input (some o) =
      field _ _ _ _ _ refl
        (conforms _ _ refl (
          keyword _ _ _ _ _ (object_type _ _) (
            keyword _ _ _ _ _
              (properties _ _ _ refl (
                field _ _ _ _ _ refl (typed-Conforms o.kind) (
                  Fields-append _ (optional J "format" string o.format) _
                    (Fields-optional_free _ "format" string o.format refl)
                    (Fields-optional_free _ "example" (λ v. v) o.example refl))))
              (keyword _ _ _ _ _ (required _ _ ("type" ∷ []) ((string o.kind, refl), tt))
                (no_keyword _ _)))))
        (no_field _)

  -- An info conforms to the whole schema when its input conforms to the schema of the input.
  pub schema_of-Conforms :
      (schema : Value) (input : DiscoveryInput Value) (output : Option (DiscoveryOutput Value))
      → Conforms J schema (input_value J input)
      → Conforms J
          (schema_of J schema output)
          (info_value J (record { input = input; output = output }))
  unfolding info_value lookup
  schema_of-Conforms schema input output c = conforms _ _ refl (
      keyword _ _ _ _ _ (dialect _ _) (
        keyword _ _ _ _ _ (object_type _ _) (
          keyword _ _ _ _ _
            (properties _ _ _ (output-IsDistinct schema output)
              (field _ _ _ _ _ refl c (output-Fields schema output)))
            (keyword _ _ _ _ _ (required _ _ ("input" ∷ []) ((input_value J input, refl), tt))
              (no_keyword _ _)))))

  pub query_method-Among :
      (m : QueryMethod) → Among (query_method_text m) ("GET" ∷ "HEAD" ∷ "DELETE" ∷ [])
  unfolding query_method_text
  query_method-Among get = inl refl
  query_method-Among head = inr (inl refl)
  query_method-Among delete = inr (inr (inl refl))

  pub body_method-Among :
      (m : BodyMethod) → Among (body_method_text m) ("POST" ∷ "PUT" ∷ "PATCH" ∷ [])
  unfolding body_method_text
  body_method-Among post = inl refl
  body_method-Among put = inr (inl refl)
  body_method-Among patch = inr (inr (inl refl))

  pub body_type-Among :
      (t : BodyType) → Among (body_type_text t) ("json" ∷ "form-data" ∷ "text" ∷ [])
  unfolding body_type_text
  body_type-Among json = inl refl
  body_type-Among form_data = inr (inl refl)
  body_type-Among text = inr (inr (inl refl))

  pub transport-Among :
      (t : McpTransport) → Among (transport_text t) ("streamable-http" ∷ "sse" ∷ [])
  unfolding transport_text
  transport-Among streamable_http = inl refl
  transport-Among sse = inr (inl refl)

-- ===== src/Advertiser/Declared.antt =====
-- What the advertiser declares for a tool or a body endpoint conforms to its own schema.
use x402_nockchain.Prelude.{
  ◌≡◌, refl, Option, OnSome, OnSome-of, OnSome-map, [], ◌∷◌, All, All-append, Dict, lookup,
  string_eq,
}
use x402_nockchain.Types.Json.{Json}
use x402_nockchain.Types.Bazaar.{mcp, http, body, BodyInput, DiscoveryOutput, McpInput}
use x402_nockchain.Types.Written.{
  transport_text, optional, headers_value, body_fields, mcp_fields, input_value, info_value,
}
use x402_nockchain.Advertiser.{typed, enum, const, build_body_schema, build_mcp_schema}
use x402_nockchain.Advertiser.Schema.{
  Has, Conforms, conforms, no_keyword, keyword, object_type, required, properties,
  no_other_property, Fields, field,
}
use x402_nockchain.Advertiser.Conforming.{
  typed-Conforms, object-Conforms, const-Conforms, enum-Conforms, empty-Conforms, Fields-append,
  Fields-optional, Fields-optional_free, IsKnown, All-optional, lookup-optional, schema_of-Conforms,
  body_method-Among, body_type-Among, transport-Among,
}

module _ (J : Json) where
  open J use {Value, string, boolean, array, object}

  -- A value that is an object.
  abbrev pub IsObject : Value → Type 0
  IsObject v = (fields : Dict Value) × (v ≡ object fields)

  IsObject-Conforms : (v : Value) → IsObject v → Conforms J (typed J "object") v
  IsObject-Conforms v (fields, e) = rw e (object-Conforms J fields)

  module _ (m : McpInput Value) (object_input : IsObject m.input_schema)
      (object_example : OnSome IsObject m.example) where
    abbrev mcp_schemas : Dict Value
    mcp_schemas =
        ("type", const J "mcp")
        ∷ ("tool", typed J "string")
        ∷ ("description", typed J "string")
        ∷ ("transport", enum J ("streamable-http" ∷ "sse" ∷ []))
        ∷ ("inputSchema", typed J "object")
        ∷ ("example", typed J "object")
        ∷ []

    mcp-Fields : Fields J mcp_schemas (("type", string "mcp") ∷ mcp_fields J m)
    unfolding lookup
    mcp-Fields = field _ _ _ _ _ refl (const-Conforms J "mcp") (
        field _ _ _ _ _ refl (typed-Conforms J m.tool) (
          Fields-append J _ (optional J "description" string m.description) _
            (Fields-optional J _ "description" string m.description _ refl
              (OnSome-of m.description (typed-Conforms J)))
            (field _ _ _ _ _ refl (IsObject-Conforms m.input_schema object_input) (
              Fields-append J _
                (optional J "transport" (λ t. string (transport_text t)) m.transport) _
                (Fields-optional J _ "transport" (λ t. string (transport_text t)) m.transport _ refl
                  (OnSome-of m.transport (λ t.
                    enum-Conforms J ("streamable-http" ∷ "sse" ∷ []) (transport_text t)
                      (transport-Among J t))))
                (Fields-optional J _ "example" (λ v. v) m.example _ refl
                  (OnSome-map m.example IsObject-Conforms object_example))))))

    mcp-IsKnown : All (IsKnown J mcp_schemas) (("type", string "mcp") ∷ mcp_fields J m)
    unfolding lookup
    mcp-IsKnown = (
      (_, refl),
      (
        (_, refl),
        All-append (IsKnown J mcp_schemas) (optional J "description" string m.description) _
            (All-optional J mcp_schemas "description" string m.description _ refl)
            (
              (_, refl),
              All-append (IsKnown J mcp_schemas)
                  (optional J "transport" (λ t. string (transport_text t)) m.transport) _
                  (All-optional J mcp_schemas "transport" (λ t. string (transport_text t))
                    m.transport _ refl)
                  (All-optional J mcp_schemas "example" (λ v. v) m.example _ refl),
            ),
      ),
    )

    mcp-required :
        All (Has J (("type", string "mcp") ∷ mcp_fields J m)) ("type" ∷ "tool" ∷ "inputSchema" ∷ [])
    unfolding lookup
    mcp-required = (
      (_, refl),
      (
        (_, refl),
        (
          (
            m.input_schema,
            lookup-optional J "inputSchema" "description" string m.description _ refl,
          ),
          tt,
        ),
      ),
    )

    pub mcp-Conforms :
        (output : Option (DiscoveryOutput Value))
        → Conforms J
            (build_mcp_schema J output)
            (info_value J (record { input = mcp m; output = output }))
    unfolding build_mcp_schema input_value lookup
    mcp-Conforms output = schema_of-Conforms J _ (mcp m) output (
        conforms _ _ refl (
          keyword _ _ _ _ _ (object_type _ _) (
            keyword _ _ _ _ _ (properties _ _ _ refl mcp-Fields) (
              keyword _ _ _ _ _ (required _ _ ("type" ∷ "tool" ∷ "inputSchema" ∷ []) mcp-required)
                (keyword _ _ _ _ _ (no_other_property _ _ _ refl mcp-IsKnown) (no_keyword _ _))))))

  module _ (b : BodyInput Value) where
    abbrev body_schemas : Dict Value
    body_schemas =
        ("type", const J "http")
        ∷ ("method", enum J ("POST" ∷ "PUT" ∷ "PATCH" ∷ []))
        ∷ ("bodyType", enum J ("json" ∷ "form-data" ∷ "text" ∷ []))
        ∷ ("body", object [])
        ∷ []

    body-Fields : Fields J body_schemas (("type", string "http") ∷ body_fields J b)
    unfolding lookup
    body-Fields = field _ _ _ _ _ refl (const-Conforms J "http") (
        field _ _ _ _ _ refl
          (enum-Conforms J ("POST" ∷ "PUT" ∷ "PATCH" ∷ []) _ (body_method-Among J b.method))
          (field _ _ _ _ _ refl
            (enum-Conforms J ("json" ∷ "form-data" ∷ "text" ∷ []) _ (body_type-Among J b.body_type))
            (field _ _ _ _ _ refl (empty-Conforms J b.body) (
              Fields-append J _ (optional J "queryParams" object b.query_params) _
                (Fields-optional_free J _ "queryParams" object b.query_params refl)
                (Fields-optional_free J _ "headers" (headers_value J) b.headers refl)))))

    body-required :
        All
          (Has J (("type", string "http") ∷ body_fields J b))
          ("type" ∷ "method" ∷ "bodyType" ∷ "body" ∷ [])
    unfolding lookup
    body-required = ((_, refl), ((_, refl), ((_, refl), ((_, refl), tt))))

    pub body-Conforms :
        (output : Option (DiscoveryOutput Value))
        → Conforms J
            (build_body_schema J output)
            (info_value J (record { input = http (body b); output = output }))
    unfolding build_body_schema input_value lookup
    body-Conforms output = schema_of-Conforms J _ (http (body b)) output (
        conforms _ _ refl (
          keyword _ _ _ _ _ (object_type _ _) (
            keyword _ _ _ _ _ (properties _ _ _ refl body-Fields) (
              keyword _ _ _ _ _
                (required _ _ ("type" ∷ "method" ∷ "bodyType" ∷ "body" ∷ []) body-required)
                (no_keyword _ _)))))

-- ===== src/Advertiser/Schemas.antt =====
-- The schemas that the advertiser builds are schemas.
use x402_nockchain.Prelude.{
  String, ◌≡◌, refl, true, ap, Option, none, some, OnSome, List, [], ◌∷◌, map, Dict, names,
  is_distinct,
}
use x402_nockchain.Types.Json.{Json}
use x402_nockchain.Types.Bazaar.{DiscoveryOutput}
use x402_nockchain.Advertiser.{
  typed, enum, const, output_schema, schema_of, query_params_schema, build_query_schema,
  build_body_schema, build_mcp_schema,
}
use x402_nockchain.Advertiser.Schema.{
  IsDistinct, IsSchema, known_keywords, no_more, one_more, dialect_keyword, string_keyword,
  object_keyword, constant_keyword, enumeration_keyword, required_keyword, properties_keyword,
  closed_keyword, AreSchemas, no_schema, one_schema,
}
use x402_nockchain.Advertiser.Conforming.{output-IsDistinct}

module _ (J : Json) where
  open J use {Value, string, array, object}

  string-IsSchema : IsSchema J (typed J "string")
  string-IsSchema = known_keywords _ refl (one_more _ _ _ string_keyword no_more)

  object-IsSchema : IsSchema J (typed J "object")
  object-IsSchema = known_keywords _ refl (one_more _ _ _ object_keyword no_more)

  const-IsSchema : (s : String) → IsSchema J (const J s)
  const-IsSchema s =
      known_keywords _ refl
        (one_more _ _ _ string_keyword (one_more _ _ _ (constant_keyword s) no_more))

  enum-IsSchema : (choices : List String) → is_distinct choices ≡ true → IsSchema J (enum J choices)
  enum-IsSchema choices distinct = known_keywords _ refl (
      one_more _ _ _ string_keyword (one_more _ _ _ (enumeration_keyword choices distinct) no_more))

  output-AreSchemas :
      (output : Option (DiscoveryOutput Value)) → AreSchemas J (output_schema J output)
  output-AreSchemas none = no_schema
  output-AreSchemas (some o) =
      one_schema _ _ _
        (known_keywords _ refl (
          one_more _ _ _ object_keyword (
            one_more _ _ _ (properties_keyword _ refl (one_schema _ _ _ string-IsSchema no_schema))
              (one_more _ _ _ (required_keyword ("type" ∷ []) refl) no_more))))
        no_schema

  schema_of-IsSchema :
      (input : Value) (output : Option (DiscoveryOutput Value))
      → IsSchema J input
      → IsSchema J (schema_of J input output)
  schema_of-IsSchema input output s = known_keywords _ refl (
      one_more _ _ _ dialect_keyword (
        one_more _ _ _ object_keyword (
          one_more _ _ _
            (properties_keyword _ (output-IsDistinct J input output)
              (one_schema _ _ _ s (output-AreSchemas output)))
            (one_more _ _ _ (required_keyword ("input" ∷ []) refl) no_more))))

  pub mcp-IsSchema :
      (output : Option (DiscoveryOutput Value)) → IsSchema J (build_mcp_schema J output)
  unfolding build_mcp_schema
  mcp-IsSchema output = schema_of-IsSchema _ output (
      known_keywords _ refl (
        one_more _ _ _ object_keyword (
          one_more _ _ _
            (properties_keyword _ refl (
              one_schema _ _ _ (const-IsSchema "mcp") (
                one_schema _ _ _ string-IsSchema (
                  one_schema _ _ _ string-IsSchema (
                    one_schema _ _ _ (enum-IsSchema ("streamable-http" ∷ "sse" ∷ []) refl) (
                      one_schema _ _ _ object-IsSchema
                        (one_schema _ _ _ object-IsSchema no_schema)))))))
            (one_more _ _ _ (required_keyword ("type" ∷ "tool" ∷ "inputSchema" ∷ []) refl)
              (one_more _ _ _ closed_keyword no_more)))))

  pub body-IsSchema :
      (output : Option (DiscoveryOutput Value)) → IsSchema J (build_body_schema J output)
  unfolding build_body_schema
  body-IsSchema output = schema_of-IsSchema _ output (
      known_keywords _ refl (
        one_more _ _ _ object_keyword (
          one_more _ _ _
            (properties_keyword _ refl (
              one_schema _ _ _ (const-IsSchema "http") (
                one_schema _ _ _ (enum-IsSchema ("POST" ∷ "PUT" ∷ "PATCH" ∷ []) refl) (
                  one_schema _ _ _ (enum-IsSchema ("json" ∷ "form-data" ∷ "text" ∷ []) refl)
                    (one_schema _ _ _ (known_keywords [] refl no_more) no_schema)))))
            (one_more _ _ _ (required_keyword ("type" ∷ "method" ∷ "bodyType" ∷ "body" ∷ []) refl)
              no_more))))

  names-typed :
      (params : Dict Value) → names (map (λ kv. (kv.0, typed J "string")) params) ≡ names params
  names-typed [] = refl
  names-typed ((k, v) ∷ params) = ap (λ ks. k ∷ ks) (names-typed params)

  typed-AreSchemas :
      (params : Dict Value) → AreSchemas J (map (λ kv. (kv.0, typed J "string")) params)
  typed-AreSchemas [] = no_schema
  typed-AreSchemas ((k, v) ∷ params) = one_schema _ _ _ string-IsSchema (typed-AreSchemas params)

  -- The schemas of parameters whose names are distinct have distinct names.
  pub typed-IsDistinct :
      (params : Dict Value)
      → IsDistinct J params
      → IsDistinct J (map (λ kv. (kv.0, typed J "string")) params)
  typed-IsDistinct params distinct = rw (names-typed params) distinct

  query_params-AreSchemas :
      (params : Option (Dict Value))
      → OnSome (IsDistinct J) params
      → AreSchemas J (query_params_schema J params)
  query_params-AreSchemas none distinct = no_schema
  query_params-AreSchemas (some params) distinct =
      one_schema _ _ _
        (known_keywords _ refl (
          one_more _ _ _ object_keyword (
            one_more _ _ _
              (properties_keyword _ (typed-IsDistinct params distinct) (typed-AreSchemas params))
              no_more)))
        no_schema

  pub query-IsDistinct :
      (params : Option (Dict Value))
      → IsDistinct J (
          ("type", const J "http")
          ∷ ("method", enum J ("GET" ∷ "HEAD" ∷ "DELETE" ∷ []))
          ∷ query_params_schema J params)
  query-IsDistinct none = refl
  query-IsDistinct (some params) = refl

  pub query-IsSchema :
      (params : Option (Dict Value)) (output : Option (DiscoveryOutput Value))
      → OnSome (IsDistinct J) params
      → IsSchema J (build_query_schema J params output)
  unfolding build_query_schema
  query-IsSchema params output distinct = schema_of-IsSchema _ output (
      known_keywords _ refl (
        one_more _ _ _ object_keyword (
          one_more _ _ _
            (properties_keyword _ (query-IsDistinct params) (
              one_schema _ _ _ (const-IsSchema "http") (
                one_schema _ _ _ (enum-IsSchema ("GET" ∷ "HEAD" ∷ "DELETE" ∷ []) refl)
                  (query_params-AreSchemas params distinct))))
            (one_more _ _ _ (required_keyword ("type" ∷ "method" ∷ []) refl)
              (one_more _ _ _ closed_keyword no_more)))))

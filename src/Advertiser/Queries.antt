-- ===== src/Advertiser/Queries.antt =====
-- What the advertiser declares for a query endpoint conforms to its own schema.
use x402_nockchain.Prelude.{
  String, ◌≡◌, refl, Option, none, some, OnSome, [], ◌∷◌, map, All, All-map, eq_refl, Bool-cases,
  inl, inr, Dict, lookup, ◌==◌, string_eq,
}
use mathlib.Core.List.{append-nil}
use x402_nockchain.Types.Json.{Json}
use x402_nockchain.Types.Bazaar.{http, query, QueryInput, DiscoveryOutput}
use x402_nockchain.Types.Written.{optional, query_fields, input_value, info_value}
use x402_nockchain.Advertiser.{typed, enum, const, query_params_schema, build_query_schema}
use x402_nockchain.Advertiser.Schema.{
  IsDistinct, Conforms, conforms, no_keyword, keyword, object_type, required, properties,
  no_other_property, Fields, no_field, field,
}
use x402_nockchain.Advertiser.Schemas.{typed-IsDistinct, query-IsDistinct}
use x402_nockchain.Advertiser.Conforming.{
  typed-Conforms, const-Conforms, enum-Conforms, IsKnown, schema_of-Conforms, query_method-Among,
}

module _ (J : Json) where
  open J use {Value, string, boolean, array, object}

  -- A value that is a text.
  abbrev pub IsString : Value → Type 0
  IsString v = (s : String) × (v ≡ string s)

  -- Parameters whose examples are texts.
  abbrev pub AllStrings : Dict Value → Type 0
  AllStrings params = All (λ (param : String × Value). IsString param.1) params

  abbrev typed_all : Dict Value → Dict Value
  typed_all params = map (λ kv. (kv.0, typed J "string")) params

  abbrev IsTyped : Dict Value → String × Value → Type 0
  IsTyped schemas param = lookup param.0 schemas ≡ some (typed J "string")

  IsTyped-typed_all : (params : Dict Value) → All (IsTyped (typed_all params)) params
  unfolding lookup
  IsTyped-typed_all [] = tt
  IsTyped-typed_all ((k, v) ∷ params) = (
    rw (eq_refl k),
    All-map (IsTyped (typed_all params)) (IsTyped (typed_all ((k, v) ∷ params)))
        (λ (param : String × Value) e. elim (Bool-cases (k == param.0)) [
          | inl b ↦ rw b
          | inr b ↦ rw b e
        ])
        params (IsTyped-typed_all params),
  )

  Fields-typed :
      (schemas params : Dict Value)
      → All (IsTyped schemas) params
      → AllStrings params
      → Fields J schemas params
  Fields-typed schemas [] known strings = no_field _
  Fields-typed schemas ((k, v) ∷ params) (e, known) ((s, same), strings) =
      field _ _ _ _ _ e (rw same (typed-Conforms J s)) (Fields-typed schemas params known strings)

  module _ (q : QueryInput Value) (no_headers : q.headers ≡ none)
      (strings : OnSome AllStrings q.query_params)
      (distinct : OnSome (IsDistinct J) q.query_params) where
    abbrev query_schemas : Dict Value
    query_schemas =
        ("type", const J "http")
        ∷ ("method", enum J ("GET" ∷ "HEAD" ∷ "DELETE" ∷ []))
        ∷ query_params_schema J q.query_params

    query_params-Fields :
        (params : Option (Dict Value))
        → OnSome AllStrings params
        → OnSome (IsDistinct J) params
        → let schemas =
            ("type", const J "http")
            ∷ ("method", enum J ("GET" ∷ "HEAD" ∷ "DELETE" ∷ []))
            ∷ query_params_schema J params in
          Fields J schemas (optional J "queryParams" object params)
          × All (IsKnown J schemas) (optional J "queryParams" object params)
    unfolding lookup
    query_params-Fields none typed different = (no_field _, tt)
    query_params-Fields (some params) typed different = (
      field _ _ _ _ _ refl
          (conforms _ _ refl (
            keyword _ _ _ _ _ (object_type _ params) (
              keyword _ _ _ _ _
                (properties _ _ _ (typed-IsDistinct J params different)
                  (Fields-typed (typed_all params) params (IsTyped-typed_all params) typed))
                (no_keyword _ _))))
          (no_field _),
      ((_, refl), tt),
    )

    query-Fields :
        Fields J query_schemas (("type", string "http") ∷ query_fields J q)
        × All (IsKnown J query_schemas) (("type", string "http") ∷ query_fields J q)
    unfolding lookup
    query-Fields =
        let (fields, known) = query_params-Fields q.query_params strings distinct in
        rw (no_headers, append-nil (optional J "queryParams" object q.query_params))
          (
            field _ _ _ _ _ refl (const-Conforms J "http") (
                field _ _ _ _ _ refl
                  (enum-Conforms J ("GET" ∷ "HEAD" ∷ "DELETE" ∷ []) _
                    (query_method-Among J q.method))
                  fields),
            ((_, refl), ((_, refl), known)),
          )

    pub query-Conforms :
        (output : Option (DiscoveryOutput Value))
        → Conforms J
            (build_query_schema J q.query_params output)
            (info_value J (record { input = http (query q); output = output }))
    unfolding build_query_schema input_value lookup
    query-Conforms output = schema_of-Conforms J _ (http (query q)) output (
        conforms _ _ refl (
          keyword _ _ _ _ _ (object_type _ _) (
            keyword _ _ _ _ _ (properties _ _ _ (query-IsDistinct J q.query_params) query-Fields.0)
              (keyword _ _ _ _ _
                (required _ _ ("type" ∷ "method" ∷ []) ((_, refl), ((_, refl), tt)))
                (keyword _ _ _ _ _ (no_other_property _ _ _ refl query-Fields.1)
                  (no_keyword _ _))))))

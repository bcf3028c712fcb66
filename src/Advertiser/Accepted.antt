-- ===== src/Advertiser/Accepted.antt =====
-- From the declaration of an endpoint or a tool to the catalog of the facilitator.
use x402_nockchain.Prelude.{
  ℕ, ◌*◌, ◌≤◌, String, ◌≡◌, refl, false, true, Option, none, some, OnSome, List, Among, ok, Dict,
  length,
}
use x402_nockchain.Types.Json.{Json}
use x402_nockchain.Types.Payment.{success}
use x402_nockchain.Types.Bazaar.{
  QueryMethod, BodyMethod, BodyType, McpTransport, DiscoveryOutput, BazaarExtension,
  DiscoveryResource, ListDiscoveryResourcesParams,
}
use x402_nockchain.Types.Facilitator.{VerifyRequest}
use x402_nockchain.Types.Written.{info_value, WritesInfo}
use x402_nockchain.Facilitator.Replay.{ReplayCache}
use x402_nockchain.Facilitator.State.{AppState, Moment}
use x402_nockchain.Facilitator.Catalog.Memory.{Rows, filtered}
use x402_nockchain.Facilitator.Envelope.Laws.{Passes, hit}
use x402_nockchain.Facilitator.Bazaar.{
  Web, validate_info_against_schema, entry_of, header_of, bazaar_value,
}
use x402_nockchain.Facilitator.Handlers.{World, verify_handler}
use x402_nockchain.Facilitator.Handlers.Discovery.{in_memory, pages}
use x402_nockchain.Facilitator.Handlers.Listed.{Seeks, verify_handler-listed}
use x402_nockchain.Advertiser.{declare_http_query, declare_http_body, declare_mcp}
use x402_nockchain.Advertiser.Schema.{Conforms, IsSchema, IsDistinct}
use x402_nockchain.Advertiser.Schemas.{query-IsSchema, body-IsSchema, mcp-IsSchema}
use x402_nockchain.Advertiser.Declared.{IsObject, body-Conforms, mcp-Conforms}
use x402_nockchain.Advertiser.Queries.{AllStrings, query-Conforms}

module _ (J : Json) where
  -- An extension of the advertiser whose info fits the types that its schema names: a query has
  -- no headers and examples of its parameters that are texts, whose names are distinct, as those of
  -- a `BTreeMap` are; the input schema and the example of a tool are objects.
  pub data IsDeclared : BazaarExtension J.Value → Type 0 where
    by_query :
        (method : QueryMethod) (params : Option (Dict J.Value))
        (output : Option (DiscoveryOutput J.Value))
        → OnSome (AllStrings J) params
        → OnSome (IsDistinct J) params
        → IsDeclared (declare_http_query J method params none output)
    by_body :
        (method : BodyMethod) (body_type : BodyType) (content : J.Value)
        (params : Option (Dict J.Value)) (headers : Option (Dict String))
        (output : Option (DiscoveryOutput J.Value))
        → IsDeclared (declare_http_body J method body_type content params headers output)
    by_mcp :
        (tool : String) (description : Option String) (input_schema : J.Value)
        (transport : Option McpTransport) (example : Option J.Value)
        (output : Option (DiscoveryOutput J.Value))
        → IsObject J input_schema
        → OnSome (IsObject J) example
        → IsDeclared (declare_mcp J tool description input_schema transport example output)

  IsDeclared-Conforms :
      (ext : BazaarExtension J.Value)
      → IsDeclared ext
      → Conforms J ext.schema (info_value J ext.info)
  unfolding declare_http_query declare_http_body declare_mcp
  IsDeclared-Conforms ext (by_query method params output strings distinct) =
      query-Conforms J (record { method = method; query_params = params; headers = none }) refl
        strings distinct output
  IsDeclared-Conforms ext (by_body method body_type content params headers output) =
      body-Conforms J
        (record {
          method = method;
          body_type = body_type;
          body = content;
          query_params = params;
          headers = headers;
        })
        output
  IsDeclared-Conforms ext
        (by_mcp tool description input_schema transport example output object_input
          object_example) =
      mcp-Conforms J
        (record {
          tool = tool;
          description = description;
          input_schema = input_schema;
          transport = transport;
          example = example;
        })
        object_input object_example output

  IsDeclared-IsSchema : (ext : BazaarExtension J.Value) → IsDeclared ext → IsSchema J ext.schema
  unfolding declare_http_query declare_http_body declare_mcp
  IsDeclared-IsSchema ext (by_query method params output strings distinct) =
      query-IsSchema J params output distinct
  IsDeclared-IsSchema ext (by_body method body_type content params headers output) =
      body-IsSchema J output
  IsDeclared-IsSchema ext
        (by_mcp tool description input_schema transport example output object_input
          object_example) =
      mcp-IsSchema J output

  -- The validator of JSON Schema compiles a schema and accepts a value that conforms to it.
  abbrev pub AcceptsConforming : Web J.Value → Type 0
  AcceptsConforming W =
      (schema v : J.Value)
      → IsSchema J schema
      → Conforms J schema v
      → (compiled : W.Compiled) × (W.compile schema ≡ ok compiled) × (W.validate compiled v ≡ ok tt)

  module _ (W : Web J.Value) (written : WritesInfo J) (accepts : AcceptsConforming W) where
    -- The info that the advertiser declares is of the type that its own schema describes: when
    -- serde writes the info by the names of its attributes, and the validator compiles a schema
    -- that has the advertiser's keywords, each once and with a legal argument, and accepts a value
    -- that conforms to it, the facilitator accepts the info of every body endpoint, of every query
    -- endpoint without headers whose example parameters are texts with distinct names, and of
    -- every tool whose input schema and example are objects.
    pub validate_info_against_schema-IsDeclared :
        (ext : BazaarExtension J.Value)
        → IsDeclared ext
        → validate_info_against_schema J W ext ≡ ok tt
    unfolding validate_info_against_schema
    validate_info_against_schema-IsDeclared ext declared =
        let (compiled, compile_eq, validate_eq) =
          accepts ext.schema (info_value J ext.info) (IsDeclared-IsSchema ext declared)
            (IsDeclared-Conforms ext declared) in
        rw (written ext.info, compile_eq, validate_eq) refl

    module _ {Chain : Type 0} (other : AppState J.Value Chain (Rows J.Value)) where
      -- What the advertiser declares and a client pays for is found. Let serde write the info by
      -- the names of its attributes, and the validator compile a schema that has the advertiser's
      -- keywords, each once and with a legal argument, and accept a value that conforms to it. With
      -- the catalog in memory, when `/verify` handles a request that passes every check, whose
      -- nonce is new and whose extensions carry, under `bazaar`, a value that reads as an
      -- extension that the advertiser declares, of the kinds of `IsDeclared`, it answers `valid` with the header of a success, and from
      -- then on a search by what the request declares that asks for enough pages is refused none
      -- and finds the resource with the kind of the declaration and the requirements that were
      -- paid.
      pub pages-IsDeclared :
          (R : ReplayCache) (at : Moment) (stamp : String) (req : VerifyRequest J.Value)
          (world : World R.Cache (Rows J.Value) Chain) (ext : BazaarExtension J.Value) (v : J.Value)
          (params : ListDiscoveryResourcesParams) (l n : ℕ)
          (p : Passes (in_memory J W other) at req)
          → IsDeclared ext
          → bazaar_value J W (in_memory J W other) req.payload.extensions ≡ some v
          → J.read_bazaar v ≡ ok ext
          → hit (in_memory J W other) at R p.auth world.cache ≡ false
          → Seeks J W other params req ext
          → length (
              filtered params
                (verify_handler J W (in_memory J W other) R at stamp req world).1.rows)
            ≤ n * l
          → let (answer, after) = verify_handler J W (in_memory J W other) R at stamp req world in
            (answer ≡ (
              header_of J W
                  (in_memory J W other)
                  (some (record { status = success; rejected_reason = none })),
              record { valid = true; error = none },
            ))
            × ((items : List (DiscoveryResource J.Value)) × (pages J W other params l n 0 after.rows
                  ≡ ok items)
                × Among (entry_of J W req ext stamp) items)
      pages-IsDeclared R at stamp req world ext v params l n p declared carried read new seeks
            enough =
          verify_handler-listed J W other R at stamp req world ext params l n p new
            (record {
              value = v;
              value_eq = carried;
              read = read;
              valid = validate_info_against_schema-IsDeclared ext declared;
            })
            seeks enough

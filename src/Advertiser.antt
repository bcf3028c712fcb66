-- ===== src/Advertiser.antt =====
-- crates/x402-advertiser/src/lib.rs: the bazaar extension of an endpoint or a tool, with its schema.
pub mod Schema
pub mod Conforming
pub mod Schemas
pub mod Declared
pub mod Queries
pub mod Accepted
use x402_nockchain.Prelude.{String, false, Option, none, some, List, [], ◌∷◌, map, Dict}
use x402_nockchain.Types.Json.{Json}
use x402_nockchain.Types.Bazaar.{
  BazaarExtension, DiscoveryOutput, QueryMethod, BodyMethod, BodyType, McpTransport, http, mcp,
  query, body,
}

module _ (J : Json) where
  open J use {Value, string, boolean, array, object}

  -- `{ "type": t }`
  abbrev pub typed : String → Value
  typed t = object (("type", string t) ∷ [])

  abbrev pub enum : List String → Value
  enum names = object (("type", string "string") ∷ ("enum", array (map string names)) ∷ [])

  abbrev pub const : String → Value
  const name = object (("type", string "string") ∷ ("const", string name) ∷ [])

  abbrev pub output_schema : Option (DiscoveryOutput Value) → Dict Value
  output_schema none = []
  output_schema (some output) =
      (
        "output",
        object (
            ("type", string "object")
            ∷ ("properties", object (("type", typed "string") ∷ []))
            ∷ ("required", array (string "type" ∷ []))
            ∷ []),
      )
      ∷ []

  abbrev pub schema_of : Value → Option (DiscoveryOutput Value) → Value
  schema_of input output = object (
      ("$schema", string "https://json-schema.org/draft/2020-12/schema")
      ∷ ("type", string "object")
      ∷ ("properties", object (("input", input) ∷ output_schema output))
      ∷ ("required", array (string "input" ∷ []))
      ∷ [])

  abbrev pub query_params_schema : Option (Dict Value) → Dict Value
  query_params_schema none = []
  query_params_schema (some params) =
      (
        "queryParams",
        object (
            ("type", string "object")
            ∷ ("properties", object (map (λ kv. (kv.0, typed "string")) params))
            ∷ []),
      )
      ∷ []

  unfoldable pub build_query_schema : Option (Dict Value) → Option (DiscoveryOutput Value) → Value
  build_query_schema query_params output =
      schema_of
        (object (
          ("type", string "object")
          ∷ (
            "properties",
            object (
                ("type", const "http")
                ∷ ("method", enum ("GET" ∷ "HEAD" ∷ "DELETE" ∷ []))
                ∷ query_params_schema query_params),
          )
          ∷ ("required", array (string "type" ∷ string "method" ∷ []))
          ∷ ("additionalProperties", boolean false)
          ∷ []))
        output

  unfoldable pub build_body_schema : Option (DiscoveryOutput Value) → Value
  build_body_schema output =
      schema_of
        (object (
          ("type", string "object")
          ∷ (
            "properties",
            object (
                ("type", const "http")
                ∷ ("method", enum ("POST" ∷ "PUT" ∷ "PATCH" ∷ []))
                ∷ ("bodyType", enum ("json" ∷ "form-data" ∷ "text" ∷ []))
                ∷ ("body", object [])
                ∷ []),
          )
          ∷ (
            "required",
            array (string "type" ∷ string "method" ∷ string "bodyType" ∷ string "body" ∷ []),
          )
          ∷ []))
        output

  unfoldable pub build_mcp_schema : Option (DiscoveryOutput Value) → Value
  build_mcp_schema output =
      schema_of
        (object (
          ("type", string "object")
          ∷ (
            "properties",
            object (
                ("type", const "mcp")
                ∷ ("tool", typed "string")
                ∷ ("description", typed "string")
                ∷ ("transport", enum ("streamable-http" ∷ "sse" ∷ []))
                ∷ ("inputSchema", typed "object")
                ∷ ("example", typed "object")
                ∷ []),
          )
          ∷ ("required", array (string "type" ∷ string "tool" ∷ string "inputSchema" ∷ []))
          ∷ ("additionalProperties", boolean false)
          ∷ []))
        output

  unfoldable pub declare_http_query :
      QueryMethod
      → Option (Dict Value)
      → Option (Dict String)
      → Option (DiscoveryOutput Value)
      → BazaarExtension Value
  declare_http_query method query_params headers output = record {
    info = record {
      input =
          http (query (record { method = method; query_params = query_params; headers = headers }));
      output = output;
    };
    schema = build_query_schema query_params output;
  }

  unfoldable pub declare_http_body :
      BodyMethod
      → BodyType
      → Value
      → Option (Dict Value)
      → Option (Dict String)
      → Option (DiscoveryOutput Value)
      → BazaarExtension Value
  declare_http_body method body_type content query_params headers output = record {
    info = record {
      input = http (
          body (record {
            method = method;
            body_type = body_type;
            body = content;
            query_params = query_params;
            headers = headers;
          }));
      output = output;
    };
    schema = build_body_schema output;
  }

  unfoldable pub declare_mcp :
      String
      → Option String
      → Value
      → Option McpTransport
      → Option Value
      → Option (DiscoveryOutput Value)
      → BazaarExtension Value
  declare_mcp tool description input_schema transport example output = record {
    info = record {
      input = mcp (record {
        tool = tool;
        description = description;
        input_schema = input_schema;
        transport = transport;
        example = example;
      });
      output = output;
    };
    schema = build_mcp_schema output;
  }

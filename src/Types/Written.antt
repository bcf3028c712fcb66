-- ===== src/Types/Written.antt =====
-- crates/x402-types/src/bazaar.rs: what serde writes for the info of an extension, by the names
-- and the tags that its attributes give; an absent `Option` is left out.
use x402_nockchain.Prelude.{String, Option, none, some, [], ◌∷◌, ◌++◌, map, ok, Dict, ◌≡◌}
use x402_nockchain.Types.Json.{Json}
use x402_nockchain.Types.Bazaar.{
  QueryMethod, get, head, delete, BodyMethod, post, put, patch, BodyType, json, form_data, text,
  McpTransport, streamable_http, sse, DiscoveryInput, http, mcp, query, body, DiscoveryOutput,
  QueryInput, BodyInput, McpInput, DiscoveryInfo,
}

unfoldable pub query_method_text : QueryMethod → String
query_method_text get = "GET"
query_method_text head = "HEAD"
query_method_text delete = "DELETE"

unfoldable pub body_method_text : BodyMethod → String
body_method_text post = "POST"
body_method_text put = "PUT"
body_method_text patch = "PATCH"

unfoldable pub body_type_text : BodyType → String
body_type_text json = "json"
body_type_text form_data = "form-data"
body_type_text text = "text"

unfoldable pub transport_text : McpTransport → String
transport_text streamable_http = "streamable-http"
transport_text sse = "sse"

module _ (J : Json) where
  open J use {Value, string, object}

  -- `skip_serializing_if = "Option::is_none"`
  abbrev pub optional : {A : Type 0} → String → (A → Value) → Option A → Dict Value
  optional name show none = []
  optional name show (some a) = (name, show a) ∷ []

  abbrev pub headers_value : Dict String → Value
  headers_value headers = object (map (λ kv. (kv.0, string kv.1)) headers)

  abbrev pub query_fields : QueryInput Value → Dict Value
  query_fields q =
      ("method", string (query_method_text q.method))
      ∷ (optional "queryParams" object q.query_params ++ optional "headers" headers_value q.headers)

  abbrev pub body_fields : BodyInput Value → Dict Value
  body_fields b =
      ("method", string (body_method_text b.method))
      ∷ ("bodyType", string (body_type_text b.body_type))
      ∷ ("body", b.body)
      ∷ (optional "queryParams" object b.query_params ++ optional "headers" headers_value b.headers)

  abbrev pub mcp_fields : McpInput Value → Dict Value
  mcp_fields m =
      ("tool", string m.tool)
      ∷ (optional "description" string m.description
          ++ (("inputSchema", m.input_schema)
              ∷ (optional "transport" (λ t. string (transport_text t)) m.transport
                  ++ optional "example" (λ v. v) m.example)))

  -- The tag `type` comes before the fields of the variant.
  unfoldable pub input_value : DiscoveryInput Value → Value
  input_value (http (query q)) = object (("type", string "http") ∷ query_fields q)
  input_value (http (body b)) = object (("type", string "http") ∷ body_fields b)
  input_value (mcp m) = object (("type", string "mcp") ∷ mcp_fields m)

  unfoldable pub output_value : DiscoveryOutput Value → Value
  output_value output = object (
      ("type", string output.kind)
      ∷ (optional "format" string output.format ++ optional "example" (λ v. v) output.example))

  unfoldable pub info_value : DiscoveryInfo Value → Value
  info_value info =
      object (("input", input_value info.input) ∷ optional "output" output_value info.output)

  -- The derived codec writes the info in this way.
  abbrev pub WritesInfo : Type 0
  WritesInfo = (info : DiscoveryInfo Value) → J.write_info info ≡ ok (info_value info)

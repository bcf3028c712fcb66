-- ===== src/Types/Bazaar.antt =====
-- crates/x402-types/src/bazaar.rs
use x402_nockchain.Prelude.{ℕ, String, Option, List, Dict}
use x402_nockchain.Types.Payment.{PaymentRequirements}

pub data QueryMethod : Type 0 where
  get head delete : QueryMethod

pub data BodyMethod : Type 0 where
  post put patch : BodyMethod

pub data BodyType : Type 0 where
  json form_data text : BodyType

pub data McpTransport : Type 0 where
  streamable_http sse : McpTransport

-- The variant `Query` of `HttpInput`.
pub record QueryInput (Value : Type 0) : Type 0 where
  pub method : QueryMethod
  pub query_params : Option (Dict Value)
  pub headers : Option (Dict String)

-- The variant `Body` of `HttpInput`.
pub record BodyInput (Value : Type 0) : Type 0 where
  pub method : BodyMethod
  pub body_type : BodyType
  pub body : Value
  pub query_params : Option (Dict Value)
  pub headers : Option (Dict String)

pub data HttpInput (Value : Type 0) : Type 0 where
  query : QueryInput Value → HttpInput Value
  body : BodyInput Value → HttpInput Value

pub record McpInput (Value : Type 0) : Type 0 where
  pub tool : String
  pub description : Option String
  pub input_schema : Value
  pub transport : Option McpTransport
  pub example : Option Value

pub data DiscoveryInput (Value : Type 0) : Type 0 where
  http : HttpInput Value → DiscoveryInput Value
  mcp : McpInput Value → DiscoveryInput Value

pub record DiscoveryOutput (Value : Type 0) : Type 0 where
  pub kind : String
  pub format : Option String
  pub example : Option Value

pub record DiscoveryInfo (Value : Type 0) : Type 0 where
  pub input : DiscoveryInput Value
  pub output : Option (DiscoveryOutput Value)

pub record BazaarExtension (Value : Type 0) : Type 0 where
  pub info : DiscoveryInfo Value
  pub schema : Value

pub record ListDiscoveryResourcesParams : Type 0 where
  pub kind : Option String
  pub limit : Option ℕ
  pub offset : Option ℕ
  pub network : Option String
  pub scheme : Option String

pub record DiscoveryResource (Value : Type 0) : Type 0 where
  pub resource : String
  pub kind : String
  pub x402_version : ℕ
  pub accepts : List (PaymentRequirements Value)
  pub last_updated : String
  pub metadata : Option Value

pub record Pagination : Type 0 where
  pub limit : ℕ
  pub offset : ℕ
  pub total : ℕ

pub record DiscoveryResourcesResponse (Value : Type 0) : Type 0 where
  pub x402_version : ℕ
  pub items : List (DiscoveryResource Value)
  pub pagination : Pagination

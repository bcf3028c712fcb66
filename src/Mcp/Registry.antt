-- ===== src/Mcp/Registry.antt =====
-- crates/x402-mcp/src/registry.rs. `Env` is what tool handlers read and change outside the program.
use x402_nockchain.Prelude.{
  string_eq, nat_eq, String, ◌<>◌, Option, none, some, List, [], ◌∷◌, Result, ok, err, Dict, lookup,
  insert,
}
use x402_nockchain.Types.Json.{Json}
use x402_nockchain.Types.Payment.{PaymentRequired, PaymentRequirements, PaymentResource}
use x402_nockchain.Types.Bazaar.{BazaarExtension, McpTransport}
use x402_nockchain.Advertiser.{declare_mcp}

pub record ToolError : Type 0 where
  pub message : String

pub record RegisteredTool (Value Env : Type 0) : Type 0 where
  pub tool : String
  pub description : Option String
  pub input_schema : Value
  pub transport : Option McpTransport
  pub bazaar : BazaarExtension Value
  pub handler : Value → Env → Result ToolError Value × Env

pub record McpToolRegistry (Value Env : Type 0) : Type 0 where
  pub resource : PaymentResource
  pub accepts : List (PaymentRequirements Value)
  pub tools : Dict (RegisteredTool Value Env)

pub data RegisterError : Type 0 where
  duplicate : String → RegisterError

pub data CallError : Type 0 where
  unknown_tool : String → CallError

pub data CallOutcome (Value : Type 0) : Type 0 where
  success : Value → CallOutcome Value
  tool_failed : ToolError → CallOutcome Value

abbrev outcome : {Value : Type 0} → Result ToolError Value → CallOutcome Value
outcome (ok v) = success v
outcome (err e) = tool_failed e

module _ {Value Env : Type 0} where
  -- `McpToolRegistry::new`
  unfoldable pub new :
      PaymentResource → List (PaymentRequirements Value) → McpToolRegistry Value Env
  new resource accepts = record { resource = resource; accepts = accepts; tools = [] }

  unfoldable pub get : McpToolRegistry Value Env → String → Option (RegisteredTool Value Env)
  get registry name = lookup name registry.tools

  abbrev invoke_found :
      String
      → Value
      → Env
      → Option (RegisteredTool Value Env)
      → Result CallError (CallOutcome Value) × Env
  invoke_found tool args env none = (err (unknown_tool tool), env)
  invoke_found tool args env (some registered) =
      let (result, env') = registered.handler args env in (ok (outcome result), env')

  unfoldable pub invoke :
      McpToolRegistry Value Env → String → Value → Env → Result CallError (CallOutcome Value) × Env
  invoke registry tool args env = invoke_found tool args env (lookup tool registry.tools)

module _ (J : Json) {Env : Type 0} where
  open J use {Value, JsonError, write_bazaar}

  -- What `register` inserts.
  abbrev pub registered_tool :
      String
      → Option String
      → Value
      → Option McpTransport
      → (Value → Env → Result ToolError Value × Env)
      → RegisteredTool Value Env
  registered_tool name description input_schema how handler = record {
    tool = name;
    description = description;
    input_schema = input_schema;
    transport = how;
    bazaar = declare_mcp J name description input_schema how none none;
    handler = handler;
  }

  -- The test of `contains_key`.
  abbrev pub add :
      McpToolRegistry Value Env
      → String
      → RegisteredTool Value Env
      → Option (RegisteredTool Value Env)
      → Result RegisterError (Unit {0}) × McpToolRegistry Value Env
  add registry name tool (some registered) = (err (duplicate name), registry)
  add registry name tool none = (ok tt, record registry { tools = insert name tool registry.tools })

  unfoldable pub register :
      McpToolRegistry Value Env
      → String
      → Option String
      → Value
      → Option McpTransport
      → (Value → Env → Result ToolError Value × Env)
      → Result RegisterError (Unit {0}) × McpToolRegistry Value Env
  register registry name description input_schema how handler =
      add registry name (registered_tool name description input_schema how handler)
        (lookup name registry.tools)

  abbrev required_body :
      McpToolRegistry Value Env → String → Result JsonError Value → Option (PaymentRequired Value)
  required_body registry tool (err e) = none
  required_body registry tool (ok bazaar) = some (record {
    x402_version = 2;
    error = "Payment required for tool '" <> tool <> "'";
    resource = registry.resource;
    accepts = registry.accepts;
    extensions = some (("bazaar", bazaar) ∷ []);
  })

  abbrev required_for :
      McpToolRegistry Value Env
      → String
      → Option (RegisteredTool Value Env)
      → Option (PaymentRequired Value)
  required_for registry tool none = none
  required_for registry tool (some registered) =
      required_body registry tool (write_bazaar registered.bazaar)

  unfoldable pub payment_required :
      McpToolRegistry Value Env → String → Option (PaymentRequired Value)
  payment_required registry tool = required_for registry tool (lookup tool registry.tools)

-- ===== src/Mcp/Router.antt =====
-- crates/x402-mcp/src/router.rs: the endpoint that calls a tool and the listing of the tools. The
-- decoding of a header is a parameter.
use x402_nockchain.Prelude.{
  ℕ, string_eq, nat_eq, String, ◌<>◌, Option, none, some, List, [], ◌∷◌, Result, ok, err, map,
}
use x402_nockchain.Types.Json.{Json}
use x402_nockchain.Types.Payment.{PaymentRequired, PaymentRequirements, PaymentPayload}
use x402_nockchain.Types.Bazaar.{BazaarExtension, McpTransport}
use x402_nockchain.Mcp.Registry.{
  RegisteredTool, McpToolRegistry, CallError, unknown_tool, CallOutcome, success, tool_failed, get,
  invoke, payment_required,
}
use x402_nockchain.Mcp.Verifier.{VerifyFailure, PaymentVerifier}

-- An answer of the endpoint: the value of the tool (200), a 402 with its body, or an error text
-- with its status.
pub data Response (Value : Type 0) : Type 0 where
  value : Value → Response Value
  payment : PaymentRequired Value → Response Value
  failure : (status : ℕ) (message : String) → Response Value

unfoldable pub not_found : {Value : Type 0} → String → Response Value
not_found tool = failure 404 ("unknown tool '" <> tool <> "'")

abbrev required_or_not_found :
    {Value : Type 0} → String → Option (PaymentRequired Value) → Response Value
required_or_not_found tool none = not_found tool
required_or_not_found tool (some body) = payment body

abbrev pub answer : {Value : Type 0} → Result CallError (CallOutcome Value) → Response Value
answer (ok (success v)) = value v
answer (ok (tool_failed e)) = failure 500 e.message
answer (err (unknown_tool t)) = not_found t

-- What `json!` makes of the values of a tool that have a type of their own.
pub record ToolJson (Value : Type 0) : Type 0 where
  pub null : Value
  pub transport_value : McpTransport → Value
  pub bazaar_value : BazaarExtension Value → Value

abbrev or_null : {A Value : Type 0} → ToolJson Value → (A → Value) → Option A → Value
or_null K show none = K.null
or_null K show (some a) = show a

module _ (J : Json) {Env : Type 0} where
  open J use {Value}

  unfoldable pub tool_value : ToolJson Value → RegisteredTool Value Env → Value
  tool_value K t = J.object (
      ("name", J.string t.tool)
      ∷ ("description", or_null K J.string t.description)
      ∷ ("inputSchema", t.input_schema)
      ∷ ("transport", or_null K K.transport_value t.transport)
      ∷ ("bazaar", K.bazaar_value t.bazaar)
      ∷ [])

  unfoldable pub list_tools : ToolJson Value → McpToolRegistry Value Env → Value
  unfolding tool_value
  list_tools K registry =
      J.object (("tools", J.array (map (λ entry. tool_value K entry.1) registry.tools)) ∷ [])

  -- `payment_required` of router.rs
  abbrev pub payment_required_response : McpToolRegistry Value Env → String → Response Value
  payment_required_response registry tool =
      required_or_not_found tool (payment_required J registry tool)

  -- The header is a text when there is one that `to_str` reads; `decode_payment_header` is
  -- base64 and serde.
  module _ (decode_payment_header : String → Result String (PaymentPayload Value Value))
      (registry : McpToolRegistry Value Env) (verifier : PaymentVerifier Value Env) where
    abbrev admitted :
        RegisteredTool Value Env
        → String
        → Value
        → Result VerifyFailure (Unit {0}) × Env
        → Response Value × Env
    admitted registered tool args (err rej, env) = (payment_required_response registry tool, env)
    admitted registered tool args (ok _, env) =
        let (result, env') = invoke registry registered.tool args env in (answer result, env')

    abbrev pub with_payload :
        RegisteredTool Value Env
        → String
        → Value
        → PaymentRequirements Value
        → Result String (PaymentPayload Value Value)
        → Env
        → Response Value × Env
    with_payload registered tool args requirements (err e) env =
        (payment_required_response registry tool, env)
    with_payload registered tool args requirements (ok payload) env =
        admitted registered tool args (verifier payload requirements env)

    abbrev pub with_header :
        RegisteredTool Value Env
        → String
        → Value
        → PaymentRequirements Value
        → Option String
        → Env
        → Response Value × Env
    with_header registered tool args requirements none env =
        (payment_required_response registry tool, env)
    with_header registered tool args requirements (some h) env =
        with_payload registered tool args requirements (decode_payment_header h) env

    abbrev with_requirements :
        RegisteredTool Value Env
        → String
        → Value
        → List (PaymentRequirements Value)
        → Option String
        → Env
        → Response Value × Env
    with_requirements registered tool args [] header env =
        (failure 500 "registry has no PaymentRequirements configured", env)
    with_requirements registered tool args (requirements ∷ rest) header env =
        with_header registered tool args requirements header env

    abbrev with_registered :
        String
        → Option String
        → Value
        → Env
        → Option (RegisteredTool Value Env)
        → Response Value × Env
    with_registered tool header args env none = (not_found tool, env)
    with_registered tool header args env (some registered) =
        with_requirements registered tool args registry.accepts header env

    unfoldable pub call_tool : String → Option String → Value → Env → Response Value × Env
    call_tool tool header args env = with_registered tool header args env (get registry tool)

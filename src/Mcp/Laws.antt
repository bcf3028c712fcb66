-- ===== src/Mcp/Laws.antt =====
-- A tool runs for a paid call only, and the registry keeps its names.
use x402_nockchain.Prelude.{
  some-injective, String, ◌≡◌, Bool, true, false, ◌⊎◌, inl, inr, refl, sym, ap, ◌∙◌, Option, some,
  List, [], ◌∷◌, Result, ok, Result-cases, Option-cases, lookup, lookup-insert, ◌==◌, string_eq,
  eq_iff, Bool-cases,
}
use x402_nockchain.Types.Json.{Json}
use x402_nockchain.Types.Bazaar.{McpTransport}
use x402_nockchain.Types.Payment.{PaymentPayload, PaymentRequirements}
use x402_nockchain.Mcp.Registry.{
  McpToolRegistry, RegisteredTool, ToolError, register, get, invoke, payment_required,
}
use x402_nockchain.Mcp.Verifier.{PaymentVerifier}
use x402_nockchain.Mcp.Router.{
  Response, value, call_tool, not_found, answer, payment_required_response,
}

-- Every tool is registered under its own name.
abbrev pub IsWellNamed : {Value Env : Type 0} → McpToolRegistry Value Env → Type 0
IsWellNamed {Value} {Env} registry =
    (name : String) (t : RegisteredTool Value Env)
    → lookup name registry.tools ≡ some t
    → t.tool ≡ name

List-cases : {A : Type 0} (l : List A) → (l ≡ []) ⊎ ((x : A) × (xs : List A) × (l ≡ x ∷ xs))
List-cases [] = inl refl
List-cases (x ∷ xs) = inr (x, xs, refl)

-- Whether an answer is the value of a tool.
abbrev pub is_value : {Value : Type 0} → Response Value → Bool
is_value (value v) = true
is_value _ = false

module _ (J : Json) {Env : Type 0} where
  -- Registering a tool keeps every tool under its own name, whether its name was free or taken.
  pub register-IsWellNamed :
      (registry : McpToolRegistry J.Value Env) (name : String) (description : Option String)
      (input_schema : J.Value) (how : Option McpTransport)
      (handler : J.Value → Env → Result ToolError J.Value × Env)
      → IsWellNamed registry
      → IsWellNamed (register J registry name description input_schema how handler).1
  unfolding register
  register-IsWellNamed registry name description input_schema how handler named j t found =
      elim (Option-cases (lookup name registry.tools)) [
        | inr (u, e) ↦ named j t (rw e at found)
        | inl e ↦
            let found' = rw (e, lookup-insert name j _ registry.tools) at found in
            elim (Bool-cases (name == j)) [
              | inl b ↦
                  let found'' = rw b at found' in
                  let same = (eq_iff name j).0 b in
                  let tools = some-injective found'' in sym (ap (λ r. r.tool) tools) ∙ same
              | inr b ↦ let found'' = rw b at found' in named j t found''
            ]
      ]

  payment_required_response-value :
      (registry : McpToolRegistry J.Value Env) (tool : String)
      → is_value (payment_required_response J registry tool) ≡ false
  unfolding not_found
  payment_required_response-value registry tool =
      elim (Option-cases (payment_required J registry tool)) [ inl e ↦ rw e | inr (b, e) ↦ rw e ]

  module _ (decode_payment_header : String → Result String (PaymentPayload J.Value J.Value))
      (registry : McpToolRegistry J.Value Env) (verifier : PaymentVerifier J.Value Env) where
    -- A call that carries a payment which the verifier accepts for the first requirements.
    pub record IsPaidCall (tool : String) (header : Option String) (env : Env) : Type 0 where
      pub text : String
      pub payload : PaymentPayload J.Value J.Value
      pub requirements : PaymentRequirements J.Value
      pub rest : List (PaymentRequirements J.Value)
      pub registered : RegisteredTool J.Value Env
      pub header_eq : header ≡ some text
      pub decoded : decode_payment_header text ≡ ok payload
      pub accepts_eq : registry.accepts ≡ requirements ∷ rest
      pub found : lookup tool registry.tools ≡ some registered
      pub verified : (verifier payload requirements env).0 ≡ ok tt

    -- With every tool under its own name, a paid call of a tool is answered by the tool, run on the arguments in the world that the
    -- verifier left: its value, or its error with the status 500.
    pub call_tool-paid :
        (tool : String) (header : Option String) (args : J.Value) (env : Env)
        (p : IsPaidCall tool header env)
        → IsWellNamed registry
        → call_tool J decode_payment_header registry verifier tool header args env ≡ (
          answer (invoke registry tool args (verifier p.payload p.requirements env).1).0,
          (invoke registry tool args (verifier p.payload p.requirements env).1).1,
        )
    unfolding call_tool get
    call_tool-paid tool header args env p named =
        rw (
          p.found,
          p.accepts_eq,
          p.header_eq,
          p.decoded,
          p.verified,
          named tool p.registered p.found,
        )

    -- A call either is paid, or leaves the world as it was or as the verifier left it, and the
    -- answer is not a value of the tool.
    pub call_tool-cases :
        (tool : String) (header : Option String) (args : J.Value) (env : Env)
        → IsPaidCall tool header env
          ⊎ ((is_value (call_tool J decode_payment_header registry verifier tool header args env).0
                ≡ false)
              × (((call_tool J decode_payment_header registry verifier tool header args env).1
                    ≡ env)
                  ⊎ ((payload : PaymentPayload J.Value J.Value)
                      × (requirements : PaymentRequirements J.Value) × ((call_tool J
                            decode_payment_header registry verifier tool header args env).1
                          ≡ (verifier payload requirements env).1))))
    unfolding call_tool get not_found
    call_tool-cases tool header args env = elim (Option-cases (lookup tool registry.tools)) [
      | inl e ↦ inr (rw e refl, inl (rw e))
      | inr (registered, e) ↦ elim (List-cases registry.accepts) [
        | inl f ↦ inr (rw (e, f) refl, inl (rw (e, f)))
        | inr (requirements, rest, f) ↦ elim (Option-cases header) [
          | inl g ↦ inr (rw (e, f, g) (payment_required_response-value _ tool), inl (rw (e, f, g)))
          | inr (text, g) ↦ elim (Result-cases (decode_payment_header text)) [
            | inr (x, d) ↦
                inr
                  (rw (e, f, g, d) (payment_required_response-value _ tool), inl (rw (e, f, g, d)))
            | inl (payload, d) ↦ elim (Result-cases (verifier payload requirements env).0) [
              | inl (_, w) ↦ inl (record {
                text = text;
                payload = payload;
                requirements = requirements;
                rest = rest;
                registered = registered;
                header_eq = g;
                decoded = d;
                accepts_eq = f;
                found = e;
                verified = w;
              })
              | inr (x, w) ↦ inr (
                rw (e, f, g, d, w) (payment_required_response-value _ tool),
                inr (payload, requirements, rw (e, f, g, d, w)),
              )
            ]
          ]
        ]
      ]
    ]

-- ===== src/Tests/Http.antt =====
-- The HTTP side of the client, over a network that keeps the requests: the server asks for a
-- payment and the facilitator accepts every payload.
use x402_nockchain.Prelude.{◌≡◌, refl, true, none, some, List, [], ◌∷◌, ◌++◌, ok, arith}
use x402_nockchain.Decimal.{codes}
use x402_nockchain.Client.{signer_of}
use x402_nockchain.Client.Http.{Request, Http, fetch_with_payment}
use x402_nockchain.Client.Http.Requests.{IsLogged, Exchanged, fetch_with_payment-Exchanged}
use x402_nockchain.Client.Http.Url.{percent_encode, list_resources_url}
use x402_nockchain.Client.Http.Url.Decode.{percent_decode, percent_decode-percent_encode}
use x402_nockchain.Decimal.{to_text, to_text_from, digit}
use x402_nockchain.Tests.Samples.{json, Node, encoding, schnorr, decode_text, signer, requirements}
use x402_nockchain.Tests.Clients.{random}

abbrev web : Http Node
web = record {
  Net = List (Request Node);
  Body = Unit {0};
  send =
      λ request net. (ok (record { status = 402; headers = []; body = tt }), net ++ request ∷ []);
  status_text = λ status. "status";
  error_debug = λ e. "error";
  body_text = λ body. none;
  read_required = λ body. ok (record {
    x402_version = 2;
    error = "payment required";
    resource = record { url = "/tool"; description = none; mime_type = none };
    accepts = requirements ∷ [];
    extensions = none;
  });
  read_verify = λ body. ok (record { valid = true; error = none });
  read_resources = λ body. ok (record {
    x402_version = 2;
    items = [];
    pagination = record { limit = 1; offset = 0; total = 0 };
  });
  write_payload = λ payload. ok "{}";
  read_extensions = λ s. none;
  b64_encode = λ s. s;
  b64_decode = λ s. some s;
  header_text = λ s. true;
}

web-IsLogged : IsLogged web
web-IsLogged = record { log = λ net. net; log-send = λ request net. refl }

fetch_with_payment-Exchanged_example :
    Exchanged json web web-IsLogged "/tool" "http://facilitator/" []
      (fetch_with_payment json web
        (signer_of encoding schnorr decode_text signer)
        100
        random
        "/tool"
        "http://facilitator/"
        []).1
fetch_with_payment-Exchanged_example =
    fetch_with_payment-Exchanged json web web-IsLogged
      (signer_of encoding schnorr decode_text signer) 100 random "/tool" "http://facilitator/" []

percent_decode-percent_encode_example :
    percent_decode (codes (percent_encode "nockchain:a b")) ≡ codes "nockchain:a b"
percent_decode-percent_encode_example = percent_decode-percent_encode "nockchain:a b" (omega arith)

url_of_query :
    list_resources_url "http://f" (record {
      kind = some "http";
      limit = some 5;
      offset = none;
      network = some "nockchain:x";
      scheme = none;
    })
    ≡ "http://f/discovery/resources?type=http&limit=5&network=nockchain%3Ax"
unfolding list_resources_url to_text to_text_from digit
url_of_query = refl

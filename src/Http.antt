-- ===== src/Http.antt =====
-- The management API of EMQX, as internal/requester reaches it. The answer to a request, and the
-- decoding of its body by the JSON libraries, are parameters.
use emqx_operator.Prelude.{ℕ, ℤ, String, Bool, Option, List}
use emqx_operator.Errors.{Result}
use emqx_operator.Api.Types.{EmqxNode, NodeEvacuationStatus}

pub record Response : Type 0 where
  pub status_code : ℕ
  pub body : String

-- The values in a request's JSON object.
pub data Json : Type 0 where
  number : ℤ → Json
  texts : List String → Json
  decimal : String → Json

abbrev pub Body : Type 0
Body = List (String × Json)

-- Request(method, GetURL(path), body).
pub record Requester : Type 0 where
  pub request : (method path : String) → Body → Result Response

-- `none` is an error of json.Unmarshal.
pub record Decoder : Type 0 where
  pub nodes : String → Option (List EmqxNode)
  pub node : String → Option EmqxNode
  pub evacuations : String → Option (List NodeEvacuationStatus)
  pub already_started : String → Bool

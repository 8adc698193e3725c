-- ===== src/Embed/Request.antt =====
-- The requests and results of the handlers that internal/embed wraps. `E` is what a request carries
-- besides: the session, the extra data and the metadata. Raw JSON is a text.
use capo_shell_mcp.Prelude.{String, Bool, Option, List, Map, Result, Error}
use capo_shell_mcp.Action.{Action}

pub record Request (E : Type 0) : Type 0 where
  pub extra : E
  pub name : String
  pub arguments : String

pub data HandlerContent : Type 0 where
  text : String → HandlerContent
  other : HandlerContent

pub record HandlerResult : Type 0 where
  pub content : List HandlerContent
  pub is_error : Bool

abbrev pub Handler : Type 0 → Type 0 → Type 0
Handler E X = Request E → Action X HandlerResult

pub record PerClusterToolResult : Type 0 where
  pub cluster : String
  pub text : String
  pub is_error : Bool
  pub error : Option Error

-- encoding/json, for the values that the package reads and writes.
pub record Json : Type 0 where
  pub unmarshal_args : String → Result (Map String)
  pub unmarshal_strings : String → Result (List String)
  pub marshal_text : String → String
  pub marshal_args : Map String → Result String
  pub marshal_results : List PerClusterToolResult → Result String

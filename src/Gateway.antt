-- ===== src/Gateway.antt =====
-- The language-model gateway: `BaseLiteLLMGateway.execute_structured_request`
-- (packages/ai/src/mip_ai/gateway/core.py), which both providers of packages/ai call.
pub mod Synthesis
pub mod Citations
pub mod Grounded
use outlook_dictionary.Common.{ℕ, Bool, not, ◌&&◌, List, [], ◌∷◌, if◌then◌else◌, leb}
use outlook_dictionary.Text.{Text, is_empty}

-- `LLMConfig`, as far as it decides, with LiteLLM's word on `response_format` for the model.
pub record LlmConfig : Type 0 where
  pub is_ollama : Bool
  pub require_structured_output : Bool
  pub supports_response_format : Bool

-- What `litellm.acompletion` does: it returns its choices with their contents, or raises; an
-- exception is told by the first except clause that takes it.
pub data Completion : Type 0 where
  choices : List Text → Completion
  rate_limit_error timed_out authentication_error unsupported_params : Completion
  api_error : (status : ℕ) → Completion
  bad_request unknown_error : Completion

-- The content, or one of the four gateway errors.
pub data GatewayResult : Type 0 where
  content : Text → GatewayResult
  gateway_rate_limit gateway_transient gateway_configuration gateway_permanent : GatewayResult

abbrev pub content_of : List Text → GatewayResult
content_of [] = gateway_permanent
content_of (text ∷ _) = if is_empty text then gateway_permanent else content text

unfoldable pub classify : Completion → GatewayResult
classify (choices texts) = content_of texts
classify rate_limit_error = gateway_rate_limit
classify timed_out = gateway_transient
classify authentication_error = gateway_configuration
classify unsupported_params = gateway_configuration
classify (api_error status) = if leb 500 status then gateway_transient else gateway_permanent
classify bad_request = gateway_permanent
classify unknown_error = gateway_transient

-- `execute_structured_request`, with a schema
unfoldable pub execute_structured_request : LlmConfig → Completion → GatewayResult
unfolding classify
execute_structured_request config completion =
    if config.require_structured_output
      && (not config.supports_response_format && not config.is_ollama)
    then gateway_configuration
    else classify completion

-- ===== src/Client/Model.antt =====
-- internal/client/llm.go: a question to the language model, and the check of its health. The
-- milliseconds that the check took are left out.
use Prim.Native.String.{◌++◌ as append}
use traffic_analysis.Base.{
  ℕ, Bool, true, false, ◌&&◌, String, List, [], ◌∷◌, ◌==◌, leb, if◌then◌else◌,
}
use traffic_analysis.Base.Text.{trim_space}
use traffic_analysis.Base.Search.{decimal}
use traffic_analysis.Store.{Result, ok, err}
use traffic_analysis.Client.{
  Web, WebRequest, WebResponse, Choices, trim_slashes, is_enabled, bearer,
}

pub record LlmHealth : Type 0 where
  pub configured : Bool
  pub is_ok : Bool
  pub base_url : String
  pub model : String
  pub endpoint : String
  pub error : String

-- What a reply with a code says, as a text or an error; `failure` is the error for a code of 400
-- or more.
first_choice : List String → Result String
first_choice [] = err "llm returned empty choices"
first_choice (content ∷ rest) = ok content

chosen : (ℕ → Choices → String) → ℕ → Result Choices → Result String
unfolding first_choice
chosen failure code (err e) = err e
chosen failure code (ok out) =
    if leb 400 code then err (failure code out) else first_choice out.contents

-- The text of the first choice.
unfoldable pub reply_text :
    (String → Result Choices) → (ℕ → Choices → String) → Result WebResponse → Result String
unfolding chosen
reply_text decode failure (err e) = err e
reply_text decode failure (ok resp) = chosen failure resp.code (decode resp.body)

module _ (web : Web) (base_url api_key model : String) where
  -- LLMClient.Enabled
  unfoldable pub llm_enabled : Bool
  llm_enabled = is_enabled base_url && is_enabled api_key

  llm_request : String → String → WebRequest
  llm_request url body = record {
    method = "POST";
    url = url;
    headers = ("Content-Type", "application/json") ∷ bearer api_key ∷ [];
    body = body;
  }

  chat_failure : ℕ → Choices → String
  chat_failure code out = "llm request failed"

  -- LLMClient.Chat
  unfoldable pub llm_chat : String → Result String
  unfolding llm_request chat_failure
  llm_chat prompt =
      if llm_enabled
      then reply_text web.decode_choices chat_failure (
          web.send (
            llm_request (append (trim_slashes base_url) "/chat/completions")
              (web.marshal_chat model "你是一个安全运营中心 SOC 助手，回答要可执行、简洁。" prompt false)))
      else ok (append "LLM 未配置。已收到消息：" prompt)

  health_base : LlmHealth
  health_base =
      let base = trim_slashes (trim_space base_url) in
      let named = trim_space model in
      record {
        configured = llm_enabled;
        is_ok = false;
        base_url = base;
        model = if named == "" then "deepseek-chat" else named;
        endpoint = if base == "" then "" else append base "/chat/completions";
        error = "";
      }

  health_failure : ℕ → Choices → String
  health_failure code out =
      append "llm request failed: status=" (append (decimal code) (append " error=" out.error))

  with_answer : LlmHealth → Result String → LlmHealth
  with_answer h (ok content) = record h { is_ok = true }
  with_answer h (err e) = record h { error = e }

  -- LLMClient.HealthCheck
  unfoldable pub health_check : LlmHealth
  unfolding health_base health_failure with_answer llm_request
  health_check =
      let h = health_base in
      if llm_enabled
      then with_answer h (
          reply_text web.decode_choices health_failure (
            web.send
              (llm_request h.endpoint (web.marshal_chat h.model "Return only OK." "health" true))))
      else record h { error = "LLM_BASE_URL or LLM_API_KEY is empty" }

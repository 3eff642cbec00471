-- ===== src/Domain/Roles.antt =====
-- internal/domain/models.go: who sent a message, and the normal form of a message.
pub mod Normal
use Prim.Native.String.{◌++◌ as append}
use traffic_analysis.Base.{
  Bool, true, false, ◌&&◌, ◌||◌, String, List, [], ◌∷◌, ◌==◌, if◌then◌else◌, any,
}
use traffic_analysis.Base.Text.{trim_space, lower_is, codes, same_codes, to_lower}
use traffic_analysis.Base.{map, ℕ}
use traffic_analysis.Domain.{Message}

abbrev pub role_system : String
role_system = "system"

abbrev pub role_user : String
role_user = "user"

abbrev pub role_assistant : String
role_assistant = "assistant"

abbrev pub role_captain : String
role_captain = "_captain"

abbrev pub role_manager : String
role_manager = "_manager"

abbrev pub role_operator : String
role_operator = "_operator"

abbrev pub role_executor : String
role_executor = "_executor"

abbrev pub role_expert : String
role_expert = "_expert"

-- A case of `switch strings.ToLower(t)`.
unfoldable pub lower_in : List String → String → Bool
unfolding lower_is any
lower_in names t = any (lower_is t) names

abbrev system_names : List String
system_names = "" ∷ "system" ∷ []

abbrev user_names : List String
user_names = "user" ∷ "engineer" ∷ "human" ∷ []

abbrev assistant_names : List String
assistant_names = "assistant" ∷ "ai" ∷ "ai_assistant" ∷ "engineer_ai" ∷ []

abbrev captain_names : List String
captain_names = "captain" ∷ "role_soc_captain" ∷ "soc_captain" ∷ "_captain" ∷ []

abbrev manager_names : List String
manager_names = "manager" ∷ "role_soc_manager" ∷ "soc_manager" ∷ "_manager" ∷ []

abbrev operator_names : List String
operator_names = "operator" ∷ "role_soc_operator" ∷ "soc_operator" ∷ "_operator" ∷ []

abbrev executor_names : List String
executor_names =
    "executor" ∷ "role_soc_executor" ∷ "soc_executor" ∷ "_executor" ∷ "autopilot" ∷ "queue-worker"
    ∷ []

abbrev expert_names : List String
expert_names = "expert" ∷ "role_soc_expert" ∷ "soc_expert" ∷ "_expert" ∷ []

-- The switch, on the trimmed name.
role_of : String → String
role_of t =
    if lower_in system_names t
    then role_system
    else if lower_in user_names t
    then role_user
    else if lower_in assistant_names t
    then role_assistant
    else if lower_in captain_names t
    then role_captain
    else if lower_in manager_names t
    then role_manager
    else if lower_in operator_names t
    then role_operator
    else if lower_in executor_names t
    then role_executor
    else if lower_in expert_names t
    then role_expert
    else t

unfoldable pub normalize_message_from : String → String
unfolding role_of
normalize_message_from v = role_of (trim_space v)

unfoldable pub sender_type : String → String
sender_type message_from =
    let from = normalize_message_from message_from in
    if from == role_user
    then "user"
    else if from == role_assistant
    then "ai"
    else if from == role_system
    then "system"
    else "agent"

-- The second and the third `if` of NormalizeMessage.
normal_sender : Message → Message
normal_sender m =
    if m.sender_type == "" || m.sender_type == "unknown"
    then record m { sender_type = sender_type m.message_from }
    else m

normal_category : Message → Message
normal_category m =
    if m.message_category == ""
    then record m {
      message_category =
          if m.sender_type == "user" || m.sender_type == "ai" then "engineer_chat" else "agent";
    }
    else m

unfoldable pub normalize_message : Message → Message
unfolding normal_sender normal_category
normalize_message m =
    normal_category
      (normal_sender (record m { message_from = normalize_message_from m.message_from }))

ends_with : List ℕ → List ℕ → Bool
ends_with suffix [] = same_codes suffix []
ends_with suffix (c ∷ cs) = same_codes suffix (c ∷ cs) || ends_with suffix cs

unfoldable pub is_internal_message : Message → Bool
unfolding ends_with
is_internal_message m =
    let t = trim_space m.message_type in
    lower_is t "llm_request" || ends_with (codes "_llm_request") (map to_lower (codes t))

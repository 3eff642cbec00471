-- ===== src/Service/Prompts.antt =====
-- internal/service/prompts.go: the default prompts, and the one of a role.
pub mod Texts
use traffic_analysis.Base.{String, none, some, List, [], ◌∷◌, ◌==◌, if◌then◌else◌}
use traffic_analysis.Base.Text.{trim_space}
use traffic_analysis.Dict.{Dict, get, get_or}
use traffic_analysis.Domain.Roles.{
  role_captain, role_manager, role_operator, role_executor, role_expert, normalize_message_from,
}
use traffic_analysis.Service.Prompts.Texts.{
  background_security_prompt, background_soar_playbooks_prompt, captain_prompt, manager_prompt,
  operator_prompt, expert_prompt,
}

unfoldable pub default_prompts : Dict String
default_prompts =
    ("role_soc_captain", captain_prompt)
    ∷ ("role_soc_manager", manager_prompt)
    ∷ ("role_soc_operator", operator_prompt)
    ∷ ("role_soc_executor", "你是自动化执行器，负责调用剧本、工具或外部系统完成被授权的动作，并按事实返回执行结果。")
    ∷ ("role_soc_expert", expert_prompt)
    ∷ ("background_security", background_security_prompt)
    ∷ ("background_soar_playbooks", background_soar_playbooks_prompt)
    ∷ ("mcp_tools", "请在此填写MCP工具相关内容。")
    ∷ []

-- The switch of PromptKeyForRole on a normal form.
unfoldable pub key_of_normal : String → String → String
key_of_normal normal role =
    if normal == role_captain
    then "role_soc_captain"
    else if normal == role_manager
    then "role_soc_manager"
    else if normal == role_operator
    then "role_soc_operator"
    else if normal == role_executor
    then "role_soc_executor"
    else if normal == role_expert
    then "role_soc_expert"
    else trim_space role

unfoldable pub prompt_key_for_role : String → String
unfolding key_of_normal
prompt_key_for_role role = key_of_normal (normalize_message_from role) role

unfoldable pub default_prompt : String → String
default_prompt role =
    let p = get_or "" (get default_prompts (prompt_key_for_role role)) in
    if p == "" then get_or "" (get default_prompts role) else p

-- ===== src/Domain/Roles/Normal.antt =====
-- Normal forms: the names of roles and messages.
use traffic_analysis.Base.{◌||◌, false, String, ◌==◌, ◌≡◌, refl, arith, if-elim}
use traffic_analysis.Base.Text.{trim_space}
use traffic_analysis.Base.Text.Trim.{trim_space_idem}
use traffic_analysis.Domain.{Message}
use traffic_analysis.Domain.Roles.{
  role_system, role_user, role_assistant, system_names, user_names, assistant_names, captain_names,
  manager_names, operator_names, executor_names, expert_names, lower_in, role_of,
  normalize_message_from, sender_type, normal_sender, normal_category, normalize_message,
}

abbrev IsFixed : String → Type 0
IsFixed r = normalize_message_from r ≡ r

module _ (t : String) (n0 : lower_in system_names t ≡ false) (n1 : lower_in user_names t ≡ false)
    (n2 : lower_in assistant_names t ≡ false) (n3 : lower_in captain_names t ≡ false)
    (n4 : lower_in manager_names t ≡ false) (n5 : lower_in operator_names t ≡ false)
    (n6 : lower_in executor_names t ≡ false) (n7 : lower_in expert_names t ≡ false) where
  unlisted-IsFixed : trim_space t ≡ t → IsFixed t
  unfolding normalize_message_from
  unlisted-IsFixed h = rw h (rw (n0, n1, n2, n3, n4, n5, n6, n7))

-- The roles' own names are fixed, and so is a trimmed name that is none of the listed ones.
role_of-IsFixed : (t : String) → trim_space t ≡ t → IsFixed (role_of t)
unfolding role_of normalize_message_from trim_space lower_in
role_of-IsFixed t h =
    if-elim IsFixed (lower_in system_names t) _ _ (λ _. refl)
      λ n0.
        if-elim IsFixed (lower_in user_names t) _ _ (λ _. refl)
          λ n1.
            if-elim IsFixed (lower_in assistant_names t) _ _ (λ _. refl)
              λ n2.
                if-elim IsFixed (lower_in captain_names t) _ _ (λ _. refl)
                  λ n3.
                    if-elim IsFixed (lower_in manager_names t) _ _ (λ _. refl)
                      λ n4.
                        if-elim IsFixed (lower_in operator_names t) _ _ (λ _. refl)
                          λ n5.
                            if-elim IsFixed (lower_in executor_names t) _ _ (λ _. refl)
                              λ n6.
                                if-elim IsFixed (lower_in expert_names t) _ _ (λ _. refl)
                                  λ n7. unlisted-IsFixed t n0 n1 n2 n3 n4 n5 n6 n7 h

-- The names that NormalizeMessageFrom gives are normal: normalising twice is normalising once.
pub normalize_message_from_idem :
    (v : String) → normalize_message_from (normalize_message_from v) ≡ normalize_message_from v
unfolding normalize_message_from
normalize_message_from_idem v = role_of-IsFixed (trim_space v) (trim_space_idem v)

-- The sender type depends on the normal form only.
pub sender_type-normalize : (v : String) → sender_type (normalize_message_from v) ≡ sender_type v
unfolding sender_type
sender_type-normalize v = rw (normalize_message_from_idem v)

abbrev IsKind : String → Type 0
IsKind t = ((t == "") ≡ false) × ((t == "unknown") ≡ false)

sender_type-IsKind : (v : String) → IsKind (sender_type v)
unfolding sender_type
sender_type-IsKind v =
    let from = normalize_message_from v in
    if-elim IsKind (from == role_user) _ _ (λ _. (refl, refl))
      λ _.
        if-elim IsKind (from == role_assistant) _ _ (λ _. (refl, refl))
          λ _. if-elim IsKind (from == role_system) _ _ (λ _. (refl, refl)) λ _. (refl, refl)

-- What NormalizeMessage establishes: a normal sender's name, a known kind of sender, a category.
pub record IsNormal (m : Message) : Type 0 where
  pub from : normalize_message_from m.message_from ≡ m.message_from
  pub kind : IsKind m.sender_type
  pub category : (m.message_category == "") ≡ false

normal_sender-IsKind : (m : Message) → IsKind (normal_sender m).sender_type
unfolding normal_sender
normal_sender-IsKind m = ground (arith, sender_type-IsKind m.message_from)

normal_sender-from : (m : Message) → (normal_sender m).message_from ≡ m.message_from
unfolding normal_sender
normal_sender-from m = ground arith

normal_category-IsNormal :
    (m : Message)
    → normalize_message_from m.message_from ≡ m.message_from
    → IsKind m.sender_type
    → IsNormal (normal_category m)
unfolding normal_category
normal_category-IsNormal m from kind = record {
  from = ground arith;
  kind = ground arith;
  category =
      if-elim (λ (m' : Message). (m'.message_category == "") ≡ false) (m.message_category == "") _ _
        (λ _.
          if-elim (λ c. (c == "") ≡ false) (m.sender_type == "user" || m.sender_type == "ai")
            "engineer_chat" "agent" (λ _. refl) (λ _. refl))
        (λ e. e);
}

pub normalize_message-IsNormal : (m : Message) → IsNormal (normalize_message m)
unfolding normalize_message
normalize_message-IsNormal m =
    let m' : Message = record m { message_from = normalize_message_from m.message_from } in
    normal_category-IsNormal (normal_sender m')
      (rw (normal_sender-from m') (normalize_message_from_idem m.message_from))
      (normal_sender-IsKind m')

-- A message that has them is left as it is.
pub normalize_message_fixed : (m : Message) → IsNormal m → normalize_message m ≡ m
unfolding normalize_message
normalize_message_fixed m n = ground arith

-- NormalizeMessage twice gives what it gives once.
normalize_message_idem :
    (m : Message) → normalize_message (normalize_message m) ≡ normalize_message m
normalize_message_idem m =
    normalize_message_fixed (normalize_message m) (normalize_message-IsNormal m)

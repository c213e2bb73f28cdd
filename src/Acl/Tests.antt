-- ===== src/Acl/Tests.antt =====
-- Runs of the access rules, and their theorems at concrete inputs.
use hayakv.Base.{◌≡◌, refl, true, false, some, [], ◌∷◌, if◌then◌else◌}
use hayakv.Base.Classes.{Bytes, bytes_eq}
use hayakv.Acl.{
  User, new_user, has_prefix, to_lower, apply_rule, apply_rules, can_run_command, can_access_key,
}
use hayakv.Acl.Rules.{apply_rule_command}

abbrev plain : Bytes → Bytes
plain s = s

abbrev bob : User
unfolding new_user
bob = new_user (98 ∷ [])

-- `%R~a` gives the key for reading only
read_only :
    can_access_key bytes_eq
      (apply_rules plain plain bob ((37 ∷ 82 ∷ 126 ∷ 97 ∷ []) ∷ [])).0
      (97 ∷ [])
      true
    ≡ false
unfolding bob apply_rules can_access_key bytes_eq
read_only = refl

apply_rule_command_example :
    (u' : User) × (apply_rule plain plain bob (43 ∷ 71 ∷ 69 ∷ 84 ∷ []) ≡ some u')
    × (can_run_command plain u' (103 ∷ 101 ∷ 116 ∷ []) ≡ (
        if bytes_eq (to_lower plain (71 ∷ 69 ∷ 84 ∷ [])) (to_lower plain (103 ∷ 101 ∷ 116 ∷ []))
        then true
        else can_run_command plain bob (103 ∷ 101 ∷ 116 ∷ [])))
unfolding has_prefix
apply_rule_command_example =
    apply_rule_command plain plain bob true (71 ∷ 69 ∷ 84 ∷ []) (103 ∷ 101 ∷ 116 ∷ []) refl

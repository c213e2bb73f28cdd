-- ===== src/Acl/Rules.antt =====
-- What a rule about one command does to the commands that a user can run.
use hayakv.Base.{
  ◌≡◌, refl, Bool, true, false, some, List, [], ◌∷◌, ◌++◌, if◌then◌else◌, inl, inr, Bool-cases,
  Option-cases, arith,
}
use hayakv.Base.Classes.{Bytes, bytes_eq}
use hayakv.Acl.{
  User, to_lower, has_prefix, allowed, command_rule, apply_rule, apply_rules, can_run_command,
}

not_all :
    (name : Bytes)
    → has_prefix name (64 ∷ []) ≡ false
    → bytes_eq name (64 ∷ 97 ∷ 108 ∷ 108 ∷ []) ≡ false
unfolding has_prefix bytes_eq
not_all [] h = refl
not_all (c ∷ cs) h = ground (arith, h)

decided :
    (map_lower : Bytes → Bytes) (u : User) (v : Bool) (name cmd : Bytes)
    → can_run_command map_lower
        (record u { cmd_allow = (to_lower map_lower name, v) ∷ u.cmd_allow })
        cmd
      ≡ (if bytes_eq (to_lower map_lower name) (to_lower map_lower cmd)
          then v
          else can_run_command map_lower u cmd)
unfolding can_run_command allowed
decided map_lower u v name cmd =
    elim (Bool-cases (bytes_eq (to_lower map_lower name) (to_lower map_lower cmd))) [
      | inl e ↦ rw (can_run_command, e)
      | inr e ↦ rw (can_run_command, e)
    ]

-- A rule `+name` or `-name`, the name not a category, is no error, whatever the user: it decides about
-- the commands whose name is the same after `strings.ToLower`, and about no other command.
pub apply_rule_command :
    (hash map_lower : Bytes → Bytes) (u : User) (grant : Bool) (name cmd : Bytes)
    → has_prefix name (64 ∷ []) ≡ false
    → (u' : User) × (apply_rule hash map_lower u ((if grant then 43 else 45) ∷ name) ≡ some u')
      × (can_run_command map_lower u' cmd ≡ (
          if bytes_eq (to_lower map_lower name) (to_lower map_lower cmd)
          then grant
          else can_run_command map_lower u cmd))
unfolding apply_rule command_rule
apply_rule_command hash map_lower u true name cmd h = (
  record u { cmd_allow = (to_lower map_lower name, true) ∷ u.cmd_allow },
  rw (not_all name h, command_rule, h),
  decided map_lower u true name cmd,
)
apply_rule_command hash map_lower u false name cmd h = (
  record u { cmd_allow = (to_lower map_lower name, false) ∷ u.cmd_allow },
  rw (not_all name h, command_rule, h),
  decided map_lower u false name cmd,
)

-- `ApplyRules` of one list after another goes on with the user that the first leaves, unless that has
-- an error: then the second list does nothing.
pub apply_rules-append :
    (hash map_lower : Bytes → Bytes) (u : User) (first second : List Bytes)
    → apply_rules hash map_lower u (first ++ second) ≡ (
        let (u', failed) = apply_rules hash map_lower u first in
        if failed then (u', true) else apply_rules hash map_lower u' second)
unfolding apply_rules
apply_rules-append hash map_lower u [] second = refl
apply_rules-append hash map_lower u (r ∷ rs) second =
    elim (Option-cases (apply_rule hash map_lower u r)) [
      | inl e ↦ rw (apply_rules, e)
      | inr (u', e) ↦ rw (apply_rules, e) (apply_rules-append hash map_lower u' rs second)
    ]

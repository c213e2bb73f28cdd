-- ===== src/Acl.antt =====
-- internal/acl/user.go: the rules of a user and the checks of its permissions. The hash of a password
-- is a parameter, and so are the Unicode part of `strings.ToLower` and the match of a pattern (internal/lib/wildcard), which answers `false` for
-- a pattern that does not compile. `DescribeRules` is not modelled.
pub mod Rules
pub mod Tests
use hayakv.Base.{
  ℕ, zero, suc, ◌+◌, Bool, true, false, ◌&&◌, ◌||◌, not, Option, none, some, List, [], ◌∷◌, ◌++◌,
  drop, ltb, leb, nat_eq, if◌then◌else◌, map,
}
use hayakv.Base.Classes.{Bytes, bytes_eq}

pub record KeyPattern : Type 0 where
  pub pat : Bytes
  pub read : Bool
  pub write : Bool

-- `cmd_allow` is a map: the entry in front of the others of its key holds.
pub record User : Type 0 where
  pub name : Bytes
  pub enabled : Bool
  pub no_pass : Bool
  pub pass_hashes : List Bytes
  pub all_keys : Bool
  pub key_pats : List KeyPattern
  pub all_chans : Bool
  pub chan_pats : List Bytes
  pub all_cmds : Bool
  pub cmd_allow : List (Bytes × Bool)
  pub cat_lookup : Bytes → List Bytes

unfoldable pub new_user : Bytes → User
new_user name = record {
  name = name;
  enabled = false;
  no_pass = false;
  pass_hashes = [];
  all_keys = false;
  key_pats = [];
  all_chans = false;
  chan_pats = [];
  all_cmds = false;
  cmd_allow = [];
  cat_lookup = λ _. [];
}

-- is every byte below 0x80?
unfoldable pub is_ascii : Bytes → Bool
is_ascii [] = true
is_ascii (c ∷ cs) = ltb c 128 && is_ascii cs

unfoldable pub lower_ascii : Bytes → Bytes
lower_ascii [] = []
lower_ascii (c ∷ cs) = (if leb 65 c && leb c 90 then c + 32 else c) ∷ lower_ascii cs

-- `strings.ToLower`: letter by letter on a string of ASCII; `map_lower` is
-- `strings.Map(unicode.ToLower, s)`, which it is on any other.
unfoldable pub to_lower : (Bytes → Bytes) → Bytes → Bytes
unfolding is_ascii lower_ascii
to_lower map_lower s = if is_ascii s then lower_ascii s else map_lower s

-- `strings.HasPrefix(r, p)`
unfoldable pub has_prefix : Bytes → Bytes → Bool
has_prefix cs [] = true
has_prefix [] (p ∷ ps) = false
has_prefix (c ∷ cs) (p ∷ ps) = nat_eq c p && has_prefix cs ps

-- is the string in the set?
abbrev pub is_in : Bytes → List Bytes → Bool
is_in x [] = false
is_in x (y ∷ ys) = bytes_eq y x || is_in x ys

unfoldable pub allowed : Bytes → List (Bytes × Bool) → Option Bool
allowed cmd [] = none
allowed cmd ((c, v) ∷ rest) = if bytes_eq c cmd then some v else allowed cmd rest

-- the loop over the commands of a category
abbrev pub allow_all : Bool → List Bytes → List (Bytes × Bool) → List (Bytes × Bool)
allow_all v [] m = m
allow_all v (c ∷ cs) m = allow_all v cs ((c, v) ∷ m)

-- the rules that begin with `+` or `-` and are not about all commands; `tail` is what follows
unfoldable pub command_rule : (Bytes → Bytes) → User → Bool → Bytes → User
unfolding to_lower has_prefix
command_rule map_lower u v tail =
    if has_prefix tail (64 ∷ [])
    then record u { cmd_allow = allow_all v (u.cat_lookup (drop 1 tail)) u.cmd_allow }
    else record u { cmd_allow = (to_lower map_lower tail, v) ∷ u.cmd_allow }

unfoldable pub check_password : (Bytes → Bytes) → User → Bytes → Bool
check_password hash u pw = if u.no_pass then true else is_in (hash pw) u.pass_hashes

module _ (hash map_lower : Bytes → Bytes) where
  -- one turn of the loop of `ApplyRules`; an unknown rule is an error
  unfoldable pub apply_rule : User → Bytes → Option User
  unfolding command_rule has_prefix to_lower new_user bytes_eq
  apply_rule u r =
      if bytes_eq r (111 ∷ 110 ∷ [])
      then some (record u { enabled = true })
      else if bytes_eq r (111 ∷ 102 ∷ 102 ∷ [])
      then some (record u { enabled = false })
      else if bytes_eq r (110 ∷ 111 ∷ 112 ∷ 97 ∷ 115 ∷ 115 ∷ [])
      then some (record u { no_pass = true; pass_hashes = [] })
      else if bytes_eq r (114 ∷ 101 ∷ 115 ∷ 101 ∷ 116 ∷ 112 ∷ 97 ∷ 115 ∷ 115 ∷ [])
      then some (record u { no_pass = false; pass_hashes = [] })
      else if has_prefix r (62 ∷ [])
      then some (record u { no_pass = false; pass_hashes = hash (drop 1 r) ∷ u.pass_hashes })
      else if has_prefix r (35 ∷ [])
      then some (record u { pass_hashes = to_lower map_lower (drop 1 r) ∷ u.pass_hashes })
      else if bytes_eq r (126 ∷ 42 ∷ []) || bytes_eq r (97 ∷ 108 ∷ 108 ∷ 107 ∷ 101 ∷ 121 ∷ 115 ∷ [])
      then some (record u { all_keys = true })
      else if has_prefix r (37 ∷ 82 ∷ 126 ∷ [])
      then some (record u {
        key_pats = u.key_pats ++ (record { pat = drop 3 r; read = true; write = false } ∷ []);
      })
      else if has_prefix r (37 ∷ 87 ∷ 126 ∷ [])
      then some (record u {
        key_pats = u.key_pats ++ (record { pat = drop 3 r; read = false; write = true } ∷ []);
      })
      else if has_prefix r (126 ∷ [])
      then some (record u {
        key_pats = u.key_pats ++ (record { pat = drop 1 r; read = true; write = true } ∷ []);
      })
      else if bytes_eq r (38 ∷ 42 ∷ [])
          || bytes_eq r (97 ∷ 108 ∷ 108 ∷ 99 ∷ 104 ∷ 97 ∷ 110 ∷ 110 ∷ 101 ∷ 108 ∷ 115 ∷ [])
      then some (record u { all_chans = true })
      else if has_prefix r (38 ∷ [])
      then some (record u { chan_pats = u.chan_pats ++ (drop 1 r ∷ []) })
      else if bytes_eq r (43 ∷ 64 ∷ 97 ∷ 108 ∷ 108 ∷ [])
          || bytes_eq r (97 ∷ 108 ∷ 108 ∷ 99 ∷ 111 ∷ 109 ∷ 109 ∷ 97 ∷ 110 ∷ 100 ∷ 115 ∷ [])
      then some (record u { all_cmds = true })
      else if bytes_eq r (45 ∷ 64 ∷ 97 ∷ 108 ∷ 108 ∷ [])
          || bytes_eq r (110 ∷ 111 ∷ 99 ∷ 111 ∷ 109 ∷ 109 ∷ 97 ∷ 110 ∷ 100 ∷ 115 ∷ [])
      then some (record u { all_cmds = false; cmd_allow = [] })
      else if has_prefix r (43 ∷ [])
      then some (command_rule map_lower u true (drop 1 r))
      else if has_prefix r (45 ∷ [])
      then some (command_rule map_lower u false (drop 1 r))
      else if bytes_eq r (114 ∷ 101 ∷ 115 ∷ 101 ∷ 116 ∷ [])
      then some (new_user u.name)
      else none

  -- `ApplyRules`: the user, and whether there was an error; the rules before it have been applied
  unfoldable pub apply_rules : User → List Bytes → User × Bool
  unfolding apply_rule
  apply_rules u [] = (u, false)
  apply_rules u (r ∷ rs) = elim (apply_rule u r) [ none ↦ (u, true) | some u' ↦ apply_rules u' rs ]

unfoldable pub can_run_command : (Bytes → Bytes) → User → Bytes → Bool
unfolding allowed to_lower
can_run_command map_lower u name = elim (allowed (to_lower map_lower name) u.cmd_allow) [
  | some v ↦ v
  | none ↦ u.all_cmds
]

module _ (is_match : Bytes → Bytes → Bool) where
  abbrev pub key_loop : List KeyPattern → Bytes → Bool → Bool
  key_loop [] key write = false
  key_loop (p ∷ ps) key write =
      if write && not p.write || not write && not p.read
      then key_loop ps key write
      else (if is_match p.pat key then true else key_loop ps key write)

  unfoldable pub can_access_key : User → Bytes → Bool → Bool
  can_access_key u key write = if u.all_keys then true else key_loop u.key_pats key write

  abbrev pub channel_loop : List Bytes → Bytes → Bool
  channel_loop [] ch = false
  channel_loop (p ∷ ps) ch = if is_match p ch then true else channel_loop ps ch

  unfoldable pub can_access_channel : User → Bytes → Bool
  can_access_channel u ch = if u.all_chans then true else channel_loop u.chan_pats ch

unfoldable pub is_default_all_perms : User → Bool
unfolding bytes_eq
is_default_all_perms u =
    bytes_eq u.name (100 ∷ 101 ∷ 102 ∷ 97 ∷ 117 ∷ 108 ∷ 116 ∷ [])
    && (u.enabled && (u.all_cmds && (u.all_keys && u.all_chans)))

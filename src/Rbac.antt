-- ===== src/Rbac.antt =====
-- services/admin/rbac.py: which role of an administrator holds which permission.
pub mod Roles
use text.Mathlib.Text.{◌==◌ as str_eq}
use igame.Common.{Bool, true, false, ◌||◌, Option, none, some, String, List, [], ◌∷◌, if◌then◌else◌}
use igame.Common.Result.{Result, ok, err}

pub data ValueError : Type 0 where
  unknown_permission : String → ValueError

-- `name in names`
unfoldable pub is_in : String → List String → Bool
is_in name [] = false
is_in name (n ∷ ns) = str_eq n name || is_in name ns

abbrev pub known_admin_roles : List String
known_admin_roles = "support" ∷ "finance" ∷ "ops" ∷ "superadmin" ∷ []

-- A frozenset is the list of its members.
abbrev pub permissions : List (String × List String)
permissions =
    ("dashboard:view", "support" ∷ "finance" ∷ "ops" ∷ "superadmin" ∷ [])
    ∷ ("users:view", "support" ∷ "finance" ∷ "ops" ∷ "superadmin" ∷ [])
    ∷ ("users:adjust_balance", "finance" ∷ "superadmin" ∷ [])
    ∷ ("users:suspend", "ops" ∷ "finance" ∷ "superadmin" ∷ [])
    ∷ ("users:verify_kyc", "finance" ∷ "superadmin" ∷ [])
    ∷ ("rounds:view", "support" ∷ "finance" ∷ "ops" ∷ "superadmin" ∷ [])
    ∷ ("rounds:void", "ops" ∷ "superadmin" ∷ [])
    ∷ ("rooms:view", "support" ∷ "finance" ∷ "ops" ∷ "superadmin" ∷ [])
    ∷ ("rooms:manage", "ops" ∷ "superadmin" ∷ [])
    ∷ ("rooms:emergency_stop", "superadmin" ∷ [])
    ∷ ("reports:view", "finance" ∷ "superadmin" ∷ [])
    ∷ ("audit:view", "superadmin" ∷ [])
    ∷ ("payments:view", "support" ∷ "finance" ∷ "ops" ∷ "superadmin" ∷ [])
    ∷ ("payments:approve", "finance" ∷ "superadmin" ∷ [])
    ∷ ("payments:view_raw_evidence", "finance" ∷ "superadmin" ∷ [])
    ∷ ("payments:configure", "superadmin" ∷ [])
    ∷ ("risk:view", "ops" ∷ "finance" ∷ "superadmin" ∷ [])
    ∷ ("notifications:view", "ops" ∷ "superadmin" ∷ [])
    ∷ ("notifications:create", "ops" ∷ "superadmin" ∷ [])
    ∷ ("notifications:send", "superadmin" ∷ [])
    ∷ ("notifications:schedule", "superadmin" ∷ [])
    ∷ ("notifications:cancel", "superadmin" ∷ [])
    ∷ ("notifications:templates_manage", "ops" ∷ "superadmin" ∷ [])
    ∷ ("notifications:view_analytics", "ops" ∷ "superadmin" ∷ [])
    ∷ ("notifications:view_delivery_details", "ops" ∷ "superadmin" ∷ [])
    ∷ ("admin_users:manage", "superadmin" ∷ [])
    ∷ ("bot_content:manage", "ops" ∷ "superadmin" ∷ [])
    ∷ ("bonuses:view", "support" ∷ "finance" ∷ "ops" ∷ "superadmin" ∷ [])
    ∷ ("bonuses:manage_rules", "ops" ∷ "superadmin" ∷ [])
    ∷ ("bonuses:grant", "finance" ∷ "superadmin" ∷ [])
    ∷ ("bonuses:view_fraud_signals", "ops" ∷ "finance" ∷ "superadmin" ∷ [])
    ∷ ("telegram:view_health", "support" ∷ "finance" ∷ "ops" ∷ "superadmin" ∷ [])
    ∷ ("telegram:commands_view", "support" ∷ "finance" ∷ "ops" ∷ "superadmin" ∷ [])
    ∷ ("telegram:commands_manage", "ops" ∷ "superadmin" ∷ [])
    ∷ ("sms:view", "support" ∷ "finance" ∷ "ops" ∷ "superadmin" ∷ [])
    ∷ ("sms:contacts:manage", "ops" ∷ "superadmin" ∷ [])
    ∷ ("sms:templates:manage", "ops" ∷ "superadmin" ∷ [])
    ∷ ("sms:campaigns:manage", "ops" ∷ "superadmin" ∷ [])
    ∷ ("sms:campaigns:approve", "superadmin" ∷ [])
    ∷ ("sms:nodes:manage", "ops" ∷ "superadmin" ∷ [])
    ∷ ("sms:compliance:manage", "ops" ∷ "superadmin" ∷ [])
    ∷ ("simulated_players:view", "support" ∷ "finance" ∷ "ops" ∷ "superadmin" ∷ [])
    ∷ ("simulated_players:manage", "ops" ∷ "superadmin" ∷ [])
    ∷ ("simulated_players:stop_all", "superadmin" ∷ [])
    ∷ ("keno:view", "support" ∷ "finance" ∷ "ops" ∷ "superadmin" ∷ [])
    ∷ ("keno:manage", "ops" ∷ "superadmin" ∷ [])
    ∷ ("keno:configure", "superadmin" ∷ [])
    ∷ ("announcement:view", "support" ∷ "finance" ∷ "ops" ∷ "superadmin" ∷ [])
    ∷ ("announcement:manage", "ops" ∷ "superadmin" ∷ [])
    ∷ []

unfoldable pub allowed_roles : String → List (String × List String) → Option (List String)
allowed_roles permission [] = none
allowed_roles permission ((p, roles) ∷ rest) =
    if str_eq p permission then some roles else allowed_roles permission rest

unfoldable pub has_permission : String → String → Result ValueError Bool
has_permission role permission = elim (allowed_roles permission permissions) [
  | none ↦ err (unknown_permission permission)
  | some roles ↦ ok (is_in role roles)
]

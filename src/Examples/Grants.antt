-- ===== src/Examples/Grants.antt =====
-- The resolver of stored roles at a store that revokes a grant at time 100.
use resourcey.Prelude.{ℕ, String, Has, ◌⊎◌, some, List, [], ◌∷◌, ltb, if◌then◌else◌, arith}
use resourcey.Auth.Policy.{Policy, allow_all, read_only}
use resourcey.Auth.Roles.{
  RolePolicies, roles_from_credential, IsGrantedBy, resolve_roles, entry, resolve_roles_lem,
}
use resourcey.Auth.Rbac.{RbacStore, Resolution, Moments, resolve}
use resourcey.Auth.Rbac.Freshness.{IsRecent, Steps, start, further, resolves, resolve-IsRecent}

abbrev tables : ℕ → RbacStore
tables now = record {
  groups_for = λ u. 1 ∷ [];
  policies_for = λ u path. if ltb now 100 then allow_all ∷ [] else read_only ∷ [];
}

-- A resolution before the revocation and one shortly after it.
abbrev early : Moments
early = record { looked_up = 90; groups_read = 91; policies_read = 92; kept = 93 }

abbrev late : Moments
late = record { looked_up = 110; groups_read = 111; policies_read = 112; kept = 113 }

abbrev filled : List Resolution
filled = (resolve (some 60) tables early (some 7) "docs" []).1

history : Steps 60 tables (early ∷ []) filled
history = further [] [] filled (resolves early (some 7) "docs" [] (omega arith, omega arith)) start

resolve-IsRecent_example :
    IsRecent 60 tables
      (early ∷ [])
      late
      7
      "docs"
      (resolve (some 60) tables late (some 7) "docs" filled).0
resolve-IsRecent_example =
    resolve-IsRecent 60 tables (early ∷ []) filled late 7 "docs" history (omega arith, omega arith)

abbrev declared : RolePolicies
declared = record {
  role_policies = ("USER", read_only ∷ []) ∷ [];
  resource_role_policies = ("docs", ("ADMIN", allow_all ∷ []) ∷ []) ∷ [];
  default = [];
  resource_defaults = [];
}

abbrev carried : List String
carried = roles_from_credential (some "USER, ADMIN")

resolve_roles_lem_example :
    (IsGrantedBy declared "docs" carried allow_all
      → Has allow_all (resolve_roles declared "docs" (some carried)))
    × (Has allow_all (resolve_roles declared "docs" (some carried))
        → IsGrantedBy declared "docs" carried allow_all
          ⊎ (((q : Policy) → ¬ IsGrantedBy declared "docs" carried q)
              × Has allow_all (entry "docs" declared.default declared.resource_defaults)))
resolve_roles_lem_example = resolve_roles_lem declared "docs" carried allow_all

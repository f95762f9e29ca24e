-- ===== src/Auth/Roles.antt =====
-- resourcey/auth/auth_role.py: the roles that a credential carries, and the policies that an
-- application declares for them. A set of roles is a list in the order that it is iterated in.
use resourcey.Prelude.{
  String, ◌≡◌, refl, sym, Bool, false, not, ◌||◌, Option, none, some, List, [], ◌∷◌, ◌++◌, Has, ◌⊎◌,
  subst, inl, inr, str_eq, if◌then◌else◌, keep, map,
}
use resourcey.Text.{split, strip, is_blank}
use resourcey.Auth.Policy.{Policy}

abbrev has_role : String → List String → Bool
has_role r [] = false
has_role r (s ∷ ss) = str_eq s r || has_role r ss

-- `frozenset`.
unfoldable pub distinct : List String → List String
distinct [] = []
distinct (r ∷ rs) = let rest = distinct rs in if has_role r rs then rest else r ∷ rest

-- `roles_from_credential` of a text: separated by commas, without the blank ones.
unfoldable pub roles_from_credential : Option String → List String
unfolding distinct split strip is_blank
roles_from_credential none = []
roles_from_credential (some raw) =
    distinct (keep (λ role. not (is_blank role)) (map strip (split b',' raw)))

abbrev pub Table : Type 0 → Type 0
Table A = List (String × A)

unfoldable pub entry {ℓ} : {A : Type ℓ} → String → A → List (String × A) → A
entry name default [] = default
entry name default ((k, a) ∷ rest) =
    let later = entry name default rest in if str_eq k name then a else later

-- `RolePolicyResolver`.
pub record RolePolicies : Type 0 where
  pub role_policies : Table (List Policy)
  pub resource_role_policies : Table (Table (List Policy))
  pub default : List Policy
  pub resource_defaults : Table (List Policy)

Has-append : {A : Type 0} (a : A) (xs ys : List A) → Has a (xs ++ ys) → Has a xs ⊎ Has a ys
Has-append a [] ys h = inr h
Has-append a (x ∷ xs) ys (inl e) = inl (inl e)
Has-append a (x ∷ xs) ys (inr h) = elim (Has-append a xs ys h) [
  | inl before ↦ inl (inr before)
  | inr after ↦ inr after
]

append-Has_left : {A : Type 0} (a : A) (xs ys : List A) → Has a xs → Has a (xs ++ ys)
append-Has_left a [] ys h = absurd h
append-Has_left a (x ∷ xs) ys (inl e) = inl e
append-Has_left a (x ∷ xs) ys (inr h) = inr (append-Has_left a xs ys h)

append-Has_right : {A : Type 0} (a : A) (xs ys : List A) → Has a ys → Has a (xs ++ ys)
append-Has_right a [] ys h = h
append-Has_right a (x ∷ xs) ys h = inr (append-Has_right a xs ys h)

module _ (r : RolePolicies) (path : String) where
  -- What one role grants.
  unfoldable pub global_policies : String → List Policy
  unfolding entry
  global_policies role = entry role [] r.role_policies

  unfoldable pub path_policies : String → List Policy
  unfolding entry
  path_policies role = entry role [] (entry path [] r.resource_role_policies)

  unfoldable pub role_grants : List String → List Policy
  unfolding global_policies path_policies
  role_grants [] = []
  role_grants (role ∷ roles) = global_policies role ++ (path_policies role ++ role_grants roles)

  abbrev pub or_default : List Policy → List Policy
  or_default [] = entry path r.default r.resource_defaults
  or_default (p ∷ ps) = p ∷ ps

  -- `resolve`; a missing principal has no roles.
  unfoldable pub resolve_roles : Option (List String) → List Policy
  unfolding role_grants entry
  resolve_roles none = or_default []
  resolve_roles (some roles) = or_default (role_grants roles)

  -- A policy that one of the roles grants, everywhere or on this path.
  abbrev pub IsGrantedBy : List String → Policy → Type 0
  IsGrantedBy roles p =
      (role : String) × Has role roles × (Has p (global_policies role) ⊎ Has p (path_policies role))

  Has-role_grants :
      (roles : List String) (p : Policy) → Has p (role_grants roles) → IsGrantedBy roles p
  unfolding role_grants
  Has-role_grants [] p h = absurd h
  Has-role_grants (role ∷ roles) p h = elim (Has-append p (global_policies role) _ h) [
    | inl globally ↦ (role, inl refl, inl globally)
    | inr more ↦ elim (Has-append p (path_policies role) _ more) [
      | inl here ↦ (role, inl refl, inr here)
      | inr later ↦
          (let (other, member, grant) = Has-role_grants roles p later in (other, inr member, grant))
    ]
  ]

  role_grants-Has :
      (roles : List String) (p : Policy) → IsGrantedBy roles p → Has p (role_grants roles)
  unfolding role_grants
  role_grants-Has [] p (role, member, grant) = absurd member
  role_grants-Has (role ∷ roles) p (other, inr member, grant) =
      append-Has_right p (global_policies role) _
        (append-Has_right p (path_policies role) _ (role_grants-Has roles p (other, member, grant)))
  role_grants-Has (role ∷ roles) p (other, inl same, inl globally) =
      append-Has_left p (global_policies role) _
        (subst (λ q. Has p (global_policies q)) (sym same) globally)
  role_grants-Has (role ∷ roles) p (other, inl same, inr here) =
      append-Has_right p (global_policies role) _ (
        append-Has_left p (path_policies role) _
          (subst (λ q. Has p (path_policies q)) (sym same) here))

  or_default-cases :
      (ps : List Policy)
      → (or_default ps ≡ ps)
        ⊎ ((ps ≡ []) × (or_default ps ≡ entry path r.default r.resource_defaults))
  or_default-cases [] = inr (refl, refl)
  or_default-cases (p ∷ ps) = inl refl

  -- The policies of a principal's roles on a path hold every policy that one of the roles grants,
  -- everywhere or on the path, and otherwise only, where no role grants any policy, those of the
  -- path's default.
  pub resolve_roles_lem :
      (roles : List String) (p : Policy)
      → (IsGrantedBy roles p → Has p (resolve_roles (some roles)))
        × (Has p (resolve_roles (some roles))
            → IsGrantedBy roles p
              ⊎ (((q : Policy) → ¬ IsGrantedBy roles q)
                  × Has p (entry path r.default r.resource_defaults)))
  unfolding resolve_roles
  resolve_roles_lem roles p = elim (or_default-cases (role_grants roles)) [
    | inl e ↦ (
      (λ granted. subst (Has p) (sym e) (role_grants-Has roles p granted)),
      λ h. inl (Has-role_grants roles p (subst (Has p) e h)),
    )
    | inr (nothing, e) ↦ (
      (λ granted. absurd (subst (Has p) nothing (role_grants-Has roles p granted))),
      λ h. inr (
        (λ q granted. subst (Has q) nothing (role_grants-Has roles q granted)),
        subst (Has p) e h,
      ),
    )
  ]

-- ===== src/Security/Roles.antt =====
-- role_authorization.ts: who may read or write a collection.
pub mod Access
use velo_external_db.Base.{
  String, Bool, true, false, ◌≡◌, refl, ◌↔◌, Option, none, some, List, [], ◌∷◌, ok, err, ◌==◌,
  eq_iff, find, includes, includes_iff, Listed, guard-eq-ok, arith, if◌then◌else◌,
}
use velo_external_db.Commons.Errors.{Result, unauthorized}

pub record CollectionPermissions : Type 0 where
  pub id : String
  pub read : Option (List String)
  pub write : Option (List String)

abbrev pub default_policies : List String
default_policies = "Admin" ∷ []

-- `dataToVeloRole`: any other role stands for itself.
unfoldable pub data_to_velo_role : String → String
data_to_velo_role role =
    if role == "OWNER"
    then "Admin"
    else if role == "BACKEND_CODE"
    then "Admin"
    else if role == "MEMBER"
    then "Member"
    else if role == "VISITOR"
    then "Visitor"
    else role

module _ (config : List CollectionPermissions) where
  unfoldable pub policies_for : String → Option CollectionPermissions
  policies_for collection_name = find (λ p. p.id == collection_name) config

  -- `policies || DefaultPolicies`: an empty list is no missing one.
  abbrev or_default : Option (List String) → List String
  or_default none = default_policies
  or_default (some policies) = policies

  unfoldable pub read_policies_for : String → List String
  unfolding policies_for
  read_policies_for collection_name = elim (policies_for collection_name) [
    | none ↦ default_policies
    | some p ↦ or_default p.read
  ]

  unfoldable pub write_policies_for : String → List String
  unfolding policies_for
  write_policies_for collection_name = elim (policies_for collection_name) [
    | none ↦ default_policies
    | some p ↦ or_default p.write
  ]

  unfoldable pub authorize_read : String → String → Result (Unit {0})
  unfolding read_policies_for data_to_velo_role
  authorize_read collection_name role =
      if includes (read_policies_for collection_name) (data_to_velo_role role)
      then ok tt
      else err (unauthorized "You are not authorized")

  unfoldable pub authorize_write : String → String → Result (Unit {0})
  unfolding write_policies_for data_to_velo_role
  authorize_write collection_name role =
      if includes (write_policies_for collection_name) (data_to_velo_role role)
      then ok tt
      else err (unauthorized "You are not authorized")

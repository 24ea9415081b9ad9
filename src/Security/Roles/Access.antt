-- ===== src/Security/Roles/Access.antt =====
-- Who may use a collection that has no permissions of its own.
use velo_external_db.Base.{
  String, true, ◌≡◌, ◌↔◌, inl, inr, none, List, [], ◌∷◌, ok, eq_iff, includes, Listed, guard-eq-ok,
  arith,
}
use velo_external_db.Security.Roles.{
  CollectionPermissions, policies_for, read_policies_for, write_policies_for, data_to_velo_role,
  authorize_read, authorize_write, default_policies,
}

-- The roles that are administrators.
abbrev pub administrators : List String
administrators = "OWNER" ∷ "BACKEND_CODE" ∷ "Admin" ∷ []

is_admin_iff : (role : String) → ((data_to_velo_role role ≡ "Admin") ↔ Listed role administrators)
unfolding data_to_velo_role
is_admin_iff role = (
  λ h. ground (
    arith,
    eq_iff role "OWNER",
    eq_iff role "BACKEND_CODE",
    eq_iff role "MEMBER",
    eq_iff role "VISITOR",
    eq_iff "Member" "Admin",
    eq_iff "Visitor" "Admin",
  ),
  from,
)
  where
    from : Listed role administrators → data_to_velo_role role ≡ "Admin"
    from (inl e) = rw (← e)
    from (inr (inl e)) = rw (← e)
    from (inr (inr (inl e))) = rw (← e)
    from (inr (inr (inr h))) = elim h [ ]

default_iff :
    (role : String)
    → (includes ("Admin" ∷ []) (data_to_velo_role role) ≡ true) ↔ Listed role administrators
default_iff role = (
  λ h. (is_admin_iff role).0 (ground (arith, eq_iff "Admin" (data_to_velo_role role))),
  λ h. let e = (is_admin_iff role).1 h in rw e,
)

module _ (config : List CollectionPermissions) (c : String) (e : policies_for config c ≡ none) where
  read_default : read_policies_for config c ≡ default_policies
  unfolding read_policies_for
  read_default = rw (e, read_policies_for)

  write_default : write_policies_for config c ≡ default_policies
  unfolding write_policies_for
  write_default = rw (e, write_policies_for)

-- A collection that the configuration does not list may be read, and may be written, exactly by an
-- owner, by backend code, and by the role that is already called Admin.
pub unlisted_iff :
    (config : List CollectionPermissions) (collection_name role : String)
    → policies_for config collection_name ≡ none
    → ((authorize_read config collection_name role ≡ ok tt) ↔ Listed role administrators)
      × ((authorize_write config collection_name role ≡ ok tt) ↔ Listed role administrators)
unfolding authorize_read authorize_write
unlisted_iff config c role e =
    let (to, from) = default_iff role in
    let reads = read_default config c e in
    let writes = write_default config c e in
    (
      (λ h. to (guard-eq-ok _ _ (rw reads at h)), λ h. rw (reads, from h)),
      (λ h. to (guard-eq-ok _ _ (rw writes at h)), λ h. rw (writes, from h)),
    )

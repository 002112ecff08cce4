-- ===== src/Security/Roles.antt =====
-- security/roles.py: the permissions of each role.
use model_db.Prelude.{ℕ, ◌≡◌, refl, Bool, true, false, List, [], ◌∷◌, leb, any_of}

pub data Permission : Type 0 where
  read write create_table create_database manage_users drop_structure : Permission

pub data Role : Type 0 where
  viewer editor db_admin admin : Role

-- `permission in {...}`
abbrev pub same_permission : Permission → Permission → Bool
same_permission Permission.read Permission.read = true
same_permission Permission.write Permission.write = true
same_permission Permission.create_table Permission.create_table = true
same_permission Permission.create_database Permission.create_database = true
same_permission Permission.manage_users Permission.manage_users = true
same_permission Permission.drop_structure Permission.drop_structure = true
same_permission _ _ = false

unfoldable pub role_permissions : Role → List Permission
role_permissions Role.viewer = Permission.read ∷ []
role_permissions Role.editor = Permission.read ∷ Permission.write ∷ Permission.create_table ∷ []
role_permissions Role.db_admin =
    Permission.read ∷ Permission.write ∷ Permission.create_table ∷ Permission.create_database
    ∷ Permission.drop_structure ∷ []
role_permissions Role.admin =
    Permission.read ∷ Permission.write ∷ Permission.create_table ∷ Permission.create_database
    ∷ Permission.drop_structure ∷ Permission.manage_users ∷ []

unfoldable pub role_has : Role → Permission → Bool
role_has role permission = any_of (same_permission permission) (role_permissions role)

-- the place of a role among the four, from the least
abbrev pub rank : Role → ℕ
rank Role.viewer = 0
rank Role.editor = 1
rank Role.db_admin = 2
rank Role.admin = 3

-- the least role that the module's text gives a permission to
abbrev pub needed : Permission → Role
needed Permission.read = Role.viewer
needed Permission.write = Role.editor
needed Permission.create_table = Role.editor
needed Permission.create_database = Role.db_admin
needed Permission.drop_structure = Role.db_admin
needed Permission.manage_users = Role.admin

-- A role has a permission exactly if it is at least the role that the permission needs: READ needs
-- VIEWER, WRITE and CREATE_TABLE need EDITOR, CREATE_DATABASE and DROP need DB_ADMIN, and
-- MANAGE_USERS needs ADMIN.
pub role_has-eq-leb :
    (role : Role) (permission : Permission)
    → role_has role permission ≡ leb (rank (needed permission)) (rank role)
unfolding role_has role_permissions
role_has-eq-leb Role.viewer Permission.read = refl
role_has-eq-leb Role.viewer Permission.write = refl
role_has-eq-leb Role.viewer Permission.create_table = refl
role_has-eq-leb Role.viewer Permission.create_database = refl
role_has-eq-leb Role.viewer Permission.manage_users = refl
role_has-eq-leb Role.viewer Permission.drop_structure = refl
role_has-eq-leb Role.editor Permission.read = refl
role_has-eq-leb Role.editor Permission.write = refl
role_has-eq-leb Role.editor Permission.create_table = refl
role_has-eq-leb Role.editor Permission.create_database = refl
role_has-eq-leb Role.editor Permission.manage_users = refl
role_has-eq-leb Role.editor Permission.drop_structure = refl
role_has-eq-leb Role.db_admin Permission.read = refl
role_has-eq-leb Role.db_admin Permission.write = refl
role_has-eq-leb Role.db_admin Permission.create_table = refl
role_has-eq-leb Role.db_admin Permission.create_database = refl
role_has-eq-leb Role.db_admin Permission.manage_users = refl
role_has-eq-leb Role.db_admin Permission.drop_structure = refl
role_has-eq-leb Role.admin Permission.read = refl
role_has-eq-leb Role.admin Permission.write = refl
role_has-eq-leb Role.admin Permission.create_table = refl
role_has-eq-leb Role.admin Permission.create_database = refl
role_has-eq-leb Role.admin Permission.manage_users = refl
role_has-eq-leb Role.admin Permission.drop_structure = refl

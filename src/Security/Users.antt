-- ===== src/Security/Users.antt =====
-- security/users.py: accounts with a password. Every operation reads the file again, so the file is
-- the state: a dict from user names to users. The two hex texts of a user are kept as the bytes that
-- they stand for; scrypt and the salt are arguments.
use model_db.Prelude.{
  String, ◌≡◌, refl, sym, ◌∙◌, inl, inr, Bool, true, false, Option, none, some, arith, ◌==◌,
  if◌then◌else◌, Option-cases, length, list_eq, Result, ok, err, is_ok, ok-injective, str_eq,
  str_eq_iff,
}
use model_db.Dict
use model_db.Dict.{Dict, contains, get-put, get-remove}
use model_db.Storage.Interface.{Bytes}
use model_db.Security.Roles.{Role}

pub data UserError : Type 0 where
  user_already_exists user_not_found : UserError

pub record User : Type 0 where
  pub username : String
  pub role : Role
  pub salt : Bytes
  pub derived_key : Bytes

abbrev pub UserStore : Type 0
UserStore = Dict User

abbrev pub is_empty : UserStore → Bool
is_empty users = length users == 0

-- `derive`, hashlib.scrypt with the module's parameters
module _ (derive : String → Bytes → Bytes) where
  unfoldable pub check_password : User → String → Bool
  check_password user password = list_eq (derive password user.salt) user.derived_key

  unfoldable pub create :
      UserStore → String → String → Role → Bytes → Result UserError (UserStore × User)
  create users username password role salt =
      if contains users username
      then err user_already_exists
      else (let user : User = record {
        username = username;
        role = role;
        salt = salt;
        derived_key = derive password salt;
      } in
          ok (Dict.put users username user, user))

  -- a user whose password is right
  abbrev pub admitted : String → Option User → Option User
  admitted password none = none
  admitted password (some user) = if check_password user password then some user else none

  unfoldable pub authenticate : UserStore → String → String → Option User
  authenticate users username password = admitted password (Dict.get users username)

-- `self._users[username].role = role`
unfoldable pub set_role : UserStore → String → Role → Result UserError UserStore
set_role users username role = elim (Dict.get users username) [
  | none ↦ err user_not_found
  | some user ↦ ok (Dict.put users username (record user { role = role }))
]

unfoldable pub delete : UserStore → String → UserStore × Bool
delete users username =
    if contains users username then (Dict.remove users username, true) else (users, false)

abbrev pub with_role : Role → Option User → Option User
with_role role none = none
with_role role (some user) = some (record user { role = role })

set_role_of :
    (users : UserStore) (name : String) (role : Role) {user : User}
    → Dict.get users name ≡ some user
    → set_role users name role ≡ ok (Dict.put users name (record user { role = role }))
unfolding set_role
set_role_of users name role there = ground (arith, there)

module _ (derive : String → Bytes → Bytes) (users : UserStore) (name : String) where
  -- A new account is created for a name that is free, and exactly the passwords that derive the same
  -- key from its salt are then accepted for it; for a name that is taken creation raises, and no
  -- account of another name is affected.
  pub authenticate-create :
      (password : String) (role : Role) (salt : Bytes)
      → (contains users name ≡ true
          → create derive users name password role salt ≡ err user_already_exists)
        × (contains users name ≡ false
            → (users' : UserStore) × (user : User) × (create derive users name password role salt
                ≡ ok (users', user))
              × (user.role ≡ role)
              × ((j tried : String)
                  → authenticate derive users' j tried ≡ (
                      if str_eq name j
                      then (if list_eq (derive tried salt) (derive password salt)
                          then some user
                          else none)
                      else authenticate derive users j tried)))
  unfolding create authenticate check_password
  authenticate-create password role salt =
      let user : User = record {
        username = name;
        role = role;
        salt = salt;
        derived_key = derive password salt;
      } in
      (
        λ taken. rw taken refl,
        λ free. (
          Dict.put users name user,
          user,
          rw free refl,
          refl,
          λ j tried. ground (arith, get-put users name j user),
        ),
      )

  -- A change of role succeeds exactly for an account that exists, and changes what authentication
  -- returns in the role alone: the passwords of all accounts stay.
  pub authenticate-set_role :
      (role : Role)
      → (is_ok (set_role users name role) ≡ contains users name)
        × ((users' : UserStore)
            → set_role users name role ≡ ok users'
            → (j tried : String)
            → authenticate derive users' j tried ≡ (
                if str_eq name j
                then with_role role (authenticate derive users j tried)
                else authenticate derive users j tried))
  unfolding set_role authenticate check_password
  authenticate-set_role role = elim (Option-cases (Dict.get users name)) [
    | inl absent ↦ (ground (arith, absent), λ users' h. absurd (ground (arith, absent)))
    | inr (user, there) ↦ (
      ground (arith, there),
      λ users' h j tried.
          let changed : set_role users name role
              ≡ ok (Dict.put users name (record user { role = role })) =
            set_role_of users name role there in
          let e : Dict.put users name (record user { role = role }) ≡ users' =
            ok-injective (sym changed ∙ h) in
          rw (← e) (
            ground (
              arith,
              there,
              str_eq_iff name j,
              get-put users name j (record user { role = role }),
            )),
    )
  ]

  -- A deleted account is not authenticated with any password, the others are as before, and the
  -- result says whether there was one.
  pub authenticate-delete :
      (j tried : String)
      → ((delete users name).1 ≡ contains users name)
        × (authenticate derive (delete users name).0 j tried
            ≡ (if str_eq name j then none else authenticate derive users j tried))
  unfolding delete authenticate
  authenticate-delete j tried = ground (arith, get-remove users name j, str_eq_iff name j)

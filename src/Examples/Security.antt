-- ===== src/Examples/Security.antt =====
-- Two accounts and two tokens.
use model_db.Prelude.{
  String, ◌≡◌, refl, true, false, none, some, List, [], ◌∷◌, ◌++◌, leb, if◌then◌else◌, list_eq, ok,
  err, str_eq, codes,
}
use model_db.Dict.{contains}
use model_db.Storage.Interface.{Bytes}
use model_db.Security.Roles.{Permission, Role, rank, needed, role_has, role_has-eq-leb}
use model_db.Security.Users.{
  user_already_exists, User, UserStore, create, authenticate, authenticate-create,
}
use model_db.Security.Tokens.{
  TokenRecord, TokenStore, load, issue, resolve, verify, revoke, first_match, issue-forgets,
  resolve-revoke,
}

role_has-eq-leb_example :
    role_has Role.editor Permission.write ≡ leb (rank (needed Permission.write)) (rank Role.editor)
role_has-eq-leb_example = role_has-eq-leb Role.editor Permission.write

-- a key derivation that keeps the password
abbrev derive : String → Bytes → Bytes
derive password salt = salt ++ codes password

abbrev ada : User
ada = record {
  username = "ada";
  role = Role.viewer;
  salt = 1 ∷ [];
  derived_key = derive "pw" (1 ∷ []);
}

abbrev accounts : UserStore
accounts = ("ada", ada) ∷ []

authenticate-create_example :
    (contains accounts "bob" ≡ true
      → create derive accounts "bob" "secret" Role.editor (2 ∷ []) ≡ err user_already_exists)
    × (contains accounts "bob" ≡ false
        → (users' : UserStore) × (user : User) × (create derive accounts "bob" "secret" Role.editor
              (2 ∷ [])
            ≡ ok (users', user))
          × (user.role ≡ Role.editor)
          × ((j tried : String)
              → authenticate derive users' j tried ≡ (
                  if str_eq "bob" j
                  then (if list_eq (derive tried (2 ∷ [])) (derive "secret" (2 ∷ []))
                      then some user
                      else none)
                  else authenticate derive accounts j tried)))
authenticate-create_example =
    authenticate-create derive accounts "bob" "secret" Role.editor (2 ∷ [])

-- two characters tell these texts apart
abbrev digest : String → String
digest t = t

abbrev one_token : List TokenRecord
one_token = record { name = "ci"; token_hash = "mdc_a"; role = Role.editor } ∷ []

-- the object was made before the token "mdc_a" came into the file
abbrev stale : TokenStore
stale = record { records = []; file = one_token }

not_loaded : first_match "mdc_a" stale.records ≡ none
unfolding first_match
not_loaded = refl

issue-forgets_example : verify digest [] (issue digest stale "ui" Role.viewer "b").0 "mdc_a" ≡ false
issue-forgets_example =
    issue-forgets digest [] stale "ui" Role.viewer "b" "mdc_a" refl refl not_loaded refl

abbrev two_tokens : TokenStore
two_tokens = load (record { name = "ui"; token_hash = "mdc_b"; role = Role.viewer } ∷ one_token)

still_there :
    resolve digest [] (revoke two_tokens "ui").0 "mdc_a"
    ≡ some (record { name = "ci"; token_hash = "mdc_a"; role = Role.editor })
unfolding resolve revoke first_match
still_there = refl

resolve-revoke_example : str_eq "ci" "ui" ≡ false
resolve-revoke_example =
    resolve-revoke digest [] two_tokens "ui" "mdc_a"
      (record { name = "ci"; token_hash = "mdc_a"; role = Role.editor }) refl refl still_there

-- ===== src/Security/Tokens.antt =====
-- security/tokens.py: bearer tokens, kept as hashes. A store object has the records that it loaded
-- when it was made; `issue` and `revoke` change those and write them to the file, while `resolve`
-- reads the file. Both are kept here. `hash` is the SHA-256 text of a token, a fresh token's random
-- text is an argument, and so are the tokens of the environment variable, split and stripped.
use model_db.Prelude.{
  ℕ, ◌-◌, ◌≤◌, String, ◌≡◌, refl, sym, ap, ◌∙◌, inl, inr, Bool, false, not, Option, none, some,
  List, [], ◌∷◌, ◌++◌, arith, ◌==◌, if◌then◌else◌, Bool-cases, is_some, some_injective, length,
  any_of, str_eq, ◌+ˢ◌,
}
use model_db.Security.Roles.{Role}

pub record TokenRecord : Type 0 where
  pub name : String
  pub token_hash : String
  pub role : Role

pub record TokenStore : Type 0 where
  pub records : List TokenRecord
  pub file : List TokenRecord

-- `_TOKEN_PREFIX + secrets.token_urlsafe(32)`
abbrev pub token_of : String → String
token_of random = "mdc_" +ˢ random

-- `next((r for r in records if r.token_hash == digest), None)`
unfoldable pub first_match : String → List TokenRecord → Option TokenRecord
first_match digest [] = none
first_match digest (r ∷ records) =
    let rest = first_match digest records in if str_eq r.token_hash digest then some r else rest

-- `[r for r in records if r.name != name]`
abbrev pub others : String → List TokenRecord → List TokenRecord
others name [] = []
others name (r ∷ records) =
    let rest = others name records in if not (str_eq r.name name) then r ∷ rest else rest

-- `token in {...}`
abbrev pub is_listed : String → List String → Bool
is_listed token tokens = any_of (str_eq token) tokens

-- `TokenStore(path)`
abbrev pub load : List TokenRecord → TokenStore
load file = record { records = file; file = file }

module _ (hash : String → String) where
  unfoldable pub issue : TokenStore → String → Role → String → TokenStore × String
  issue s name role random =
      let token = token_of random in
      let records =
        s.records ++ (record { name = name; token_hash = hash token; role = role } ∷ []) in
      (record { records = records; file = records }, token)

  unfoldable pub resolve : List String → TokenStore → String → Option TokenRecord
  resolve env_tokens s token =
      if str_eq token ""
      then none
      else (if is_listed token env_tokens
          then some (record { name = "env"; token_hash = hash token; role = Role.admin })
          else first_match (hash token) s.file)

  unfoldable pub verify : List String → TokenStore → String → Bool
  verify env_tokens s token = is_some (resolve env_tokens s token)

unfoldable pub revoke : TokenStore → String → TokenStore × ℕ
revoke s name =
    let kept = others name s.records in
    let removed = length s.records - length kept in
    (record { records = kept; file = if not (removed == 0) then kept else s.file }, removed)

-- `a or b` on optional records
abbrev pub or_else : Option TokenRecord → Option TokenRecord → Option TokenRecord
or_else (some r) other = some r
or_else none other = other

first_match-append :
    (digest : String) (xs ys : List TokenRecord)
    → first_match digest (xs ++ ys) ≡ or_else (first_match digest xs) (first_match digest ys)
unfolding first_match
first_match-append digest [] ys = refl
first_match-append digest (r ∷ xs) ys = ground (arith, first_match-append digest xs ys)

module _ (hash : String → String) (env_tokens : List String) where
  -- After a token was issued, a token that is not empty nor one of the environment's resolves to the
  -- first record of the store object with its hash, or else, if it has the hash of the new token, to
  -- the new record. What the file held, and the object had not loaded, plays no part.
  pub resolve-issue :
      (s : TokenStore) (name : String) (role : Role) (random token : String)
      → str_eq token "" ≡ false
      → is_listed token env_tokens ≡ false
      → resolve hash env_tokens (issue hash s name role random).0 token
        ≡ or_else (first_match (hash token) s.records) (
            if str_eq (hash (token_of random)) (hash token)
            then some (record { name = name; token_hash = hash (token_of random); role = role })
            else none)
  unfolding resolve issue first_match
  resolve-issue s name role random token some_text own =
      rw (some_text, own)
        (first_match-append (hash token) s.records
          (record { name = name; token_hash = hash (token_of random); role = role } ∷ []))

  -- A token that was issued by another process after a store object was made is lost when that
  -- object issues one: if the object's records have no token of its hash and the new token has
  -- another, it no longer resolves.
  pub issue-forgets :
      (s : TokenStore) (name : String) (role : Role) (random token : String)
      → str_eq token "" ≡ false
      → is_listed token env_tokens ≡ false
      → first_match (hash token) s.records ≡ none
      → str_eq (hash (token_of random)) (hash token) ≡ false
      → verify hash env_tokens (issue hash s name role random).0 token ≡ false
  unfolding verify
  issue-forgets s name role random token some_text own unloaded other =
      rw (resolve-issue s name role random token some_text own, unloaded, other) refl

  absent-others :
      (name digest : String) (records : List TokenRecord) {r : TokenRecord}
      → first_match digest (others name records) ≡ some r
      → str_eq r.name name ≡ false
  unfolding first_match
  absent-others name digest [] h = absurd (cc)
  absent-others name digest (x ∷ records) {r} h = elim (Bool-cases (str_eq x.name name)) [
    | inl revoked ↦ absent-others name digest records (rw revoked at h)
    | inr other ↦ elim (Bool-cases (str_eq x.token_hash digest)) [
      | inl this ↦ let e : x ≡ r = some_injective (rw (other, this) at h) in rw (← e) other
      | inr later ↦ absent-others name digest records (rw (other, later) at h)
    ]
  ]

  length-others :
      (name : String) (records : List TokenRecord) → length (others name records) ≤ length records
  length-others name [] = omega arith
  length-others name (x ∷ records) = ground (arith, length-others name records)

  others_all :
      (name : String) (records : List TokenRecord)
      → length records - length (others name records) ≡ 0
      → others name records ≡ records
  others_all name [] h = refl
  others_all name (x ∷ records) h =
      ground (arith, length-others name records, others_all name records)

  file-revoke :
      (s : TokenStore) (name : String)
      → s.file ≡ s.records
      → (revoke s name).0.file ≡ others name s.records
  unfolding revoke
  file-revoke s name synced = ground (arith, others_all name s.records, synced)

  -- After a revocation by an object that has what the file has, no token resolves to a record of the
  -- revoked name, except the environment's own.
  pub resolve-revoke :
      (s : TokenStore) (name token : String) (r : TokenRecord)
      → s.file ≡ s.records
      → is_listed token env_tokens ≡ false
      → resolve hash env_tokens (revoke s name).0 token ≡ some r
      → str_eq r.name name ≡ false
  unfolding resolve
  resolve-revoke s name token r synced own h =
      let matched : first_match (hash token) (revoke s name).0.file ≡ some r =
        ground (arith, own) in
      absent-others name (hash token) s.records
        (sym (ap (first_match (hash token)) (file-revoke s name synced)) ∙ matched)

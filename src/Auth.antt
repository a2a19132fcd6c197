-- ===== src/Auth.antt =====
-- server/internal/auth: the checks of names, passwords and tags in service.go and policy.go, and
-- password.go and session.go. bcrypt, SHA-256, base64, `strings.EqualFold` and the list of common passwords are
-- parameters; `rand.Read` and the salt are arguments.
pub mod Store
pub mod Service
mod Tests
use my_tech_pulse.Base.{
  ℕ, ◌+◌, ◌≡◌, ◌≢◌, Bool, true, false, ◌&&◌, ◌||◌, not, Option, none, some, [], ◌∷◌, ◌++◌, List,
  ltb, leb, ◌==◌, if◌then◌else◌, Text, text_eq, length,
}
use my_tech_pulse.Unicode.{Unicode, trim_space, to_lower}
use my_tech_pulse.Interest.{has}
use my_tech_pulse.TextCheck.{Characters, valid_tag, valid_username}

-- bcrypt: `GenerateFromPassword` with its salt, and `CompareHashAndPassword`.
pub record Bcrypt : Type 0 where
  pub generate : Text → Text → Option Text
  pub matches : Text → Text → Bool
  pub matches-generate : (salt p h : Text) → generate salt p ≡ some h → matches h p ≡ true

-- `base64.RawURLEncoding.EncodeToString` and `sha256.Sum256`.
pub record Tokens : Type 0 where
  pub encode : List ℕ → Text
  pub encode_named : (b : ℕ) (raw : List ℕ) → encode (b ∷ raw) ≢ []
  pub sha256 : Text → Text

-- `strings.EqualFold`, and the lines of commonpasswords.txt.
pub record Policy : Type 0 where
  pub equal_fold : Text → Text → Bool
  pub common_lines : List Text

pub data Role : Type 0 where
  member admin : Role

-- A `FieldError`, by its message.
pub data FieldError : Type 0 where
  username_length username_characters : FieldError
  password_length password_bytes password_short password_is_username password_common : FieldError
  tag_count tag_characters tag_unknown : FieldError

abbrev pub max_username_chars : ℕ
max_username_chars = 50

abbrev pub max_favorite_tags : ℕ
max_favorite_tags = 128

abbrev pub min_password_chars : ℕ
min_password_chars = 12

abbrev pub max_password_bytes : ℕ
max_password_bytes = 72

-- `len` of a text: its bytes in UTF-8.
unfoldable pub byte_length : Text → ℕ
byte_length [] = 0
byte_length (c ∷ s) =
    let rest = byte_length s in
    (if ltb c 0x80 then 1 else if ltb c 0x800 then 2 else if ltb c 0x10000 then 3 else 4) + rest

unfoldable pub valid_password : Text → Bool
unfolding byte_length
valid_password password = not (text_eq password []) && leb (byte_length password) max_password_bytes

-- `BcryptPasswords.Hash`.
unfoldable pub hash_password : ⦃b : Bcrypt⦄ → Text → Text → Option Text
unfolding valid_password
hash_password ⦃b⦄ salt password = if valid_password password then b.generate salt password else none

-- `BcryptPasswords.Compare`: whether it returns nil.
unfoldable pub compare_password : ⦃b : Bcrypt⦄ → Text → Text → Bool
unfolding valid_password
compare_password ⦃b⦄ hash password = valid_password password && b.matches hash password

-- `HashToken`.
unfoldable pub hash_token : ⦃k : Tokens⦄ → Text → Text
hash_token ⦃k⦄ plain = k.sha256 plain

-- `RandomTokenGenerator.New`, given the bytes that `rand.Read` fills in.
unfoldable pub new_token : ⦃k : Tokens⦄ → Option (List ℕ) → Option (Text × Text)
unfolding hash_token
new_token none = none
new_token ⦃k⦄ (some raw) = some (k.encode raw, hash_token (k.encode raw))

-- `validateUsername`: the name, empty with an error.
unfoldable pub validate_username : Text → Text × Option FieldError
validate_username username =
    let name = trim_space username in
    if ltb (length name) 1 || ltb max_username_chars (length name)
    then ([], some username_length)
    else (name, none)

unfoldable pub validate_password : Text → Option FieldError
unfolding valid_password
validate_password password = if valid_password password then none else some password_length

-- The errors that are not nil.
unfoldable pub invalid : List (Option FieldError) → List FieldError
invalid [] = []
invalid (none ∷ fields) = invalid fields
invalid (some f ∷ fields) = f ∷ invalid fields

-- A line that is empty or starts with `#` is no password.
unfoldable pub is_comment : Text → Bool
is_comment [] = true
is_comment (c ∷ line) = c == 35

unfoldable pub validate_new_username : ⦃t : Characters⦄ → Text → Text × Option FieldError
unfolding validate_username valid_username
validate_new_username username =
    let v = validate_username username in
    elim v.1 [
      | none ↦ if valid_username v.0 then v else ([], some username_characters)
      | some e ↦ v
    ]

module _ ⦃u : Unicode⦄ where
  -- `commonPasswordSet`.
  unfoldable pub common_passwords : List Text → List Text
  unfolding is_comment
  common_passwords [] = []
  common_passwords (raw ∷ lines) =
      let rest = common_passwords lines in
      if is_comment (trim_space raw) then rest else to_lower (trim_space raw) ∷ rest

  unfoldable pub is_common_password : ⦃c : Policy⦄ → Text → Bool
  unfolding common_passwords has
  is_common_password ⦃c⦄ password = has (to_lower password) (common_passwords c.common_lines)

  unfoldable pub validate_new_password : ⦃c : Policy⦄ → Text → Text → Option FieldError
  unfolding byte_length is_common_password
  validate_new_password ⦃c⦄ password username =
      if ltb max_password_bytes (byte_length password)
      then some password_bytes
      else if ltb (length password) min_password_chars
      then some password_short
      else if not (text_eq username []) && c.equal_fold password username
      then some password_is_username
      else if is_common_password password
      then some password_common
      else none

  -- The loop of `normalizeTags`: none for a tag that is not valid.
  unfoldable pub normalize_from :
      ⦃t : Characters⦄ → List Text → List Text → List Text → Option (List Text)
  unfolding valid_tag has
  normalize_from seen out [] = some out
  normalize_from seen out (raw ∷ tags) =
      let tag = trim_space raw in
      let skip = normalize_from seen out tags in
      let keep = normalize_from (to_lower tag ∷ seen) (out ++ (tag ∷ [])) tags in
      if not (valid_tag tag) then none else if has (to_lower tag) seen then skip else keep

  unfoldable pub normalize_tags : ⦃t : Characters⦄ → List Text → List Text × Option FieldError
  unfolding normalize_from
  normalize_tags tags =
      if ltb (length tags) 1 || ltb max_favorite_tags (length tags)
      then ([], some tag_count)
      else elim (normalize_from [] [] tags) [
        | none ↦ ([], some tag_characters)
        | some out ↦ (out, none)
      ]

-- ===== src/Database.antt =====
-- 1.0/server/db_mysql.c: the password and the salt of a user.
pub mod Columns
use as3chat.Common.{
  ℕ, zero, suc, ◌+◌, Bool, true, false, ◌&&◌, Option, none, some, List, [], ◌∷◌, ◌++◌,
}
use as3chat.Common.Tests.{ltb, leb, ◌==◌, if◌then◌else◌}
use as3chat.Common.Lists.{length}
use as3chat.Common.Text.{Bytes, lit, snprintf, str_eq, c_string}
use as3chat.Server.{max_char_length, Cmd, pure, fail, ◌>>=◌, ◌>>◌}
use as3chat.External.{MySql, ResultSet}
use as3chat.LuaFunctions.{Config}

pub user_query : MySql → Config → Bytes → Bytes
user_query mysql config username =
    let user = mysql.escape (snprintf max_char_length username) in
    snprintf 256 (
      lit "SELECT * FROM "
      ++ c_string config.dbtable
      ++ lit " WHERE "
      ++ c_string config.fieldusername
      ++ lit "='"
      ++ user
      ++ lit "' limit 1")

-- The result, if it has one row.
pub get_user_tuple : MySql → Config → Bytes → Option ResultSet
get_user_tuple mysql config username = elim (mysql.query (user_query mysql config username)) [
  | none ↦ none
  | some res ↦ if length res.rows == 1 then some res else none
]

pub get_or {ℓ} : {A : Type ℓ} → List A → ℕ → A → A
get_or [] i d = d
get_or (x ∷ xs) zero d = x
get_or (x ∷ xs) (suc i) d = get_or xs i d

-- The loop over the columns, from the last to the first: `i` columns are left.
pub column_loop : Bytes → List Bytes → ℕ → ℕ → ℕ
column_loop name fields zero found = found
column_loop name fields (suc i) found =
    column_loop name fields i (if str_eq (get_or fields i []) name then i else found)

pub column : Bytes → List Bytes → ℕ
column name fields = column_loop name fields (length fields) 0

-- `strcpy` into an array of `MAX_CHAR_LENGTH`.
pub fits : Bytes → Bool
fits text = ltb (length text) max_char_length

-- `none` is `RETURN_FAILURE`. A NULL salt and a text too long for its array are undefined behaviour.
pub read_fields : Config → List Bytes → List (Option Bytes) → Cmd (Option (Bytes × Bytes))
read_fields config fields row =
    elim (get_or row (column (c_string config.fieldpassword) fields) none) [
      | none ↦ pure none
      | some password ↦ elim (get_or row (column (c_string config.fieldsalt) fields) none) [
        | none ↦ fail
        | some salt ↦ if fits password && fits salt then pure (some (password, salt)) else fail
      ]
    ]

-- The first row, if there is one.
pub read_row : Config → List Bytes → List (List (Option Bytes)) → Cmd (Option (Bytes × Bytes))
read_row config fields [] = pure none
read_row config fields (row ∷ _) = read_fields config fields row

pub get_password : MySql → Config → Bytes → Cmd (Option (Bytes × Bytes))
get_password mysql config username = elim (get_user_tuple mysql config username) [
  | none ↦ pure none
  | some res ↦ read_row config res.fields res.rows
]

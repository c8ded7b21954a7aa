-- ===== src/Ops/Access.antt =====
-- ops/access.py: principals, their tokens and what they may do, on the tables `principal`,
-- `role_permission` and `audit_log` of the archive. The hash of a token and the token that the operating
-- system draws are arguments.
pub mod Tokens
mod Tests
use Prim.Native.String.{String}
use kpcl_hardware.Common.{
  ℕ, ◌+◌, Bool, true, false, not, ◌&&◌, ◌||◌, Option, none, some, List, [], ◌∷◌, ◌++◌,
  if◌then◌else◌, any_of,
}
use kpcl_hardware.Common.Text.{same_text}

-- `ROLES`
abbrev pub roles : List String
roles = "corporate" ∷ "station" ∷ "engineering" ∷ "operations" ∷ "maintenance" ∷ "admin" ∷ []

pub record Principal : Type 0 where
  pub username : String
  pub role : String
  pub station : Option String
  pub permissions : List String

-- `Principal.may`
unfoldable pub may : Principal → String → Bool
unfolding same_text
may p permission = any_of (same_text permission) p.permissions

unfoldable pub is_station : Option String → String → Bool
unfolding same_text
is_station none station = false
is_station (some own) station = same_text own station

-- `Principal.may_see_station`
unfoldable pub may_see_station : Principal → Option String → Bool
unfolding is_station same_text
may_see_station p none = not (same_text p.role "station")
may_see_station p (some station) =
    if same_text p.role "station" then is_station p.station station else true

-- A row of `principal`.
pub record PrincipalRow : Type 0 where
  pub id : ℕ
  pub name : String
  pub role_name : String
  pub scope : Option String
  pub token_sha : String
  pub enabled : Bool
  pub last_seen : Option ℕ

-- A row of `audit_log`, without its reason.
pub record AuditRow : Type 0 where
  pub actor : String
  pub entity_id : ℕ
  pub changed : String
  pub old_value : Option String
  pub new_value : Option String

pub record Tables : Type 0 where
  pub principals : List PrincipalRow
  pub next_id : ℕ
  pub role_permissions : List (String × String)
  pub audit_log : List AuditRow

-- How a call ends: with a result, with an AccessError, or with an error of the database.
pub data Access (A : Type 0) : Type 0 where
  granted : A → Access A
  refused : Access A
  failed : Access A

unfoldable pub has_hash : String → PrincipalRow → Bool
unfolding same_text
has_hash sha row = same_text row.token_sha sha

unfoldable pub has_name : String → PrincipalRow → Bool
unfolding same_text
has_name name row = same_text row.name name

-- The first row with the hash.
unfoldable pub find_hash : String → List PrincipalRow → Option PrincipalRow
unfolding has_hash
find_hash sha [] = none
find_hash sha (row ∷ rows) = if has_hash sha row then some row else find_hash sha rows

-- SELECT permission_name FROM role_permission WHERE role_name = ...
unfoldable pub permissions_of : String → List (String × String) → List String
unfolding same_text
permissions_of role [] = []
permissions_of role ((name, permission) ∷ rest) =
    if same_text name role then permission ∷ permissions_of role rest else permissions_of role rest

-- UPDATE principal SET last_seen = now() WHERE username = ...
unfoldable pub touch : ℕ → String → List PrincipalRow → List PrincipalRow
unfolding has_name
touch now name [] = []
touch now name (row ∷ rows) =
    (if has_name name row then record row { last_seen = some now } else row) ∷ touch now name rows

-- UPDATE principal SET enabled = false WHERE username = ...
unfoldable pub disable : String → List PrincipalRow → List PrincipalRow
unfolding has_name
disable name [] = []
disable name (row ∷ rows) =
    (if has_name name row then record row { enabled = false } else row) ∷ disable name rows

unfoldable pub find_name : String → List PrincipalRow → Option PrincipalRow
unfolding has_name
find_name name [] = none
find_name name (row ∷ rows) = if has_name name row then some row else find_name name rows

-- `not station`
unfoldable pub is_unscoped : Option String → Bool
unfolding same_text
is_unscoped none = true
is_unscoped (some station) = same_text station ""

module _ (token_hash : String → String) where
  -- The two inserts of `create_principal`.
  unfoldable pub insert_principal :
      String → String → Option String → String → String → Tables → Tables
  insert_principal username role station actor token db = record db {
    principals =
        db.principals
        ++ record {
          id = db.next_id;
          name = username;
          role_name = role;
          scope = station;
          token_sha = token_hash token;
          enabled = true;
          last_seen = none;
        }
          ∷ [];
    next_id = db.next_id + 1;
    audit_log =
        db.audit_log
        ++ record {
          actor = actor;
          entity_id = db.next_id;
          changed = "role";
          old_value = none;
          new_value = some role;
        }
          ∷ [];
  }

  -- `create_principal`, with the token drawn; the constraints of the table refuse a name or a hash that
  -- is there.
  unfoldable pub create_principal :
      String → String → Option String → String → String → Tables → Tables × Access String
  unfolding insert_principal is_unscoped has_name has_hash same_text
  create_principal username role station actor token db =
      if not (any_of (same_text role) roles)
      then (db, refused)
      else if same_text role "station" && is_unscoped station
      then (db, refused)
      else if any_of (has_name username) db.principals
          || any_of (has_hash (token_hash token)) db.principals
      then (db, failed)
      else (insert_principal username role station actor token db, granted token)

  -- `authenticate`, once the row is looked up.
  unfoldable pub admit_row : ℕ → Option PrincipalRow → Tables → Tables × Access Principal
  unfolding touch permissions_of
  admit_row now none db = (db, refused)
  admit_row now (some row) db = if not row.enabled then (db, refused) else (
    record db { principals = touch now row.name db.principals },
    granted (record {
      username = row.name;
      role = row.role_name;
      station = row.scope;
      permissions = permissions_of row.role_name db.role_permissions;
    }),
  )

  -- `authenticate`, at `now`.
  unfoldable pub authenticate : ℕ → String → Tables → Tables × Access Principal
  unfolding admit_row find_hash same_text
  authenticate now token db =
      if same_text token ""
      then (db, refused)
      else admit_row now (find_hash (token_hash token) db.principals) db

-- `require`
unfoldable pub require : Principal → String → Access Unit
unfolding may
require p permission = if may p permission then granted tt else refused

-- `revoke`
unfoldable pub revoke_row : String → String → Option PrincipalRow → Tables → Tables × Access Unit
unfolding disable
revoke_row username actor none db = (db, refused)
revoke_row username actor (some row) db = (
  record db {
    principals = disable username db.principals;
    audit_log =
        db.audit_log
        ++ record {
          actor = actor;
          entity_id = row.id;
          changed = "enabled";
          old_value = some "true";
          new_value = some "false";
        }
          ∷ [];
  },
  granted tt,
)

unfoldable pub revoke : String → String → Tables → Tables × Access Unit
unfolding revoke_row find_name
revoke username actor db = revoke_row username actor (find_name username db.principals) db

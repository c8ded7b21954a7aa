-- ===== src/Ops/Access/Tokens.antt =====
-- ops/access.py: what a token opens after `create_principal` and after `revoke`.
use Prim.Native.String.{String}
use text.Mathlib.TextEquality.{eq_iff}
use kpcl_hardware.Common.{
  ℕ, ◌≡◌, refl, sym, true, false, Bool, not, ◌&&◌, ◌||◌, Option, none, some, List, [], ◌∷◌, ◌++◌,
  if◌then◌else◌, any_of, arith, Bool-cases, inl, inr, if_elim,
}
use kpcl_hardware.Common.Text.{same_text}
use kpcl_hardware.Ops.Access.{
  Principal, PrincipalRow, Tables, Access, granted, refused, has_hash, has_name, find_hash,
  permissions_of, disable, find_name, is_unscoped, create_principal, insert_principal, admit_row,
  authenticate, revoke_row, revoke, roles,
}

own_hash : (row : PrincipalRow) → has_hash row.token_sha row ≡ true
unfolding has_hash same_text
own_hash row = (eq_iff row.token_sha row.token_sha).1 refl

find_hash-append :
    (sha : String) (rows : List PrincipalRow) (row : PrincipalRow)
    → any_of (has_hash sha) rows ≡ false
    → has_hash sha row ≡ true
    → find_hash sha (rows ++ row ∷ []) ≡ some row
unfolding find_hash
find_hash-append sha [] row h k = rw k refl
find_hash-append sha (r ∷ rows) row h k = elim (Bool-cases (has_hash sha r)) [
  | inl e ↦ cc
  | inr e ↦ rw e (find_hash-append sha rows row (rw e at h) k)
]

abbrev revoked_row : String → PrincipalRow → PrincipalRow
revoked_row name row = if has_name name row then record row { enabled = false } else row

abbrev revoked_option : String → Option PrincipalRow → Option PrincipalRow
revoked_option name none = none
revoked_option name (some row) = some (revoked_row name row)

find_hash-disable :
    (sha name : String) (rows : List PrincipalRow)
    → find_hash sha (disable name rows) ≡ revoked_option name (find_hash sha rows)
unfolding find_hash disable has_hash
find_hash-disable sha name [] = refl
find_hash-disable sha name (r ∷ rows) = elim (Bool-cases (has_name name r)) [
  | inl e ↦ elim (Bool-cases (has_hash sha r)) [
    | inl f ↦ rw (e, f, e) refl
    | inr f ↦ rw (e, f) (find_hash-disable sha name rows)
  ]
  | inr e ↦ elim (Bool-cases (has_hash sha r)) [
    | inl f ↦ rw (e, f, e) refl
    | inr f ↦ rw (e, f) (find_hash-disable sha name rows)
  ]
]

both_refused : {A : Type 0} (b : Bool) (r : Access A) → (if b then r else r) ≡ r
both_refused true r = refl
both_refused false r = refl

-- Whose token it is.
unfoldable pub belongs : String → Option PrincipalRow → Bool
unfolding has_name
belongs name none = false
belongs name (some row) = has_name name row

module _ (token_hash : String → String) where
  abbrev opened : PrincipalRow → Tables → Principal
  opened row db = record {
    username = row.name;
    role = row.role_name;
    station = row.scope;
    permissions = permissions_of row.role_name db.role_permissions;
  }

  authenticate-found :
      (now : ℕ) (token : String) (db : Tables) (row : PrincipalRow)
      → same_text token "" ≡ false
      → find_hash (token_hash token) db.principals ≡ some row
      → row.enabled ≡ true
      → (authenticate token_hash now token db).1 ≡ granted (opened row db)
  unfolding authenticate admit_row
  authenticate-found now token db row k f e = rw (k, f, e) refl

  admit_row-revoked :
      (now : ℕ) (name : String) (o : Option PrincipalRow) (db after : Tables)
      → after.role_permissions ≡ db.role_permissions
      → (admit_row token_hash now (revoked_option name o) after).1
        ≡ (if belongs name o then refused else (admit_row token_hash now o db).1)
  unfolding admit_row belongs
  admit_row-revoked now name none db after p = refl
  admit_row-revoked now name (some row) db after p = elim (Bool-cases (has_name name row)) [
    | inl e ↦ rw e refl
    | inr e ↦ elim (Bool-cases row.enabled) [ inl f ↦ rw (e, f, p) refl | inr f ↦ rw (e, f) refl ]
  ]

  abbrev Opens :
      String → String → Option String → ℕ → String → Tables → Tables × Access String → Type 0
  Opens username role station now token db r =
      r.1 ≡ granted token
      → (authenticate token_hash now token r.0).1
        ≡ granted (record {
          username = username;
          role = role;
          station = station;
          permissions = permissions_of role db.role_permissions;
        })

  inserted_opens :
      (username role actor token : String) (station : Option String) (now : ℕ) (db : Tables)
      → (any_of (has_name username) db.principals
          || any_of (has_hash (token_hash token)) db.principals)
        ≡ false
      → same_text token "" ≡ false
      → (authenticate token_hash now token
          (insert_principal token_hash username role station actor token db)).1
        ≡ granted (record {
          username = username;
          role = role;
          station = station;
          permissions = permissions_of role db.role_permissions;
        })
  unfolding insert_principal
  inserted_opens username role actor token station now db d k =
      let fresh : any_of (has_hash (token_hash token)) db.principals ≡ false = ground arith in
      let row : PrincipalRow = record {
        id = db.next_id;
        name = username;
        role_name = role;
        scope = station;
        token_sha = token_hash token;
        enabled = true;
        last_seen = none;
      } in
      authenticate-found now token _ row k
        (find_hash-append (token_hash token) db.principals row fresh (own_hash row)) refl

  -- A token that `create_principal` returns opens, if it is not empty, exactly the principal that was
  -- created, with its role, its station and the permissions of the role, whatever the tables held.
  pub create_principal-authenticate :
      (username role actor token : String) (station : Option String) (now : ℕ) (db : Tables)
      → (create_principal token_hash username role station actor token db).1 ≡ granted token
      → same_text token "" ≡ false
      → (authenticate token_hash now token
          (create_principal token_hash username role station actor token db).0).1
        ≡ granted (record {
          username = username;
          role = role;
          station = station;
          permissions = permissions_of role db.role_permissions;
        })
  unfolding create_principal
  create_principal-authenticate username role actor token station now db h k =
      if_elim (Opens username role station now token db) (not (any_of (same_text role) roles))
        (λ e g. cc)
        (λ e.
          if_elim (Opens username role station now token db)
            (same_text role "station" && is_unscoped station) (λ f g. cc)
            (λ f.
              if_elim (Opens username role station now token db)
                (any_of (has_name username) db.principals
                  || any_of (has_hash (token_hash token)) db.principals)
                (λ d g. cc) (λ d g. inserted_opens username role actor token station now db d k)))
        h

  -- After a successful `revoke` of a name, a token is refused if the row that its hash finds has that
  -- name, and otherwise opens exactly what it opened before.
  pub revoke-authenticate :
      (username actor token : String) (now : ℕ) (db : Tables)
      → (revoke username actor db).1 ≡ granted tt
      → (authenticate token_hash now token (revoke username actor db).0).1 ≡ (
          if belongs username (find_hash (token_hash token) db.principals)
          then refused
          else (authenticate token_hash now token db).1)
  unfolding revoke authenticate revoke_row
  revoke-authenticate username actor token now db h = by_row (find_name username db.principals) h
    where
      by_row :
          (o : Option PrincipalRow)
          → (revoke_row username actor o db).1 ≡ granted tt
          → (authenticate token_hash now token (revoke_row username actor o db).0).1 ≡ (
              if belongs username (find_hash (token_hash token) db.principals)
              then refused
              else (authenticate token_hash now token db).1)
      by_row none g = cc
      by_row (some row) g = elim (Bool-cases (same_text token "")) [
        | inl e ↦ rw e (
            sym (
              both_refused (belongs username (find_hash (token_hash token) db.principals)) refused))
        | inr e ↦
            rw (e, find_hash-disable (token_hash token) username db.principals)
              (admit_row-revoked now username (find_hash (token_hash token) db.principals) db _
                refl)
      ]

-- ===== src/Ops/Access/Tests.antt =====
-- Runs of the access control on small tables. A token stands for its own hash.
use Prim.Native.String.{String}
use kpcl_hardware.Common.{◌≡◌, refl, true, false, if◌then◌else◌, none, some, [], ◌∷◌}
use kpcl_hardware.Common.Text.{same_text}
use kpcl_hardware.Ops.Access.{
  PrincipalRow, Tables, granted, refused, find_hash, permissions_of, create_principal, authenticate,
  revoke, may_see_station,
}
use kpcl_hardware.Ops.Access.Tokens.{belongs, create_principal-authenticate, revoke-authenticate}

abbrev plain : String → String
plain token = token

abbrev asha : PrincipalRow
asha = record {
  id = 1;
  name = "asha";
  role_name = "station";
  scope = some "RTPS";
  token_sha = "t1";
  enabled = true;
  last_seen = none;
}

abbrev tables : Tables
tables = record {
  principals = asha ∷ [];
  next_id = 2;
  role_permissions = ("station", "read") ∷ ("admin", "read") ∷ ("admin", "configure") ∷ [];
  audit_log = [];
}

created : (create_principal plain "ravi" "admin" none "asha" "t2" tables).1 ≡ granted "t2"
unfolding create_principal
created = refl

create_principal-authenticate_example :
    (authenticate plain 50 "t2" (create_principal plain "ravi" "admin" none "asha" "t2" tables).0).1
    ≡ granted (record {
      username = "ravi";
      role = "admin";
      station = none;
      permissions = permissions_of "admin" tables.role_permissions;
    })
unfolding same_text
create_principal-authenticate_example =
    create_principal-authenticate plain "ravi" "admin" "asha" "t2" none 50 tables created refl

revoked : (revoke "asha" "ravi" tables).1 ≡ granted tt
unfolding revoke
revoked = refl

revoke-authenticate_example : (authenticate plain 60 "t1" (revoke "asha" "ravi" tables).0).1 ≡ (
    if belongs "asha" (find_hash "t1" tables.principals)
    then refused
    else (authenticate plain 60 "t1" tables).1)
revoke-authenticate_example = revoke-authenticate plain "asha" "ravi" "t1" 60 tables revoked

-- What has no station is not shown to a station principal.
unmapped_hidden :
    may_see_station
      (record { username = "asha"; role = "station"; station = some "RTPS"; permissions = [] })
      none
    ≡ false
unfolding may_see_station
unmapped_hidden = refl

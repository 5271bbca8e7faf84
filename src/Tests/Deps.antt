-- ===== src/Tests/Deps.antt =====
-- Runs of fastapi_m8/_deps.py.
use fastapi_m.Base.{
  ℕ, suc, String, ◌≡◌, ◌⊎◌, refl, true, ◌&&◌, Option, none, some, [], leb, string_eq,
}
use fastapi_m.Base.Dict.{lookup, set}
use fastapi_m.Base.Exec.{ok, raise}
use fastapi_m.Http.{codes}
use fastapi_m.InternalAuth.{headers, invalidate}
use fastapi_m.Revocation.Cache.{RevocationCache, put, is_superseded}
use fastapi_m.Revocation.Client.{
  RevocationClient, is_revoked, check_issuer, query_status, send_status, post_status, retry_status,
  judge, decide,
}
use fastapi_m.Revocation.Client.Frame.{with_cache}
use fastapi_m.ApiKey.Breaker.{allows_call, record_success}
use fastapi_m.ApiKey.Client.{
  Issuer, inactive, read_chunks, receive, transmit, send, accept, read_reply, read_body, interpret,
  send_in_slot, admit, ask_issuer, introspect,
}
use fastapi_m.Deps.{HttpException}
use fastapi_m.Deps as Deps
use fastapi_m.Deps.Jwt.{
  UserModel, Sdk, validate_access_token, check_token_revocation, check_active, build_active_user,
  authenticate, get_current_user_fresh, check_role, require_role, check_superuser,
  get_current_active_admin, get_current_active_superuser,
}
use fastapi_m.Deps.Jwt.Laws.{Admitted, require_role-Admitted}
use fastapi_m.Deps.Jwt.Guards.{outcome, require_role-outcome}
use fastapi_m.Deps.Keys.{
  KeyPolicy, role_dependency, invalid_api_key, denial_of, known, get_current_api_key_principal,
  check_capability, require_api_key_role,
}
use fastapi_m.Deps.Keys.Laws.{Vouched, principal-denied, require_api_key_role-Vouched}
use fastapi_m.Deps.Stream.{AuthStreamEvent, PayloadReader, handle_auth_event}
use fastapi_m.Deps.Stream.Laws.{ClientIsValid, handle_auth_event-Keeps}
use fastapi_m.Tests.Data.{net, cache, client, cache-IsValid}
use fastapi_m.Tests.Keys as Keys

program : Unit {0}
unfolding validate_access_token check_token_revocation check_active build_active_user authenticate
    get_current_user_fresh check_role require_role check_superuser get_current_active_admin
    get_current_active_superuser is_revoked check_issuer query_status send_status post_status
    retry_status judge decide headers put is_superseded set lookup
program = tt

keys : Unit {0}
unfolding denial_of known get_current_api_key_principal check_capability require_api_key_role
    introspect ask_issuer admit send_in_slot send transmit receive read_chunks interpret read_body
    read_reply accept headers invalidate allows_call record_success
keys = tt

abbrev ann : UserModel ℕ
ann = record { id = "ann"; role = 4; is_superuser = true; is_active = true }

-- the roles are their ranks, as in the table of `AuthDeps`: reader 1, writer 2, admin 3, superadmin 4
abbrev sdk : Sdk ℕ ℕ (Unit {0})
sdk = record {
  validate = λ token w. (some (record { jti = "new"; sub = "ann"; claims = tt }), suc w);
  user_model = λ id claims. some ann;
  has_minimum_role = λ role required. leb required role;
  has_superuser_privileges = λ role flag. leb 4 role && flag;
  reader = 1;
  writer = 2;
  admin = 3;
}

abbrev left : Option RevocationClient × ℕ
left = (some (record client { cache = some (put 7 cache "new" "ann" 3) }), 8)

admin_passes : require_role net sdk 3 "token" (some client, 5) ≡ (ok ann, left)
unfolding program
admin_passes = refl

require_role-Admitted_example : Admitted net sdk "token" true (some client) 5 ann × (leb 3 4 ≡ true)
require_role-Admitted_example =
    require_role-Admitted net sdk 3 "token" (some client) 5 ann left admin_passes

abbrev other_cache : RevocationCache
other_cache = record cache { store = [] }

require_role-outcome_example :
    outcome (require_role net sdk 2 "token" (some (with_cache (some cache) none client), 5))
    ≡ outcome (require_role net sdk 2 "token" (some (with_cache (some other_cache) none client), 5))
require_role-outcome_example =
    require_role-outcome net sdk cache other_cache none none refl 2 "token" client 5

superuser_passes : get_current_active_superuser net sdk "token" (some client, 5) ≡ (ok ann, left)
unfolding program
superuser_passes = refl

abbrev policy : KeyPolicy ℕ ℕ
policy = record {
  has_capability = λ principal role. leb role 2;
  validate_required_role = λ role. leb role 2;
  reader = 1;
  writer = 2;
}

writer_built : require_api_key_role Keys.issuer policy 2 ≡ ok (role_dependency Keys.issuer policy 2)
unfolding keys
writer_built = refl

writer_passes :
    role_dependency Keys.issuer policy 2 (some "key") (Keys.client, 5) ≡ (ok 7, (Keys.client, 6))
unfolding keys
writer_passes = refl

require_api_key_role-Vouched_example :
    (leb 2 2 ≡ true)
    × (leb 2 2 ≡ true)
    × (presented : String) × (some "key" ≡ some presented)
    × Vouched Keys.issuer policy presented Keys.client 5 (some 7)
require_api_key_role-Vouched_example =
    require_api_key_role-Vouched Keys.issuer policy 2 (role_dependency Keys.issuer policy 2)
      (some "key") Keys.client 5 7 (Keys.client, 6) writer_built writer_passes

abbrev denying : Issuer ℕ ℕ
denying = record Keys.issuer { read_reply = λ payload. some inactive }

key_denied :
    get_current_api_key_principal denying policy (some "key") (Keys.client, 5)
    ≡ (raise (Deps.http invalid_api_key), (Keys.client, 6))
unfolding keys
key_denied = refl

abbrev shown : Option String
shown = some "key"

principal-denied_example :
    ((shown ≡ none) ⊎ (shown ≡ some ""))
    ⊎ ((presented : String) × (shown ≡ some presented)
        × Vouched denying policy presented Keys.client 5 none)
principal-denied_example =
    principal-denied denying policy (some "key") Keys.client 5 invalid_api_key (Keys.client, 6)
      key_denied refl

abbrev reader : PayloadReader (Option String)
reader = record { session_revoked = λ payload. none; user_id = λ payload. payload }

abbrev deleted : AuthStreamEvent (Option String)
deleted = record { event_type = codes "user-deleted"; payload = some "ann" }

handle_auth_event-Keeps_example :
    (client' : Option RevocationClient) × (handle_auth_event reader (some client) deleted
      ≡ some client')
    × ClientIsValid client'
handle_auth_event-Keeps_example = handle_auth_event-Keeps reader (some client) deleted cache-IsValid

-- ===== src/Api/Access.antt =====
-- Who may call what: `_validate_token`, `_extract_token`, `require_admin` and `revoke_token` of
-- api/auth.py, and `logout` of api/main.py.
pub mod Admin
use getarp.Base.Exec.{Result, ok, raise, ◌>>=◌}
use getarp.Base.Dict.{Dict, get}
use getarp.Base.{
  ℕ, String, ◌==◌, Bool, true, false, ◌||◌, ◌&&◌, not, Option, none, some, List, [], ◌∷◌, elem,
  or_else, if◌then◌else◌,
}

-- the claims of a token whose signature and expiry `jwt.decode` accepted; `""` where there is none
pub record Claims : Type 0 where
  pub sub : String
  pub jti : String
  pub csrf : String

-- the tables `users` (the roles) and `revoked_tokens`
pub record Accounts : Type 0 where
  pub roles : Dict String
  pub revoked : List String

-- what a request carries; a text that is missing is `""`
pub record Request : Type 0 where
  pub cookie : String
  pub bearer : Option String
  pub method : String
  pub csrf_header : String

pub record User : Type 0 where
  pub username : String
  pub role : String
  pub jti : String
  pub csrf : String

pub data HttpError : Type 0 where
  unauthorized forbidden : HttpError

-- `_extract_token`; `bearer` is what follows `Bearer ` in the header, if it begins so
unfoldable pub extract_token : Request → Result HttpError String
extract_token r =
    if r.cookie == ""
    then elim r.bearer [ some t ↦ ok t | none ↦ raise unauthorized ]
    else ok r.cookie

abbrev pub user_of : Claims → Option String → Result HttpError User
user_of c none = raise unauthorized
user_of c (some role) = ok (record { username = c.sub; role = role; jti = c.jti; csrf = c.csrf })

-- `_validate_token`, of the claims
unfoldable pub validate : Accounts → Option Claims → Result HttpError User
validate db none = raise unauthorized
validate db (some c) =
    if c.sub == ""
    then raise unauthorized
    else if not (c.jti == "") && elem c.jti db.revoked
    then raise unauthorized
    else user_of c (get db.roles c.sub)

-- `current_user`; `decode` is `jwt.decode`, `none` where it raises
unfoldable pub current_user : (String → Option Claims) → Accounts → Request → Result HttpError User
current_user decode db r = extract_token r >>= λ t. validate db (decode t)

abbrev pub changes_state : Request → Bool
changes_state r = r.method == "POST" || r.method == "PUT" || r.method == "DELETE"

-- the checks of `require_admin` on the user
unfoldable pub check_admin : Request → User → Result HttpError User
check_admin r u =
    if not (u.role == "admin")
    then raise forbidden
    else if changes_state r && (r.csrf_header == "" || not (r.csrf_header == u.csrf))
    then raise forbidden
    else ok u

-- `require_admin`
unfoldable pub require_admin : (String → Option Claims) → Accounts → Request → Result HttpError User
require_admin decode db r = current_user decode db r >>= check_admin r

-- `revoke_token`, ON CONFLICT DO NOTHING
unfoldable pub revoke_token : String → Accounts → Accounts
revoke_token jti db = if elem jti db.revoked then db else record db { revoked = jti ∷ db.revoked }

-- `logout`, of the current user
unfoldable pub logout : User → Accounts → Accounts
logout u db = if u.jti == "" then db else revoke_token u.jti db

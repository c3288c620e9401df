-- ===== src/Api/Access/Admin.antt =====
-- What an accepted admin request has shown, and what a logout ends.
use getarp.Base.Exec.{Result, ok, raise, >>=-eq-ok, ok-injective}
use getarp.Base.Dict.{get}
use getarp.Base.{
  String, ◌==◌, eq_iff, str_refl, Bool, true, false, ◌||◌, ◌&&◌, not, Option, none, some, elem, ◌≡◌,
  ◌⊎◌, inl, inr, refl, sym, ap, ◌∙◌, arith, if◌then◌else◌,
}
use getarp.Api.Access.{
  Claims, Accounts, Request, User, HttpError, unauthorized, forbidden, extract_token, user_of,
  validate, current_user, changes_state, check_admin, require_admin, revoke_token, logout,
}

-- the token is signed and not expired, it is not revoked, and the user table knows its subject as an
-- admin; a request that changes state brings the token's own CSRF value
pub record Entitled (decode : String → Option Claims) (db : Accounts) (r : Request) (u : User)
    (c : Claims) (t : String) : Type 0 where
  pub token : extract_token r ≡ ok t
  pub signed : decode t ≡ some c
  pub standing : ((c.jti == "") ≡ true) ⊎ (elem c.jti db.revoked ≡ false)
  pub admin : get db.roles c.sub ≡ some "admin"
  pub own_csrf : (changes_state r ≡ false) ⊎ (r.csrf_header ≡ c.csrf)
  pub named : u ≡ record { username = c.sub; role = "admin"; jti = c.jti; csrf = c.csrf }

user_of-ok :
    (c : Claims) (o : Option String) (u : User)
    → user_of c o ≡ ok u
    → (o ≡ some u.role)
      × (u ≡ record { username = c.sub; role = u.role; jti = c.jti; csrf = c.csrf })
user_of-ok c none u h = cc
user_of-ok c (some role) u h =
    let e = sym (ok-injective h) in
    let q = ap (λ v. v.role) e in
    (
      ap some (sym q),
      e ∙ ap (λ x. record { username = c.sub; role = x; jti = c.jti; csrf = c.csrf }) (sym q),
    )

-- a refusal under a test that leads to success
unless :
    {A : Type 0} (b : Bool) (e : HttpError) (m : Result HttpError A) (a : A)
    → (if b then raise e else m) ≡ ok a
    → (b ≡ false) × (m ≡ ok a)
unless true e m a h = cc
unless false e m a h = (refl, h)

validate-ok :
    (db : Accounts) (o : Option Claims) (u : User)
    → validate db o ≡ ok u
    → (c : Claims) × (o ≡ some c)
      × (((c.jti == "") ≡ true) ⊎ (elem c.jti db.revoked ≡ false))
      × (get db.roles c.sub ≡ some u.role)
      × (u ≡ record { username = c.sub; role = u.role; jti = c.jti; csrf = c.csrf })
unfolding validate
validate-ok db none u h = cc
validate-ok db (some c) u h =
    let (named, h1) = unless (c.sub == "") unauthorized _ u h in
    let (fresh, h2) = unless (not (c.jti == "") && elem c.jti db.revoked) unauthorized _ u h1 in
    let (role, whole) = user_of-ok c (get db.roles c.sub) u h2 in
    (c, refl, ground arith, role, whole)

check_admin-ok :
    (r : Request) (v u : User)
    → check_admin r v ≡ ok u
    → (v ≡ u) × (v.role ≡ "admin") × ((changes_state r ≡ false) ⊎ (r.csrf_header ≡ v.csrf))
unfolding check_admin
check_admin-ok r v u h =
    let (admin, h1) = unless (not (v.role == "admin")) forbidden _ u h in
    let (csrf, h2) =
      unless (changes_state r && (r.csrf_header == "" || not (r.csrf_header == v.csrf))) forbidden _
        u h1 in
    (
      ok-injective h2,
      (eq_iff v.role "admin").0 (ground arith),
      ground (arith, eq_iff r.csrf_header v.csrf),
    )

-- A request that `require_admin` lets through carries a token that is signed, not expired and not
-- revoked; the user table, and not the token, names its subject an admin; and a POST, PUT or DELETE
-- repeats the CSRF value of that token in its header.
pub require_admin-Entitled :
    (decode : String → Option Claims) (db : Accounts) (r : Request) (u : User)
    → require_admin decode db r ≡ ok u
    → (c : Claims) × (t : String) × Entitled decode db r u c t
unfolding require_admin current_user
require_admin-Entitled decode db r u h =
    let (v, hv, hu) = >>=-eq-ok (current_user decode db r) (check_admin r) h in
    let (t, ht, hw) = >>=-eq-ok (extract_token r) (λ t. validate db (decode t)) hv in
    let (c, hc, standing, role, whole) = validate-ok db (decode t) v hw in
    let (same, admin, csrf) = check_admin-ok r v u hu in
    (
      c,
      t,
      record {
        token = ht;
        signed = hc;
        standing = standing;
        admin = role ∙ ap some admin;
        own_csrf = elim csrf [ inl q ↦ inl q | inr q ↦ inr (q ∙ ap (λ w. w.csrf) whole) ];
        named =
            sym same
            ∙ whole
            ∙ ap (λ x. record { username = c.sub; role = x; jti = c.jti; csrf = c.csrf }) admin;
      },
    )

either : (b : Bool) (e : Result HttpError User) → (if b then e else e) ≡ e
either true e = refl
either false e = refl

revoked_now : (jti : String) (db : Accounts) → elem jti (revoke_token jti db).revoked ≡ true
unfolding revoke_token
revoked_now jti db = ground (arith, str_refl jti)

-- After a logout no request with a token of that id is let through, whatever its other claims and
-- whoever its subject, if the token had an id.
pub logout-current_user :
    (decode : String → Option Claims) (db : Accounts) (u : User) (r : Request) (t : String)
    (c : Claims)
    → (u.jti == "") ≡ false
    → extract_token r ≡ ok t
    → decode t ≡ some c
    → c.jti ≡ u.jti
    → current_user decode (logout u db) r ≡ raise unauthorized
unfolding current_user validate logout
logout-current_user decode db u r t c id ht hc same =
    rw (ht, hc, same, id, revoked_now u.jti db) (either (c.sub == "") (raise unauthorized))

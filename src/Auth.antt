-- ===== src/Auth.antt =====
-- practice-core/src/modules/auth (role.ts, auth.types.ts, auth.guard.ts, roles.guard.ts) and
-- modules/attempt/attempt-ownership.ts and attempt-ownership.guard.ts. `JwtService.verify` is the
-- parameter `verify`: none stands for a call that throws.
pub mod Access
mod Tests
use skillfyme_hands_on.Base.{
  ℕ, ◌⊎◌, inl, inr, Bool, true, false, not, ◌&&◌, Option, none, some, List, [], ◌∷◌, ◌==◌,
  if◌then◌else◌, any, find, Text, same_text, strip_prefix,
}
use skillfyme_hands_on.Store.Rows.{Attempt, World}
use skillfyme_hands_on.Store.Repository.{find_by_id}

pub data Role : Type 0 where
  learner author admin : Role

abbrev pub role_value : Role → Text
role_value learner = b'l' ∷ b'e' ∷ b'a' ∷ b'r' ∷ b'n' ∷ b'e' ∷ b'r' ∷ []
role_value author = b'a' ∷ b'u' ∷ b't' ∷ b'h' ∷ b'o' ∷ b'r' ∷ []
role_value admin = b'a' ∷ b'd' ∷ b'm' ∷ b'i' ∷ b'n' ∷ []

abbrev role_values : List Role
role_values = learner ∷ author ∷ admin ∷ []

-- `isRole`: the role that a text is, if it is one.
unfoldable pub is_role : Text → Option Role
is_role value = find (λ r. same_text (role_value r) value) role_values

abbrev pub same_role : Role → Role → Bool
same_role r q = same_text (role_value r) (role_value q)

pub record AuthClaims : Type 0 where
  pub user_id : ℕ
  pub tenant_id : ℕ
  pub role : Role

-- What a token says; none is a claim that is missing or empty.
pub record TokenClaims : Type 0 where
  pub user_id : Option ℕ
  pub tenant_id : Option ℕ
  pub role : Option Text

-- The exceptions of the guards.
pub data Refusal : Type 0 where
  missing_bearer_token invalid_or_expired_token insufficient_role not_the_callers : Refusal

abbrev bearer : Text
bearer = b'B' ∷ b'e' ∷ b'a' ∷ b'r' ∷ b'e' ∷ b'r' ∷ b' ' ∷ []

-- The claims of a request; none where one is missing or the role is unknown.
unfoldable pub claims_of : TokenClaims → Option AuthClaims
unfolding is_role
claims_of c = elim c.user_id [
  | none ↦ none
  | some user ↦ elim c.tenant_id [
    | none ↦ none
    | some tenant ↦ elim c.role [
      | none ↦ none
      | some value ↦ elim (is_role value) [
        | none ↦ none
        | some r ↦ some (record { user_id = user; tenant_id = tenant; role = r })
      ]
    ]
  ]
]

-- What an exception inside `try` becomes.
abbrev or_invalid : Option AuthClaims → Option AuthClaims ⊎ Refusal
or_invalid none = inr invalid_or_expired_token
or_invalid (some c) = inl (some c)

module _ (verify : Text → Option TokenClaims) where
  -- `AuthGuard`: what becomes of `req.auth`.
  unfoldable pub auth_guard : Bool → Option Text → Option AuthClaims ⊎ Refusal
  unfolding claims_of
  auth_guard true header = inl none
  auth_guard false none = inr missing_bearer_token
  auth_guard false (some header) = elim (strip_prefix bearer header) [
    | none ↦ inr missing_bearer_token
    | some token ↦ elim (verify token) [
      | none ↦ inr invalid_or_expired_token
      | some c ↦ or_invalid (claims_of c)
    ]
  ]

-- `RolesGuard`
unfoldable pub roles_guard : Option (List Role) → Option AuthClaims → Option Refusal
roles_guard none auth = none
roles_guard (some []) auth = none
roles_guard (some (r ∷ rs)) none = some insufficient_role
roles_guard (some (r ∷ rs)) (some c) =
    if any (λ q. same_role q c.role) (r ∷ rs) then none else some insufficient_role

unfoldable pub is_owned_by_caller : Option Attempt → Option AuthClaims → Bool
is_owned_by_caller none caller = false
is_owned_by_caller (some a) none = false
is_owned_by_caller (some a) (some c) = (a.user_id == c.user_id) && (a.tenant_id == c.tenant_id)

-- `AttemptOwnershipGuard`; the id is none where the route's parameter is no single text.
unfoldable pub ownership_guard : Option ℕ → Option AuthClaims → World → Option Refusal
ownership_guard none auth w = some not_the_callers
ownership_guard (some id) auth w =
    if is_owned_by_caller (find_by_id id w) auth then none else some not_the_callers

-- ===== src/Auth/Codes.antt =====
-- The codes of crates/domain/src/auth.rs and lib.rs, in which the columns hold them.
use bikenest.Base.{◌≡◌, refl, Option, none, some, if◌then◌else◌, [], ◌∷◌, leb, ◌&&◌, ◌+◌}
use bikenest.Base.Text.{Text, codes, text_eq, trim, trim_start, trim_end, is_whitespace}
use bikenest.Auth.{
  AccountState, pending_email_verification, active, suspended, deleted, Role, user, moderator,
  admin, AuthenticationProvider, password, google, LocaleCode, pt_br, en,
}

unfoldable pub state_code : AccountState → Text
state_code pending_email_verification = codes "PENDING_EMAIL_VERIFICATION"
state_code active = codes "ACTIVE"
state_code suspended = codes "SUSPENDED"
state_code deleted = codes "DELETED"

unfoldable pub state_from_code : Text → Option AccountState
state_from_code c =
    if text_eq c (codes "PENDING_EMAIL_VERIFICATION")
    then some pending_email_verification
    else (if text_eq c (codes "ACTIVE")
        then some active
        else (if text_eq c (codes "SUSPENDED")
            then some suspended
            else (if text_eq c (codes "DELETED") then some deleted else none)))

unfoldable pub role_code : Role → Text
role_code user = codes "USER"
role_code moderator = codes "MODERATOR"
role_code admin = codes "ADMIN"

unfoldable pub role_from_code : Text → Option Role
role_from_code c =
    if text_eq c (codes "USER")
    then some user
    else (if text_eq c (codes "MODERATOR")
        then some moderator
        else (if text_eq c (codes "ADMIN") then some admin else none))

unfoldable pub provider_code : AuthenticationProvider → Text
provider_code password = codes "password"
provider_code google = codes "google"

unfoldable pub provider_from_code : Text → Option AuthenticationProvider
provider_from_code c =
    if text_eq c (codes "password")
    then some password
    else (if text_eq c (codes "google") then some google else none)

unfoldable pub locale_code : LocaleCode → Text
locale_code pt_br = codes "pt-BR"
locale_code en = codes "en"

-- `to_ascii_lowercase`.
unfoldable pub ascii_lowercase : Text → Text
ascii_lowercase [] = []
ascii_lowercase (c ∷ s) = (if leb 65 c && leb c 90 then c + 32 else c) ∷ ascii_lowercase s

-- The `match` of `LocaleCode::parse`.
unfoldable pub locale_named : Text → Option LocaleCode
locale_named t =
    if text_eq t (codes "pt-br")
    then some pt_br
    else (if text_eq t (codes "pt")
        then some pt_br
        else (if text_eq t (codes "en") then some en else none))

unfoldable pub locale_parse : Text → Option LocaleCode
unfolding locale_named ascii_lowercase trim
locale_parse raw = locale_named (ascii_lowercase (trim raw))

state_from_code-state_code : (s : AccountState) → state_from_code (state_code s) ≡ some s
unfolding state_from_code state_code text_eq
state_from_code-state_code pending_email_verification = refl
state_from_code-state_code active = refl
state_from_code-state_code suspended = refl
state_from_code-state_code deleted = refl

role_from_code-role_code : (r : Role) → role_from_code (role_code r) ≡ some r
unfolding role_from_code role_code text_eq
role_from_code-role_code user = refl
role_from_code-role_code moderator = refl
role_from_code-role_code admin = refl

provider_from_code-provider_code :
    (p : AuthenticationProvider) → provider_from_code (provider_code p) ≡ some p
unfolding provider_from_code provider_code text_eq
provider_from_code-provider_code password = refl
provider_from_code-provider_code google = refl

locale_parse-locale_code : (l : LocaleCode) → locale_parse (locale_code l) ≡ some l
unfolding locale_parse locale_named ascii_lowercase locale_code text_eq trim trim_start trim_end
    is_whitespace
locale_parse-locale_code pt_br = refl
locale_parse-locale_code en = refl

-- Each code is parsed back to what it stands for.
pub from_code-code :
    ((s : AccountState) → state_from_code (state_code s) ≡ some s)
    × ((r : Role) → role_from_code (role_code r) ≡ some r)
    × ((p : AuthenticationProvider) → provider_from_code (provider_code p) ≡ some p)
    × ((l : LocaleCode) → locale_parse (locale_code l) ≡ some l)
from_code-code = (
  state_from_code-state_code, role_from_code-role_code, provider_from_code-provider_code,
  locale_parse-locale_code,
)

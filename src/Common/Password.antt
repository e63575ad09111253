-- ===== src/Common/Password.antt =====
-- internal/common/password.go: reading and checking the password of the encryption at rest. What
-- the terminal gives is a parameter.
pub mod Strength
use Prim.Native.Char.{Char, code}
use Prim.Native.String.{len, ◌∷◌ as ◌∷ˢ◌, ◌++◌ as ◌++ˢ◌, [] as empty}
use dknet.Base.{
  ℕ, String, Bool, true, false, not, List, [], ◌∷◌, ◌++◌, Result, ok, err, Error, errorf, str, ltb,
  leb, ◌==◌, ◌==ℕ◌, ◌&&◌, ◌||◌, if◌then◌else◌, wrapping,
}
use dknet.P2p.Network.{then_do}

-- c >= low && c <= high
abbrev pub within : ℕ → ℕ → Char → Bool
within low high c = leb low (code c) && leb (code c) high

-- strings.ContainsRune
unfoldable pub contains_rune : String → Char → Bool
contains_rune empty c = false
contains_rune (x ∷ˢ s) c = code x ==ℕ code c || contains_rune s c

-- the four variables of the loop
pub record Classes : Type 0 where
  pub has_upper : Bool
  pub has_lower : Bool
  pub has_digit : Bool
  pub has_special : Bool

abbrev pub is_upper : Char → Bool
is_upper = within b'A' b'Z'

abbrev pub is_lower : Char → Bool
is_lower = within b'a' b'z'

abbrev pub is_digit : Char → Bool
is_digit = within b'0' b'9'

abbrev pub specials : String
specials = "!@#$%^&*()_+-=[]{}|;:,.<>?"

-- one round of the loop
unfoldable pub classify : Classes → Char → Classes
classify k c =
    if is_upper c
    then record k { has_upper = true }
    else if is_lower c
    then record k { has_lower = true }
    else if is_digit c
    then record k { has_digit = true }
    else if contains_rune specials c
    then record k { has_special = true }
    else k

-- the loop
unfoldable pub scan : Classes → String → Classes
scan k empty = k
scan k (c ∷ˢ s) = scan (classify k c) s

abbrev pub no_classes : Classes
no_classes = record { has_upper = false; has_lower = false; has_digit = false; has_special = false }

abbrev pub unless : Bool → String → List String
unless true name = []
unless false name = name ∷ []

-- the names of the classes that do not occur
unfoldable pub missing : Classes → List String
missing k =
    unless k.has_upper "uppercase letter"
    ++ unless k.has_lower "lowercase letter"
    ++ unless k.has_digit "digit"
    ++ unless k.has_special "special character"

-- strings.Join(names, ", ")
unfoldable pub join : List String → String
join [] = ""
join (name ∷ []) = name
join (name ∷ other ∷ names) = name ++ˢ ", " ++ˢ join (other ∷ names)

abbrev pub check_missing : List String → Result (Unit {0})
check_missing [] = ok tt
check_missing (name ∷ names) =
    err (errorf "password must contain at least one: %s" (str (join (name ∷ names)) ∷ []))

-- validatePassword
unfoldable pub validate_password : String → Result (Unit {0})
unfolding scan missing
validate_password password =
    if ltb (len password) 8
    then err (errorf "password must be at least 8 characters long" [])
    else check_missing (missing (scan no_classes password))

-- unicode.IsSpace
unfoldable pub is_space : Char → Bool
is_space c =
    within 9 13 c
    || code c ==ℕ 32
    || code c ==ℕ 133
    || code c ==ℕ 160
    || code c ==ℕ 5760
    || within 8192 8202 c
    || code c ==ℕ 8232
    || code c ==ℕ 8233
    || code c ==ℕ 8239
    || code c ==ℕ 8287
    || code c ==ℕ 12288

-- strings.TrimSpace, from the left and from the right
unfoldable pub trim_left : String → String
trim_left empty = empty
trim_left (c ∷ˢ s) = let rest = trim_left s in if is_space c then rest else c ∷ˢ s

unfoldable pub trim_right : String → String
trim_right empty = empty
trim_right (c ∷ˢ s) =
    let rest = trim_right s in if (rest == "") && is_space c then empty else c ∷ˢ rest

-- readPassword, from the text that the terminal or the standard input gives; the two differ in how
-- they read it only
unfoldable pub read_password_from : Result String → Result String
unfolding trim_left trim_right
read_password_from line = then_do (wrapping "failed to read password" line) (λ text.
    let password = trim_right (trim_left text) in
    if password == "" then err (errorf "password cannot be empty" []) else ok password)

-- readPasswordWithConfirmation, from the two texts that are read
unfoldable pub read_password_with_confirmation : Result String → Result String → Result String
unfolding read_password_from
read_password_with_confirmation first second = then_do (read_password_from first) (λ password.
    if ltb (len password) 8
    then err (errorf "password must be at least 8 characters long" [])
    else then_do (read_password_from second) (λ confirmation.
      if password == confirmation then ok password else err (errorf "passwords do not match" [])))

-- readPasswordFromEnv; `variable` is TSS_ENCRYPTION_PASSWORD, "" if it is not set
unfoldable pub read_password_from_env : String → Result String
read_password_from_env variable =
    if variable == ""
    then err (errorf "TSS_ENCRYPTION_PASSWORD environment variable not set" [])
    else ok variable

abbrev pub validated : String → Result String
validated password = then_do (validate_password password) (λ _. ok password)

-- ReadPassword: from the environment, or else from the terminal
unfoldable pub read_password : String → Result String → Result String → Result String
read_password variable first second = elim (read_password_from_env variable) [
  | ok password ↦ validated password
  | _ ↦ then_do (read_password_with_confirmation first second) validated
]

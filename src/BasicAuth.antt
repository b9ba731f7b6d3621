-- ===== src/BasicAuth.antt =====
-- internal/basicauth/basicauth.go: which usernames, hashes and passwords are accepted. bcrypt is a
-- parameter of the modules that hash. A `Text` is always valid UTF-8.
use obacht_agent.Base.{ℕ, Bool, not, ◌&&◌, ◌||◌, length, any, ltb, leb, ◌==◌, nat_eq}
use obacht_agent.Base.Result.{Result, ok, guard, ◌>>◌}
use obacht_agent.Base.Text.{Text, byte_len}
use obacht_agent.Base.Regex.{Regex, cls, seq, upto, accepts}

pub data CredentialError : Type 0 where
  bad_username password_short password_long control_character : CredentialError

abbrev pub is_alnum : ℕ → Bool
is_alnum c = leb b'A' c && leb c b'Z' || leb b'a' c && leb c b'z' || leb b'0' c && leb c b'9'

-- [A-Za-z0-9._@-]
abbrev pub is_user_char : ℕ → Bool
is_user_char c = is_alnum c || c == b'.' || c == b'_' || c == b'@' || c == b'-'

-- `userRe`
abbrev pub user_re : Regex
user_re = seq (cls is_user_char) (upto 63 (cls is_user_char))

abbrev pub min_password_len : ℕ
min_password_len = 8

-- in bytes
abbrev pub max_password_bytes : ℕ
max_password_bytes = 72

unfoldable pub valid_username : Text → Bool
valid_username u = accepts user_re u

abbrev pub is_control : ℕ → Bool
is_control c = ltb c 0x20 || c == 0x7f

unfoldable pub validate_credentials : Text → Text → Result CredentialError (Unit {0})
validate_credentials username password = do
  guard (valid_username username) bad_username
  guard (not (ltb (length password) min_password_len)) password_short
  guard (not (ltb max_password_bytes (byte_len password))) password_long
  guard (not (any is_control password)) control_character
  ok tt

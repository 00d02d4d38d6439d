-- ===== src/Auth/Password.antt =====
-- `isHexStr`, `IsSHA256Hex`, `IsSaltHex` and `VerifyPassword` of internal/auth/auth.go.
pub mod Contract
use lambs_server.Base.{
  ℕ, ◌≡◌, refl, Bool, true, false, not, ◌&&◌, ◌||◌, String, List, [], ◌∷◌, ◌++◌, leb, all,
  if◌then◌else◌, ◌==◌, nat_eq,
}
use lambs_server.Base.Text.{Text, byte_len, codes}
use lambs_server.Auth.Model.{Crypto}

is_hex_digit : ℕ → Bool
is_hex_digit c = leb b'0' c && leb c b'9' || leb b'a' c && leb c b'f'

unfoldable pub is_hex_str : Text → ℕ → Bool
unfolding is_hex_digit all
is_hex_str s n = byte_len s == n && all is_hex_digit s

unfoldable pub is_sha256_hex : Text → Bool
unfolding is_hex_str
is_sha256_hex s = is_hex_str s 64

unfoldable pub is_salt_hex : Text → Bool
unfolding is_hex_str
is_salt_hex s = is_hex_str s 32

-- The pair (ok, legacy).
unfoldable pub verify_password : Crypto → String → Text → Text → Bool × Bool
verify_password c stored payload salt =
    if c.compares stored payload
    then (true, false)
    else if c.compares stored (c.sha256_hex (payload ++ salt))
    then (true, true)
    else (false, false)

-- What is stored for a new password: the client's digest as it is, and a plaintext wrapped once with
-- the salt.
unfoldable pub wrap : Crypto → Text → Text → Text
wrap c password salt = if is_sha256_hex password then password else c.sha256_hex (password ++ salt)

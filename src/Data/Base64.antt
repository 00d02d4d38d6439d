-- ===== src/Data/Base64.antt =====
-- `base64.StdEncoding` and `url.QueryUnescape` of Go's library, which internal/handlers/thumb.go
-- reads and writes images with. A string is the list of its bytes.
pub mod RoundTrip
use lambs_server.Base.{
  ℕ, ◌+◌, ◌-◌, ◌*◌, ◌/◌, ◌%◌, ◌≡◌, refl, Bool, true, false, not, ◌&&◌, ◌||◌, Option, none, some,
  List, [], ◌∷◌, filter, ltb, leb, if◌then◌else◌, ◌==◌, nat_eq, text_eq,
}
use lambs_server.Base.Text.{Text, codes}

-- The character of six bits.
unfoldable pub symbol : ℕ → ℕ
symbol n =
    if ltb n 26
    then n + 65
    else if ltb n 52
    then n + 71
    else if ltb n 62
    then n - 4
    else if n == 62
    then b'+'
    else b'/'

-- The six bits of a character.
unfoldable pub sextet : ℕ → Option ℕ
sextet c =
    if leb b'A' c && leb c b'Z'
    then some (c - 65)
    else if leb b'a' c && leb c b'z'
    then some (c - 71)
    else if leb b'0' c && leb c b'9'
    then some (c + 4)
    else if c == b'+'
    then some 62
    else if c == b'/'
    then some 63
    else none

-- `EncodeToString`
unfoldable pub encode : List ℕ → Text
unfolding symbol
encode [] = []
encode (a ∷ []) = symbol (a / 4) ∷ symbol (a % 4 * 16) ∷ b'=' ∷ b'=' ∷ []
encode (a ∷ b ∷ []) =
    symbol (a / 4) ∷ symbol (a % 4 * 16 + b / 16) ∷ symbol (b % 16 * 4) ∷ b'=' ∷ []
encode (a ∷ b ∷ c ∷ rest) =
    symbol (a / 4)
    ∷ symbol (a % 4 * 16 + b / 16)
    ∷ symbol (b % 16 * 4 + c / 64)
    ∷ symbol (c % 64)
    ∷ encode rest

abbrev one_byte : Option ℕ → Option ℕ → Option (List ℕ)
one_byte (some u) (some v) = some ((u * 4 + v / 16) ∷ [])
one_byte _ _ = none

abbrev two_bytes : Option ℕ → Option ℕ → Option ℕ → Option (List ℕ)
two_bytes (some u) (some v) (some w) = some ((u * 4 + v / 16) ∷ (v % 16 * 16 + w / 4) ∷ [])
two_bytes _ _ _ = none

abbrev three_bytes : Option ℕ → Option ℕ → Option ℕ → Option ℕ → Option (List ℕ) → Option (List ℕ)
three_bytes (some u) (some v) (some w) (some x) (some rest) =
    some ((u * 4 + v / 16) ∷ (v % 16 * 16 + w / 4) ∷ (w % 4 * 64 + x) ∷ rest)
three_bytes _ _ _ _ _ = none

-- Four characters at a time; padding ends the text.
unfoldable pub decode_quads : Text → Option (List ℕ)
unfolding sextet
decode_quads [] = some []
decode_quads (a ∷ b ∷ c ∷ d ∷ rest) =
    let more = decode_quads rest in
    if c == b'='
    then (if d == b'=' && rest == [] then one_byte (sextet a) (sextet b) else none)
    else if d == b'='
    then (if rest == [] then two_bytes (sextet a) (sextet b) (sextet c) else none)
    else three_bytes (sextet a) (sextet b) (sextet c) (sextet d) more
decode_quads _ = none

-- `DecodeString`, which passes over line breaks.
unfoldable pub decode : Text → Option (List ℕ)
unfolding decode_quads
decode s = decode_quads (filter (λ c. not (c == 10 || c == 13)) s)

hex : ℕ → Option ℕ
hex c =
    if leb b'0' c && leb c b'9'
    then some (c - 48)
    else if leb b'a' c && leb c b'f'
    then some (c - 87)
    else if leb b'A' c && leb c b'F'
    then some (c - 55)
    else none

abbrev escaped : Option ℕ → Option ℕ → Option (List ℕ) → Option (List ℕ)
escaped (some u) (some v) (some rest) = some ((u * 16 + v) ∷ rest)
escaped _ _ _ = none

abbrev prepend : ℕ → Option (List ℕ) → Option (List ℕ)
prepend c none = none
prepend c (some s) = some (c ∷ s)

-- `url.QueryUnescape`
unfoldable pub query_unescape : Text → Option (List ℕ)
unfolding hex
query_unescape [] = some []
query_unescape (a ∷ b ∷ c ∷ rest) =
    let behind = query_unescape rest in
    let more = query_unescape (b ∷ c ∷ rest) in
    if a == b'%' then escaped (hex b) (hex c) behind else prepend (if a == b'+' then 32 else a) more
query_unescape (a ∷ b ∷ []) =
    let more = query_unescape (b ∷ []) in
    if a == b'%' then none else prepend (if a == b'+' then 32 else a) more
query_unescape (a ∷ []) = if a == b'%' then none else some ((if a == b'+' then 32 else a) ∷ [])

encode_tests : (encode (codes "Man") ≡ codes "TWFu") × (encode (codes "Ma") ≡ codes "TWE=")
unfolding encode
encode_tests = (refl, refl)

decode_tests :
    (decode (codes "TWE=") ≡ some (codes "Ma"))
    × (decode (codes "TQ==") ≡ some (codes "M"))
    × (decode (codes "TQ=") ≡ none)
    × (decode (codes "TW-u") ≡ none)
unfolding decode filter lambs_server.Base.text_beq
decode_tests = (refl, refl, refl, refl)

query_unescape_tests :
    (query_unescape (codes "a%20b+c") ≡ some (codes "a b c"))
    × (query_unescape (codes "a%2") ≡ none)
unfolding query_unescape
query_unescape_tests = (refl, refl)

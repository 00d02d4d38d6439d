-- ===== src/Auth/Limiter/Client.antt =====
-- internal/auth/ratelimit.go: the address that a request counts for. `split_host_port` is
-- net.SplitHostPort, with none for an error.
use mathlib.Core.List.{map}
use lambs_server.Base.{
  ◌≡◌, refl, false, not, ◌&&◌, Option, none, some, List, [], ◌∷◌, ◌++◌, contains, filter,
  if◌then◌else◌, ◌==◌, nat_eq, text_eq, text_beq, arith,
}
use lambs_server.Base.Text.{Text, codes, split, trim_space, last_or, last-split}

-- The addresses of `trustedProxies`, with the value of LAMBS_TRUSTED_PROXIES.
unfoldable pub trusted_proxies : (configured : Text) → List Text
trusted_proxies configured =
    codes "127.0.0.1"
    ∷ codes "::1"
    ∷ filter (λ p. not (p == [])) (map trim_space (split b',' configured))

host_or : Option Text → Text → Text
host_or none remote = remote
host_or (some host) remote = host

-- The address of the peer itself.
unfoldable pub peer : (split_host_port : Text → Option Text) → (remote : Text) → Text
unfolding host_or
peer split_host_port remote = host_or (split_host_port remote) remote

-- `xff` is the header X-Forwarded-For, empty if there is none.
unfoldable pub client_ip :
    (split_host_port : Text → Option Text) → (trusted : List Text) → (remote xff : Text) → Text
client_ip split_host_port trusted remote xff =
    let host = peer split_host_port remote in
    let forwarded = trim_space (last_or [] (split b',' xff)) in
    if contains trusted host && not (xff == [])
    then (if not (forwarded == []) then forwarded else host)
    else host

not_empty : (a b : Text) → ((a ++ b',' ∷ b) == []) ≡ false
unfolding text_beq
not_empty [] b = refl
not_empty (c ∷ a) b = refl

-- Whatever a client writes into X-Forwarded-For, it does not choose the address that it counts for:
-- behind a trusted proxy, which appends the address that it saw, that address counts, unless it is
-- blank; otherwise the address of the peer counts.
pub client_ip-forged :
    (split_host_port : Text → Option Text) (trusted : List Text) (remote forged seen : Text)
    → contains seen b',' ≡ false
    → client_ip split_host_port trusted remote (forged ++ b',' ∷ seen) ≡ (
        if contains trusted (peer split_host_port remote) && not (trim_space seen == [])
        then trim_space seen
        else peer split_host_port remote)
unfolding client_ip
client_ip-forged split_host_port trusted remote forged seen plain =
    rw (last-split b',' forged seen plain, not_empty forged seen) (ground arith)

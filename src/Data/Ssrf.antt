-- ===== src/Data/Ssrf.antt =====
-- internal/db/ssrf_guard.go: which hosts a datasource may name. The resolver, the tests of net.IP,
-- url.Parse, net.SplitHostPort and the regular expression keywordHostRe are parameters.
pub mod Public
use mathlib.Core.List.{map}
use lambs_server.Base.{
  ℕ, Bool, true, false, not, ◌&&◌, ◌||◌, Option, none, some, List, [], ◌∷◌, ◌++◌, any,
  if◌then◌else◌, ◌==◌, nat_eq, text_eq,
}
use lambs_server.Base.Text.{Text, codes, cut, cut_text, split, has_prefix, trim_space}

-- What url.Parse finds: the host name, and the values of "host" and "hostaddr" in the query, each
-- empty if there is none.
pub record Url : Type 0 where
  pub hostname : Text
  pub host : Text
  pub hostaddr : Text

-- The library's part, for a type of addresses. `look_up` is none for a name that does not resolve;
-- `is_ula` is the test of the first byte for an address that is not IPv4; `strip_brackets` and
-- `strip_quotes` are strings.Trim; `keyword_hosts` are the second groups of the matches.
pub record Net (Ip : Type 0) : Type 0 where
  pub lower : ℕ → ℕ
  pub look_up : Text → Option (List Ip)
  pub is_loopback : Ip → Bool
  pub is_link_local_unicast : Ip → Bool
  pub is_link_local_multicast : Ip → Bool
  pub is_unspecified : Ip → Bool
  pub is_private : Ip → Bool
  pub is_ula : Ip → Bool
  pub parse_url : Text → Option Url
  pub split_host_port : Text → Option Text
  pub keyword_hosts : Text → List Text
  pub strip_brackets : Text → Text
  pub strip_quotes : Text → Text

abbrev pub url_schemes : List Text
url_schemes =
    codes "http"
    ∷ codes "mongo"
    ∷ codes "mysql"
    ∷ codes "redis"
    ∷ codes "postgres"
    ∷ codes "qdrant"
    ∷ codes "mssql"
    ∷ []

hostname_of : Option Url → Text
hostname_of none = []
hostname_of (some u) = u.hostname

-- `if h != ""`
given_host : Text → List Text
given_host h = if h == [] then [] else h ∷ []

-- The hosts in the query, which are looked at only where the URL has a host name.
unfoldable pub query_hosts : Option Url → List Text
unfolding given_host
query_hosts none = []
query_hosts (some u) = if u.hostname == [] then [] else given_host u.host ++ given_host u.hostaddr

head_or : List Text → Text
head_or [] = []
head_or (w ∷ ws) = w

-- What stands between "tcp(" and the next ")" that is not the first character, up to a colon.
before_paren : Option (Text × Text) → Text
before_paren none = []
before_paren (some ([], after)) = []
before_paren (some (c ∷ before, after)) = head_or (split b':' (c ∷ before))

tcp_host_in : Option (Text × Text) → Text
unfolding before_paren head_or
tcp_host_in none = []
tcp_host_in (some (before, rest)) = before_paren (cut b')' rest)

unfoldable pub tcp_host : Text → Text
unfolding tcp_host_in
tcp_host dsn = tcp_host_in (cut_text (codes "tcp(") dsn)

or_host : Option Text → Text
or_host none = []
or_host (some h) = h

drop_empty : List Text → List Text
drop_empty [] = []
drop_empty (h ∷ hs) = let rest = drop_empty hs in if h == [] then rest else h ∷ rest

abbrev append_all : List (List Text) → List Text
append_all [] = []
append_all (l ∷ ls) = l ++ append_all ls

module _ {Ip : Type 0} (net : Net Ip) where
  unfoldable pub is_refused : Ip → Bool
  is_refused ip =
      not (net.is_loopback ip)
      && (net.is_link_local_unicast ip
          || (net.is_link_local_multicast ip
              || (net.is_unspecified ip || (net.is_private ip || net.is_ula ip))))

  public_addresses : Option (List Ip) → Option (List Ip)
  public_addresses none = none
  public_addresses (some ips) = if any is_refused ips then none else some ips

  pinned_name : Text → Text
  pinned_name host = if host == codes "localhost" then codes "127.0.0.1" else host

  -- none is an error.
  unfoldable pub resolve_public_hosts : Text → Option (List Ip)
  unfolding public_addresses pinned_name
  resolve_public_hosts host = public_addresses (net.look_up (pinned_name (net.strip_brackets host)))

  is_some : Option (List Ip) → Bool
  is_some none = false
  is_some (some ips) = true

  unfoldable pub check_host_public : Text → Bool
  unfolding is_some
  check_host_public host = is_some (resolve_public_hosts host)

  unfoldable pub check_all : List Text → Bool
  check_all [] = true
  check_all (h ∷ hs) = let rest = check_all hs in if not (check_host_public h) then false else rest

  -- The host that the three forms before the keyword form give, empty if none does.
  unfoldable pub dsn_host : (dsn : Text) → (url : Option Url) → Text
  unfolding hostname_of or_host tcp_host
  dsn_host dsn url =
      if not (hostname_of url == [])
      then hostname_of url
      else if not (tcp_host dsn == [])
      then tcp_host dsn
      else or_host (net.split_host_port dsn)

  -- The URL, for the schemes that are read as one.
  unfoldable pub dsn_url : Text → Option Url
  dsn_url dsn = if any (has_prefix dsn) url_schemes then net.parse_url dsn else none

  unfoldable pub keyword_list : Text → List Text
  unfolding drop_empty
  keyword_list dsn = drop_empty (
      map trim_space
        (append_all (map (λ v. split b',' (net.strip_quotes v)) (net.keyword_hosts dsn))))

  check_lowered : Text → Bool
  unfolding query_hosts dsn_url dsn_host keyword_list
  check_lowered dsn =
      if not (check_all (query_hosts (dsn_url dsn)))
      then false
      else if dsn_host dsn (dsn_url dsn) == []
      then check_all (keyword_list dsn)
      else check_host_public (dsn_host dsn (dsn_url dsn))

  -- true is no error.
  unfoldable pub check_dsn_host : Text → Bool
  unfolding check_lowered
  check_dsn_host raw =
      let dsn = map net.lower raw in
      if dsn == [] || (dsn == codes "—" || has_prefix dsn (codes "sqlite"))
      then true
      else check_lowered dsn

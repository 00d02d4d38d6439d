-- ===== src/Data/Ssrf/Public.antt =====
-- What a datasource that passes the guard may name.
use mathlib.Core.List.{map}
use lambs_server.Base.{
  ◌≡◌, ◌↔◌, ◌⊎◌, refl, sym, ◌∙◌, subst, inl, inr, Bool, true, false, not, ◌&&◌, ◌||◌, Option, none,
  some, List, [], ◌∷◌, ◌++◌, any, filter, All, if◌then◌else◌, ◌==◌, text_eq, text_beq, arith,
  Bool-cases,
}
use lambs_server.Base.Text.{Text, codes, has_prefix, split, trim_space}
use lambs_server.Data.Ssrf.{
  Net, Url, append_all, drop_empty, tcp_host, hostname_of, or_host, given_host, query_hosts,
  is_refused, public_addresses, pinned_name, resolve_public_hosts, is_some, check_host_public,
  check_all, dsn_host, dsn_url, keyword_list, check_lowered, check_dsn_host,
}

both : (a b : Bool) → (if not a then false else b) ≡ true → (a ≡ true) × (b ≡ true)
both true b e = (refl, e)
both false b e = cc

abbrev pub given : List Text → List Text
given hs = filter (λ h. not (h == [])) hs

abbrev pub or_next : List Text → List Text → List Text
or_next [] next = next
or_next (h ∷ hs) next = h ∷ hs

drop_empty-eq-given : (hs : List Text) → drop_empty hs ≡ given hs
unfolding drop_empty filter
drop_empty-eq-given [] = refl
drop_empty-eq-given (h ∷ hs) = ground (arith, drop_empty-eq-given hs)

module _ {Ip : Type 0} (net : Net Ip) where
  -- A loopback address, or one that is in none of the five other classes.
  abbrev pub IsAllowed : Ip → Type 0
  IsAllowed ip =
      (net.is_loopback ip ≡ true)
      ⊎ ((net.is_link_local_unicast ip ≡ false)
          × (net.is_link_local_multicast ip ≡ false)
          × (net.is_unspecified ip ≡ false)
          × (net.is_private ip ≡ false)
          × (net.is_ula ip ≡ false))

  -- The name that is looked up for a host.
  abbrev pub name_of : Text → Text
  name_of host =
      if net.strip_brackets host == codes "localhost"
      then codes "127.0.0.1"
      else net.strip_brackets host

  -- The resolver answers for the host, and every address of its answer is allowed.
  abbrev pub IsPublic : Text → Type 0
  IsPublic host = (ips : List Ip) × (net.look_up (name_of host) ≡ some ips) × All IsAllowed ips

  -- The hosts in a URL with a host name: those of its query, and that name.
  abbrev pub url_hosts : Option Url → List Text
  url_hosts none = []
  url_hosts (some u) =
      if u.hostname == [] then [] else given (u.host ∷ u.hostaddr ∷ u.hostname ∷ [])

  -- The host before a port.
  abbrev pub port_hosts : Option Text → List Text
  port_hosts none = []
  port_hosts (some h) = given (h ∷ [])

  -- The hosts of the keyword form, at its commas.
  abbrev pub keyword_hosts_of : Text → List Text
  keyword_hosts_of dsn = given (
      map trim_space
        (append_all (map (λ v. split b',' (net.strip_quotes v)) (net.keyword_hosts dsn))))

  -- The hosts of the first form that gives one.
  unfoldable lowered_hosts : Text → List Text
  lowered_hosts dsn = or_next (url_hosts (dsn_url net dsn)) (
      or_next (given (tcp_host dsn ∷ []))
        (or_next (port_hosts (net.split_host_port dsn)) (keyword_hosts_of dsn)))

  -- The hosts that a DSN names: none for the empty one, a dash or a local file.
  unfoldable pub named_hosts : Text → List Text
  unfolding lowered_hosts
  named_hosts raw =
      let dsn = map net.lower raw in
      if dsn == [] || (dsn == codes "—" || has_prefix dsn (codes "sqlite"))
      then []
      else lowered_hosts dsn

  allowed : (ip : Ip) → is_refused net ip ≡ false → IsAllowed ip
  unfolding is_refused
  allowed ip e = elim (Bool-cases (net.is_loopback ip)) [
    | inl own ↦ inl own
    | inr away ↦ inr (ground (arith, e, away))
  ]

  not_refused : (ip : Ip) → IsAllowed ip → is_refused net ip ≡ false
  unfolding is_refused
  not_refused ip (inl own) = rw own refl
  not_refused ip (inr (a, b, c, d, e)) = ground (arith, a, b, c, d, e)

  All-allowed : (ips : List Ip) → any (is_refused net) ips ≡ false → All IsAllowed ips
  unfolding any
  All-allowed [] e = tt
  All-allowed (ip ∷ ips) e = (allowed ip (ground (arith, e)), All-allowed ips (ground (arith, e)))

  none_refused : (ips : List Ip) → All IsAllowed ips → any (is_refused net) ips ≡ false
  unfolding any
  none_refused [] h = refl
  none_refused (ip ∷ ips) h = rw (not_refused ip h.0, none_refused ips h.1) refl

  -- What the guard makes of the resolver's answer.
  judged_iff :
      (o : Option (List Ip))
      → (is_some net (public_addresses net o) ≡ true)
        ↔ ((ips : List Ip) × (o ≡ some ips) × All IsAllowed ips)
  unfolding public_addresses is_some
  judged_iff none = ((λ e. cc), (λ h. cc (h.1)))
  judged_iff (some found) = elim (Bool-cases (any (is_refused net) found)) [
    | inl bad ↦ (
      (λ e. cc (rw bad at e)),
      (λ h.
          let same : found ≡ h.0 = cc (h.1) in
          cc (none_refused found (subst (All IsAllowed) (sym same) h.2))),
    )
    | inr good ↦ ((λ e. (found, refl, All-allowed found good)), (λ h. rw good refl))
  ]

  check_host_public_iff : (host : Text) → (check_host_public net host ≡ true) ↔ IsPublic host
  unfolding check_host_public resolve_public_hosts pinned_name
  check_host_public_iff host = judged_iff (net.look_up (name_of host))

  check_all_iff : (hs : List Text) → (check_all net hs ≡ true) ↔ All IsPublic hs
  unfolding check_all
  check_all_iff [] = ((λ e. tt), (λ h. refl))
  check_all_iff (h ∷ hs) = (
    (λ e.
        let (first, rest) = both (check_host_public net h) (check_all net hs) e in
        ((check_host_public_iff h).0 first, (check_all_iff hs).0 rest)),
    (λ p. simp ((check_host_public_iff h).1 p.0, (check_all_iff hs).1 p.1) refl),
  )

  check_all-append :
      (hs ks : List Text) → check_all net (hs ++ ks) ≡ (check_all net hs && check_all net ks)
  unfolding check_all
  check_all-append [] ks = refl
  check_all-append (h ∷ hs) ks = ground (arith, check_all-append hs ks)

  check_keywords :
      (dsn : Text) → check_all net (keyword_list net dsn) ≡ check_all net (keyword_hosts_of dsn)
  unfolding keyword_list
  check_keywords dsn = rw (drop_empty-eq-given _) refl

  -- The chain of the forms for one host, as a list.
  check_chain :
      (name tcp port : Text) (rest : List Text)
      → (if (if not (name == []) then name else if not (tcp == []) then tcp else port) == []
          then check_all net rest
          else check_host_public net
              (if not (name == []) then name else if not (tcp == []) then tcp else port))
        ≡ check_all net (
            or_next
              (given (name ∷ []))
              (or_next (given (tcp ∷ [])) (or_next (given (port ∷ [])) rest)))
  unfolding check_all filter text_beq
  check_chain [] [] [] rest = refl
  check_chain [] [] (c ∷ port) rest = ground arith
  check_chain [] (c ∷ tcp) port rest = ground arith
  check_chain (c ∷ name) tcp port rest = ground arith

  check_query :
      (name host addr : Text) (next : List Text)
      → (name == []) ≡ false
      → (if not (check_all net (given_host host ++ given_host addr))
          then false
          else check_host_public net name)
        ≡ check_all net (or_next (given (host ∷ addr ∷ name ∷ [])) next)
  unfolding check_all filter text_beq given_host
  check_query [] host addr next e = cc
  check_query (c ∷ name) [] [] next e = ground arith
  check_query (c ∷ name) [] (d ∷ addr) next e = ground arith
  check_query (c ∷ name) (b ∷ host) [] next e = ground arith
  check_query (c ∷ name) (b ∷ host) (d ∷ addr) next e = ground arith

  ports_given : (o : Option Text) → port_hosts o ≡ given (or_host o ∷ [])
  unfolding or_host filter text_beq
  ports_given none = refl
  ports_given (some h) = refl

  -- Without a host name in a URL.
  check_plain :
      (dsn : Text)
      → (if (if not (tcp_host dsn == []) then tcp_host dsn else or_host (net.split_host_port dsn))
            == []
          then check_all net (keyword_list net dsn)
          else check_host_public net (
              if not (tcp_host dsn == []) then tcp_host dsn else or_host (net.split_host_port dsn)))
        ≡ check_all net (
            or_next
              (given (tcp_host dsn ∷ []))
              (or_next (port_hosts (net.split_host_port dsn)) (keyword_hosts_of dsn)))
  check_plain dsn =
      rw (check_keywords dsn, ports_given (net.split_host_port dsn))
        (unfold text_beq filter in
          check_chain [] (tcp_host dsn) (or_host (net.split_host_port dsn)) (keyword_hosts_of dsn))

  check_url :
      (dsn : Text) (o : Option Url)
      → dsn_url net dsn ≡ o
      → check_lowered net dsn ≡ check_all net (lowered_hosts dsn)
  check_url dsn none url =
      unfold check_lowered lowered_hosts query_hosts dsn_host hostname_of check_all text_beq in
      rw url (check_plain dsn)
  check_url dsn (some u) url = elim (Bool-cases (u.hostname == [])) [
    | inl bare ↦
        unfold check_lowered lowered_hosts query_hosts dsn_host hostname_of check_all in
        simp (url, bare) (check_plain dsn)
    | inr named ↦
        unfold check_lowered lowered_hosts query_hosts dsn_host hostname_of in
        simp (url, named) (check_query u.hostname u.host u.hostaddr _ named)
  ]

  check_lowered-eq-all : (dsn : Text) → check_lowered net dsn ≡ check_all net (lowered_hosts dsn)
  check_lowered-eq-all dsn = check_url dsn (dsn_url net dsn) refl

  -- A datasource passes the guard if and only if for every host that it names the resolver gives an
  -- answer whose addresses are each a loopback address, or no link-local, unspecified, private or
  -- unique local one; "localhost" is looked up as 127.0.0.1. The hosts, as the guard reads them, are those of the query of a URL with a host name, and that name; else the
  -- one in "tcp(…)", else the one before a port, else those of the keyword form.
  pub check_dsn_host_iff :
      (raw : Text) → (check_dsn_host net raw ≡ true) ↔ All IsPublic (named_hosts raw)
  check_dsn_host_iff raw =
      let dsn = map net.lower raw in
      elim (Bool-cases (dsn == [] || (dsn == codes "—" || has_prefix dsn (codes "sqlite")))) [
        | inl free ↦
            let passes : check_dsn_host net raw ≡ true = unfold check_dsn_host in simp free refl in
            let none' : named_hosts raw ≡ [] = unfold named_hosts in simp free refl in
            ((λ e. rw none' tt), (λ h. passes))
        | inr judged ↦
            let lowered : check_dsn_host net raw ≡ check_lowered net dsn =
              unfold check_dsn_host in simp judged refl in
            let same : check_dsn_host net raw ≡ check_all net (lowered_hosts dsn) =
              lowered ∙ check_lowered-eq-all dsn in
            let hosts : named_hosts raw ≡ lowered_hosts dsn =
              unfold named_hosts in simp judged refl in
            (
              (λ e. rw hosts ((check_all_iff (lowered_hosts dsn)).0 (sym same ∙ e))),
              (λ h. same ∙ (check_all_iff (lowered_hosts dsn)).1 (subst (All IsPublic) hosts h)),
            )
      ]

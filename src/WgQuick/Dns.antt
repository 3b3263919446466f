-- ===== src/WgQuick/Dns.antt =====
-- wg-quick/android.c: the name servers and the search domains of the interface.
pub mod Bounds
use router1_app.Prelude.{
  ℕ, ◌+◌, ◌-◌, ◌*◌, ◌^◌, Bool, true, false, ◌||◌, none, some, List, [], ◌∷◌, ◌++◌, ltb, ◌==◌,
  if◌then◌else◌, Bytes, codes, length, take, truthy,
}
use router1_app.Uapi.Print.{print_u}
use router1_app.WgQuick.Script.{World, Script, pure, exit, ◌>>=◌, ◌>>◌, concat, cndc}
use router1_app.WgQuick.Net.{strtok, strtok_loop, is_unsafe, delimiters}
use router1_app.WgQuick.Binder.{
  dnsresolver_get_handle, dnsresolver_create_network_cache, dnsresolver_set_resolver_configuration,
}

-- The two lists, and the two texts for a shell.
pub record Names : Type 0 where
  pub dns_list : List Bytes
  pub dns_search_list : List Bytes
  pub dns_shell_arglist : Bytes
  pub dns_search_shell_arglist : Bytes

abbrev pub no_names : Names
no_names = record {
  dns_list = [];
  dns_search_list = [];
  dns_shell_arglist = [];
  dns_search_shell_arglist = [];
}

abbrev pub regex_ipnothost : Bytes
regex_ipnothost = codes "(^[0-9.]+$)|(^.*:.*$)"

abbrev pub is_address : World → Bytes → Bool
is_address w dns = elim (w.regexec regex_ipnothost dns) [ none ↦ false | some found ↦ true ]

-- `snprintf(arg, len + 3, "'%s' ", dns)` and `strncat(list, arg, len * 4 - 1)`.
abbrev pub add_arg : ℕ → Bytes → Bytes → Bytes
add_arg len list dns =
    list ++ take (len * 4 - 1) (take (len + 2) (concat (codes "'" ∷ dns ∷ codes "' " ∷ [])))

unfoldable pub add_name : World → ℕ → Bytes → Names → Names
add_name w len dns n =
    if is_address w dns
    then record n {
      dns_list = n.dns_list ++ (dns ∷ []);
      dns_shell_arglist = add_arg len n.dns_shell_arglist dns;
    }
    else record n {
      dns_search_list = n.dns_search_list ++ (dns ∷ []);
      dns_search_shell_arglist = add_arg len n.dns_search_shell_arglist dns;
    }

unfoldable pub collect : World → ℕ → List Bytes → Names → Names
unfolding is_unsafe add_name
collect w len [] n = n
collect w len (dns ∷ more) n =
    collect w len more (if is_unsafe dns then n else add_name w len dns n)

-- These are default values observed in AOSP.
unfoldable pub set_through_binder : World → ℕ → Names → Script Unit
unfolding dnsresolver_create_network_cache dnsresolver_set_resolver_configuration
set_through_binder w netid n = do
  cached ← dnsresolver_create_network_cache w netid
  if truthy cached then exit 64 else pure tt
  configured ← dnsresolver_set_resolver_configuration w (record {
    netid = netid;
    sample_validity_seconds = 1800;
    success_threshold = 25;
    min_samples = 8;
    max_samples = 8;
    base_timeout_msec = 5000;
    retry_count = 2;
    servers = n.dns_list;
    domains = n.dns_search_list;
    tls_name = [];
    tls_servers = [];
    tls_fingerprints = [];
  })
  if truthy configured then exit 64 else pure tt

unfoldable pub set_through_ndc : World → ℕ → Names → Script Unit
unfolding cndc print_u
set_through_ndc w netid n = cndc w (
    concat (
      codes "resolver setnetdns "
      ∷ print_u netid
      ∷ codes " '"
      ∷ n.dns_search_shell_arglist
      ∷ codes "' "
      ∷ n.dns_shell_arglist
      ∷ []))

abbrev pub names_of : World → Bytes → Names
names_of w dnses = collect w (length dnses) (strtok delimiters dnses) no_names

unfoldable pub set_dnses : World → ℕ → Bytes → Script Unit
unfolding strtok_loop collect dnsresolver_get_handle set_through_binder set_through_ndc
set_dnses w netid dnses =
    let n = names_of w dnses in
    if ltb (2 ^ 16) (length dnses) || length dnses == 0 || length n.dns_list == 0
    then pure tt
    else if dnsresolver_get_handle w
    then set_through_binder w netid n
    else set_through_ndc w netid n

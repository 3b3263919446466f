-- ===== src/WgQuick/Steps.antt =====
-- wg-quick/android.c: no step of `up` changes the name for the clean-up or what was done before.
use router1_app.Prelude.{ℕ, Option, none, some, List, [], ◌∷◌, Bytes, ◌==◌, if◌then◌else◌, codes}
use router1_app.WgQuick.{Options}
use router1_app.WgQuick.Script.{World, Script, Fed, unopened, unwritten, closed, Call, pure, ◌>>◌}
use router1_app.WgQuick.Script.Keeps.{
  Keeps, keeps_rules, commands, Keeps-pure, Keeps-if, Keeps-bind,
}
use router1_app.WgQuick.Interface.Steps.{add_if-Keeps, determine_listen_port-Keeps, up_if-Keeps}
use router1_app.WgQuick.Users.{
  add_uid, read_tokens, read_packages, get_uid_list, Batch, finish_users, add_range, excluded_loop,
  included_loop, set_users, tokens,
}
use router1_app.WgQuick.Net.{
  add_addr, set_each_addr, set_addr, get_device_mtu, get_route_mtu, note_mtu, set_mtu, add_route,
  add_routes, line_routes, set_routes, is_unsafe,
}
use router1_app.Libc.{strcmp_eq}
use router1_app.WgQuick.Binder.{
  make_call, make_calls, dnsresolver_create_network_cache, dnsresolver_set_resolver_configuration,
  DnsresolverParams, and_then,
}
use router1_app.WgQuick.Dns.{set_through_binder, set_through_ndc, set_dnses, Names}
use router1_app.WgQuick.Main.{text_at, written, set_config, broadcast_change, bring_up, start}

module _ (w : World) where
  add_uid-Keeps :
      (slots : ℕ) (name : Bytes) (uid : ℕ) (tokens : List Bytes) (uids : List ℕ)
      → Keeps (add_uid slots name uid tokens uids)
  unfolding add_uid
  add_uid-Keeps slots name uid [] uids = search keeps_rules
  add_uid-Keeps slots name uid (token ∷ tokens) uids =
      search (keeps_rules, add_uid-Keeps slots name uid tokens)

  read_tokens-Keeps :
      (slots : ℕ) (name : Bytes) (uid : ℕ) (text : Bytes) (behind : List Bytes) (uids : List ℕ)
      → Keeps (read_tokens slots name uid text behind uids)
  unfolding read_tokens
  read_tokens-Keeps slots name uid [] behind uids = search keeps_rules
  read_tokens-Keeps slots name uid (c ∷ text) [] uids = search (keeps_rules, add_uid-Keeps)
  read_tokens-Keeps slots name uid (c ∷ text) (next ∷ behind) uids =
      search (keeps_rules, add_uid-Keeps, read_tokens-Keeps slots name uid next behind)

  read_packages-Keeps :
      (slots : ℕ) (selected : Bytes) (behind lines : List Bytes) (uids : List ℕ)
      → Keeps (read_packages slots selected behind lines uids)
  unfolding read_packages
  read_packages-Keeps slots selected behind [] uids = search keeps_rules
  read_packages-Keeps slots selected behind (line ∷ lines) uids =
      search (keeps_rules, read_tokens-Keeps, read_packages-Keeps slots selected behind lines)

  get_uid_list-Keeps : (selected : Option Bytes) → Keeps (get_uid_list w selected)
  unfolding get_uid_list
  get_uid_list-Keeps none = search keeps_rules
  get_uid_list-Keeps (some selected) = search (keeps_rules, read_packages-Keeps)

  finish_users-Keeps : (netid : ℕ) (b : Batch) → Keeps (finish_users w netid b)
  unfolding finish_users
  finish_users-Keeps netid b = search commands

  add_range-Keeps : (netid : ℕ) (range : Bytes) (b : Batch) → Keeps (add_range w netid range b)
  unfolding add_range
  add_range-Keeps netid range b = search (commands, finish_users-Keeps)

  excluded_loop-Keeps :
      (netid : ℕ) (uids : List ℕ) (start : ℕ) (b : Batch)
      → Keeps (excluded_loop w netid uids start b)
  unfolding excluded_loop
  excluded_loop-Keeps netid [] start b = search keeps_rules
  excluded_loop-Keeps netid (uid ∷ uids) start b =
      search (commands, finish_users-Keeps, add_range-Keeps, excluded_loop-Keeps netid uids)

  included_loop-Keeps :
      (netid : ℕ) (uids : List ℕ) (b : Batch) → Keeps (included_loop w netid uids b)
  unfolding included_loop
  included_loop-Keeps netid [] b = search keeps_rules
  included_loop-Keeps netid (uid ∷ uids) b =
      search (commands, finish_users-Keeps, add_range-Keeps, included_loop-Keeps netid uids)

  set_users-Keeps :
      (netid : ℕ) (excluded included : Option Bytes) → Keeps (set_users w netid excluded included)
  unfolding set_users
  set_users-Keeps netid (some a) (some b) = search keeps_rules
  set_users-Keeps netid none (some b) =
      search (keeps_rules, get_uid_list-Keeps, included_loop-Keeps)
  set_users-Keeps netid none none = search (keeps_rules, get_uid_list-Keeps, excluded_loop-Keeps)
  set_users-Keeps netid (some a) none =
      search (keeps_rules, get_uid_list-Keeps, excluded_loop-Keeps)

  add_addr-Keeps : (iface addr : Bytes) → Keeps (add_addr w iface addr)
  unfolding add_addr
  add_addr-Keeps iface addr = search commands

  set_each_addr-Keeps : (iface : Bytes) (addrs : List Bytes) → Keeps (set_each_addr w iface addrs)
  unfolding set_each_addr
  set_each_addr-Keeps iface [] = search keeps_rules
  set_each_addr-Keeps iface (addr ∷ addrs) =
      let later = set_each_addr-Keeps iface addrs in
      Keeps-if (is_unsafe addr) (set_each_addr w iface addrs)
        (add_addr w iface addr >> set_each_addr w iface addrs) later
        (Keeps-bind (add_addr w iface addr) (λ _. set_each_addr w iface addrs)
          (add_addr-Keeps iface addr) (λ _. later))

  set_addr-Keeps : (iface addrs : Bytes) → Keeps (set_addr w iface addrs)
  unfolding set_addr
  set_addr-Keeps iface addrs = search set_each_addr-Keeps

  get_device_mtu-Keeps : (route : Bytes) → Keeps (get_device_mtu w route)
  unfolding get_device_mtu
  get_device_mtu-Keeps route = search commands depth 8

  get_route_mtu-Keeps : (endpoint : Bytes) → Keeps (get_route_mtu w endpoint)
  unfolding get_route_mtu
  get_route_mtu-Keeps endpoint = search (commands, get_device_mtu-Keeps) depth 8

  note_mtu-Keeps : (n : ℕ) (endpoint : Bytes) → Keeps (note_mtu w n endpoint)
  unfolding note_mtu
  note_mtu-Keeps n endpoint = search (commands, get_route_mtu-Keeps)

  set_mtu-Keeps : (iface : Bytes) (size : ℕ) → Keeps (set_mtu w iface size)
  unfolding set_mtu
  set_mtu-Keeps iface size = search (commands, get_route_mtu-Keeps, note_mtu-Keeps) depth 8

  add_route-Keeps :
      (iface : Bytes) (netid : ℕ) (route : Bytes) → Keeps (add_route w iface netid route)
  unfolding add_route
  add_route-Keeps iface netid route = search commands

  add_routes-Keeps :
      (iface : Bytes) (netid : ℕ) (routes : List Bytes) → Keeps (add_routes w iface netid routes)
  unfolding add_routes
  add_routes-Keeps iface netid [] = search keeps_rules
  add_routes-Keeps iface netid (route ∷ routes) =
      let later = add_routes-Keeps iface netid routes in
      Keeps-if (strcmp_eq route (codes "(none)")) (add_routes w iface netid routes)
        (add_route w iface netid route >> add_routes w iface netid routes) later
        (Keeps-bind (add_route w iface netid route) (λ _. add_routes w iface netid routes)
          (add_route-Keeps iface netid route) (λ _. later))

  line_routes-Keeps :
      (iface : Bytes) (netid : ℕ) (u : Unit {0}) (line : Bytes)
      → Keeps (line_routes w iface netid u line)
  unfolding line_routes
  line_routes-Keeps iface netid u line = search (keeps_rules, add_routes-Keeps)

  set_routes-Keeps : (iface : Bytes) (netid : ℕ) → Keeps (set_routes w iface netid)
  unfolding set_routes
  set_routes-Keeps iface netid = search (commands, line_routes-Keeps)

  make_call-Keeps : (c : Call) → Keeps (make_call w c)
  unfolding make_call
  make_call-Keeps c = search keeps_rules

  make_calls-Keeps : (calls : List Call) → Keeps (make_calls w calls)
  unfolding make_calls
  make_calls-Keeps [] = search keeps_rules
  make_calls-Keeps (c ∷ calls) =
      Keeps-bind (make_call w c) (λ status. if status == 0 then make_calls w calls else pure status)
        (make_call-Keeps c)
        (λ status.
          Keeps-if (status == 0) (make_calls w calls) (pure status) (make_calls-Keeps calls)
            (Keeps-pure status))

  and_then-Keeps : (m k : Script ℕ) → Keeps m → Keeps k → Keeps (and_then m k)
  and_then-Keeps m k h j = search keeps_rules

  create_network_cache-Keeps : (netid : ℕ) → Keeps (dnsresolver_create_network_cache w netid)
  unfolding dnsresolver_create_network_cache
  create_network_cache-Keeps netid = search (keeps_rules, make_calls-Keeps)

  set_resolver_configuration-Keeps :
      (p : DnsresolverParams) → Keeps (dnsresolver_set_resolver_configuration w p)
  unfolding dnsresolver_set_resolver_configuration
  set_resolver_configuration-Keeps p = search (keeps_rules, make_calls-Keeps) depth 20

  set_through_binder-Keeps : (netid : ℕ) (n : Names) → Keeps (set_through_binder w netid n)
  unfolding set_through_binder
  set_through_binder-Keeps netid n =
      search (keeps_rules, create_network_cache-Keeps, set_resolver_configuration-Keeps) depth 10

  set_through_ndc-Keeps : (netid : ℕ) (n : Names) → Keeps (set_through_ndc w netid n)
  unfolding set_through_ndc
  set_through_ndc-Keeps netid n = search commands

  set_dnses-Keeps : (netid : ℕ) (dnses : Bytes) → Keeps (set_dnses w netid dnses)
  unfolding set_dnses
  set_dnses-Keeps netid dnses =
      search (keeps_rules, set_through_binder-Keeps, set_through_ndc-Keeps)

  text_at-Keeps : (text : Option Bytes) → Keeps (text_at text)
  unfolding text_at
  text_at-Keeps none = search keeps_rules
  text_at-Keeps (some text) = search keeps_rules

  written-Keeps : (outcome : Fed) → Keeps (written outcome)
  unfolding written
  written-Keeps (unopened e) = search keeps_rules
  written-Keeps (unwritten e) = search keeps_rules
  written-Keeps (closed ended) = search keeps_rules

  set_config-Keeps : (iface config : Bytes) → Keeps (set_config w iface config)
  unfolding set_config
  set_config-Keeps iface config = search (keeps_rules, written-Keeps)

  broadcast_change-Keeps : Keeps (broadcast_change w)
  unfolding broadcast_change
  broadcast_change-Keeps = search commands

  pub bring_up-Keeps : (fuel : ℕ) (iface : Bytes) (o : Options) → Keeps (bring_up w fuel iface o)
  unfolding bring_up
  bring_up-Keeps fuel iface o =
      search
        (
          keeps_rules, text_at-Keeps, add_if-Keeps, set_config-Keeps, determine_listen_port-Keeps,
          up_if-Keeps, set_addr-Keeps, set_dnses-Keeps, set_routes-Keeps, set_mtu-Keeps,
          set_users-Keeps, broadcast_change-Keeps,
        )
        depth 30

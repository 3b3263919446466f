-- ===== src/WgQuick/Net.antt =====
-- wg-quick/android.c: the addresses, the routes and the size of packets of the interface.
use router1_app.Prelude.{
  ℕ, ◌+◌, ◌%◌, ◌^◌, Bool, true, false, ◌&&◌, ◌||◌, Option, none, some, List, [], ◌∷◌, ◌++◌, ltb,
  ◌==◌, if◌then◌else◌, Bytes, codes, sub32, minus_one, truthy,
}
use router1_app.Libc.{split_first, strcmp_eq, atoi}
use router1_app.Uapi.Print.{print_u}
use router1_app.WgQuick.Script.{
  World, Script, pure, ◌>>=◌, ◌>>◌, concat, cmd, cmd_ret, each_line, cndc, on_option,
}

-- `strtok` on the whole text: the runs of characters that are no delimiter.
abbrev pub is_one_of : ℕ → Bytes → Bool
is_one_of c [] = false
is_one_of c (d ∷ delimiters) = c == d || is_one_of c delimiters

abbrev pub with_token : Bytes → List Bytes → List Bytes
with_token [] more = more
with_token (c ∷ token) more = (c ∷ token) ∷ more

-- `inside` is the token that the text goes on with.
unfoldable pub strtok_loop : Bytes → Bytes → Bytes → List Bytes
strtok_loop delimiters inside [] = with_token inside []
strtok_loop delimiters inside (c ∷ text) =
    let more = strtok_loop delimiters [] text in
    let longer = strtok_loop delimiters (inside ++ (c ∷ [])) text in
    if is_one_of c delimiters then with_token inside more else longer

abbrev pub strtok : Bytes → Bytes → List Bytes
strtok delimiters text = strtok_loop delimiters [] text

-- `strchr(text, '\'') || strchr(text, '\\')`.
unfoldable pub is_unsafe : Bytes → Bool
is_unsafe [] = false
is_unsafe (c ∷ text) = c == 39 || c == 92 || is_unsafe text

abbrev pub has_char : ℕ → Bytes → Bool
has_char c text = elim (split_first c text) [ none ↦ false | some parts ↦ true ]

abbrev pub setcfg : Bytes → Bytes → ℕ → Bytes
setcfg iface addr mask =
    concat (codes "interface setcfg " ∷ iface ∷ codes " '" ∷ addr ∷ codes "' " ∷ print_u mask ∷ [])

unfoldable pub add_addr : World → Bytes → Bytes → Script Unit
unfolding split_first cndc cmd print_u atoi
add_addr w iface addr =
    if has_char b':' addr
    then (cndc w (concat (codes "interface ipv6 " ∷ iface ∷ codes " enable" ∷ []))
        >> cmd w (concat (codes "ip -6 addr add '" ∷ addr ∷ codes "' dev " ∷ iface ∷ [])))
    else on_option (split_first b'/' addr) (cndc w (setcfg iface addr 32))
        (λ parts. cndc w (setcfg iface parts.0 (atoi parts.1 % 2 ^ 8)))

abbrev pub delimiters : Bytes
delimiters = codes ", \t\n"

unfoldable pub set_each_addr : World → Bytes → List Bytes → Script Unit
unfolding add_addr is_unsafe
set_each_addr w iface [] = pure tt
set_each_addr w iface (addr ∷ addrs) =
    let later = set_each_addr w iface addrs in
    if is_unsafe addr then later else (add_addr w iface addr >> later)

unfoldable pub set_addr : World → Bytes → Bytes → Script Unit
unfolding set_each_addr strtok_loop
set_addr w iface addrs = set_each_addr w iface (strtok delimiters addrs)

abbrev pub regex_mtu : Bytes
regex_mtu = codes "mtu ([0-9]+)"

abbrev pub regex_dev : Bytes
regex_dev = codes "dev ([^ ]+)"

abbrev pub mtu_in : World → Bytes → Option ℕ
mtu_in w route = elim (w.regexec regex_mtu route) [ none ↦ none | some found ↦ some (atoi found) ]

abbrev pub or_minus_one : Option ℕ → ℕ
or_minus_one none = minus_one
or_minus_one (some n) = n

-- The MTU of the device of a route.
unfoldable pub get_device_mtu : World → Bytes → Script ℕ
unfolding cmd_ret atoi
get_device_mtu w route = on_option (w.regexec regex_dev route) (pure minus_one) (λ dev. do
  link ← cmd_ret w (codes "ip -o link show dev " ++ dev)
  on_option link (pure minus_one) (λ text. pure (or_minus_one (mtu_in w text))))

unfoldable pub get_route_mtu : World → Bytes → Script ℕ
unfolding cmd_ret get_device_mtu atoi strcmp_eq
get_route_mtu w endpoint = do
  route ← cmd_ret w (
      codes
        (if strcmp_eq endpoint (codes "default") then "ip -o route show " else "ip -o route get ")
      ++ endpoint)
  on_option route (pure minus_one)
      (λ text. on_option (mtu_in w text) (get_device_mtu w text) (λ n. pure n))

abbrev pub regex_endpoint : Bytes
regex_endpoint = codes "^\\[?([a-z0-9:.]+)\\]?:[0-9]+$"

-- `next_mtu > 0 && next_mtu < endpoint_mtu` for numbers of type int.
abbrev pub int_lt : ℕ → ℕ → Bool
int_lt a b = ltb ((a + 2 ^ 31) % 2 ^ 32) ((b + 2 ^ 31) % 2 ^ 32)

abbrev pub smaller : ℕ → ℕ → ℕ
smaller endpoint_mtu next_mtu =
    if int_lt 0 next_mtu && int_lt next_mtu endpoint_mtu then next_mtu else endpoint_mtu

unfoldable pub note_mtu : World → ℕ → Bytes → Script ℕ
unfolding get_route_mtu
note_mtu w endpoint_mtu endpoint =
    on_option (w.regexec regex_endpoint endpoint) (pure endpoint_mtu)
      (λ found. do next_mtu ← get_route_mtu w found; pure (smaller endpoint_mtu next_mtu))

-- `%d`.
unfoldable pub print_d : ℕ → Bytes
unfolding print_u
print_d n = if ltb n (2 ^ 31) then print_u n else codes "-" ++ print_u (sub32 0 n)

unfoldable pub set_mtu : World → Bytes → ℕ → Script Unit
unfolding cndc print_u get_route_mtu each_line note_mtu print_d
set_mtu w iface size =
    if truthy size
    then cndc w (concat (codes "interface setmtu " ∷ iface ∷ codes " " ∷ print_u size ∷ []))
    else do
      found ← get_route_mtu w (codes "default")
      endpoint_mtu ←
          each_line w (concat (codes "awg show " ∷ iface ∷ codes " endpoints" ∷ [])) (note_mtu w)
            (if found == minus_one then 1500 else found)
      cndc w (
          concat
            (codes "interface setmtu " ∷ iface ∷ codes " " ∷ print_d (sub32 endpoint_mtu 80) ∷ []))

unfoldable pub add_route : World → Bytes → ℕ → Bytes → Script Unit
unfolding cndc print_u
add_route w iface netid route = cndc w (
    concat
      (codes "network route add " ∷ print_u netid ∷ codes " " ∷ iface ∷ codes " " ∷ route ∷ []))

unfoldable pub add_routes : World → Bytes → ℕ → List Bytes → Script Unit
unfolding add_route strcmp_eq
add_routes w iface netid [] = pure tt
add_routes w iface netid (allowedip ∷ more) =
    let later = add_routes w iface netid more in
    if strcmp_eq allowedip (codes "(none)")
    then later
    else (add_route w iface netid allowedip >> later)

unfoldable pub line_routes : World → Bytes → ℕ → Unit {0} → Bytes → Script Unit
unfolding split_first add_routes strtok_loop
line_routes w iface netid _ allowedips =
    on_option (split_first b'\t' allowedips) (pure tt)
      (λ parts. add_routes w iface netid (strtok (codes " \n") parts.1))

unfoldable pub set_routes : World → Bytes → ℕ → Script Unit
unfolding each_line line_routes
set_routes w iface netid =
    each_line w (concat (codes "awg show " ∷ iface ∷ codes " allowed-ips" ∷ []))
      (line_routes w iface netid) tt

-- ===== src/HostAddr/Tests.antt =====
-- Addresses that net/net.go reads and writes, and the theorems at two of them.
use jkfr.Prelude.{◌≡◌, refl, [], ◌∷◌, ◌++◌, arith, elem, pos, negsuc}
use jkfr.HostAddr.{
  Text, colon, digits, itoa, read_digits, atoi, split_first, split_last, too_many_colons, bad_port,
  split_host_port, join_host_port, has_port, parsed, parse_error, parse_host_addr, random_addr,
  get_random_host_addr,
}
use jkfr.HostAddr.RoundTrip.{parse_host_addr-join_host_port, get_random_host_addr-refused}

what_runs : Unit {0}
unfolding digits read_digits atoi split_first split_last split_host_port join_host_port has_port
    parse_host_addr get_random_host_addr elem
what_runs = tt

-- "::1"
abbrev loopback : Text
loopback = 58 ∷ 58 ∷ 49 ∷ []

-- "a"
abbrev name : Text
name = 97 ∷ []

port_printed : itoa 8500 ≡ 56 ∷ 53 ∷ 48 ∷ 48 ∷ []
unfolding what_runs
port_printed = refl

-- "a", "[::1]", "a:b" and "a:-5"
hosts_read :
    (parse_host_addr name ≡ parsed name (pos 0))
    × (parse_host_addr (91 ∷ loopback ++ 93 ∷ []) ≡ parsed (91 ∷ loopback ++ 93 ∷ []) (pos 0))
    × (parse_host_addr (97 ∷ 58 ∷ 98 ∷ []) ≡ parse_error bad_port)
    × (parse_host_addr (97 ∷ 58 ∷ 45 ∷ 53 ∷ []) ≡ parsed name (negsuc 4))
unfolding what_runs
hosts_read = (refl, refl, refl, refl)

parse_host_addr-join_host_port_example :
    parse_host_addr (join_host_port loopback (itoa 8500)) ≡ parsed loopback (pos 8500)
unfolding what_runs
parse_host_addr-join_host_port_example =
    parse_host_addr-join_host_port loopback 8500 refl refl (omega arith)

get_random_host_addr-refused_example :
    (get_random_host_addr (pos 31000) (join_host_port loopback (itoa 0))
      ≡ random_addr (loopback ++ colon ∷ itoa 31000) (pos 31000))
    × (parse_host_addr (loopback ++ colon ∷ itoa 31000) ≡ parse_error too_many_colons)
unfolding what_runs
get_random_host_addr-refused_example = get_random_host_addr-refused loopback 31000 refl refl refl

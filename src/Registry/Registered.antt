-- ===== src/Registry/Registered.antt =====
-- Which settings a registration of gokit/registry/registry.go ends up with.
use jkfr.Prelude.{
  ℕ, zero, suc, ◌^◌, ◌≤◌, ◌<◌, ◌≡◌, refl, ap, ◌∙◌, Bool, true, false, Option, none, some, List, [],
  ◌∷◌, ◌++◌, arith, if◌then◌else◌, ℤ, pos, elem,
}
use jkfr.HostAddr.{Text, itoa, open_bracket, close_bracket, join_host_port, parse_host_addr}
use jkfr.HostAddr.RoundTrip.{parse_host_addr-join_host_port}
use jkfr.Registry.{
  RegConfig, Process, RegOption, with_server_addr, with_wait_time, with_file, apply_option,
  apply_options, default_config,
}
use jkfr.Registry.Server.{
  Surroundings, in_nanoseconds, run_handles, option_config, get_config, client_for,
  new_consul_client, Registration, make_registration, registered, register_at, register_parsed,
  register_client, registry_server, registry_server_with_server_addr,
}

apply_options-append :
    (p : Process) (ops : List RegOption) (op : RegOption) (c : RegConfig)
    → apply_options p (ops ++ op ∷ []) c ≡ apply_option p op (apply_options p ops c)
unfolding apply_options
apply_options-append p [] op c = refl
apply_options-append p (o ∷ ops) op c = apply_options-append p ops op (apply_option p o c)

-- The handles that others have appended leave the address of the server.
abbrev pub KeepsAddr : Surroundings → Type 0
KeepsAddr e = (c : RegConfig) → (run_handles e.handles c).server_addr ≡ c.server_addr

get_config-server_addr :
    (e : Surroundings) (name addr : Text) (ops : List RegOption)
    → KeepsAddr e
    → (get_config e name (ops ++ with_server_addr addr ∷ [])).0.server_addr ≡ addr
unfolding get_config option_config apply_option
get_config-server_addr e name addr ops keeps =
    let start = record (default_config e.process name) { wait_time = e.default_wait_time } in
    keeps _
    ∙ ap (λ (c : RegConfig). c.server_addr)
        (apply_options-append e.process ops (with_server_addr addr) start)

new_consul_client-config :
    (e : Surroundings) (name : Text) (ops : List RegOption) (client : ℕ) (c : RegConfig)
    → new_consul_client e name ops ≡ some (client, c)
    → c ≡ (get_config e name ops).0
unfolding new_consul_client
new_consul_client-config e name ops client c made =
    by (client_for e (get_config e name ops).1 (e.map_consul_reg (get_config e name ops).1.address))
      made
  where
    by :
        (o : Option ℕ)
        → (elim o as (λ x. Option (ℕ × RegConfig)) [
          | none ↦ none
          | some n ↦ some (n, (get_config e name ops).0)
        ])
          ≡ some (client, c)
        → c ≡ (get_config e name ops).0
    by none m = cc
    by (some n) m = cc

-- What a registration says of the server.
abbrev pub IsAt : Registration → Text → Text → ℕ → RegConfig → Type 0
IsAt r name host port c =
    let addr = join_host_port host (itoa port) in
    (r.name ≡ name)
    × (r.address ≡ host)
    × (r.port ≡ pos port)
    × (r.check.tcp ≡ addr)
    × (r.check.http ≡ [])
    × (r.tags ≡ c.consul_tags ++ name ∷ addr ∷ [])

registered-IsAt :
    (e : Surroundings) (client : ℕ) (name host : Text) (port : ℕ) (c : RegConfig)
    → c.server_addr ≡ join_host_port host (itoa port)
    → 1 ≤ port
    → (r : Registration) × (register_at e client name
          (record c { svc_host = host; svc_port = pos port })
          (pos port)
        ≡ registered client r)
      × IsAt r name host port c
unfolding make_registration
registered-IsAt e client name host zero c at low = elim low [ ]
registered-IsAt e client name host (suc port) c at low = (
  make_registration name (record c { svc_host = host; svc_port = pos (suc port) }) [],
  refl,
  (refl, refl, refl, at, refl, ap (λ a. c.consul_tags ++ name ∷ a ∷ []) at),
)

-- RegistryServerWithServerAddr, called with a host without brackets and a port from 1 to 2^63 - 1 that
-- net.JoinHostPort has joined, registers the server there, with a TCP check of that address and no HTTP
-- check, and with the name and the address as the last tags, whatever the variables, the files and the
-- other options say, once newConsulClient has a client; the appended handles must leave the address.
pub registry_server_with_server_addr-IsAt :
    (e : Surroundings) (name host : Text) (port client : ℕ) (ops : List RegOption) (c : RegConfig)
    → KeepsAddr e
    → elem open_bracket host ≡ false
    → elem close_bracket host ≡ false
    → 1 ≤ port
    → port < 2 ^ 63
    → new_consul_client e name (ops ++ with_server_addr (join_host_port host (itoa port)) ∷ [])
      ≡ some (client, c)
    → (r : Registration) × (registry_server_with_server_addr e name
          (join_host_port host (itoa port))
          ops
        ≡ registered client r)
      × IsAt r name host port c
unfolding registry_server registry_server_with_server_addr
registry_server_with_server_addr-IsAt e name host port client ops c keeps o cl low high made =
    let addr = join_host_port host (itoa port) in
    let config =
      new_consul_client-config e name (ops ++ with_server_addr addr ∷ []) client c made in
    let at : c.server_addr ≡ addr =
      ap (λ (d : RegConfig). d.server_addr) config ∙ get_config-server_addr e name addr ops keeps in
    let (r, there, is_at) = registered-IsAt e client name host port c at low in
    (
      r,
      ap (register_client e name) made
          ∙ ap (λ a. register_parsed e client name c (parse_host_addr a)) at
          ∙ ap (register_parsed e client name c)
              (parse_host_addr-join_host_port host port o cl high)
          ∙ there,
      is_at,
    )

-- The wait time after an option that names no file.
abbrev wait_after : RegOption → ℤ → ℤ
wait_after (with_wait_time t) d = t
wait_after op d = d

abbrev pub last_wait_time : List RegOption → ℤ → ℤ
last_wait_time [] d = d
last_wait_time (op ∷ ops) d = last_wait_time ops (wait_after op d)

abbrev names_file : RegOption → Bool
names_file (with_file path) = true
names_file op = false

abbrev pub names_files : List RegOption → Bool
names_files [] = false
names_files (op ∷ ops) = if names_file op then true else names_files ops

apply_option-wait_time :
    (p : Process) (op : RegOption) (c : RegConfig)
    → names_file op ≡ false
    → (apply_option p op c).wait_time ≡ wait_after op c.wait_time
unfolding apply_option
apply_option-wait_time p op c e =
    elim op
        as (λ o. names_file o ≡ false → (apply_option p o c).wait_time ≡ wait_after o c.wait_time) [
          | with_file path ↦ λ f. cc
          | _ ↦ λ f. refl
        ]
      e

apply_options-wait_time :
    (p : Process) (ops : List RegOption) (c : RegConfig)
    → names_files ops ≡ false
    → (apply_options p ops c).wait_time ≡ last_wait_time ops c.wait_time
unfolding apply_options
apply_options-wait_time p [] c e = refl
apply_options-wait_time p (op ∷ ops) c e =
    let here : names_file op ≡ false = ground arith in
    apply_options-wait_time p ops (apply_option p op c) (ground arith)
    ∙ ap (last_wait_time ops) (apply_option-wait_time p op c here)

-- Where no option names a file, the wait time that getConfig hands to consul is, in nanoseconds, that of
-- the last
-- WithWaitTime, or without one that of consulapi.DefaultConfig: the variable R_WAIT_TIME and the files
-- that defaultconfig loads do not count.
pub get_config-wait_time :
    (e : Surroundings) (name : Text) (ops : List RegOption)
    → names_files ops ≡ false
    → (get_config e name ops).1.consul_wait_time
      ≡ in_nanoseconds (last_wait_time ops e.default_wait_time)
unfolding get_config option_config
get_config-wait_time e name ops no_file = ap in_nanoseconds (
    apply_options-wait_time e.process ops
      (record (default_config e.process name) { wait_time = e.default_wait_time }) no_file)

-- ===== src/Api/Listeners.antt =====
-- apis/apps/v2beta1/util.go: the ports of the listeners and gateways that a configuration asks for.
-- The HOCON library, with its type of values, and intstr are parameters. A map is ranged over in the
-- order of its list; the ports are sorted in the end. `none` is a panic: a value that is no object
-- where the code takes it for one, or a method of the nil configuration that an error leaves.
use emqx_operator.Prelude.{
  ℤ, pos, ◌+++◌, String, str_eq, Bool, not, ◌||◌, Option, none, some, ◌>>=◌, List, [], ◌∷◌, ◌++◌,
  if◌then◌else◌,
}
use emqx_operator.Prelude.Text.{contains, trim, port_of, to_int32}
use emqx_operator.Prelude.Sort.{sort}
use emqx_operator.Errors.{Result, ok, err}
use emqx_operator.Kube.Pods.{ServicePort}
use emqx_operator.Api.Dashboard.{name_less}

-- What the code calls of hocon, on values and on configurations, which have a value at their root;
-- `object` is the type assertion, and `of_entries` makes an object. `int_value` and `int_text` are
-- IntValue and the text of intstr.Parse.
pub record Library (V : Type 0) : Type 0 where
  pub parse : String → Result V
  pub print : V → String
  pub object : V → Option (List (String × V))
  pub get_string : V → String → String
  pub get_object : V → String → List (String × V)
  pub of_entries : List (String × V) → V
  pub int_value : String → ℤ
  pub int_text : String → String

-- A list of ports with a panic and with an error of the function.
abbrev pub Ports : Type 0
Ports = Option (Result (List ServicePort))

abbrev pub no_ports : Ports
no_ports = some (ok [])

abbrev pub append_ports : List ServicePort → Result (List ServicePort) → Result (List ServicePort)
append_ports ps (err e) = err e
append_ports ps (ok qs) = ok (ps ++ qs)

-- The ports of one element, which may end the loop, before those of the rest.
abbrev pub then_ports : Ports → Ports → Ports
then_ports none rest = none
then_ports (some (err e)) rest = some (err e)
then_ports (some (ok ps)) rest = rest >>= λ r. some (append_ports ps r)

module _ {V : Type 0} (lib : Library V) where
  abbrev pub is_disabled : V → Bool
  is_disabled c =
      str_eq (lib.get_string c "enable") "false" || str_eq (lib.get_string c "enabled") "false"

  -- The port in the configuration's bind address.
  abbrev pub bound_port : V → String
  bound_port c =
      let bind = trim b'"' (lib.get_string c "bind") in
      port_of (if not (contains b':' bind) then ":" +++ bind else bind)

  unfoldable pub port_named : String → Bool → V → ServicePort
  unfolding trim contains port_of to_int32
  port_named name is_udp c = record {
    name = name;
    protocol = if is_udp then "UDP" else "TCP";
    port = to_int32 (lib.int_value (bound_port c));
    target_port = lib.int_text (bound_port c);
    node_port = pos 0;
  }

  abbrev pub port_unless_disabled : String → Bool → V → Ports
  port_unless_disabled name is_udp c =
      if is_disabled c then no_ports else some (ok (port_named name is_udp c ∷ []))

  abbrev pub entry_of : String → List (String × V) → List (String × V)
  entry_of key [] = []
  entry_of key ((k, v) ∷ m) = if str_eq k key then (k, v) ∷ [] else entry_of key m

  abbrev pub cut : List (String × V) → V
  cut obj = lib.of_entries (entry_of "enable" obj ++ entry_of "enabled" obj ++ entry_of "bind" obj)

  abbrev pub parsed_listener : String → String → Result V → Ports
  parsed_listener t name (err e) = some (err e)
  parsed_listener t name (ok c) = port_unless_disabled (t +++ "-" +++ name) (str_eq t "quic") c

  -- One listener of a type.
  abbrev pub listener_port : String → String × V → Ports
  listener_port t (name, config) =
      lib.object config >>= λ obj. parsed_listener t name (lib.parse (lib.print (cut obj)))

  abbrev pub parsed_gateway : String → String → String → Result V → Ports
  parsed_gateway proto t name (err e) = none
  parsed_gateway proto t name (ok c) =
      port_unless_disabled (proto +++ "-" +++ t +++ "-" +++ name)
        (str_eq t "udp" || str_eq t "dtls") c

  -- One listener of a gateway.
  abbrev pub gateway_port : String → String → String × V → Ports
  gateway_port proto t (name, config) = parsed_gateway proto t name (lib.parse (lib.print config))

  unfoldable pub each : (String × V → Ports) → List (String × V) → Ports
  each f [] = no_ports
  each f (x ∷ xs) = let rest = each f xs in then_ports (f x) rest

  -- The ports of the entries of a value; one that is no object is passed over, and so is one that
  -- does not parse again.
  abbrev pub reparsed : (String × V → Ports) → Result V → Ports
  reparsed f (err e) = no_ports
  reparsed f (ok c) = elim (lib.object c) [ none ↦ no_ports | some configs ↦ each f configs ]

  abbrev pub ports_in : (String × V → Ports) → V → Ports
  ports_in f listener = elim (lib.object listener) [
    | none ↦ no_ports
    | some configs ↦ reparsed f (lib.parse (lib.print listener))
  ]

  abbrev pub listeners_of : String × V → Ports
  listeners_of (t, listener) = ports_in (listener_port t) listener

  abbrev pub gateway_listeners_of : String → String × V → Ports
  gateway_listeners_of proto (t, listener) = ports_in (gateway_port proto t) listener

  abbrev pub gateway : String → Result V → Ports
  gateway proto (err e) = none
  gateway proto (ok c) =
      if is_disabled c
      then no_ports
      else each (gateway_listeners_of proto) (lib.get_object c "listeners")

  abbrev pub gateway_of : String × V → Ports
  gateway_of (proto, g) = gateway proto (lib.parse (lib.print g))

  abbrev pub sorted : Result (List ServicePort) → Result (List ServicePort)
  sorted (err e) = err e
  sorted (ok ps) = ok (sort name_less ps)

  abbrev pub all_ports : Result V → Ports
  all_ports (err e) = some (err e)
  all_ports (ok c) =
      then_ports (each listeners_of (lib.get_object c "listeners"))
        (each gateway_of (lib.get_object c "gateway"))
      >>= λ r. some (sorted r)

  unfoldable pub get_listeners_service_ports : String → Ports
  unfolding each port_named
  get_listeners_service_ports text = all_ports (lib.parse text)

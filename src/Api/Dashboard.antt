-- ===== src/Api/Dashboard.antt =====
-- apis/apps/v2beta1/util.go: the ports of the dashboard that a configuration asks for. The HOCON
-- library is a parameter. The code ranges over its map of ports in any order, and sorts what it
-- makes of it.
pub mod Bounds
use emqx_operator.Prelude.{
  ℤ, pos, ◌==ℤ◌, ◌+++◌, String, str_eq, is_lt, compare_str, Bool, not, List, [], ◌∷◌, map,
  if◌then◌else◌,
}
use emqx_operator.Prelude.Text.{contains, trim, atoi, to_int32, port_of, itoa}
use emqx_operator.Prelude.Sort.{sort}
use emqx_operator.Errors.{Error, Result, ok, err}
use emqx_operator.Kube.Pods.{ServicePort}

-- hocon.ParseString, whose answer is read by GetString.
pub record Hocon : Type 0 where
  pub parse : String → Result (String → String)

-- map[string]int32
abbrev pub PortMap : Type 0
PortMap = List (String × ℤ)

unfoldable pub put_port : String → ℤ → PortMap → PortMap
put_port name port [] = (name, port) ∷ []
put_port name port ((k, v) ∷ m) =
    if str_eq k name then (name, port) ∷ m else (k, v) ∷ put_port name port m

unfoldable pub delete_port : String → PortMap → PortMap
delete_port name [] = []
delete_port name ((k, v) ∷ m) =
    let rest = delete_port name m in if str_eq k name then rest else (k, v) ∷ rest

-- The port in a bind address: 0 if it has none.
unfoldable pub bind_port : String → ℤ
unfolding contains port_of atoi
bind_port bind = atoi (port_of (if not (contains b':' bind) then ":" +++ bind else bind))

-- One of the two blocks: an address that is set replaces the port of the name, or deletes it.
unfoldable pub read_bind : String → String → PortMap → PortMap
unfolding put_port delete_port bind_port to_int32
read_bind name bind m =
    if str_eq bind ""
    then m
    else if not (bind_port bind ==ℤ pos 0)
    then put_port name (to_int32 (bind_port bind)) m
    else delete_port name m

abbrev quoted : String → String
quoted s = trim b'"' s

abbrev pub ports_of : (String → String) → PortMap
ports_of get = read_bind "dashboard-https" (quoted (get "dashboard.listeners.https.bind")) (
    read_bind "dashboard" (quoted (get "dashboard.listeners.http.bind"))
      (("dashboard", pos 18083) ∷ []))

abbrev pub map_result {ℓ κ} : {A : Type ℓ} {B : Type κ} → (A → B) → Result A → Result B
map_result f (ok a) = ok (f a)
map_result f (err e) = err e

unfoldable pub get_dashboard_port_map : Hocon → String → Result PortMap
unfolding read_bind
get_dashboard_port_map hocon text = map_result ports_of (hocon.parse text)

abbrev pub service_port_of : String × ℤ → ServicePort
service_port_of (name, port) = record {
  name = name;
  protocol = "TCP";
  port = port;
  target_port = itoa port;
  node_port = pos 0;
}

abbrev pub name_less : ServicePort → ServicePort → Bool
name_less a b = is_lt (compare_str a.name b.name)

-- The list for the order in which the map is ranged over.
abbrev pub listed : PortMap → List ServicePort
listed m = sort name_less (map service_port_of m)

unfoldable pub get_dashboard_service_port : Hocon → String → Result (List ServicePort)
unfolding get_dashboard_port_map
get_dashboard_service_port hocon text = map_result listed (get_dashboard_port_map hocon text)

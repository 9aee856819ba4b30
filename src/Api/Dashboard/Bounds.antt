-- ===== src/Api/Dashboard/Bounds.antt =====
-- util.go, GetDashboardServicePort: the ports of the dashboard, by each name's bind address.
use emqx_operator.Prelude.{
  ℕ, ℤ, pos, negsuc, ◌≤◌, ◌<◌, ◌%◌, ◌-◌, ◌^◌, ◌==ℤ◌, String, str_eq, Bool, true, false, not, ◌≡◌,
  refl, sym, ap, subst, ◌∙◌, Option, none, some, List, [], ◌∷◌, ◌++◌, All, All-append, arith,
  Bool-cases, if◌then◌else◌, leb, ltb,
}
use emqx_operator.Prelude.Text.{to_int32, signed, unsigned, trim}
use emqx_operator.Errors.{Result, ok, err}
use emqx_operator.Kube.Pods.{ServicePort}
use emqx_operator.Api.Dashboard.{
  Hocon, PortMap, put_port, delete_port, bind_port, read_bind, ports_of, map_result,
  service_port_of, listed, get_dashboard_port_map, get_dashboard_service_port,
}

-- The port of an address, or a default where no address is set; 0 stands for no port.
abbrev pub wanted : Option ℤ → String → Option ℤ
wanted default bind =
    if str_eq bind ""
    then default
    else if bind_port bind ==ℤ pos 0
    then none
    else some (to_int32 (bind_port bind))

abbrev pub entry : String → Option ℤ → List ServicePort
entry name none = []
entry name (some port) = service_port_of (name, port) ∷ []

-- The ports of the two names, in the order of the names.
abbrev pub dashboard_ports : (String → String) → List ServicePort
dashboard_ports get =
    entry "dashboard" (wanted (some (pos 18083)) (trim b'"' (get "dashboard.listeners.http.bind")))
    ++ entry "dashboard-https" (wanted none (trim b'"' (get "dashboard.listeners.https.bind")))

abbrev choose : Bool → Bool → ℤ → String → PortMap → PortMap
choose is_unset is_zero port name m =
    if is_unset then m else if not is_zero then put_port name port m else delete_port name m

abbrev chosen : Bool → Bool → ℤ → Option ℤ → Option ℤ
chosen is_unset is_zero port default =
    if is_unset then default else if is_zero then none else some port

listed-choose :
    (a b c d : Bool) (p q : ℤ)
    → listed
        (choose c d q "dashboard-https" (choose a b p "dashboard" (("dashboard", pos 18083) ∷ [])))
      ≡ entry "dashboard" (chosen a b p (some (pos 18083)))
        ++ entry "dashboard-https" (chosen c d q none)
unfolding put_port delete_port emqx_operator.Prelude.Sort.sort
listed-choose true b true d p q = refl
listed-choose true b false true p q = refl
listed-choose true b false false p q = refl
listed-choose false true true d p q = refl
listed-choose false true false true p q = refl
listed-choose false true false false p q = refl
listed-choose false false true d p q = refl
listed-choose false false false true p q = refl
listed-choose false false false false p q = refl

-- The service ports of the dashboard, for a configuration that parses, are those of the two bind
-- addresses, "dashboard" before "dashboard-https": a name has the port of its address, cut to an int32, and if no
-- address is set, the port 18083 for the first and none for the second; port 0 stands for none.
pub get_dashboard_service_port_lem :
    (hocon : Hocon) (text : String)
    → get_dashboard_service_port hocon text ≡ map_result dashboard_ports (hocon.parse text)
unfolding get_dashboard_service_port get_dashboard_port_map read_bind
get_dashboard_service_port_lem hocon text = by_answer (hocon.parse text)
  where
    by_answer :
        (r : Result (String → String))
        → map_result listed (map_result ports_of r) ≡ map_result dashboard_ports r
    by_answer (err e) = refl
    by_answer (ok get) = ap ok (listed-choose _ _ _ _ _ _)

-- A number that fits an int32.
abbrev pub IsInt32 : ℤ → Type 0
IsInt32 (pos n) = n < 2 ^ 31
IsInt32 (negsuc n) = n < 2 ^ 31

unsigned-lt : (x : ℤ) → unsigned x < 2 ^ 32
unsigned-lt (pos n) = omega arith
unsigned-lt (negsuc n) = omega arith

signed-IsInt32 : (m : ℕ) → m < 2 ^ 32 → IsInt32 (signed m)
signed-IsInt32 m h = ground arith

pub to_int32-IsInt32 : (x : ℤ) → IsInt32 (to_int32 x)
unfolding to_int32
to_int32-IsInt32 x = signed-IsInt32 (unsigned x) (unsigned-lt x)

-- The conversion keeps a number that fits.
pub to_int32_of_IsInt32 : (x : ℤ) → IsInt32 x → to_int32 x ≡ x
unfolding to_int32
to_int32_of_IsInt32 (pos n) h = ground arith
to_int32_of_IsInt32 (negsuc n) h = ground arith

entry-IsInt32 :
    (name : String) (default : Option ℤ) (bind : String)
    → All (λ p. IsInt32 p.port) (entry name default)
    → All (λ p. IsInt32 p.port) (entry name (wanted default bind))
entry-IsInt32 name default bind h = by_tests (str_eq bind "") (bind_port bind ==ℤ pos 0)
  where
    by_tests :
        (a b : Bool)
        → All (λ p. IsInt32 p.port) (entry name (chosen a b (to_int32 (bind_port bind)) default))
    by_tests true b = h
    by_tests false true = tt
    by_tests false false = (to_int32-IsInt32 (bind_port bind), tt)

dashboard_ports-IsInt32 : (get : String → String) → All (λ p. IsInt32 p.port) (dashboard_ports get)
dashboard_ports-IsInt32 get =
    let http = trim b'"' (get "dashboard.listeners.http.bind") in
    let https = trim b'"' (get "dashboard.listeners.https.bind") in
    All-append (λ p. IsInt32 p.port) (entry "dashboard" (wanted (some (pos 18083)) http))
      (entry "dashboard-https" (wanted none https))
      (entry-IsInt32 "dashboard" (some (pos 18083)) http (omega arith, tt))
      (entry-IsInt32 "dashboard-https" none https tt)

-- Whatever number a bind address holds, the service ports of the dashboard are in the range of an
-- int32.
pub get_dashboard_service_port-IsInt32 :
    (hocon : Hocon) (text : String) (ports : List ServicePort)
    → get_dashboard_service_port hocon text ≡ ok ports
    → All (λ p. IsInt32 p.port) ports
get_dashboard_service_port-IsInt32 hocon text ports h =
    by_answer (hocon.parse text) (sym (get_dashboard_service_port_lem hocon text) ∙ h)
  where
    by_answer :
        (r : Result (String → String))
        → map_result dashboard_ports r ≡ ok ports
        → All (λ p. IsInt32 p.port) ports
    by_answer (ok get) e =
        let same : dashboard_ports get ≡ ports = cc in
        subst (All (λ p. IsInt32 p.port)) same (dashboard_ports-IsInt32 get)
    by_answer (err x) e = cc

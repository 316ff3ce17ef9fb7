-- ===== src/K8s/Probe.antt =====
-- frontend/public/module/k8s/probe.js: the actions of hooks and probes, to and from one line of text.
use web_ui.Base.{
  ℕ, Bool, true, false, ◌&&◌, not, Option, none, some, List, [], ◌∷◌, ◌++◌, null, all,
  if◌then◌else◌, ◌==◌,
}
use web_ui.Base.Text.{Text, codes, split, join, is_space, same_text}
use web_ui.Base.Decimal.{is_digit, show, value}
use web_ui.Selector.Scan.{skip_run}

pub data ActionType : Type 0 where
  exec http_get tcp_socket : ActionType

-- A port is a number, below 2 ^ 53, or a name; `parseInt` may also give a negative number.
pub data Port : Type 0 where
  number : ℕ → Port
  negative : ℕ → Port
  named : Text → Port

pub record HttpGet : Type 0 where
  pub host : Option Text
  pub path : Option Text
  pub port : Option Port

pub data Command : Type 0 where
  exec_command : List Text → Command
  http_get_command : HttpGet → Command
  tcp_socket_command : Port → Command

-- The digits at the front of a text.
unfoldable pub front_digits : Text → Text
front_digits [] = []
front_digits (c ∷ s) = let rest = front_digits s in if is_digit c then c ∷ rest else []

unfoldable pub unsigned : (ℕ → Port) → Text → Option Port
unsigned sign s = if null (front_digits s) then none else some (sign (value (front_digits s)))

unfoldable pub signed : Text → Option Port
signed [] = none
signed (c ∷ t) =
    if c == b'-'
    then unsigned negative t
    else if c == b'+'
    then unsigned number t
    else unsigned number (c ∷ t)

-- `parseInt(s, 10)`, where `none` is NaN
unfoldable pub parse_int : Text → Option Port
parse_int s = signed (skip_run is_space s)

unfoldable pub or_named : Text → Option Port → Port
or_named s none = named s
or_named s (some (number n)) = if n == 0 then named s else number n
or_named s (some (negative n)) = if n == 0 then named s else negative n
or_named s (some (named t)) = named t

-- `parseInt(port, 10) || port`
unfoldable pub port_of : Text → Port
port_of s = or_named s (parse_int s)

-- `split('://')`
unfoldable pub split_scheme_from : Text → Text → List Text
split_scheme_from cur [] = cur ∷ []
split_scheme_from cur (c ∷ []) = (cur ++ c ∷ []) ∷ []
split_scheme_from cur (c ∷ d ∷ []) = (cur ++ c ∷ d ∷ []) ∷ []
split_scheme_from cur (c ∷ d ∷ e ∷ s) =
    let closed = cur ∷ split_scheme_from [] s in
    let longer = split_scheme_from (cur ++ c ∷ []) (d ∷ e ∷ s) in
    if c == b':' && (d == b'/' && e == b'/') then closed else longer

-- `rest.join()` joins with commas.
abbrev pub join_rest : List Text → Text
join_rest ts = join (b',' ∷ []) ts

-- The port that follows the host, or that of the scheme; `none` is undefined.
unfoldable pub port_or_default : Text → Option Text → Option Port
port_or_default scheme (some port) = some (port_of port)
port_or_default scheme none =
    if same_text scheme (codes "http")
    then some (number 80)
    else if same_text scheme (codes "https")
    then some (number 443)
    else none

abbrev pub http_command : Text → Text → Text → Option Port → Option Command
http_command scheme hostname path none = none
http_command scheme hostname path (some port) = some (
    http_get_command (record {
      host = some (scheme ++ (codes "://" ++ hostname));
      path = some path;
      port = some port;
    }))

-- The pieces of `host.split(':')`: a hostname, and a port if there is a second one.
unfoldable pub parse_host : Text → List Text → Text → Option Command
parse_host scheme [] path = none
parse_host scheme (hostname ∷ []) path =
    http_command scheme hostname path (port_or_default scheme none)
parse_host scheme (hostname ∷ port ∷ more) path =
    http_command scheme hostname path (port_or_default scheme (some port))

unfoldable pub parse_authority : Text → List Text → Option Command
parse_authority scheme [] = none
parse_authority scheme (host ∷ rest) = parse_host scheme (split b':' host) (b'/' ∷ join_rest rest)

unfoldable pub parse_scheme : List Text → Option Command
parse_scheme [] = none
parse_scheme (scheme ∷ rest) =
    if null scheme then none else parse_authority scheme (split b'/' (join_rest rest))

unfoldable pub parse_http_get : Text → Option Command
parse_http_get [] = none
parse_http_get (c ∷ s) = parse_scheme (split_scheme_from [] (c ∷ s))

unfoldable pub parse_tcp_socket : Text → Option Command
parse_tcp_socket [] = none
parse_tcp_socket (c ∷ s) =
    some
      (tcp_socket_command (if all is_digit (c ∷ s) then number (value (c ∷ s)) else named (c ∷ s)))

unfoldable pub parse_cmd : ActionType → Text → Option Command
parse_cmd exec s = some (exec_command (split 0x20 s))
parse_cmd http_get s = parse_http_get s
parse_cmd tcp_socket s = parse_tcp_socket s

unfoldable pub port_text : Port → Text
port_text (number n) = show n
port_text (negative n) = b'-' ∷ show n
port_text (named t) = t

-- What a port adds to a text, where 0 and the empty name are falsy.
unfoldable pub is_port : Port → Bool
is_port (number n) = not (n == 0)
is_port (negative n) = not (n == 0)
is_port (named t) = not (null t)

abbrev pub port_part : Option Port → Text
port_part none = []
port_part (some p) = if is_port p then b':' ∷ port_text p else []

abbrev pub or_empty_text : Option Text → Text
or_empty_text none = []
or_empty_text (some t) = t

-- `cmd.host || podIP`, added to a text: an address that is not given is written as `undefined`.
unfoldable pub host_text : Option Text → Option Text → Text
host_text (some (c ∷ s)) pod_ip = c ∷ s
host_text (some []) pod_ip = elim pod_ip [ none ↦ codes "undefined" | some ip ↦ ip ]
host_text none pod_ip = elim pod_ip [ none ↦ codes "undefined" | some ip ↦ ip ]

abbrev pub is_nothing {ℓ} : {A : Type ℓ} → Option A → Bool
is_nothing none = true
is_nothing (some a) = false

unfoldable pub flatten_http_get : HttpGet → Option Text → Text
flatten_http_get cmd pod_ip =
    if is_nothing cmd.host && (is_nothing cmd.path && is_nothing cmd.port)
    then []
    else host_text cmd.host pod_ip ++ (port_part cmd.port ++ or_empty_text cmd.path)

-- `flattenCmd`, which picks the flattener by the command's own type.
unfoldable pub flatten_cmd : Command → Option Text → Text
flatten_cmd (exec_command command) pod_ip = join (0x20 ∷ []) command
flatten_cmd (http_get_command cmd) pod_ip = flatten_http_get cmd pod_ip
flatten_cmd (tcp_socket_command port) pod_ip = if is_port port then port_text port else []

abbrev pub type_of : Command → ActionType
type_of (exec_command command) = exec
type_of (http_get_command cmd) = http_get
type_of (tcp_socket_command port) = tcp_socket

-- `HookAction` by the first key of an action, and its label.
unfoldable pub get_action_label : Option Command → Text
get_action_label none = []
get_action_label (some (exec_command command)) = codes "Exec Command"
get_action_label (some (http_get_command cmd)) = codes "HTTP Get"
get_action_label (some (tcp_socket_command port)) = codes "TCP Socket (Port)"

pub data Stage : Type 0 where
  post_start pre_stop : Stage

pub record Lifecycle : Type 0 where
  pub on_start : Option Command
  pub on_stop : Option Command

unfoldable pub get_lifecycle_hook_label : Option Lifecycle → Stage → Text
get_lifecycle_hook_label none stage = []
get_lifecycle_hook_label (some l) post_start = get_action_label l.on_start
get_lifecycle_hook_label (some l) pre_stop = get_action_label l.on_stop

pub record Field : Type 0 where
  pub action_type : ActionType
  pub cmd : Text

abbrev pub empty_field : Field
empty_field = record { action_type = exec; cmd = [] }

unfoldable pub field_of : Option Command → Option Text → Field
field_of none pod_ip = empty_field
field_of (some c) pod_ip = record { action_type = type_of c; cmd = flatten_cmd c pod_ip }

-- The hooks are flattened with no address of a pod.
unfoldable pub map_lifecycle_config_to_fields : Option Lifecycle → Field × Field
map_lifecycle_config_to_fields none = (empty_field, empty_field)
map_lifecycle_config_to_fields (some l) = (field_of l.on_start none, field_of l.on_stop none)

-- ===== src/Agent/Network/Interfaces.antt =====
-- cmd/keel-agent/src/network.rs: `get_network_status` and `parse_ipv6_address_line`. What is read
-- from /sys/class/net and printed by /bin/ip is what a call is given. A result of `none` is a panic.
pub mod Laws
use keelos.Prelude.{
  ℕ, ◌==◌, ltb, if◌then◌else◌, String, str_eq, is_empty, format, trim, lines, to_lowercase,
  has_prefix, split_once, split_whitespace, parse_u32, parse_u64, not, Bool, true, false, Option,
  none, some, List, [], ◌∷◌, ◌++◌, length, keep, unwrap_or,
}

pub record IPv6AddressInfo : Type 0 where
  pub address : String
  pub prefix_len : ℕ
  pub scope : String
  pub flags : List String

pub record InterfaceStatistics : Type 0 where
  pub rx_bytes : ℕ
  pub tx_bytes : ℕ
  pub rx_packets : ℕ
  pub tx_packets : ℕ
  pub rx_errors : ℕ
  pub tx_errors : ℕ

pub record InterfaceStatus : Type 0 where
  pub name : String
  pub state : String
  pub ipv4_addresses : List String
  pub mac_address : String
  pub mtu : ℕ
  pub statistics : Option InterfaceStatistics
  pub ipv6_addresses : List String
  pub ipv6_address_info : List IPv6AddressInfo

-- The files of one interface that can be read, and the outputs of `ip -4` and `ip -6` where the
-- command runs and prints UTF-8.
pub record Device : Type 0 where
  pub name : String
  pub operstate : Option String
  pub address : Option String
  pub mtu : Option String
  pub ipv4_output : Option String
  pub ipv6_output : Option String
  pub rx_bytes : Option String
  pub tx_bytes : Option String
  pub rx_packets : Option String
  pub tx_packets : Option String
  pub rx_errors : Option String
  pub tx_errors : Option String

-- The words behind the first one that is "scope", if there is one.
unfoldable pub behind_scope : List String → Option (List String)
behind_scope [] = none
behind_scope (p ∷ rest) = if str_eq p "scope" then some rest else behind_scope rest

-- `addr_with_prefix` cut at its first slash.
abbrev pub address_of : String → Option (String × String) → String × ℕ
address_of whole none = (whole, 128)
address_of whole (some (addr, prefix)) = (addr, unwrap_or (parse_u32 prefix) 128)

abbrev pub info_of : String × ℕ → String → List String → IPv6AddressInfo
info_of (address, prefix_len) scope flags = record {
  address = address;
  prefix_len = prefix_len;
  scope = scope;
  flags = flags;
}

-- The scope and the flags: `parts[scope_pos + 2..]` panics when "scope" is the last word.
abbrev pub scoped : String × ℕ → Option (List String) → Option (Option IPv6AddressInfo)
scoped a none = some (some (info_of a "unknown" []))
scoped a (some []) = none
scoped a (some (scope ∷ flags)) = some (some (info_of a scope (keep (λ f. not (is_empty f)) flags)))

abbrev pub of_parts : List String → Option (Option IPv6AddressInfo)
of_parts [] = some none
of_parts (p ∷ []) = some none
of_parts (p ∷ addr ∷ rest) =
    scoped (address_of addr (split_once b'/' addr)) (behind_scope (p ∷ addr ∷ rest))

unfoldable pub parse_ipv6_address_line : String → Option (Option IPv6AddressInfo)
unfolding trim split_whitespace behind_scope split_once parse_u32
parse_ipv6_address_line line =
    if not (has_prefix (trim line) "inet6 ")
    then some none
    else of_parts (split_whitespace (trim line))

abbrev pub cons_info :
    Option (Option IPv6AddressInfo) → Option (List IPv6AddressInfo) → Option (List IPv6AddressInfo)
cons_info none later = none
cons_info (some none) later = later
cons_info (some (some info)) none = none
cons_info (some (some info)) (some infos) = some (info ∷ infos)

unfoldable pub ipv6_infos : List String → Option (List IPv6AddressInfo)
unfolding parse_ipv6_address_line
ipv6_infos [] = some []
ipv6_infos (line ∷ rest) = cons_info (parse_ipv6_address_line line) (ipv6_infos rest)

abbrev second : List String → List String
second (p ∷ addr ∷ rest) = addr ∷ []
second _ = []

unfoldable pub ipv4_addresses : List String → List String
unfolding trim split_whitespace
ipv4_addresses [] = []
ipv4_addresses (line ∷ rest) =
    if has_prefix (trim line) "inet "
    then second (split_whitespace line) ++ ipv4_addresses rest
    else ipv4_addresses rest

abbrev pub lines_of : Option String → List String
unfolding lines
lines_of none = []
lines_of (some text) = lines text

abbrev pub counter : Option String → ℕ
unfolding trim parse_u64
counter none = 0
counter (some text) = unwrap_or (parse_u64 (trim text)) 0

abbrev pub trimmed : Option String → String → String
unfolding trim
trimmed none default = default
trimmed (some text) default = trim text

abbrev pub mtu_of : Option String → ℕ
unfolding trim parse_u32
mtu_of none = 0
mtu_of (some text) = unwrap_or (parse_u32 (trim text)) 0

abbrev pub addresses : List IPv6AddressInfo → List String
addresses [] = []
addresses (info ∷ rest) = info.address ∷ addresses rest

abbrev pub with_infos : Device → Option (List IPv6AddressInfo) → Option InterfaceStatus
unfolding trimmed mtu_of ipv4_addresses lines_of counter to_lowercase
with_infos d none = none
with_infos d (some infos) = some (record {
  name = d.name;
  state = to_lowercase (trimmed d.operstate "unknown");
  ipv4_addresses = ipv4_addresses (lines_of d.ipv4_output);
  mac_address = trimmed d.address "";
  mtu = mtu_of d.mtu;
  statistics = some (record {
    rx_bytes = counter d.rx_bytes;
    tx_bytes = counter d.tx_bytes;
    rx_packets = counter d.rx_packets;
    tx_packets = counter d.tx_packets;
    rx_errors = counter d.rx_errors;
    tx_errors = counter d.tx_errors;
  });
  ipv6_addresses = addresses infos;
  ipv6_address_info = infos;
})

unfoldable pub interface_status : Device → Option InterfaceStatus
unfolding with_infos ipv6_infos lines_of
interface_status d = with_infos d (ipv6_infos (lines_of d.ipv6_output))

abbrev pub cons_status :
    Option InterfaceStatus → Option (List InterfaceStatus) → Option (List InterfaceStatus)
cons_status none later = none
cons_status (some s) none = none
cons_status (some s) (some rest) = some (s ∷ rest)

-- The entries of /sys/class/net whose names are UTF-8; none when it cannot be listed.
unfoldable pub get_network_status : List Device → Option (List InterfaceStatus)
unfolding interface_status
get_network_status [] = some []
get_network_status (d ∷ rest) =
    if str_eq d.name "lo"
    then get_network_status rest
    else cons_status (interface_status d) (get_network_status rest)

-- ===== src/Config/Network.antt =====
-- pkg/config/src/network.rs: the types of the network configuration, and its validation.
-- The address parsers of `ipnetwork` and `std::net` are a parameter, as tests on texts.

mod Checks
pub mod Valid
mod Names
pub mod Storage
mod Static
pub mod Accepts
use keelos.Prelude.{
  ℕ, ltb, if◌then◌else◌, String, len, show, is_empty, str_eq, format, Bool, true, false, not, ◌&&◌,
  ◌||◌, Option, none, some, List, [], ◌∷◌, any, Result, ok, err, ◌>>◌,
}

pub data NetworkConfigError : Type 0 where
  invalid_ip_address invalid_cidr invalid_interface_name : String → NetworkConfigError
  invalid_vlan_id : ℕ → NetworkConfigError
  invalid_bonding_mode io json validation : String → NetworkConfigError

-- The texts of the `#[error]` attributes.
unfoldable pub describe : NetworkConfigError → String
describe (invalid_ip_address a) = format ("Invalid IP address: " ∷ a ∷ [])
describe (invalid_cidr a) = format ("Invalid CIDR notation: " ∷ a ∷ [])
describe (invalid_interface_name n) = format ("Invalid interface name: " ∷ n ∷ [])
describe (invalid_vlan_id n) = format ("Invalid VLAN ID: " ∷ show n ∷ " (must be 1-4094)" ∷ [])
describe (invalid_bonding_mode m) = format ("Invalid bonding mode: " ∷ m ∷ [])
describe (io e) = format ("IO error: " ∷ e ∷ [])
describe (json e) = format ("JSON error: " ∷ e ∷ [])
describe (validation m) = format ("Configuration validation error: " ∷ m ∷ [])

pub record StaticConfig : Type 0 where
  pub ipv4_address : String
  pub gateway : Option String
  pub mtu : ℕ  -- u32
  pub ipv6_addresses : List String
  pub ipv6_gateway : Option String
  pub ipv6_auto : Bool

pub data VlanIpConfig : Type 0 where
  dhcp : VlanIpConfig
  static : StaticConfig → VlanIpConfig

pub record VlanConfig : Type 0 where
  pub parent : String
  pub vlan_id : ℕ  -- u32
  pub ip_config : VlanIpConfig

pub data BondIpConfig : Type 0 where
  dhcp : BondIpConfig
  static : StaticConfig → BondIpConfig

pub data BondingMode : Type 0 where
  lacp active_backup balance_rr : BondingMode

pub record BondConfig : Type 0 where
  pub mode : BondingMode
  pub slaves : List String
  pub ip_config : BondIpConfig

pub data InterfaceType : Type 0 where
  dhcp : InterfaceType
  static : StaticConfig → InterfaceType
  vlan : VlanConfig → InterfaceType
  bond : BondConfig → InterfaceType

pub record InterfaceConfig : Type 0 where
  pub name : String
  pub config : InterfaceType

pub record DnsConfig : Type 0 where
  pub nameservers : List String
  pub search_domains : List String

pub record RouteConfig : Type 0 where
  pub destination : String
  pub gateway : String
  pub metric : Option ℕ  -- u32

pub record NetworkConfig : Type 0 where
  pub interfaces : List InterfaceConfig
  pub dns : Option DnsConfig
  pub routes : List RouteConfig

abbrev pub default_mtu : ℕ
default_mtu = 1500

abbrev pub new : NetworkConfig
new = record { interfaces = []; dns = none; routes = [] }

-- `BondingMode::as_str` and `FromStr for BondingMode`.
unfoldable pub as_str : BondingMode → String
as_str lacp = "802.3ad"
as_str active_backup = "active-backup"
as_str balance_rr = "balance-rr"

unfoldable pub mode_from_str : String → Result BondingMode NetworkConfigError
mode_from_str s =
    if str_eq s "802.3ad"
    then ok lacp
    else if str_eq s "active-backup"
    then ok active_backup
    else if str_eq s "balance-rr"
    then ok balance_rr
    else err (invalid_bonding_mode s)

-- Whether `parse::<T>()` succeeds, for the four types that the code parses into.
pub record Parsers : Type 0 where
  pub ipv4_addr : String → Bool
  pub ipv6_addr : String → Bool
  pub ipv4_network : String → Bool
  pub ipv6_network : String → Bool

abbrev pub Check : Type 0
Check = Result (Unit {0}) NetworkConfigError

-- `if !b { return Err(e) }`.
abbrev pub require : Bool → NetworkConfigError → Check
require true e = ok tt
require false e = err e

-- `for x in xs { f(x)? }` and `if let Some(x) = o { f(x)? }`.
abbrev pub for_each : {A : Type 0} → (A → Check) → List A → Check
for_each f [] = ok tt
for_each f (x ∷ xs) = f x >> for_each f xs

abbrev pub for_some : {A : Type 0} → (A → Check) → Option A → Check
for_some f none = ok tt
for_some f (some x) = f x

abbrev pub no_items : {A : Type 0} → List A → Bool
no_items [] = true
no_items (x ∷ xs) = false

-- The `HashSet` of names seen, as a list.
unfoldable pub unique_names : List String → List InterfaceConfig → Check
unique_names seen [] = ok tt
unique_names seen (i ∷ is) =
    let rest = unique_names (i.name ∷ seen) is in
    if any (str_eq i.name) seen
    then err (validation (format ("Duplicate interface name: " ∷ i.name ∷ [])))
    else rest

module _ (p : Parsers) where
  open p use {ipv4_addr, ipv6_addr, ipv4_network, ipv6_network}

  unfoldable pub validate_static : StaticConfig → Check
  validate_static c = do
    require (not (is_empty c.ipv4_address && no_items c.ipv6_addresses && not c.ipv6_auto)) (
        validation
          "Static configuration must have at least one IP address (IPv4 or IPv6) or IPv6 auto-config enabled")
    if is_empty c.ipv4_address then ok tt else do
      require (ipv4_network c.ipv4_address) (invalid_cidr c.ipv4_address)
      for_some (λ gw. require (ipv4_addr gw) (invalid_ip_address gw)) c.gateway
    for_each (λ a. require (ipv6_network a) (invalid_cidr a)) c.ipv6_addresses
    for_some (λ gw6. require (ipv6_addr gw6) (invalid_ip_address gw6)) c.ipv6_gateway
    require (not (ltb c.mtu 68 || ltb 9000 c.mtu))
        (validation (format ("Invalid MTU: " ∷ show c.mtu ∷ " (must be 68-9000)" ∷ [])))

  -- The `match` on the address configuration of a VLAN and of a bond.
  unfoldable pub validate_vlan_ip : VlanIpConfig → Check
  unfolding validate_static
  validate_vlan_ip VlanIpConfig.dhcp = ok tt
  validate_vlan_ip (VlanIpConfig.static s) = validate_static s

  unfoldable pub validate_bond_ip : BondIpConfig → Check
  unfolding validate_static
  validate_bond_ip BondIpConfig.dhcp = ok tt
  validate_bond_ip (BondIpConfig.static s) = validate_static s

  unfoldable pub validate_vlan : VlanConfig → Check
  unfolding validate_vlan_ip
  validate_vlan c = do
    require (not (ltb c.vlan_id 1 || ltb 4094 c.vlan_id)) (invalid_vlan_id c.vlan_id)
    require (not (is_empty c.parent)) (invalid_interface_name c.parent)
    validate_vlan_ip c.ip_config

  unfoldable pub validate_bond : BondConfig → Check
  unfolding validate_bond_ip
  validate_bond c = do
    require (not (no_items c.slaves)) (validation "Bond must have at least one slave interface")
    validate_bond_ip c.ip_config

  -- The `match` on the type of the interface.
  unfoldable pub validate_type : InterfaceType → Check
  unfolding validate_static validate_vlan validate_bond
  validate_type InterfaceType.dhcp = ok tt
  validate_type (InterfaceType.static c) = validate_static c
  validate_type (InterfaceType.vlan c) = validate_vlan c
  validate_type (InterfaceType.bond c) = validate_bond c

  unfoldable pub validate_interface : InterfaceConfig → Check
  unfolding validate_type
  validate_interface i = do
    require (not (is_empty i.name || ltb 15 (len i.name))) (invalid_interface_name i.name)
    validate_type i.config

  unfoldable pub validate_dns : DnsConfig → Check
  validate_dns d = do
    require (not (no_items d.nameservers))
        (validation "DNS configuration must have at least one nameserver")
    for_each (λ ns. require (ipv4_addr ns || ipv6_addr ns) (invalid_ip_address ns)) d.nameservers

  unfoldable pub validate_route : RouteConfig → Check
  validate_route r = do
    require (ipv4_network r.destination || ipv6_network r.destination) (invalid_cidr r.destination)
    require (ipv4_addr r.gateway || ipv6_addr r.gateway) (invalid_ip_address r.gateway)

  -- `NetworkConfig::validate`: the parts in order, then the names.
  unfoldable pub validate : NetworkConfig → Check
  unfolding validate_interface validate_dns validate_route unique_names
  validate c = do
    for_each validate_interface c.interfaces
    for_some validate_dns c.dns
    for_each validate_route c.routes
    unique_names [] c.interfaces

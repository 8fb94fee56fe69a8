-- ===== src/Config/Network/Static.antt =====
-- Which static address configurations `StaticConfig::validate` accepts.
use keelos.Prelude.{
  ℕ, ◌≤◌, ◌≡◌, ◌≢◌, ◌↔◌, ◌⊎◌, inl, inr, refl, arith, ltb, String, is_empty, is_empty-true,
  ne-empty_of_false, Bool, Bool-cases, true, false, not, ◌&&◌, ◌||◌, some, List, [], ◌∷◌, ok, ◌>>◌,
  if◌then◌else◌,
}
use keelos.Config.Network.{
  invalid_cidr, invalid_ip_address, StaticConfig, Parsers, require, for_some, no_items,
  validate_static,
}
use keelos.Config.Network.Checks.{require_iff, then_iff, for_each_iff, for_some_iff, All-iff}
use keelos.Config.Network.Valid.{IsValidStatic}

-- A static configuration has an address, or finds one by itself.
some_address_iff :
    (v4 : String) (v6 : List String) (auto : Bool)
    → (not (is_empty v4 && no_items v6 && not auto) ≡ true)
      ↔ ((v4 ≢ "") ⊎ (v6 ≢ []) ⊎ (auto ≡ true))
some_address_iff (String.◌∷◌ c s) v6 auto = ((λ _. inl (λ e. cc)), (λ _. refl))
some_address_iff String.[] (a ∷ v6) auto = ((λ _. inr (inl (λ e. cc))), (λ _. refl))
some_address_iff String.[] [] true = ((λ _. inr (inr refl)), (λ _. refl))
some_address_iff String.[] [] false = ((λ h. cc), (λ h. ground arith))

mtu_iff : (m : ℕ) → (not (ltb m 68 || ltb 9000 m) ≡ true) ↔ ((68 ≤ m) × (m ≤ 9000))
mtu_iff m = ((λ h. (ground arith, ground arith)), (λ h. ground arith))

module _ (p : Parsers) where
  open p use {ipv4_addr, ipv6_addr, ipv4_network, ipv6_network}

  ipv4_part_iff :
      (c : StaticConfig)
      → ((if is_empty c.ipv4_address
            then ok tt
            else (require (ipv4_network c.ipv4_address) (invalid_cidr c.ipv4_address)
                >> for_some (λ gw. require (ipv4_addr gw) (invalid_ip_address gw)) c.gateway))
          ≡ ok tt)
        ↔ ((c.ipv4_address ≢ "" → ipv4_network c.ipv4_address ≡ true)
            × (c.ipv4_address ≢ "" → (g : String) → c.gateway ≡ some g → ipv4_addr g ≡ true))
  ipv4_part_iff c = elim (Bool-cases (is_empty c.ipv4_address)) [
    | inl e ↦ rw e (
      (λ _. ((λ n. absurd (n (is_empty-true _ e))), (λ n. absurd (n (is_empty-true _ e))))),
      (λ _. refl),
    )
    | inr f ↦ rw f (
      (λ h.
          let (net, gw) = (then_iff _ _).0 h in
          (
            (λ _. (require_iff _ _).0 net),
            (λ _ g e. (require_iff _ _).0 ((for_some_iff _ c.gateway).0 gw g e)),
          )),
      (λ h. (then_iff _ _).1 (
        (require_iff _ _).1 (h.0 (ne-empty_of_false _ f)),
        (for_some_iff _ c.gateway).1 (λ g e. (require_iff _ _).1 (h.1 (ne-empty_of_false _ f) g e)),
      )),
    )
  ]

  pub static_iff : (c : StaticConfig) → (validate_static p c ≡ ok tt) ↔ IsValidStatic p c
  unfolding validate_static
  static_iff c = (
    (λ h.
        let (address, h₁) = (then_iff _ _).0 h in
        let (v4, h₂) = (then_iff _ _).0 h₁ in
        let (v6, h₃) = (then_iff _ _).0 h₂ in
        let (gw6, mtu) = (then_iff _ _).0 h₃ in
        record {
          some_address =
              (some_address_iff c.ipv4_address c.ipv6_addresses c.ipv6_auto).0
                ((require_iff _ _).0 address);
          ipv4 = ((ipv4_part_iff c).0 v4).0;
          ipv4_gateway = ((ipv4_part_iff c).0 v4).1;
          ipv6 =
              (All-iff (λ a. require_iff _ _) c.ipv6_addresses).0
                ((for_each_iff _ c.ipv6_addresses).0 v6);
          gateway6 = λ g e. (require_iff _ _).0 ((for_some_iff _ c.ipv6_gateway).0 gw6 g e);
          mtu_from = ((mtu_iff c.mtu).0 ((require_iff _ _).0 mtu)).0;
          mtu_to = ((mtu_iff c.mtu).0 ((require_iff _ _).0 mtu)).1;
        }),
    (λ v. (then_iff _ _).1 (
      (require_iff _ _).1
          ((some_address_iff c.ipv4_address c.ipv6_addresses c.ipv6_auto).1 v.some_address),
      (then_iff _ _).1 (
        (ipv4_part_iff c).1 (v.ipv4, v.ipv4_gateway),
        (then_iff _ _).1 (
          (for_each_iff _ c.ipv6_addresses).1
              ((All-iff (λ a. require_iff _ _) c.ipv6_addresses).1 v.ipv6),
          (then_iff _ _).1 (
            (for_some_iff _ c.ipv6_gateway).1 (λ g e. (require_iff _ _).1 (v.gateway6 g e)),
            (require_iff _ _).1 ((mtu_iff c.mtu).1 (v.mtu_from, v.mtu_to)),
          ),
        ),
      ),
    )),
  )

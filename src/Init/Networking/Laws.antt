-- ===== src/Init/Networking/Laws.antt =====
-- Which commands are run whatever fails, and which are not.
use keelos.Prelude.{All, All-of, inl, inr, String, Bool, List, [], ◌∷◌, In}
use mathlib.Core.Path.{subst}
use keelos.Config.Network.{InterfaceConfig, RouteConfig, NetworkConfig}
use keelos.Init.Networking.{
  Exit, Command, Net, for_each, for_some, link_up, configure_type, configure_interface,
  configure_dns, route_command, configure_route, apply_network_config,
}
use keelos.Init.Networking.Trace.{
  Grows, run-In, run_then-In, for_each-Grows, for_some-Grows, type-Grows, interface-Grows,
  dns-Grows, route-Grows,
}

module _ {K : Type 0} (ip : Command → K → K × Exit) (write_fails : String → Bool) where
  interface-In :
      (i : InterfaceConfig) (n : Net K)
      → In (link_up ip write_fails i.name) (configure_interface ip write_fails i n).trace
  unfolding configure_interface
  interface-In i n =
      run_then-In ip write_fails (link_up ip write_fails i.name)
        (configure_type ip write_fails i.name i.config) n
        (type-Grows ip write_fails i.name i.config)

  route-In :
      (r : RouteConfig) (n : Net K)
      → In (route_command ip write_fails r) (configure_route ip write_fails r n).trace
  unfolding configure_route
  route-In r n = run-In ip write_fails _ n

  for_each-In :
      {A : Type 0} (f : A → Net K → Net K) (command : A → Command) (xs : List A) (x : A) (n : Net K)
      → ((y : A) → Grows ip write_fails (f y))
      → ((y : A) (k : Net K) → In (command y) (f y k).trace)
      → In x xs
      → In (command x) (for_each ip write_fails f xs n).trace
  for_each-In f command [] x n g r m = absurd m
  for_each-In f command (y ∷ ys) x n g r (inl e) =
      for_each-Grows ip write_fails f ys g (command x) (f y n)
        (subst (λ z. In (command z) (f y n).trace) e (r y n))
  for_each-In f command (y ∷ ys) x n g r (inr m) = for_each-In f command ys x (f y n) g r m

  -- Applying a configuration tries to bring up every interface of it, and to add every route,
  -- whatever fails on the way.
  pub apply-tries :
      (config : NetworkConfig) (n : Net K)
      → All
          (λ i.
            In (link_up ip write_fails i.name) (apply_network_config ip write_fails config n).trace)
          config.interfaces
        × All
            (λ r.
              In
                (route_command ip write_fails r)
                (apply_network_config ip write_fails config n).trace)
            config.routes
  unfolding apply_network_config
  apply-tries config n =
      let up = for_each ip write_fails (configure_interface ip write_fails) config.interfaces n in
      let dns = for_some ip write_fails (configure_dns ip write_fails) config.dns up in
      (
        All-of _ config.interfaces (λ i m.
            let a = link_up ip write_fails i.name in
            for_each-Grows ip write_fails (configure_route ip write_fails) config.routes
              (route-Grows ip write_fails) a dns
              (for_some-Grows ip write_fails (configure_dns ip write_fails) config.dns
                (dns-Grows ip write_fails) a up
                (for_each-In (configure_interface ip write_fails)
                  (λ y. link_up ip write_fails y.name) config.interfaces i n
                  (interface-Grows ip write_fails) interface-In m))),
        All-of _ config.routes (λ r m.
            for_each-In (configure_route ip write_fails) (route_command ip write_fails)
              config.routes r dns (route-Grows ip write_fails) route-In m),
      )

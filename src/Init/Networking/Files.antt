-- ===== src/Init/Networking/Files.antt =====
-- The files that name resolution needs, after the networking is set up.
use keelos.Prelude.{◌≡◌, ◌≢◌, arith, String, eq_iff, eq_refl, Bool, false, Option, none, Result}
use keelos.Prelude.Dict.{get, get-put}
use keelos.Config.Network.{NetworkConfig, NetworkConfigError}
use keelos.Init.Networking.{
  Exit, Command, Net, write, ensure, loaded, configure_loopback, setup_networking, hosts_text,
  default_resolv,
}

module _ {K : Type 0} (ip : Command → K → K × Exit) (write_fails : String → Bool) where
  ensure-there :
      (path text : String) (n : Net K)
      → write_fails path ≡ false
      → get path (ensure ip write_fails path text n).files ≢ none
  unfolding ensure write
  ensure-there path text n w h = ground (arith, get-put path path text n.files, eq_refl path)

  ensure-keeps :
      (k path text : String) (n : Net K)
      → get k n.files ≢ none
      → get k (ensure ip write_fails path text n).files ≢ none
  unfolding ensure write
  ensure-keeps k path text n there h = ground (arith, get-put path k text n.files, eq_iff path k)

  -- If the writes of the two files do not fail, both exist once the networking is set up, whatever
  -- the configuration is and whatever commands fail.
  pub setup-files :
      (config : Result NetworkConfig NetworkConfigError) (hostname : Option String) (n : Net K)
      → write_fails "/etc/resolv.conf" ≡ false
      → write_fails "/etc/hosts" ≡ false
      → (get "/etc/resolv.conf" (setup_networking ip write_fails config hostname n).files ≢ none)
        × (get "/etc/hosts" (setup_networking ip write_fails config hostname n).files ≢ none)
  unfolding setup_networking
  setup-files config hostname n r h =
      let l = loaded ip write_fails config (configure_loopback ip write_fails n) in
      let d = ensure ip write_fails "/etc/resolv.conf" (default_resolv ip write_fails) l in
      (
        ensure-keeps "/etc/resolv.conf" "/etc/hosts" (hosts_text ip write_fails hostname) d
            (ensure-there "/etc/resolv.conf" (default_resolv ip write_fails) l r),
        ensure-there "/etc/hosts" (hosts_text ip write_fails hostname) d h,
      )

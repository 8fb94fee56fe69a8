-- ===== src/Agent/Bootstrap/Laws.antt =====
-- What a bootstrap leaves for get_bootstrap_status.
use keelos.Prelude.{
  ◌≡◌, refl, arith, String, if◌then◌else◌, Bool, true, false, Option, none, some, Result, ok, err,
}
use keelos.Config.Bootstrap.{
  BootstrapError, BootstrapConfig, Codec, Files, Fault, describe, set, write, save, save_text, load,
  is_bootstrapped,
}
use keelos.Agent.Bootstrap.{
  BootstrapKubernetesRequest, BootstrapKubernetesResponse, GetBootstrapStatusResponse, Env, Outcome,
  bootstrap_state_path, restart_signal_path, kubeconfig_path, ca_cert_path, and_then, same,
  signalled, state_of, signal_restart, save_state, write_kubeconfig, kubeconfig_given,
  kubeconfig_made, make_kubeconfig, write_ca, in_directory, named, node_name_of, checked,
  bootstrap_kubernetes, get_bootstrap_status,
}

-- What `serde_json` promises of the derived instances: reading gives back what was written.
abbrev pub IsFaithful : Codec → Type 0
IsFaithful j = (c : BootstrapConfig) (s : String) → j.to_string c ≡ ok s → j.from_str s ≡ ok c

abbrev pub reported : BootstrapConfig → GetBootstrapStatusResponse
reported c = record {
  is_bootstrapped = true;
  api_server_endpoint = c.api_server;
  node_name = c.node_name;
  kubeconfig_path = c.kubeconfig_path;
  bootstrapped_at = c.bootstrapped_at;
}

module _ (req : BootstrapKubernetesRequest) (env : Env) where
  -- When the outcome is `Ok`, the status reports what the request asked for.
  abbrev Reports : String → Outcome → Type 0
  Reports node o =
      (r : BootstrapKubernetesResponse)
      → o.1 ≡ ok r
      → get_bootstrap_status env.codec o.0 ≡ ok (reported (state_of req node env.now))

  -- What the state's file holds.
  abbrev Holds : String → Files → Type 0
  Holds node files =
      (s : String) × (files bootstrap_state_path ≡ some s)
      × (env.codec.from_str s ≡ ok (state_of req node env.now))

  Holds-status :
      (node : String) (files : Files)
      → Holds node files
      → get_bootstrap_status env.codec files ≡ ok (reported (state_of req node env.now))
  unfolding get_bootstrap_status is_bootstrapped load
  Holds-status node files (s, e, f) = ground (arith, e, f)

  signal_with-Reports :
      (fault : Fault) (node : String) (files : Files)
      → Holds node files
      → Reports node (
          and_then same "Failed to create restart signal: "
            (signalled node)
            (write restart_signal_path "1" fault files))
  signal_with-Reports none node files h r k =
      Holds-status node (set restart_signal_path (some "1") files) h
  signal_with-Reports (some (e, left)) node files h r k = absurd (ground arith)

  signal-Reports :
      (node : String) (files : Files)
      → Holds node files
      → Reports node (signal_restart env node files)
  unfolding signal_restart
  signal-Reports node files h = signal_with-Reports env.signal_fault node files h

  save_text-Reports :
      (t : Result String String) (fault : Fault) (node : String) (files : Files)
      → ((s : String) → t ≡ ok s → env.codec.from_str s ≡ ok (state_of req node env.now))
      → Reports node (
          and_then describe "Failed to save bootstrap state: "
            (signal_restart env node)
            (save_text t bootstrap_state_path fault files))
  save_text-Reports (ok text) none node files law r k =
      signal-Reports node (set bootstrap_state_path (some text) files) (text, refl, law text refl) r
        k
  save_text-Reports (ok text) (some (e, left)) node files law r k = absurd (ground arith)
  save_text-Reports (err e) fault node files law r k = absurd (ground arith)

  save-Reports :
      (node : String) (files : Files)
      → IsFaithful env.codec
      → Reports node (save_state req env node files)
  unfolding save_state save
  save-Reports node files law =
      let c = state_of req node env.now in
      save_text-Reports (env.codec.to_string c) env.state_fault node files (law c)

  then-Reports :
      {E : Type 0} (text : E → String) (what node : String) (next : Files → Outcome)
      (x : Files × Result (Unit {0}) E)
      → ((f : Files) → Reports node (next f))
      → Reports node (and_then text what next x)
  then-Reports text what node next (files, ok tt) h r k = h files r k
  then-Reports text what node next (files, err e) h r k = absurd (ground arith)

  kubeconfig-Reports :
      (node content : String) (files : Files)
      → IsFaithful env.codec
      → Reports node (write_kubeconfig req env node content files)
  unfolding write_kubeconfig
  kubeconfig-Reports node content files law =
      then-Reports same "Failed to write kubeconfig: " node (save_state req env node)
        (write kubeconfig_path content env.kubeconfig_fault files) (λ f. save-Reports node f law)

  given-Reports :
      (node : String) (t : Result String String) (files : Files)
      → IsFaithful env.codec
      → Reports node (kubeconfig_given req env node t files)
  unfolding kubeconfig_given
  given-Reports node (ok content) files law = kubeconfig-Reports node content files law
  given-Reports node (err e) files law = λ r k. absurd (ground arith)

  made-Reports :
      (node : String) (t : Result String BootstrapError) (files : Files)
      → IsFaithful env.codec
      → Reports node (kubeconfig_made req env node t files)
  unfolding kubeconfig_made
  made-Reports node (ok content) files law = kubeconfig-Reports node content files law
  made-Reports node (err e) files law = λ r k. absurd (ground arith)

  if-Reports :
      (b : Bool) (node : String) (x y : Outcome)
      → Reports node x
      → Reports node y
      → Reports node (if b then x else y)
  if-Reports true node x y h k = h
  if-Reports false node x y h k = k

  make-Reports :
      (node : String) (files : Files)
      → IsFaithful env.codec
      → Reports node (make_kubeconfig req env node files)
  unfolding make_kubeconfig
  make-Reports node files law =
      if-Reports _ node _ _ (given-Reports node _ files law) (made-Reports node _ files law)

  ca-Reports :
      (node : String) (files : Files)
      → IsFaithful env.codec
      → Reports node (write_ca req env node files)
  unfolding write_ca
  ca-Reports node files law =
      if-Reports _ node _ _
        (then-Reports same "Failed to write CA certificate: " node (make_kubeconfig req env node)
          (write ca_cert_path req.ca_cert_pem env.ca_fault files) (λ f. make-Reports node f law))
        (make-Reports node files law)

  directory-Reports :
      (fault : Option String) (node : String) (files : Files)
      → IsFaithful env.codec
      → Reports node (in_directory req env fault node files)
  unfolding in_directory
  directory-Reports none node files law = ca-Reports node files law
  directory-Reports (some e) node files law = λ r k. absurd (ground arith)

  checked-ok :
      (files : Files) (o : Outcome) (r : BootstrapKubernetesResponse)
      → (checked req files o).1 ≡ ok r
      → o ≡ checked req files o
  checked-ok files o r h = ground arith

  named-Reports :
      (node : String) (files : Files)
      → IsFaithful env.codec
      → Reports node (named req env (ok node) files)
  unfolding named
  named-Reports node files law = directory-Reports env.dir_fault node files law

  -- After a bootstrap that returns `Ok`, the status reports a bootstrapped node with the request's
  -- endpoint, the node's name, the path of the kubeconfig and the time; if `serde_json` reads back
  -- what it writes. The name is the request's, or the hostname if the request has none.
  pub bootstrap-status :
      (node : String) (files : Files) (r : BootstrapKubernetesResponse)
      → IsFaithful env.codec
      → node_name_of req env ≡ ok node
      → (bootstrap_kubernetes req env files).1 ≡ ok r
      → get_bootstrap_status env.codec (bootstrap_kubernetes req env files).0
        ≡ ok (record {
          is_bootstrapped = true;
          api_server_endpoint = req.api_server_endpoint;
          node_name = node;
          kubeconfig_path = "/var/lib/keel/kubernetes/kubelet.kubeconfig";
          bootstrapped_at = env.now;
        })
  unfolding bootstrap_kubernetes
  bootstrap-status node files r law e =
      rw (bootstrap_kubernetes, e)
        (λ h.
          let c = checked-ok files (named req env (ok node) files) r h in
          rw (← c) (named-Reports node files law r (rw (← c) at h)))

-- ===== src/Agent/Bootstrap/Errors.antt =====
-- What a bootstrap that fails leaves for get_bootstrap_status.
use keelos.Prelude.{
  ◌≡◌, refl, arith, String, str_eq, if◌then◌else◌, Bool, true, false, Option, none, some, Result,
  ok, err,
}
use keelos.Agent.Status.{Code, Status}
use keelos.Config.Bootstrap.{
  BootstrapError, Files, Fault, describe, set, write, save, save_text, is_bootstrapped,
}
use keelos.Agent.Bootstrap.{
  BootstrapKubernetesRequest, Env, Outcome, bootstrap_state_path, restart_signal_path,
  kubeconfig_path, ca_cert_path, failed, and_then, same, signalled, state_of, signal_restart,
  save_state, write_kubeconfig, kubeconfig_given, kubeconfig_made, make_kubeconfig, write_ca,
  in_directory, named, node_name_of, checked, bootstrap_kubernetes, get_bootstrap_status,
}

module _ (req : BootstrapKubernetesRequest) (env : Env) (v : Option String) where
  -- An outcome that is an error has left the file of the state with this content.
  abbrev Keeps : Outcome → Type 0
  Keeps o = (s : Status) → o.1 ≡ err s → o.0 bootstrap_state_path ≡ v

  failed-Keeps :
      (code : Code) (what e : String) (files : Files)
      → files bootstrap_state_path ≡ v
      → Keeps (failed code what e files)
  failed-Keeps code what e files h s k = h

  and_then-Keeps :
      {E : Type 0} (text : E → String) (what : String) (next : Files → Outcome)
      (x : Files × Result (Unit {0}) E)
      → x.0 bootstrap_state_path ≡ v
      → ((f : Files) → f bootstrap_state_path ≡ v → Keeps (next f))
      → Keeps (and_then text what next x)
  and_then-Keeps text what next (files, ok tt) h g s k = g files h s k
  and_then-Keeps text what next (files, err e) h g s k = h

  write_elsewhere :
      (path text : String) (fault : Fault) (files : Files)
      → str_eq path bootstrap_state_path ≡ false
      → files bootstrap_state_path ≡ v
      → (write path text fault files).0 bootstrap_state_path ≡ v
  write_elsewhere path text none files e h = ground (arith, e, h)
  write_elsewhere path text (some (x, left)) files e h = ground (arith, e, h)

  signal-Keeps :
      (fault : Fault) (node : String) (files : Files)
      → fault ≡ none
      → Keeps (
          and_then same "Failed to create restart signal: "
            (signalled node)
            (write restart_signal_path "1" fault files))
  signal-Keeps none node files e s k = absurd (ground arith)
  signal-Keeps (some f) node files e s k = absurd (ground arith)

  save_text-Keeps :
      (t : Result String String) (fault : Fault) (node : String) (files : Files)
      → fault ≡ none
      → env.signal_fault ≡ none
      → files bootstrap_state_path ≡ v
      → Keeps (
          and_then describe "Failed to save bootstrap state: "
            (signal_restart env node)
            (save_text t bootstrap_state_path fault files))
  unfolding signal_restart
  save_text-Keeps (ok text) none node files e f h =
      signal-Keeps env.signal_fault node (set bootstrap_state_path (some text) files) f
  save_text-Keeps (ok text) (some x) node files e f h = λ s k. absurd (ground arith)
  save_text-Keeps (err x) fault node files e f h = λ s k. h

  kubeconfig-Keeps :
      (node content : String) (files : Files)
      → env.state_fault ≡ none
      → env.signal_fault ≡ none
      → files bootstrap_state_path ≡ v
      → Keeps (write_kubeconfig req env node content files)
  unfolding write_kubeconfig save_state save
  kubeconfig-Keeps node content files e f h =
      and_then-Keeps same "Failed to write kubeconfig: " (save_state req env node)
        (write kubeconfig_path content env.kubeconfig_fault files)
        (write_elsewhere kubeconfig_path content env.kubeconfig_fault files refl h)
        (λ files' h'.
          save_text-Keeps (env.codec.to_string (state_of req node env.now)) env.state_fault node
            files' e f h')

  if-Keeps : (b : Bool) (x y : Outcome) → Keeps x → Keeps y → Keeps (if b then x else y)
  if-Keeps true x y h k = h
  if-Keeps false x y h k = k

  given-Keeps :
      (node : String) (t : Result String String) (files : Files)
      → env.state_fault ≡ none
      → env.signal_fault ≡ none
      → files bootstrap_state_path ≡ v
      → Keeps (kubeconfig_given req env node t files)
  unfolding kubeconfig_given
  given-Keeps node (ok content) files e f h = kubeconfig-Keeps node content files e f h
  given-Keeps node (err x) files e f h = λ s k. h

  made-Keeps :
      (node : String) (t : Result String BootstrapError) (files : Files)
      → env.state_fault ≡ none
      → env.signal_fault ≡ none
      → files bootstrap_state_path ≡ v
      → Keeps (kubeconfig_made req env node t files)
  unfolding kubeconfig_made
  made-Keeps node (ok content) files e f h = kubeconfig-Keeps node content files e f h
  made-Keeps node (err x) files e f h = λ s k. h

  make-Keeps :
      (node : String) (files : Files)
      → env.state_fault ≡ none
      → env.signal_fault ≡ none
      → files bootstrap_state_path ≡ v
      → Keeps (make_kubeconfig req env node files)
  unfolding make_kubeconfig
  make-Keeps node files e f h =
      if-Keeps _ _ _ (given-Keeps node _ files e f h) (made-Keeps node _ files e f h)

  ca-Keeps :
      (node : String) (files : Files)
      → env.state_fault ≡ none
      → env.signal_fault ≡ none
      → files bootstrap_state_path ≡ v
      → Keeps (write_ca req env node files)
  unfolding write_ca
  ca-Keeps node files e f h =
      if-Keeps _ _ _
        (and_then-Keeps same "Failed to write CA certificate: " (make_kubeconfig req env node)
          (write ca_cert_path req.ca_cert_pem env.ca_fault files)
          (write_elsewhere ca_cert_path req.ca_cert_pem env.ca_fault files refl h)
          (λ files' h'. make-Keeps node files' e f h'))
        (make-Keeps node files e f h)

  directory-Keeps :
      (fault : Option String) (node : String) (files : Files)
      → env.state_fault ≡ none
      → env.signal_fault ≡ none
      → files bootstrap_state_path ≡ v
      → Keeps (in_directory req env fault node files)
  unfolding in_directory
  directory-Keeps none node files e f h = ca-Keeps node files e f h
  directory-Keeps (some x) node files e f h = λ s k. h

  named-Keeps :
      (t : Result String String) (files : Files)
      → env.state_fault ≡ none
      → env.signal_fault ≡ none
      → files bootstrap_state_path ≡ v
      → Keeps (named req env t files)
  unfolding named
  named-Keeps (ok node) files e f h = directory-Keeps env.dir_fault node files e f h
  named-Keeps (err x) files e f h = λ s k. h

  checked-Keeps :
      (files : Files) (o : Outcome)
      → files bootstrap_state_path ≡ v
      → Keeps o
      → Keeps (checked req files o)
  checked-Keeps files o h g s k = ground (arith, h, g s)

-- A bootstrap that fails reports nothing new: if the writes of the state and of the restart signal
-- do not fail, the status is after an error what it was before.
pub bootstrap_error-status :
    (req : BootstrapKubernetesRequest) (env : Env) (files : Files) (s : Status)
    → env.state_fault ≡ none
    → env.signal_fault ≡ none
    → (bootstrap_kubernetes req env files).1 ≡ err s
    → get_bootstrap_status env.codec (bootstrap_kubernetes req env files).0
      ≡ get_bootstrap_status env.codec files
unfolding bootstrap_kubernetes get_bootstrap_status is_bootstrapped
bootstrap_error-status req env files s e f k =
    let v = files bootstrap_state_path in
    let o = named req env (node_name_of req env) files in
    let same_state =
      checked-Keeps req env v files o refl
        (named-Keeps req env v (node_name_of req env) files e f refl) s k in
    ground (arith, same_state)

-- ===== src/Init/Supervise.antt =====
-- cmd/keel-init/src/main.rs: the supervision of keel-agent, containerd and kubelet, as the step that
-- the loop repeats. The shift of the back-off is that of a build without overflow checks.
pub mod Laws
use keelos.Prelude.{
  any, ◌==◌, ℕ, ◌+◌, ◌-◌, ◌%◌, ◌^◌, min, if◌then◌else◌, Bool, true, false, not, ◌&&◌, is_some,
  Option, none, some, List, [], ◌∷◌, ◌++◌,
}

-- A child process, by its pid.
abbrev pub Child : Type 0
Child = ℕ

-- The children that the loop holds, the restarts of the agent, the static `SWITCHED`, and the
-- children that have been waited for, as the kernel knows. A pid is not used twice.
pub record Services : Type 0 where
  pub agent : Option Child
  pub containerd : Option Child
  pub kubelet : Option Child
  pub agent_restart_count : ℕ  -- u32
  pub switched : Bool
  pub reaped : List Child

-- What one round finds: the children that have exited when it starts, and those that exit between
-- the reaping of zombies and the checks, what each attempt to spawn gives, and the
-- files that exist when the round looks.
pub record Found : Type 0 where
  pub exited : List Child
  pub exited_since : List Child
  pub spawn_containerd : Option Child
  pub spawn_agent : Option Child
  pub spawn_kubelet : Option Child
  pub respawn_kubelet : Option Child
  pub bootstrap_exists : Bool
  pub permanent_exists : Bool
  pub restart_signal : Bool

-- What the round does that can be seen from outside.
pub data Action : Type 0 where
  sleep : ℕ → Action
  start_containerd start_agent start_kubelet : Action
  kill_kubelet : Child → Action
  remove_signal : Action

abbrev pub max_restart_delay_secs : ℕ
max_restart_delay_secs = 60

-- `min(1u64 << agent_restart_count, max_restart_delay_secs)`.
unfoldable pub restart_delay : ℕ → ℕ
restart_delay count = min (2 ^ (count % 64)) max_restart_delay_secs

-- `saturating_add(1)` in 32 bits.
unfoldable pub saturating_suc : ℕ → ℕ
saturating_suc n = min (n + 1) (2 ^ 32 - 1)

abbrev pub Step : Type 0
Step = Services × List Action

-- `waitpid(-1, WNOHANG)` until no child is left that has exited.
unfoldable pub reap_zombies : Found → Services → Services
reap_zombies f s = record s { reaped = f.exited ++ s.reaped }

abbrev pub member : Child → List Child → Bool
member pid = any (λ p. p == pid)

-- Whether `try_wait` gives `Ok(Some(_))`: for a child that has been waited for it gives an error.
unfoldable pub has_exited : Found → Services → Child → Bool
has_exited f s pid = not (member pid s.reaped) && member pid f.exited_since

unfoldable pub check_containerd : Found → Services → Step
unfolding has_exited
check_containerd f s = elim s.containerd [
  | none ↦ (s, [])
  | some pid ↦
      if has_exited f s pid
      then (record s { containerd = f.spawn_containerd }, start_containerd ∷ [])
      else (s, [])
]

abbrev pub agent_restarted : Option Child → Services → Services
unfolding saturating_suc
agent_restarted none s = record s { agent = none }
agent_restarted (some pid) s = record s {
  agent = some pid;
  agent_restart_count = saturating_suc s.agent_restart_count;
}

unfoldable pub check_agent : Found → Services → Step
unfolding agent_restarted restart_delay has_exited
check_agent f s = elim s.agent [
  | none ↦ (s, [])
  | some pid ↦
      if has_exited f s pid
      then (
        agent_restarted f.spawn_agent s,
        sleep (restart_delay s.agent_restart_count) ∷ start_agent ∷ [],
      )
      else (s, [])
]

unfoldable pub check_kubelet : Found → Services → Step
unfolding has_exited
check_kubelet f s = elim s.kubelet [
  | none ↦ (s, [])
  | some pid ↦ if has_exited f s pid then (record s { kubelet = none }, []) else (s, [])
]

unfoldable pub check_bootstrap : Found → Services → Step
check_bootstrap f s =
    if f.bootstrap_exists && not (is_some s.kubelet)
    then (record s { kubelet = f.spawn_kubelet }, start_kubelet ∷ [])
    else (s, [])

-- Whether the permanent kubeconfig has appeared, and this was not seen before.
abbrev pub switches : Found → Services → Bool
switches f s =
    not f.restart_signal
    && f.bootstrap_exists
    && f.permanent_exists
    && is_some s.kubelet
    && not s.switched

abbrev pub kill : Option Child → List Action
kill none = []
kill (some pid) = kill_kubelet pid ∷ []

abbrev pub restart : Found → Services → Step
restart f s = (
  record s { kubelet = f.respawn_kubelet },
  kill s.kubelet ++ (remove_signal ∷ start_kubelet ∷ []),
)

unfoldable pub check_restart : Found → Services → Step
check_restart f s =
    if f.restart_signal
    then restart f s
    else if switches f s
    then restart f (record s { switched = true })
    else (s, [])

-- One check after another.
abbrev pub also : Step → (Services → Step) → Step
also (s, a) next = let (s', b) = next s in (s', a ++ b)

-- The body of the loop.
unfoldable pub round : Found → Services → Step
unfolding reap_zombies check_containerd check_agent check_kubelet check_bootstrap check_restart
round f s =
    also
      (also (also (also (check_containerd f (reap_zombies f s)) (check_agent f)) (check_kubelet f))
        (check_bootstrap f))
      (check_restart f)

unfoldable pub supervise : List Found → Services → Step
unfolding round
supervise [] s = (s, [])
supervise (f ∷ rest) s = also (round f s) (supervise rest)

-- ===== src/Init/Storage/Laws.antt =====
-- What the start-up formats, and when.
use keelos.Prelude.{
  ◌≡◌, ◌⊎◌, inl, inr, refl, sym, arith, ap, String, Bool, true, false, Bool-cases, List, [], ◌∷◌,
  ◌++◌, All, In, In-append, In-append_left, In-append_right,
}
use mathlib.Core.Path.{subst}
use keelos.Init.Storage.{
  Op, mkdir, mkfs, Boot, data_mount, candidates, bind_dirs, exec, run_all, after_format,
  after_mount, try_device, try_devices, bind_ops, bind_if, setup_persistent_storage,
}

abbrev Trace : Type 0
Trace = List (Op × Bool)

abbrev is_mkfs : Op → Bool
is_mkfs (mkfs dev) = true
is_mkfs _ = false

abbrev device_of : Op → String
device_of (mkfs dev) = dev
device_of _ = ""

-- Every device that is formatted is one that could not be mounted.
abbrev IsCareful : Trace → Type 0
IsCareful t = (dev : String) (done : Bool) → In (mkfs dev, done) t → In (data_mount dev, false) t

add-IsCareful :
    (t : Trace) (op : Op) (done : Bool)
    → is_mkfs op ≡ false
    → IsCareful t
    → IsCareful (t ++ ((op, done) ∷ []))
add-IsCareful t op done n c dev r m = elim (In-append t ((op, done) ∷ []) (mkfs dev, r) m) [
  | inl k ↦ In-append_left t ((op, done) ∷ []) (data_mount dev, false) (c dev r k)
  | inr k ↦ elim k [
    | inl e ↦ absurd (ground (arith, n, ap (λ (x : Op × Bool). is_mkfs x.0) e))
    | inr x ↦ absurd x
  ]
]

mkfs-IsCareful :
    (t : Trace) (dev : String) (done : Bool)
    → In (data_mount dev, false) t
    → IsCareful t
    → IsCareful (t ++ ((mkfs dev, done) ∷ []))
mkfs-IsCareful t dev done h c d r m = elim (In-append t ((mkfs dev, done) ∷ []) (mkfs d, r) m) [
  | inl k ↦ In-append_left t ((mkfs dev, done) ∷ []) (data_mount d, false) (c d r k)
  | inr k ↦ elim k [
    | inl e ↦
        let same : dev ≡ d = ap (λ (x : Op × Bool). device_of x.0) e in
        In-append_left t ((mkfs dev, done) ∷ []) (data_mount d, false)
          (subst (λ s. In (data_mount s, false) t) same h)
    | inr x ↦ absurd x
  ]
]

module _ {K : Type 0} (perform : Op → K → K × Bool) (exists : String → K → Bool) where
  run_all-IsCareful :
      (ops : List Op) (b : Boot K)
      → All (λ op. is_mkfs op ≡ false) ops
      → IsCareful b.trace
      → IsCareful (run_all perform exists ops b).trace
  unfolding run_all exec
  run_all-IsCareful [] b n c = c
  run_all-IsCareful (op ∷ ops) b (n, ns) c =
      run_all-IsCareful ops (exec perform exists op b).0 ns
        (add-IsCareful b.trace op (perform op b.kernel).1 n c)

  after_format-IsCareful :
      (dev : String) (x : Boot K × Bool)
      → IsCareful x.0.trace
      → IsCareful (after_format perform exists dev x).0.trace
  unfolding exec
  after_format-IsCareful dev (b, true) c =
      add-IsCareful b.trace (data_mount dev) (perform (data_mount dev) b.kernel).1 refl c
  after_format-IsCareful dev (b, false) c = c

  after_mount-IsCareful :
      (dev : String) (x : Boot K × Bool)
      → IsCareful x.0.trace
      → (x.1 ≡ true) ⊎ In (data_mount dev, false) x.0.trace
      → IsCareful (after_mount perform exists dev x).0.trace
  unfolding exec
  after_mount-IsCareful dev (b, true) c h = c
  after_mount-IsCareful dev (b, false) c (inl e) = cc
  after_mount-IsCareful dev (b, false) c (inr m) =
      after_format-IsCareful dev (exec perform exists (mkfs dev) b)
        (mkfs-IsCareful b.trace dev (perform (mkfs dev) b.kernel).1 m c)

  exec-In :
      (op : Op) (b : Boot K)
      → ((exec perform exists op b).1 ≡ true) ⊎ In (op, false) (exec perform exists op b).0.trace
  unfolding exec
  exec-In op b = elim (Bool-cases (perform op b.kernel).1) [
    | inl e ↦ inl e
    | inr e ↦ inr (
        In-append_right b.trace ((op, (perform op b.kernel).1) ∷ []) (op, false)
          (inl (ap (λ (d : Bool). (op, d)) e)))
  ]

  try_device-IsCareful :
      (dev : String) (b : Boot K)
      → IsCareful b.trace
      → IsCareful (try_device perform exists dev b).0.trace
  unfolding try_device exec
  try_device-IsCareful dev b c = elim (Bool-cases (exists dev b.kernel)) [
    | inl e ↦ rw e (
        after_mount-IsCareful dev (exec perform exists (data_mount dev) b)
          (add-IsCareful b.trace (data_mount dev) (perform (data_mount dev) b.kernel).1 refl c)
          (exec-In (data_mount dev) b))
    | inr e ↦ rw e c
  ]

  try_devices-IsCareful :
      (devs : List String) (b : Boot K)
      → IsCareful b.trace
      → IsCareful (try_devices perform exists devs b).0.trace
  unfolding try_devices
  try_devices-IsCareful [] b c = c
  try_devices-IsCareful (dev ∷ rest) b c =
      let n = try_device-IsCareful dev b c in
      elim (Bool-cases (try_device perform exists dev b).1) [
        | inl e ↦ rw e n
        | inr e ↦ rw e (try_devices-IsCareful rest (try_device perform exists dev b).0 n)
      ]

  bind_if-IsCareful :
      (x : Boot K × Bool) → IsCareful x.0.trace → IsCareful (bind_if perform exists x).trace
  unfolding bind_if
  bind_if-IsCareful (b, true) c =
      run_all-IsCareful (bind_ops perform exists bind_dirs) b
        (refl, (refl, (refl, (refl, (refl, (refl, (refl, (refl, (refl, tt))))))))) c
  bind_if-IsCareful (b, false) c = c

  -- The start-up formats a device only if mounting it as ext4 at /data was tried and failed.
  pub storage-careful :
      (k : K) (dev : String) (done : Bool)
      → let after = setup_persistent_storage perform exists (record { kernel = k; trace = [] }) in
        In (mkfs dev, done) after.trace → In (data_mount dev, false) after.trace
  unfolding setup_persistent_storage exec
  storage-careful k dev done =
      let b : Boot K = record { kernel = k; trace = [] } in
      let d = exec perform exists (mkdir "/data") b in
      bind_if-IsCareful (try_devices perform exists candidates d.0)
        (try_devices-IsCareful candidates d.0
          (add-IsCareful [] (mkdir "/data") (perform (mkdir "/data") k).1 refl (λ s r m. absurd m)))
        dev done

  run_all-In :
      (x : Op × Bool) (ops : List Op) (b : Boot K)
      → In x b.trace
      → In x (run_all perform exists ops b).trace
  unfolding run_all exec
  run_all-In x [] b m = m
  run_all-In x (op ∷ ops) b m =
      run_all-In x ops (exec perform exists op b).0
        (In-append_left b.trace ((op, (perform op b.kernel).1) ∷ []) x m)

  bind_if-In :
      (x : Op × Bool) (y : Boot K × Bool) → In x y.0.trace → In x (bind_if perform exists y).trace
  unfolding bind_if
  bind_if-In x (b, true) m = run_all-In x (bind_ops perform exists bind_dirs) b m
  bind_if-In x (b, false) m = m

  after_format-In :
      (x : Op × Bool) (dev : String) (y : Boot K × Bool)
      → In x y.0.trace
      → In x (after_format perform exists dev y).0.trace
  unfolding after_format exec
  after_format-In x dev (b, true) m =
      In-append_left b.trace ((data_mount dev, (perform (data_mount dev) b.kernel).1) ∷ []) x m
  after_format-In x dev (b, false) m = m

  -- A device that is there and cannot be mounted is formatted.
  try_device-In :
      (dev : String) (b : Boot K)
      → exists dev b.kernel ≡ true
      → (perform (data_mount dev) b.kernel).1 ≡ false
      → (done : Bool) × In (mkfs dev, done) (try_device perform exists dev b).0.trace
  unfolding try_device exec
  try_device-In dev b there failed =
      let m : Boot K = record {
        kernel = (perform (data_mount dev) b.kernel).0;
        trace = b.trace ++ ((data_mount dev, false) ∷ []);
      } in
      let f = exec perform exists (mkfs dev) m in
      let own = In-append_right m.trace ((mkfs dev, f.1) ∷ []) (mkfs dev, f.1) (inl refl) in
      (f.1, rw (there, failed) (after_format-In (mkfs dev, f.1) dev f own))

  try_devices-In :
      (x : Op × Bool) (dev : String) (b : Boot K)
      → In x (try_device perform exists dev b).0.trace
      → In x (try_devices perform exists (dev ∷ []) b).0.trace
  unfolding try_devices
  try_devices-In x dev b m = elim (Bool-cases (try_device perform exists dev b).1) [
    | inl e ↦ rw e m
    | inr e ↦ rw e m
  ]

  try_devices-skip :
      (dev : String) (rest : List String) (b : Boot K)
      → exists dev b.kernel ≡ false
      → try_devices perform exists (dev ∷ rest) b ≡ try_devices perform exists rest b
  unfolding try_devices try_device
  try_devices-skip dev rest b h = rw h refl

  -- On a node where /dev/sda4 is missing and /dev/sda is there and cannot be mounted as a whole,
  -- the start-up runs mkfs on the whole disk.
  pub formats_whole_disk :
      (k : K)
      → exists "/dev/sda4" (perform (mkdir "/data") k).0 ≡ false
      → exists "/dev/sda" (perform (mkdir "/data") k).0 ≡ true
      → (perform (data_mount "/dev/sda") (perform (mkdir "/data") k).0).1 ≡ false
      → (done : Bool) × In
          (mkfs "/dev/sda", done)
          (setup_persistent_storage perform exists (record { kernel = k; trace = [] })).trace
  unfolding setup_persistent_storage exec
  formats_whole_disk k no4 there failed =
      let d = (exec perform exists (mkdir "/data") (record { kernel = k; trace = [] })).0 in
      let (done, m) = try_device-In "/dev/sda" d there failed in
      (
        done,
        bind_if-In (mkfs "/dev/sda", done) (try_devices perform exists candidates d)
            (subst (λ (y : Boot K × Bool). In (mkfs "/dev/sda", done) y.0.trace)
              (sym (try_devices-skip "/dev/sda4" ("/dev/sda" ∷ []) d no4))
              (try_devices-In (mkfs "/dev/sda", done) "/dev/sda" d m)),
      )

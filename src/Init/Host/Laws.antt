-- ===== src/Init/Host/Laws.antt =====
-- When the first process panics over a name, and which kubeconfig kubelet is given.
use keelos.Prelude.{
  ℕ, ◌<◌, ◌≡◌, ◌↔◌, ◌⊎◌, inl, inr, refl, arith, ap, String, suc, zero, cons-append, Bool, true,
  false, Option, Option-cases, none, some, List, [], ◌∷◌, In, if◌then◌else◌, take_prefix, format,
}
use Prim.Native.Char.{code}
use Prim.Native.String
use mathlib.Core.Path.{subst}
use keelos.Init.Host.{
  named, fallback, host_of, Node, panics, Kubelet, uuid_like_id, short_id, from_cmdline, from_etc,
  setup_hostname, generated, or_generated, or_cmdline, hostname_arg, bootstrap_arg, kubeconfig_arg,
  kubeconfig_args, spawn_kubelet, with_hostname,
}

-- The number of characters.
abbrev pub char_count : String → ℕ
char_count String.[] = 0
char_count (String.◌∷◌ c s) = suc (char_count s)

take_prefix-none : (n : ℕ) (s : String) → (take_prefix n s ≡ none) ↔ (char_count s < n)
unfolding take_prefix
take_prefix-none zero s = ((λ h. cc), (λ h. absurd (omega (arith, h))))
take_prefix-none (suc n) String.[] = ((λ h. omega arith), (λ h. refl))
take_prefix-none (suc n) (String.◌∷◌ c s) =
    let (there, back) = take_prefix-none n s in
    elim (Option-cases (take_prefix n s)) [
      | inl e ↦ ((λ h. omega (arith, there e)), (λ h. rw e refl))
      | inr (p, e) ↦ (
        (λ h. absurd (ground (arith, e, h))),
        (λ h. absurd (ground (arith, e, back (omega (arith, h))))),
      )
    ]

generated-panics : (n : Node) (o : Option String) → (generated n o ≡ panics) ↔ (o ≡ none)
generated-panics n none = ((λ h. refl), (λ h. refl))
generated-panics n (some id) = ((λ h. absurd (ground (arith, h))), (λ h. cc))

or_generated-panics :
    (n : Node) (o : Option String)
    → (or_generated n o ≡ panics) ↔ ((o ≡ none) × (short_id n ≡ none))
unfolding or_generated
or_generated-panics n none =
    let (there, back) = generated-panics n (short_id n) in ((λ h. (refl, there h)), (λ h. back h.1))
or_generated-panics n (some name) = ((λ h. cc), (λ h. cc (h.0)))

or_cmdline-panics :
    (n : Node) (o : Option String)
    → (or_cmdline n o ≡ panics) ↔ ((o ≡ none) × (or_generated n (from_cmdline n) ≡ panics))
unfolding or_cmdline
or_cmdline-panics n none = ((λ h. (refl, h)), (λ h. h.1))
or_cmdline-panics n (some name) = ((λ h. cc), (λ h. cc (h.0)))

-- The first process panics while it sets the hostname exactly when neither /etc/hostname nor the
-- kernel's command line gives a name that is taken, and the machine's id has fewer than 8
-- characters.
pub setup_hostname-panics_iff :
    (n : Node)
    → (setup_hostname n ≡ panics)
      ↔ ((from_etc n ≡ none) × (from_cmdline n ≡ none) × (char_count (uuid_like_id n) < 8))
unfolding setup_hostname short_id
setup_hostname-panics_iff n =
    let (a, a') = or_cmdline-panics n (from_etc n) in
    let (b, b') = or_generated-panics n (from_cmdline n) in
    let (c, c') = take_prefix-none 8 (uuid_like_id n) in
    ((λ h. ((a h).0, (b (a h).1).0, c (b (a h).1).1)), (λ h. a' (h.0, b' (h.1, c' h.2))))

abbrev third : String → ℕ
third (String.◌∷◌ a (String.◌∷◌ b (String.◌∷◌ c s))) = code c
third _ = 0

third-hostname : (name : String) → third (String.◌++◌ "--hostname-override=" name) ≡ b'h'
third-hostname name =
    rw
      (
        cons-append "-" "-hostname-override=" name,
        cons-append "-" "hostname-override=" name,
        cons-append "h" "ostname-override=" name,
      )
      refl

third-named : (name arg : String) → named name ≡ some arg → third arg ≡ b'h'
third-named name arg h =
    let e : format ("--hostname-override=" ∷ name ∷ []) ≡ arg = cc in
    subst (λ a. third a ≡ b'h') e (third-hostname (format (name ∷ [])))

third-fallback : (id : Option String) (arg : String) → fallback id ≡ some arg → third arg ≡ b'h'
third-fallback none arg h = absurd (ground (arith, h))
third-fallback (some id) arg h = third-named (format ("keelos-node-" ∷ id ∷ [])) arg h

if-some :
    (b : Bool) (x y : Option String) (arg : String)
    → (x ≡ some arg → third arg ≡ b'h')
    → (y ≡ some arg → third arg ≡ b'h')
    → (if b then x else y) ≡ some arg
    → third arg ≡ b'h'
if-some true x y arg f g h = f h
if-some false x y arg f g h = g h

third-hostname_arg : (k : Kubelet) (arg : String) → hostname_arg k ≡ some arg → third arg ≡ b'h'
unfolding hostname_arg
third-hostname_arg k arg =
    if-some _ (named (host_of k)) (fallback (short_id k.node)) arg (third-named (host_of k) arg)
      (third-fallback (short_id k.node) arg)

-- The arguments in front of the kubeconfigs are none of those.
In-front :
    (x arg : String) (rest : List String)
    → third arg ≡ b'h'
    → (third x ≡ b'b') ⊎ (third x ≡ b'k')
    → In x (
        "--config=/etc/kubernetes/kubelet-config.yaml" ∷ "--cert-dir=/var/lib/kubelet/pki" ∷ "--v=2"
        ∷ arg ∷ rest)
    → In x rest
In-front x arg rest a t (inl e) =
    absurd (elim t [ inl q ↦ omega (arith, ap third e, q) | inr q ↦ omega (arith, ap third e, q) ])
In-front x arg rest a t (inr (inl e)) =
    absurd (elim t [ inl q ↦ omega (arith, ap third e, q) | inr q ↦ omega (arith, ap third e, q) ])
In-front x arg rest a t (inr (inr (inl e))) =
    absurd (elim t [ inl q ↦ omega (arith, ap third e, q) | inr q ↦ omega (arith, ap third e, q) ])
In-front x arg rest a t (inr (inr (inr (inl e)))) =
    absurd
      (elim t [ inl q ↦ omega (arith, ap third e, q, a) | inr q ↦ omega (arith, ap third e, q, a) ])
In-front x arg rest a t (inr (inr (inr (inr m)))) = m

bootstrap-In : (b p : Bool) → In bootstrap_arg (kubeconfig_args b p) ↔ ((b ≡ true) × (p ≡ false))
bootstrap-In true false = ((λ m. (refl, refl)), (λ h. inl refl))
bootstrap-In true true = (
  (λ m. elim m [ inl e ↦ absurd (omega (arith, ap third e)) | inr x ↦ absurd x ]),
  (λ h. cc (h.1)),
)
bootstrap-In false true = (
  (λ m. elim m [ inl e ↦ absurd (omega (arith, ap third e)) | inr x ↦ absurd x ]),
  (λ h. cc (h.0)),
)
bootstrap-In false false = ((λ m. absurd m), (λ h. cc (h.0)))

kubeconfig-In : (b p : Bool) → In kubeconfig_arg (kubeconfig_args b p) ↔ ((b ≡ true) ⊎ (p ≡ true))
kubeconfig-In true false = ((λ m. inl refl), (λ h. inr (inl refl)))
kubeconfig-In true true = ((λ m. inl refl), (λ h. inl refl))
kubeconfig-In false true = ((λ m. inr refl), (λ h. inl refl))
kubeconfig-In false false = ((λ m. absurd m), (λ h. absurd (ground (arith, h))))

with_hostname-args :
    (k : Kubelet) (o : Option String) (path : String) (args : List String)
    → ((arg : String) → o ≡ some arg → third arg ≡ b'h')
    → with_hostname k o ≡ some (path, args)
    → (In bootstrap_arg args ↔ ((k.bootstrap_exists ≡ true) × (k.permanent_exists ≡ false)))
      × (In kubeconfig_arg args ↔ ((k.bootstrap_exists ≡ true) ⊎ (k.permanent_exists ≡ true)))
with_hostname-args k none path args t h = absurd (ground (arith, h))
with_hostname-args k (some arg) path args t h =
    let b = k.bootstrap_exists in
    let p = k.permanent_exists in
    let rest = kubeconfig_args b p in
    let all =
      "--config=/etc/kubernetes/kubelet-config.yaml" ∷ "--cert-dir=/var/lib/kubelet/pki" ∷ "--v=2"
      ∷ arg ∷ rest in
    let (u, u') = bootstrap-In b p in
    let (v, v') = kubeconfig-In b p in
    let e : all ≡ args = ground (arith, h) in
    subst
      (λ (got : List String).
        (In bootstrap_arg got ↔ ((b ≡ true) × (p ≡ false)))
        × (In kubeconfig_arg got ↔ ((b ≡ true) ⊎ (p ≡ true))))
      e
      (
        (
          (λ m. u (In-front bootstrap_arg arg rest (t arg refl) (inl refl) m)),
          (λ q. inr (inr (inr (inr (u' q))))),
        ),
        (
          (λ m. v (In-front kubeconfig_arg arg rest (t arg refl) (inr refl) m)),
          (λ q. inr (inr (inr (inr (v' q))))),
        ),
      )

-- A kubelet that is started gets the bootstrap kubeconfig exactly when that file exists and the
-- permanent one does not, and the permanent one exactly when either exists, whatever its name.
pub spawn_kubelet-args :
    (k : Kubelet) (path : String) (args : List String)
    → spawn_kubelet k ≡ some (path, args)
    → (In bootstrap_arg args ↔ ((k.bootstrap_exists ≡ true) × (k.permanent_exists ≡ false)))
      × (In kubeconfig_arg args ↔ ((k.bootstrap_exists ≡ true) ⊎ (k.permanent_exists ≡ true)))
unfolding spawn_kubelet
spawn_kubelet-args k path args h =
    with_hostname-args k (hostname_arg k) path args (third-hostname_arg k) h

-- ===== src/Agent/Enrolment/Laws.antt =====
-- What `init_bootstrap` does to the roots of the TLS configuration.
use keelos.Prelude.{
  ◌≡◌, refl, sym, ap, ◌∙◌, ℕ, Bool-cases, if◌then◌else◌, arith, true, false, String, str_eq,
  contains, join, is_empty, nil-append, cons-append, eq_iff, none, some, List, [], ◌∷◌, ◌++◌, map,
  In, In-append_left, inl, inr, ok,
}
use Prim.Native.Char.{code}
use Prim.Native.String
use mathlib.Core.Path.{subst}
use keelos.Prelude.Dict.{Dict, put}
use keelos.Agent.Mtls.{TlsFiles, ServerTlsConfig, build_tls_config, bootstrap_cas, operational_cas}
use keelos.Agent.Mtls.Laws.{client_ca_root-build}
use keelos.Agent.Enrolment.{
  Trusted, Env, InitBootstrapResponse, validate_bootstrap_cert, cert_name, init_bootstrap,
  ends_with, in_dir, is_pem, entry_of, tls_dir,
}

ends_with-append : (a s p : String) → ends_with s p ≡ true → ends_with (String.◌++◌ a s) p ≡ true
ends_with-append String.[] s p h = rw (nil-append s) h
ends_with-append (String.◌∷◌ c a) s p h =
    rw (cons-append c a s) (ground (arith, ends_with-append a s p h))

abbrev first : String → ℕ
first String.[] = 0
first (String.◌∷◌ c s) = code c

-- The name that `init_bootstrap` chooses is one that `build_tls_config` reads.
is_pem-cert_name : (env : Env) (pem : String) → is_pem (cert_name env pem) ≡ true
unfolding is_pem
is_pem-cert_name env pem =
    let s : String = String.◌++◌ (env.hash pem) ".pem" in
    let e =
      ends_with-append "client-" s ".pem" (ends_with-append (env.hash pem) ".pem" ".pem" refl) in
    let n = cons-append "c" "lient-" s in
    elim (Bool-cases (str_eq (String.◌++◌ "client-" s) ".pem")) [
      | inl q ↦ absurd (omega (arith, ap first (sym n ∙ (eq_iff _ ".pem").0 q)))
      | inr q ↦ ground (arith, e, q)
    ]

cas_of : Dict String → List String
cas_of [] = []
cas_of ((name, text) ∷ rest) = if is_pem name then text ∷ cas_of rest else cas_of rest

bootstrap_cas-entries :
    (files : Dict String) → bootstrap_cas (map entry_of files) ≡ ok (cas_of files)
unfolding bootstrap_cas cas_of
bootstrap_cas-entries [] = refl
bootstrap_cas-entries ((name, text) ∷ rest) = rw (bootstrap_cas-entries rest) (ground arith)

cas_of-put :
    (name text : String) (files : Dict String)
    → is_pem name ≡ true
    → In text (cas_of (put name text files))
unfolding cas_of put
cas_of-put name text [] h = rw h (inl refl)
cas_of-put name text ((j, w) ∷ files) h = elim (Bool-cases (str_eq j name)) [
  | inl e ↦ rw (e, h) (inl refl)
  | inr e ↦ rw e (elim (Bool-cases (is_pem j)) [
    | inl p ↦ rw p (inr (cas_of-put name text files h))
    | inr p ↦ rw p (cas_of-put name text files h)
  ])
]

is_empty-join :
    (text : String) (cas : List String)
    → is_empty text ≡ false
    → In text cas
    → is_empty (join "\n" cas) ≡ false
unfolding join
is_empty-join text [] h m = absurd m
is_empty-join text (s ∷ []) h (inl e) = subst (λ t. is_empty t ≡ false) (sym e) h
is_empty-join text (s ∷ []) h (inr m) = absurd m
is_empty-join text (String.[] ∷ t ∷ rest) h m =
    rw (nil-append, cons-append "\n" "" (String.◌++◌ (join "\n" (t ∷ rest)) "")) refl
is_empty-join text (String.◌∷◌ c s ∷ t ∷ rest) h m = rw (cons-append c s) refl

contains-not_empty :
    (text : String) → contains text "BEGIN CERTIFICATE" ≡ true → is_empty text ≡ false
unfolding contains
contains-not_empty String.[] h = cc
contains-not_empty (String.◌∷◌ c s) h = refl

-- Whoever sends a text that contains `BEGIN CERTIFICATE`, with no certificate of their own and no
-- authorisation, makes it a root for client certificates: where no write fails, the request
-- succeeds, and every TLS configuration that is built later from the directory, whatever else
-- it reads, has the text among its roots.
pub init_bootstrap-root :
    (pem : String) (env : Env) (trusted : Trusted) (f : TlsFiles) (c : ServerTlsConfig)
    → contains pem "BEGIN CERTIFICATE" ≡ true
    → env.dir_fault ≡ none
    → env.write_fault ≡ none
    → f.bootstrap_dir ≡ tls_dir (init_bootstrap pem env trusted).0
    → build_tls_config f ≡ ok c
    → ((init_bootstrap pem env trusted).1.success ≡ true)
      × ((cas : List String) × In pem cas × (c.client_ca_root ≡ some (join "\n" cas)))
unfolding init_bootstrap validate_bootstrap_cert
init_bootstrap-root pem env trusted f c h d w b k =
    let name = cert_name env pem in
    let files = put name pem (in_dir trusted) in
    let added : init_bootstrap pem env trusted ≡ (
      some files,
      record { success = true; message = "Bootstrap certificate accepted and stored" },
    ) =
      ground (arith, h, d, w) in
    let cas = cas_of files in
    let all = cas ++ operational_cas f.operational_ca in
    let here = cas_of-put name pem (in_dir trusted) (is_pem-cert_name env pem) in
    let m = In-append_left cas (operational_cas f.operational_ca) pem here in
    (
      ap (λ (x : Trusted × InitBootstrapResponse). x.1.success) added,
      (
        all,
        m,
        client_ca_root-build f c (map entry_of files) cas
            (b ∙ ap (λ (x : Trusted × InitBootstrapResponse). tls_dir x.0) added)
            (bootstrap_cas-entries files) (is_empty-join pem all (contains-not_empty pem h) m) k,
      ),
    )

-- ===== src/Osctl/CertStore/Laws.antt =====
-- The pair that cmd/osctl identifies itself with to a node.
use Prim.Native.String
use keelos.Prelude.{
  ◌≡◌, refl, sym, ap, ◌∙◌, arith, ℕ, inl, inr, Bool-cases, is_some, if◌then◌else◌, String, str_eq,
  eq_refl, eq_iff, format, cons, nil-append, cons-append, append_assoc, split, false, Option, none,
  some, List, [], ◌∷◌, ◌++◌, ok, err,
}
use keelos.Prelude.Dict.{get, put, get-put}
use keelos.Prelude.Text.Lines.{split-append}
use keelos.Agent.Certificates.Store.{write_file}
use keelos.Osctl.CertStore.{
  Disk, Faults, join_path, cert_dir, paths_in, ca_path, exists, save_certs, load_certs, best,
  find_best_cert, trim_matches, underscored, first_of, extract_node_from_endpoint, pair_of,
  identity_in, identity_for,
}

append_cancel : (x a b : String) → String.◌++◌ x a ≡ String.◌++◌ x b → a ≡ b
append_cancel String.[] a b h = sym (nil-append a) ∙ h ∙ nil-append b
append_cancel (String.◌∷◌ c x) a b h =
    append_cancel x a b (cc (sym (cons-append c x a) ∙ h ∙ cons-append c x b))

abbrev pub no_faults : Faults
no_faults = record { dir = none; cert = none; key = none; mode = none; ca = none }

names-apart :
    (dir : String) → str_eq (join_path dir "client.key") (join_path dir "client.pem") ≡ false
names-apart dir =
    elim (Bool-cases (str_eq (join_path dir "client.key") (join_path dir "client.pem"))) [
      | inl e ↦
          let same = append_cancel dir "/client.key" "/client.pem" ((eq_iff _ _).0 e) in
          absurd (ground (arith, ap (λ (s : String). str_eq s "/client.pem") same))
      | inr e ↦ e
    ]

module _ (base_dir node_id tier cert_pem key_pem : String) (d : Disk) where
  abbrev saved : Disk
  saved = (save_certs base_dir no_faults node_id tier cert_pem key_pem none d).0

  abbrev dir : String
  dir = cert_dir base_dir node_id tier

  saved-cert : get (paths_in dir none).cert saved.files ≡ some cert_pem
  unfolding save_certs write_file
  saved-cert =
      let d0 = cert_dir base_dir node_id tier in
      get-put (join_path d0 "client.key") (join_path d0 "client.pem") key_pem
        (put (join_path d0 "client.pem") cert_pem d.files)
      ∙ rw (names-apart d0) (
          get-put (join_path d0 "client.pem") (join_path d0 "client.pem") cert_pem d.files
          ∙ rw (eq_refl (join_path d0 "client.pem")) refl)

  saved-key : get (paths_in dir none).key saved.files ≡ some key_pem
  unfolding save_certs write_file
  saved-key =
      let d0 = cert_dir base_dir node_id tier in
      get-put (join_path d0 "client.key") (join_path d0 "client.key") key_pem
        (put (join_path d0 "client.pem") cert_pem d.files)
      ∙ rw (eq_refl (join_path d0 "client.key")) refl

  save-load : (ca : Option String) × (load_certs base_dir node_id tier saved ≡ ok (paths_in dir ca))
  unfolding load_certs save_certs write_file
  save-load = (
    if exists (ca_path dir) saved then some (ca_path dir) else none,
    rw (eq_refl dir, ap is_some saved-cert, ap is_some saved-key) refl,
  )

colon-append : (y : String) → String.◌++◌ ":" y ≡ cons ":" y
colon-append y = cons-append ":" "" y ∙ ap (cons ":") (nil-append y)

bracket-append : (y : String) → String.◌++◌ "[" y ≡ cons "[" y
bracket-append y = cons-append "[" "" y ∙ ap (cons "[") (nil-append y)

-- A scheme in front of a text that starts with a bracket is taken away, and nothing else.
trim-http :
    (y : String)
    → trim_matches "http://" 0 (String.◌++◌ "http://" (String.◌++◌ "[" y)) ≡ String.◌++◌ "[" y
unfolding trim_matches
trim-http y =
    let x = String.◌++◌ "[" y in
    rw
      (
        cons-append "h" "ttp://" x,
        cons-append "t" "tp://" x,
        cons-append "t" "p://" x,
        cons-append "p" "://" x,
        cons-append ":" "//" x,
        cons-append "/" "/" x,
        cons-append "/" "" x,
        nil-append x,
        bracket-append y,
      )
      refl

trim-https : (y : String) → trim_matches "https://" 0 (String.◌++◌ "[" y) ≡ String.◌++◌ "[" y
unfolding trim_matches
trim-https y = rw (bracket-append y) refl

first-append :
    (sep : ℕ) (x : String) (ps : List String)
    → first_of (split sep x ++ ps) ≡ first_of (split sep x)
unfolding split
first-append sep x ps = refl

-- The endpoint of a node with an IPv6 address: what stands before the address's first colon, and
-- all that follows it.
abbrev pub ipv6_endpoint : String → String → String
ipv6_endpoint front rest = format ("http://" ∷ "[" ∷ front ∷ ":" ∷ rest ∷ [])

extract-ipv6 :
    (front rest : String)
    → extract_node_from_endpoint (ipv6_endpoint front rest)
      ≡ underscored (first_of (split b':' (String.◌++◌ "[" front)))
unfolding extract_node_from_endpoint
extract-ipv6 front rest =
    let end = String.◌++◌ rest "" in
    let y = String.◌++◌ front (String.◌++◌ ":" end) in
    let cut : String.◌++◌ "[" y ≡ String.◌++◌ (String.◌++◌ "[" front) (cons ":" end) =
      sym (append_assoc "[" front (String.◌++◌ ":" end))
      ∙ ap (String.◌++◌ (String.◌++◌ "[" front)) (colon-append end) in
    let pieces = split-append b':' ":" (String.◌++◌ "[" front) end refl in
    ap (λ (u : String). underscored (first_of (split b':' (trim_matches "https://" 0 u))))
      (trim-http y)
    ∙ ap (λ (u : String). underscored (first_of (split b':' u))) (trim-https y ∙ cut)
    ∙ ap (λ (l : List String). underscored (first_of l)) pieces
    ∙ ap underscored (first-append b':' (String.◌++◌ "[" front) (split b':' end))

-- A pair that is saved for one node with an IPv6 address, as `init bootstrap` does where no
-- fault is met, is the pair that the client shows to every node whose address begins with the
-- same text and a colon, whatever was saved before, as long as no operational pair is there.
pub ipv6_nodes_share :
    (base_dir front one other cert_pem key_pem e : String) (d : Disk)
    → let node_id = extract_node_from_endpoint (ipv6_endpoint front one) in
      let after = (save_certs base_dir no_faults node_id "bootstrap" cert_pem key_pem none d).0 in
      load_certs base_dir node_id "operational" after ≡ err e
      → identity_for base_dir (ipv6_endpoint front other) after
        ≡ some ("bootstrap", cert_pem, key_pem)
unfolding identity_for find_best_cert
ipv6_nodes_share base_dir front one other cert_pem key_pem e d h =
    let node_id = extract_node_from_endpoint (ipv6_endpoint front one) in
    let same : extract_node_from_endpoint (ipv6_endpoint front other) ≡ node_id =
      extract-ipv6 front other ∙ sym (extract-ipv6 front one) in
    let (ca, loads) = save-load base_dir node_id "bootstrap" cert_pem key_pem d in
    let after = (save_certs base_dir no_faults node_id "bootstrap" cert_pem key_pem none d).0 in
    let paths = paths_in (cert_dir base_dir node_id "bootstrap") ca in
    ap (λ (id : String). identity_in after (find_best_cert base_dir id after)) same
    ∙ ap (λ r. identity_in after (best node_id r (load_certs base_dir node_id "bootstrap" after))) h
    ∙ ap (λ r. identity_in after (best node_id (err e) r)) loads
    ∙ ap (λ cert. pair_of "bootstrap" cert (get paths.key after.files))
        (saved-cert base_dir node_id "bootstrap" cert_pem key_pem d)
    ∙ ap (λ key. pair_of "bootstrap" (some cert_pem) key)
        (saved-key base_dir node_id "bootstrap" cert_pem key_pem d)

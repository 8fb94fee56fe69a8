-- ===== src/Agent/Rbac/Laws.antt =====
-- Who is authorised for what.
use keelos.Prelude.{
  ◌≤◌, ◌≡◌, ◌↔◌, ◌⊎◌, inl, inr, refl, arith, Bool, String, eq_iff, true, false, Option,
  Option-cases, none, some, List, [], ◌∷◌, Result, Result-cases, ok,
}
use keelos.Agent.Rbac.{
  Role, viewer, operator, admin, privilege_level, has_permission, role_of_org, first_role,
  role_from_cert_der, authorize,
}
use keelos.Agent.Rbac.Rpcs.{Rpc, admitted}

-- The Organization values that stand for a role.
abbrev pub Names : Role → String → Type 0
Names admin o = (o ≡ "system:masters") ⊎ (o ≡ "keel:admin")
Names operator o = o ≡ "keel:operator"
Names viewer o = o ≡ "keel:viewer"

-- The first value of the list that is a text and stands for a role stands for `r`.
pub data Finds (r : Role) : List (Option String) → Type 0 where
  here : {o : String} {rest : List (Option String)} → Names r o → Finds r (some o ∷ rest)
  not_text : {rest : List (Option String)} → Finds r rest → Finds r (none ∷ rest)
  no_role :
      {o : String} {rest : List (Option String)}
      → ((s : Role) → ¬ (Names s o))
      → Finds r rest
      → Finds r (some o ∷ rest)

role_of_org-Names : (o : String) (r : Role) → role_of_org o ≡ some r → Names r o
unfolding role_of_org
role_of_org-Names o admin h = ground (arith, eq_iff o "system:masters", eq_iff o "keel:admin")
role_of_org-Names o operator h = ground (arith, eq_iff o "keel:operator")
role_of_org-Names o viewer h = ground (arith, eq_iff o "keel:viewer")

Names-role_of_org : (o : String) (r : Role) → Names r o → role_of_org o ≡ some r
unfolding role_of_org
Names-role_of_org o admin (inl e) = rw e refl
Names-role_of_org o admin (inr e) = rw e refl
Names-role_of_org o operator e = rw e refl
Names-role_of_org o viewer e = rw e refl

none-Names : (o : String) → role_of_org o ≡ none → (r : Role) → ¬ (Names r o)
none-Names o h r n = cc (Names-role_of_org o r n)

first_role-Finds : (l : List (Option String)) (r : Role) → first_role l ≡ some r → Finds r l
unfolding first_role
first_role-Finds [] r h = cc
first_role-Finds (none ∷ rest) r h = Finds.not_text (first_role-Finds rest r h)
first_role-Finds (some o ∷ rest) r h = elim (Option-cases (role_of_org o)) [
  | inl e ↦ Finds.no_role (none-Names o e) (first_role-Finds rest r (ground arith))
  | inr (s, e) ↦ Finds.here (role_of_org-Names o r (ground arith))
]

Finds-first_role : {r : Role} {l : List (Option String)} → Finds r l → first_role l ≡ some r
unfolding first_role
Finds-first_role {r} (Finds.here {o} n) = ground (arith, Names-role_of_org o r n)
Finds-first_role (Finds.not_text f) = Finds-first_role f
Finds-first_role (Finds.no_role {o} none_named f) = elim (Option-cases (role_of_org o)) [
  | inl e ↦ ground (arith, Finds-first_role f)
  | inr (s, e) ↦ absurd (none_named s (role_of_org-Names o s e))
]

-- Whether an RPC changes the node: its disks, files, services or sessions.
abbrev pub changes_node : Rpc → Bool
changes_node Rpc.get_status = false
changes_node Rpc.get_update_schedule = false
changes_node Rpc.get_health = false
changes_node Rpc.get_rollback_history = false
changes_node Rpc.get_bootstrap_status = false
changes_node Rpc.get_network_config = false
changes_node Rpc.get_network_status = false
changes_node Rpc.get_debug_status = false
changes_node Rpc.stream_logs = false
changes_node Rpc.analyze_crash_dump = false
changes_node _ = true

module _ {Cert : Type 0} (organizations : Cert → Result (List (Option String)) String) where
  role_from_cert_der_iff :
      (c : Cert) (r : Role)
      → (role_from_cert_der organizations c ≡ ok r)
        ↔ ((orgs : List (Option String)) × (organizations c ≡ ok orgs) × Finds r orgs)
  unfolding role_from_cert_der
  role_from_cert_der_iff c r = (
    (λ h. elim (Result-cases (organizations c)) [
      | inl (orgs, e) ↦ (orgs, e, first_role-Finds orgs r (ground arith))
      | inr (x, e) ↦ ground arith
    ]),
    (λ h. let (orgs, e, f) = h in ground (arith, Finds-first_role f)),
  )

  -- With a client certificate, a request is authorised exactly when the certificate parses, some
  -- Organization value of it stands for a role, and the first that does stands for the required
  -- role or a higher one.
  pub authorize_iff :
      (c : Cert) (chain : List Cert) (need : Role)
      → (authorize organizations (some (c ∷ chain)) need ≡ ok tt) ↔ (
          (r : Role) × (orgs : List (Option String)) × (organizations c ≡ ok orgs)
          × Finds r orgs
          × (privilege_level need ≤ privilege_level r))
  unfolding authorize has_permission
  authorize_iff c chain need = (
    (λ h. elim (Result-cases (role_from_cert_der organizations c)) [
      | inl (r, e) ↦
          let (orgs, parsed, found) = (role_from_cert_der_iff c r).0 e in
          (r, orgs, parsed, found, ground arith)
      | inr (x, e) ↦ ground arith
    ]),
    (λ h.
        let (r, orgs, parsed, found, enough) = h in
        ground (arith, (role_from_cert_der_iff c r).1 (orgs, parsed, found))),
  )

  -- A certificate whose role is viewer gets into no RPC that changes the node, but for
  -- `init_bootstrap`, which asks for no role.
  pub viewer_reads :
      (c : Cert) (chain : List Cert) (rpc : Rpc)
      → role_from_cert_der organizations c ≡ ok viewer
      → admitted organizations (some (c ∷ chain)) rpc ≡ ok tt
      → (changes_node rpc ≡ false) ⊎ (rpc ≡ Rpc.init_bootstrap)
  unfolding admitted authorize
  viewer_reads c chain Rpc.get_status e h = inl refl
  viewer_reads c chain rpc e h = ground arith

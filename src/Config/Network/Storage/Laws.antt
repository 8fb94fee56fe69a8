-- ===== src/Config/Network/Storage/Laws.antt =====
-- What a saved configuration is when it is loaded again, and what a refused save leaves.
use keelos.Prelude.{◌≡◌, inl, inr, arith, String, none, some, Result-cases, ok, err}
use keelos.Config.Network.{NetworkConfigError, NetworkConfig, Parsers, validate}
use keelos.Config.Network.Valid.{IsValidConfig}
use keelos.Config.Network.Accepts.{validate_iff}
use keelos.Config.Network.Storage.{Codec, IsFaithful, Disk, load, save}

module _ (p : Parsers) (j : Codec) where
  saved :
      (c : NetworkConfig) (d d' : Disk) (s : String)
      → j.to_string c ≡ ok s
      → save p j c d ≡ (d', ok tt)
      → (d'.file ≡ some s) × (validate p c ≡ ok tt)
  unfolding save
  saved c d d' s e h = (ground arith, ground arith)

  not_saved :
      (c : NetworkConfig) (d d' : Disk) (e : String)
      → j.to_string c ≡ err e
      → save p j c d ≡ (d', ok tt)
      → ⊥
  unfolding save
  not_saved c d d' e f h = ground arith

  -- A save that returns `Ok` wrote a file from which `load` gives back the same configuration, if
  -- `serde_json` reads back what it writes.
  pub save-load :
      (c : NetworkConfig) (d d' : Disk)
      → IsFaithful j
      → save p j c d ≡ (d', ok tt)
      → load p j d' ≡ ok c
  unfolding load
  save-load c d d' law h = elim (Result-cases (j.to_string c)) [
    | inl (s, e) ↦ let (written, checked) = saved c d d' s e h in rw (written, law c s e, checked)
    | inr (e, f) ↦ absurd (not_saved c d d' e f h)
  ]

  -- What `load` returns is a valid configuration, whatever is in the file.
  pub load-IsValid : (d : Disk) (c : NetworkConfig) → load p j d ≡ ok c → IsValidConfig p c
  unfolding load
  load-IsValid d c h = (validate_iff p c).0 (ground arith)

  -- A save that fails, and does not fail in the write itself, leaves the disk as it was.
  pub save_error_unchanged :
      (c : NetworkConfig) (d : Disk) (e : NetworkConfigError)
      → d.write_fault ≡ none
      → (save p j c d).1 ≡ err e
      → (save p j c d).0 ≡ d
  unfolding save
  save_error_unchanged c d e w h = ground arith

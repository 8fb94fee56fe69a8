-- ===== src/Agent/Certificates/Pairs.antt =====
-- What the copies and the writes of cmd/keel-agent/src/lib.rs, `rotate_certificate`, leave in each file.
use keelos.Prelude.{
  ◌≡◌, refl, ap, ◌∙◌, inl, inr, arith, true, false, String, str_eq, Option, Option-cases, none,
  some,
}
use keelos.Prelude.Dict.{get, get-put}
use keelos.Agent.Certificates.Store.{
  Files, Faults, Fault, operational, backup_of, write_file, copy_file, backed_up, back_up,
  written_key, written_cert, write_new,
}
use keelos.Agent.Certificates.Issued.{write_file-get}

-- Copies and writes touch no other file.
pub write_file-other :
    (fault : Option Fault) (path text q : String) (files : Files)
    → str_eq path q ≡ false
    → get q (write_file fault path text files).0 ≡ get q files
unfolding write_file
write_file-other none path text q files h = ground (arith, get-put path q text files, h)
write_file-other (some (e, none)) path text q files h = refl
write_file-other (some (e, some left)) path text q files h =
    ground (arith, get-put path q left files, h)

copy_file-other :
    (fault : Option Fault) (from to q : String) (files : Files)
    → str_eq to q ≡ false
    → get q (copy_file fault from to files) ≡ get q files
unfolding copy_file
copy_file-other fault from to q files h = elim (Option-cases (get from files)) [
  | inl e ↦ rw e refl
  | inr (text, e) ↦ rw e (write_file-other fault to text q files h)
]

copy_file-get :
    (from to text : String) (files : Files)
    → get from files ≡ some text
    → str_eq to to ≡ true
    → get to (copy_file none from to files) ≡ some text
unfolding copy_file
copy_file-get from to text files h e = rw h (write_file-get to text to files ∙ rw e refl)

pub backed_up-other :
    (old : Option String) (faults : Faults) (files : Files) (q : String)
    → str_eq (backup_of operational.cert) q ≡ false
    → str_eq (backup_of operational.key) q ≡ false
    → get q (backed_up old faults operational files) ≡ get q files
backed_up-other none faults files q c k = refl
backed_up-other (some _) faults files q c k =
    let first = copy_file faults.copy_cert operational.cert (backup_of operational.cert) files in
    copy_file-other faults.copy_key operational.key (backup_of operational.key) q first k
    ∙ copy_file-other faults.copy_cert operational.cert (backup_of operational.cert) q files c

pub back_up-get :
    (faults : Faults) (files : Files) (cert key : String)
    → faults.copy_cert ≡ none
    → faults.copy_key ≡ none
    → get operational.cert files ≡ some cert
    → get operational.key files ≡ some key
    → let after = back_up faults operational files in
      (get (backup_of operational.cert) after ≡ some cert)
      × (get (backup_of operational.key) after ≡ some key)
unfolding back_up
back_up-get faults files cert key fc fk c k =
    let first = copy_file none operational.cert (backup_of operational.cert) files in
    let f = copy_file-get operational.cert (backup_of operational.cert) cert files c refl in
    let there =
      copy_file-other none operational.cert (backup_of operational.cert) operational.key files refl
      ∙ k in
    rw (c, fc, fk)
      (
        copy_file-other none operational.key (backup_of operational.key)
              (backup_of operational.cert) first refl
            ∙ f,
        copy_file-get operational.key (backup_of operational.key) key first there refl,
      )

-- What the writes of a new pair leave, where only the last of them may fail.
pub write_new-second :
    (faults : Faults) (cert key : String) (files : Files)
    → faults.write_cert ≡ none
    → write_new faults operational cert key files
      ≡ written_key (
          write_file faults.write_key operational.key key
            (write_file none operational.cert cert files).0)
unfolding write_new write_file
write_new-second faults cert key files c =
    ap (λ f. written_cert faults operational key (write_file f operational.cert cert files)) c

pub write_new-cert :
    (faults : Faults) (cert key : String) (files : Files)
    → faults.write_cert ≡ none
    → get operational.cert (write_new faults operational cert key files).0 ≡ some cert
write_new-cert faults cert key files c =
    let first = (write_file none operational.cert cert files).0 in
    rw (write_new-second faults cert key files c) (
      write_file-other faults.write_key operational.key key operational.cert first refl
      ∙ write_file-get operational.cert cert operational.cert files)

pub write_new-key :
    (faults : Faults) (cert key : String) (files : Files)
    → faults.write_cert ≡ none
    → faults.write_key ≡ none
    → get operational.key (write_new faults operational cert key files).0 ≡ some key
write_new-key faults cert key files c k =
    let first = (write_file none operational.cert cert files).0 in
    rw (write_new-second faults cert key files c) (
      ap (λ f. get operational.key (write_file f operational.key key first).0) k
      ∙ write_file-get operational.key key operational.key first)

pub write_new-other :
    (faults : Faults) (cert key q : String) (files : Files)
    → faults.write_cert ≡ none
    → str_eq operational.cert q ≡ false
    → str_eq operational.key q ≡ false
    → get q (write_new faults operational cert key files).0 ≡ get q files
write_new-other faults cert key q files w c k =
    let first = (write_file none operational.cert cert files).0 in
    rw (write_new-second faults cert key files w) (
      write_file-other faults.write_key operational.key key q first k
      ∙ write_file-other none operational.cert cert q files c)

pub back_up-other :
    (faults : Faults) (files : Files) (q : String)
    → str_eq (backup_of operational.cert) q ≡ false
    → str_eq (backup_of operational.key) q ≡ false
    → get q (back_up faults operational files) ≡ get q files
unfolding back_up
back_up-other faults files q c k = backed_up-other (get operational.cert files) faults files q c k

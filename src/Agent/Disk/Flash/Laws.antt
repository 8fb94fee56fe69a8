-- ===== src/Agent/Disk/Flash/Laws.antt =====
-- What a flash that returns `Ok` has written.
use keelos.Prelude.{
  ℕ, ◌≡◌, refl, ap, arith, inl, inr, String, is_empty, eq_iff, eq_refl, to_lowercase, Bool, true,
  false, Option, Option-cases, none, some, List, [], ◌∷◌, ◌++◌, length, drop, Result, Result-cases,
  ok, err,
}
use keelos.Prelude.Dict.{get, get-put}
use keelos.Agent.Io.{IoError, Io}
use keelos.Agent.Disk.{System}
use keelos.Agent.Disk.Flash.{
  Bytes, Disks, Response, Tools, take, overwrite, verify, write_one, write_stream, finish,
  open_and_write, received, request_image, flash_full_image, patched_image, write_patched,
  apply_delta_update, fall_back, flash_image,
}

take-append : (a b : Bytes) → take (length a) (a ++ b) ≡ a
take-append [] b = refl
take-append (x ∷ a) b = ap (λ l. x ∷ l) (take-append a b)

-- The device's first bytes are an image with the expected digest.
abbrev pub Holds : Tools → String → String → Disks → Type 0
Holds t device expected d =
    (content : Bytes) × (image : Bytes) × (get device d ≡ some content)
    × (take (length image) content ≡ image)
    × (t.sha256_hex image ≡ to_lowercase expected)

module _ (t : Tools) where
  write_one-ok :
      (device : String) (old written chunk w : Bytes) (f : Option (IoError × ℕ)) (d : Disks)
      → (write_one t device old written chunk f d).1 ≡ ok w
      → (w ≡ written ++ chunk)
        × (get device (write_one t device old written chunk f d).0 ≡ some (overwrite w old))
  unfolding write_one
  write_one-ok device old written chunk w none d h =
      let c = overwrite (written ++ chunk) old in
      ground (arith, get-put device device c d, eq_refl device)
  write_one-ok device old written chunk w (some (e, n)) d h = absurd (ground arith)

  write_stream-ok :
      (device : String) (old written w : Bytes) (chunks : List (Result Bytes String)) (d : Disks)
      → get device d ≡ some (overwrite written old)
      → (write_stream t device old written chunks d).1 ≡ ok w
      → get device (write_stream t device old written chunks d).0 ≡ some (overwrite w old)
  unfolding write_stream
  write_stream-ok device old written w [] d g h = ground arith
  write_stream-ok device old written w (err e ∷ rest) d g h = ground arith
  write_stream-ok device old written w (ok chunk ∷ rest) d g h =
      let f = t.write_fault device (length written) in
      let x = write_one t device old written chunk f d in
      elim (Result-cases x.1) [
        | inl (v, e) ↦
            let (p, q) = write_one-ok device old written chunk v f d e in
            ground (arith, write_stream-ok device old (written ++ chunk) w rest x.0 (rw p at q))
        | inr (v, e) ↦ absurd (ground arith)
      ]

  verify-ok :
      (expected : String) (image : Bytes)
      → is_empty expected ≡ false
      → verify t (some expected) image ≡ ok tt
      → t.sha256_hex image ≡ to_lowercase expected
  unfolding verify
  verify-ok expected image n h = ground (arith, eq_iff (t.sha256_hex image) (to_lowercase expected))

  finish-ok :
      (device : String) (expected : Option String) (x : Disks × Io Bytes) (n : ℕ)
      → (finish t device expected x).1 ≡ ok n
      → (image : Bytes) × (x.1 ≡ ok image)
        × (verify t expected image ≡ ok tt)
        × ((finish t device expected x).0 ≡ x.0)
  unfolding finish
  finish-ok device expected (d, ok image) n h = (image, refl, ground arith, refl)
  finish-ok device expected (d, err e) n h = absurd (ground arith)

  open-Holds :
      (device expected : String) (response : Response) (old : Option Bytes) (d : Disks) (n : ℕ)
      → get device d ≡ old
      → is_empty expected ≡ false
      → (open_and_write t device (some expected) response old d).1 ≡ ok n
      → Holds t device expected (open_and_write t device (some expected) response old d).0
  unfolding open_and_write overwrite
  open-Holds device expected response none d n g full h = absurd (ground arith)
  open-Holds device expected response (some old) d n g full h =
      let x = write_stream t device old [] response.chunks d in
      let (image, e, v, s) = finish-ok device (some expected) x n h in
      let w = write_stream-ok device old [] image response.chunks d g e in
      (
        overwrite image old,
        image,
        rw s w,
        take-append image (drop (length image) old),
        verify-ok expected image full v,
      )

  received-Holds :
      (device expected : String) (r : Io Response) (d : Disks) (n : ℕ)
      → is_empty expected ≡ false
      → (received t device (some expected) r d).1 ≡ ok n
      → Holds t device expected (received t device (some expected) r d).0
  unfolding received
  received-Holds device expected (ok response) d n full h =
      open-Holds device expected response (get device d) d n refl full h
  received-Holds device expected (err e) d n full h = absurd (ground arith)

  flash_full-Holds :
      (url device expected : String) (d : Disks) (n : ℕ)
      → is_empty expected ≡ false
      → (flash_full_image t url device (some expected) d).1 ≡ ok n
      → Holds t device expected (flash_full_image t url device (some expected) d).0
  unfolding flash_full_image
  flash_full-Holds url device expected d n full h =
      received-Holds device expected (request_image t url) d n full h

  patched-verified :
      (sys : System) (url : String) (expected : Option String) (d : Disks) (new : Bytes) (size : ℕ)
      → patched_image t sys url expected d ≡ ok (new, size)
      → verify t expected new ≡ ok tt
  unfolding patched_image
  patched-verified sys url expected d new size h = ground arith

  write_patched-Holds :
      (device expected : String) (r : Io (Bytes × ℕ)) (d : Disks) (n : ℕ)
      → ((new : Bytes) (size : ℕ) → r ≡ ok (new, size) → t.sha256_hex new ≡ to_lowercase expected)
      → (write_patched t device r d).1 ≡ ok n
      → Holds t device expected (write_patched t device r d).0
  unfolding write_patched overwrite
  write_patched-Holds device expected (err e) d n v h = absurd (ground arith)
  write_patched-Holds device expected (ok (new, size)) d n v h =
      elim (Option-cases (get device d)) [
        | inl e ↦ absurd (ground arith)
        | inr (old, e) ↦
            let f = t.write_fault device 0 in
            let x = write_one t device old [] new f d in
            elim (Result-cases x.1) [
              | inl (w, g) ↦
                  let (p, q) = write_one-ok device old [] new w f d g in
                  (
                    overwrite new old,
                    new,
                    ground (arith, e, (rw p at q)),
                    take-append new (drop (length new) old),
                    v new size refl,
                  )
              | inr (y, g) ↦ absurd (ground arith)
            ]
      ]

  delta-Holds :
      (sys : System) (url device expected : String) (d : Disks) (n : ℕ)
      → is_empty expected ≡ false
      → (apply_delta_update t sys url device (some expected) d).1 ≡ ok n
      → Holds t device expected (apply_delta_update t sys url device (some expected) d).0
  unfolding apply_delta_update
  delta-Holds sys url device expected d n full h =
      write_patched-Holds device expected (patched_image t sys url (some expected) d) d n
        (λ new size e.
          verify-ok expected new full (patched-verified sys url (some expected) d new size e))
        h

  fall_back-Holds :
      (fallback : Option String) (device expected : String) (x : Disks × Io ℕ) (n : ℕ)
      → is_empty expected ≡ false
      → ((m : ℕ) → x.1 ≡ ok m → Holds t device expected x.0)
      → (fall_back t fallback device (some expected) x).1 ≡ ok n
      → Holds t device expected (fall_back t fallback device (some expected) x).0
  unfolding fall_back
  fall_back-Holds fallback device expected (d, ok saved) n full v h = v saved refl
  fall_back-Holds (some url) device expected (d, err e) n full v h =
      flash_full-Holds url device expected d n full h
  fall_back-Holds none device expected (d, err e) n full v h = absurd (ground arith)

  -- A flash that returns `Ok`, with a digest expected, leaves on the device an image with this
  -- digest, whether the image was written whole, patched, or written whole after a patch failed.
  pub flash-Holds :
      (sys : System) (url device expected : String) (is_delta : Bool) (fallback : Option String)
      (d : Disks) (n : ℕ)
      → is_empty expected ≡ false
      → (flash_image t sys url device (some expected) is_delta fallback d).1 ≡ ok n
      → Holds t device expected (flash_image t sys url device (some expected) is_delta fallback d).0
  unfolding flash_image
  flash-Holds sys url device expected true fallback d n full h =
      fall_back-Holds fallback device expected
        (apply_delta_update t sys url device (some expected) d) n full
        (λ m e. delta-Holds sys url device expected d m full e) h
  flash-Holds sys url device expected false fallback d n full h =
      flash_full-Holds url device expected d n full h

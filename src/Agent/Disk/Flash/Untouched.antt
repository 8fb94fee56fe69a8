-- ===== src/Agent/Disk/Flash/Untouched.antt =====
-- What no flash touches.
use keelos.Prelude.{
  ℕ, ◌≡◌, ◌≢◌, refl, ◌∙◌, arith, inl, inr, String, eq_iff, Bool, true, false, Option, Option-cases,
  none, some, List, [], ◌∷◌, ◌++◌, length, Result, ok, err,
}
use keelos.Prelude.Dict.{get, get-put}
use keelos.Agent.Io.{IoError, Io}
use keelos.Agent.Disk.{System}
use keelos.Agent.Disk.Flash.{
  Bytes, Disks, Response, Tools, take, overwrite, write_one, write_stream, finish, open_and_write,
  received, request_image, flash_full_image, patched_image, write_patched, apply_delta_update,
  fall_back, flash_image,
}

module _ (t : Tools) where
  write_one-other :
      (device k : String) (old written chunk : Bytes) (f : Option (IoError × ℕ)) (d : Disks)
      → k ≢ device
      → get k (write_one t device old written chunk f d).0 ≡ get k d
  unfolding write_one
  write_one-other device k old written chunk none d n =
      let c = overwrite (written ++ chunk) old in
      ground (arith, get-put device k c d, eq_iff device k)
  write_one-other device k old written chunk (some (e, m)) d n =
      let c = overwrite (written ++ take m chunk) old in
      ground (arith, get-put device k c d, eq_iff device k)

  write_stream-other :
      (device k : String) (old written : Bytes) (chunks : List (Result Bytes String)) (d : Disks)
      → k ≢ device
      → get k (write_stream t device old written chunks d).0 ≡ get k d
  unfolding write_stream
  write_stream-other device k old written [] d n = refl
  write_stream-other device k old written (err e ∷ rest) d n = refl
  write_stream-other device k old written (ok chunk ∷ rest) d n =
      let f = t.write_fault device (length written) in
      let x = write_one t device old written chunk f d in
      ground (
        arith,
        write_one-other device k old written chunk f d n,
        write_stream-other device k old (written ++ chunk) rest x.0 n,
      )

  finish-disks :
      (device : String) (expected : Option String) (x : Disks × Io Bytes)
      → (finish t device expected x).0 ≡ x.0
  unfolding finish
  finish-disks device expected (d, r) = refl

  received-other :
      (device k : String) (expected : Option String) (r : Io Response) (d : Disks)
      → k ≢ device
      → get k (received t device expected r d).0 ≡ get k d
  unfolding received open_and_write
  received-other device k expected (err e) d n = refl
  received-other device k expected (ok response) d n = elim (Option-cases (get device d)) [
    | inl e ↦ ground (arith, e)
    | inr (old, e) ↦
        let x = write_stream t device old [] response.chunks d in
        ground (
          arith,
          e,
          finish-disks device expected x,
          write_stream-other device k old [] response.chunks d n,
        )
  ]

  full-other :
      (url device k : String) (expected : Option String) (d : Disks)
      → k ≢ device
      → get k (flash_full_image t url device expected d).0 ≡ get k d
  unfolding flash_full_image
  full-other url device k expected d n = received-other device k expected (request_image t url) d n

  patched-other :
      (device k : String) (r : Io (Bytes × ℕ)) (d : Disks)
      → k ≢ device
      → get k (write_patched t device r d).0 ≡ get k d
  unfolding write_patched
  patched-other device k (err e) d n = refl
  patched-other device k (ok (new, size)) d n = elim (Option-cases (get device d)) [
    | inl e ↦ ground (arith, e)
    | inr (old, e) ↦
        ground (arith, e, write_one-other device k old [] new (t.write_fault device 0) d n)
  ]

  fall_back-other :
      (fallback : Option String) (device k : String) (expected : Option String) (x : Disks × Io ℕ)
      → k ≢ device
      → get k (fall_back t fallback device expected x).0 ≡ get k x.0
  unfolding fall_back
  fall_back-other fallback device k expected (d, ok saved) n = refl
  fall_back-other (some url) device k expected (d, err e) n = full-other url device k expected d n
  fall_back-other none device k expected (d, err e) n = refl

  -- A flash, whatever it returns, changes no device but its target.
  pub flash-other :
      (sys : System) (url device k : String) (expected : Option String) (is_delta : Bool)
      (fallback : Option String) (d : Disks)
      → k ≢ device
      → get k (flash_image t sys url device expected is_delta fallback d).0 ≡ get k d
  unfolding flash_image apply_delta_update
  flash-other sys url device k expected true fallback d n =
      let r = patched_image t sys url expected d in
      fall_back-other fallback device k expected (write_patched t device r d) n
      ∙ patched-other device k r d n
  flash-other sys url device k expected false fallback d n = full-other url device k expected d n

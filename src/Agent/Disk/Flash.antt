-- ===== src/Agent/Disk/Flash.antt =====
-- cmd/keel-agent/src/disk.rs: writing an image to a partition, whole or as a patch of the active one.
-- The network, SHA-256, bsdiff and the faults of the devices are parameters.
pub mod Laws
pub mod Untouched
use keelos.Prelude.{
  ℕ, zero, suc, ◌+◌, ◌-◌, ◌%◌, ◌^◌, if◌then◌else◌, String, is_empty, str_eq, format, to_lowercase,
  unwrap_or, Bool, true, false, Option, none, some, List, [], ◌∷◌, ◌++◌, length, drop, Result, ok,
  err, ◌>>=◌, ◌>>◌, map_err,
}
use keelos.Prelude.Dict.{Dict, get, put}
use keelos.Agent.Io.{not_found, invalid_data, other, IoError, Io}
use keelos.Agent.Disk.{System, get_active_partition}

abbrev pub Bytes : Type 0
Bytes = List ℕ

-- The block devices by path: what each holds. A device that is not there cannot be opened.
abbrev pub Disks : Type 0
Disks = Dict Bytes

pub record Response : Type 0 where
  pub is_success : Bool
  pub status : String
  pub content_length : Option ℕ
  pub chunks : List (Result Bytes String)

pub record Tools : Type 0 where
  pub fetch : String → Result Response String
  pub sha256_hex : Bytes → String
  pub patch : Bytes → Bytes → Result Bytes String
  -- making the temporary file of a delta, and filling it
  pub temp_fault : Option IoError
  pub temp_write_fault : Option IoError
  -- a write to a device at an offset: the error, and how many bytes of it were written
  pub write_fault : String → ℕ → Option (IoError × ℕ)
  pub sync_fault : String → Option IoError

abbrev pub error_of : String → IoError
error_of m = record { kind = other; message = m }

abbrev pub take : ℕ → Bytes → Bytes
take zero b = []
take (suc n) [] = []
take (suc n) (x ∷ b) = x ∷ take n b

-- A device after its first bytes have been written.
unfoldable pub overwrite : Bytes → Bytes → Bytes
overwrite new old = new ++ drop (length new) old

abbrev pub no_fault : Option IoError → Io (Unit {0})
no_fault none = ok tt
no_fault (some e) = err e

abbrev pub success : Response → String → Io Response
success r what = if r.is_success then ok r else err (error_of (format (what ∷ r.status ∷ [])))

-- `response.bytes()`.
unfoldable pub all_bytes : List (Result Bytes String) → Result Bytes String
all_bytes [] = ok []
all_bytes (err e ∷ rest) = err e
all_bytes (ok b ∷ rest) = do later ← all_bytes rest; ok (b ++ later)

module _ (t : Tools) where
  open t use {fetch, sha256_hex, patch, temp_fault, temp_write_fault, write_fault, sync_fault}

  matches : String → String → Io (Unit {0})
  matches expected actual =
      if str_eq actual (to_lowercase expected)
      then ok tt
      else err (record {
        kind = invalid_data;
        message = format ("SHA256 mismatch: expected " ∷ expected ∷ ", got " ∷ actual ∷ []);
      })

  unfoldable pub verify : Option String → Bytes → Io (Unit {0})
  unfolding matches
  verify none image = ok tt
  verify (some expected) image =
      if is_empty expected then ok tt else matches expected (sha256_hex image)

  -- The result of `write_all`: what has been written so far, or the error.
  write_one : String → Bytes → Bytes → Bytes → Option (IoError × ℕ) → Disks → Disks × Io Bytes
  write_one device old written chunk none d =
      (put device (overwrite (written ++ chunk) old) d, ok (written ++ chunk))
  write_one device old written chunk (some (e, n)) d =
      (put device (overwrite (written ++ take n chunk) old) d, err e)

  -- The loop over the stream.
  unfoldable pub write_stream :
      String → Bytes → Bytes → List (Result Bytes String) → Disks → Disks × Io Bytes
  unfolding write_one
  write_stream device old written [] d = (d, ok written)
  write_stream device old written (err e ∷ rest) d =
      (d, err (error_of (format ("Stream error: " ∷ e ∷ []))))
  write_stream device old written (ok chunk ∷ rest) d =
      let (d', r) = write_one device old written chunk (write_fault device (length written)) d in
      elim r [ ok w ↦ write_stream device old (written ++ chunk) rest d' | err e ↦ (d', err e) ]

  -- `flush`, `sync_all` and the verification, behind the stream.
  finish : String → Option String → Disks × Io Bytes → Disks × Io ℕ
  unfolding verify
  finish device expected (d, r) =
      (d, (do image ← r; no_fault (sync_fault device); verify expected image; ok 0))

  open_and_write : String → Option String → Response → Option Bytes → Disks → Disks × Io ℕ
  unfolding write_stream finish
  open_and_write device expected response none d =
      (d, err (record { kind = not_found; message = "No such file or directory" }))
  open_and_write device expected response (some old) d =
      finish device expected (write_stream device old [] response.chunks d)

  received : String → Option String → Io Response → Disks → Disks × Io ℕ
  unfolding open_and_write
  received device expected (ok response) d =
      open_and_write device expected response (get device d) d
  received device expected (err e) d = (d, err e)

  unfoldable pub request_image : String → Io Response
  request_image url = do
    response ← map_err (λ e. error_of (format ("Download failed: " ∷ e ∷ []))) (fetch url)
    success response "Server returned error: "

  unfoldable pub flash_full_image : String → String → Option String → Disks → Disks × Io ℕ
  unfolding received request_image
  flash_full_image url device expected d = received device expected (request_image url) d

  -- The patched image and the size that the server gave for the delta, before anything is written.
  unfoldable pub patched_image : System → String → Option String → Disks → Io (Bytes × ℕ)
  unfolding get_active_partition verify
  patched_image sys url expected d = do
    no_fault temp_fault
    got ← map_err (λ e. error_of (format ("Delta download failed: " ∷ e ∷ []))) (fetch url)
    response ← success got "Server returned error for delta: "
    delta ←
        map_err (λ e. error_of (format ("Failed to download delta: " ∷ e ∷ [])))
          (all_bytes response.chunks)
    no_fault temp_write_fault
    active ← get_active_partition sys
    old ← elim (get active.device d) [
      | some b ↦ ok b
      | none ↦ err (error_of "Failed to read active partition: No such file or directory")
    ]
    new ← map_err (λ e. error_of (format ("bspatch failed: " ∷ e ∷ []))) (patch old delta)
    verify expected new
    ok (new, unwrap_or response.content_length 0)

  -- `new_image.len() as u64 - delta_size`, in 64 bits.
  unfoldable pub bytes_saved : ℕ → ℕ → ℕ
  bytes_saved size delta_size = (size + 2 ^ 64 - delta_size) % 2 ^ 64

  write_patched : String → Io (Bytes × ℕ) → Disks → Disks × Io ℕ
  unfolding write_one bytes_saved
  write_patched device (err e) d = (d, err e)
  write_patched device (ok (new, delta_size)) d = elim (get device d) [
    | none ↦ (d, err (record { kind = not_found; message = "No such file or directory" }))
    | some old ↦
        let (d', r) = write_one device old [] new (write_fault device 0) d in
        (d', (do w ← r; no_fault (sync_fault device); ok (bytes_saved (length new) delta_size)))
  ]

  unfoldable pub apply_delta_update :
      System → String → String → Option String → Disks → Disks × Io ℕ
  unfolding patched_image write_patched
  apply_delta_update sys url device expected d =
      write_patched device (patched_image sys url expected d) d

  fall_back : Option String → String → Option String → Disks × Io ℕ → Disks × Io ℕ
  unfolding flash_full_image
  fall_back url device expected (d, ok saved) = (d, ok saved)
  fall_back (some full) device expected (d, err e) = flash_full_image full device expected d
  fall_back none device expected (d, err e) = (
    d,
    err (error_of (format ("Delta update failed and no fallback URL provided: " ∷ e.message ∷ []))),
  )

  unfoldable pub flash_image :
      System → String → String → Option String → Bool → Option String → Disks → Disks × Io ℕ
  unfolding apply_delta_update fall_back flash_full_image
  flash_image sys url device expected true fallback d =
      fall_back fallback device expected (apply_delta_update sys url device expected d)
  flash_image sys url device expected false fallback d = flash_full_image url device expected d

-- ===== src/Agent/Diagnostics/Dumps/Laws.antt =====
-- What the dumps of one directory leave there.
use keelos.Prelude.{◌/◌, ◌≡◌, refl, ap, ◌∙◌, ℕ, String, Bool, none, ok, [], ◌∷◌, format}
use keelos.Prelude.Dict.{Dict, put, put-put}
use keelos.Agent.Diagnostics.Dumps.{
  Sources, byte_len, dump_content, dump_path, written, saved, with_path, collect_crash_dump_to,
}

-- A dump that meets no fault.
pub collect-lem :
    (dump_dir : String) (include_kernel include_userspace : Bool) (env : Sources)
    (files : Dict String)
    → env.dir_fault ≡ none
    → env.write_fault ≡ none
    → let content = dump_content include_kernel include_userspace env in
      collect_crash_dump_to dump_dir include_kernel include_userspace env files
      ≡ (put (dump_path dump_dir env) content files, ok (dump_path dump_dir env, byte_len content))
unfolding collect_crash_dump_to
collect-lem dump_dir include_kernel include_userspace env files d w =
    let path = dump_path dump_dir env in
    let content = dump_content include_kernel include_userspace env in
    let no_dir : String = "Failed to create crash dump directory: " in
    let no_file : String = "Failed to write crash dump: " in
    ap (λ fault. with_path path (saved fault no_dir no_file env.write_fault path content files)) d
    ∙ ap (λ fault. with_path path (written no_file fault path content files)) w

-- What the documentation of chrono says of the specifiers %Y, %m, %d, %H, %M and %S: none of them
-- shows a fraction of a second.
abbrev pub ShowsWholeSeconds : (String → ℕ → String) → Type 0
ShowsWholeSeconds format_utc =
    (t t' : ℕ)
    → t / 1000000000 ≡ t' / 1000000000
    → format_utc "%Y%m%d-%H%M%S" t ≡ format_utc "%Y%m%d-%H%M%S" t'

-- Two calls whose clocks show the same second name the same file.
same_name :
    (dump_dir : String) (env again : Sources)
    → ShowsWholeSeconds env.format_utc
    → again.format_utc ≡ env.format_utc
    → again.named_at / 1000000000 ≡ env.named_at / 1000000000
    → dump_path dump_dir again ≡ dump_path dump_dir env
same_name dump_dir env again law same t =
    ap (λ (s : String). format (dump_dir ∷ "/crash-" ∷ s ∷ ".txt" ∷ []))
      (ap (λ (f : String → ℕ → String). f "%Y%m%d-%H%M%S" again.named_at) same
        ∙ law again.named_at env.named_at t)

-- Of two dumps whose clocks show the same second of the time, however many nanoseconds lie between
-- them, and neither of which meets a fault, the second replaces the first: both calls succeed and
-- give the same path, and the files are those that the second call alone would have left; if chrono
-- formats the time as it documents.
pub dumps_of_one_second :
    (dump_dir : String) (kernel userspace kernel_too userspace_too : Bool) (env again : Sources)
    (files : Dict String)
    → ShowsWholeSeconds env.format_utc
    → again.format_utc ≡ env.format_utc
    → again.named_at / 1000000000 ≡ env.named_at / 1000000000
    → env.dir_fault ≡ none
    → env.write_fault ≡ none
    → again.dir_fault ≡ none
    → again.write_fault ≡ none
    → let (once, first) = collect_crash_dump_to dump_dir kernel userspace env files in
      let (twice, second) = collect_crash_dump_to dump_dir kernel_too userspace_too again once in
      ((path : String) × (size size_too : ℕ) × (first ≡ ok (path, size))
        × (second ≡ ok (path, size_too)))
      × (twice ≡ (collect_crash_dump_to dump_dir kernel_too userspace_too again files).0)
dumps_of_one_second dump_dir kernel userspace kernel_too userspace_too env again files =
    λ law f t d w e v.
      let path = dump_path dump_dir env in
      let content = dump_content kernel userspace env in
      let content_too = dump_content kernel_too userspace_too again in
      let same = same_name dump_dir env again law f t in
      let first = collect-lem dump_dir kernel userspace env files d w in
      let second =
        collect-lem dump_dir kernel_too userspace_too again (put path content files) e v in
      let alone = collect-lem dump_dir kernel_too userspace_too again files e v in
      rw (first, second, alone, same)
        (
          (path, byte_len content, byte_len content_too, refl, refl),
          put-put path content content_too files,
        )

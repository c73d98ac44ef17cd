-- ===== src/Segment/Store/Steps.antt =====
-- The steps of `Compact` on the files of the directory: the publication and the removals.
use std.Path.{fun_ext}
use private_mesh.Prelude.{
  ℕ, suc, ◌≡◌, ◌⊎◌, refl, ap, ◌∙◌, Bool, true, false, ◌||◌, List, [], ◌∷◌, length, take,
  if◌then◌else◌, Option, none, some, Result, ok, err, inl, inr, arith,
}
use private_mesh.Text.{Text, text_eq}
use private_mesh.Text.Maps.{Map, put, remove}
use private_mesh.Text.Maps.Finding.{find-put, find-remove}
use private_mesh.Segment.Codec.{Error, Record, io}
use private_mesh.Segment.Codec.Write.{encode_segment, sealed}
use private_mesh.Segment.Codec.Sealed.{payload_of, encode_segment-sealed}
use private_mesh.Segment.Directory.{
  Directory, Action, ◌>>=◌, ◌>>◌, continue, of_result, call, same, segment_name,
}
use private_mesh.Segment.Store.{
  Stored, segments_of, next_generation, current_records, live_records, remove_merged,
  sync_directory, publish_file, publish_locked,
}
use private_mesh.Segment.Store.Kept.{seen, Keeps, call-Keeps, same-Keeps, sync_directory-Keeps}

-- The file has the name of one of the segments.
unfoldable pub is_among : Text → List Stored → Bool
is_among name [] = false
is_among name (s ∷ ss) = text_eq s.name name || is_among name ss

module _ (temporary : Text) where
  -- An outcome with an error that has left the files as in `v`.
  abbrev pub FailsAt : {A : Type 0} → (Text → Option Text) → Result Error A × Directory → Type 0
  FailsAt v outcome = (e : Error) × (outcome.0 ≡ err e) × (seen temporary outcome.1.files ≡ v)

  seen-remove : (files : Map Text) → seen temporary (remove temporary files) ≡ seen temporary files
  unfolding seen
  seen-remove files = fun_ext λ name. ground (arith, find-remove temporary name files)

  seen-put : (files : Map Text) → seen temporary (put temporary [] files) ≡ seen temporary files
  unfolding seen
  seen-put files = fun_ext λ name. ground (arith, find-put temporary name [] files)

  -- A step that keeps the files: it fails so, or what follows it decides.
  pub step :
      {A B : Type 0} (R : Result Error B × Directory → Type 0) (v : Text → Option Text)
      (action : Action A) (next : A → Action B) (d : Directory)
      → Keeps temporary action
      → seen temporary d.files ≡ v
      → ((a : A) (d' : Directory)
          → (action d).0 ≡ ok a
          → seen temporary d'.files ≡ v
          → FailsAt v (next a d') ⊎ R (next a d'))
      → FailsAt v ((action >>= next) d) ⊎ R ((action >>= next) d)
  step {A} {B} R v action next d keeps here follows = from (action d) refl (keeps d ∙ here)
    where
      from :
          (x : Result Error A × Directory)
          → action d ≡ x
          → seen temporary x.1.files ≡ v
          → FailsAt v (continue x next) ⊎ R (continue x next)
      from (err e, d') same_x kept = inl (e, refl, kept)
      from (ok a, d') same_x kept =
          follows a d' (ap (λ (y : Result Error A × Directory). y.0) same_x) kept

  -- A call that changes the files: it fails and leaves them, or what follows it decides.
  changed_at :
      {B : Type 0} (R : Result Error B × Directory → Type 0) (v w : Text → Option Text) (e : Error)
      (change : Map Text → Map Text) (next : Action B) (files : Map Text) (faults : List Bool)
      → seen temporary files ≡ v
      → seen temporary (change files) ≡ w
      → ((d' : Directory) → seen temporary d'.files ≡ w → R (next d'))
      → FailsAt v ((call e change >> next) (record { files = files; faults = faults }))
        ⊎ R ((call e change >> next) (record { files = files; faults = faults }))
  unfolding call
  changed_at R v w e change next files [] here there follows =
      inr (follows (record { files = change files; faults = [] }) there)
  changed_at R v w e change next files (true ∷ fs) here there follows = inl (e, refl, here)
  changed_at R v w e change next files (false ∷ fs) here there follows =
      inr (follows (record { files = change files; faults = fs }) there)

  -- The loop over the merged segments removes the files of the first `k`, and of all unless it fails.
  unfoldable pub IsRemoved :
      List Stored → Map Text → Result Error (Unit {0}) × Directory → ℕ → Type 0
  IsRemoved ss files outcome k =
      (seen temporary outcome.1.files ≡ λ name.
      if is_among name (take k ss) then none else seen temporary files name)
      × (((outcome.0 ≡ ok tt) × (k ≡ length ss)) ⊎ ((e : Error) × (outcome.0 ≡ err e)))

  removed_too :
      (s : Stored) (ss : List Stored) (files files' : Map Text) (k : ℕ)
      → (seen temporary files' ≡ λ name.
          if is_among name (take k ss) then none else seen temporary (remove s.name files) name)
      → (seen temporary files' ≡ λ name.
          if is_among name (take (suc k) (s ∷ ss)) then none else seen temporary files name)
  unfolding is_among seen
  removed_too s ss files files' k file =
      file ∙ fun_ext λ name. ground (arith, find-remove s.name name files)

  one_more :
      (s : Stored) (ss : List Stored) (files : Map Text) (x : Result Error (Unit {0}) × Directory)
      (k : ℕ)
      → IsRemoved ss (remove s.name files) x k
      → IsRemoved (s ∷ ss) files x (suc k)
  unfolding is_among IsRemoved
  one_more s ss files x k (file, inl (done, all)) =
      (removed_too s ss files x.1.files k file, inl (done, ap suc all))
  one_more s ss files x k (file, inr failed) = (removed_too s ss files x.1.files k file, inr failed)

  pub remove_merged-IsRemoved :
      (ss : List Stored) (files : Map Text) (faults : List Bool)
      → (k : ℕ) × IsRemoved ss files
          (remove_merged ss (record { files = files; faults = faults }))
          k
  unfolding remove_merged call is_among IsRemoved
  remove_merged-IsRemoved [] files faults = (0, (refl, inl (refl, refl)))
  remove_merged-IsRemoved (s ∷ ss) files (true ∷ fs) = (0, (refl, inr (io, refl)))
  remove_merged-IsRemoved (s ∷ ss) files [] =
      let (k, h) = remove_merged-IsRemoved ss (remove s.name files) [] in
      (
        suc k,
        one_more s ss files (remove_merged ss (record { files = remove s.name files; faults = [] }))
            k h,
      )
  remove_merged-IsRemoved (s ∷ ss) files (false ∷ fs) =
      let (k, h) = remove_merged-IsRemoved ss (remove s.name files) fs in
      (
        suc k,
        one_more s ss files (remove_merged ss (record { files = remove s.name files; faults = fs }))
            k h,
      )

  module _ (tokenize : Text → List Text) (digest : Text → Text) (stored : List Stored) where
    -- The records that `Compact` hands to `publishLocked`, and the bytes of the merged segment.
    abbrev pub live : List Record
    live = live_records (current_records (segments_of stored) [])

    abbrev pub merged_bytes : Text
    merged_bytes =
        sealed (next_generation stored) (digest (payload_of tokenize live))
          (payload_of tokenize live)

    -- The files when the merged segment is in place, if they were as in `v`.
    abbrev pub published : (Text → Option Text) → Text → Option Text
    published v name =
        if text_eq temporary name
        then none
        else if text_eq (segment_name (next_generation stored)) name
        then some merged_bytes
        else v name

    abbrev pub IsPublished :
        {B : Type 0} → (Text → Option Text) → Result Error B × Directory → Type 0
    IsPublished v outcome = seen temporary outcome.1.files ≡ published v

    find-rename :
        (files : Map Text)
        → seen temporary
            (put (segment_name (next_generation stored)) merged_bytes (remove temporary files))
          ≡ published (seen temporary files)
    unfolding seen
    find-rename files = fun_ext λ name. ground (
      arith,
      find-put (segment_name (next_generation stored)) name merged_bytes (remove temporary files),
      find-remove temporary name files,
    )

    publish_file-IsPublished :
        (v : Text → Option Text) (d : Directory)
        → seen temporary d.files ≡ v
        → FailsAt v (publish_file tokenize digest temporary (next_generation stored) live d)
          ⊎ IsPublished v (publish_file tokenize digest temporary (next_generation stored) live d)
    unfolding publish_file
    publish_file-IsPublished v d here =
        step (IsPublished v) v (call io same) _ d (same-Keeps temporary io) here λ _ d1 _ h1.
          step (IsPublished v) v
            (of_result (encode_segment tokenize digest (next_generation stored) live)) _ d1
            (λ d. refl) h1
            λ content d2 encoded h2.
              step (IsPublished v) v (call io same) _ d2 (same-Keeps temporary io) h2 λ _ d3 _ h3.
                step (IsPublished v) v (call io same) _ d3 (same-Keeps temporary io) h3 λ _ d4 _ h4.
                  step (IsPublished v) v (call io same) _ d4 (same-Keeps temporary io) h4
                    λ _ d5 _ h5.
                      step (IsPublished v) v (call io same) _ d5 (same-Keeps temporary io) h5
                        λ _ d6 _ h6.
                          changed_at (IsPublished v) v (published v) io
                            (λ files.
                              put (segment_name (next_generation stored)) content
                                (remove temporary files))
                            sync_directory d6.files d6.faults h6
                            (ap
                                (λ (bytes : Text). seen temporary (
                                  put (segment_name (next_generation stored)) bytes
                                    (remove temporary d6.files)))
                                (encode_segment-sealed tokenize digest (next_generation stored) live
                                  content encoded)
                              ∙ find-rename d6.files
                              ∙ ap published h6)
                            (λ d' h. sync_directory-Keeps temporary d' ∙ h)

    -- After an error of `publishFile` the temporary file is removed.
    removed-Keeps : Keeps temporary (call io (remove temporary))
    removed-Keeps = call-Keeps temporary io (remove temporary) (λ files. seen-remove files)

    cleaned :
        (v : Text → Option Text) (x : Result Error (Unit {0}) × Directory)
        → FailsAt v x ⊎ IsPublished v x
        → FailsAt {A = Unit {0}} v
            (elim x.0 [ ok u ↦ (ok u, x.1) | err e ↦ (err e, (call io (remove temporary) x.1).1) ])
          ⊎ IsPublished {B = Unit {0}} v (elim x.0 [
            | ok u ↦ (ok u, x.1)
            | err e ↦ (err e, (call io (remove temporary) x.1).1)
          ])
    cleaned v (ok u, d) h = h
    cleaned v (err e, d) (inl (e', same_e, h)) = inl (e, refl, removed-Keeps d ∙ h)
    cleaned v (err e, d) (inr h) = inr (removed-Keeps d ∙ h)

    pub publish_locked-IsPublished :
        (v : Text → Option Text) (d : Directory)
        → seen temporary d.files ≡ v
        → FailsAt v (publish_locked tokenize digest temporary (next_generation stored) live d)
          ⊎ IsPublished v (publish_locked tokenize digest temporary (next_generation stored) live d)
    unfolding publish_locked
    publish_locked-IsPublished v d here =
        step (IsPublished v) v (call io (put temporary [])) _ d
          (call-Keeps temporary io (put temporary []) (λ files. seen-put files)) here
          λ _ d' _ h. cleaned v _ (publish_file-IsPublished v d' h)

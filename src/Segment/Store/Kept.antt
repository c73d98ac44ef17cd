-- ===== src/Segment/Store/Kept.antt =====
-- The steps of the store that leave the files of the directory as they are, whichever of their calls fail.
use private_mesh.Prelude.{
  Option, none, if◌then◌else◌, ◌≡◌, refl, ◌∙◌, Bool, true, false, List, [], ◌∷◌, Result, ok, err,
  either_branch,
}
use private_mesh.Text.{Text, text_eq}
use private_mesh.Text.Maps.{Map, find}
use private_mesh.Segment.Codec.{Error, FileSegment, invalid, io}
use private_mesh.Segment.Codec.Read.{decode_segment}
use private_mesh.Segment.Directory.{
  Directory, Action, ◌>>=◌, continue, return, call, same, segment_name, is_segment_name,
}
use private_mesh.Segment.Store.{Stored, close_with, load, load_all, list_locked, sync_directory}

-- The files of the directory but a temporary one, by their names.
unfoldable pub seen : Text → Map Text → Text → Option Text
seen temporary files name = if text_eq temporary name then none else find name files

module _ (temporary : Text) where
  -- What is done keeps the files.
  abbrev pub Keeps : {A : Type 0} → Action A → Type 0
  Keeps {A} action = (d : Directory) → seen temporary (action d).1.files ≡ seen temporary d.files

  call_at :
      (e : Error) (change : Map Text → Map Text) (files : Map Text) (faults : List Bool)
      → seen temporary (change files) ≡ seen temporary files
      → seen temporary (call e change (record { files = files; faults = faults })).1.files
        ≡ seen temporary files
  unfolding call
  call_at e change files [] h = h
  call_at e change files (true ∷ fs) h = refl
  call_at e change files (false ∷ fs) h = h

  pub call-Keeps :
      (e : Error) (change : Map Text → Map Text)
      → ((files : Map Text) → seen temporary (change files) ≡ seen temporary files)
      → Keeps (call e change)
  call-Keeps e change h d = call_at e change d.files d.faults (h d.files)

  pub same-Keeps : (e : Error) → Keeps (call e same)
  same-Keeps e = call-Keeps e same (λ files. refl)

  continue_at :
      {A B : Type 0} (x : Result Error A × Directory) (next : A → Action B)
      → ((a : A) → Keeps (next a))
      → seen temporary (continue x next).1.files ≡ seen temporary x.1.files
  continue_at (err e, d) next h = refl
  continue_at (ok a, d) next h = h a d

  pub bind-Keeps :
      {A B : Type 0} (action : Action A) (next : A → Action B)
      → Keeps action
      → ((a : A) → Keeps (next a))
      → Keeps (action >>= next)
  bind-Keeps action next h k d = continue_at (action d) next k ∙ h d

  close_with-Keeps : (r : Result Error FileSegment) → Keeps (close_with r)
  unfolding close_with
  close_with-Keeps (err e) d = same-Keeps io d
  close_with-Keeps (ok s) d =
      continue_at (call io same d) (λ _. return s) (λ _ d. refl) ∙ same-Keeps io d

  module _ (tokenize : Text → List Text) (digest : Text → Text) where
    load-Keeps : (n content : Text) → Keeps (load digest n content)
    unfolding load
    load-Keeps n content = bind-Keeps (call io same) _ (same-Keeps io) λ _.
        bind-Keeps (call invalid same) _ (same-Keeps invalid) λ _.
          bind-Keeps (close_with (decode_segment digest content)) _
            (close_with-Keeps (decode_segment digest content))
            λ segment.
              either_branch (λ (a : Action Stored). Keeps a)
                (text_eq n (segment_name segment.generation)) _ _ (λ d. refl) (λ d. refl)

    load_all-Keeps : (files : Map Text) → Keeps (load_all digest files)
    unfolding load_all
    load_all-Keeps [] = λ d. refl
    load_all-Keeps ((n, content) ∷ files) =
        either_branch (λ (a : Action (List Stored)). Keeps a) (is_segment_name n) _ _
          (bind-Keeps (load digest n content) _ (load-Keeps n content)
            λ stored. bind-Keeps (load_all digest files) _ (load_all-Keeps files) λ others d. refl)
          (load_all-Keeps files)

    pub list_locked-Keeps : Keeps (list_locked tokenize digest)
    unfolding list_locked
    list_locked-Keeps = bind-Keeps (call io same) _ (same-Keeps io) λ _.
        bind-Keeps (λ d. load_all digest d.files d) _ (λ d. load_all-Keeps d.files d)
          λ stored d. refl

  pub sync_directory-Keeps : Keeps sync_directory
  unfolding sync_directory
  sync_directory-Keeps = bind-Keeps (call io same) _ (same-Keeps io) λ _. same-Keeps io

-- ===== src/Segment/Store/Compacting.antt =====
-- What `Compact` does to the directory, whichever of its calls fail.
use private_mesh.Prelude.{
  ℕ, ◌<◌, ◌≡◌, ◌⊎◌, Bool, true, false, List, [], ◌∷◌, ◌++◌, length, take, drop, if◌then◌else◌, none,
  some, Result, ok, err,
}
use private_mesh.Text.{Text, text_eq}
use private_mesh.Text.Maps.{find}
use private_mesh.Segment.Codec.{Error, FileSegment}
use private_mesh.Segment.Codec.Write.{sealed, write_payload, by_terms, build_postings}
use private_mesh.Segment.Directory.{Directory, segment_name}
use private_mesh.Segment.Store.{Stored, list_locked, segments_of, next_generation, current_records}
use private_mesh.Segment.Store.Kept.{seen}
use private_mesh.Segment.Store.Merging.{visible, merged_records}
use private_mesh.Segment.Store.Steps.{is_among}

-- The segment that `Compact` publishes, as it is read back.
abbrev pub merged_segment : (Text → List Text) → List Stored → FileSegment
merged_segment tokenize stored = record {
  generation = next_generation stored;
  records = merged_records (segments_of stored);
  postings = by_terms (build_postings tokenize 0 (merged_records (segments_of stored)) []);
}

-- The merged segment is in place, and the files of the first `k` of the old segments are removed, of
-- all if there is no error; the visible record of `id` is the one from before.
pub record IsCompacted (tokenize : Text → List Text) (digest : Text → Text) (max_segments : ℕ)
    (temporary : Text) (d : Directory) (id : Text) (outcome : Result Error Bool × Directory)
    : Type 0 where
  pub stored : List Stored
  pub k : ℕ
  pub listed : (list_locked tokenize digest d).0 ≡ ok stored
  pub many : max_segments < length stored
  pub file : seen temporary outcome.1.files ≡ λ name.
      if is_among name (take k stored)
      then none
      else if text_eq temporary name
      then none
      else if text_eq (segment_name (next_generation stored)) name
      then some (
          sealed
            (next_generation stored)
            (digest (
              write_payload
                (merged_segment tokenize stored).records
                (merged_segment tokenize stored).postings))
            (write_payload
              (merged_segment tokenize stored).records
              (merged_segment tokenize stored).postings))
      else seen temporary d.files name
  pub ended : ((outcome.0 ≡ ok true) × (k ≡ length stored)) ⊎ ((e : Error) × (outcome.0 ≡ err e))
  pub same_visible :
      visible (
        find id (
          current_records
            (drop k (segments_of stored) ++ (merged_segment tokenize stored ∷ []))
            []))
      ≡ visible (find id (current_records (segments_of stored) []))

-- An error or no need to merge, with the file as it was, or the merged segment in place.
abbrev pub Compacts :
    (Text → List Text)
    → (Text → Text)
    → ℕ
    → (temporary : Text) → Directory
    → (id : Text) → Result Error Bool × Directory
    → Type 0
Compacts tokenize digest max_segments temporary d id outcome =
    ((e : Error) × (outcome.0 ≡ err e) × (seen temporary outcome.1.files ≡ seen temporary d.files))
    ⊎ (((outcome.0 ≡ ok false) × (seen temporary outcome.1.files ≡ seen temporary d.files))
        ⊎ IsCompacted tokenize digest max_segments temporary d id outcome)

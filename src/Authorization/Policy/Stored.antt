-- ===== src/Authorization/Policy/Stored.antt =====
-- What the store in memory answers after a policy is set.
use private_mesh.Prelude.{
  ◌≡◌, refl, ◌∙◌, ap, Bool, false, ◌&&◌, ◌||◌, [], ◌∷◌, ◌++◌, ◌==◌, arith, some, ok, if◌then◌else◌,
}
use private_mesh.Text.{Text, text_eq, trim_space, is_empty}
use private_mesh.Text.Trim.{trim_space-trim_space}
use private_mesh.Text.Maps.{find, put}
use private_mesh.Text.Maps.Finding.{find-put}
use private_mesh.Authorization.Policy.{
  Policy, MemoryStore, resource_key, validate_policy, set_document_policy, document_policy,
}

unfoldable pub has_nul : Text → Bool
has_nul [] = false
has_nul (a ∷ s) = a == 0 || has_nul s

text_eq-joined :
    (s s' t t' : Text)
    → has_nul s ≡ false
    → has_nul s' ≡ false
    → text_eq (s ++ (0 ∷ t)) (s' ++ (0 ∷ t')) ≡ (text_eq s s' && text_eq t t')
unfolding text_eq has_nul
text_eq-joined [] [] t t' h h' = ground arith
text_eq-joined [] (b ∷ s') t t' h h' = ground arith
text_eq-joined (a ∷ s) [] t t' h h' = ground arith
text_eq-joined (a ∷ s) (b ∷ s') t t' h h' = ground (arith, text_eq-joined s s' t t')

same_key :
    (collection document collection' document' : Text)
    → has_nul (trim_space collection) ≡ false
    → has_nul (trim_space collection') ≡ false
    → text_eq
        (resource_key (trim_space collection) (trim_space document))
        (resource_key collection' document')
      ≡ (text_eq (trim_space collection) (trim_space collection')
          && text_eq (trim_space document) (trim_space document'))
unfolding resource_key
same_key collection document collection' document' nul nul' =
    rw (trim_space-trim_space collection) (
      rw (trim_space-trim_space document) (
        text_eq-joined (trim_space collection) (trim_space collection') (trim_space document)
          (trim_space document') nul nul'))

-- After a valid policy is set for a document, the store answers it for that document, whatever
-- white space surrounds the IDs, and answers for every other document what it answered before; as
-- long as the collections' IDs hold no NUL.
document_policy-set_document_policy :
    (collection document collection' document' : Text) (policy : Policy) (s : MemoryStore)
    → is_empty (trim_space collection) ≡ false
    → is_empty (trim_space document) ≡ false
    → validate_policy policy ≡ ok tt
    → has_nul (trim_space collection) ≡ false
    → has_nul (trim_space collection') ≡ false
    → (s' : MemoryStore) × (set_document_policy collection document policy s ≡ ok s')
      × (document_policy collection' document' s' ≡ (
          if text_eq (trim_space collection) (trim_space collection')
            && text_eq (trim_space document) (trim_space document')
          then some policy
          else document_policy collection' document' s))
unfolding set_document_policy document_policy resource_key
document_policy-set_document_policy collection document collection' document' policy s hc hd valid
      nul nul' =
    (
      record s {
        documents =
            put (resource_key (trim_space collection) (trim_space document)) policy s.documents;
      },
      rw hc (rw hd (rw valid refl)),
      find-put (resource_key (trim_space collection) (trim_space document))
            (resource_key collection' document') policy s.documents
          ∙ ap
              (λ (same : Bool).
                if same then some policy else find (resource_key collection' document') s.documents)
              (same_key collection document collection' document' nul nul'),
    )

-- ===== src/Coordinator/Prepared.antt =====
-- What the steps of a search keep of the request.
use private_mesh.Prelude.{
  ℕ, ◌≤◌, ◌≡◌, ◌⊎◌, refl, sym, ap, ◌∙◌, Bool, true, false, not, List, [], ◌∷◌, ◌++◌, if◌then◌else◌,
  Option, some, Result, ok, err, Bool-cases, Option-cases, ◌>>=◌, bind_ok, bind_ok, inl, inr, arith,
  ℤ, pos, negsuc,
}
use private_mesh.Text.{Text, text_eq, trim_space, is_empty}
use private_mesh.Text.Equality.{text_eq_sound, text_eq_refl}
use private_mesh.Text.Sets.{string_set}
use private_mesh.Text.Maps.{Map, find, put}
use private_mesh.Text.Maps.Finding.{find-put}
use private_mesh.Registry.{Node}
use private_mesh.Registry.Listing.{Listed}
use private_mesh.Distributed.Merge.{Update}
use private_mesh.Distributed.Execute.{
  Query, request_id_required, text_required, limit_not_positive, timeout_negative, is_positive,
  is_negative, limit_of, pending_from, checked,
}
use private_mesh.Coordinator.{
  Api, SearchRequest, is_between, select_mode, limit_or_default, timeout_or_default,
  maximum_search_limit, maximum_search_timeout,
}
use private_mesh.Coordinator.Handlers.{check_search, prepare, final_update, or_status, sought_by}

-- A node that is asked is found under its ID, if no other has this ID.
pub pending_from-find :
    (x : Node) (ns : List Node) (m : Map Node)
    → ((y : Node) → Listed y ns → y.id ≡ x.id → y ≡ x)
    → Listed x ns ⊎ (find x.id m ≡ some x)
    → find x.id (pending_from ns m) ≡ some x
unfolding pending_from Listed
pending_from-find x [] m alone (inl l) = absurd l
pending_from-find x [] m alone (inr h) = h
pending_from-find x (n ∷ ns) m alone (inl (inl e)) =
    pending_from-find x ns (put n.id n m) (λ y l. alone y (inr l))
      (inr (find-put n.id x.id n m ∙ rw (sym e) (rw (text_eq_refl x.id) refl)))
pending_from-find x (n ∷ ns) m alone (inl (inr l)) =
    pending_from-find x ns (put n.id n m) (λ y k. alone y (inr k)) (inl l)
pending_from-find x (n ∷ ns) m alone (inr h) =
    pending_from-find x ns (put n.id n m) (λ y k. alone y (inr k))
      (inr (elim (Bool-cases (text_eq n.id x.id)) [
        | inl same ↦
            find-put n.id x.id n m
            ∙ rw same (ap some (alone n (inl refl) (text_eq_sound n.id x.id same)))
        | inr differs ↦ find-put n.id x.id n m ∙ rw differs h
      ]))

pub final_update-last :
    {Score : Type 0} (final : Update Score) (front : List (Update Score)) (last : Update Score)
    → final_update final (front ++ (last ∷ [])) ≡ last
unfolding final_update
final_update-last final [] last = refl
final_update-last final (u ∷ front) last = final_update-last u front last

passes_if :
    {E A : Type 0} (bad : Bool) (e : E) (r : Result E A) (a : A)
    → (if bad then err e else r) ≡ ok a
    → r ≡ ok a
passes_if false e r a h = h
passes_if true e r a h = absurd (cc h)

pub checked_keeps :
    (q q' : Query)
    → checked q ≡ ok q'
    → (q'.collection_ids ≡ string_set q.collection_ids) × (q'.limit ≡ q.limit)
unfolding checked
checked_keeps q q' h =
    let h1 = passes_if (is_empty (trim_space q.request_id)) request_id_required _ q' h in
    let h2 = passes_if (is_empty (trim_space q.text)) text_required _ q' h1 in
    let h3 = passes_if (not (is_positive q.limit)) limit_not_positive _ q' h2 in
    let same : record q {
      request_id = trim_space q.request_id;
      text = trim_space q.text;
      collection_ids = string_set q.collection_ids;
    }
        ≡ q' =
      cc (passes_if (is_negative q.timeout) timeout_negative _ q' h3) in
    (ap (λ (x : Query). x.collection_ids) (sym same), ap (λ (x : Query). x.limit) (sym same))

module _ (api : Api) (now : ℕ) (header : Text) where
  pub check_search_facts :
      (input : SearchRequest) (sought : Query)
      → check_search api now header (some input) ≡ ok sought
      → (api.authenticate now header ≡ some sought.principal)
        × (sought.collection_ids ≡ input.collection_ids)
        × (is_between 1 maximum_search_limit sought.limit ≡ true)
        × (is_between 1 maximum_search_timeout sought.timeout ≡ true)
  unfolding check_search
  check_search_facts input sought h = elim (Option-cases (api.authenticate now header)) [
    | inl unknown ↦ absurd (cc (rw (unknown, check_search) at h))
    | inr (p, known) ↦ elim (Bool-cases (is_empty (trim_space input.query))) [
      | inl blank ↦ absurd (cc (rw (known, blank, check_search) at h))
      | inr asks ↦
          elim (Bool-cases (is_between 1 maximum_search_limit (limit_or_default input.limit))) [
            | inr beyond ↦ absurd (cc (rw (known, asks, beyond, check_search) at h))
            | inl limited ↦
                elim (Bool-cases
                  (is_between 1 maximum_search_timeout (timeout_or_default input.timeout_ms))) [
                    | inr late ↦ absurd (cc (rw (known, asks, limited, late, check_search) at h))
                    | inl timed ↦
                        let same : sought_by api p input ≡ sought =
                          cc (rw (known, asks, limited, timed, check_search) at h) in
                        (
                          known ∙ ap (λ (x : Query). some x.principal) same,
                          ap (λ (x : Query). x.collection_ids) (sym same),
                          ap (λ (x : Query). is_between 1 maximum_search_limit x.limit) (sym same)
                              ∙ limited,
                          ap (λ (x : Query). is_between 1 maximum_search_timeout x.timeout)
                                (sym same)
                              ∙ timed,
                        )
                  ]
          ]
    ]
  ]

pub prepare_keeps :
    (api : Api) (request_id : Option Text) (sought : Query) (ns : List Node) (q : Query)
    → prepare api request_id sought ns ≡ ok q
    → (q.collection_ids ≡ sought.collection_ids)
      × (q.limit ≡ sought.limit)
      × (q.timeout ≡ sought.timeout)
      × (q.principal ≡ sought.principal)
unfolding prepare
prepare_keeps api request_id sought [] q h = absurd (cc h)
prepare_keeps api request_id sought (n ∷ ns) q h =
    let (mode, e, h1) =
      bind_ok (or_status 400 (select_mode api sought.mode sought.text sought.timeout (n ∷ ns)))
        (λ m. or_status 500 request_id >>= λ id. ok (record sought { mode = m; request_id = id })) q
        h in
    let (id, e', h2) =
      bind_ok (or_status 500 request_id) (λ id. ok (record sought { mode = mode; request_id = id }))
        q h1 in
    let same : record sought { mode = mode; request_id = id } ≡ q = cc h2 in
    (
      ap (λ (x : Query). x.collection_ids) (sym same),
      ap (λ (x : Query). x.limit) (sym same),
      ap (λ (x : Query). x.timeout) (sym same),
      ap (λ (x : Query). x.principal) (sym same),
    )

pub within : (limit : ℤ) → is_between 1 maximum_search_limit limit ≡ true → limit_of limit ≤ 100
unfolding is_between limit_of
within (pos n) h = ground arith
within (negsuc n) h = absurd (cc h)

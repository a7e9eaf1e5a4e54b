-- ===== src/Storage/Document/Duplicates.antt =====
-- What the callback of ParseState makes of the events of a document.
use wotex_matter.Base.{
  ℕ, suc, ◌≡◌, refl, ap, ◌∙◌, false, [], ◌∷◌, ◌++◌, Bytes, eq_bytes, All, All-map_both, arith,
}
use mathlib.Core.List.{append_assoc, append-nil}
use wotex_matter.Json.{
  Json, string, array, object, Items, no_items, item, Members, no_members, member,
}
use wotex_matter.Storage.Values.{Values}
use wotex_matter.Storage.Names
use wotex_matter.Storage.Document.{
  ControllerIdentity, object_start, key, other, Events, SeenKeys, seen, saw_duplicate,
  encoded_members, document_of,
}

-- The events that the library documents for a document: an object's start and end have the depth of
-- what is around it, and its keys have one more.
unfoldable mutual
  pub events_of : ℕ → Json → Events
  events_of depth (object fs) =
      (depth, object_start) ∷ (member_events (suc depth) fs ++ (depth, other) ∷ [])
  events_of depth (array xs) = (depth, other) ∷ (item_events (suc depth) xs ++ (depth, other) ∷ [])
  events_of depth _ = (depth, other) ∷ []

  pub member_events : ℕ → Members → Events
  member_events depth no_members = []
  member_events depth (member k v fs) =
      (depth, key k) ∷ (events_of depth v ++ member_events depth fs)

  pub item_events : ℕ → Items → Events
  item_events depth no_items = []
  item_events depth (item x xs) = events_of depth x ++ item_events depth xs

-- No two entries have the same key, as in every std::map.
abbrev pub DistinctKeys : Values → Type 0
DistinctKeys [] = Unit
DistinctKeys ((k, v) ∷ values) = All (λ e. eq_bytes k e.0 ≡ false) values × DistinctKeys values

abbrev Deep : SeenKeys → Type 0
Deep = All (λ (e : ℕ × Bytes). e.0 ≡ 2)

-- The keys of "values" are distinct, so only what follows them can be a duplicate.
saw_duplicate-values :
    (values : Values) (ks : SeenKeys) (tail : Events)
    → DistinctKeys values
    → All (λ (e : Bytes × Bytes). seen 2 e.0 ks ≡ false) values
    → Deep ks
    → ((ks' : SeenKeys) → Deep ks' → saw_duplicate ks' tail ≡ false)
    → saw_duplicate ks (member_events 2 (encoded_members values) ++ tail) ≡ false
unfolding saw_duplicate events_of
saw_duplicate-values [] ks tail d h deep end = end ks deep
saw_duplicate-values ((k, v) ∷ values) ks tail d h deep end =
    let later : All (λ (e : Bytes × Bytes). seen 2 e.0 ((2, k) ∷ ks) ≡ false) values =
      All-map_both _ _ _ values (λ e p q. ground arith) d.0 h.1 in
    rw (h.0) (saw_duplicate-values values ((2, k) ∷ ks) tail d.1 later (refl, deep) end)

none_seen : (values : Values) → All (λ (e : Bytes × Bytes). seen 2 e.0 [] ≡ false) values
none_seen [] = tt
none_seen (e ∷ values) = (refl, none_seen values)

-- A document that SerializeState writes has no duplicate.
pub saw_duplicate-document_of :
    (identity : ControllerIdentity) (values : Values)
    → DistinctKeys values
    → saw_duplicate [] (events_of 0 (document_of identity values)) ≡ false
unfolding saw_duplicate events_of document_of eq_bytes
saw_duplicate-document_of identity values d =
    rw (append-nil, append_assoc)
      (saw_duplicate-values values [] ((1, other) ∷ (0, other) ∷ []) d (none_seen values) tt
        (λ ks deep. refl))

not_seen : (k : Bytes) (ks : SeenKeys) → Deep ks → seen 1 k ks ≡ false
not_seen k [] deep = refl
not_seen k (e ∷ ks) deep = ground (arith, not_seen k ks deep.1)

-- A top-level key that stands on both sides of "values": the start of that object clears the keys seen
-- at its parent's depth, so the callback reports no duplicate, whatever distinct keys "values" has.
pub saw_duplicate-repeated :
    (k first second : Bytes) (values : Values)
    → eq_bytes k Names.values ≡ false
    → DistinctKeys values
    → saw_duplicate [] (
        events_of 0 (
          object (
            member k (string first) (
              member Names.values
                (object (encoded_members values))
                (member k (string second) no_members)))))
      ≡ false
unfolding saw_duplicate events_of eq_bytes
saw_duplicate-repeated k first second values e d =
    let held : Events = member_events 2 (encoded_members values) in
    let after : Events = (1, key k) ∷ (1, other) ∷ (0, other) ∷ [] in
    let shape : (held ++ (1, other) ∷ []) ++ after ≡ held ++ (1, other) ∷ after =
      append_assoc held ((1, other) ∷ []) after in
    let clean : saw_duplicate [] (held ++ (1, other) ∷ after) ≡ false =
      saw_duplicate-values values [] ((1, other) ∷ after) d (none_seen values) tt
        (λ ks deep. rw (not_seen k ks deep) refl) in
    let ends : ((held ++ (1, other) ∷ []) ++ (1, key k) ∷ (1, other) ∷ []) ++ (0, other) ∷ []
        ≡ (held ++ (1, other) ∷ []) ++ after =
      append_assoc (held ++ (1, other) ∷ []) ((1, key k) ∷ (1, other) ∷ []) ((0, other) ∷ []) in
    let joined = ap (saw_duplicate []) (ends ∙ shape) ∙ clean in rw e joined

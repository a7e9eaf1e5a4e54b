-- ===== src/Sax/Bounded.antt =====
-- The bounds on the JSON that BoundedSax lets pass.
use wotex_matter.Base.{
  ℕ, suc, ◌+◌, ◌≤◌, ◌≡◌, ◌≢◌, refl, sym, ap, ◌∙◌, Bool, true, false, not, ◌&&◌, ◌||◌, List, [], ◌∷◌,
  length, any_of, All, leb, ltb, if◌then◌else◌, if_cases, Bytes, eq_bytes, eq_bytes_refl, arith,
}
use mathlib.Core.Path.{subst}
use wotex_matter.Sax.{
  Collection, object, array, Sax, Event, scalar, binary, start_object, end_object, start_array,
  end_array, parse_error, key, is_in, count_back, back_exceeds, pop, value, start_collection,
  end_collection, insert_key, on_key, on_event, on_events, new_sax,
}

-- No key stands twice.
abbrev pub Distinct : List Bytes → Type 0
Distinct [] = Unit
Distinct (k ∷ ks) = All (λ j. k ≢ j) ks × Distinct ks

abbrev pub IsBounded : Sax → Type 0
IsBounded s =
    (s.nodes ≤ 4096)
    × (length s.collections ≤ 24)
    × (length s.counts ≡ length s.collections)
    × (length s.keys ≡ length s.collections)
    × All (λ n. n ≤ 1024) s.counts
    × All Distinct s.keys

-- A refused event says nothing of the state.
abbrev Accepted : Sax × Bool → Type 0
Accepted r = r.1 ≡ true → IsBounded r.0

different_from :
    (k : Bytes) (ks : List Bytes) → any_of (eq_bytes k) ks ≡ false → All (λ j. k ≢ j) ks
different_from k [] e = tt
different_from k (j ∷ js) e =
    let this : eq_bytes k j ≡ false = ground arith in
    let others : any_of (eq_bytes k) js ≡ false = ground arith in
    (λ same. cc (this, sym (ap (eq_bytes k) same) ∙ eq_bytes_refl k), different_from k js others)

insert_key-Distinct :
    (k : Bytes) (kss : List (List Bytes))
    → All Distinct kss
    → (insert_key k kss).1 ≡ true
    → All Distinct (insert_key k kss).0
insert_key-Distinct k [] h = λ e. tt
insert_key-Distinct k (ks ∷ kss) h =
    if_cases (λ (r : List (List Bytes) × Bool). r.1 ≡ true → All Distinct r.0)
      (any_of (eq_bytes k) ks) (λ found never. cc never)
      λ new _. ((different_from k ks new, h.0), h.1)

insert_key-length : (k : Bytes) (kss : List (List Bytes)) → length (insert_key k kss).0 ≡ length kss
insert_key-length k [] = refl
insert_key-length k (ks ∷ kss) =
    if_cases (λ (r : List (List Bytes) × Bool). length r.0 ≡ length (ks ∷ kss))
      (any_of (eq_bytes k) ks) (λ _. refl) λ _. refl

count_back-length : (ns : List ℕ) → length (count_back ns) ≡ length ns
count_back-length [] = refl
count_back-length (n ∷ ns) = refl

count_back-bounded :
    (ns : List ℕ)
    → All (λ n. n ≤ 1024) ns
    → back_exceeds (count_back ns) ≡ false
    → All (λ n. n ≤ 1024) (count_back ns)
count_back-bounded [] h e = tt
count_back-bounded (n ∷ ns) h e = (ground arith, h.1)

value-Accepted : (s : Sax) → IsBounded s → Accepted (value s)
unfolding value
value-Accepted s h =
    elim (is_in array s.collections)
      as (λ inside. Accepted (
        if inside && back_exceeds (if inside then count_back s.counts else s.counts)
        then (record s { counts = if inside then count_back s.counts else s.counts }, false)
        else (
          record s {
            counts = if inside then count_back s.counts else s.counts;
            nodes = s.nodes + 1;
          },
          leb (s.nodes + 1) 4096,
        ))) [
          | true ↦
              if_cases Accepted (back_exceeds (count_back s.counts)) (λ _ never. cc never)
                λ fits few. (
                  ground arith,
                  h.1,
                  count_back-length s.counts ∙ h.2,
                  h.3,
                  count_back-bounded s.counts h.4 fits,
                  h.5,
                )
          | false ↦ λ few. (ground arith, h.1, h.2, h.3, h.4, h.5)
        ]

value-collections : (s : Sax) → (value s).0.collections ≡ s.collections
unfolding value
value-collections s =
    if_cases (λ (r : Sax × Bool). r.0.collections ≡ s.collections)
      (is_in array s.collections
        && back_exceeds (if is_in array s.collections then count_back s.counts else s.counts))
      (λ _. refl) λ _. refl

open-IsBounded :
    (c : Collection) (s : Sax)
    → IsBounded s
    → length s.collections + 1 ≤ 24
    → IsBounded
        (record s { collections = c ∷ s.collections; counts = 0 ∷ s.counts; keys = [] ∷ s.keys })
open-IsBounded c s h deep =
    (h.0, omega (arith, deep), ap suc h.2, ap suc h.3, (ground arith, h.4), (tt, h.5))

length-pop {ℓ κ} :
    {A : Type ℓ} {B : Type κ} (xs : List A) (ys : List B)
    → length xs ≡ length ys
    → length (pop xs) ≡ length (pop ys)
length-pop [] [] e = refl
length-pop [] (y ∷ ys) e = omega (arith, e)
length-pop (x ∷ xs) [] e = omega (arith, e)
length-pop (x ∷ xs) (y ∷ ys) e = omega (arith, e)

length-pop_le {ℓ} : {A : Type ℓ} (xs : List A) (n : ℕ) → length xs ≤ n → length (pop xs) ≤ n
length-pop_le [] n e = e
length-pop_le (x ∷ xs) n e = omega (arith, e)

All-pop {ℓ κ} : {A : Type ℓ} (P : A → Type κ) (xs : List A) → All P xs → All P (pop xs)
All-pop P [] h = tt
All-pop P (x ∷ xs) h = h.1

start_collection-Accepted :
    (c : Collection) (s : Sax) → IsBounded s → Accepted (start_collection c s)
unfolding start_collection
start_collection-Accepted c s h =
    if_cases Accepted (not (value s).1 || ltb 24 (length s.collections + 1)) (λ _ never. cc never)
      λ fits _.
        let v = value-Accepted s h (ground arith) in
        let same = value-collections s in
        let deep : length s.collections + 1 ≤ 24 = ground arith in
        open-IsBounded c (value s).0 v (subst (λ xs. length xs + 1 ≤ 24) (sym same) deep)

end_collection-Accepted : (c : Collection) (s : Sax) → IsBounded s → Accepted (end_collection c s)
unfolding end_collection
end_collection-Accepted c s h =
    if_cases Accepted (not (is_in c s.collections)) (λ _ never. cc never)
      λ _ _. (
        h.0,
        length-pop_le s.collections 24 h.1,
        length-pop s.counts s.collections h.2,
        length-pop s.keys s.collections h.3,
        All-pop _ s.counts h.4,
        All-pop _ s.keys h.5,
      )

on_key-Accepted : (k : Bytes) (s : Sax) → IsBounded s → Accepted (on_key k s)
unfolding on_key
on_key-Accepted k s h =
    if_cases Accepted (not (is_in object s.collections)) (λ _ never. cc never)
      λ _.
        if_cases Accepted (back_exceeds (count_back s.counts)) (λ _ never. cc never)
          λ fits.
            if_cases Accepted (not (leb (s.nodes + 1) 4096)) (λ _ never. cc never)
              λ few new. (
                ground arith,
                h.1,
                count_back-length s.counts ∙ h.2,
                insert_key-length k s.keys ∙ h.3,
                count_back-bounded s.counts h.4 fits,
                insert_key-Distinct k s.keys h.5 new,
              )

on_event-Accepted : (e : Event) (s : Sax) → IsBounded s → Accepted (on_event e s)
unfolding on_event
on_event-Accepted scalar s h = value-Accepted s h
on_event-Accepted binary s h = λ never. cc never
on_event-Accepted start_object s h = start_collection-Accepted object s h
on_event-Accepted end_object s h = end_collection-Accepted object s h
on_event-Accepted start_array s h = start_collection-Accepted array s h
on_event-Accepted end_array s h = end_collection-Accepted array s h
on_event-Accepted parse_error s h = λ never. cc never
on_event-Accepted (key k) s h = on_key-Accepted k s h

on_events-Accepted : (es : List Event) (s : Sax) → IsBounded s → Accepted (on_events es s)
unfolding on_events
on_events-Accepted [] s h = λ _. h
on_events-Accepted (e ∷ es) s h =
    if_cases Accepted (on_event e s).1
      (λ ok. on_events-Accepted es (on_event e s).0 (on_event-Accepted e s h ok))
      λ _ never. cc never

-- Whatever events the parser reports, if none is refused then at most 4096 nodes were counted, at
-- most 24 collections are open, each with one count of at most 1024 and one set of keys, and no
-- key stands twice in one set.
pub on_events-IsBounded :
    (es : List Event) → (on_events es new_sax).1 ≡ true → IsBounded (on_events es new_sax).0
on_events-IsBounded es ok =
    on_events-Accepted es new_sax (ground arith, ground arith, refl, refl, tt, tt) ok

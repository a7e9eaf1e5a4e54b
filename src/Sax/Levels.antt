-- ===== src/Sax/Levels.antt =====
-- What BoundedSax (native/src/protocol.cpp) lets pass, said of the events alone.
use wotex_matter.Base.{
  ℕ, ◌+◌, ◌≤◌, ◌≡◌, refl, ap, ◌∙◌, Bool, true, false, not, ◌||◌, List, [], ◌∷◌, ◌++◌, map, length,
  length-map, any_of, All, leb, ltb, if◌then◌else◌, if_cases, Bytes, eq_bytes, arith,
}
use mathlib.Core.Path.{subst}
use wotex_matter.Sax.{
  Collection, object, array, Sax, Event, scalar, binary, start_object, end_object, start_array,
  end_array, parse_error, key, is_in, pop, value, start_collection, end_collection, on_key,
  on_event, on_events, new_sax,
}
use wotex_matter.Sax.Bounded.{Distinct, IsBounded, on_events-IsBounded}

-- A collection that is open: an array after so many entries, or an object after these keys.
pub data Level : Type 0 where
  array_level : ℕ → Level
  object_level : List Bytes → Level

-- A value is an entry of the array that it stands in.
abbrev pub entered : List Level → List Level
entered [] = []
entered (array_level n ∷ ls) = array_level (n + 1) ∷ ls
entered (object_level ks ∷ ls) = object_level ks ∷ ls

abbrev pub named : Bytes → List Level → List Level
named k [] = []
named k (array_level n ∷ ls) = array_level n ∷ ls
named k (object_level ks ∷ ls) = object_level (k ∷ ks) ∷ ls

-- The collections that are open after an event, the innermost first, without any limit.
abbrev pub after : Event → List Level → List Level
after scalar ls = entered ls
after binary ls = ls
after start_object ls = object_level [] ∷ entered ls
after end_object ls = pop ls
after start_array ls = array_level 0 ∷ entered ls
after end_array ls = pop ls
after parse_error ls = ls
after (key k) ls = named k ls

unfoldable pub levels : List Event → List Level → List Level
levels [] ls = ls
levels (e ∷ es) ls = levels es (after e ls)

-- The nodes of an event: a value, a collection and a key are one each.
abbrev pub nodes_of : Event → ℕ
nodes_of scalar = 1
nodes_of start_object = 1
nodes_of start_array = 1
nodes_of (key k) = 1
nodes_of _ = 0

unfoldable pub node_count : List Event → ℕ
node_count [] = 0
node_count (e ∷ es) = nodes_of e + node_count es

abbrev pub IsSmall : Level → Type 0
IsSmall (array_level n) = n ≤ 1024
IsSmall (object_level ks) = (length ks ≤ 1024) × Distinct ks

abbrev kind_of : Level → Collection
kind_of (array_level n) = array
kind_of (object_level ks) = object

abbrev entries_of : Level → ℕ
entries_of (array_level n) = n
entries_of (object_level ks) = length ks

abbrev keys_of : Level → List Bytes
keys_of (array_level n) = []
keys_of (object_level ks) = ks

-- The state of BoundedSax after so many nodes, in these collections.
abbrev sax_of : ℕ → List Level → Sax
sax_of n ls = record {
  nodes = n;
  collections = map kind_of ls;
  counts = map entries_of ls;
  keys = map keys_of ls;
}

-- An event that is accepted leads to such a state.
abbrev LeadsTo : Sax → Sax × Bool → Type 0
LeadsTo s r = r.1 ≡ true → r.0 ≡ s

value-sax_of :
    (n : ℕ) (ls : List Level) → LeadsTo (sax_of (n + 1) (entered ls)) (value (sax_of n ls))
unfolding value
value-sax_of n [] = λ _. refl
value-sax_of n (object_level ks ∷ ls) = λ _. refl
value-sax_of n (array_level m ∷ ls) =
    if_cases (LeadsTo (sax_of (n + 1) (array_level (m + 1) ∷ ls))) (ltb 1024 (m + 1))
      (λ _ never. cc never) λ _ _. refl

abbrev opened : Collection → Level
opened array = array_level 0
opened object = object_level []

start_collection-sax_of :
    (c : Collection) (n : ℕ) (ls : List Level)
    → LeadsTo (sax_of (n + 1) (opened c ∷ entered ls)) (start_collection c (sax_of n ls))
unfolding start_collection
start_collection-sax_of c n ls =
    if_cases (LeadsTo (sax_of (n + 1) (opened c ∷ entered ls)))
      (not (value (sax_of n ls)).1 || ltb 24 (length (map kind_of ls) + 1)) (λ _ never. cc never)
      λ fits _. opens c (value (sax_of n ls)).0 (value-sax_of n ls (ground arith))
  where
    opens :
        (c : Collection) (s : Sax)
        → s ≡ sax_of (n + 1) (entered ls)
        → record s { collections = c ∷ s.collections; counts = 0 ∷ s.counts; keys = [] ∷ s.keys }
          ≡ sax_of (n + 1) (opened c ∷ entered ls)
    opens array s e = rw e refl
    opens object s e = rw e refl

end_collection-sax_of :
    (c : Collection) (n : ℕ) (ls : List Level)
    → LeadsTo (sax_of n (pop ls)) (end_collection c (sax_of n ls))
unfolding end_collection
end_collection-sax_of c n [] = λ _. refl
end_collection-sax_of c n (l ∷ ls) =
    if_cases (LeadsTo (sax_of n ls)) (not (is_in c (kind_of l ∷ map kind_of ls)))
      (λ _ never. cc never) λ _ _. refl

-- In an object, with the count and the sets of keys as they are after a key.
abbrev with_keys : ℕ → ℕ → List Level → List (List Bytes) → Sax
with_keys n m ls kss = record {
  nodes = n + 1;
  collections = object ∷ map kind_of ls;
  counts = m ∷ map entries_of ls;
  keys = kss;
}

on_key-sax_of :
    (k : Bytes) (n : ℕ) (ls : List Level)
    → LeadsTo (sax_of (n + 1) (named k ls)) (on_key k (sax_of n ls))
unfolding on_key
on_key-sax_of k n [] = λ never. cc never
on_key-sax_of k n (array_level m ∷ ls) = λ never. cc never
on_key-sax_of k n (object_level ks ∷ ls) =
    if_cases (LeadsTo (sax_of (n + 1) (object_level (k ∷ ks) ∷ ls))) (ltb 1024 (length ks + 1))
      (λ _ never. cc never)
      λ _.
        if_cases (LeadsTo (sax_of (n + 1) (object_level (k ∷ ks) ∷ ls))) (not (leb (n + 1) 4096))
          (λ _ never. cc never)
          λ _.
            if_cases Known (any_of (eq_bytes k) ks) (λ _ never. cc never)
              λ _ _. ap (λ m. with_keys n m ls ((k ∷ ks) ∷ map keys_of ls)) (omega arith)
  where
    Known : List (List Bytes) × Bool → Type 0
    Known r =
        r.1 ≡ true
        → with_keys n (length ks + 1) ls r.0 ≡ sax_of (n + 1) (object_level (k ∷ ks) ∷ ls)

recount :
    (n m : ℕ) (ls : List Level) (r : Sax × Bool)
    → n ≡ m
    → LeadsTo (sax_of n ls) r
    → LeadsTo (sax_of m ls) r
recount n m ls r e h = λ ok. h ok ∙ ap (λ x. sax_of x ls) e

on_event-sax_of :
    (e : Event) (n : ℕ) (ls : List Level)
    → LeadsTo (sax_of (n + nodes_of e) (after e ls)) (on_event e (sax_of n ls))
unfolding on_event
on_event-sax_of scalar n ls = value-sax_of n ls
on_event-sax_of binary n ls = λ never. cc never
on_event-sax_of start_object n ls = start_collection-sax_of object n ls
on_event-sax_of end_object n ls =
    recount n (n + 0) (pop ls) _ (omega arith) (end_collection-sax_of object n ls)
on_event-sax_of start_array n ls = start_collection-sax_of array n ls
on_event-sax_of end_array n ls =
    recount n (n + 0) (pop ls) _ (omega arith) (end_collection-sax_of array n ls)
on_event-sax_of parse_error n ls = λ never. cc never
on_event-sax_of (key k) n ls = on_key-sax_of k n ls

on_events-sax_of :
    (es : List Event) (n : ℕ) (ls : List Level)
    → LeadsTo (sax_of (n + node_count es) (levels es ls)) (on_events es (sax_of n ls))
unfolding on_events node_count levels
on_events-sax_of [] n ls = λ _. ap (λ x. sax_of x ls) (omega arith)
on_events-sax_of (e ∷ es) n ls =
    if_cases (LeadsTo (sax_of (n + (nodes_of e + node_count es)) (levels es (after e ls))))
      (on_event e (sax_of n ls)).1
      (λ ok. rw (on_event-sax_of e n ls ok) (
        recount (n + nodes_of e + node_count es) _ (levels es (after e ls)) _ (omega arith)
          (on_events-sax_of es (n + nodes_of e) (after e ls))))
      λ _ never. cc never

on_events-prefix :
    (xs ys : List Event) (s : Sax) → (on_events (xs ++ ys) s).1 ≡ true → (on_events xs s).1 ≡ true
unfolding on_events
on_events-prefix [] ys s = λ _. refl
on_events-prefix (x ∷ xs) ys s =
    elim (on_event x s).1
      as (λ b.
        (if b then on_events (xs ++ ys) (on_event x s).0 else ((on_event x s).0, false)).1 ≡ true
        → (if b then on_events xs (on_event x s).0 else ((on_event x s).0, false)).1 ≡ true) [
          | true ↦ on_events-prefix xs ys (on_event x s).0
          | false ↦ λ never. cc never
        ]

levels-IsSmall :
    (ls : List Level)
    → All (λ n. n ≤ 1024) (map entries_of ls)
    → All Distinct (map keys_of ls)
    → All IsSmall ls
levels-IsSmall [] h k = tt
levels-IsSmall (array_level n ∷ ls) h k = (h.0, levels-IsSmall ls h.1 k.1)
levels-IsSmall (object_level ks ∷ ls) h k = ((h.0, k.0), levels-IsSmall ls h.1 k.1)

state-IsWithin :
    (n : ℕ) (ls : List Level)
    → IsBounded (sax_of n ls)
    → (n ≤ 4096) × (length ls ≤ 24) × All IsSmall ls
state-IsWithin n ls h = (h.0, omega (arith, h.1, length-map kind_of ls), levels-IsSmall ls h.4 h.5)

-- Whatever events the parser reports, take any moment before their end, at which the events xs have been
-- reported. If none of all the events is refused, then the events xs have at most 4096 values,
-- collections and keys; they leave at most 24 collections open; each open array has had at most 1024
-- entries, and each open object at most 1024 keys, no two of them the same.
pub on_events-IsWithin :
    (xs ys : List Event)
    → (on_events (xs ++ ys) new_sax).1 ≡ true
    → (node_count xs ≤ 4096) × (length (levels xs []) ≤ 24) × All IsSmall (levels xs [])
on_events-IsWithin xs ys h =
    let accepted : (on_events xs new_sax).1 ≡ true = on_events-prefix xs ys new_sax h in
    let state : (on_events xs new_sax).0 ≡ sax_of (0 + node_count xs) (levels xs []) =
      on_events-sax_of xs 0 [] accepted in
    let (few, shallow, small) =
      state-IsWithin _ (levels xs []) (subst IsBounded state (on_events-IsBounded xs accepted)) in
    (omega (arith, few), shallow, small)

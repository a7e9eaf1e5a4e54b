-- ===== src/Sax.antt =====
-- BoundedSax of native/src/protocol.cpp: the checks made on the events of the JSON parser while a
-- frame is read. The vectors collections_, counts_ and keys_ are lists with their back first, and a set of
-- keys is a list. The parser is nlohmann's; here it is the list of the events that it reports.
pub mod Bounded
pub mod Levels
use wotex_matter.Base.{
  ℕ, ◌+◌, Bool, true, false, not, ◌&&◌, ◌||◌, List, [], ◌∷◌, length, any_of, leb, ltb,
  if◌then◌else◌, Bytes, eq_bytes,
}

abbrev pub maximum_depth : ℕ
maximum_depth = 24

abbrev pub maximum_collection_entries : ℕ
maximum_collection_entries = 1024

abbrev pub maximum_nodes : ℕ
maximum_nodes = 4096

pub data Collection : Type 0 where
  object array : Collection

pub record Sax : Type 0 where
  pub nodes : ℕ
  pub collections : List Collection
  pub counts : List ℕ
  pub keys : List (List Bytes)

-- The events; `scalar` is null, boolean, the numbers and string, which are treated alike.
pub data Event : Type 0 where
  scalar binary start_object end_object start_array end_array parse_error : Event
  key : Bytes → Event

abbrev pub same_collection : Collection → Collection → Bool
same_collection object object = true
same_collection array array = true
same_collection object array = false
same_collection array object = false

-- collections_ is not empty, and its back is the given kind.
abbrev pub is_in : Collection → List Collection → Bool
is_in c [] = false
is_in c (d ∷ ds) = same_collection d c

abbrev pub count_back : List ℕ → List ℕ
count_back [] = []
count_back (n ∷ ns) = (n + 1) ∷ ns

abbrev pub back_exceeds : List ℕ → Bool
back_exceeds [] = false
back_exceeds (n ∷ ns) = ltb maximum_collection_entries n

abbrev pub pop {ℓ} : {A : Type ℓ} → List A → List A
pop [] = []
pop (x ∷ xs) = xs

unfoldable pub value : Sax → Sax × Bool
value s =
    let counted = if is_in array s.collections then count_back s.counts else s.counts in
    if is_in array s.collections && back_exceeds counted
    then (record s { counts = counted }, false)
    else (record s { counts = counted; nodes = s.nodes + 1 }, leb (s.nodes + 1) maximum_nodes)

unfoldable pub start_collection : Collection → Sax → Sax × Bool
unfolding value
start_collection c s =
    let v = value s in
    if not v.1 || ltb maximum_depth (length s.collections + 1) then (v.0, false) else (
      record v.0 {
        collections = c ∷ v.0.collections;
        counts = 0 ∷ v.0.counts;
        keys = [] ∷ v.0.keys;
      },
      true,
    )

unfoldable pub end_collection : Collection → Sax → Sax × Bool
end_collection c s = if not (is_in c s.collections) then (s, false) else (
  record s { collections = pop s.collections; counts = pop s.counts; keys = pop s.keys },
  true,
)

-- keys_.back().insert(key): the sets after it, and whether the key is new.
abbrev pub insert_key : Bytes → List (List Bytes) → List (List Bytes) × Bool
insert_key k [] = ([], false)
insert_key k (ks ∷ kss) =
    if any_of (eq_bytes k) ks then (ks ∷ kss, false) else ((k ∷ ks) ∷ kss, true)

unfoldable pub on_key : Bytes → Sax → Sax × Bool
on_key k s =
    let counted = count_back s.counts in
    if not (is_in object s.collections)
    then (s, false)
    else if back_exceeds counted
    then (record s { counts = counted }, false)
    else if not (leb (s.nodes + 1) maximum_nodes)
    then (record s { counts = counted; nodes = s.nodes + 1 }, false)
    else (
      record s { counts = counted; nodes = s.nodes + 1; keys = (insert_key k s.keys).0 },
      (insert_key k s.keys).1,
    )

unfoldable pub on_event : Event → Sax → Sax × Bool
unfolding value start_collection end_collection on_key
on_event scalar s = value s
on_event binary s = (s, false)
on_event start_object s = start_collection object s
on_event end_object s = end_collection object s
on_event start_array s = start_collection array s
on_event end_array s = end_collection array s
on_event parse_error s = (s, false)
on_event (key k) s = on_key k s

abbrev pub new_sax : Sax
new_sax = record { nodes = 0; collections = []; counts = []; keys = [] }

-- The parser stops at the first event that is refused.
unfoldable pub on_events : List Event → Sax → Sax × Bool
unfolding on_event
on_events [] s = (s, true)
on_events (e ∷ es) s =
    let rest = on_events es (on_event e s).0 in
    if (on_event e s).1 then rest else ((on_event e s).0, false)

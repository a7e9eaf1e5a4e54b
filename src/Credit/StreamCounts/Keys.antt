-- ===== src/Credit/StreamCounts/Keys.antt =====
-- The key of a stream determines its subscription and its generation.
use wotex_matter.Base.{
  ℕ, ◌≡◌, Bytes, to_string-injective, to_string-HasNoColon, split_at_colon, to_string,
}
use wotex_matter.Credit.State.{Frame, key}

abbrev pub frame_key : Frame → Bytes
frame_key f = key f.subscription_id f.generation

-- Two streams with the same key have the same subscription and the same generation.
pub key-injective :
    (id id' : Bytes) (generation generation' : ℕ)
    → key id generation ≡ key id' generation'
    → (id ≡ id') × (generation ≡ generation')
unfolding key
key-injective id id' generation generation' e =
    let (front, back) =
      split_at_colon id id' (to_string generation) (to_string generation')
        (to_string-HasNoColon generation) (to_string-HasNoColon generation') e in
    (front, to_string-injective generation generation' back)

-- ===== src/Channels/Entities.antt =====
-- Which events a token's channel receives: backend/internal/ws/subscriptions.go.
use magic_webb.Base.{
  ◌≡◌, refl, true, false, ◌&&◌, none, some, [], ◌∷◌, ◌++◌, Bytes, bytes_eqb, arith, has_prefix,
}
use magic_webb.Channels.{
  channel_token, colon, EventPayload, trim_prefix, split_last, is_empty, colon_free, two_parts,
  is_valid_channel, channel_matches_prefix, equal_fold, channel_matches_token,
  channel_matches_payload, channel_matches_event,
}

split_last-colon_free : (s : Bytes) → colon_free s ≡ true → split_last s ≡ none
unfolding split_last colon_free
split_last-colon_free [] h = refl
split_last-colon_free (a ∷ s) h = ground (arith, split_last-colon_free s)

-- The split of LastIndex finds the separator.
split_last-joined : (l r : Bytes) → colon_free r ≡ true → split_last (l ++ colon ∷ r) ≡ some (l, r)
unfolding split_last
split_last-joined [] r h = rw (split_last-colon_free r h)
split_last-joined (a ∷ l) r h = rw (split_last-joined l r h)

abbrev pub token_channel : Bytes → Bytes → Bytes
token_channel a i = channel_token ++ a ++ colon ∷ i

two_parts-joined :
    (a i : Bytes)
    → is_empty a ≡ false
    → is_empty i ≡ false
    → colon_free a ≡ true
    → colon_free i ≡ true
    → two_parts (a ++ colon ∷ i) ≡ true
unfolding two_parts
two_parts-joined a i ha hi fa fi = rw (split_last-joined a i fi, ha, hi, fa, fi)

-- The channel of a token, whose collection and id have no colon and are not empty, is accepted
-- at subscription, and of the events with a payload it receives exactly those of that
-- collection, whatever its case, and that id.
pub token_channel-matches :
    (canon : Bytes → Bytes) (a i event_type : Bytes) (ev : EventPayload)
    → is_empty a ≡ false
    → is_empty i ≡ false
    → colon_free a ≡ true
    → colon_free i ≡ true
    → (is_valid_channel (token_channel a i) ≡ true)
      × (channel_matches_event canon (token_channel a i) event_type (some ev)
          ≡ equal_fold canon a ev.collection && bytes_eqb i ev.token_id)
unfolding is_valid_channel channel_matches_event channel_matches_prefix channel_matches_payload
    channel_matches_token trim_prefix has_prefix bytes_eqb
token_channel-matches canon a i event_type ev ha hi fa fi =
    (rw (two_parts-joined a i ha hi fa fi), rw (split_last-joined a i fi, ha, hi))

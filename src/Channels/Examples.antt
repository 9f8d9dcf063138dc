-- ===== src/Channels/Examples.antt =====
-- A token's channel.
use magic_webb.Base.{◌≡◌, refl, true, ◌&&◌, some, [], Bytes, bytes, bytes_eqb}
use magic_webb.Channels.{
  EventPayload, is_valid_channel, equal_fold, channel_matches_event, colon_free,
}
use magic_webb.Channels.Entities.{token_channel, token_channel-matches}

abbrev lower : Bytes → Bytes
lower s = s

abbrev listing : EventPayload
listing = record {
  collection = bytes "0xabc";
  token_id = bytes "42";
  address = [];
  seller = [];
  buyer = [];
  bidder = [];
  owner = [];
  from_addr = [];
  to_addr = [];
  user_addr = [];
  tx_hash = [];
}

token_channel-matches_example :
    (is_valid_channel (token_channel (bytes "0xabc") (bytes "42")) ≡ true)
    × (channel_matches_event lower
          (token_channel (bytes "0xabc") (bytes "42"))
          (bytes "listing-updated")
          (some listing)
        ≡ equal_fold lower (bytes "0xabc") listing.collection
          && bytes_eqb (bytes "42") listing.token_id)
unfolding colon_free
token_channel-matches_example =
    token_channel-matches lower (bytes "0xabc") (bytes "42") (bytes "listing-updated") listing refl
      refl colon_free_address colon_free_id
  where
    colon_free_address : colon_free (bytes "0xabc") ≡ true
    colon_free_address = refl

    colon_free_id : colon_free (bytes "42") ≡ true
    colon_free_id = refl

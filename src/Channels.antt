-- ===== src/Channels.antt =====
-- The WebSocket's subscription channels: backend/internal/ws/subscriptions.go. `canon` is the case
-- folding of strings.EqualFold, which compares two strings by their folded forms.
use magic_webb.Base.{
  ℕ, zero, suc, ◌+◌, Bool, true, false, not, ◌&&◌, ◌||◌, Option, none, some, List, [], ◌∷◌, Bytes,
  bytes, bytes_eqb, has_prefix, nat_eqb, ltb, leb, if◌then◌else◌, length, drop,
}
pub mod Entities
mod Examples

abbrev pub channel_token : Bytes
channel_token = bytes "token:"

abbrev pub channel_collection : Bytes
channel_collection = bytes "collection:"

abbrev pub channel_user : Bytes
channel_user = bytes "user:"

abbrev pub channel_tx : Bytes
channel_tx = bytes "tx:"

abbrev pub channel_activity : Bytes
channel_activity = bytes "activity"

abbrev pub colon : ℕ
colon = 58

pub record EventPayload : Type 0 where
  pub collection : Bytes
  pub token_id : Bytes
  pub address : Bytes
  pub seller : Bytes
  pub buyer : Bytes
  pub bidder : Bytes
  pub owner : Bytes
  pub from_addr : Bytes
  pub to_addr : Bytes
  pub user_addr : Bytes
  pub tx_hash : Bytes

-- strings.TrimPrefix
unfoldable pub trim_prefix : Bytes → Bytes → Bytes
unfolding has_prefix
trim_prefix s p = if has_prefix s p then drop (length p) s else s

-- strings.LastIndex of a colon: what is before the last one and what is after it.
unfoldable pub split_last : Bytes → Option (Bytes × Bytes)
split_last [] = none
split_last (a ∷ s) =
    let rest = split_last s in
    elim rest [
      | some (l, r) ↦ some (a ∷ l, r)
      | none ↦ if nat_eqb a colon then some ([], s) else none
    ]

abbrev pub is_empty : Bytes → Bool
is_empty [] = true
is_empty (a ∷ s) = false

-- The pattern `[^:]+`, and `[^:]+:[^:]+`.
unfoldable pub colon_free : Bytes → Bool
colon_free [] = true
colon_free (a ∷ s) = not (nat_eqb a colon) && colon_free s

abbrev pub parts_valid : Option (Bytes × Bytes) → Bool
parts_valid none = false
parts_valid (some (l, r)) = not (is_empty l || is_empty r) && (colon_free l && colon_free r)

unfoldable pub two_parts : Bytes → Bool
unfolding split_last colon_free
two_parts s = parts_valid (split_last s)

-- The pattern `.+`: a dot is no newline.
unfoldable pub one_line : Bytes → Bool
one_line [] = true
one_line (a ∷ s) = not (nat_eqb a 10) && one_line s

unfoldable pub is_hex_digit : ℕ → Bool
is_hex_digit b = (leb 48 b && leb b 57) || ((leb 65 b && leb b 70) || (leb 97 b && leb b 102))

unfoldable pub hex_digits : ℕ → Bytes → Bool
hex_digits zero [] = true
hex_digits zero (b ∷ s) = false
hex_digits (suc n) [] = false
hex_digits (suc n) (b ∷ s) = is_hex_digit b && hex_digits n s

-- channelRE and isValidChannel, one alternative at a time.
unfoldable pub is_valid_channel : Bytes → Bool
unfolding has_prefix two_parts one_line hex_digits colon_free
is_valid_channel ch =
    (has_prefix ch channel_token && two_parts (drop 6 ch))
    || ((has_prefix ch channel_collection
          && (not (is_empty (drop 11 ch)) && colon_free (drop 11 ch)))
        || ((has_prefix ch channel_user && (not (is_empty (drop 5 ch)) && one_line (drop 5 ch)))
            || ((has_prefix ch (bytes "tx:0x") && hex_digits 64 (drop 5 ch))
                || bytes_eqb ch channel_activity)))

unfoldable pub channel_matches_prefix : Bytes → Bytes → Bool
unfolding has_prefix
channel_matches_prefix channel event_type =
    if bytes_eqb channel channel_activity
    then true
    else if has_prefix channel channel_tx
    then bytes_eqb event_type (bytes "tx-indexed")
    else if has_prefix channel channel_token || has_prefix channel channel_collection
    then true
    else if has_prefix channel channel_user
    then bytes_eqb event_type (bytes "notification")
    else false

module _ (canon : Bytes → Bytes) where
  -- strings.EqualFold
  unfoldable pub equal_fold : Bytes → Bytes → Bool
  unfolding bytes_eqb
  equal_fold s t = bytes_eqb (canon s) (canon t)

  abbrev pub parts_match : EventPayload → Option (Bytes × Bytes) → Bool
  parts_match ev none = false
  parts_match ev (some (l, r)) =
      if is_empty l || is_empty r
      then false
      else equal_fold l ev.collection && bytes_eqb r ev.token_id

  unfoldable pub channel_matches_token : Bytes → EventPayload → Bool
  unfolding trim_prefix split_last equal_fold
  channel_matches_token channel ev = parts_match ev (split_last (trim_prefix channel channel_token))

  unfoldable pub channel_matches_collection : Bytes → EventPayload → Bool
  unfolding trim_prefix equal_fold
  channel_matches_collection channel ev =
      equal_fold (trim_prefix channel channel_collection) ev.collection

  -- The loop of channelMatchesUser over the address fields.
  unfoldable pub matches_any : Bytes → List Bytes → Bool
  unfolding equal_fold
  matches_any chan_addr [] = false
  matches_any chan_addr (a ∷ fields) =
      if not (is_empty a) && equal_fold chan_addr a then true else matches_any chan_addr fields

  unfoldable pub channel_matches_user : Bytes → EventPayload → Bool
  unfolding trim_prefix matches_any
  channel_matches_user channel ev = matches_any (trim_prefix channel channel_user) (
      ev.user_addr ∷ ev.address ∷ ev.seller ∷ ev.buyer ∷ ev.bidder ∷ ev.owner ∷ ev.from_addr
      ∷ ev.to_addr ∷ [])

  unfoldable pub channel_matches_payload : Bytes → EventPayload → Bool
  unfolding channel_matches_token channel_matches_collection channel_matches_user
  channel_matches_payload channel ev =
      if bytes_eqb channel channel_activity
      then true
      else if has_prefix channel channel_tx
      then equal_fold (trim_prefix channel channel_tx) ev.tx_hash
      else if has_prefix channel channel_token
      then channel_matches_token channel ev
      else if has_prefix channel channel_collection
      then channel_matches_collection channel ev
      else if has_prefix channel channel_user
      then channel_matches_user channel ev
      else false

  -- A nil payload leaves the coarse match.
  unfoldable pub channel_matches_event : Bytes → Bytes → Option EventPayload → Bool
  unfolding channel_matches_prefix channel_matches_payload
  channel_matches_event channel event_type none = channel_matches_prefix channel event_type
  channel_matches_event channel event_type (some ev) =
      if channel_matches_prefix channel event_type
      then channel_matches_payload channel ev
      else false

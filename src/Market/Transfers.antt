-- ===== src/Market/Transfers.antt =====
-- The handlers of the NFT transfers in backend/internal/indexer/handlers.go.
use magic_webb.Base.{
  ℕ, zero, suc, ◌+◌, ◌-◌, ◌/◌, Bool, false, not, ◌&&◌, ◌||◌, Option, none, some, Bytes, bytes_eqb,
  nat_eqb, ltb, if◌then◌else◌, length, ℤ, pos, negsuc, pos_part, int_eq, int_eqb,
}
use magic_webb.Watcher.{Outcome, applied, malformed, retriable}
use magic_webb.Market.Abi.{topic, is_short, chunk, big_int, int64, addr_str, zero_addr, Event}
use magic_webb.Market.Tables.{ListingUpdate, listing_event, Published}
use magic_webb.Market.Ownership.{apply_transfer_721, apply_transfer_1155, set_token_minter}
use magic_webb.Market.Handling.{Store, Call, write, mint, Handler, publish}

abbrev pub is_mint : Bytes → Bytes → Bool
is_mint from to = bytes_eqb from zero_addr && not (bytes_eqb to zero_addr)

-- recordMint, for the i-th token of a log.
abbrev pub record_mint : Bool → Bytes → ℕ → Bytes → Bytes → Store → Store × Outcome
record_mint failed coll id from to s =
    if not (is_mint from to)
    then (s, applied)
    else if failed
    then (s, retriable)
    else (record s { db = set_token_minter coll id to s.db }, applied)

-- A step whose error ends the handler, and the steps after it.
abbrev pub and_then : Store × Outcome → (Store → Store × Outcome) → Store × Outcome
and_then (s, applied) next = next s
and_then (s, malformed) next = (s, malformed)
and_then (s, retriable) next = (s, retriable)

abbrev pub moved : Bytes → ℕ → Bytes → ListingUpdate
moved coll id to = record (listing_event Event.transfer_721 coll (some id)) { to_addr = to }

unfoldable pub on_transfer_721 : Handler
unfolding apply_transfer_721 set_token_minter publish
on_transfer_721 fails l s =
    if ltb (length l.topics) 4
    then (s, applied)
    else let coll = addr_str l.address in
      let from = addr_str (topic l 1) in
      let to = addr_str (topic l 2) in
      let id = big_int (topic l 3) in
      if fails (write 0)
      then (s, retriable)
      else and_then
          (record_mint (fails (mint 0)) coll id from to
            (record s { db = apply_transfer_721 coll id to s.db }))
          (λ s'. (publish (Published.listing_updated (moved coll id to)) s', applied))

-- One token of an ERC-1155 transfer: the i-th write of the log, and the mint.
unfoldable pub transfer_item :
    (Call → Bool) → ℕ → Bytes → ℕ → Bytes → Bytes → ℕ → Store → Store × Outcome
unfolding apply_transfer_1155 set_token_minter
transfer_item fails i coll id from to value s =
    if fails (write i)
    then (s, retriable)
    else record_mint (fails (mint i)) coll id from to
        (record s { db = apply_transfer_1155 coll id from to value s.db })

abbrev pub sent : Event → Bytes → Option ℕ → Bytes → Bytes → ListingUpdate
sent e coll id from to = record (listing_event e coll id) { from_addr = from; to_addr = to }

unfoldable pub on_transfer_single : Handler
unfolding transfer_item publish
on_transfer_single fails l s =
    if is_short l 4 2
    then (s, malformed)
    else let coll = addr_str l.address in
      let from = addr_str (topic l 2) in
      let to = addr_str (topic l 3) in
      let id = big_int (chunk l.payload 0) in
      and_then (transfer_item fails 0 coll id from to (big_int (chunk l.payload 1)) s) (λ s'. (
        publish (Published.listing_updated (sent Event.transfer_single coll (some id) from to)) s',
        applied,
      ))

abbrev pub max_batch_length : ℕ
max_batch_length = 1024

-- Division of an int64 by 32, towards zero.
abbrev pub over_32 : ℤ → ℤ
over_32 (pos n) = pos (n / 32)
over_32 (negsuc n) = if ltb (n + 1) 32 then pos 0 else negsuc ((n + 1) / 32 - 1)

-- Whether an offset, in words, is that of a word after the first, inside the data.
abbrev pub is_offset : ℤ → ℕ → Bool
is_offset (pos n) words = not (nat_eqb n 0) && ltb n words
is_offset (negsuc n) words = false

-- Where the two arrays of a TransferBatch are: the words of their lengths, and their length.
pub data Layout : Type 0 where
  bad : Layout
  nothing : Layout
  arrays : ℕ → ℕ → ℕ → Layout

-- The tests of the two lengths.
abbrev pub layout_of : ℕ → ℕ → ℕ → ℤ → ℤ → Layout
layout_of words ids vals (negsuc n) vals_len = bad
layout_of words ids vals (pos n) vals_len =
    if nat_eqb n 0 && int_eqb vals_len (pos 0)
    then nothing
    else if ltb max_batch_length n || ltb words n
    then bad
    else if not (int_eqb vals_len (pos n))
    then bad
    else if ltb words (ids + 1 + n) || ltb words (vals + 1 + n)
    then bad
    else arrays ids vals n

abbrev pub length_at : Bytes → ℕ → ℤ
length_at payload word = int64 (big_int (chunk payload word))

abbrev pub offset_at : Bytes → ℕ → ℤ
offset_at payload word = over_32 (length_at payload word)

unfoldable pub batch_layout : Bytes → Layout
batch_layout payload =
    let words = length payload / 32 in
    let ids = offset_at payload 0 in
    let vals = offset_at payload 1 in
    if not (is_offset ids words) || not (is_offset vals words)
    then bad
    else layout_of words (pos_part ids) (pos_part vals) (length_at payload (pos_part ids))
        (length_at payload (pos_part vals))

-- The loop over the `n` items left, from the i-th.
unfoldable pub transfer_items :
    (Call → Bool) → Bytes → Bytes → Bytes → Bytes → ℕ → ℕ → ℕ → ℕ → Store → Store × Outcome
unfolding transfer_item
transfer_items fails payload coll from to ids vals zero i s = (s, applied)
transfer_items fails payload coll from to ids vals (suc n) i s =
    and_then
      (transfer_item fails i coll (big_int (chunk payload (ids + 1 + i))) from to
        (big_int (chunk payload (vals + 1 + i))) s)
      (λ s'. transfer_items fails payload coll from to ids vals n (i + 1) s')

abbrev pub transfer_layout :
    (Call → Bool) → Bytes → Bytes → Bytes → Bytes → Layout → Store → Store × Outcome
transfer_layout fails payload coll from to bad s = (s, malformed)
transfer_layout fails payload coll from to nothing s = (s, applied)
transfer_layout fails payload coll from to (arrays ids vals n) s =
    and_then (transfer_items fails payload coll from to ids vals n 0 s) (λ s'. (
      publish (Published.listing_updated (sent Event.transfer_batch coll none from to)) s',
      applied,
    ))

unfoldable pub on_transfer_batch : Handler
unfolding batch_layout transfer_items publish
on_transfer_batch fails l s =
    if is_short l 4 2
    then (s, malformed)
    else transfer_layout fails l.payload (addr_str l.address) (addr_str (topic l 2))
        (addr_str (topic l 3)) (batch_layout l.payload) s

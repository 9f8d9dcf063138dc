-- ===== src/Market/Batch.antt =====
-- The arrays of a TransferBatch: what onTransferBatch of backend/internal/indexer/handlers.go reads
-- of any data, and of the ABI's encoding of two arrays.
use magic_webb.Base.{
  ℕ, suc, ◌+◌, ◌*◌, ◌/◌, ◌^◌, ◌≤◌, ◌<◌, ◌≡◌, refl, sym, ap, ◌∙◌, Bool, false, not, ◌||◌, none, List,
  [], ◌∷◌, ◌++◌, map, arith, Bytes, length, drop, Bool-cases, inl, inr, ℤ, pos, negsuc,
  length-append, All, fun_ext, append-nil,
}
use magic_webb.Watcher.{Outcome, applied}
use magic_webb.Market.Abi.{int64, Log, Event, topic, addr_str, is_short}
use magic_webb.Market.Words.{
  encode_words, IsWord, chunk-encode_words, length-encode_words, drop_next,
}
use magic_webb.Market.Tables.{Published}
use magic_webb.Market.Handling.{Store, Call, publish}
use magic_webb.Market.Transfers.{
  Layout, bad, nothing, arrays, is_offset, layout_of, length_at, offset_at, over_32, batch_layout,
  transfer_item, transfer_items, and_then, on_transfer_batch, sent,
}

-- The arrays are not empty, hold 1024 words at most, and lie in the data with their lengths.
abbrev pub WithinData : ℕ → Layout → Type 0
WithinData size bad = Unit
WithinData size nothing = Unit
WithinData size (arrays ids vals n) =
    (n ≤ 1024) × ((ids + 1 + n) * 32 ≤ size) × ((vals + 1 + n) * 32 ≤ size)

layout_of-WithinData :
    (size ids vals : ℕ) (n v : ℤ) → WithinData size (layout_of (size / 32) ids vals n v)
layout_of-WithinData size ids vals (negsuc n) v = tt
layout_of-WithinData size ids vals (pos n) v = ground arith

-- Whatever the data of a TransferBatch are, the arrays that the handler goes through have at most
-- 1024 elements, and all of them lie in the data.
pub batch_layout-WithinData : (payload : Bytes) → WithinData (length payload) (batch_layout payload)
unfolding batch_layout
batch_layout-WithinData payload =
    elim (Bool-cases (
      not (is_offset (offset_at payload 0) (length payload / 32))
      || not (is_offset (offset_at payload 1) (length payload / 32)))) [
        | inl e ↦ rw e tt
        | inr e ↦
            rw e (
              layout_of-WithinData (length payload) _ _ (length_at payload _) (length_at payload _))
      ]

int64_small : (n : ℕ) → n < 2 ^ 63 → int64 n ≡ pos n
unfolding int64
int64_small n h = ground arith

-- The ABI's encoding of the arrays of ids and of values: the places of the two, in bytes, and each
-- array behind its length.
abbrev pub batch_words : List (ℕ × ℕ) → List ℕ
batch_words items =
    64
    ∷ ((3 + length items) * 32)
    ∷ length items
    ∷ (map (λ p. p.0) items ++ length items ∷ map (λ p. p.1) items)

-- One transfer for each pair of an id and a value, until one fails.
pub transfer_each :
    (Call → Bool) → Bytes → Bytes → Bytes → List (ℕ × ℕ) → ℕ → Store → Store × Outcome
transfer_each fails coll from to [] i s = (s, applied)
transfer_each fails coll from to ((id, value) ∷ items) i s =
    and_then (transfer_item fails i coll id from to value s)
      (λ s'. transfer_each fails coll from to items (i + 1) s')

drop_later :
    (j k : ℕ) (ws : List ℕ) (w : ℕ) (t : List ℕ) → k ≡ suc j → drop j ws ≡ w ∷ t → drop k ws ≡ t
drop_later j k ws w t e h = ap (λ i. drop i ws) e ∙ drop_next j ws w t h

transfer_items-eq-each :
    (fails : Call → Bool) (coll from to : Bytes) (ws : List ℕ) (ids vals : ℕ) (items : List (ℕ × ℕ))
    (i : ℕ) (t u : List ℕ) (s : Store)
    → All IsWord ws
    → drop (ids + 1 + i) ws ≡ map (λ p. p.0) items ++ t
    → drop (vals + 1 + i) ws ≡ map (λ p. p.1) items ++ u
    → transfer_items fails (encode_words ws) coll from to ids vals (length items) i s
      ≡ transfer_each fails coll from to items i s
unfolding transfer_items transfer_each
transfer_items-eq-each fails coll from to ws ids vals [] i t u s a h k = refl
transfer_items-eq-each fails coll from to ws ids vals ((id, value) ∷ items) i t u s a h k =
    rw
      (
        chunk-encode_words (ids + 1 + i) ws id (map (λ p. p.0) items ++ t) a h,
        chunk-encode_words (vals + 1 + i) ws value (map (λ p. p.1) items ++ u) a k,
      )
      (ap (and_then (transfer_item fails i coll id from to value s)) (
        fun_ext λ s'.
          transfer_items-eq-each fails coll from to ws ids vals items (i + 1) t u s' a
            (drop_later (ids + 1 + i) _ ws id _ (omega arith) h)
            (drop_later (vals + 1 + i) _ ws value _ (omega arith) k)))

drop_ids :
    (items : List (ℕ × ℕ)) (ys : List ℕ) → drop (length items) (map (λ p. p.0) items ++ ys) ≡ ys
drop_ids [] ys = refl
drop_ids (x ∷ items) ys = drop_ids items ys

length-map : (f : ℕ × ℕ → ℕ) (items : List (ℕ × ℕ)) → length (map f items) ≡ length items
length-map f [] = refl
length-map f (x ∷ items) = ap suc (length-map f items)

length-batch_words :
    (items : List (ℕ × ℕ)) → length (batch_words items) ≡ 4 + length items + length items
length-batch_words items = omega (
  arith,
  length-append (map (λ p. p.0) items) (length items ∷ map (λ p. p.1) items),
  length-map (λ p. p.0) items,
  length-map (λ p. p.1) items,
)

drop-batch_words :
    (items : List (ℕ × ℕ))
    → drop (3 + length items) (batch_words items) ≡ length items ∷ map (λ p. p.1) items
drop-batch_words items =
    let e : 3 + length items ≡ suc (suc (suc (length items))) = omega arith in
    ap (λ k. drop k (batch_words items)) e ∙ drop_ids items (length items ∷ map (λ p. p.1) items)

-- What the four words of the layout read, for a batch of at most 1024 items.
layout_of_words :
    (items : List (ℕ × ℕ))
    → 0 < length items
    → length items ≤ 1024
    → All IsWord (batch_words items)
    → batch_layout (encode_words (batch_words items)) ≡ arrays 2 (3 + length items) (length items)
unfolding batch_layout
layout_of_words items pos_len h a =
    let n = length items in
    let p = encode_words (batch_words items) in
    let rest = map (λ q. q.0) items ++ n ∷ map (λ q. q.1) items in
    let ids : offset_at p 0 ≡ pos 2 =
      ap (λ x. over_32 (int64 x)) (chunk-encode_words 0 (batch_words items) 64 _ a refl)
      ∙ ap over_32 (int64_small 64 (omega arith)) in
    let vals : offset_at p 1 ≡ pos (3 + n) =
      ap (λ x. over_32 (int64 x)) (chunk-encode_words 1 (batch_words items) ((3 + n) * 32) _ a refl)
      ∙ ap over_32 (int64_small ((3 + n) * 32) (omega arith))
      ∙ ap pos (omega arith) in
    let ids_len : length_at p 2 ≡ pos n =
      ap int64 (chunk-encode_words 2 (batch_words items) n rest a refl)
      ∙ int64_small n (omega arith) in
    let vals_len : length_at p (3 + n) ≡ pos n =
      ap int64 (
        chunk-encode_words (3 + n) (batch_words items) n (map (λ q. q.1) items) a
          (drop-batch_words items))
      ∙ int64_small n (omega arith) in
    let size : length p / 32 ≡ 4 + n + n =
      omega (arith, length-encode_words (batch_words items), length-batch_words items) in
    rw (size, ids, vals, ids_len, vals_len) (ground arith)

-- Decoding the ABI's encoding of a batch: where a TransferBatch log of four topics carries the
-- encoding of 1 to 1024 pairs of an id and a value, all uint256, the handler makes just one transfer for
-- each pair, in their order, each with its own number for the calls that may fail, and publishes
-- the batch's event after the last; it stops at the first that fails.
pub on_transfer_batch-encode :
    (fails : Call → Bool) (l : Log) (items : List (ℕ × ℕ)) (s : Store)
    → 4 ≤ length l.topics
    → 0 < length items
    → length items ≤ 1024
    → All IsWord (batch_words items)
    → l.payload ≡ encode_words (batch_words items)
    → on_transfer_batch fails l s
      ≡ and_then
          (transfer_each fails
            (addr_str l.address)
            (addr_str (topic l 2))
            (addr_str (topic l 3))
            items
            0
            s)
          (λ s'. (
            publish
                (Published.listing_updated (
                  sent Event.transfer_batch
                    (addr_str l.address)
                    none
                    (addr_str (topic l 2))
                    (addr_str (topic l 3))))
                s',
            applied,
          ))
unfolding on_transfer_batch
on_transfer_batch-encode fails l items s topics some_items few bound e =
    let coll = addr_str l.address in
    let from = addr_str (topic l 2) in
    let to = addr_str (topic l 3) in
    let size : length l.payload ≡ (4 + length items + length items) * 32 =
      ap length e
      ∙ length-encode_words (batch_words items)
      ∙ ap (λ k. k * 32) (length-batch_words items) in
    let short : is_short l 4 2 ≡ false = ground (arith, size) in
    let layout : batch_layout l.payload ≡ arrays 2 (3 + length items) (length items) =
      ap batch_layout e ∙ layout_of_words items some_items few bound in
    let ids : drop 3 (batch_words items)
        ≡ map (λ p. p.0) items ++ length items ∷ map (λ p. p.1) items =
      refl in
    let vals : drop (3 + length items + 1 + 0) (batch_words items) ≡ map (λ p. p.1) items ++ [] =
      drop_later (3 + length items) _ (batch_words items) (length items) _ (omega arith)
        (drop-batch_words items)
      ∙ sym (append-nil (map (λ p. p.1) items)) in
    let each : transfer_items fails l.payload coll from to 2 (3 + length items) (length items) 0 s
        ≡ transfer_each fails coll from to items 0 s =
      ap (λ b. transfer_items fails b coll from to 2 (3 + length items) (length items) 0 s) e
      ∙ transfer_items-eq-each fails coll from to (batch_words items) 2 (3 + length items) items 0 _
          [] s bound ids vals in
    rw (short, layout, each)

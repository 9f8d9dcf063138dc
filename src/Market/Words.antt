-- ===== src/Market/Words.antt =====
-- The ABI's encoding of words, and what the chunks of backend/internal/indexer/handlers.go read of it.
use magic_webb.Base.{
  ℕ, zero, suc, ◌+◌, ◌*◌, ◌/◌, ◌%◌, ◌^◌, ◌<◌, ◌≡◌, refl, sym, ap, ◌∙◌, subst, false, List, [], ◌∷◌,
  ◌++◌, arith, Bytes, length, drop, ltb, length-append, All,
}
use magic_webb.Market.Abi.{chunk, big_int, set_bytes, take}

-- The `n` bytes of a number, the highest first.
unfoldable pub be : ℕ → ℕ → Bytes
be zero x = []
be (suc n) x = be n (x / 256) ++ (x % 256) ∷ []

abbrev pub encode_words : List ℕ → Bytes
encode_words [] = []
encode_words (x ∷ xs) = be 32 x ++ encode_words xs

abbrev power_256 : ℕ → ℕ
power_256 zero = 1
power_256 (suc n) = 256 * power_256 n

length-be : (n x : ℕ) → length (be n x) ≡ n
unfolding be
length-be zero x = refl
length-be (suc n) x =
    omega (arith, length-append (be n (x / 256)) ((x % 256) ∷ []), length-be n (x / 256))

set_bytes-append :
    (acc : ℕ) (xs : Bytes) (b : ℕ) → set_bytes acc (xs ++ b ∷ []) ≡ set_bytes acc xs * 256 + b
set_bytes-append acc [] b = refl
set_bytes-append acc (x ∷ xs) b = set_bytes-append (acc * 256 + x) xs b

set_bytes-be : (n x : ℕ) → x < power_256 n → set_bytes 0 (be n x) ≡ x
unfolding be
set_bytes-be zero x h = omega arith
set_bytes-be (suc n) x h =
    omega
      (arith, set_bytes-append 0 (be n (x / 256)) (x % 256), set_bytes-be n (x / 256) (omega arith))

pub length-encode_words : (ws : List ℕ) → length (encode_words ws) ≡ length ws * 32
length-encode_words [] = refl
length-encode_words (w ∷ ws) =
    omega (arith, length-append (be 32 w) (encode_words ws), length-be 32 w, length-encode_words ws)

module _ {A : Type 0} where
  take-append : (xs ys : List A) → take (length xs) (xs ++ ys) ≡ xs
  take-append [] ys = refl
  take-append (x ∷ xs) ys = ap (x ∷◌) (take-append xs ys)

  drop-append : (xs ys : List A) (m : ℕ) → drop (length xs + m) (xs ++ ys) ≡ drop m ys
  drop-append [] ys m = ap (λ k. drop k ys) (omega arith)
  drop-append (x ∷ xs) ys m =
      let e : suc (length xs) + m ≡ suc (length xs + m) = omega arith in
      ap (λ k. drop k (x ∷ (xs ++ ys))) e ∙ drop-append xs ys m

  pub drop_next :
      (j : ℕ) (xs : List A) (x : A) (t : List A) → drop j xs ≡ x ∷ t → drop (suc j) xs ≡ t
  drop_next zero [] x t h = absurd (cc)
  drop_next zero (y ∷ xs) x t h = cc
  drop_next (suc j) [] x t h = absurd (cc)
  drop_next (suc j) (y ∷ xs) x t h = drop_next j xs x t h

  pub drop-append_all : (xs ys : List A) → drop (length xs) (xs ++ ys) ≡ ys
  drop-append_all [] ys = refl
  drop-append_all (x ∷ xs) ys = drop-append_all xs ys

  take_block : (n : ℕ) (xs ys : List A) → length xs ≡ n → take n (xs ++ ys) ≡ xs
  take_block n xs ys h = subst (λ k. take k (xs ++ ys) ≡ xs) h (take-append xs ys)

  drop_block :
      (n m k : ℕ) (xs ys : List A) → length xs ≡ n → k ≡ n + m → drop k (xs ++ ys) ≡ drop m ys
  drop_block n m k xs ys h e =
      ap (λ i. drop i (xs ++ ys)) (e ∙ ap (λ i. i + m) (sym h)) ∙ drop-append xs ys m

chunk_here : (b rest : Bytes) → length b ≡ 32 → chunk (b ++ rest) 0 ≡ b
unfolding chunk
chunk_here b rest h =
    let long : ltb (length (b ++ rest)) 32 ≡ false = ground (arith, length-append b rest, h) in
    rw long (take_block 32 b rest h)

chunk_later : (b rest : Bytes) (j : ℕ) → length b ≡ 32 → chunk (b ++ rest) (suc j) ≡ chunk rest j
unfolding chunk
chunk_later b rest j h =
    let test : ltb (length (b ++ rest)) ((suc j + 1) * 32) ≡ ltb (length rest) ((j + 1) * 32) =
      ground (arith, length-append b rest, h) in
    rw (test, drop_block 32 (j * 32) (suc j * 32) b rest h (omega arith))

abbrev pub IsWord : ℕ → Type 0
IsWord x = x < 2 ^ 256

-- A chunk of encoded words is the word there.
pub chunk-encode_words :
    (j : ℕ) (ws : List ℕ) (w : ℕ) (t : List ℕ)
    → All IsWord ws
    → drop j ws ≡ w ∷ t
    → big_int (chunk (encode_words ws) j) ≡ w
unfolding big_int
chunk-encode_words zero [] w t a h = absurd (cc)
chunk-encode_words (suc j) [] w t a h = absurd (cc)
chunk-encode_words zero (v ∷ ws) w t (a, bound) h =
    ap big_int (chunk_here (be 32 v) (encode_words ws) (length-be 32 v)) ∙ set_bytes-be 32 v a ∙ cc
chunk-encode_words (suc j) (v ∷ ws) w t (a, bound) h =
    ap big_int (chunk_later (be 32 v) (encode_words ws) j (length-be 32 v))
    ∙ chunk-encode_words j ws w t bound h

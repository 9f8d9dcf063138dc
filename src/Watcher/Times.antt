-- ===== src/Watcher/Times.antt =====
-- The times of blocks that processTransfers, of backend/internal/indexer/runner.go, looks up.
use magic_webb.Base.{
  ℕ, ◌≡◌, refl, sym, ap, ◌∙◌, Bool, Option, none, some, List, [], ◌∷◌, map, nat_eq, ◌==◌, Bytes,
  bytes_eq, GoMap, lookup, insert, lookup-insert, keep, All, Bool-cases, Option-cases, inl, inr,
  eqb_refl,
}
use magic_webb.Watcher.Transfers.{time_at, resolve_times}
use magic_webb.Watcher.Buckets.{stamped}

abbrev pub or_zero : Option ℕ → ℕ
or_zero none = 0
or_zero (some t) = t

abbrev pub or_else : Option ℕ → Option ℕ → ℕ
or_else none o = or_zero o
or_else (some t) o = t

-- The time of a block: the one that is known before the scan, or else its header's.
abbrev pub block_time : (ℕ → Option ℕ) → GoMap ℕ ℕ → ℕ → ℕ
block_time header_time block_times b = or_else (lookup b block_times) (header_time b)

-- Writing down the header's time of a block changes the time of no block.
block_time-insert :
    (header_time : ℕ → Option ℕ) (block_times : GoMap ℕ ℕ) (b t x : ℕ)
    → lookup b block_times ≡ none
    → header_time b ≡ some t
    → block_time header_time (insert b t block_times) x ≡ block_time header_time block_times x
block_time-insert header_time block_times b t x e h = elim (Bool-cases (b == x)) [
  | inr f ↦ rw (lookup-insert b x t block_times, f) refl
  | inl s ↦
      let same : b ≡ x = (nat_eq.equals_iff b x).0 s in
      rw (lookup-insert b x t block_times, s)
        (sym (ap (λ y. block_time header_time block_times y) (sym same) ∙ rw (e, h) refl))
]

module _ {Log : Type 0} (address : Log → Bytes) (block_number : Log → ℕ) where
  -- Each log, with the time of its block.
  abbrev pub dated : (ℕ → Option ℕ) → GoMap ℕ ℕ → List Log → List (Log × ℕ)
  dated header_time block_times logs =
      map (λ l. (l, block_time header_time block_times (block_number l))) logs

  -- The entry of a log's block is the block's time.
  abbrev pub IsDated : (ℕ → Option ℕ) → GoMap ℕ ℕ → GoMap ℕ ℕ → Log → Type 0
  IsDated header_time block_times times l =
      lookup (block_number l) times ≡ some (block_time header_time block_times (block_number l))

  resolve_times-found :
      (header_time : ℕ → Option ℕ) (l : Log) (logs : List Log) (block_times : GoMap ℕ ℕ) (t : ℕ)
      → lookup (block_number l) block_times ≡ some t
      → resolve_times address block_number header_time (l ∷ logs) block_times
        ≡ resolve_times address block_number header_time logs block_times
  unfolding resolve_times
  resolve_times-found header_time l logs block_times t e = rw (resolve_times, e) refl

  resolve_times-read :
      (header_time : ℕ → Option ℕ) (l : Log) (logs : List Log) (block_times : GoMap ℕ ℕ) (t : ℕ)
      → lookup (block_number l) block_times ≡ none
      → header_time (block_number l) ≡ some t
      → resolve_times address block_number header_time (l ∷ logs) block_times
        ≡ resolve_times address block_number header_time logs
            (insert (block_number l) t block_times)
  unfolding resolve_times
  resolve_times-read header_time l logs block_times t e h = rw (resolve_times, e, h) refl

  resolve_times-unread :
      (header_time : ℕ → Option ℕ) (l : Log) (logs : List Log) (block_times : GoMap ℕ ℕ)
      → lookup (block_number l) block_times ≡ none
      → header_time (block_number l) ≡ none
      → resolve_times address block_number header_time (l ∷ logs) block_times ≡ none
  unfolding resolve_times
  resolve_times-unread header_time l logs block_times e h = rw (resolve_times, e, h) refl

  -- An entry stays as it is.
  resolve_times-keeps :
      (header_time : ℕ → Option ℕ) (logs : List Log) (block_times times : GoMap ℕ ℕ) (b t : ℕ)
      → resolve_times address block_number header_time logs block_times ≡ some times
      → lookup b block_times ≡ some t
      → lookup b times ≡ some t
  unfolding resolve_times
  resolve_times-keeps header_time [] block_times times b t h e =
      ap (λ o. lookup b (or_empty o)) (sym h) ∙ e
    where
      or_empty : Option (GoMap ℕ ℕ) → GoMap ℕ ℕ
      or_empty none = []
      or_empty (some m) = m
  resolve_times-keeps header_time (l ∷ logs) block_times times b t h e =
      let n = block_number l in
      elim (Option-cases (lookup n block_times)) [
        | inr (u, known) ↦
            resolve_times-keeps header_time logs block_times times b t
              (sym (resolve_times-found header_time l logs block_times u known) ∙ h) e
        | inl new ↦ elim (Option-cases (header_time n)) [
          | inl bad ↦ absurd (cc (resolve_times-unread header_time l logs block_times new bad, h))
          | inr (u, read) ↦
              resolve_times-keeps header_time logs (insert n u block_times) times b t
                (sym (resolve_times-read header_time l logs block_times u new read) ∙ h)
                (lookup-insert n b u block_times ∙ elim (Bool-cases (n == b)) [
                  | inr f ↦ rw f e
                  | inl s ↦
                      absurd
                        (cc (ap (λ y. lookup y block_times) ((nat_eq.equals_iff n b).0 s), new, e))
                ])
        ]
      ]

  -- All logs are dated.
  pub resolve_times-IsDated :
      (header_time : ℕ → Option ℕ) (logs : List Log) (block_times times : GoMap ℕ ℕ)
      → resolve_times address block_number header_time logs block_times ≡ some times
      → All (IsDated header_time block_times times) logs
  resolve_times-IsDated header_time [] block_times times h = tt
  resolve_times-IsDated header_time (l ∷ logs) block_times times h =
      let n = block_number l in
      elim (Option-cases (lookup n block_times)) [
        | inr (u, known) ↦
            let rest = sym (resolve_times-found header_time l logs block_times u known) ∙ h in
            (
              resolve_times-keeps header_time logs block_times times n u rest known ∙ rw known refl,
              resolve_times-IsDated header_time logs block_times times rest,
            )
        | inl new ↦ elim (Option-cases (header_time n)) [
          | inl bad ↦ absurd (cc (resolve_times-unread header_time l logs block_times new bad, h))
          | inr (u, read) ↦
              let rest = sym (resolve_times-read header_time l logs block_times u new read) ∙ h in
              (
                resolve_times-keeps header_time logs (insert n u block_times) times n u rest
                      (lookup-insert n n u block_times ∙ rw (eqb_refl n) refl)
                    ∙ rw (new, read) refl,
                before header_time block_times times n u new read logs
                    (resolve_times-IsDated header_time logs (insert n u block_times) times rest),
              )
        ]
      ]
    where
      before :
          (header_time : ℕ → Option ℕ) (block_times times : GoMap ℕ ℕ) (n u : ℕ)
          → lookup n block_times ≡ none
          → header_time n ≡ some u
          → (ls : List Log) → All (IsDated header_time (insert n u block_times) times) ls
          → All (IsDated header_time block_times times) ls
      before header_time block_times times n u new read [] k = tt
      before header_time block_times times n u new read (l ∷ ls) (k, ks) = (
        k ∙ ap some (block_time-insert header_time block_times n u (block_number l) new read),
        before header_time block_times times n u new read ls ks,
      )

  -- Stamping dated logs, or those of them that a test keeps, with the entries dates them.
  pub stamped-dated :
      (header_time : ℕ → Option ℕ) (block_times times : GoMap ℕ ℕ) (p : Log → Bool)
      (logs : List Log)
      → All (IsDated header_time block_times times) logs
      → stamped address block_number times (keep p logs)
        ≡ dated header_time block_times (keep p logs)
  stamped-dated header_time block_times times p [] k = refl
  stamped-dated header_time block_times times p (l ∷ logs) (k, ks) =
      let rest = stamped-dated header_time block_times times p logs ks in
      elim (Bool-cases (p l)) [
        | inr f ↦ rw f rest
        | inl t ↦
            let at = block_time header_time block_times (block_number l) in
            let here : time_at address block_number times l ≡ at = rw (time_at, k) refl in
            rw t (
              ap (λ u. (l, u) ∷ stamped address block_number times (keep p logs)) here
              ∙ ap (λ ls. (l, at) ∷ ls) rest)
      ]

-- ===== src/Cache/Eviction.antt =====
-- Histories of the calls on the cache of backend/internal/cache/cache.go, one after another, and
-- the answers of a map that keeps every entry.
use magic_webb.Base.{
  ℕ, ◌+◌, ◌≤◌, ◌≡◌, refl, ap, ◌∙◌, Option, none, some, List, [], ◌∷◌, arith, Bytes, bytes_eq,
  bytes_eqb_iff, GoMap, leb, if◌then◌else◌, lookup, insert, lookup-insert, lookup-delete,
}
use magic_webb.Cache.{
  CacheEntry, Cache, Lookup, absent, stale, fresh, look, new, finish_get, get, put, clear, put_all,
  warm,
}

pub data Request (D : Type 0) : Type 0 where
  gets : Bytes → ℕ → Request D
  puts : Bytes → D → ℕ → Request D
  clears : Request D
  warms : List (Bytes × D) → ℕ → Request D

-- What was last written at a key, and when.
pub record Written (D : Type 0) : Type 0 where
  pub value : D
  pub at : ℕ

module _ {D : Type 0} where
  -- The answers to the gets, with the cache after them.
  unfoldable pub serve : List (Request D) → Cache D → List (Option D) × Cache D
  unfolding get put clear warm
  serve [] c = ([], c)
  serve (gets key now ∷ rs) c =
      let (c', answer) = get key now c in
      let (answers, end) = serve rs c' in (answer ∷ answers, end)
  serve (puts key d now ∷ rs) c = serve rs (put key d now c)
  serve (clears ∷ rs) c = serve rs (clear c)
  serve (warms items now ∷ rs) c = serve rs (warm items now c)

  abbrev pub if_fresh : Lookup D → Option D
  if_fresh absent = none
  if_fresh stale = none
  if_fresh (fresh d) = some d

  -- A value may be given until its age has passed the time to live.
  abbrev pub young : ℕ → ℕ → Option (Written D) → Option D
  young ttl now none = none
  young ttl now (some w) = if leb now (w.at + ttl) then some w.value else none

  abbrev pub write_all : List (Bytes × D) → ℕ → GoMap Bytes (Written D) → GoMap Bytes (Written D)
  write_all [] now w = w
  write_all ((k, d) ∷ items) now w =
      write_all items now (insert k (record { value = d; at = now }) w)

  -- The answers of a map that never removes an entry: a get reads the last write of its key, if it
  -- is young enough.
  unfoldable pub recall : ℕ → List (Request D) → GoMap Bytes (Written D) → List (Option D)
  unfolding lookup insert
  recall ttl [] w = []
  recall ttl (gets key now ∷ rs) w = young ttl now (lookup key w) ∷ recall ttl rs w
  recall ttl (puts key d now ∷ rs) w = recall ttl rs (insert key (record { value = d; at = now }) w)
  recall ttl (clears ∷ rs) w = recall ttl rs []
  recall ttl (warms items now ∷ rs) w = recall ttl rs (write_all items now w)

  abbrev pub InOrder : ℕ → List (Request D) → Type 0
  InOrder t [] = Unit
  InOrder t (gets key now ∷ rs) = (t ≤ now) × InOrder now rs
  InOrder t (puts key d now ∷ rs) = (t ≤ now) × InOrder now rs
  InOrder t (clears ∷ rs) = InOrder t rs
  InOrder t (warms items now ∷ rs) = (t ≤ now) × InOrder now rs

  -- From `t` on the cache's map answers as the writes do.
  abbrev pub Alike : ℕ → ℕ → GoMap Bytes (CacheEntry D) → GoMap Bytes (Written D) → Type 0
  Alike ttl t m w =
      (k : Bytes) (now : ℕ)
      → t ≤ now
      → if_fresh (look now (lookup k m)) ≡ young ttl now (lookup k w)

  insert-Alike :
      (ttl t at : ℕ) (m : GoMap Bytes (CacheEntry D)) (w : GoMap Bytes (Written D)) (key : Bytes)
      (d : D)
      → Alike ttl t m w
      → Alike ttl t
          (insert key (record { payload = d; expires_at = at + ttl }) m)
          (insert key (record { value = d; at = at }) w)
  insert-Alike ttl t at m w key d h k now le =
      let e : CacheEntry D = record { payload = d; expires_at = at + ttl } in
      let v : Written D = record { value = d; at = at } in
      ground (arith, h k now le, lookup-insert key k e m, lookup-insert key k v w)

  put_all-Alike :
      (ttl t at : ℕ) (items : List (Bytes × D)) (m : GoMap Bytes (CacheEntry D))
      (w : GoMap Bytes (Written D))
      → Alike ttl t m w
      → Alike ttl t (put_all items (at + ttl) m) (write_all items at w)
  unfolding put_all
  put_all-Alike ttl t at [] m w h = h
  put_all-Alike ttl t at ((k, d) ∷ items) m w h =
      put_all-Alike ttl t at items (insert k _ m) (insert k _ w) (insert-Alike ttl t at m w k d h)

  later-Alike :
      (ttl t now : ℕ) (m : GoMap Bytes (CacheEntry D)) (w : GoMap Bytes (Written D))
      → t ≤ now
      → Alike ttl t m w
      → Alike ttl now m w
  later-Alike ttl t now m w le h k at after = h k at (omega arith)

  finish-answer : (key : Bytes) (l : Lookup D) (c : Cache D) → (finish_get key l c).1 ≡ if_fresh l
  finish-answer key absent c = refl
  finish-answer key stale c = refl
  finish-answer key (fresh d) c = refl

  get-answer :
      (key : Bytes) (now : ℕ) (c : Cache D)
      → (get key now c).1 ≡ if_fresh (look now (lookup key c.items))
  unfolding get
  get-answer key now c = finish-answer key (look now (lookup key c.items)) c

  -- What a get evicts was stale, and stays so.
  finish_get_other :
      (now at : ℕ) (key k : Bytes) (c : Cache D) (o : Option (CacheEntry D))
      → now ≤ at
      → lookup key c.items ≡ o
      → if_fresh (look at (lookup k (finish_get key (look now o) c).0.items))
        ≡ if_fresh (look at (lookup k c.items))
  finish_get_other now at key k c none le e = refl
  finish_get_other now at key k c (some entry) le e =
      ground (arith, lookup-delete key k c.items, bytes_eqb_iff key k, ap (λ j. lookup j c.items))

  get-Alike :
      (ttl now : ℕ) (key : Bytes) (c : Cache D) (w : GoMap Bytes (Written D))
      → Alike ttl now c.items w
      → Alike ttl now (get key now c).0.items w
  unfolding get
  get-Alike ttl now key c w h k at le =
      finish_get_other now at key k c (lookup key c.items) le refl ∙ h k at le

  finish_get-ttl : (key : Bytes) (l : Lookup D) (c : Cache D) → (finish_get key l c).0.ttl ≡ c.ttl
  finish_get-ttl key absent c = refl
  finish_get-ttl key stale c = refl
  finish_get-ttl key (fresh d) c = refl

  serve-Alike :
      (t ttl : ℕ) (rs : List (Request D)) (c : Cache D) (w : GoMap Bytes (Written D))
      → InOrder t rs
      → c.ttl ≡ ttl
      → Alike ttl t c.items w
      → (serve rs c).0 ≡ recall ttl rs w
  unfolding serve recall get put clear warm
  serve-Alike t ttl [] c w o e h = refl
  serve-Alike t ttl (gets key now ∷ rs) c w o e h =
      let near = later-Alike ttl t now c.items w o.0 h in
      let answer = get-answer key now c ∙ near key now (omega arith) in
      let rest =
        serve-Alike now ttl rs (get key now c).0 w o.1
          (finish_get-ttl key (look now (lookup key c.items)) c ∙ e)
          (get-Alike ttl now key c w near) in
      cc (answer, rest)
  serve-Alike t ttl (puts key d now ∷ rs) c w o e h =
      let near = later-Alike ttl t now c.items w o.0 h in
      serve-Alike now ttl rs (put key d now c) _ o.1 e
        (rw e (insert-Alike ttl now now c.items w key d near))
  serve-Alike t ttl (clears ∷ rs) c w o e h =
      serve-Alike t ttl rs (clear c) [] o e (λ k now le. refl)
  serve-Alike t ttl (warms items now ∷ rs) c w o e h =
      let near = later-Alike ttl t now c.items w o.0 h in
      serve-Alike now ttl rs (warm items now c) _ o.1 e
        (rw e (put_all-Alike ttl now now items c.items w near))

pub serve-refines :
    {D : Type 0} (ttl : ℕ) (rs : List (Request D))
    → InOrder 0 rs
    → (serve rs (new ttl)).0 ≡ recall ttl rs []
unfolding new lookup
serve-refines ttl rs o = serve-Alike 0 ttl rs (new ttl) [] o refl (λ k now le. refl)

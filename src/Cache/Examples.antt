-- ===== src/Cache/Examples.antt =====
-- Runs of the cache.
use magic_webb.Base.{
  ℕ, ◌≡◌, refl, none, some, List, [], ◌∷◌, arith, Bytes, bytes, bytes_eqb, lookup, insert, delete,
}
use magic_webb.Cache.{new, get, put, clear, count, put_all, warm}
use magic_webb.Cache.Eviction.{Request, gets, puts, clears, warms, serve, recall, serve-refines}

abbrev trending : Bytes
trending = bytes "trending"

abbrev activity : Bytes
activity = bytes "activity"

abbrev history : List (Request ℕ)
history =
    puts trending 5 1
    ∷ gets trending 2
    ∷ gets trending 12
    ∷ warms ((activity, 7) ∷ []) 13
    ∷ gets activity 20
    ∷ clears
    ∷ gets activity 21
    ∷ []

-- The answers of the cache, and of the map that keeps every entry.
answers : (serve history (new 10)).0 ≡ some 5 ∷ none ∷ some 7 ∷ none ∷ []
unfolding serve new get put clear warm put_all lookup insert delete bytes_eqb
answers = refl

stale_evicted : count {D = ℕ} (serve (puts trending 5 1 ∷ gets trending 12 ∷ []) (new 10)).1 ≡ 0
unfolding serve new get put count lookup insert delete bytes_eqb
stale_evicted = refl

serve-refines_example : (serve history (new 10)).0 ≡ recall 10 history []
serve-refines_example =
    serve-refines 10 history
      (omega arith, (omega arith, (omega arith, (omega arith, (omega arith, (omega arith, tt))))))

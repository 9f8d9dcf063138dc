-- ===== src/Responses/Examples.antt =====
-- Runs of the cache of GraphQL answers. The sum of these runs is always 32 zeros.
use magic_webb.Base.{
  none, ℕ, zero, suc, ◌≤◌, ◌<◌, ◌≡◌, refl, true, some, List, [], ◌∷◌, ◌++◌, Bytes, bytes, bytes_eqb,
  length, arith,
}
use magic_webb.Responses.{
  OperationContext, field, query, Response, is_cacheable, operation_ttl, cache_key, intercept,
  finish, fields, new_response_cache,
}
use magic_webb.Responses.Bounds.{CacheStep, arrives, ends, sweeps, cache_after, cache_after-bounded}
use magic_webb.Responses.Provenance.{GivesBefore, intercept-GivesBefore}
use magic_webb.Responses.Keeping.{cache_from}
use magic_webb.Responses.Documents.{intercept-finish}

abbrev zeros : ℕ → Bytes
zeros zero = []
zeros (suc n) = 0 ∷ zeros n

abbrev sum : Bytes → Bytes
sum b = zeros 32

sum_size : (b : Bytes) → length (sum b) ≡ 32
sum_size b = refl

abbrev metrics_query : OperationContext
metrics_query = record {
  raw_query = bytes "{ metrics { totalSales } }";
  operation_name = [];
  variables = [];
  operation = some (record { kind = query; selection_set = field (bytes "metrics") ∷ [] });
}

abbrev sales : Response
sales = record { errors = 0; payload = some (bytes "7") }

abbrev history : List CacheStep
history = sweeps 8 ∷ ends metrics_query (some sales) 3 ∷ arrives metrics_query 1 2 ∷ []

cache_after-bounded_example : length (cache_after sum history).store ≤ 500
cache_after-bounded_example = cache_after-bounded sum sum_size history

served : (intercept sum metrics_query 9 10 (cache_after sum history)).1 ≡ some (bytes "7")
unfolding intercept bytes_eqb cache_after fields operation_ttl
served = refl

intercept-GivesBefore_example :
    (expires_at : ℕ) × (is_cacheable metrics_query ≡ true)
    × GivesBefore sum history (cache_key sum metrics_query) (bytes "7") expires_at
    × (9 < expires_at)
intercept-GivesBefore_example =
    intercept-GivesBefore sum history metrics_query 9 10 (bytes "7") served

-- The comment of the first ends at the line's end; that of the second takes the rest of the document.
abbrev both_fields : OperationContext
both_fields = record {
  raw_query =
      bytes "{ metrics { totalSales } # all"
      ++ 10 ∷ bytes " trending { id } # sold"
      ++ 10 ∷ bytes "}";
  operation_name = [];
  variables = [];
  operation = some (record {
    kind = query;
    selection_set = field (bytes "metrics") ∷ field (bytes "trending") ∷ [];
  });
}

abbrev one_field : OperationContext
one_field = record {
  raw_query = bytes "{ metrics { totalSales } # all trending { id } # sold" ++ 10 ∷ bytes "}";
  operation_name = [];
  variables = [];
  operation = some (record { kind = query; selection_set = field (bytes "metrics") ∷ [] });
}

-- Another operation ends in between, and a sweep runs.
abbrev between : List CacheStep
between = sweeps 8 ∷ ends metrics_query none 7 ∷ arrives one_field 5 6 ∷ []

-- The length of what is summed tells the operations apart.
abbrev lengths : Bytes → Bytes
lengths b = length b ∷ []

intercept-finish_example :
    (intercept lengths one_field 9 10 (
      cache_from lengths between (
        finish lengths both_fields
          (some (record { errors = 0; payload = some (bytes "both") }))
          3
          new_response_cache))).1
    ≡ some (bytes "both")
unfolding is_cacheable bytes_eqb fields operation_ttl finish new_response_cache cache_key
intercept-finish_example =
    intercept-finish lengths both_fields one_field (bytes "both") 3 9 10 new_response_cache between
      refl refl refl refl refl (omega arith) (omega arith, (refl, (tt, tt))) (omega arith)

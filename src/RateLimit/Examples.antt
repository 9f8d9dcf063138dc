-- ===== src/RateLimit/Examples.antt =====
-- Runs of the rate limiter.
use magic_webb.Base.{
  true, false, ◌≡◌, ◌≤◌, refl, List, [], ◌∷◌, arith, Bytes, bytes, bytes_eqb, length, keep, lookup,
  insert,
}
use magic_webb.RateLimit.{in_window, allow_mem, remaining_mem, cleanup}
use magic_webb.RateLimit.Calls.{Call, allow, tidy, admitted, step}
use magic_webb.RateLimit.Sliding.{admitted-le-limit}
use magic_webb.RateLimit.Fixed.{PgCall, allows, sweeps, admitted_in, admitted_in-le}
use magic_webb.RateLimit.Middleware.{
  mem_limiter, next, too_many_requests, burst, count_down, burst-count_down,
}

abbrev client : Bytes
client = bytes "ip"

abbrev requests : List Call
requests =
    allow client 2 1000 10 10 ∷ allow client 2 1000 20 21 ∷ allow client 2 1000 30 30 ∷ tidy 40 ∷ []

third_refused : length (admitted client [] requests) ≡ 2
unfolding admitted step allow_mem cleanup insert lookup bytes_eqb
third_refused = refl

admitted-le-limit_example : length (keep (in_window 40 1000) (admitted client [] requests)) ≤ 2
admitted-le-limit_example =
    admitted-le-limit client 2 1000 requests (omega arith)
      (
        omega arith,
        omega arith,
        (omega arith, omega arith, (omega arith, omega arith, (omega arith, tt))),
      )
      (λ e. (refl, refl), (λ e. (refl, refl), (λ e. (refl, refl), tt))) 40 (omega arith)

replies : count_down mem_limiter 3 2 ≡ next 1 ∷ next 0 ∷ too_many_requests ∷ []
replies = refl

burst-count_down_example :
    burst mem_limiter 3 [] client 2 1000 10
    ≡ count_down mem_limiter 3 (remaining_mem [] client 2 1000 10)
burst-count_down_example = burst-count_down mem_limiter 3 [] client 2 1000 10

abbrev shared : List PgCall
shared =
    allows false client 2 1000 2010
    ∷ allows true client 2 1000 2020
    ∷ allows false client 2 1000 2030
    ∷ sweeps false 2040
    ∷ allows false client 2 1000 2050
    ∷ []

admitted_in-le_example : admitted_in client 2000 [] shared ≤ 2
admitted_in-le_example =
    admitted_in-le client 2 1000 2000 shared (omega arith) (omega arith)
      (omega arith, (omega arith, (omega arith, (omega arith, (omega arith, tt)))))
      (λ e. (refl, refl), (λ e. (refl, refl), (λ e. (refl, refl), (λ e. (refl, refl), tt))))

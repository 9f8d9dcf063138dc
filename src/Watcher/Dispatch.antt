-- ===== src/Watcher/Dispatch.antt =====
-- processRange of backend/internal/indexer/runner.go: a range that succeeds has handled all of
-- its logs.
use mathlib.Core.List.{append_assoc, append-nil}
use magic_webb.Base.{
  ℕ, ◌≡◌, refl, sym, ap, ◌∙◌, subst, inl, inr, Bool, true, false, not, ◌||◌, Option, none, some,
  List, [], ◌∷◌, ◌++◌, map, nat_eq, GoMap, lookup, insert, lookup-insert, All, Option-cases, arith,
  if_either,
}
use magic_webb.Watcher.{
  is_retriable, RangeAnswers, RangeResult, time_of, dispatch_logs, finish_range, range_of_logs,
  process_range,
}

module _ {Log : Type 0} (block_number : Log → ℕ) (ans : RangeAnswers Log) where
  -- A log handled with the time of its own block, by a handler that need not be run again.
  abbrev pub IsHandled : Log × ℕ → Type 0
  IsHandled (l, t) =
      (ans.header_time (block_number l) ≡ some t) × (is_retriable (ans.handle l t) ≡ false)

  -- The times looked up are those of the headers.
  abbrev TimesOk : GoMap ℕ ℕ → Type 0
  TimesOk times = (b t : ℕ) → lookup b times ≡ some t → ans.header_time b ≡ some t

  dispatch_logs_step :
      (l : Log) (logs : List Log) (times : GoMap ℕ ℕ) (failed : Bool) (handled : List (Log × ℕ))
      (t : ℕ)
      → time_of block_number ans (block_number l) (lookup (block_number l) times) ≡ some t
      → dispatch_logs block_number ans (l ∷ logs) times failed handled
        ≡ dispatch_logs block_number ans logs
            (insert (block_number l) t times)
            (failed || is_retriable (ans.handle l t))
            (handled ++ (l, t) ∷ [])
  unfolding dispatch_logs
  dispatch_logs_step l logs times failed handled t e = rw (e, dispatch_logs)

  dispatch_logs_abort :
      (l : Log) (logs : List Log) (times : GoMap ℕ ℕ) (failed : Bool) (handled : List (Log × ℕ))
      → time_of block_number ans (block_number l) (lookup (block_number l) times) ≡ none
      → dispatch_logs block_number ans (l ∷ logs) times failed handled ≡ (handled, none)
  unfolding dispatch_logs
  dispatch_logs_abort l logs times failed handled e = rw (e, dispatch_logs)

  time_of-header :
      (b t : ℕ) (times : GoMap ℕ ℕ)
      → TimesOk times
      → time_of block_number ans b (lookup b times) ≡ some t
      → ans.header_time b ≡ some t
  time_of-header b t times ok e = elim (Option-cases (lookup b times)) [
    | inl n ↦ ap (time_of block_number ans b) (sym n) ∙ e
    | inr (u, s) ↦ ok b t (s ∙ ap (time_of block_number ans b) (sym s) ∙ e)
  ]

  insert-TimesOk :
      (b t : ℕ) (times : GoMap ℕ ℕ)
      → TimesOk times
      → ans.header_time b ≡ some t
      → TimesOk (insert b t times)
  insert-TimesOk b t times ok e j u h =
      ground (arith, lookup-insert b j t times, ok j u, ap (RangeAnswers.header_time ans))

  -- What the loop adds to the logs handled, where no handler failed.
  abbrev Adds : List Log → List (Log × ℕ) → List (Log × ℕ) × Option Bool → Type 0
  Adds logs handled r =
      (rest : List (Log × ℕ)) × (r.0 ≡ handled ++ rest)
      × (map (λ p. p.0) rest ≡ logs)
      × All IsHandled rest

  or_false_left : (a b : Bool) → (a || b) ≡ false → (a ≡ false) × (b ≡ false)
  or_false_left a b h = ground arith

  dispatch_logs-failed :
      (logs : List Log) (times : GoMap ℕ ℕ) (failed : Bool) (handled : List (Log × ℕ))
      → (dispatch_logs block_number ans logs times failed handled).1 ≡ some false
      → failed ≡ false
  unfolding dispatch_logs
  dispatch_logs-failed [] times failed handled h = grind arith
  dispatch_logs-failed (l ∷ logs) times failed handled h =
      elim (Option-cases
        (time_of block_number ans (block_number l) (lookup (block_number l) times))) [
          | inl n ↦
              let step = dispatch_logs_abort l logs times failed handled n in
              grind (arith, ap (λ r. r.1) (sym step) ∙ h)
          | inr (t, s) ↦
              let step = dispatch_logs_step l logs times failed handled t s in
              let both =
                dispatch_logs-failed logs (insert (block_number l) t times)
                  (failed || is_retriable (ans.handle l t)) (handled ++ (l, t) ∷ [])
                  (ap (λ r. r.1) (sym step) ∙ h) in
              (or_false_left failed (is_retriable (ans.handle l t)) both).0
        ]

  dispatch_logs-Adds :
      (logs : List Log) (times : GoMap ℕ ℕ) (failed : Bool) (handled : List (Log × ℕ))
      → TimesOk times
      → (dispatch_logs block_number ans logs times failed handled).1 ≡ some false
      → Adds logs handled (dispatch_logs block_number ans logs times failed handled)
  unfolding dispatch_logs
  dispatch_logs-Adds [] times failed handled ok h = ([], sym (append-nil handled), refl, tt)
  dispatch_logs-Adds (l ∷ logs) times failed handled ok h =
      elim (Option-cases
        (time_of block_number ans (block_number l) (lookup (block_number l) times))) [
          | inl n ↦
              let step = dispatch_logs_abort l logs times failed handled n in
              grind (arith, ap (λ r. r.1) (sym step) ∙ h)
          | inr (t, s) ↦
              let b = block_number l in
              let step = dispatch_logs_step l logs times failed handled t s in
              let later = ap (λ r. r.1) (sym step) ∙ h in
              let time = time_of-header b t times ok s in
              let (rest, e, names, all) =
                dispatch_logs-Adds logs (insert b t times) (failed || is_retriable (ans.handle l t))
                  (handled ++ (l, t) ∷ []) (insert-TimesOk b t times ok time) later in
              let fine =
                dispatch_logs-failed logs (insert b t times)
                  (failed || is_retriable (ans.handle l t)) (handled ++ (l, t) ∷ []) later in
              (
                (l, t) ∷ rest,
                ap (λ r. r.0) step ∙ e ∙ append_assoc handled ((l, t) ∷ []) rest,
                ap (λ ls. l ∷ ls) names,
                ((time, (or_false_left failed (is_retriable (ans.handle l t)) fine).1), all),
              )
        ]

  abbrev Handles : ℕ → RangeResult Log → Type 0
  Handles to r =
      (r.succeeded ≡ true
        → (ans.filter_logs ≡ some (map (λ p. p.0) r.handled))
          × All IsHandled r.handled
          × (ans.transfers ≡ true))
      × (r.succeeded ≡ false → r.cursor ≡ none)

  finish-Handles :
      (to : ℕ) (logs : List Log) (r : List (Log × ℕ) × Option Bool)
      → ans.filter_logs ≡ some logs
      → (r.1 ≡ some false → Adds logs [] r)
      → Handles to (finish_range block_number ans to r)
  finish-Handles to logs (handled, none) got adds = (λ h. grind arith, λ h. refl)
  finish-Handles to logs (handled, some failed) got adds =
      if_either (Handles to) (failed || not ans.transfers) (λ bad. (λ h. grind arith, λ h. refl))
        (λ good.
          let (rest, e, names, all) = adds (ground arith) in
          (
            λ h. (
              got ∙ ap some (sym names ∙ ap (map (λ p. p.0)) (sym e)),
              subst (All IsHandled) (sym e) all,
              ground arith,
            ),
            λ h. grind arith,
          ))

  no_times : TimesOk []
  unfolding lookup
  no_times b t h = grind arith

  range-Handles :
      (to : ℕ) (o : Option (List Log))
      → ans.filter_logs ≡ o
      → Handles to (range_of_logs block_number ans to o)
  range-Handles to none e = (λ h. grind arith, λ h. refl)
  range-Handles to (some logs) e =
      finish-Handles to logs (dispatch_logs block_number ans logs [] false []) e
        (dispatch_logs-Adds logs [] false [] no_times)

  -- A range that succeeds got its logs, handled every one of them, in their order, with the time
  -- of the log's own block, had no handler fail on one (a malformed log apart) and had its
  -- transfers processed; a range that does not succeed persists no cursor.
  pub process_range-handles :
      (to : ℕ)
      → let result = process_range block_number ans to in
        (result.succeeded ≡ true
          → (ans.filter_logs ≡ some (map (λ p. p.0) result.handled))
            × All IsHandled result.handled
            × (ans.transfers ≡ true))
        × (result.succeeded ≡ false → result.cursor ≡ none)
  unfolding process_range
  process_range-handles to = range-Handles to ans.filter_logs refl

-- ===== src/Nonce/Cleanup.antt =====
-- The background cleanup of a nonce store is not observable: expired entries answer as absent ones.
use magic_webb.Base.{
  ℕ, ◌+◌, ◌≤◌, ◌≡◌, refl, Bool, true, false, not, Option, none, some, List, [], ◌∷◌, arith, Bytes,
  bytes_eq, ltb, lookup, lookup-insert, lookup-delete, lookup-delete_where, Unique,
}
use magic_webb.Nonce.{Entry, Entries, set_if_free, get_del, cleanup, is_live, value_if_live}
use magic_webb.Nonce.SingleUse.{
  Call, issue, redeem, sweep, Report, issued, refused, redeemed, missing, swept, step, run,
  step-Unique, report_issue, report_redeem,
}

-- The clock does not go back: each call's readings come after `t` and after the calls before.
abbrev pub Ordered : ℕ → List Call → Type 0
Ordered t [] = Unit
Ordered t (issue a n ttl now now' ∷ cs) = (t ≤ now) × (now ≤ now') × Ordered now' cs
Ordered t (redeem a now ∷ cs) = (t ≤ now) × Ordered now cs
Ordered t (sweep now ∷ cs) = (t ≤ now) × Ordered now cs

abbrev pub without_sweeps : List Call → List Call
without_sweeps [] = []
without_sweeps (issue a n ttl now now' ∷ cs) = issue a n ttl now now' ∷ without_sweeps cs
without_sweeps (redeem a now ∷ cs) = redeem a now ∷ without_sweeps cs
without_sweeps (sweep now ∷ cs) = without_sweeps cs

abbrev pub answers : List Report → List Report
answers [] = []
answers (issued a n ∷ rs) = issued a n ∷ answers rs
answers (refused a ∷ rs) = refused a ∷ answers rs
answers (redeemed a n ∷ rs) = redeemed a n ∷ answers rs
answers (missing a ∷ rs) = missing a ∷ answers rs
answers (swept ∷ rs) = answers rs

-- Two stores that answer alike from `t` on.
abbrev pub Agree : ℕ → Entries → Entries → Type 0
Agree t m w =
    (a : Bytes) (now : ℕ)
    → t ≤ now
    → value_if_live now (lookup a m) ≡ value_if_live now (lookup a w)

is_live_of_value :
    (now : ℕ) (x y : Option Entry)
    → value_if_live now x ≡ value_if_live now y
    → is_live now x ≡ is_live now y
is_live_of_value now none none h = refl
is_live_of_value now none (some s) h = ground arith
is_live_of_value now (some r) none h = ground arith
is_live_of_value now (some r) (some s) h = ground arith

Agree-later : {t now : ℕ} (m w : Entries) → t ≤ now → Agree t m w → Agree now m w
Agree-later m w le h a x k = h a x (omega arith)

cleanup-Agree : (t : ℕ) (m w : Entries) → Unique m → Agree t m w → Agree t (cleanup m t) w
unfolding cleanup
cleanup-Agree t m w u h a now le =
    ground (arith, h a now, lookup-delete_where (λ _ r. not (ltb t r.expires_at)) a m u)

get_del-Agree :
    (t : ℕ) (m w : Entries) (b : Bytes) (now : ℕ)
    → Agree t m w
    → Agree t (get_del m b now).0 (get_del w b now).0
unfolding get_del
get_del-Agree t m w b now h a x le = ground (arith, h a x, lookup-delete b a m, lookup-delete b a w)

set_if_free-Agree :
    (t : ℕ) (m w : Entries) (b n : Bytes) (ttl now now' : ℕ)
    → t ≤ now
    → Agree t m w
    → Agree t (set_if_free m b n ttl now now').0 (set_if_free w b n ttl now now').0
      × ((set_if_free m b n ttl now now').1 ≡ (set_if_free w b n ttl now now').1)
unfolding set_if_free
set_if_free-Agree t m w b n ttl now now' le h = (
  λ a x k. ground (
    arith,
    h a x,
    h b now,
    is_live_of_value now (lookup b m) (lookup b w),
    lookup-insert b a (record { value = n; expires_at = now' + ttl }) m,
    lookup-insert b a (record { value = n; expires_at = now' + ttl }) w,
  ),
  ground (arith, h b now, is_live_of_value now (lookup b m) (lookup b w)),
)

get_del-answer :
    (m w : Entries) (a : Bytes) (now : ℕ)
    → value_if_live now (lookup a m) ≡ value_if_live now (lookup a w)
    → (get_del m a now).1 ≡ (get_del w a now).1
unfolding get_del
get_del-answer m w a now h = h

answers-issue :
    (a n : Bytes) (b : Bool) (rs : List Report)
    → answers (report_issue a n b ∷ rs) ≡ report_issue a n b ∷ answers rs
answers-issue a n true rs = refl
answers-issue a n false rs = refl

answers-redeem :
    (a : Bytes) (o : Option Bytes) (rs : List Report)
    → answers (report_redeem a o ∷ rs) ≡ report_redeem a o ∷ answers rs
answers-redeem a none rs = refl
answers-redeem a (some n) rs = refl

run-Agree :
    (t : ℕ) (m w : Entries) (cs : List Call)
    → Unique m
    → Ordered t cs
    → Agree t m w
    → answers (run m cs).1 ≡ (run w (without_sweeps cs)).1
unfolding run step
run-Agree t m w [] u o h = refl
run-Agree t m w (issue a n ttl now now' ∷ cs) u o h =
    let (later, same) = set_if_free-Agree t m w a n ttl now now' o.0 h in
    cc (
      answers-issue a n (set_if_free m a n ttl now now').1
          (run (set_if_free m a n ttl now now').0 cs).1,
      same,
      run-Agree now' _ (set_if_free w a n ttl now now').0 cs
          (step-Unique m (issue a n ttl now now') u) o.2 (Agree-later _ _ (omega arith) later),
    )
run-Agree t m w (redeem a now ∷ cs) u o h = cc (
  answers-redeem a (get_del m a now).1 (run (get_del m a now).0 cs).1,
  get_del-answer m w a now (h a now o.0),
  run-Agree now _ (get_del w a now).0 cs (step-Unique m (redeem a now) u) o.1
      (get_del-Agree now m w a now (Agree-later m w o.0 h)),
)
run-Agree t m w (sweep now ∷ cs) u o h =
    run-Agree now (cleanup m now) w cs (step-Unique m (sweep now) u) o.1
      (cleanup-Agree now m w u (Agree-later m w o.0 h))

-- In any history whose clock does not go back, the calls of MemStore's cleanup change no answer:
-- the other calls are answered as in the history without them.
pub cleanup_invisible :
    (cs : List Call) → Ordered 0 cs → answers (run [] cs).1 ≡ (run [] (without_sweeps cs)).1
cleanup_invisible cs o = run-Agree 0 [] [] cs tt o (λ a now le. refl)

-- ===== src/RateLimit/Tracking.antt =====
-- What the in-memory limiter stores for one key, against what it has admitted.
use magic_webb.Base.{
  ℕ, ◌≤◌, ◌<◌, ◌≡◌, refl, sym, ◌∙◌, ap, Bool, true, List, [], ◌∷◌, ◌++◌, arith, bytes_eq, length,
  keep, length-append, length-keep-le,
}
use magic_webb.RateLimit.{in_window, idle_after, last_before}

pub keep-append {ℓ} :
    {A : Type ℓ} (p : A → Bool) (xs ys : List A) → keep p (xs ++ ys) ≡ keep p xs ++ keep p ys
keep-append p [] ys = refl
keep-append p (x ∷ xs) ys = ground (arith, keep-append p xs ys)

-- What an earlier cutoff has dropped a later one drops too.
pub keep-keep :
    (now now' window : ℕ) (xs : List ℕ)
    → now' ≤ now
    → keep (in_window now window) (keep (in_window now' window) xs) ≡ keep (in_window now window) xs
keep-keep now now' window [] h = refl
keep-keep now now' window (t ∷ xs) h = ground (arith, keep-keep now now' window xs)

-- Rising instants from `lo` to `hi`.
abbrev pub Rising : ℕ → ℕ → List ℕ → Type 0
Rising lo hi [] = lo ≤ hi
Rising lo hi (t ∷ ts) = (lo ≤ t) × Rising t hi ts

Rising-weaken :
    (lo lo' hi hi' : ℕ) (xs : List ℕ) → lo ≤ lo' → hi' ≤ hi → Rising lo' hi' xs → Rising lo hi xs
Rising-weaken lo lo' hi hi' [] h k r = omega arith
Rising-weaken lo lo' hi hi' (t ∷ xs) h k r =
    (omega arith, Rising-weaken t t hi hi' xs (omega arith) k r.1)

keep-Rising : (p : ℕ → Bool) (lo hi : ℕ) (xs : List ℕ) → Rising lo hi xs → Rising lo hi (keep p xs)
keep-Rising p lo hi [] r = r
keep-Rising p lo hi (t ∷ xs) r =
    ground (arith, keep-Rising p t hi xs r.1, Rising-weaken lo t hi hi (keep p xs))

append-Rising : (lo hi t : ℕ) (xs : List ℕ) → hi ≤ t → Rising lo hi xs → Rising lo t (xs ++ t ∷ [])
append-Rising lo hi t [] h r = omega arith
append-Rising lo hi t (x ∷ xs) h r = (r.0, append-Rising x hi t xs h r.1)

Rising-le : (lo hi : ℕ) (xs : List ℕ) → Rising lo hi xs → lo ≤ hi
Rising-le lo hi [] r = r
Rising-le lo hi (t ∷ xs) r = omega (arith, Rising-le t hi xs r.1)

-- An idle key has nothing left in any window of at most five minutes.
keep_of_last_before :
    (now x window lo hi : ℕ) (ts : List ℕ)
    → now ≤ x
    → window ≤ idle_after
    → Rising lo hi ts
    → last_before now ts ≡ true
    → keep (in_window x window) ts ≡ []
keep_of_last_before now x window lo hi [] le w r h = refl
keep_of_last_before now x window lo hi (t ∷ []) le w r h = ground arith
keep_of_last_before now x window lo hi (t ∷ u ∷ ts) le w r h =
    ground (arith, keep_of_last_before now x window t hi (u ∷ ts) le w r.1 h)

-- What the limiter stores for a key against what it has admitted so far, seen from `t` on.
pub record Tracks (limit window t : ℕ) (past : List ℕ) (stored : List ℕ) : Type 0 where
  pub same : (x : ℕ) → t ≤ x → keep (in_window x window) past ≡ keep (in_window x window) stored
  pub few : length stored ≤ limit
  pub rising : Rising 0 t stored

module _ (limit window : ℕ) where
  pub Tracks-later :
      (t t' : ℕ) (past stored : List ℕ)
      → t ≤ t'
      → Tracks limit window t past stored
      → Tracks limit window t' past stored
  Tracks-later t t' past stored h k = record {
    same = λ x le. k.same x (omega arith);
    few = k.few;
    rising = Rising-weaken 0 0 t' t stored (omega arith) h k.rising;
  }

  pub Tracks-fresh :
      (t now' : ℕ) (past stored : List ℕ)
      → t ≤ now'
      → Tracks limit window t past stored
      → Tracks limit window now' past (keep (in_window now' window) stored)
  Tracks-fresh t now' past stored h k = record {
    same = λ x le. k.same x (omega arith) ∙ sym (keep-keep x now' window stored le);
    few = omega (arith, length-keep-le (in_window now' window) stored, k.few);
    rising = keep-Rising _ 0 now' stored (Rising-weaken 0 0 now' t stored (omega arith) h k.rising);
  }

  pub Tracks-admit :
      (t now now' : ℕ) (past stored : List ℕ)
      → t ≤ now
      → now ≤ now'
      → Tracks limit window t past stored
      → length (keep (in_window now' window) stored) < limit
      → Tracks limit window now'
          (past ++ now ∷ [])
          (keep (in_window now' window) stored ++ now ∷ [])
  Tracks-admit t now now' past stored h h' k room =
      let fresh = keep (in_window now' window) stored in
      record {
        same = λ x le.
            rw
              (
                keep-append (in_window x window) past (now ∷ []),
                keep-append (in_window x window) fresh (now ∷ []),
              )
              (ap (λ ts. ts ++ keep (in_window x window) (now ∷ []))
                ((Tracks-fresh t now' past stored (omega arith) k).same x le));
        few = omega (arith, length-append fresh (now ∷ []));
        rising = Rising-weaken 0 0 now' now _ (omega arith) h' (
            append-Rising 0 now now fresh (omega arith) (
              keep-Rising _ 0 now stored
                (Rising-weaken 0 0 now t stored (omega arith) h k.rising)));
      }

  pub Tracks-idle :
      (t now : ℕ) (past stored : List ℕ)
      → t ≤ now
      → window ≤ idle_after
      → Tracks limit window t past stored
      → last_before now stored ≡ true
      → Tracks limit window now past []
  Tracks-idle t now past stored h short k idle = record {
    same = λ x le.
        k.same x (omega arith) ∙ keep_of_last_before now x window 0 t stored le short k.rising idle;
    few = omega arith;
    rising = omega arith;
  }

-- ===== src/Broadcast/Ring.antt =====
-- The ring buffer against the log of all published events.
use Prim.Native.Nat.{min}
use mathlib.Core.List.{append-nil, append_assoc}
use native.Mathlib.Decide.{dec_lt}
use native.Mathlib.Nat.{mod-add-mod, mod-lt}
use magic_webb.Base.{
  ℕ, zero, suc, ◌+◌, ◌%◌, ◌≤◌, ◌<◌, ◌≡◌, refl, sym, ◌∙◌, ap, subst, List, [], ◌∷◌, ◌++◌, arith,
  Bytes, ltb, if◌then◌else◌, length, get_elem?, set, length-append, length-set, get_elem?-set_self,
  get_elem?-set_ne, get_elem?-append_left, get_elem?-append_end, mod_distinct,
}
use magic_webb.Broadcast.{RetryEvent, Broadcaster, uint64_mod, replicate, new_no_loop, publish}

next_pos : (size p n m : ℕ) → p ≡ n % size → m ≡ n + 1 → (p + 1) % size ≡ m % size
next_pos size p n m e f = rw (e, f) (mod-add-mod n size 1)

-- The event that Publish logs: it takes the next number.
abbrev pub logged : {D : Type 0} → ℕ → Bytes × D → RetryEvent D
logged n (type, d) = record { seq = n + 1; type = type; payload = d }

-- All events that a list of Publish calls makes, numbered from `n + 1`.
abbrev pub log_of : {D : Type 0} → ℕ → List (Bytes × D) → List (RetryEvent D)
log_of n [] = []
log_of n (p ∷ ps) = logged n p ∷ log_of (n + 1) ps

unfoldable pub publish_all : {D : Type 0} → ℕ → List (Bytes × D) → Broadcaster D → Broadcaster D
publish_all size [] b = b
publish_all size ((type, d) ∷ ps) b = publish_all size ps (publish size type d b)

-- The ring holds the last events of the log, each in the slot of its position modulo the size.
pub record Holds {D : Type 0} (size : ℕ) (log : List (RetryEvent D)) (b : Broadcaster D)
    : Type 0 where
  pub width : length b.ring_buf ≡ size
  pub count : b.ring_count ≡ min size (length log)
  pub pos : b.ring_pos ≡ length log % size
  pub last : b.seq ≡ length log
  pub slots :
      (k : ℕ)
      → k < length log
      → length log ≤ k + size
      → get_elem? b.ring_buf (k % size) ≡ get_elem? log k

module _ {D : Type 0} (size : ℕ) (some_room : 0 < size) where
  length-replicate : (n : ℕ) (x : RetryEvent D) → length (replicate n x) ≡ n
  length-replicate zero x = refl
  length-replicate (suc n) x = omega (arith, length-replicate n x)

  pub new-Holds : (nil : D) → Holds size [] (new_no_loop size nil)
  unfolding new_no_loop
  new-Holds nil = record {
    width = length-replicate size _;
    count = omega arith;
    pos = omega arith;
    last = refl;
    slots = λ k h le. elim h [ ];
  }

  publish_ring :
      (type : Bytes) (d : D) (b : Broadcaster D) (n : ℕ)
      → b.seq ≡ n
      → n + 1 < uint64_mod
      → ((publish size type d b).ring_buf ≡ set b.ring_buf b.ring_pos (logged n (type, d)))
        × ((publish size type d b).ring_pos ≡ (b.ring_pos + 1) % size)
        × ((publish size type d b).ring_count
            ≡ (if ltb b.ring_count size then b.ring_count + 1 else b.ring_count))
        × ((publish size type d b).seq ≡ n + 1)
  unfolding publish
  publish_ring type d b n e h = ground arith

  -- Writing the next entry of the log into its slot leaves the slots of the others.
  next_slots :
      (buf log : List (RetryEvent D)) (ev : RetryEvent D) (pos : ℕ)
      → length buf ≡ size
      → pos ≡ length log % size
      → ((k : ℕ)
          → k < length log
          → length log ≤ k + size
          → get_elem? buf (k % size) ≡ get_elem? log k)
      → (k : ℕ) → k < length log + 1
      → length log + 1 ≤ k + size
      → get_elem? (set buf pos ev) (k % size) ≡ get_elem? (log ++ ev ∷ []) k
  next_slots buf log ev pos w e old k lt le = elim (dec_lt k (length log)) [
    | yes before ↦ rw e (
        get_elem?-set_ne buf (length log % size) (k % size) ev
          (λ same. mod_distinct k (length log) size before (omega arith) (sym same))
        ∙ old k before (omega arith)
        ∙ sym (get_elem?-append_left log (ev ∷ []) k before))
    | no after ↦
        let here : k ≡ length log = omega arith in
        let inside = mod-lt (length log) some_room in
        rw (e, here)
          (get_elem?-set_self buf (length log % size) ev (omega arith)
            ∙ sym (get_elem?-append_end log ev (length log) refl))
  ]

  pub publish-Holds :
      (type : Bytes) (d : D) (b : Broadcaster D) (log : List (RetryEvent D))
      → length log + 1 < uint64_mod
      → Holds size log b
      → Holds size (log ++ logged (length log) (type, d) ∷ []) (publish size type d b)
  publish-Holds type d b log h k =
      let ev = logged (length log) (type, d) in
      let (buf, pos, count, last) = publish_ring type d b (length log) k.last h in
      let longer = length-append log (ev ∷ []) in
      record {
        width = omega (arith, ap length buf, length-set b.ring_buf b.ring_pos ev, k.width);
        count = ground (arith, longer, count, k.count);
        pos = pos ∙ next_pos size b.ring_pos (length log) _ k.pos longer;
        last = omega (arith, longer, last);
        slots = λ j lt le. rw buf (
            next_slots b.ring_buf log ev b.ring_pos k.width k.pos k.slots j (omega arith)
              (omega arith));
      }

  pub publish_all-Holds :
      (ps : List (Bytes × D)) (b : Broadcaster D) (log : List (RetryEvent D))
      → length log + length ps < uint64_mod
      → Holds size log b
      → Holds size (log ++ log_of (length log) ps) (publish_all size ps b)
  unfolding publish_all
  publish_all-Holds [] b log h k = rw append-nil k
  publish_all-Holds (p ∷ ps) b log h k =
      let x = logged (length log) p in
      let longer = length-append log (x ∷ []) in
      let regroup : (log ++ x ∷ []) ++ log_of (length (log ++ x ∷ [])) ps
          ≡ log ++ log_of (length log) (p ∷ ps) =
        rw (append_assoc, longer) refl in
      subst (λ l. Holds size l (publish_all size (p ∷ ps) b)) regroup
        (publish_all-Holds ps (publish size p.0 p.1 b) (log ++ x ∷ []) (omega arith)
          (publish-Holds p.0 p.1 b log (omega arith) k))

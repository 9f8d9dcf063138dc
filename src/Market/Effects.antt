-- ===== src/Market/Effects.antt =====
-- What one log after another does to a listing as it is shown, and that doing it twice is doing it
-- once: the statements on listings of backend/internal/db.
use magic_webb.Base.{
  ◌≡◌, refl, sym, ap, ◌∙◌, subst, Bool, true, false, Option, none, some, List, [], ◌∷◌,
  if◌then◌else◌, Bool-cases, inl, inr, ◌⊎◌, map_some,
}
use magic_webb.Market.Tables.{Listing}
use magic_webb.Market.Ownership.{orphan}

-- A listing as it is shown: chain_cleaned, which only the keeper reads, is left out.
abbrev pub uncleaned : Listing → Listing
uncleaned r = record r { chain_cleaned = false }

abbrev pub shown : Option Listing → Option Listing
shown = map_some uncleaned

-- What a log does to one listing as it is shown.
pub data Effect : Type 0 where
  keeps : Effect
  lists : Listing → Effect
  hides : Effect
  orphans : Effect

abbrev pub orphan_active : Listing → Listing
orphan_active r = if r.active then orphan r else r

abbrev pub hide : Listing → Listing
hide r = record r { active = false }

abbrev pub affect : Effect → Option Listing → Option Listing
affect keeps r = r
affect (lists new) r = some new
affect hides r = map_some hide r
affect orphans r = map_some orphan_active r

abbrev pub affect_all : List Effect → Option Listing → Option Listing
affect_all [] r = r
affect_all (e ∷ es) r = affect_all es (affect e r)

-- None, or not active.
abbrev IsQuiet : Option Listing → Type 0
IsQuiet none = Unit
IsQuiet (some r) = r.active ≡ false

abbrev lists_any : List Effect → Bool
lists_any [] = false
lists_any (lists new ∷ es) = true
lists_any (keeps ∷ es) = lists_any es
lists_any (hides ∷ es) = lists_any es
lists_any (orphans ∷ es) = lists_any es

affect_quiet :
    (es : List Effect) (r : Option Listing) → lists_any es ≡ false → IsQuiet r → affect_all es r ≡ r
affect_quiet [] r h q = refl
affect_quiet (keeps ∷ es) r h q = affect_quiet es r h q
affect_quiet (lists new ∷ es) r h q = absurd (cc)
affect_quiet (hides ∷ es) none h q = affect_quiet es none h tt
affect_quiet (hides ∷ es) (some r) h q =
    let same : hide r ≡ r = ap (λ b. record r { active = b }) (sym q) in
    ap (λ x. affect_all es (some x)) same ∙ affect_quiet es (some r) h q
affect_quiet (orphans ∷ es) none h q = affect_quiet es none h tt
affect_quiet (orphans ∷ es) (some r) h q =
    ap (λ b. affect_all es (some (if b then orphan r else r))) q ∙ affect_quiet es (some r) h q

-- One effect that lists nothing leaves the listing, or leaves it quiet.
affect_or_IsQuiet :
    (e : Effect) (r : Option Listing)
    → lists_any (e ∷ []) ≡ false
    → (affect e r ≡ r) ⊎ IsQuiet (affect e r)
affect_or_IsQuiet keeps r h = inl refl
affect_or_IsQuiet (lists new) r h = absurd (cc)
affect_or_IsQuiet hides none h = inl refl
affect_or_IsQuiet hides (some r) h = inr refl
affect_or_IsQuiet orphans none h = inl refl
affect_or_IsQuiet orphans (some r) h = elim (Bool-cases r.active) [
  | inl e ↦ inr (ap (λ b. (if b then orphan r else r).active) e)
  | inr e ↦ inl (ap (λ b. some (if b then orphan r else r)) e)
]

all_or_IsQuiet :
    (es : List Effect) (r : Option Listing)
    → lists_any es ≡ false
    → (affect_all es r ≡ r) ⊎ IsQuiet (affect_all es r)
all_or_IsQuiet [] r h = inl refl
all_or_IsQuiet (e ∷ es) r h = elim (affect_or_IsQuiet e r (first e es h)) [
  | inl same ↦
      subst (λ x. (affect_all es x ≡ r) ⊎ IsQuiet (affect_all es x)) (sym same)
        (all_or_IsQuiet es r (later e es h))
  | inr q ↦ inr (subst IsQuiet (sym (affect_quiet es (affect e r) (later e es h) q)) q)
]
  where
    first :
        (e : Effect) (es : List Effect) → lists_any (e ∷ es) ≡ false → lists_any (e ∷ []) ≡ false
    first keeps es h = refl
    first (lists new) es h = cc
    first hides es h = refl
    first orphans es h = refl

    later : (e : Effect) (es : List Effect) → lists_any (e ∷ es) ≡ false → lists_any es ≡ false
    later keeps es h = h
    later (lists new) es h = absurd (cc)
    later hides es h = h
    later orphans es h = h

-- A list of effects that lists something forgets what was there.
affect_forgets :
    (es : List Effect) (r r' : Option Listing)
    → lists_any es ≡ true
    → affect_all es r ≡ affect_all es r'
affect_forgets [] r r' h = absurd (cc)
affect_forgets (lists new ∷ es) r r' h = refl
affect_forgets (keeps ∷ es) r r' h = affect_forgets es r r' h
affect_forgets (hides ∷ es) r r' h = affect_forgets es (affect hides r) (affect hides r') h
affect_forgets (orphans ∷ es) r r' h = affect_forgets es (affect orphans r) (affect orphans r') h

pub affect_twice :
    (es : List Effect) (r : Option Listing) → affect_all es (affect_all es r) ≡ affect_all es r
affect_twice es r = elim (Bool-cases (lists_any es)) [
  | inl h ↦ affect_forgets es (affect_all es r) r h
  | inr h ↦ elim (all_or_IsQuiet es r h) [
    | inl same ↦ ap (affect_all es) same
    | inr q ↦ affect_quiet es (affect_all es r) h q
  ]
]

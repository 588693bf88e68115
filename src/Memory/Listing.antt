-- ===== src/Memory/Listing.antt =====
-- What the listings return.
use Prim.Native.Nat.{min}
use mathlib.Core.List.{Perm}
use mathlib.Core.List.Perm
use secure_ledger.Prelude.{
  ℕ, String, zero, suc, ◌-◌, ◌≤◌, ◌≡◌, refl, ap, none, List, [], ◌∷◌, ◌++◌, length, drop,
  length-drop, arith, ok, ltb, Bool-cases, inl, inr, string_Eq,
}
use secure_ledger.Prelude.Int.{ℤ, pos, ◌≤ℤ◌}
use secure_ledger.Prelude.Map.{Map, lookup, lookup-insert}
use secure_ledger.Domain.{Posting, RiskEvent, Value}
use secure_ledger.Memory.{
  Store, normalise_limit, tail_of, insert_event, sort_events, copy_metadata, list_journal,
  list_risk_events,
}

-- A limit from 1 to 1000 is taken as it is; every other becomes one of those.
pub normalise_limit_bounds :
    (limit : ℤ)
    → (1 ≤ normalise_limit limit)
      × (normalise_limit limit ≤ 1000)
      × (pos 1 ≤ℤ limit → limit ≤ℤ pos 1000 → pos (normalise_limit limit) ≡ limit)
unfolding normalise_limit
normalise_limit_bounds limit = (ground arith, ground arith, λ h k. ground arith)

abbrev pub take : {A : Type 0} → ℕ → List A → List A
take zero xs = []
take (suc n) [] = []
take (suc n) (x ∷ xs) = x ∷ take n xs

pub take-append-drop : {A : Type 0} (n : ℕ) (xs : List A) → xs ≡ take n xs ++ drop n xs
take-append-drop zero xs = refl
take-append-drop (suc n) [] = refl
take-append-drop (suc n) (x ∷ xs) = ap (λ ys. x ∷ ys) (take-append-drop n xs)

-- Journal listings are the newest postings, oldest first: a suffix of the journal, of the length that
-- was asked for or the whole journal if that is shorter. The store does not change.
pub list_journal-tail :
    (limit : ℤ) (s : Store)
    → (items front : List Posting) × (list_journal none limit s ≡ (ok items, s))
      × (s.journal ≡ front ++ items)
      × (length items ≡ min (normalise_limit limit) (length s.journal))
unfolding list_journal tail_of
list_journal-tail limit s =
    let n = length s.journal - normalise_limit limit in
    (
      drop n s.journal,
      take n s.journal,
      refl,
      take-append-drop n s.journal,
      omega (arith, length-drop {0} n s.journal),
    )

-- Events in the order of their times.
abbrev pub Ordered : List RiskEvent → Type 0
Ordered [] = Unit {0}
Ordered (e ∷ []) = Unit {0}
Ordered (e ∷ f ∷ es) = (e.created_at ≤ f.created_at) × Ordered (f ∷ es)

insert_event-Ordered :
    (e : RiskEvent) (es : List RiskEvent) → Ordered es → Ordered (insert_event e es)
unfolding insert_event
insert_event-Ordered e [] h = tt
insert_event-Ordered e (f ∷ []) h = ground arith
insert_event-Ordered e (f ∷ g ∷ es) h = ground (arith, insert_event-Ordered e (g ∷ es) h.1)

insert_event-perm : (e : RiskEvent) (es : List RiskEvent) → Perm (insert_event e es) (e ∷ es)
unfolding insert_event
insert_event-perm e [] = Perm.refl (e ∷ [])
insert_event-perm e (f ∷ fs) = elim (Bool-cases (ltb f.created_at e.created_at)) [
  | inl later ↦ rw later (Perm.trans (Perm.cons f (insert_event-perm e fs)) (Perm.swap e f fs))
  | inr earlier ↦ rw earlier (Perm.refl (e ∷ f ∷ fs))
]

sort_events-Ordered : (es : List RiskEvent) → Ordered (sort_events es)
unfolding sort_events
sort_events-Ordered [] = tt
sort_events-Ordered (e ∷ es) = insert_event-Ordered e (sort_events es) (sort_events-Ordered es)

sort_events-perm : (es : List RiskEvent) → Perm (sort_events es) es
unfolding sort_events
sort_events-perm [] = Perm.refl []
sort_events-perm (e ∷ es) =
    Perm.trans (insert_event-perm e (sort_events es)) (Perm.cons e (sort_events-perm es))

-- Risk listings are the newest events, by the order in which they were recorded, sorted by their
-- times. The store does not change.
pub list_risk_events-sorted :
    (limit : ℤ) (s : Store)
    → (items : List RiskEvent) × (list_risk_events none limit s ≡ (ok items, s))
      × Ordered items
      × Perm items (tail_of (normalise_limit limit) s.risk)
unfolding list_risk_events
list_risk_events-sorted limit s = (
  sort_events (tail_of (normalise_limit limit) s.risk),
  refl,
  sort_events-Ordered _,
  sort_events-perm _,
)

-- The copy of an audit record's metadata has the same value under every key.
pub lookup-copy_metadata :
    (k : String) (m : Map String Value) → lookup k (copy_metadata m) ≡ lookup k m
unfolding copy_metadata lookup
lookup-copy_metadata k [] = refl
lookup-copy_metadata k ((j, v) ∷ m) =
    ground (arith, lookup-insert k j v (copy_metadata m), lookup-copy_metadata k m)

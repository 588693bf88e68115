-- ===== src/Memory/Lists.antt =====
-- The three listings of the in-memory store. Of the orders that `sort.Slice` may give to events of
-- one time, this is the one that keeps them as they stood.
use Prim.Native.Nat.{ℕ, ◌-◌}
use secure_ledger.Prelude.{List, [], ◌∷◌, length, drop, ltb, if◌then◌else◌}
use secure_ledger.Prelude.Int.{ℤ, pos, pos_part, ltb_ℤ, leb_ℤ}
use secure_ledger.Domain.{AuditRecord, RiskEvent}
use secure_ledger.Memory.Audit.{clone_audit}

-- `normaliseLimit`: a positive number of rows, 1000 at most.
unfoldable pub normalise_limit : ℤ → ℕ
normalise_limit limit =
    if leb_ℤ limit (pos 0) then 100 else if ltb_ℤ (pos 1000) limit then 1000 else pos_part limit

-- `in[max(0, len(in)-limit):]`, as in `tailPostings`.
unfoldable pub tail_of : {A : Type 0} → ℕ → List A → List A
tail_of limit xs = drop (length xs - limit) xs

-- The loop of `ListAudit`.
unfoldable pub clone_all : List AuditRecord → List AuditRecord
clone_all [] = []
clone_all (a ∷ as') = clone_audit a ∷ clone_all as'

-- Sorting by `CreatedAt`.
unfoldable pub insert_event : RiskEvent → List RiskEvent → List RiskEvent
insert_event e [] = e ∷ []
insert_event e (f ∷ fs) =
    if ltb f.created_at e.created_at then f ∷ insert_event e fs else e ∷ f ∷ fs

unfoldable pub sort_events : List RiskEvent → List RiskEvent
sort_events [] = []
sort_events (e ∷ es) = insert_event e (sort_events es)

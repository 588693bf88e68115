-- ===== src/Memory/History.antt =====
-- The journal, the audit trail and the risk events only grow.
use secure_ledger.Prelude.{◌≡◌, refl, sym, ap, ◌∙◌, subst, Option, none, some, List, [], ◌∷◌, ◌++◌}
use secure_ledger.Domain.{RiskEvent}
use mathlib.Core.List.{append-nil, append_assoc}
use secure_ledger.Memory.{
  Store, write_transfer, write_account, write_opening, append_risk, create_account, apply_transfer,
  Call, creates, transfers, step, run,
}
use secure_ledger.Memory.Cases.{
  TransferCase, refused, replayed, accepted, apply_transfer-cases, CreateCase, rejected, empty,
  funded, create_account-cases,
}

-- `ys` is `xs` with more behind it.
abbrev pub Extends : {A : Type 0} → List A → List A → Type 0
Extends {A} xs ys = (more : List A) × (ys ≡ xs ++ more)

Extends-refl : {A : Type 0} (xs : List A) → Extends xs xs
Extends-refl xs = ([], sym (append-nil xs))

Extends-trans :
    {A : Type 0} (xs : List A) {ys zs : List A} → Extends xs ys → Extends ys zs → Extends xs zs
Extends-trans xs (m, e) (n, f) = (m ++ n, f ∙ ap (λ l. l ++ n) e ∙ append_assoc xs m n)

pub record Grows (s s' : Store) : Type 0 where
  pub journal : Extends s.journal s'.journal
  pub audit : Extends s.audit s'.audit
  pub risk : Extends s.risk s'.risk

Grows-refl : (s : Store) → Grows s s
Grows-refl s = record {
  journal = Extends-refl s.journal;
  audit = Extends-refl s.audit;
  risk = Extends-refl s.risk;
}

Grows-trans : (s t u : Store) → Grows s t → Grows t u → Grows s u
Grows-trans s t u g h = record {
  journal = Extends-trans s.journal g.journal h.journal;
  audit = Extends-trans s.audit g.audit h.audit;
  risk = Extends-trans s.risk g.risk h.risk;
}

append_risk-Extends : (o : Option RiskEvent) (es : List RiskEvent) → Extends es (append_risk o es)
append_risk-Extends none es = Extends-refl es
append_risk-Extends (some e) es = (e ∷ [], refl)

step-Grows : (c : Call) (s : Store) → Grows s (step c s)
unfolding step
step-Grows (creates ctx input) s = go (create_account-cases ctx input s)
  where
    go : CreateCase ctx input s → Grows s (create_account ctx input s).1
    go (rejected e eq) = subst (Grows s) (sym (ap (λ x. x.1) eq)) (Grows-refl s)
    go (empty valid zero eq) = subst (Grows s) (sym (ap (λ x. x.1) eq)) (
        unfold write_account in
        record { journal = Extends-refl s.journal; audit = (_, refl); risk = Extends-refl s.risk })
    go (funded a valid positive o eq) = subst (Grows s) (sym (ap (λ x. x.1) eq)) (
        unfold write_account write_opening in
        record { journal = (_, refl); audit = (_, refl); risk = Extends-refl s.risk })
step-Grows (transfers ctx input) s = go (apply_transfer-cases ctx input s)
  where
    go : TransferCase ctx input s → Grows s (apply_transfer ctx input s).1
    go (refused e eq) = subst (Grows s) (sym (ap (λ x. x.1) eq)) (Grows-refl s)
    go (replayed t known same eq) = subst (Grows s) (sym (ap (λ x. x.1) eq)) (Grows-refl s)
    go (accepted p a eq) = subst (Grows s) (sym (ap (λ x. x.1) eq)) (
        unfold write_transfer in
        record {
          journal = (_, refl);
          audit = (_, refl);
          risk = append_risk-Extends input.risk s.risk;
        })

-- Whatever calls follow, the journal, the audit trail and the risk events of a store are kept, in
-- their order, and only get more behind them.
pub run-Grows : (cs : List Call) (s : Store) → Grows s (run cs s)
unfolding run
run-Grows [] s = Grows-refl s
run-Grows (c ∷ cs) s =
    Grows-trans s (step c s) (run cs (step c s)) (step-Grows c s) (run-Grows cs (step c s))

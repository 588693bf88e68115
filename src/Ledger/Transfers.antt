-- ===== src/Ledger/Transfers.antt =====
-- What a successful transfer of the service has done to the in-memory store.
use secure_ledger.Prelude.{◌≡◌, sym, ap, subst, ◌∙◌, Bool, true, false, Option, Context, ok}
use secure_ledger.Domain.{Principal, RiskEvent}
use secure_ledger.Store.{ApplyTransferInput, TransferResult}
use secure_ledger.Memory.{Store, apply_transfer}
use secure_ledger.Memory.Cases.{TransferCase, refused, replayed, accepted, apply_transfer-cases}
use secure_ledger.Memory.Sound.{IsSound}
use secure_ledger.Memory.Effects.{Moved, apply_transfer-Moved}
use secure_ledger.App.{Config, Surroundings, TransferCommand, transfer}
use secure_ledger.App.Applied.{Asked, transfer-Applied}
use secure_ledger.Ledger.{memory_service}
use secure_ledger.Ledger.Answers.{repository-IsAtomicRepository}

-- A replay writes nothing.
replayed-unchanged :
    (ctx : Context) (input : ApplyTransferInput) (s : Store) (r : TransferResult)
    → (apply_transfer ctx input s).0 ≡ ok r
    → r.replayed ≡ true
    → (apply_transfer ctx input s).1 ≡ s
replayed-unchanged ctx input s r h k = go (apply_transfer-cases ctx input s)
  where
    go : TransferCase ctx input s → (apply_transfer ctx input s).1 ≡ s
    go (refused e eq) = ap (λ x. x.1) eq
    go (replayed t known same eq) = ap (λ x. x.1) eq
    go (accepted p a eq) = cc (h, k, ap (λ x. x.0) eq)

-- What the command asked for was done now, if the result is new, or before, if it is a replay.
pub record HasPaid (actor : Principal) (cmd : TransferCommand) (r : TransferResult) (s s' : Store)
    : Type 0 where
  pub input : ApplyTransferInput
  pub asked : Asked actor cmd input
  pub moved : r.replayed ≡ false → Moved input s s'
  pub unchanged : r.replayed ≡ true → s' ≡ s

-- With a sound in-memory store, a transfer of the service that succeeds has either moved the amount that
-- the command asks for, once, between the two accounts that it names, in the name of the actor, or is
-- reported as a replay and has changed nothing.
pub transfer-HasPaid :
    {N : Type 0} (notifier : Option (RiskEvent → N → Bool × N)) (cfg : Config) (ctx : Context)
    (env : Surroundings) (actor : Principal) (cmd : TransferCommand) (w : Store × N)
    (r : TransferResult)
    → IsSound w.0
    → (transfer (memory_service notifier cfg) ctx env actor cmd w).0 ≡ ok r
    → HasPaid actor cmd r w.0 (transfer (memory_service notifier cfg) ctx env actor cmd w).1.0
transfer-HasPaid notifier cfg ctx env actor cmd w r sound h =
    let a =
      transfer-Applied (memory_service notifier cfg) repository-IsAtomicRepository.get_account ctx
        env actor cmd w r h in
    record {
      input = a.input;
      asked = a.asked;
      moved = λ n.
          subst (Moved a.input w.0) (sym a.after)
            (apply_transfer-Moved ctx a.input w.0 r sound a.granted n);
      unchanged = λ y. a.after ∙ replayed-unchanged ctx a.input w.0 r a.granted y;
    }

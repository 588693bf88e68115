-- ===== src/App/Keeps.antt =====
-- The service changes its repository by the repository's own methods alone, so what these keep it
-- keeps.
use secure_ledger.Prelude.{String, Bool, Option, none, some, Context}
use secure_ledger.Prelude.Int64.{IsInt64}
use secure_ledger.Prelude.Exec.{Exec, Keeps, Keeps-bind, Keeps-lift, Keeps-pure}
use secure_ledger.Domain.{Principal, RiskEvent}
use secure_ledger.Store.{Repository, CreateAccountInput, ApplyTransferInput, TransferResult}
use secure_ledger.App.{
  Service, Surroundings, CreateAccountCommand, TransferCommand, on_repo, notify, create_account,
  transfer, build_account_input, build_account, trim_account_command,
}

-- What the repository's methods keep.
pub record RepositoryKeeps {S : Type 0} (repo : Repository S) (P : S → Type 0) : Type 0 where
  pub create_account :
      (ctx : Context) (input : CreateAccountInput)
      → IsInt64 input.account.balance_minor
      → Keeps P (repo.create_account ctx input)
  pub get_account : (ctx : Context) (id : String) → Keeps P (repo.get_account ctx id)
  pub apply_transfer :
      (ctx : Context) (input : ApplyTransferInput) → Keeps P (repo.apply_transfer ctx input)

on_repo-Keeps :
    {S N A : Type 0} {P : S → Type 0} (m : Exec S A)
    → Keeps P m
    → Keeps (λ (w : S × N). P w.0) (on_repo m)
on_repo-Keeps m k = record { at = λ w h. k.at w.0 h }

notify-Keeps :
    {S N : Type 0} (P : S → Type 0) (submit : Option (RiskEvent → N → Bool × N))
    (risk : Option RiskEvent) (result : TransferResult)
    → Keeps (λ (w : S × N). P w.0) (notify submit risk result)
unfolding notify
notify-Keeps P none risk result = record { at = λ w h. h }
notify-Keeps P (some submit) none result = record { at = λ w h. h }
notify-Keeps P (some submit) (some event) result = record { at = λ w h. h }

module _ {S N : Type 0} (service : Service S N) (P : S → Type 0)
    (keeps : RepositoryKeeps service.repo P) where
  pub transfer-Keeps :
      (ctx : Context) (env : Surroundings) (actor : Principal) (cmd : TransferCommand)
      → Keeps (λ (w : S × N). P w.0) (transfer service ctx env actor cmd)
  unfolding transfer
  transfer-Keeps ctx env actor cmd = Keeps-bind _ _ (Keeps-lift _) λ _.
      Keeps-bind _ _ (Keeps-lift _) λ _. Keeps-bind _ _ (Keeps-lift _) λ _.
        Keeps-bind _ _ (on_repo-Keeps _ (keeps.get_account ctx _)) λ from.
          Keeps-bind _ _ (Keeps-lift _) λ _.
            Keeps-bind _ _ (on_repo-Keeps _ (keeps.get_account ctx _)) λ to.
              Keeps-bind _ _ (Keeps-lift _) λ _.
                Keeps-bind _ _ (on_repo-Keeps _ (keeps.apply_transfer ctx _))
                  λ result. Keeps-bind _ _ (notify-Keeps P _ _ result) λ _. Keeps-pure _

-- A repository whose `CreateAccount` keeps something.
module _ {S N : Type 0} (service : Service S N) (P : S → Type 0)
    (creating : (ctx : Context) (input : CreateAccountInput)
      → IsInt64 input.account.balance_minor
      → Keeps P (service.repo.create_account ctx input)) where
  pub create_account-Keeps :
      (ctx : Context) (env : Surroundings) (actor : Principal) (cmd : CreateAccountCommand)
      → IsInt64 cmd.opening_balance_minor
      → Keeps (λ (w : S × N). P w.0) (create_account service ctx env actor cmd)
  unfolding create_account
  create_account-Keeps ctx env actor cmd typed = Keeps-bind _ _ (Keeps-lift _) λ _.
      Keeps-bind _ _ (Keeps-lift _) λ _. Keeps-bind _ _ (Keeps-lift _) λ _.
        Keeps-bind _ _
          (on_repo-Keeps _ (
            creating ctx
              (build_account_input env actor (build_account env (trim_account_command cmd)))
              (unfold build_account_input build_account trim_account_command in typed)))
          λ _. Keeps-pure _

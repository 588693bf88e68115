-- ===== src/App/Applied.antt =====
-- A transfer of the service that succeeds is one transfer of the repository.
use secure_ledger.Prelude.{
  String, ◌≡◌, refl, sym, ◌∙◌, subst, Bool, Option, none, some, Context, Result, ok, err,
}
use secure_ledger.Prelude.Exec.{Exec, pure, lift, continue, ◌>>=◌}
use secure_ledger.Prelude.Text.{trim_space}
use secure_ledger.Domain.{Principal, Account, RiskEvent}
use secure_ledger.Store.{Repository, ApplyTransferInput, TransferResult}
use secure_ledger.App.{
  Service, Surroundings, TransferCommand, on_repo, notify, transfer, build_transfer_input,
  build_transfer, trim_transfer_command,
}
use secure_ledger.App.Clean.{Reads}

-- The input is for the transfer that the actor's command asks for.
pub record Asked (actor : Principal) (cmd : TransferCommand) (input : ApplyTransferInput)
    : Type 0 where
  pub actor_id : input.transfer.actor_id ≡ actor.id
  pub key : input.transfer.idempotency_key ≡ trim_space cmd.idempotency_key
  pub amount : input.transfer.intent.amount_minor ≡ cmd.amount_minor
  pub from : input.transfer.intent.from_account_id ≡ trim_space cmd.from_account_id
  pub to : input.transfer.intent.to_account_id ≡ trim_space cmd.to_account_id

-- The repository's transfer that gave the result, and left the repository as it is now.
pub record Applied {S : Type 0} (repo : Repository S) (ctx : Context) (actor : Principal)
    (cmd : TransferCommand) (r : TransferResult) (s s' : S) : Type 0 where
  pub input : ApplyTransferInput
  pub asked : Asked actor cmd input
  pub granted : (repo.apply_transfer ctx input s).0 ≡ ok r
  pub after : s' ≡ (repo.apply_transfer ctx input s).1

build_transfer_input-Asked :
    (env : Surroundings) (actor : Principal) (cmd : TransferCommand) (from : Account)
    (risk : Option RiskEvent)
    → Asked actor cmd
        (build_transfer_input env (build_transfer env actor (trim_transfer_command cmd) from) risk)
unfolding build_transfer_input build_transfer trim_transfer_command
build_transfer_input-Asked env actor cmd from risk = record {
  actor_id = refl;
  key = refl;
  amount = refl;
  from = refl;
  to = refl;
}

module _ {S N : Type 0} (repo : Repository S) (ctx : Context) (actor : Principal)
    (cmd : TransferCommand) where
  record Applies (m : Exec (S × N) TransferResult) : Type 0 where
    pub at :
        (w : S × N) (r : TransferResult)
        → (m w).0 ≡ ok r
        → Applied repo ctx actor cmd r w.0 (m w).1.0

  Applies-lift :
      {A : Type 0} (c : Result A) (f : A → Exec (S × N) TransferResult)
      → ((a : A) → Applies (f a))
      → Applies (lift c >>= f)
  unfolding ◌>>=◌
  Applies-lift (ok a) f h = record { at = λ w r x. (h a).at w r x }
  Applies-lift (err c) f h = record { at = λ w r x. cc }

  Applies-read :
      {A : Type 0} (m : Exec S A) (f : A → Exec (S × N) TransferResult)
      → Reads m
      → ((a : A) → Applies (f a))
      → Applies (on_repo m >>= f)
  unfolding ◌>>=◌
  Applies-read {A} m f reads h = record {
    at = λ w r x. let (c, s') = m w.0 in go c s' w.1 w.0 r x (reads.at w.0);
  }
    where
      go :
          (c : Result A) (s' : S) (n : N) (s : S) (r : TransferResult)
          → (continue c f (s', n)).0 ≡ ok r
          → s' ≡ s
          → Applied repo ctx actor cmd r s (continue c f (s', n)).1.0
      go (ok a) s' n s r x e =
          subst (λ t. Applied repo ctx actor cmd r t (f a (s', n)).1.0) e ((h a).at (s', n) r x)
      go (err c) s' n s r x e = cc

  -- What stands behind the repository's transfer neither fails nor touches the repository.
  abbrev finish :
      Option (RiskEvent → N → Bool × N)
      → Option RiskEvent
      → TransferResult
      → Exec (S × N) TransferResult
  finish submit risk r = notify submit risk r >>= λ _. pure r

  finish_lem :
      (submit : Option (RiskEvent → N → Bool × N)) (risk : Option RiskEvent) (r : TransferResult)
      (w : S × N)
      → ((finish submit risk r w).0 ≡ ok r) × ((finish submit risk r w).1.0 ≡ w.0)
  unfolding ◌>>=◌ notify
  finish_lem none risk r w = (refl, refl)
  finish_lem (some submit) none r w = (refl, refl)
  finish_lem (some submit) (some e) r w = (refl, refl)

  Applies-last :
      (submit : Option (RiskEvent → N → Bool × N)) (risk : Option RiskEvent)
      (input : ApplyTransferInput)
      → Asked actor cmd input
      → Applies (on_repo (repo.apply_transfer ctx input) >>= finish submit risk)
  unfolding ◌>>=◌
  Applies-last submit risk input asked = record {
    at = λ w r x. go (repo.apply_transfer ctx input w.0).0 w r refl x;
  }
    where
      go :
          (c : Result TransferResult) (w : S × N) (r : TransferResult)
          → (repo.apply_transfer ctx input w.0).0 ≡ c
          → (continue c (finish submit risk) ((repo.apply_transfer ctx input w.0).1, w.1)).0 ≡ ok r
          → Applied repo ctx actor cmd r w.0
              (continue c (finish submit risk) ((repo.apply_transfer ctx input w.0).1, w.1)).1.0
      go (ok a) w r e x =
          let (same, kept) =
            finish_lem submit risk a ((repo.apply_transfer ctx input w.0).1, w.1) in
          record { input = input; asked = asked; granted = e ∙ sym same ∙ x; after = kept }
      go (err c) w r e x = cc

-- A service over a repository whose `GetAccount` changes nothing.
module _ {S N : Type 0} (service : Service S N)
    (reads : (ctx : Context) (id : String) → Reads (service.repo.get_account ctx id)) where
  transfer-Applies :
      (ctx : Context) (env : Surroundings) (actor : Principal) (cmd : TransferCommand)
      → Applies service.repo ctx actor cmd (transfer service ctx env actor cmd)
  unfolding transfer
  transfer-Applies ctx env actor cmd = Applies-lift _ _ _ _ _ _ λ _. Applies-lift _ _ _ _ _ _ λ _.
      Applies-lift _ _ _ _ _ _ λ _. Applies-read _ _ _ _ _ _ (reads ctx _) λ from.
        Applies-lift _ _ _ _ _ _ λ _. Applies-read _ _ _ _ _ _ (reads ctx _) λ to.
          Applies-lift _ _ _ _ _ _ λ _.
            Applies-last _ _ _ _ service.notifier _ _
              (build_transfer_input-Asked env actor cmd from _)

  pub transfer-Applied :
      (ctx : Context) (env : Surroundings) (actor : Principal) (cmd : TransferCommand) (w : S × N)
      (r : TransferResult)
      → (transfer service ctx env actor cmd w).0 ≡ ok r
      → Applied service.repo ctx actor cmd r w.0 (transfer service ctx env actor cmd w).1.0
  transfer-Applied ctx env actor cmd w r h = (transfer-Applies ctx env actor cmd).at w r h

-- ===== src/App/Access.antt =====
-- Who may do what: what a successful call of the service says of its actor and its command.
use secure_ledger.Prelude.{
  String, ◌≡◌, ◌≢◌, ap, sym, subst, ◌∙◌, ◌⊎◌, true, arith, eq_iff, ok, Context, ◌==◌, string_Eq,
  not, ◌||◌, raise_if, forbidden, invalid_input, transfer_limit,
}
use secure_ledger.Prelude.Int.{ℤ, pos, ◌≤ℤ◌, ltb_ℤ}
use secure_ledger.Prelude.Text.{trim_space}
use secure_ledger.Prelude.Exec.{pure, lift->>-eq-ok, >>=-eq-ok}
use secure_ledger.Domain.{
  Principal, Account, role_customer, role_operator, role_admin, role_auditor, is_valid,
}
use secure_ledger.Store.{TransferResult}
use secure_ledger.App.{
  Service, Surroundings, TransferCommand, CreateAccountCommand, transfer, create_account,
  get_account, check_owner, can_create, trim_transfer_command, transfer_command_invalid,
  build_account, trim_account_command, account_command_invalid,
}

-- The account that `get_account` of the repository gave, and what the actor may do with it.
pub record Owns (actor : Principal) (account : Account) : Type 0 where
  pub own : actor.role ≡ role_customer → account.owner_id ≡ actor.id

check_owner-Owns :
    (actor : Principal) (account : Account) → check_owner actor account ≡ ok tt → Owns actor account
unfolding check_owner
check_owner-Owns actor account h = record {
  own = λ e. ground (arith, eq_iff actor.role role_customer, eq_iff account.owner_id actor.id);
}

-- What a granted transfer says.
pub record IsAuthorised {S N : Type 0} (service : Service S N) (ctx : Context) (actor : Principal)
    (cmd : TransferCommand) (s : S) : Type 0 where
  pub valid : is_valid actor ≡ true
  pub no_auditor : actor.role ≢ role_auditor
  pub positive : pos 1 ≤ℤ cmd.amount_minor
  pub within_limit : cmd.amount_minor ≤ℤ service.cfg.max_transfer_minor
  pub from : Account
  pub read : (service.repo.get_account ctx (trim_space cmd.from_account_id) s).0 ≡ ok from
  pub owned : actor.role ≡ role_customer → from.owner_id ≡ actor.id

-- The tests before the repository is called.
role_passes :
    (actor : Principal)
    → raise_if (not (is_valid actor) || actor.role == role_auditor) forbidden ≡ ok tt
    → (is_valid actor ≡ true) × (actor.role ≢ role_auditor)
role_passes actor h = ground (arith, eq_iff actor.role role_auditor)

amount_positive :
    (cmd : TransferCommand)
    → raise_if (transfer_command_invalid cmd) invalid_input ≡ ok tt
    → pos 1 ≤ℤ cmd.amount_minor
unfolding transfer_command_invalid
amount_positive cmd h = ground arith

amount_limited :
    (limit amount : ℤ) → raise_if (ltb_ℤ limit amount) transfer_limit ≡ ok tt → amount ≤ℤ limit
amount_limited limit amount h = ground arith

creator_passes :
    (actor : Principal)
    → raise_if (not (can_create actor)) forbidden ≡ ok tt
    → (is_valid actor ≡ true) × ((actor.role ≡ role_operator) ⊎ (actor.role ≡ role_admin))
unfolding can_create
creator_passes actor h =
    ground (arith, eq_iff actor.role role_operator, eq_iff actor.role role_admin)

balance_nonneg :
    (cmd : CreateAccountCommand)
    → raise_if (account_command_invalid cmd) invalid_input ≡ ok tt
    → pos 0 ≤ℤ cmd.opening_balance_minor
unfolding account_command_invalid
balance_nonneg cmd h = ground arith

returned : {S A : Type 0} (a : A) (s : S) {b : A} → (pure {S = S} a s).0 ≡ ok b → b ≡ a
unfolding pure
returned a s h = cc

-- A transfer that succeeds was asked for by a valid principal, no auditor, for a positive amount within
-- the service's limit; and a customer owned the source account when it was read.
pub transfer-IsAuthorised :
    {S N : Type 0} (service : Service S N) (ctx : Context) (env : Surroundings) (actor : Principal)
    (cmd : TransferCommand) (w : S × N) (r : TransferResult)
    → (transfer service ctx env actor cmd w).0 ≡ ok r
    → IsAuthorised service ctx actor cmd w.0
unfolding transfer trim_transfer_command
transfer-IsAuthorised service ctx env actor cmd w r h =
    let (role, h₁) = lift->>-eq-ok _ _ w h in
    let (command, h₂) = lift->>-eq-ok _ _ w h₁ in
    let (limit, h₃) = lift->>-eq-ok _ _ w h₂ in
    let (from, w', read, h₄) = >>=-eq-ok _ _ w h₃ in
    let (owner, _) = lift->>-eq-ok _ _ w' h₄ in
    record {
      valid = (role_passes actor role).0;
      no_auditor = (role_passes actor role).1;
      positive = amount_positive (trim_transfer_command cmd) command;
      within_limit = amount_limited service.cfg.max_transfer_minor cmd.amount_minor limit;
      from = from;
      read = ap (λ x. x.0) read;
      owned = (check_owner-Owns actor from owner).own;
    }

-- An account creation that succeeds was asked for by a valid operator or administrator, and returns an
-- account with the command's trimmed owner and currency and its opening balance, which is not negative.
pub create_account-IsAuthorised :
    {S N : Type 0} (service : Service S N) (ctx : Context) (env : Surroundings) (actor : Principal)
    (cmd : CreateAccountCommand) (w : S × N) (account : Account)
    → (create_account service ctx env actor cmd w).0 ≡ ok account
    → (is_valid actor ≡ true)
      × ((actor.role ≡ role_operator) ⊎ (actor.role ≡ role_admin))
      × (account ≡ build_account env (trim_account_command cmd))
      × (pos 0 ≤ℤ cmd.opening_balance_minor)
unfolding create_account trim_account_command
create_account-IsAuthorised service ctx env actor cmd w account h =
    let (role, h₁) = lift->>-eq-ok _ _ w h in
    let (command, h₂) = lift->>-eq-ok _ _ w h₁ in
    let (_, h₃) = lift->>-eq-ok _ _ w h₂ in
    let (_, w', _, h₄) = >>=-eq-ok _ _ w h₃ in
    (
      (creator_passes actor role).0,
      (creator_passes actor role).1,
      returned _ w' h₄,
      balance_nonneg (trim_account_command cmd) command,
    )

-- An account that is read was asked for by a valid principal, and a customer owns it.
pub get_account-Owns :
    {S N : Type 0} (service : Service S N) (ctx : Context) (actor : Principal) (id : String)
    (w : S × N) (account : Account)
    → (get_account service ctx actor id w).0 ≡ ok account
    → (is_valid actor ≡ true)
      × ((service.repo.get_account ctx (trim_space id) w.0).0 ≡ ok account)
      × (actor.role ≡ role_customer → account.owner_id ≡ actor.id)
unfolding get_account
get_account-Owns service ctx actor id w account h =
    let (valid, h₁) = lift->>-eq-ok _ _ w h in
    let (_, h₂) = lift->>-eq-ok _ _ w h₁ in
    let (found, w', read, h₃) = >>=-eq-ok _ _ w h₂ in
    let (owner, h₄) = lift->>-eq-ok _ _ w' h₃ in
    let same : account ≡ found = returned found w' h₄ in
    (
      ground arith,
      ap (λ x. x.0) read ∙ ap ok (sym same),
      subst (λ a. actor.role ≡ role_customer → a.owner_id ≡ actor.id) (sym same)
          (check_owner-Owns actor found owner).own,
    )

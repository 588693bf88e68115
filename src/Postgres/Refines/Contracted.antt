-- ===== src/Postgres/Refines/Contracted.antt =====
-- The PostgreSQL adapter keeps to the contract of a repository.
use secure_ledger.Prelude.{
  String, ◌≡◌, refl, sym, ap, ◌∙◌, subst, false, Option, none, some, Bool-cases, inl, inr, arith,
  Context, ok, string_Eq, or_raise, not_found,
}
use secure_ledger.Prelude.Exec.{asks, lift, ◌>>=◌}
use secure_ledger.Prelude.Map.{lookup}
use secure_ledger.Domain.{Account}
use secure_ledger.Store.{CreateAccountInput, ApplyTransferInput}
use secure_ledger.Contract.{holding_of, IsLedger}
use secure_ledger.Postgres.{
  Server, Tables, AccountRow, Connection, get_account, repository, customer, is_retryable,
}
use secure_ledger.Postgres.Retry.Methods.{passing_transfer, apply_transfer-IsSound}
use secure_ledger.Postgres.Sound.{IsSound}
use secure_ledger.Postgres.Sound.Actions.{acts-IsSound}
use secure_ledger.Postgres.Refines.{view, view_row}
use secure_ledger.Postgres.Refines.Ledger.{
  AreShared, served_transfer-Answered, served_account-Opened, transfer-err,
}
use secure_ledger.Postgres.Refines.Others.{
  Between, Found, FoundCommitted, seen-Between, acts-IsPaid,
}

pub record IsShared (server : Server) (c : Connection) : Type 0 where
  pub creating :
      (ctx : Context) (input : CreateAccountInput)
      → AreShared server is_retryable (c.creating ctx input)
  pub transferring :
      (ctx : Context) (input : ApplyTransferInput)
      → AreShared server passing_transfer (c.transferring ctx input)

get_account-same :
    (server : Server) (reply : Context) (id : String) (t : Tables)
    → (get_account server reply id t).1 ≡ t
unfolding get_account lift asks ◌>>=◌
get_account-same server none id t = refl
get_account-same server (some e) id t = refl

customer_view :
    (server : Server) (row : Option AccountRow) (a : Account)
    → or_raise (customer server row) not_found ≡ ok a
    → (view_row row ≡ some (holding_of a)) × (a.system ≡ false)
customer_view server none a h = cc
customer_view server (some r) a h = elim (Bool-cases r.account.system) [
  | inl system ↦ ground arith
  | inr outside ↦ (ground arith, ground arith)
]

get_account-found :
    (server : Server) (reply : Context) (id : String) (t : Tables) (a : Account)
    → (get_account server reply id t).0 ≡ ok a
    → ((view server t).accounts id ≡ some (holding_of a)) × (a.system ≡ false)
unfolding get_account lift asks ◌>>=◌
get_account-found server none id t a h = customer_view server (lookup id t.accounts) a h
get_account-found server (some e) id t a h = cc

-- What an attempt of a transfer may find, and the one that is answered.
abbrev pub Finds : Connection → Context → ApplyTransferInput → Tables → Tables → Type 0
Finds c ctx input = Found (c.transferring ctx input)

abbrev pub Commits : Connection → Context → ApplyTransferInput → Tables → Tables → Type 0
Commits c ctx input = FoundCommitted (c.transferring ctx input)

-- The PostgreSQL adapter is a ledger: on sound tables, among the transactions of others, a granted transfer or
-- account creation is the abstract one on the view of the tables that its committed attempt found, a
-- transfer that fails changes nothing of what it found or was booked and its reply lost, a read
-- finds what the view holds and changes nothing, and no transactions of others forget a payment.
pub repository-IsLedger :
    (server : Server) (c : Connection)
    → IsShared server c
    → IsLedger
        (repository server c)
        (view server)
        (IsSound server)
        (Between server)
        (Finds c)
        (Commits c)
repository-IsLedger server c shared = record {
  same = λ ctx id t. get_account-same server (c.reading ctx id) id t;
  found = λ ctx id t a h. get_account-found server (c.reading ctx id) id t a h;
  transfers = λ ctx input t r sound granted.
      served_transfer-Answered server (c.transferring ctx input) t input r
        (shared.transferring ctx input) sound granted;
  fails = λ ctx input t e sound failed.
      transfer-err server (c.transferring ctx input) t input e (shared.transferring ctx input) sound
        failed;
  creates = λ ctx input t typed sound granted.
      served_account-Opened server (c.creating ctx input) t input (shared.creating ctx input) typed
        sound granted;
  stays = λ ctx input t sound.
      let quiet = shared.transferring ctx input in
      apply_transfer-IsSound server (c.transferring ctx input) quiet.others quiet.typed
        quiet.between input t quiet.final sound;
  others = λ ctx input t s found.
      let quiet = shared.transferring ctx input in
      subst (Between server t) (sym found.3) (
        seen-Between server (c.transferring ctx input) quiet.others quiet.typed quiet.between 0
          found.0 t);
  goes_on = λ t t' sound moved.
      subst (IsSound server) (sym moved.2) (acts-IsSound server moved.0 t moved.1 sound);
  remembers = λ t t' actor key receipt sound moved paid.
      ap (λ s. (view server s).paid actor key) moved.2
      ∙ acts-IsPaid server actor key receipt moved.0 t moved.1 sound paid;
}

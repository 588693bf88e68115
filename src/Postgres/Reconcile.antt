-- ===== src/Postgres/Reconcile.antt =====
-- internal/store/postgres/reconcile.go: the comparison of the stored balances with the posting history,
-- on one snapshot of the tables.
pub mod Clean
pub mod Report
pub mod Reached
use Prim.Native.Nat.{ℕ, zero, suc}
use secure_ledger.Prelude.{
  String, Bool, true, false, not, ◌&&◌, ◌||◌, Option, none, some, List, [], ◌∷◌, length,
  if◌then◌else◌, ◌==◌, nat_Eq, string_Eq, Result, Done, ok, err, ◌>>=◌, ◌>>◌, raise_if,
  check_context, Context, database,
}
use secure_ledger.Prelude.Int.{ℤ, pos, ◌+ℤ◌, leb_ℤ}
use secure_ledger.Prelude.Int64.{min_int64, max_int64}
use secure_ledger.Prelude.Map.{Map}
use secure_ledger.Domain.{Time, is_zero}
use secure_ledger.Postgres.{Server, Tables, AccountRow, TransactionRow, PostingRow, values, sort_by}

pub record BalanceDifference : Type 0 where
  pub account_id : String
  pub currency : String
  pub stored_balance_minor : ℤ
  pub journal_balance_minor : ℤ

pub record ReconciliationReport : Type 0 where
  pub checked_at : Time
  pub accounts_checked : ℕ
  pub unbalanced_transaction_count : ℕ
  pub balance_differences : List BalanceDifference

-- `Clean`
unfoldable pub is_clean : ReconciliationReport → Bool
is_clean r = r.unbalanced_transaction_count == 0 && length r.balance_differences == 0

abbrev pub same_ℤ : ℤ → ℤ → Bool
same_ℤ a b = leb_ℤ a b && leb_ℤ b a

-- `COALESCE(sum(p.amount_minor), 0)` of the postings of an account.
abbrev pub posted : String → List PostingRow → ℤ
posted id [] = pos 0
posted id (p ∷ ps) = (if p.account_id == id then p.amount_minor else pos 0) +ℤ posted id ps

-- `count(p.id)` and `COALESCE(sum(p.amount_minor), 0)` of the postings of a transaction.
abbrev pub posting_count : String → List PostingRow → ℕ
posting_count id [] = 0
posting_count id (p ∷ ps) =
    if p.transaction_id == id then suc (posting_count id ps) else posting_count id ps

abbrev pub posting_sum : String → List PostingRow → ℤ
posting_sum id [] = pos 0
posting_sum id (p ∷ ps) =
    (if p.transaction_id == id then p.amount_minor else pos 0) +ℤ posting_sum id ps

-- The `HAVING` of the first query, and its count.
unfoldable pub is_defect : List PostingRow → TransactionRow → Bool
is_defect ps r =
    not (posting_count r.id ps == r.expected_postings) || not (same_ℤ (posting_sum r.id ps) (pos 0))

unfoldable pub count_defects : List PostingRow → List TransactionRow → ℕ
count_defects ps [] = 0
count_defects ps (r ∷ rs) =
    if is_defect ps r then suc (count_defects ps rs) else count_defects ps rs

-- The second query: its `HAVING`, its order, and the `::bigint` of a sum that may be none.
unfoldable pub differs : List PostingRow → AccountRow → Bool
differs ps r = not (same_ℤ r.account.balance_minor (posted r.account.id ps))

unfoldable pub differing : List PostingRow → List AccountRow → List AccountRow
differing ps [] = []
differing ps (r ∷ rs) = if differs ps r then r ∷ differing ps rs else differing ps rs

unfoldable pub scan_differences :
    List PostingRow → List AccountRow → Result (List BalanceDifference)
scan_differences ps [] = ok []
scan_differences ps (r ∷ rs) = do
  raise_if
      (not (leb_ℤ min_int64 (posted r.account.id ps) && leb_ℤ (posted r.account.id ps) max_int64))
      (database "22003" "")
  rest ← scan_differences ps rs
  ok (
      record {
        account_id = r.account.id;
        currency = r.account.currency;
        stored_balance_minor = r.account.balance_minor;
        journal_balance_minor = posted r.account.id ps;
      }
      ∷ rest)

-- The errors of the server at each step, if it has one.
pub record Replies : Type 0 where
  pub begin : Context
  pub accounts : Context
  pub journal : Context
  pub balances : Context
  pub commit : Context

-- `Reconcile`, of which `now` is `time.Now()`.
unfoldable pub reconcile :
    Server → Replies → (now checked_at : Time) → Tables → Result ReconciliationReport
reconcile server replies now checked_at t = do
  check_context replies.begin
  check_context replies.accounts
  check_context replies.journal
  check_context replies.balances
  differences ← scan_differences t.postings (
      sort_by (λ (a b : AccountRow). server.before a.account.id b.account.id)
        (differing t.postings (values t.accounts)))
  check_context replies.commit
  ok (record {
    checked_at = if is_zero checked_at then now else checked_at;
    accounts_checked = length t.accounts;
    unbalanced_transaction_count = count_defects t.postings (values t.transactions);
    balance_differences = differences;
  })

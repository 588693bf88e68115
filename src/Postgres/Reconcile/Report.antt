-- ===== src/Postgres/Reconcile/Report.antt =====
-- What a report says of the tables, and what it says of tables that only the adapter wrote.
use secure_ledger.Prelude.{
  String, ◌≡◌, sym, ap, ◌∙◌, ◌↔◌, true, some, [], length, arith, nat_Eq, string_Eq, ok, >>=-eq-ok,
  check_context,
}
use secure_ledger.Prelude.Map.{lookup, Distinct, All-lookup}
use secure_ledger.Domain.{Time}
use secure_ledger.Postgres.{Server, Tables, AccountRow, TransactionRow, values}
use secure_ledger.Postgres.Reconcile.{
  ReconciliationReport, Replies, reconcile, is_clean, posted, count_defects, differing,
  scan_differences,
}
use secure_ledger.Postgres.Reconcile.Clean.{
  Agrees, values-All, found-All, length-sort_by, length-scan, differing-Agrees, Agrees-differing,
  defects-IsBalanced, IsBalanced-defects,
}
use secure_ledger.Postgres.Sound.{IsBalanced}

-- The stored balances are the sums of the postings, and every transaction is balanced.
pub record AreBooks (t : Tables) : Type 0 where
  pub balances :
      (id : String) (r : AccountRow)
      → lookup id t.accounts ≡ some r
      → r.account.balance_minor ≡ posted id t.postings
  pub transactions :
      (id : String) (r : TransactionRow)
      → lookup id t.transactions ≡ some r
      → IsBalanced r t.postings

module _ (server : Server) (replies : Replies) (now checked_at : Time) (t : Tables)
    (report : ReconciliationReport) (one_account : Distinct t.accounts)
    (one_transaction : Distinct t.transactions)
    (keyed : (id : String) (r : AccountRow)
      → lookup id t.accounts ≡ some r
      → r.account.id ≡ id) where
  -- What a report counts.
  counted :
      reconcile server replies now checked_at t ≡ ok report
      → (report.unbalanced_transaction_count ≡ count_defects t.postings (values t.transactions))
        × (length report.balance_differences ≡ length (differing t.postings (values t.accounts)))
  unfolding reconcile
  counted h =
      let (_, _, h₁) = >>=-eq-ok (check_context replies.begin) _ h in
      let (_, _, h₂) = >>=-eq-ok (check_context replies.accounts) _ h₁ in
      let (_, _, h₃) = >>=-eq-ok (check_context replies.journal) _ h₂ in
      let (_, _, h₄) = >>=-eq-ok (check_context replies.balances) _ h₃ in
      let (ds, scanned, h₅) = >>=-eq-ok (scan_differences t.postings _) _ h₄ in
      let (_, _, h₆) = >>=-eq-ok (check_context replies.commit) _ h₅ in
      let same =
        length-scan t.postings _ ds scanned
        ∙ length-sort_by _ (differing t.postings (values t.accounts)) in
      (ground arith, ground (arith, same))

  books :
      (count_defects t.postings (values t.transactions) ≡ 0)
      → (length (differing t.postings (values t.accounts)) ≡ 0)
      → AreBooks t
  books d b = record {
    balances = λ id r found.
        found-All (Agrees t.postings) id r t.accounts
          (differing-Agrees t.postings (values t.accounts) b) found
        ∙ ap (λ k. posted k t.postings) (keyed id r found);
    transactions = λ id r found.
        found-All (λ x. IsBalanced x t.postings) id r t.transactions
          (defects-IsBalanced t.postings (values t.transactions) d) found;
  }

  pub no_defects : AreBooks t → count_defects t.postings (values t.transactions) ≡ 0
  no_defects b = IsBalanced-defects t.postings (values t.transactions) (
      values-All (λ x. IsBalanced x t.postings) t.transactions
        (All-lookup (λ _ x. IsBalanced x t.postings) t.transactions one_transaction b.transactions))

  pub no_difference : AreBooks t → differing t.postings (values t.accounts) ≡ []
  no_difference b = Agrees-differing t.postings (values t.accounts) (
      values-All (Agrees t.postings) t.accounts (
        All-lookup (λ _ x. Agrees t.postings x) t.accounts one_account
          (λ id r found.
            b.balances id r found ∙ ap (λ k. posted k t.postings) (sym (keyed id r found)))))

  -- On any tables whose primary keys hold, however their balances and postings came about, a report is
  -- clean exactly when every stored balance is the sum of the account's postings and every transaction
  -- has the postings that it expects, which cancel out.
  pub is_clean_iff :
      reconcile server replies now checked_at t ≡ ok report → (is_clean report ≡ true) ↔ AreBooks t
  unfolding is_clean
  is_clean_iff h =
      let (d, b) = counted h in
      (
        λ clean. books (ground arith) (ground arith),
        λ sound. ground (arith, no_defects sound, ap length (no_difference sound)),
      )

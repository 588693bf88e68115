-- ===== src/Postgres/Sound/Entry.antt =====
-- A double entry, whichever method of the adapter books it: two rows of accounts move by its two
-- postings, and a transaction that was not there stands behind them.
use secure_ledger.Prelude.{
  String, ◌+◌, ◌≡◌, ◌≢◌, sym, ap, subst, ◌∙◌, true, false, some, [], ◌∷◌, ◌++◌, Bool-cases, inl,
  inr, arith, eq_iff, ◌==◌, string_Eq, if◌then◌else◌,
}
use secure_ledger.Prelude.Int.{pos, ◌+ℤ◌, ◌≤ℤ◌, int_laws}
use secure_ledger.Prelude.Int64.{IsInt64}
use secure_ledger.Prelude.Map.{lookup, insert, contains, Distinct, lookup-insert, insert-Distinct}
use secure_ledger.Postgres.{
  transfer_fingerprint, Server, Tables, AccountRow, TransactionRow, PostingRow, IntentRow,
  stored_transfer,
}
use secure_ledger.Postgres.Reconcile.{posted, posting_count, posting_sum}
use secure_ledger.Postgres.Sound.{IsSound, IsBalanced, balance_of}
use secure_ledger.Postgres.Sound.Postings.{
  posted-append, posting_count-append, posting_sum-append, no_sum,
}

-- One of the two accounts: its row after the entry.
pub record IsSide (t : Tables) (p : PostingRow) (r : AccountRow) : Type 0 where
  pub keyed : r.account.id ≡ p.account_id
  pub in_range : IsInt64 r.account.balance_minor
  pub solvent : r.account.system ≡ false → pos 0 ≤ℤ r.account.balance_minor
  pub moved : r.account.balance_minor ≡ balance_of p.account_id t.accounts +ℤ p.amount_minor

pub record IsEntry (server : Server) (t t' : Tables) (r : TransactionRow) (p q : PostingRow)
    (a b : AccountRow) : Type 0 where
  pub first : IsSide t p a
  pub second : IsSide t q b
  pub two_accounts : p.account_id ≢ q.account_id
  pub cancel : p.amount_minor +ℤ q.amount_minor ≡ pos 0
  pub first_transaction : p.transaction_id ≡ r.id
  pub second_transaction : q.transaction_id ≡ r.id
  pub expected : r.expected_postings ≡ 2
  pub fresh : contains r.id t.transactions ≡ false
  pub one_account : Distinct t'.accounts
  pub accounts :
      (id : String)
      → lookup id t'.accounts ≡ (
          if id == q.account_id
          then some b
          else if id == p.account_id
          then some a
          else lookup id t.accounts)
  pub transactions : t'.transactions ≡ insert r.id r t.transactions
  pub postings : t'.postings ≡ t.postings ++ p ∷ q ∷ []
  pub intents : (id : String) → id ≢ r.id → lookup id t'.intents ≡ lookup id t.intents
  pub fingerprint :
      (key : String) (i : IntentRow)
      → lookup r.id t'.intents ≡ some i
      → i.request_fingerprint
        ≡ transfer_fingerprint server r.actor_id (stored_transfer server r key i).intent

module _ (server : Server) (t t' : Tables) (r : TransactionRow) (p q : PostingRow)
    (a b : AccountRow) (sound : IsSound server t) (e : IsEntry server t t' r p q a b) where
  row :
      (id : String)
      → lookup id t'.transactions ≡ (if id == r.id then some r else lookup id t.transactions)
  row id = ap (λ m. lookup id m) e.transactions ∙ lookup-insert id r.id r t.transactions

  keyed : (id : String) (x : AccountRow) → lookup id t'.accounts ≡ some x → x.account.id ≡ id
  keyed id x h = ground (
    arith,
    e.accounts id,
    eq_iff id q.account_id,
    eq_iff id p.account_id,
    e.first.keyed,
    e.second.keyed,
    sound.keyed id x,
  )

  transactions_keyed :
      (id : String) (x : TransactionRow) → lookup id t'.transactions ≡ some x → x.id ≡ id
  transactions_keyed id x h = ground (arith, row id, eq_iff id r.id, sound.transactions_keyed id x)

  in_range :
      (id : String) (x : AccountRow)
      → lookup id t'.accounts ≡ some x
      → IsInt64 x.account.balance_minor
  in_range id x h =
      ground (arith, e.accounts id, e.first.in_range, e.second.in_range, sound.in_range id x)

  solvent :
      (id : String) (x : AccountRow)
      → lookup id t'.accounts ≡ some x
      → x.account.system ≡ false
      → pos 0 ≤ℤ x.account.balance_minor
  solvent id x h n =
      ground (arith, e.accounts id, e.first.solvent, e.second.solvent, sound.solvent id x)

  -- The balances move by what is posted.
  moved :
      (id : String) → balance_of id t'.accounts ≡ balance_of id t.accounts +ℤ posted id (p ∷ q ∷ [])
  moved id = elim (Bool-cases (id == q.account_id)) [
    | inl is_second ↦
        let same : id ≡ q.account_id = (eq_iff id q.account_id).0 is_second in
        let back : (q.account_id == id) ≡ true = (eq_iff q.account_id id).1 (sym same) in
        let other : (p.account_id == id) ≡ false =
          ground (arith, eq_iff p.account_id id, e.two_accounts) in
        let held : balance_of q.account_id t.accounts ≡ balance_of id t.accounts =
          ap (λ k. balance_of k t.accounts) (sym same) in
        rw (e.accounts id, is_second, back, other, e.second.moved, held) (omega int_laws)
    | inr not_second ↦ elim (Bool-cases (id == p.account_id)) [
      | inl is_first ↦
          let same : id ≡ p.account_id = (eq_iff id p.account_id).0 is_first in
          let back : (p.account_id == id) ≡ true = (eq_iff p.account_id id).1 (sym same) in
          let other : (q.account_id == id) ≡ false =
            ground (arith, eq_iff q.account_id id, e.two_accounts) in
          let held : balance_of p.account_id t.accounts ≡ balance_of id t.accounts =
            ap (λ k. balance_of k t.accounts) (sym same) in
          rw (e.accounts id, not_second, is_first, back, other, e.first.moved, held)
            (omega int_laws)
      | inr not_first ↦
          let first : (p.account_id == id) ≡ false =
            ground (arith, eq_iff p.account_id id, eq_iff id p.account_id) in
          let second : (q.account_id == id) ≡ false =
            ground (arith, eq_iff q.account_id id, eq_iff id q.account_id) in
          rw (e.accounts id, not_second, not_first, first, second) (omega int_laws)
    ]
  ]

  reconciled : (id : String) → balance_of id t'.accounts ≡ posted id t'.postings
  reconciled id =
      moved id
      ∙ ap (λ x. x +ℤ posted id (p ∷ q ∷ [])) (sound.reconciled id)
      ∙ sym (ap (posted id) e.postings ∙ posted-append id t.postings (p ∷ q ∷ []))

  counted :
      (id : String)
      → posting_count id t'.postings
        ≡ (if id == r.id then 2 + posting_count id t.postings else posting_count id t.postings)
  counted id =
      ap (posting_count id) e.postings
      ∙ ground (
        arith,
        posting_count-append id t.postings (p ∷ q ∷ []),
        eq_iff p.transaction_id id,
        eq_iff q.transaction_id id,
        eq_iff id r.id,
        e.first_transaction,
        e.second_transaction,
      )

  summed : (id : String) → posting_sum id t'.postings ≡ posting_sum id t.postings
  summed id =
      ap (posting_sum id) e.postings
      ∙ posting_sum-append id t.postings (p ∷ q ∷ [])
      ∙ elim (Bool-cases (r.id == id)) [
        | inl same ↦
            let both : p.amount_minor +ℤ (q.amount_minor +ℤ pos 0)
                ≡ p.amount_minor +ℤ q.amount_minor =
              omega int_laws in
            rw (e.first_transaction, e.second_transaction, same, both, e.cancel) (omega int_laws)
        | inr other ↦ rw (e.first_transaction, e.second_transaction, other) (omega int_laws)
      ]

  balanced :
      (id : String) (x : TransactionRow)
      → lookup id t'.transactions ≡ some x
      → IsBalanced x t'.postings
  unfolding contains
  balanced id x h =
      let named = transactions_keyed id x h in
      let count = ap (λ k. posting_count k t'.postings) named ∙ counted id in
      let sum = ap (λ k. posting_sum k t'.postings) named ∙ summed id in
      elim (Bool-cases (id == r.id)) [
        | inl same ↦
            let none_before : posting_count id t.postings ≡ 0 =
              ap (λ k. posting_count k t.postings) ((eq_iff id r.id).0 same)
              ∙ sound.unposted r.id e.fresh in
            record {
              complete = ground (arith, count, same, none_before, e.expected, row id);
              cancels = sum ∙ no_sum id t.postings none_before;
            }
        | inr other ↦
            let before : lookup id t.transactions ≡ some x = ground (arith, row id) in
            let old = sound.balanced id x before in
            let before_named = sound.transactions_keyed id x before in
            record {
              complete =
                  ground
                    (arith, count, old.complete, ap (λ k. posting_count k t.postings) before_named);
              cancels = sum ∙ ap (λ k. posting_sum k t.postings) (sym before_named) ∙ old.cancels;
            }
      ]

  -- What is no transaction after the entry was none before it.
  still_unknown :
      (id : String)
      → contains id t'.transactions ≡ false
      → (contains id t.transactions ≡ false) × (id ≢ r.id)
  unfolding contains
  still_unknown id h = (ground (arith, row id), λ same. ground (arith, row id, eq_iff id r.id))

  unposted : (id : String) → contains id t'.transactions ≡ false → posting_count id t'.postings ≡ 0
  unposted id h = ground (arith, still_unknown id h, eq_iff id r.id, counted id, sound.unposted id)

  unintended : (id : String) → contains id t'.transactions ≡ false → contains id t'.intents ≡ false
  unfolding contains
  unintended id h =
      let (before, other) = still_unknown id h in
      ground (arith, e.intents id other, sound.unintended id before)

  fingerprints :
      (id key : String) (x : TransactionRow) (i : IntentRow)
      → lookup id t'.transactions ≡ some x
      → lookup id t'.intents ≡ some i
      → i.request_fingerprint
        ≡ transfer_fingerprint server x.actor_id (stored_transfer server x key i).intent
  fingerprints id key x i h g = elim (Bool-cases (id == r.id)) [
    | inl same ↦
        let is_new : r ≡ x = ground (arith, row id) in
        let found : lookup r.id t'.intents ≡ some i =
          ap (λ k. lookup k t'.intents) (sym ((eq_iff id r.id).0 same)) ∙ g in
        e.fingerprint key i found
        ∙ ap (λ y. transfer_fingerprint server y.actor_id (stored_transfer server y key i).intent)
            is_new
    | inr other ↦
        let before : lookup id t.transactions ≡ some x = ground (arith, row id) in
        let kept : lookup id t.intents ≡ some i =
          sym (e.intents id (λ same. ground (arith, eq_iff id r.id))) ∙ g in
        sound.fingerprints id key x i before kept
  ]

  pub entry-IsSound : IsSound server t'
  entry-IsSound = record {
    one_account = e.one_account;
    one_transaction =
        subst Distinct (sym e.transactions)
          (insert-Distinct r.id r t.transactions sound.one_transaction);
    keyed = keyed;
    transactions_keyed = transactions_keyed;
    in_range = in_range;
    solvent = solvent;
    reconciled = reconciled;
    balanced = balanced;
    unposted = unposted;
    unintended = unintended;
    fingerprints = fingerprints;
  }

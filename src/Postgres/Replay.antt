-- ===== src/Postgres/Replay.antt =====
-- A transfer that is sent again finds what the first one stored.
use Prim.Native.Nat.{ℕ}
use secure_ledger.Prelude.{
  String, ◌≡◌, refl, sym, ap, subst, ◌∙◌, true, false, Option, none, some, List, [], ◌∷◌, arith,
  eq_iff, ◌==◌, string_Eq, nat_Eq, ok,
}
use secure_ledger.Prelude.Exec.{asks, lift, >>=-runs, ◌>>=◌}
use secure_ledger.Prelude.Map.{Map, lookup, insert, contains, lookup-insert_self}
use secure_ledger.Domain.{Account, Transfer}
use secure_ledger.Domain.Records.{intent_equal_iff}
use secure_ledger.Store.{ApplyTransferInput, TransferResult}
use secure_ledger.Postgres.{
  transfer_fingerprint, Server, Numbers, Tables, TransactionRow, IntentRow, apply_transfer_tx,
  answer, find_idempotent_transfer, find_rows, matches, check_intent, has_key, same_bytes,
  stored_transfer, transfer_transaction, intent_row, find_accounts, record_transfer,
}
use secure_ledger.Postgres.Sound.{IsSound}
use secure_ledger.Postgres.Sound.Booked.{
  IsBooked, find_accounts-AreAccounts, record_transfer-IsBooked,
}
use secure_ledger.Postgres.Sound.Kept.{lifted_ok, asked_ok}

same_bytes_refl : (bs : List ℕ) → same_bytes bs bs ≡ true
same_bytes_refl [] = refl
same_bytes_refl (b ∷ bs) = ground (arith, same_bytes_refl bs)

-- The join finds the one row of a key that no other row has.
pub find_rows-insert :
    (server : Server) (actor key : String) (r : TransactionRow) (i : IntentRow)
    (rows : Map String TransactionRow) (intents : Map String IntentRow)
    → contains r.id rows ≡ false
    → has_key actor (some key) rows ≡ false
    → matches server actor key r ≡ true
    → lookup r.id intents ≡ some i
    → find_rows server actor key (insert r.id r rows) intents ≡ some (r, i)
unfolding insert contains lookup
find_rows-insert server actor key r i [] intents f h m l = rw (m, l) refl
find_rows-insert server actor key r i ((j, x) ∷ rows) intents f h m l =
    let other : (r.id == j) ≡ false = ground arith in
    let unlike : matches server actor key x ≡ false = ground arith in
    rw (other, unlike)
      (find_rows-insert server actor key r i rows intents (ground arith) (ground arith) m l)

module _ (server : Server) (input : ApplyTransferInput) (from to : Account)
    (from_named : from.id ≡ input.transfer.intent.from_account_id)
    (to_named : to.id ≡ input.transfer.intent.to_account_id)
    (currency : from.currency ≡ input.transfer.currency) where
  -- What the stored rows say of the transfer: all but what the clock column rounds off.
  stored_again :
      stored_transfer server
        (transfer_transaction server input.transfer from)
        input.transfer.idempotency_key
        (intent_row server input.transfer from to)
      ≡ record input.transfer { created_at = server.stamp input.transfer.created_at }
  stored_again =
      let intent : record input.transfer.intent { from_account_id = from.id; to_account_id = to.id }
          ≡ input.transfer.intent =
        ap (λ k. record input.transfer.intent { from_account_id = k; to_account_id = to.id })
          from_named
        ∙ ap (λ k. record input.transfer.intent { to_account_id = k }) to_named in
      ap
        (λ j. record input.transfer {
          intent = j;
          currency = from.currency;
          created_at = server.stamp input.transfer.created_at;
        })
        intent
      ∙ ap
          (λ c. record input.transfer {
            currency = c;
            created_at = server.stamp input.transfer.created_at;
          })
          currency

  found_again :
      (s : Tables)
      → find_rows server input.transfer.actor_id input.transfer.idempotency_key s.transactions
          s.intents
        ≡ some (
          transfer_transaction server input.transfer from,
          intent_row server input.transfer from to,
        )
      → find_idempotent_transfer server input.transfer s
        ≡ ok (some (record input.transfer { created_at = server.stamp input.transfer.created_at }))
  unfolding find_idempotent_transfer
  found_again s h =
      let same : transfer_fingerprint server input.transfer.actor_id
            (record input.transfer.intent { from_account_id = from.id; to_account_id = to.id })
          ≡ transfer_fingerprint server input.transfer.actor_id input.transfer.intent =
        ap (λ (x : Transfer). transfer_fingerprint server input.transfer.actor_id x.intent)
          stored_again in
      rw
        (
          h,
          same,
          same_bytes_refl
              (transfer_fingerprint server input.transfer.actor_id input.transfer.intent),
        )
        (ap (λ x. ok (some x)) stored_again)

  answered_again :
      (s : Tables) (m : Numbers)
      → find_idempotent_transfer server input.transfer s
        ≡ ok (some (record input.transfer { created_at = server.stamp input.transfer.created_at }))
      → apply_transfer_tx server m input s ≡ (
        ok (record {
          transfer = record input.transfer { created_at = server.stamp input.transfer.created_at };
          replayed = true;
        }),
        s,
      )
  unfolding apply_transfer_tx answer check_intent asks lift ◌>>=◌
  answered_again s m h =
      rw (h, (intent_equal_iff input.transfer.intent input.transfer.intent).1 refl) refl

  replayed_after :
      (n m : Numbers) (t t' : Tables)
      → IsBooked server n input from to t t'
      → apply_transfer_tx server m input t' ≡ (
        ok (record {
          transfer = record input.transfer { created_at = server.stamp input.transfer.created_at };
          replayed = true;
        }),
        t',
      )
  replayed_after n m t t' booked =
      let row =
        find_rows-insert server input.transfer.actor_id input.transfer.idempotency_key
          (transfer_transaction server input.transfer from)
          (intent_row server input.transfer from to) t.transactions
          (insert input.transfer.id (intent_row server input.transfer from to) t.intents)
          booked.fresh booked.unkeyed
          (ground (
            arith,
            eq_iff input.transfer.actor_id input.transfer.actor_id,
            eq_iff input.transfer.idempotency_key input.transfer.idempotency_key,
          ))
          (lookup-insert_self input.transfer.id (intent_row server input.transfer from to)
            t.intents) in
      answered_again t' m (
        found_again t' (
          ap
            (λ rows.
              find_rows server input.transfer.actor_id input.transfer.idempotency_key rows
                t'.intents)
            booked.transactions
          ∙ ap
              (λ intents.
                find_rows server input.transfer.actor_id input.transfer.idempotency_key
                  (insert input.transfer.id (transfer_transaction server input.transfer from)
                    t.transactions)
                  intents)
              booked.intents
          ∙ row))

-- An answer out of the key's own rows is marked as a replay.
check_intent_replayed :
    (server : Server) (existing x : Transfer) (r : TransferResult)
    → check_intent server existing x ≡ ok r
    → r.replayed ≡ true
unfolding check_intent
check_intent_replayed server existing x r h = ground arith

module _ (server : Server) (n m : Numbers) (input : ApplyTransferInput) (t t' : Tables)
    (r : TransferResult) (sound : IsSound server t) (new : r.replayed ≡ false) where
  answer_replayed :
      (found : Option Transfer)
      → answer server n input found t ≡ (ok r, t')
      → apply_transfer_tx server m input t' ≡ (
        ok (record {
          transfer = record input.transfer { created_at = server.stamp input.transfer.created_at };
          replayed = true;
        }),
        t',
      )
  unfolding answer
  answer_replayed (some existing) h =
      cc (new, check_intent_replayed server existing input.transfer r (lifted_ok _ t t' h).0)
  answer_replayed none h =
      let ((from, to), t₁, step, h₁) = >>=-runs _ _ t h in
      let (found, same) = asked_ok (find_accounts server input.transfer) t t₁ step in
      let (booked, _) = record_transfer-IsBooked server n input from to t t' r (
        subst (λ (s : Tables). record_transfer server n input (from, to) s ≡ (ok r, t')) same h₁) in
      let here = find_accounts-AreAccounts server input.transfer t from to found in
      let from_named =
        ap (λ (a : Account). a.id) (sym here.from_account)
        ∙ sound.keyed _ here.from_row here.from_found in
      let to_named =
        ap (λ (a : Account). a.id) (sym here.to_account)
        ∙ sound.keyed _ here.to_row here.to_found in
      replayed_after server input from to from_named to_named here.its_currency n m t t' booked

  -- From sound tables, the transaction of a new transfer, run again on what it left, finds the transfer that it
  -- stored, with the fingerprint that it stored: the answer is the same transfer, of which only the
  -- time is what the column keeps of it, is marked as a replay, and changes nothing.
  pub apply_transfer_tx-replayed :
      apply_transfer_tx server n input t ≡ (ok r, t')
      → apply_transfer_tx server m input t' ≡ (
        ok (record {
          transfer = record input.transfer { created_at = server.stamp input.transfer.created_at };
          replayed = true;
        }),
        t',
      )
  unfolding apply_transfer_tx
  apply_transfer_tx-replayed h =
      let (existing, t₁, step, h₁) = >>=-runs _ _ t h in
      let (_, same) = asked_ok (find_idempotent_transfer server input.transfer) t t₁ step in
      answer_replayed existing
        (subst (λ (s : Tables). answer server n input existing s ≡ (ok r, t')) same h₁)

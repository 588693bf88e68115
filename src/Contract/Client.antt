-- ===== src/Contract/Client.antt =====
-- What follows for the clients of a repository from its contract alone.
use secure_ledger.Prelude.{
  String, ◌≡◌, sym, ap, ◌∙◌, true, some, string_Eq, arith, eq_iff, Context, ok, err, Error, ◌⊎◌,
  inl, inr,
}
use secure_ledger.Domain.{Transfer}
use secure_ledger.Store.{Repository, ApplyTransferInput, TransferResult}
use secure_ledger.Contract.{View, Receipt, receipt_of, Answered, newly, again, IsLedger}

-- A granted transfer stands in the ledger after it, under its actor and key.
pub receipt_after :
    (t : Transfer) (r : TransferResult) (v v' : View)
    → Answered t r v v'
    → v'.paid t.actor_id t.idempotency_key ≡ some (receipt_of r.transfer)
receipt_after t r v v' (newly n same ok_before after) =
    ap (λ (w : View). w.paid t.actor_id t.idempotency_key) after
    ∙ ground (arith, eq_iff t.actor_id t.actor_id, eq_iff t.idempotency_key t.idempotency_key, same)
receipt_after t r v v' (again y paid intent after) =
    ap (λ (w : View). w.paid t.actor_id t.idempotency_key) after ∙ paid

-- What is paid already is not paid anew.
pub repeats_receipt :
    (t : Transfer) (r : TransferResult) (receipt : Receipt) (v v' : View)
    → v.paid t.actor_id t.idempotency_key ≡ some receipt
    → Answered t r v v'
    → (r.replayed ≡ true) × (receipt_of r.transfer ≡ receipt) × (v' ≡ v)
repeats_receipt t r receipt v v' paid (newly n same payable after) = cc (paid, payable.unpaid)
repeats_receipt t r receipt v v' paid (again y stored intent after) =
    (y, ground (arith, paid, stored), after)

module _ {S : Type 0} (view : S → View) (good : S → Type 0) (between : S → S → Type 0)
    (repo : Repository S) (finds commits : Context → ApplyTransferInput → S → S → Type 0)
    (ledger : IsLedger repo view good between finds commits) where
  -- What was paid before others changed the repository is not paid anew after it.
  granted_again :
      (ctx : Context) (input : ApplyTransferInput) (s s' : S) (actor key : String)
      (receipt : Receipt) (r : TransferResult)
      → good s
      → (view s).paid actor key ≡ some receipt
      → between s s'
      → input.transfer.actor_id ≡ actor
      → input.transfer.idempotency_key ≡ key
      → (repo.apply_transfer ctx input s').0 ≡ ok r
      → (r.replayed ≡ true)
        × (receipt_of r.transfer ≡ receipt)
        × ((seen : S) × commits ctx input s' seen
            × (view (repo.apply_transfer ctx input s').1 ≡ view seen))
  granted_again ctx input s s' actor key receipt r sound paid moved its_actor its_key granted =
      let kept = ledger.remembers s s' actor key receipt sound moved paid in
      let sound' = ledger.goes_on s s' sound moved in
      let (seen, found, answered) = ledger.transfers ctx input s' r sound' granted in
      let moved' = ledger.others ctx input s' seen found in
      let still = ledger.remembers s' seen actor key receipt sound' moved' kept in
      let asked =
        ap (λ a. (view seen).paid a input.transfer.idempotency_key) its_actor
        ∙ ap (λ k. (view seen).paid actor k) its_key
        ∙ still in
      let (replay, same, unchanged) = repeats_receipt input.transfer r receipt _ _ asked answered in
      (replay, same, (seen, found, unchanged))

module _ {S : Type 0} (view : S → View) (good : S → Type 0) (between : S → S → Type 0)
    (repo repo' : Repository S)
    (finds commits finds' commits' : Context → ApplyTransferInput → S → S → Type 0)
    (ledger : IsLedger repo view good between finds commits)
    (ledger' : IsLedger repo' view good between finds' commits') where
  -- With repositories that keep to the contract of one ledger, a transfer is paid once: when one of them
  -- granted it, a granted transfer of the same actor and key on the other (or on the same), after
  -- whatever others have done in between, is reported as a replay of the same payment, and leaves the
  -- ledger as it found it.
  pub pays_once :
      (ctx ctx' : Context) (first second : ApplyTransferInput) (s s' : S) (r r' : TransferResult)
      → good s
      → (repo.apply_transfer ctx first s).0 ≡ ok r
      → between (repo.apply_transfer ctx first s).1 s'
      → second.transfer.actor_id ≡ first.transfer.actor_id
      → second.transfer.idempotency_key ≡ first.transfer.idempotency_key
      → (repo'.apply_transfer ctx' second s').0 ≡ ok r'
      → (r'.replayed ≡ true)
        × (receipt_of r'.transfer ≡ receipt_of r.transfer)
        × ((seen : S) × commits' ctx' second s' seen
            × (view (repo'.apply_transfer ctx' second s').1 ≡ view seen))
  pays_once ctx ctx' first second s s' r r' sound granted moved actor key granted' =
      let (_, _, answered) = ledger.transfers ctx first s r sound granted in
      granted_again view good between repo' finds' commits' ledger' ctx' second _ s' _ _ _ r'
        (ledger.stays ctx first s sound) (receipt_after first.transfer r _ _ answered) moved actor
        key granted'

  -- With repositories that keep to the contract of one ledger, trying again after an error never pays twice:
  -- when a transfer has failed on one of them, and one of the same actor and key is granted after
  -- whatever others have done in between, then the failed one left the ledger as it was or as one of
  -- its attempts found it, or the granted one is reported as a replay of the payment that the failed one
  -- left under the actor and the key, and leaves the ledger as it found it.
  pub pays_once_after_error :
      (ctx ctx' : Context) (first second : ApplyTransferInput) (s s' : S) (e : Error)
      (r : TransferResult)
      → good s
      → (repo.apply_transfer ctx first s).0 ≡ err e
      → between (repo.apply_transfer ctx first s).1 s'
      → second.transfer.actor_id ≡ first.transfer.actor_id
      → second.transfer.idempotency_key ≡ first.transfer.idempotency_key
      → (repo'.apply_transfer ctx' second s').0 ≡ ok r
      → ((seen : S) × ((seen ≡ s) ⊎ finds ctx first s seen)
          × (view (repo.apply_transfer ctx first s).1 ≡ view seen))
        ⊎ ((seen : S) × commits' ctx' second s' seen
            × (r.replayed ≡ true)
            × ((view (repo.apply_transfer ctx first s).1).paid first.transfer.actor_id
                  first.transfer.idempotency_key
                ≡ some (receipt_of r.transfer))
            × (view (repo'.apply_transfer ctx' second s').1 ≡ view seen))
  pays_once_after_error ctx ctx' first second s s' e r sound failed moved actor key granted =
      let (left, others, outcome) = ledger.fails ctx first s e sound failed in
      elim outcome [
        | inl alone ↦ inl (left, others, alone)
        | inr (lost, answered) ↦
            let booked = receipt_after first.transfer lost _ _ answered in
            let (replay, same, (seen, found, unchanged)) =
              granted_again view good between repo' finds' commits' ledger' ctx' second _ s' _ _ _ r
                (ledger.stays ctx first s sound) booked moved actor key granted in
            inr (seen, found, replay, booked ∙ ap some (sym same), unchanged)
      ]

-- ===== src/Postgres/Refines/Others.antt =====
-- What the transactions of others do to the abstract ledger of the PostgreSQL tables.
use Prim.Native.Nat.{ℕ, zero, suc}
use secure_ledger.Prelude.{
  String, ◌≡◌, refl, sym, ap, ◌∙◌, some, List, [], ◌∷◌, ◌++◌, All, arith, eq_iff, string_Eq, Result,
  Done, ok, err, ◌≤◌,
}
use secure_ledger.Store.{TransferResult}
use secure_ledger.Contract.{View, Receipt, Answered, newly, again}
use secure_ledger.Domain.{Transfer}
use secure_ledger.Postgres.{
  Server, Tables, Round, committed, validate_create_account, validate_transfer, create_account_tx,
  apply_transfer_tx,
}
use secure_ledger.Postgres.Retry.{seen}
use secure_ledger.Postgres.Sound.{IsSound}
use secure_ledger.Postgres.Sound.Actions.{
  Action, creates, transfers, relays, validated, act, acts, act-IsSound, IsTyped,
}
use secure_ledger.Postgres.Refines.{view}
use secure_ledger.Postgres.Refines.Paid.{apply_transfer_tx-Answered}
use secure_ledger.Postgres.Refines.Opening.{create_account_tx-Opened}

-- Others turn one state of the tables into another by transactions that commit.
abbrev pub Between : Server → Tables → Tables → Type 0
Between server t t' = (as' : List Action) × All IsTyped as' × (t' ≡ acts server as' t)

-- Tables that one of the four attempts of a method finds, which began with the tables `t`: what the others of
-- its rounds have made of them, and nothing of its own.
abbrev pub Found : (ℕ → Round) → Tables → Tables → Type 0
Found rounds t s = (k : ℕ) × (k ≤ 3) × (s ≡ seen rounds 0 k t)

-- The same of an attempt that the server commits.
abbrev pub FoundCommitted : (ℕ → Round) → Tables → Tables → Type 0
FoundCommitted rounds t s =
    (k : ℕ) × (k ≤ 3) × ((rounds k).attempt ≡ committed) × (s ≡ seen rounds 0 k t)

pub acts-append :
    (server : Server) (xs ys : List Action) (t : Tables)
    → acts server (xs ++ ys) t ≡ acts server ys (acts server xs t)
acts-append server [] ys t = refl
acts-append server (x ∷ xs) ys t = acts-append server xs ys (act server x t)

All-IsTyped-append :
    (xs ys : List Action) → All IsTyped xs → All IsTyped ys → All IsTyped (xs ++ ys)
All-IsTyped-append [] ys h k = k
All-IsTyped-append (x ∷ xs) ys h k = (h.0, All-IsTyped-append xs ys h.1 k)

-- What a round finds when no round before it committed, others have left.
pub seen-Between :
    (server : Server) (rounds : ℕ → Round) (others : ℕ → List Action)
    → ((j : ℕ) → All IsTyped (others j))
    → ((j : ℕ) (s : Tables) → (rounds j).meanwhile s ≡ acts server (others j) s)
    → (i k : ℕ) (t : Tables) → Between server t (seen rounds i k t)
seen-Between server rounds others typed between i zero t = (others i, typed i, between i t)
seen-Between server rounds others typed between i (suc k) t =
    let (as', all, eq) =
      seen-Between server rounds others typed between (suc i) k ((rounds i).meanwhile t) in
    (
      others i ++ as',
      All-IsTyped-append (others i) as' (typed i) all,
      eq ∙ ap (acts server as') (between i t) ∙ sym (acts-append server (others i) as' t),
    )

-- A payment that stands in the ledger before a granted transfer stands there after it.
keeps_receipt :
    (t : Transfer) (r : TransferResult) (v v' : View) (actor key : String) (receipt : Receipt)
    → Answered t r v v'
    → v.paid actor key ≡ some receipt
    → v'.paid actor key ≡ some receipt
keeps_receipt t r v v' actor key receipt (newly n same payable after) known =
    ap (λ (w : View). w.paid actor key) after
    ∙ ground (arith, payable.unpaid, eq_iff actor t.actor_id, eq_iff key t.idempotency_key)
keeps_receipt t r v v' actor key receipt (again y paid intent after) known =
    ap (λ (w : View). w.paid actor key) after ∙ known

module _ (server : Server) (actor key : String) (receipt : Receipt) where
  abbrev IsPaid : Tables → Type 0
  IsPaid t = (view server t).paid actor key ≡ some receipt

  validated-IsPaid :
      {A : Type 0} (d : Done) (t : Tables) (m : Result A × Tables)
      → IsPaid t
      → ((r : A) (t' : Tables) → d ≡ ok tt → m ≡ (ok r, t') → IsPaid t')
      → IsPaid (validated d t m)
  validated-IsPaid (err e) t m known f = known
  validated-IsPaid (ok _) t (ok r, t') known f = f r t' refl refl
  validated-IsPaid (ok _) t (err e, t') known f = known

  act-IsPaid :
      (a : Action) (t : Tables) → IsTyped a → IsSound server t → IsPaid t → IsPaid (act server a t)
  act-IsPaid (creates n input) t typed sound known =
      validated-IsPaid (validate_create_account input) t (create_account_tx server n input t) known
        (λ _ t' v h.
          ap (λ (w : View). w.paid actor key)
            (create_account_tx-Opened server n input t t' sound v typed h).after
          ∙ known)
  act-IsPaid (transfers n input) t typed sound known =
      validated-IsPaid (validate_transfer input) t (apply_transfer_tx server n input t) known
        (λ r t' v h.
          keeps_receipt input.transfer r _ _ actor key receipt
            (apply_transfer_tx-Answered server n input t t' r sound v h) known)
  act-IsPaid (relays change) t typed sound known = known

  pub acts-IsPaid :
      (as' : List Action) (t : Tables)
      → All IsTyped as'
      → IsSound server t
      → IsPaid t
      → IsPaid (acts server as' t)
  acts-IsPaid [] t typed sound known = known
  acts-IsPaid (a ∷ as') t typed sound known =
      acts-IsPaid as' (act server a t) typed.1 (act-IsSound server a t typed.0 sound)
        (act-IsPaid a t typed.0 sound known)

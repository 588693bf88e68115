-- ===== src/Postgres/Listing.antt =====
-- What `ListJournal` of internal/store/postgres/store.go returns.
use Prim.Native.Nat.{min, ◌-◌}
use mathlib.Core.List.{Perm}
use mathlib.Core.List.Perm
use secure_ledger.Prelude.{
  String, ◌≡◌, refl, subst, Bool, false, none, List, [], ◌∷◌, ◌++◌, All, length, drop, length-drop,
  Bool-cases, Option-cases, inl, inr, arith, string_Eq, nat_Eq, ok,
}
use secure_ledger.Prelude.Int.{ℤ, ◌≤ℤ◌}
use secure_ledger.Prelude.Map.{Map, lookup, contains}
use secure_ledger.Prelude.Exec.{◌>>=◌}
use secure_ledger.Domain.{Posting}
use secure_ledger.Memory.{normalise_limit, tail_of}
use secure_ledger.Memory.Listing.{take, take-append-drop}
use secure_ledger.Postgres.{
  Server, Tables, TransactionRow, PostingRow, insert_by, sort_by, latest, posting_earlier,
  join_postings, list_journal,
}
use secure_ledger.Postgres.Reconcile.{posting_count}
use secure_ledger.Postgres.Outbox.Claims.{insert_by-All}
use secure_ledger.Postgres.Sound.{IsSound}

-- Postings in the order of their sequence numbers.
abbrev pub Ascending : List Posting → Type 0
Ascending [] = Unit {0}
Ascending (p ∷ ps) = All (λ (q : Posting). p.sequence ≤ℤ q.sequence) ps × Ascending ps

-- All of some postings before all of others.
abbrev pub Precede : List Posting → List Posting → Type 0
Precede ps qs = All (λ (p : Posting). All (λ (q : Posting). p.sequence ≤ℤ q.sequence) qs) ps

below :
    (p q : Posting) (rs : List Posting)
    → p.sequence ≤ℤ q.sequence
    → All (λ (r : Posting). q.sequence ≤ℤ r.sequence) rs
    → All (λ (r : Posting). p.sequence ≤ℤ r.sequence) rs
below p q [] h a = tt
below p q (r ∷ rs) h a = (omega (arith, h, a.0), below p q rs h a.1)

insert_by-Ascending :
    (p : Posting) (qs : List Posting) → Ascending qs → Ascending (insert_by posting_earlier p qs)
unfolding insert_by
insert_by-Ascending p [] h = (tt, tt)
insert_by-Ascending p (q ∷ qs) h = elim (Bool-cases (posting_earlier q p)) [
  | inl before ↦ rw before (
    insert_by-All (λ (r : Posting). q.sequence ≤ℤ r.sequence) posting_earlier p qs (ground arith)
        h.0,
    insert_by-Ascending p qs h.1,
  )
  | inr after ↦
      let first : p.sequence ≤ℤ q.sequence = ground arith in
      rw after ((first, below p q qs first h.0), h)
]

sort_by-Ascending : (ps : List Posting) → Ascending (sort_by posting_earlier ps)
unfolding sort_by
sort_by-Ascending [] = tt
sort_by-Ascending (p ∷ ps) =
    insert_by-Ascending p (sort_by posting_earlier ps) (sort_by-Ascending ps)

insert_by-perm :
    {A : Type 0} (earlier : A → A → Bool) (x : A) (ys : List A)
    → Perm (insert_by earlier x ys) (x ∷ ys)
unfolding insert_by
insert_by-perm earlier x [] = Perm.refl (x ∷ [])
insert_by-perm earlier x (y ∷ ys) = elim (Bool-cases (earlier y x)) [
  | inl before ↦
      rw before (Perm.trans (Perm.cons y (insert_by-perm earlier x ys)) (Perm.swap x y ys))
  | inr after ↦ rw after (Perm.refl (x ∷ y ∷ ys))
]

sort_by-perm : {A : Type 0} (earlier : A → A → Bool) (xs : List A) → Perm (sort_by earlier xs) xs
unfolding sort_by
sort_by-perm earlier [] = Perm.refl []
sort_by-perm earlier (x ∷ xs) =
    Perm.trans (insert_by-perm earlier x (sort_by earlier xs))
      (Perm.cons x (sort_by-perm earlier xs))

length-insert_by :
    {A : Type 0} (earlier : A → A → Bool) (x : A) (ys : List A)
    → length (insert_by earlier x ys) ≡ length (x ∷ ys)
unfolding insert_by
length-insert_by earlier x [] = refl
length-insert_by earlier x (y ∷ ys) = ground (arith, length-insert_by earlier x ys)

length-sort_by :
    {A : Type 0} (earlier : A → A → Bool) (xs : List A) → length (sort_by earlier xs) ≡ length xs
unfolding sort_by
length-sort_by earlier [] = refl
length-sort_by earlier (x ∷ xs) =
    omega (arith, length-insert_by earlier x (sort_by earlier xs), length-sort_by earlier xs)

All-append_right : (P : Posting → Type 0) (ps qs : List Posting) → All P (ps ++ qs) → All P qs
All-append_right P [] qs h = h
All-append_right P (p ∷ ps) qs h = All-append_right P ps qs h.1

Ascending-append : (ps qs : List Posting) → Ascending (ps ++ qs) → Precede ps qs × Ascending qs
Ascending-append [] qs h = (tt, h)
Ascending-append (p ∷ ps) qs h =
    let (rest, its) = Ascending-append ps qs h.1 in ((All-append_right _ ps qs h.0, rest), its)

-- No posting without its transaction is lost in the join, as there is none.
length-join_postings :
    (rows : Map String TransactionRow) (ps : List PostingRow)
    → ((id : String) → contains id rows ≡ false → posting_count id ps ≡ 0)
    → length (join_postings rows ps) ≡ length ps
unfolding join_postings contains
length-join_postings rows [] h = refl
length-join_postings rows (p ∷ ps) h =
    let rest : ((id : String) → contains id rows ≡ false → posting_count id ps ≡ 0) =
      λ id e. ground (arith, h id e) in
    let tail = length-join_postings rows ps rest in
    elim (Option-cases (lookup p.transaction_id rows)) [
      | inl missing ↦
          ground (arith, string_Eq.beq_iff p.transaction_id p.transaction_id, h p.transaction_id)
      | inr (r, found) ↦ ground (arith, tail)
    ]

-- ListJournal on PostgreSQL, on sound tables, returns postings in the order of their sequence
-- numbers, as many as the normalised limit or all. Every posting is among them or comes before all
-- of them. The tables do not change.
pub list_journal-newest :
    (server : Server) (limit : ℤ) (t : Tables)
    → IsSound server t
    → (items older : List Posting) × (list_journal server none limit t ≡ (ok items, t))
      × Perm (older ++ items) (join_postings t.transactions t.postings)
      × Ascending items
      × Precede older items
      × (length items ≡ min (normalise_limit limit) (length t.postings))
unfolding list_journal latest tail_of ◌>>=◌
list_journal-newest server limit t sound =
    let all = join_postings t.transactions t.postings in
    let sorted = sort_by posting_earlier all in
    let n = length sorted - normalise_limit limit in
    let whole : sorted ≡ take n sorted ++ drop n sorted = take-append-drop n sorted in
    let (older_first, its) =
      Ascending-append (take n sorted) (drop n sorted)
        (subst Ascending whole (sort_by-Ascending all)) in
    (
      drop n sorted,
      take n sorted,
      refl,
      subst (λ ps. Perm ps all) whole (sort_by-perm posting_earlier all),
      its,
      older_first,
      omega (
        arith,
        length-drop {0} n sorted,
        length-sort_by posting_earlier all,
        length-join_postings t.transactions t.postings sound.unposted,
      ),
    )

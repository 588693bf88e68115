-- ===== src/Postgres/Outbox/Orderly.antt =====
-- The rows of the outbox through every operation on them.
use secure_ledger.Prelude.{
  String, count, ◌≡◌, ◌≢◌, refl, sym, ap, subst, ◌∙◌, Bool, true, false, not, Option, none, some,
  List, [], ◌∷◌, All, Bool-cases, Option-cases, inl, inr, arith, eq_iff, ◌==◌, string_Eq, nat_Eq,
  if◌then◌else◌, ◌≤◌, ltb,
}
use secure_ledger.Prelude.Map.{
  Map, lookup, insert, contains, Distinct, lookup-insert, insert-Distinct,
}
use secure_ledger.Domain.{Time}
use secure_ledger.Postgres.{RiskRow}
use secure_ledger.Postgres.Outbox.{is_candidate, claim_row, among, claim_rows}
use secure_ledger.Postgres.Outbox.Claims.{IsFree, among-IsFree, lookup-claim_rows}

abbrev pub is_set : {A : Type 0} → Option A → Bool
is_set none = false
is_set (some a) = true

abbrev pub short : Option String → Bool
short none = true
short (some reason) = not (ltb 500 (count reason))

-- The columns of a row agree with its status: it was tried ten times at most, `pending` is one that never was, a
-- `processing` one is locked, a `published` one has its time, and a reason has at most 500 characters.
pub record IsOrderly (r : RiskRow) : Type 0 where
  pub tried : r.attempts ≤ 10
  pub pending : (r.status == "pending") ≡ (r.attempts == 0)
  pub locked : (r.status == "processing") ≡ is_set r.locked_at
  pub published : (r.status == "published") ≡ is_set r.published_at
  pub reason : short r.last_error ≡ true

pub record IsOutbox (risks : Map String RiskRow) : Type 0 where
  pub one : Distinct risks
  pub keyed : (id : String) (r : RiskRow) → lookup id risks ≡ some r → r.id ≡ id
  pub orderly : (id : String) (r : RiskRow) → lookup id risks ≡ some r → IsOrderly r

-- What an operation keeps: the rows' order, and each published row as it is.
pub record Keeps (risks risks' : Map String RiskRow) : Type 0 where
  pub outbox : IsOutbox risks'
  pub final :
      (id : String) (r : RiskRow)
      → lookup id risks ≡ some r
      → r.status ≡ "published"
      → lookup id risks' ≡ some r

pub keeps_all : (risks : Map String RiskRow) → IsOutbox risks → Keeps risks risks
keeps_all risks h = record { outbox = h; final = λ id r found e. found }

-- One row changes, or a new one comes.
pub keeps_row :
    (risks : Map String RiskRow) (r : RiskRow)
    → IsOutbox risks
    → IsOrderly r
    → ((x : RiskRow) → lookup r.id risks ≡ some x → x.status ≢ "published")
    → Keeps risks (insert r.id r risks)
keeps_row risks r h o f = record {
  outbox = record {
    one = insert-Distinct r.id r risks h.one;
    keyed = λ id x e. ground (arith, lookup-insert id r.id r risks, eq_iff id r.id, h.keyed id x);
    orderly = λ id x e. elim (Bool-cases (id == r.id)) [
      | inl same ↦ subst IsOrderly (ground (arith, lookup-insert id r.id r risks)) o
      | inr other ↦ h.orderly id x (ground (arith, lookup-insert id r.id r risks))
    ];
  };
  final = λ id x found e. elim (Bool-cases (id == r.id)) [
    | inl same ↦ absurd (f x (ap (λ k. lookup k risks) (sym ((eq_iff id r.id).0 same)) ∙ found) e)
    | inr other ↦ ground (arith, lookup-insert id r.id r risks)
  ];
}

-- A published row is no candidate.
candidate_unpublished :
    (at : Time) (r : RiskRow) → is_candidate at r ≡ true → (r.status == "published") ≡ false
unfolding is_candidate
candidate_unpublished at r c = elim (Bool-cases (r.status == "published")) [
  | inl e ↦
      let same = (eq_iff r.status "published").0 e in
      ground (
        arith,
        c,
        ap (λ s. s == "pending") same,
        ap (λ s. s == "failed") same,
        ap (λ s. s == "processing") same,
      )
  | inr e ↦ e
]

claim_row-IsOrderly :
    (at : Time) (r : RiskRow) → is_candidate at r ≡ true → IsOrderly r → IsOrderly (claim_row at r)
unfolding is_candidate
claim_row-IsOrderly at r c o = record {
  tried = ground arith;
  pending = ground arith;
  locked = refl;
  published = sym (candidate_unpublished at r c) ∙ o.published;
  reason = refl;
}

claim_rows-Distinct :
    (at : Time) (chosen : List RiskRow) (risks : Map String RiskRow)
    → Distinct risks
    → Distinct (claim_rows at chosen risks)
unfolding claim_rows contains lookup
claim_rows-Distinct at chosen [] h = tt
claim_rows-Distinct at chosen ((k, r) ∷ risks) h =
    (ground (arith, lookup-claim_rows at chosen k risks), claim_rows-Distinct at chosen risks h.1)

module _ (at : Time) (locked : String → Bool) (chosen : List RiskRow) (risks : Map String RiskRow)
    (h : IsOutbox risks) (free : All (IsFree at locked risks) chosen) where
  abbrev after : Map String RiskRow
  after = claim_rows at chosen risks

  claimed_row :
      (id : String) (r x : RiskRow)
      → lookup id risks ≡ some r
      → (if among id chosen then claim_row at r else r) ≡ x
      → (x.id ≡ id) × IsOrderly x
  claimed_row id r x found e = elim (Bool-cases (among id chosen)) [
    | inl taken ↦
        let c = (among-IsFree at locked risks id r chosen free found taken).candidate in
        let same : claim_row at r ≡ x = sym (ap (λ b. if b then claim_row at r else r) taken) ∙ e in
        subst (λ (y : RiskRow). (y.id ≡ id) × IsOrderly y) same
          (h.keyed id r found, claim_row-IsOrderly at r c (h.orderly id r found))
    | inr left ↦
        let same : r ≡ x = sym (ap (λ b. if b then claim_row at r else r) left) ∙ e in
        subst (λ (y : RiskRow). (y.id ≡ id) × IsOrderly y) same
          (h.keyed id r found, h.orderly id r found)
  ]

  claimed_found : (id : String) (x : RiskRow) → lookup id after ≡ some x → (x.id ≡ id) × IsOrderly x
  claimed_found id x e = elim (Option-cases (lookup id risks)) [
    | inl missing ↦ ground (arith, lookup-claim_rows at chosen id risks)
    | inr (r, found) ↦
        claimed_row id r x found (ground (arith, lookup-claim_rows at chosen id risks))
  ]

  pub claim_rows-Keeps : Keeps risks after
  claim_rows-Keeps = record {
    outbox = record {
      one = claim_rows-Distinct at chosen risks h.one;
      keyed = λ id x e. (claimed_found id x e).0;
      orderly = λ id x e. (claimed_found id x e).1;
    };
    final = λ id r found published. elim (Bool-cases (among id chosen)) [
      | inl taken ↦
          let c = (among-IsFree at locked risks id r chosen free found taken).candidate in
          cc (candidate_unpublished at r c, (eq_iff r.status "published").1 published)
      | inr left ↦ lookup-claim_rows at chosen id risks ∙ rw (found, left) refl
    ];
  }

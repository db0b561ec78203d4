-- ===== src/Invoices/Rows.antt =====
-- A transaction written by its primary key: what is counted and what is found afterwards.
use filazero_local.Base.{
  ℕ, ◌+◌, ◌≤◌, ◌≡◌, Bool, some, List, [], ◌∷◌, ==_iff, ==_refl, bit, arith, find, modify_where,
  count_if, count_if-modify_where, find-holds, find-only, find-In,
}
use filazero_local.Invoices.Tables.{Transaction}
use filazero_local.Invoices.Payment.{has_id, has_reference}

abbrev pub written : Transaction → List Transaction → List Transaction
written row = modify_where (has_id row.id) (λ _. row)

-- Ids are a primary key.
abbrev pub HasKeys : List Transaction → Type 0
HasKeys ts = (id : ℕ) → count_if (has_id id) ts ≤ 1

pub count_if-written :
    (q : Transaction → Bool) (ts : List Transaction) (t row : Transaction)
    → HasKeys ts
    → find (has_id row.id) ts ≡ some t
    → count_if q (written row ts) + bit (q t) ≡ count_if q ts + bit (q row)
count_if-written q ts t row keys e =
    count_if-modify_where (has_id row.id) (λ _. row) q ts t e (keys row.id)

pub find-written :
    (ts : List Transaction) (t row : Transaction)
    → find (has_id row.id) ts ≡ some t
    → find (has_id row.id) (written row ts) ≡ some row
find-written [] t row e = cc
find-written (s ∷ ts) t row e = ground (arith, find-written ts t row, ==_refl row.id)

pub written-HasKeys :
    (ts : List Transaction) (t row : Transaction)
    → HasKeys ts
    → find (has_id row.id) ts ≡ some t
    → HasKeys (written row ts)
written-HasKeys ts t row keys e id =
    let same : row.id ≡ t.id = (==_iff row.id t.id).0 (find-holds (has_id row.id) ts t e) in
    ground (arith, same, count_if-written (has_id id) ts t row keys e, keys id)

-- A transaction found by its reference is the one found by its id.
pub find-has_id :
    (ts : List Transaction) (t : Transaction) (reference : ℕ)
    → HasKeys ts
    → find (has_reference reference) ts ≡ some t
    → find (has_id t.id) ts ≡ some t
find-has_id ts t reference keys e =
    find-only (has_id t.id) ts t (find-In (has_reference reference) ts t e) (==_refl t.id)
      (keys t.id)

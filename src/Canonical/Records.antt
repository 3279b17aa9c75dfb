-- ===== src/Canonical/Records.antt =====
-- `_order_records` and the lists that are ordered in its way. `normalize` stands for `_normalize`, `encode` for
-- `canonical_json_bytes`; Python's sort is stable and so is `select_by`.
pub mod Distinct
pub mod Ordered
use partha.Prelude.{ℕ, Bool, true, List, [], ◌∷◌, ◌++◌, map, if◌then◌else◌}
use partha.Text.{one_of}
use partha.Text.Order.{tuple_le}
use partha.Table.Select.{select_by}
use partha.Canonical.{Checked, ok, err, ◌>>=◌}

module _ {R A : Type 0} (normalize : R → Checked A) (encode : A → Checked (List ℕ)) where
  abbrev pub prepare : R → Checked (A × List ℕ)
  prepare raw = do prepared ← normalize raw; encoded ← encode prepared; ok (prepared, encoded)

  -- The loop, with the set `seen`.
  unfoldable pub distinct : List (List ℕ) → List R → Checked (List (A × List ℕ))
  distinct seen [] = ok []
  distinct seen (raw ∷ records) = do
    item ← prepare raw
    rest ← distinct (if one_of item.1 seen then seen else item.1 ∷ seen) records
    ok (if one_of item.1 seen then rest else item ∷ rest)

abbrev pub record_of : {A : Type 0} → A × List ℕ → A
record_of item = item.0

abbrev pub all_items : {A : Type 0} → A → Bool
all_items item = true

module _ {A : Type 0} (key : A → List (List ℕ)) where
  -- The key of the sort, `(*key(item[0]), item[1])`.
  abbrev pub full_key : A × List ℕ → List (List ℕ)
  full_key item = key item.0 ++ item.1 ∷ []

  abbrev pub item_le : A × List ℕ → A × List ℕ → Bool
  item_le a b = tuple_le (full_key a) (full_key b)

  unfoldable pub order_records :
      {R : Type 0} → (R → Checked A) → (A → Checked (List ℕ)) → List R → Checked (List A)
  unfolding distinct
  order_records normalize encode records = do
    items ← distinct normalize encode [] records
    ok (map record_of (select_by item_le all_items items))

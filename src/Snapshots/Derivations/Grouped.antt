-- ===== src/Snapshots/Derivations/Grouped.antt =====
-- The derivations of a row, in the groups that the validation is given.
use partha.Prelude.{
  ℕ, ◌≡◌, ◌⊎◌, inl, inr, sym, ◌∙◌, none, some, List, [], ◌∷◌, ◌++◌, ◌==◌, ==_iff, ==_refl, IsIn,
  Bool-cases, true, false, ◌↔◌,
}
use partha.Snapshots.Derivations.{RiDerivation, Groups, append_to}

-- The group of a row has the derivation.
abbrev pub GroupHas : Groups → ℕ → RiDerivation → Type 0
GroupHas [] row d = ⊥
GroupHas ((other, ds) ∷ groups) row d = ((other ≡ row) × IsIn d ds) ⊎ GroupHas groups row d

abbrev pub HasRow : Groups → ℕ → Type 0
HasRow [] row = ⊥
HasRow ((other, ds) ∷ groups) row = (other ≡ row) ⊎ HasRow groups row

-- No row has two groups.
abbrev pub DistinctRows : Groups → Type 0
DistinctRows [] = Unit
DistinctRows ((row, ds) ∷ groups) = ¬ HasRow groups row × DistinctRows groups

pub absent_present : {n : ℕ} → none ≡ some n → ⊥
absent_present h = cc

true_apart : true ≡ false → ⊥
true_apart h = cc

IsIn-append :
    (d x : RiDerivation) (ds : List RiDerivation) → IsIn d (ds ++ x ∷ []) ↔ (IsIn d ds ⊎ (x ≡ d))
IsIn-append d x [] = (
  (λ h. elim h [ inl e ↦ inr e | inr n ↦ absurd n ]),
  λ h. elim h [ inl n ↦ absurd n | inr e ↦ inl e ],
)
IsIn-append d x (e ∷ ds) =
    let (only, enough) = IsIn-append d x ds in
    (
      (λ h. elim h [
        | inl same ↦ inl (inl same)
        | inr later ↦ elim (only later) [ inl k ↦ inl (inr k) | inr k ↦ inr k ]
      ]),
      λ h. elim h [
        | inl k ↦ elim k [ inl same ↦ inl same | inr later ↦ inr (enough (inl later)) ]
        | inr k ↦ inr (enough (inr k))
      ],
    )

pub append_to-GroupHas :
    (r : ℕ) (x : RiDerivation) (groups : Groups) (row : ℕ) (d : RiDerivation)
    → GroupHas (append_to r x groups) row d ↔ (GroupHas groups row d ⊎ ((r ≡ row) × (x ≡ d)))
append_to-GroupHas r x [] row d = (
  (λ h. elim h [ inl k ↦ elim k.1 [ inl e ↦ inr (k.0, e) | inr n ↦ absurd n ] | inr n ↦ absurd n ]),
  λ h. elim h [ inl n ↦ absurd n | inr k ↦ inl (k.0, inl k.1) ],
)
append_to-GroupHas r x ((other, ds) ∷ groups) row d = elim (Bool-cases (other == r)) [
  | inl e ↦
      let same : other ≡ r = (==_iff other r).0 e in
      let (only, enough) = IsIn-append d x ds in
      rw e (
        (λ h. elim h [
          | inl k ↦ elim (only k.1) [
            | inl old ↦ inl (inl (k.0, old))
            | inr new ↦ inr (sym same ∙ k.0, new)
          ]
          | inr later ↦ inl (inr later)
        ]),
        λ h. elim h [
          | inl k ↦ elim k [ inl m ↦ inl (m.0, enough (inl m.1)) | inr later ↦ inr later ]
          | inr k ↦ inl (same ∙ k.0, enough (inr k.1))
        ],
      )
  | inr e ↦
      let (only, enough) = append_to-GroupHas r x groups row d in
      rw e (
        (λ h. elim h [
          | inl k ↦ inl (inl k)
          | inr later ↦ elim (only later) [ inl k ↦ inl (inr k) | inr k ↦ inr k ]
        ]),
        λ h. elim h [
          | inl k ↦ elim k [ inl m ↦ inl m | inr later ↦ inr (enough (inl later)) ]
          | inr k ↦ inr (enough (inr k))
        ],
      )
]

pub append_to-HasRow :
    (r : ℕ) (x : RiDerivation) (groups : Groups) (row : ℕ)
    → HasRow (append_to r x groups) row
    → HasRow groups row ⊎ (r ≡ row)
append_to-HasRow r x [] row h = elim h [ inl e ↦ inr e | inr n ↦ absurd n ]
append_to-HasRow r x ((other, ds) ∷ groups) row h = elim (Bool-cases (other == r)) [
  | inl e ↦ inl (rw e at h)
  | inr e ↦
      let k : (other ≡ row) ⊎ HasRow (append_to r x groups) row = rw e at h in
      elim k [
        | inl same ↦ inl (inl same)
        | inr later ↦ elim (append_to-HasRow r x groups row later) [
          | inl m ↦ inl (inr m)
          | inr m ↦ inr m
        ]
      ]
]

pub append_to-DistinctRows :
    (r : ℕ) (x : RiDerivation) (groups : Groups)
    → DistinctRows groups
    → DistinctRows (append_to r x groups)
append_to-DistinctRows r x [] h = ((λ n. absurd n), tt)
append_to-DistinctRows r x ((other, ds) ∷ groups) h = elim (Bool-cases (other == r)) [
  | inl e ↦ rw e h
  | inr e ↦ rw e (
    (λ k. elim (append_to-HasRow r x groups other k) [
      | inl m ↦ h.0 m
      | inr m ↦ absurd (true_apart (sym (rw⁻¹ m (==_refl r)) ∙ e))
    ]),
    append_to-DistinctRows r x groups h.1,
  )
]

-- ===== src/RateLimit/Routes.antt =====
-- The budget of a request, described by its method and its path.
use mathlib.Core.Path.{subst}
use partha.Prelude.{
  ◌↔◌, ◌⊎◌, inl, inr, ℕ, ◌≡◌, refl, sym, ap, Bool, true, false, ◌&&◌, ◌||◌, Option, none, some,
  List, [], ◌∷◌, ◌++◌, Bool-cases, ==_refl,
}
use partha.Prelude.Text.{codes}
use partha.Text.{same_text, one_of, starts_with, ends_with}
use partha.Text.Laws.{same_text_refl, same_text_eq}
use partha.Text.Parts.{starts_with-append}
use partha.RateLimit.{
  classify, BudgetClass, auth, ai, heavy, default, Settings, Request, budget, class_name, is_exempt,
  is_heavy,
}

abbrev pub AnyOf : List ℕ → List (List ℕ) → Type 0
AnyOf s [] = ⊥
AnyOf s (t ∷ ts) = (s ≡ t) ⊎ AnyOf s ts

abbrev pub Starts : List ℕ → List ℕ → Type 0
Starts s t = (rest : List ℕ) × s ≡ t ++ rest

abbrev pub Ends : List ℕ → List ℕ → Type 0
Ends s t = (before : List ℕ) × s ≡ before ++ t

-- Preflights, probes and the pages of the documentation.
abbrev pub IsExempt : Request → Type 0
IsExempt q =
    (q.method ≡ codes "OPTIONS")
    ⊎ (((AnyOf q.path (codes "/health" ∷ codes "/ready" ∷ codes "/metrics" ∷ [])
            ⊎ Starts q.path (codes "/docs"))
          ⊎ Starts q.path (codes "/redoc"))
        ⊎ Starts q.path (codes "/openapi.json"))

-- The public writes.
abbrev pub IsPublicWrite : Request → Type 0
IsPublicWrite q =
    (q.method ≡ codes "POST")
    × AnyOf q.path (codes "/auth/login" ∷ codes "/auth/register" ∷ codes "/waitlist" ∷ [])

abbrev pub IsAi : Request → Type 0
IsAi q = (q.path ≡ codes "/ai") ⊎ Starts q.path (codes "/ai/")

-- Uploads, imports, generated documents, exports and the start of an analysis.
abbrev pub IsHeavy : Request → Type 0
IsHeavy q =
    (q.method ≡ codes "POST")
    × (AnyOf q.path (
          codes "/repositories/upload"
          ∷ codes "/repositories/github"
          ∷ codes "/documentation/generate"
          ∷ codes "/export"
          ∷ [])
        ⊎ (Starts q.path (codes "/analysis/") × Ends q.path (codes "/start")))

-- The name and the limit of the budget that a request is charged against.
pub data HasBudget (s : Settings) (q : Request) : List ℕ → ℕ → Type 0 where
  auth_budget : IsPublicWrite q → HasBudget s q (codes "auth") s.rate_limit_auth_per_minute
  ai_budget : ¬ IsPublicWrite q → IsAi q → HasBudget s q (codes "ai") s.rate_limit_ai_per_minute
  heavy_budget :
      ¬ IsPublicWrite q
      → ¬ IsAi q
      → IsHeavy q
      → HasBudget s q (codes "heavy") s.rate_limit_heavy_per_minute
  default_budget :
      ¬ IsPublicWrite q
      → ¬ IsAi q
      → ¬ IsHeavy q
      → HasBudget s q (codes "default") s.rate_limit_default_per_minute

-- A test decides a predicate.
abbrev Decides : Bool → Type 0 → Type 0
Decides b P = (b ≡ true) ↔ P

false_is_not : false ≡ true → ⊥
false_is_not h = cc

second : (a : Bool) {b : Bool} → b ≡ true → (a || b) ≡ true
second true h = refl
second false h = h

or-Decides : {P Q : Type 0} (a b : Bool) → Decides a P → Decides b Q → Decides (a || b) (P ⊎ Q)
or-Decides true b p q = ((λ e. inl (p.0 refl)), λ e. refl)
or-Decides false b p q =
    ((λ e. inr (q.0 e)), λ s. elim s [ inl x ↦ absurd (false_is_not (p.1 x)) | inr y ↦ q.1 y ])

and-Decides : {P Q : Type 0} (a b : Bool) → Decides a P → Decides b Q → Decides (a && b) (P × Q)
and-Decides true b p q = ((λ e. (p.0 refl, q.0 e)), λ r. q.1 r.1)
and-Decides false b p q = ((λ e. cc), λ r. p.1 r.0)

same_text-Decides : (s t : List ℕ) → Decides (same_text s t) (s ≡ t)
same_text-Decides s t =
    (same_text_eq s t, λ e. subst (λ x. same_text s x ≡ true) e (same_text_refl s))

one_of-Decides : (s : List ℕ) (ts : List (List ℕ)) → Decides (one_of s ts) (AnyOf s ts)
one_of-Decides s [] = ((λ e. cc), λ x. absurd x)
one_of-Decides s (t ∷ ts) =
    or-Decides (same_text s t) (one_of s ts) (same_text-Decides s t) (one_of-Decides s ts)

starts_with_prefix : (t rest : List ℕ) → starts_with (t ++ rest) t ≡ true
starts_with_prefix [] rest = refl
starts_with_prefix (a ∷ t) rest = rw (==_refl a) (starts_with_prefix t rest)

starts_with-Decides : (s t : List ℕ) → Decides (starts_with s t) (Starts s t)
starts_with-Decides s t = (
  starts_with-append s t,
  λ p. let (rest, e) = p in subst (λ x. starts_with x t ≡ true) (sym e) (starts_with_prefix t rest),
)

ends_with_refl : (t : List ℕ) → ends_with t t ≡ true
ends_with_refl [] = refl
ends_with_refl (a ∷ t) = rw (same_text_refl (a ∷ t)) refl

ends_with_suffix : (before t : List ℕ) → ends_with (before ++ t) t ≡ true
ends_with_suffix [] t = ends_with_refl t
ends_with_suffix (a ∷ before) t = second (same_text (a ∷ before ++ t) t) (ends_with_suffix before t)

ends_with-append : (s t : List ℕ) → ends_with s t ≡ true → Ends s t
ends_with-append [] t h = ([], same_text_eq [] t h)
ends_with-append (a ∷ s) t h = elim (Bool-cases (same_text (a ∷ s) t)) [
  | inl e ↦ ([], same_text_eq (a ∷ s) t e)
  | inr e ↦
      let (before, p) = ends_with-append s t (rw e at h) in
      (a ∷ before, ap (λ (x : List ℕ). a ∷ x) p)
]

ends_with-Decides : (s t : List ℕ) → Decides (ends_with s t) (Ends s t)
ends_with-Decides s t = (
  ends_with-append s t,
  λ p. let (before, e) = p in subst (λ x. ends_with x t ≡ true) (sym e) (ends_with_suffix before t),
)

refuted : {P : Type 0} {b : Bool} → Decides b P → b ≡ false → ¬ P
refuted d e p = cc (e, d.1 p)

abbrev probes : List (List ℕ)
probes = codes "/health" ∷ codes "/ready" ∷ codes "/metrics" ∷ []

IsExempt-Decides :
    (q : Request) → Decides (same_text q.method (codes "OPTIONS") || is_exempt q.path) (IsExempt q)
IsExempt-Decides q =
    or-Decides (same_text q.method (codes "OPTIONS")) (is_exempt q.path)
      (same_text-Decides q.method (codes "OPTIONS"))
      (or-Decides _ _
        (or-Decides _ _
          (or-Decides _ _ (one_of-Decides q.path probes)
            (starts_with-Decides q.path (codes "/docs")))
          (starts_with-Decides q.path (codes "/redoc")))
        (starts_with-Decides q.path (codes "/openapi.json")))

abbrev public_paths : List (List ℕ)
public_paths = codes "/auth/login" ∷ codes "/auth/register" ∷ codes "/waitlist" ∷ []

IsPublicWrite-Decides :
    (q : Request)
    → Decides (same_text q.method (codes "POST") && one_of q.path public_paths) (IsPublicWrite q)
IsPublicWrite-Decides q =
    and-Decides (same_text q.method (codes "POST")) (one_of q.path public_paths)
      (same_text-Decides q.method (codes "POST")) (one_of-Decides q.path public_paths)

IsAi-Decides :
    (q : Request)
    → Decides (same_text q.path (codes "/ai") || starts_with q.path (codes "/ai/")) (IsAi q)
IsAi-Decides q =
    or-Decides (same_text q.path (codes "/ai")) (starts_with q.path (codes "/ai/"))
      (same_text-Decides q.path (codes "/ai")) (starts_with-Decides q.path (codes "/ai/"))

abbrev heavy_paths : List (List ℕ)
heavy_paths =
    codes "/repositories/upload"
    ∷ codes "/repositories/github"
    ∷ codes "/documentation/generate"
    ∷ codes "/export"
    ∷ []

IsHeavy-Decides :
    (q : Request) → Decides (same_text q.method (codes "POST") && is_heavy q.path) (IsHeavy q)
IsHeavy-Decides q =
    and-Decides (same_text q.method (codes "POST")) (is_heavy q.path)
      (same_text-Decides q.method (codes "POST"))
      (or-Decides _ _ (one_of-Decides q.path heavy_paths) (
        and-Decides _ _ (starts_with-Decides q.path (codes "/analysis/"))
          (ends_with-Decides q.path (codes "/start"))))

-- Which budget a request of the class has, or that it has none.
pub data Routed (s : Settings) (q : Request) : Option BudgetClass → Type 0 where
  unlimited : IsExempt q → Routed s q none
  limited :
      ¬ IsExempt q
      → (c : BudgetClass) → HasBudget s q (class_name c) (budget s c)
      → Routed s q (some c)

pub classify-Routed : (s : Settings) (q : Request) → Routed s q (classify q.method q.path)
unfolding classify
classify-Routed s q = elim (Bool-cases (same_text q.method (codes "OPTIONS") || is_exempt q.path)) [
  | inl e ↦ rw e (unlimited ((IsExempt-Decides q).0 e))
  | inr e1 ↦
      let open_path = refuted (IsExempt-Decides q) e1 in
      elim (Bool-cases (same_text q.method (codes "POST") && one_of q.path public_paths)) [
        | inl e ↦ rw (e1, e) (limited open_path auth (auth_budget ((IsPublicWrite-Decides q).0 e)))
        | inr e2 ↦
            let other = refuted (IsPublicWrite-Decides q) e2 in
            elim (Bool-cases
              (same_text q.path (codes "/ai") || starts_with q.path (codes "/ai/"))) [
                | inl e ↦
                    rw (e1, e2, e) (limited open_path ai (ai_budget other ((IsAi-Decides q).0 e)))
                | inr e3 ↦
                    let no_ai = refuted (IsAi-Decides q) e3 in
                    elim (Bool-cases (same_text q.method (codes "POST") && is_heavy q.path)) [
                      | inl e ↦
                          rw (e1, e2, e3, e)
                            (limited open_path heavy
                              (heavy_budget other no_ai ((IsHeavy-Decides q).0 e)))
                      | inr e4 ↦
                          rw (e1, e2, e3, e4)
                            (limited open_path default
                              (default_budget other no_ai (refuted (IsHeavy-Decides q) e4)))
                    ]
              ]
      ]
]

-- ===== src/Canonical.antt =====
-- apps/backend/app/intelligence/canonical.py: normal forms, identities and the order of what is
-- hashed. Texts are lists of code points. `unicodedata.normalize`, `str.isalpha`, `json.dumps` of a
-- text and SHA-256 are not part of the repository: `Unicode` has the first two, and the others are
-- arguments where they are used. The messages of exceptions are not modelled.
pub mod Results
pub mod Path
pub mod Key
pub mod Records
pub mod Lists
pub mod Json
use partha.Prelude.{ℕ, Bool, List}

-- `nfc` and `str.isalpha` of one character.
pub record Unicode : Type 0 where
  pub nfc : List ℕ → List ℕ
  pub isalpha : ℕ → Bool

-- The exceptions of canonical.py and of snapshot_store.py, and that of a dictionary.
pub data IntelligenceError : Type 0 where
  canonicalization_error path_escape_error snapshot_seal_error snapshot_state_error
        snapshot_immutable_error key_error :
      IntelligenceError

pub data Checked {ℓ} (A : Type ℓ) : Type ℓ where
  ok : A → Checked A
  err : IntelligenceError → Checked A

infixl 5 ◌>>=◌ ◌>>◌
abbrev pub ◌>>=◌ {ℓ κ} : {A : Type ℓ} {B : Type κ} → Checked A → (A → Checked B) → Checked B
ok a >>= f = f a
err e >>= f = err e

abbrev pub ◌>>◌ {ℓ} : {B : Type ℓ} → Checked (Unit {0}) → Checked B → Checked B
m >> k = m >>= λ _. k

-- ===== src/Canonical/Json.antt =====
-- `_normalize` of any JSON value. The members of an object stand in the order of the mapping. Values of other types, such as
-- bytes, are `unsupported`; the numbers with a fraction are not told apart.
pub mod Stable
use partha.Prelude.{ℕ, Bool, true, false, List, [], ◌∷◌, leb, if◌then◌else◌}
use partha.Text.{one_of}
use partha.Canonical.{Unicode, canonicalization_error, Checked, ok, err, ◌>>=◌}

mutual
  pub data Json : Type 0 where
    null float unsupported : Json
    boolean : Bool → Json
    integer : Bool → ℕ → Json
    string : List ℕ → Json
    array : Items → Json
    object : Members → Json

  pub data Items : Type 0 where
    no_item : Items
    item : Json → Items → Items

  pub data Members : Type 0 where
    no_member : Members
    member : List ℕ → Json → Members → Members

-- `2**53 - 1`; an integer is its sign and its size.
abbrev pub is_exact : ℕ → Bool
is_exact n = leb n 9007199254740991

unfoldable mutual
  pub normalize : Unicode → Json → Checked Json
  normalize u null = ok null
  normalize u float = err canonicalization_error
  normalize u unsupported = err canonicalization_error
  normalize u (boolean b) = ok (boolean b)
  normalize u (integer negative n) =
      if is_exact n then ok (integer negative n) else err canonicalization_error
  normalize u (string s) = ok (string (u.nfc s))
  normalize u (array items) = normalize_items u items >>= λ normalized. ok (array normalized)
  normalize u (object members) =
      normalize_members u [] members >>= λ normalized. ok (object normalized)

  pub normalize_items : Unicode → Items → Checked Items
  normalize_items u no_item = ok no_item
  normalize_items u (item v items) =
      normalize u v >>= λ normalized. normalize_items u items >>= λ rest. ok (item normalized rest)

  -- With the keys that the new dictionary has.
  pub normalize_members : Unicode → List (List ℕ) → Members → Checked Members
  normalize_members u seen no_member = ok no_member
  normalize_members u seen (member key v members) =
      let result : Checked Members = normalize u v >>= λ normalized.
      normalize_members u (u.nfc key ∷ seen) members >>= λ rest.
      ok (member (u.nfc key) normalized rest) in
      if one_of (u.nfc key) seen then err canonicalization_error else result

unfoldable pub normalize_content : Unicode → Json → Checked Json
unfolding normalize
normalize_content u value = normalize u value

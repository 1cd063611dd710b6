-- ===== src/Core/Validate.antt =====
-- Request validation (internal/core/validate.go). The validator package is outside the repository: it
-- is a record of the tests that the struct tags name, with their documented meaning.
use Prim.Native.Char.{code}
use service_jobs.Prelude.{
  ℕ, Bool, true, not, ◌||◌, ◌==◌, leb, ◌&&◌, ◌≡◌, ◌≢◌, ◌↔◌, List, [], ◌∷◌, String, any,
}
use service_jobs.Prelude.Int.{ℤ, pos, ◌<ℤ◌}
use service_jobs.Errors.{GoError, sentinel, join, invalid_request}

pub record Validator : Type 0 where
  -- `required` on a string, and on a UUID
  pub required_text : String → Bool
  pub required_id : ℕ → Bool
  -- `gt=0` and `gte=0`
  pub gt_zero : ℤ → Bool
  pub gte_zero : ℤ → Bool
  -- the validator's own error
  pub failure : GoError
  pub required_text_iff : (s : String) → (required_text s ≡ true) ↔ (s ≢ "")
  pub required_id_iff : (n : ℕ) → (required_id n ≡ true) ↔ (n ≢ 0)
  pub gt_zero_iff : (n : ℤ) → (gt_zero n ≡ true) ↔ (pos 0 <ℤ n)
  pub gte_zero_iff : (n : ℤ) → (gte_zero n ≡ true) ↔ ¬ (n <ℤ pos 0)

-- The code points of a text.
abbrev pub codes : String → List ℕ
codes String.[] = []
codes (String.◌∷◌ c s) = code c ∷ codes s

-- `unicode.IsSpace`.
abbrev pub is_space : ℕ → Bool
is_space c =
    (leb 9 c && leb c 13)
    || c == 0x20
    || c == 0x85
    || c == 0xa0
    || c == 0x1680
    || (leb 0x2000 c && leb c 0x200a)
    || c == 0x2028
    || c == 0x2029
    || c == 0x202f
    || c == 0x205f
    || c == 0x3000

-- `strings.TrimSpace(s) != ""`: some character is no white space.
unfoldable pub validate_not_blank : String → Bool
validate_not_blank s = any (λ c. not (is_space c)) (codes s)

-- `errors.Join(err, ErrInvalidRequest)`.
abbrev pub invalid : Validator → GoError
invalid v = join v.failure (sentinel invalid_request)

-- ===== src/Peering/Names.antt =====
-- `sanitize_name` of src/dn42ctl/services/core.py. The two patterns of `re.sub` are functions on
-- characters; `str.strip` without an argument is the library's.
pub mod Sanitized
use Prim.Native.Nat.{compare, Ordering}
use Prim.Native.Char.{Char, char, code, nul}
use dn42_utils.Base.{
  ℕ, String, Bool, true, false, not, ◌&&◌, ◌||◌, ◌≡◌, refl, if◌then◌else◌, leb, nat_eq, ◌+◌,
}
use dn42_utils.Base.Text.{truthy}
use dn42_utils.Validators.{TextLibrary, Checked, valid, invalid}

abbrev between : ℕ → ℕ → ℕ → Bool
between low high n = leb low n && leb n high

abbrev pub is_upper : Char → Bool
is_upper c = between 65 90 (code c)

abbrev pub is_underscore : Char → Bool
is_underscore c = nat_eq (code c) 95

-- `[a-zA-Z0-9_]`
abbrev pub is_word : Char → Bool
is_word c = between 97 122 (code c) || is_upper c || between 48 57 (code c) || is_underscore c

-- `re.sub(r"[^a-zA-Z0-9_]+", "_", text)`; the flag says whether the text before ends in such a run.
unfoldable pub replace_runs : Bool → String → String
replace_runs in_run String.[] = ""
replace_runs in_run (String.◌∷◌ c s) = elim (is_word c) [
  | true ↦ String.◌∷◌ c (replace_runs false s)
  | false ↦ elim in_run [
    | true ↦ replace_runs true s
    | false ↦ String.◌∷◌ "_" (replace_runs true s)
  ]
]

-- `re.sub(r"_+", "_", text)`: the first character of a run stays.
unfoldable pub collapse : Bool → String → String
collapse in_run String.[] = ""
collapse in_run (String.◌∷◌ c s) = elim (is_underscore c) [
  | false ↦ String.◌∷◌ c (collapse false s)
  | true ↦ elim in_run [ true ↦ collapse true s | false ↦ String.◌∷◌ c (collapse true s) ]
]

-- `text.strip("_")`, from the left and from the right
unfoldable pub strip_left : String → String
strip_left String.[] = ""
strip_left (String.◌∷◌ c s) =
    let rest = strip_left s in if is_underscore c then rest else String.◌∷◌ c s

abbrev pub is_nil : String → Bool
is_nil String.[] = true
is_nil (String.◌∷◌ c s) = false

unfoldable pub strip_right : String → String
strip_right String.[] = ""
strip_right (String.◌∷◌ c s) =
    let rest = strip_right s in if is_underscore c && is_nil rest then "" else String.◌∷◌ c rest

abbrev pub char_or_nul : (n : ℕ) (o : Ordering) → compare n 55296 ≡ o → Char
char_or_nul n Ordering.lt e = char n (rw e tt)
char_or_nul n Ordering.eq e = nul
char_or_nul n Ordering.gt e = nul

abbrev pub lower_char : Char → Char
lower_char c =
    if is_upper c then char_or_nul (code c + 32) (compare (code c + 32) 55296) refl else c

-- `text.lower()`, for the letters that are left
unfoldable pub lower : String → String
lower String.[] = ""
lower (String.◌∷◌ c s) = String.◌∷◌ (lower_char c) (lower s)

-- The checked name, or the message of a `Dn42CtlError`.
unfoldable pub sanitize_name : TextLibrary → String → Checked String
unfolding replace_runs collapse strip_left strip_right lower
sanitize_name lib name =
    let cleaned = strip_right (strip_left (collapse false (replace_runs false (lib.strip name)))) in
    if not (truthy cleaned) then invalid "名称不能为空" else valid (lower cleaned)

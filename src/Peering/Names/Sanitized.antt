-- ===== src/Peering/Names/Sanitized.antt =====
-- What a sanitised name is, and that it is sanitised to itself.
use Prim.Native.Nat.{compare, Ordering}
use Prim.Native.Char.{Char, code}
use dn42_utils.Base.{
  ℕ, String, Bool, true, false, not, ◌&&◌, ◌≡◌, ◌<◌, ◌+◌, refl, ap, arith, if◌then◌else◌, inl, inr,
  Bool-cases, ◌==◌, eq_iff,
}
use dn42_utils.Base.Text.{truthy}
use dn42_utils.Validators.{TextLibrary, Checked, valid, invalid}
use dn42_utils.Peering.Names.{
  is_upper, is_underscore, is_word, replace_runs, collapse, strip_left, strip_right, is_nil,
  char_or_nul, lower_char, lower, sanitize_name,
}

abbrev pub all_word : String → Bool
all_word String.[] = true
all_word (String.◌∷◌ c s) = is_word c && all_word s

-- No two underscores side by side, after a text whose end is as the flag says.
abbrev spaced : Bool → String → Bool
spaced after_sep String.[] = true
spaced after_sep (String.◌∷◌ c s) =
    is_word c && (if is_underscore c then not after_sep && spaced true s else spaced false s)

-- And no underscore at the end.
abbrev ended : Bool → String → Bool
ended after_sep String.[] = not after_sep
ended after_sep (String.◌∷◌ c s) =
    is_word c && (if is_underscore c then not after_sep && ended true s else ended false s)

-- And no upper-case letter.
abbrev pub clean : Bool → String → Bool
clean after_sep String.[] = not after_sep
clean after_sep (String.◌∷◌ c s) =
    (is_word c && not (is_upper c))
    && (if is_underscore c then not after_sep && clean true s else clean false s)

-- A name that is not empty, of small letters, digits and single underscores inside.
abbrev pub IsClean : String → Type 0
IsClean s = clean true s ≡ true

replace_runs-word : (b : Bool) (s : String) → all_word (replace_runs b s) ≡ true
unfolding replace_runs
replace_runs-word b String.[] = refl
replace_runs-word b (String.◌∷◌ c s) =
    ground (arith, replace_runs-word false s, replace_runs-word true s)

collapse-spaced : (b : Bool) (s : String) → all_word s ≡ true → spaced b (collapse b s) ≡ true
unfolding collapse
collapse-spaced b String.[] h = refl
collapse-spaced b (String.◌∷◌ c s) h =
    ground (arith, collapse-spaced false s, collapse-spaced true s)

strip_left-spaced : (b : Bool) (s : String) → spaced b s ≡ true → spaced true (strip_left s) ≡ true
unfolding strip_left
strip_left-spaced b String.[] h = refl
strip_left-spaced b (String.◌∷◌ c s) h = ground (arith, strip_left-spaced true s)

strip_right-ended :
    (b : Bool) (s : String)
    → spaced b s ≡ true
    → is_nil (strip_right s) ≡ false
    → ended b (strip_right s) ≡ true
unfolding strip_right
strip_right-ended b String.[] h k = cc
strip_right-ended b (String.◌∷◌ c s) h k =
    ground (arith, strip_right-ended true s, strip_right-ended false s, ended-nil (strip_right s))
  where
    ended-nil : (t : String) → is_nil t ≡ true → ended false t ≡ true
    ended-nil String.[] e = refl
    ended-nil (String.◌∷◌ c s) e = cc

code-char_or_nul :
    (n : ℕ) (o : Ordering) (e : compare n 55296 ≡ o) → n < 55296 → code (char_or_nul n o e) ≡ n
code-char_or_nul n Ordering.lt e h = refl
code-char_or_nul n Ordering.eq e h = ground arith
code-char_or_nul n Ordering.gt e h = ground arith

code-lower_char : (c : Char) → is_upper c ≡ true → code (lower_char c) ≡ code c + 32
code-lower_char c up = rw up (code-char_or_nul (code c + 32) _ refl (ground arith))

lower_char_other : (c : Char) → is_upper c ≡ false → lower_char c ≡ c
lower_char_other c h = rw h refl

lower_char-word :
    (c : Char)
    → is_word c ≡ true
    → ((is_word (lower_char c) && not (is_upper (lower_char c))) ≡ true)
      × (is_underscore (lower_char c) ≡ is_underscore c)
lower_char-word c h = elim (Bool-cases (is_upper c)) [
  | inl up ↦ rw (code-lower_char c up) (ground arith)
  | inr other ↦ rw (lower_char_other c other) (ground arith)
]

lower-clean : (b : Bool) (s : String) → ended b s ≡ true → clean b (lower s) ≡ true
unfolding lower
lower-clean b String.[] h = h
lower-clean b (String.◌∷◌ c s) h =
    ground (arith, lower_char-word c, lower-clean true s, lower-clean false s)

is_nil-truthy : (s : String) → truthy s ≡ true → is_nil s ≡ false
is_nil-truthy String.[] h = ground (arith, eq_iff "" "")
is_nil-truthy (String.◌∷◌ c s) h = refl

-- A clean text passes each step unchanged.
replace_runs-id : (a b : Bool) (s : String) → clean b s ≡ true → replace_runs a s ≡ s
unfolding replace_runs
replace_runs-id a b String.[] h = refl
replace_runs-id a b (String.◌∷◌ c s) h =
    ground (arith, replace_runs-id false true s, replace_runs-id false false s)

collapse-id : (b : Bool) (s : String) → clean b s ≡ true → collapse b s ≡ s
unfolding collapse
collapse-id b String.[] h = refl
collapse-id b (String.◌∷◌ c s) h = ground (arith, collapse-id true s, collapse-id false s)

strip_left-id : (s : String) → IsClean s → strip_left s ≡ s
unfolding strip_left
strip_left-id String.[] h = refl
strip_left-id (String.◌∷◌ c s) h = ground arith

strip_right-id : (b : Bool) (s : String) → clean b s ≡ true → strip_right s ≡ s
unfolding strip_right
strip_right-id b String.[] h = refl
strip_right-id b (String.◌∷◌ c s) h =
    ground (arith, strip_right-id true s, strip_right-id false s, nil-clean s)
  where
    nil-clean : (t : String) → is_nil t ≡ true → clean true t ≡ false
    nil-clean String.[] e = refl
    nil-clean (String.◌∷◌ d t) e = cc

lower-id : (b : Bool) (s : String) → clean b s ≡ true → lower s ≡ s
unfolding lower
lower-id b String.[] h = refl
lower-id b (String.◌∷◌ c s) h =
    ground (arith, lower_char_other c, lower-id true s, lower-id false s)

clean-truthy : (s : String) → IsClean s → truthy s ≡ true
clean-truthy String.[] h = cc
clean-truthy (String.◌∷◌ c s) h = elim (Bool-cases (String.◌∷◌ c s == "")) [
  | inl nil ↦ let n : false ≡ true = ap is_nil ((eq_iff (String.◌∷◌ c s) "").0 nil) in cc
  | inr other ↦ rw other
]

abbrev text_or : String → Checked String → String
text_or default (valid s) = s
text_or default (invalid e) = default

sanitize_name-IsClean :
    (lib : TextLibrary) (name result : String)
    → sanitize_name lib name ≡ valid result
    → IsClean result
unfolding sanitize_name
sanitize_name-IsClean lib name result h =
    let t = replace_runs false (lib.strip name) in
    let u = strip_left (collapse false t) in
    let kept =
      strip_left-spaced false (collapse false t)
        (collapse-spaced false t (replace_runs-word false (lib.strip name))) in
    elim (Bool-cases (truthy (strip_right u))) [
      | inl there ↦
          let same : lower (strip_right u) ≡ result = ap (text_or "") (rw there at h) in
          rw (← same) (
            lower-clean true (strip_right u)
              (strip_right-ended true u kept (is_nil-truthy (strip_right u) there)))
      | inr gone ↦ let n : invalid "名称不能为空" ≡ valid result = rw gone at h in ground arith
    ]

clean-weaken : (s : String) → clean true s ≡ true → clean false s ≡ true
clean-weaken String.[] h = refl
clean-weaken (String.◌∷◌ c s) h = ground arith

sanitize_name-clean :
    (lib : TextLibrary) (name : String)
    → IsClean name
    → lib.strip name ≡ name
    → sanitize_name lib name ≡ valid name
unfolding sanitize_name
sanitize_name-clean lib name h plain = rw (
  plain,
  replace_runs-id false true name h,
  collapse-id false name (clean-weaken name h),
  strip_left-id name h,
  strip_right-id true name h,
  clean-truthy name h,
  lower-id true name h,
)

-- A sanitised name is not empty and has small letters, digits and single underscores inside, and
-- it is sanitised to itself, when `strip` leaves such names alone: a peer is found again under its
-- name.
pub sanitize_name_idem :
    (lib : TextLibrary) (name result : String)
    → ((s : String) → IsClean s → lib.strip s ≡ s)
    → sanitize_name lib name ≡ valid result
    → IsClean result × (sanitize_name lib result ≡ valid result)
sanitize_name_idem lib name result plain h =
    let is_clean = sanitize_name-IsClean lib name result h in
    (is_clean, sanitize_name-clean lib result is_clean (plain result is_clean))

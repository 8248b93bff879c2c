-- ===== src/Checks/PointerLaws.antt =====
-- JSON Pointers that are printed from reference tokens lead where the tokens lead.
use Prim.Native.Char.{Char, code}
use text.Mathlib.TextEquality.{Char-path}
use mathlib.Core.Path.{ap₂, fun_ext}
use text.Mathlib.TextLemmas.{cons≢nil}
use artifact_proof_lab.Base.{
  ℕ, subst, ◌↔◌, String, ◌≡◌, refl, ap, sym, ◌∙◌, some, true, false, List, [], ◌∷◌, ◌++◌,
  append-nil, map, any, All, eqb_iff, Bool-cases, inl, inr, ◌==◌, eq_iff, if◌then◌else◌,
}
use artifact_proof_lab.Base.Text.{chars, of_chars, is_char, chars-of_chars}
use artifact_proof_lab.Base.Outcome.{Result, ok, ok-injective, >>=-eq-ok, ◌>>=◌}
use artifact_proof_lab.Json.{Json, str}
use artifact_proof_lab.Platform.{Platform}
use artifact_proof_lab.Paths.Split.{slash, split, join, join_chars, split-join}
use artifact_proof_lab.Manifest.Pointer.{valid_escapes}
use artifact_proof_lab.Manifest.Check.{parse_pointer, leading_slash}
use artifact_proof_lab.Checks.PointerSteps.{Leads, arrived, onward, descend_iff}
use artifact_proof_lab.Checks.Pointer.{replace, unescape, descend, follow, resolve_json_pointer}

abbrev tilde : Char
tilde = "~"

-- A reference token as RFC 6901 spells it: "~" as "~0" and "/" as "~1".
pub escape : List Char → List Char
escape [] = []
escape (c ∷ cs) =
    let rest = escape cs in
    if is_char b'~' c
    then tilde ∷ "0" ∷ rest
    else if is_char b'/' c
    then tilde ∷ "1" ∷ rest
    else c ∷ rest

-- Only "~" is escaped.
half : List Char → List Char
half [] = []
half (c ∷ cs) = let rest = half cs in if is_char b'~' c then tilde ∷ "0" ∷ rest else c ∷ rest

replace_plain :
    (digit : ℕ) (by c : Char) (cs : List Char)
    → is_char b'~' c ≡ false
    → replace digit by (c ∷ cs) ≡ c ∷ replace digit by cs
unfolding replace
replace_plain digit by c [] h = refl
replace_plain digit by c (d ∷ cs) h = rw h

replace_miss :
    (cs : List Char) → replace b'1' "/" (tilde ∷ "0" ∷ cs) ≡ tilde ∷ "0" ∷ replace b'1' "/" cs
unfolding replace
replace_miss cs = ap (◌∷◌ tilde) (replace_plain b'1' "/" "0" cs refl)

replace-escape : (cs : List Char) → replace b'1' "/" (escape cs) ≡ half cs
unfolding escape half
replace-escape [] = unfold replace in refl
replace-escape (c ∷ cs) = elim (Bool-cases (is_char b'~' c)) [
  | inl t ↦ rw t (replace_miss (escape cs) ∙ ap (λ r. tilde ∷ "0" ∷ r) (replace-escape cs))
  | inr other ↦ elim (Bool-cases (is_char b'/' c)) [
    | inl s ↦ rw (other, s) (slash_back (escape cs) (half cs) c s (replace-escape cs))
    | inr plain ↦
        rw (other, plain)
          (replace_plain b'1' "/" c (escape cs) other ∙ ap (◌∷◌ c) (replace-escape cs))
  ]
]
  where
    slash_back :
        (es hs : List Char) (c : Char)
        → is_char b'/' c ≡ true
        → replace b'1' "/" es ≡ hs
        → replace b'1' "/" (tilde ∷ "1" ∷ es) ≡ c ∷ hs
    slash_back es hs c s e = unfold replace in cc (e, Char-path c "/" ((eqb_iff (code c) b'/').0 s))

replace-half : (cs : List Char) → replace b'0' "~" (half cs) ≡ cs
unfolding half
replace-half [] = unfold replace in refl
replace-half (c ∷ cs) = elim (Bool-cases (is_char b'~' c)) [
  | inl t ↦ rw t (tilde_back (half cs) c t (replace-half cs))
  | inr other ↦ rw other (replace_plain b'0' "~" c (half cs) other ∙ ap (◌∷◌ c) (replace-half cs))
]
  where
    tilde_back :
        (hs : List Char) (c : Char)
        → is_char b'~' c ≡ true
        → replace b'0' "~" hs ≡ cs
        → replace b'0' "~" (tilde ∷ "0" ∷ hs) ≡ c ∷ cs
    tilde_back hs c t e = unfold replace in cc (e, Char-path c "~" ((eqb_iff (code c) b'~').0 t))

pub unescape-escape : (cs : List Char) → unescape (escape cs) ≡ cs
unfolding unescape
unescape-escape cs = rw replace-escape (replace-half cs)

escape-no_slash : (cs : List Char) → any (is_char b'/') (escape cs) ≡ false
unfolding escape
escape-no_slash [] = refl
escape-no_slash (c ∷ cs) = elim (Bool-cases (is_char b'~' c)) [
  | inl t ↦ rw t (escape-no_slash cs)
  | inr other ↦ elim (Bool-cases (is_char b'/' c)) [
    | inl s ↦ rw (other, s) (escape-no_slash cs)
    | inr plain ↦ rw (other, plain) (rw plain (escape-no_slash cs))
  ]
]

-- A pointer printed from reference tokens: a slash before each.
print_chars : List (List Char) → List Char
print_chars [] = []
print_chars (t ∷ ts) = slash ∷ (escape t ++ print_chars ts)

pub print_pointer : List (List Char) → String
print_pointer ts = of_chars (print_chars ts)

join-escaped :
    (t : List Char) (ts : List (List Char))
    → join_chars (escape t ∷ map escape ts) ≡ escape t ++ print_chars ts
unfolding join_chars print_chars
join-escaped t [] = sym (append-nil (escape t))
join-escaped t (u ∷ us) = ap (λ r. escape t ++ (slash ∷ r)) (join-escaped u us)

parts : List (List Char) → List String
parts [] = []
parts (t ∷ ts) = of_chars (escape t) ∷ parts ts

chars-parts : (ts : List (List Char)) → map chars (parts ts) ≡ map escape ts
unfolding parts
chars-parts [] = refl
chars-parts (t ∷ ts) = cc (chars-of_chars (escape t), chars-parts ts)

print-join : (ts : List (List Char)) → print_pointer ts ≡ join ("" ∷ parts ts)
unfolding print_pointer print_chars join join_chars parts
print-join [] = refl
print-join (t ∷ ts) =
    ap (λ r. of_chars (slash ∷ r))
      (sym
        (ap join_chars (ap₂ ◌∷◌ (chars-of_chars (escape t)) (chars-parts ts)) ∙ join-escaped t ts))

parts-no_slash :
    (ts : List (List Char)) → All (λ q. any (is_char b'/') (chars q) ≡ false) (parts ts)
unfolding parts
parts-no_slash [] = tt
parts-no_slash (t ∷ ts) = (rw chars-of_chars (escape-no_slash t), parts-no_slash ts)

split-print : (ts : List (List Char)) → split (print_pointer ts) ≡ "" ∷ parts ts
split-print ts = ap split (print-join ts) ∙ split-join "" (parts ts) (refl, parts-no_slash ts)

module _ {N : Type 0} (platform : Platform) where
  -- The loop on the reference tokens themselves.
  walk : Json N → List (List Char) → Result (Json N)
  walk document [] = ok document
  walk document (t ∷ ts) = do next ← descend platform document t; walk next ts

  follow-parts :
      (ts : List (List Char)) (document : Json N)
      → follow platform document (parts ts) ≡ walk document ts
  unfolding follow walk parts
  follow-parts [] document = refl
  follow-parts (t ∷ ts) document =
      ap (λ u. descend platform document u >>= λ next. follow platform next (parts ts)) (token t)
      ∙ ap (λ k. descend platform document t >>= k) (fun_ext (follow-parts ts))
    where
      token : (t : List Char) → unescape (chars (of_chars (escape t))) ≡ t
      token t = ap unescape (chars-of_chars (escape t)) ∙ unescape-escape t

module _ {N : Type 0} (platform : Platform) where
  walk-Leads :
      (document : Json N) (ts : List (List Char)) (v : Json N)
      → walk platform document ts ≡ ok v
      → Leads platform document ts v
  unfolding walk
  walk-Leads document [] v h = subst (λ w. Leads platform document [] w) (ok-injective h) arrived
  walk-Leads document (t ∷ ts) v h =
      let (next, step, more) = >>=-eq-ok (descend platform document t) _ h in
      onward ((descend_iff platform document t next).0 step) (walk-Leads next ts v more)

  Leads-walk :
      (document : Json N) (ts : List (List Char)) (v : Json N)
      → Leads platform document ts v
      → walk platform document ts ≡ ok v
  unfolding walk ◌>>=◌
  Leads-walk document [] v arrived = refl
  Leads-walk document (t ∷ ts) v (onward {v = next} step more) =
      rw ((descend_iff platform document t next).1 step) (Leads-walk next ts v more)

print_pointer-filled :
    (t : List Char) (ts : List (List Char)) → (print_pointer (t ∷ ts) == "") ≡ false
unfolding print_pointer print_chars
print_pointer-filled t ts = elim (Bool-cases (print_pointer (t ∷ ts) == "")) [
  | inl empty ↦ absurd (cons≢nil ((eq_iff (print_pointer (t ∷ ts)) "").0 empty))
  | inr filled ↦ filled
]

valid_plain :
    (c : Char) (cs : List Char) → is_char b'~' c ≡ false → valid_escapes (c ∷ cs) ≡ valid_escapes cs
unfolding valid_escapes
valid_plain c [] h = rw h
valid_plain c (d ∷ cs) h = rw h

valid_escape : (t cs : List Char) → valid_escapes (escape t ++ cs) ≡ valid_escapes cs
unfolding escape
valid_escape [] cs = refl
valid_escape (c ∷ t) cs = elim (Bool-cases (is_char b'~' c)) [
  | inl tilde_char ↦ rw tilde_char (unfold valid_escapes in refl) ∙ valid_escape t cs
  | inr other ↦ elim (Bool-cases (is_char b'/' c)) [
    | inl slash_char ↦ rw (other, slash_char) (unfold valid_escapes in refl) ∙ valid_escape t cs
    | inr plain ↦ rw (other, plain) (valid_plain c (escape t ++ cs) other ∙ valid_escape t cs)
  ]
]

valid-print : (ts : List (List Char)) → valid_escapes (print_chars ts) ≡ true
unfolding print_chars
valid-print [] = unfold valid_escapes in refl
valid-print (t ∷ ts) = valid_plain slash _ refl ∙ valid_escape t (print_chars ts) ∙ valid-print ts

valid-print_pointer : (ts : List (List Char)) → valid_escapes (chars (print_pointer ts)) ≡ true
unfolding print_pointer
valid-print_pointer ts = ap valid_escapes (chars-of_chars (print_chars ts)) ∙ valid-print ts

leads : (ts : List (List Char)) → leading_slash (print_pointer ts) ≡ true
unfolding print_pointer print_chars
leads [] = refl
leads (t ∷ ts) = refl

accepted :
    (ts : List (List Char)) → parse_pointer (some (str (print_pointer ts))) ≡ ok (print_pointer ts)
unfolding parse_pointer ◌>>=◌
accepted ts = rw (leads ts, valid-print_pointer ts)

resolved :
    {N : Type 0} (platform : Platform) (document : Json N) (ts : List (List Char))
    → resolve_json_pointer platform document (print_pointer ts) ≡ walk platform document ts
unfolding resolve_json_pointer
resolved platform document [] = unfold print_pointer print_chars walk in refl
resolved platform document (t ∷ ts) =
    rw (print_pointer-filled t ts, split-print (t ∷ ts)) (follow-parts platform (t ∷ ts) document)

-- The parser of the manifest accepts the pointer that spells any list of reference tokens, with
-- "~" and "/" escaped, and in any document the pointer resolves to a value exactly when the tokens
-- lead to that value: in an object to the member of the token's name, and in an array to the
-- element with as many elements before it as the token, a decimal numeral without leading zeros,
-- says.
pub resolve-print_pointer :
    {N : Type 0} (platform : Platform) (document : Json N) (ts : List (List Char)) (v : Json N)
    → (parse_pointer (some (str (print_pointer ts))) ≡ ok (print_pointer ts))
      × ((resolve_json_pointer platform document (print_pointer ts) ≡ ok v)
          ↔ Leads platform document ts v)
resolve-print_pointer platform document ts v =
    let same = resolved platform document ts in
    (
      accepted ts,
      (
        λ h. walk-Leads platform document ts v (sym same ∙ h),
        λ leads_there. same ∙ Leads-walk platform document ts v leads_there,
      ),
    )

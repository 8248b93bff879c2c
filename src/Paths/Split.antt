-- ===== src/Paths/Split.antt =====
-- `str.split("/")` and `"/".join`, and that each undoes the other.
use Prim.Native.Char.{Char, code}
use text.Mathlib.TextEquality.{Char-path}
use artifact_proof_lab.Base.{
  String, ◌≡◌, refl, ap, ◌∙◌, true, false, List, [], ◌∷◌, ◌++◌, map, any, All, if◌then◌else◌,
  Bool-cases, inl, inr, eqb_iff, or_false, subst,
}
use artifact_proof_lab.Base.Text.{chars, of_chars, is_char, of_chars-chars, chars-of_chars}

abbrev pub slash : Char
slash = "/"

abbrev pub push : Char → List (List Char) → List (List Char)
push c [] = (c ∷ []) ∷ []
push c (p ∷ ps) = (c ∷ p) ∷ ps

unfoldable pub split_chars : List Char → List (List Char)
split_chars [] = [] ∷ []
split_chars (c ∷ cs) =
    let rest = split_chars cs in if is_char b'/' c then [] ∷ rest else push c rest

unfoldable pub split : String → List String
unfolding split_chars
split raw = map of_chars (split_chars (chars raw))

unfoldable pub join_chars : List (List Char) → List Char
join_chars [] = []
join_chars (p ∷ []) = p
join_chars (p ∷ q ∷ ps) = p ++ (slash ∷ join_chars (q ∷ ps))

unfoldable pub join : List String → String
unfolding join_chars
join parts = of_chars (join_chars (map chars parts))

abbrev NoSlash : List Char → Type 0
NoSlash cs = any (is_char b'/') cs ≡ false

-- `push` always leaves at least one part, and so does `split_chars`.
split_chars-cons :
    (cs : List Char) → (p : List Char) × (ps : List (List Char)) × (split_chars cs ≡ p ∷ ps)
unfolding split_chars
split_chars-cons [] = ([], [], refl)
split_chars-cons (c ∷ cs) =
    let (p, ps, e) = split_chars-cons cs in
    elim (Bool-cases (is_char b'/' c)) [
      | inl yes_slash ↦ ([], split_chars cs, rw yes_slash)
      | inr no_slash ↦ (c ∷ p, ps, rw (no_slash, e))
    ]

is_slash : (c : Char) → is_char b'/' c ≡ true → c ≡ slash
is_slash c h = Char-path c slash ((eqb_iff (code c) b'/').0 h)

join-push :
    (c : Char) (p : List Char) (ps : List (List Char))
    → join_chars (push c (p ∷ ps)) ≡ c ∷ join_chars (p ∷ ps)
unfolding join_chars
join-push c p [] = refl
join-push c p (q ∷ ps) = refl

join_chars-split : (cs : List Char) → join_chars (split_chars cs) ≡ cs
unfolding split_chars join_chars
join_chars-split [] = refl
join_chars-split (c ∷ cs) =
    let (p, ps, e) = split_chars-cons cs in
    let ih : join_chars (p ∷ ps) ≡ cs = rw e at (join_chars-split cs) in
    elim (Bool-cases (is_char b'/' c)) [
      | inl yes_slash ↦ rw (yes_slash, e) (cc (ih, is_slash c yes_slash))
      | inr no_slash ↦ rw (no_slash, e) (join-push c p ps ∙ ap (◌∷◌ c) ih)
    ]

split_chars-part : (p : List Char) → NoSlash p → split_chars p ≡ p ∷ []
unfolding split_chars
split_chars-part [] h = refl
split_chars-part (c ∷ p) h =
    let (now, later) = or_false (is_char b'/' c) (any (is_char b'/') p) h in
    rw (now, split_chars-part p later)

split_chars-append :
    (p cs : List Char) → NoSlash p → split_chars (p ++ slash ∷ cs) ≡ p ∷ split_chars cs
unfolding split_chars
split_chars-append [] cs h = refl
split_chars-append (c ∷ p) cs h =
    let (now, later) = or_false (is_char b'/' c) (any (is_char b'/') p) h in
    rw (now, split_chars-append p cs later)

split_chars-join :
    (p : List Char) (ps : List (List Char))
    → All NoSlash (p ∷ ps)
    → split_chars (join_chars (p ∷ ps)) ≡ p ∷ ps
unfolding join_chars
split_chars-join p [] h = split_chars-part p h.0
split_chars-join p (q ∷ ps) h =
    split_chars-append p (join_chars (q ∷ ps)) h.0 ∙ ap (◌∷◌ p) (split_chars-join q ps h.1)

map-chars-of_chars : (ps : List (List Char)) → map chars (map of_chars ps) ≡ ps
map-chars-of_chars [] = refl
map-chars-of_chars (p ∷ ps) = cc (chars-of_chars p, map-chars-of_chars ps)

map-of_chars-chars : (ps : List String) → map of_chars (map chars ps) ≡ ps
map-of_chars-chars [] = refl
map-of_chars-chars (p ∷ ps) = cc (of_chars-chars p, map-of_chars-chars ps)

pub join-split : (raw : String) → join (split raw) ≡ raw
unfolding join split
join-split raw =
    rw map-chars-of_chars
      (ap of_chars (unfold join_chars in join_chars-split (chars raw)) ∙ of_chars-chars raw)

NoSlash-map : (ps : List String) → All (λ p. NoSlash (chars p)) ps → All NoSlash (map chars ps)
NoSlash-map [] h = tt
NoSlash-map (p ∷ ps) h = (h.0, NoSlash-map ps h.1)

pub split-join :
    (p : String) (ps : List String)
    → All (λ q. any (is_char b'/') (chars q) ≡ false) (p ∷ ps)
    → split (join (p ∷ ps)) ≡ p ∷ ps
unfolding join split
split-join p ps h = rw chars-of_chars (
    ap (map of_chars) (split_chars-join (chars p) (map chars ps) (NoSlash-map (p ∷ ps) h))
    ∙ map-of_chars-chars (p ∷ ps))

-- No part of a split holds a slash.
split_chars-NoSlash : (cs : List Char) → All NoSlash (split_chars cs)
unfolding split_chars
split_chars-NoSlash [] = (refl, tt)
split_chars-NoSlash (c ∷ cs) =
    let (p, ps, e) = split_chars-cons cs in
    let ih : All NoSlash (p ∷ ps) = subst (All NoSlash) e (split_chars-NoSlash cs) in
    elim (Bool-cases (is_char b'/' c)) [
      | inl yes_slash ↦ rw yes_slash (refl, split_chars-NoSlash cs)
      | inr no_slash ↦ rw (no_slash, e) (rw no_slash ih.0, ih.1)
    ]

NoSlash-of_chars :
    (ps : List (List Char)) → All NoSlash ps → All (λ q. NoSlash (chars q)) (map of_chars ps)
NoSlash-of_chars [] h = tt
NoSlash-of_chars (p ∷ ps) h = (rw chars-of_chars h.0, NoSlash-of_chars ps h.1)

pub split-NoSlash : (raw : String) → All (λ q. any (is_char b'/') (chars q) ≡ false) (split raw)
unfolding split
split-NoSlash raw = NoSlash-of_chars _ (split_chars-NoSlash (chars raw))

pub split-cons : (raw : String) → (p : String) × (ps : List String) × (split raw ≡ p ∷ ps)
unfolding split
split-cons raw =
    let (p, ps, e) = split_chars-cons (chars raw) in (of_chars p, map of_chars ps, rw e)

-- ===== src/StringProc/Split/Rejoin.antt =====
-- `parseInputString` cuts a text into its parts: no part holds the separator, and the parts with
-- the separator between them are the text.
use Prim.Native.Char.{Char}
use Prim.Native.String.{count}
use text.Mathlib.TextEquality.{Char-path}
use text.Mathlib.TextLemmas.{nil-append, cons-append, length-append, length-eq-zero_iff}
use mathlib.Core.List.{append_assoc as list_assoc}
use web_socket_ds.Base.{
  ◌≡◌, refl, ap, ◌∙◌, ◌≢◌, ℕ, zero, suc, ◌<◌, String, ◌<>◌, Bool, true, false, List, [], ◌∷◌, ◌++◌,
  none, some, arith, if◌then◌else◌, strip_prefix, All, All-append, Option-cases, Bool-cases, eq_iff,
  same_char, inl, inr,
}
use web_socket_ds.StringProc.Split.Find.{find_split}
use web_socket_ds.StringProc.Split.{Cut, parse_loop, cut_start, parse_end, parse_input_string}

same_char-eq : (c d : Char) → same_char c d ≡ true → c ≡ d
same_char-eq c d h = Char-path c d (ground arith)

strip_prefix-append : (d s r : String) → strip_prefix d s ≡ some r → s ≡ d <> r
unfolding strip_prefix
strip_prefix-append String.[] s r h = rw nil-append (ground arith)
strip_prefix-append (String.◌∷◌ c d) String.[] r h = cc
strip_prefix-append (String.◌∷◌ c d) (String.◌∷◌ e s) r h =
    rw cons-append (ground (arith, same_char-eq c e, strip_prefix-append d s r))

pub find_split-append : (d s t r : String) → find_split d s ≡ some (t, r) → s ≡ t <> d <> r
unfolding find_split
find_split-append d String.[] t r h = ground (arith, eq_iff d "", nil-append r, nil-append (d <> r))
find_split-append d (String.◌∷◌ c s) t r h = elim (Option-cases (strip_prefix d (String.◌∷◌ c s))) [
  | inl no_prefix ↦ elim (Option-cases (find_split d s)) [
    | inl never ↦ ground arith
    | inr ((t', r'), later) ↦
        ground (arith, find_split-append d s t' r' later, cons-append c t' (d <> r'))
  ]
  | inr (rest, prefix) ↦
      ground (arith, strip_prefix-append d (String.◌∷◌ c s) rest prefix, nil-append (d <> rest))
]

-- Every round shortens the text.
find_split-shorter : (d s t r : String) → d ≢ "" → find_split d s ≡ some (t, r) → count r < count s
find_split-shorter d s t r nonempty h =
    let positive : count d ≢ 0 = λ e. nonempty (length-eq-zero_iff.0 e) in
    omega
      (arith, ap count (find_split-append d s t r h), length-append t (d <> r), length-append d r)

-- The loop ends because no separator is left.
pub parse_loop_ends :
    (fuel : ℕ) (d : String) (c : Cut)
    → d ≢ ""
    → count c.rest < fuel
    → find_split d (parse_loop fuel d c).rest ≡ none
unfolding parse_loop
parse_loop_ends zero d c nonempty h = elim h [ ]
parse_loop_ends (suc fuel) d c nonempty h = elim (Option-cases (find_split d c.rest)) [
  | inl done ↦ rw (done, parse_loop) done
  | inr ((t, r), more) ↦
      rw (more, parse_loop)
        (parse_loop_ends fuel d _ nonempty
          (omega (arith, find_split-shorter d c.rest t r nonempty more)))
]

strip_prefix-append_right :
    (d s w r : String) → strip_prefix d s ≡ some r → strip_prefix d (s <> w) ≡ some (r <> w)
unfolding strip_prefix
strip_prefix-append_right String.[] s w r h = ground arith
strip_prefix-append_right (String.◌∷◌ c d) String.[] w r h = cc
strip_prefix-append_right (String.◌∷◌ c d) (String.◌∷◌ e s) w r h =
    rw cons-append (ground (arith, strip_prefix-append_right d s w r))

-- The text before the first separator holds none.
token_IsClean : (d s t r : String) → d ≢ "" → find_split d s ≡ some (t, r) → find_split d t ≡ none
unfolding find_split
token_IsClean d String.[] t r nonempty h = ground (arith, eq_iff d "")
token_IsClean d (String.◌∷◌ c s) t r nonempty h =
    elim (Option-cases (strip_prefix d (String.◌∷◌ c s))) [
      | inl no_prefix ↦ elim (Option-cases (find_split d s)) [
        | inl never ↦ ground arith
        | inr ((t', r'), later) ↦
            let whole : String.◌∷◌ c s ≡ String.◌∷◌ c t' <> d <> r' =
              rw cons-append (ap (String.◌∷◌ c) (find_split-append d s t' r' later)) in
            elim (Option-cases (strip_prefix d (String.◌∷◌ c t'))) [
              | inl clean ↦ ground (arith, token_IsClean d s t' r' nonempty later)
              | inr (x, found) ↦
                  let clash = strip_prefix-append_right d (String.◌∷◌ c t') (d <> r') x found in
                  absurd (cc (whole, no_prefix, clash))
            ]
      ]
      | inr (rest, prefix) ↦
          let at_start : "" ≡ t = ground arith in rw (← at_start) (ground (arith, eq_iff d ""))
    ]

-- The parts with the separator between them.
pub join : String → List String → String
join d [] = ""
join d (x ∷ []) = x
join d (x ∷ y ∷ ys) = x <> d <> join d (y ∷ ys)

join_last :
    (d : String) (xs : List String) (t r : String)
    → join d (xs ++ t ∷ r ∷ []) ≡ join d (xs ++ (t <> d <> r) ∷ [])
unfolding join
join_last d [] t r = refl
join_last d (x ∷ []) t r = refl
join_last d (x ∷ y ∷ xs) t r = rw (join_last d (y ∷ xs) t r)

-- The parts of the whole text in the midst of the loop.
parts : Cut → List String
parts c = if c.firstiter then c.rest ∷ [] else c.name_attr ∷ (c.parsed ++ c.rest ∷ [])

abbrev IsClean : String → String → Type 0
IsClean d s = find_split d s ≡ none

abbrev EarlierClean : String → Cut → Type 0
EarlierClean d c = (c.firstiter ≡ false → IsClean d c.name_attr) × All (IsClean d) c.parsed

join-parts_step :
    (d : String) (c : Cut) (t r : String)
    → (c.firstiter ≡ true → c.parsed ≡ [])
    → c.rest ≡ t <> d <> r
    → join d (
        parts (record {
          rest = r;
          firstiter = false;
          name_attr = if c.firstiter then t else c.name_attr;
          parsed = if c.firstiter then c.parsed else c.parsed ++ t ∷ [];
        }))
      ≡ join d (parts c)
unfolding parts join
join-parts_step d c t r start e = elim (Bool-cases c.firstiter) [
  | inl first ↦ rw (first, start first, e)
  | inr later ↦
      rw (later, list_assoc c.parsed (t ∷ []) (r ∷ []), e)
        (join_last d (c.name_attr ∷ c.parsed) t r)
]

join-parts :
    (fuel : ℕ) (d : String) (c : Cut)
    → (c.firstiter ≡ true → c.parsed ≡ [])
    → join d (parts (parse_loop fuel d c)) ≡ join d (parts c)
unfolding parse_loop
join-parts zero d c start = refl
join-parts (suc fuel) d c start = elim (Option-cases (find_split d c.rest)) [
  | inl done ↦ rw (done, parse_loop)
  | inr ((t, r), more) ↦
      rw (more, parse_loop)
        (join-parts fuel d _ (λ e. cc)
          ∙ join-parts_step d c t r start (find_split-append d c.rest t r more))
]

earlier_clean :
    (fuel : ℕ) (d : String) (c : Cut)
    → d ≢ ""
    → EarlierClean d c
    → EarlierClean d (parse_loop fuel d c)
unfolding parse_loop
earlier_clean zero d c nonempty h = h
earlier_clean (suc fuel) d c nonempty h = elim (Option-cases (find_split d c.rest)) [
  | inl done ↦ rw (done, parse_loop) h
  | inr ((t, r), more) ↦
      let clean = token_IsClean d c.rest t r nonempty more in
      rw (more, parse_loop)
        (earlier_clean fuel d _ nonempty (elim (Bool-cases c.firstiter) [
          | inl first ↦ rw first (λ _. clean, h.1)
          | inr later ↦
              rw later (λ _. h.0 later, All-append (IsClean d) c.parsed (t ∷ []) h.1 (clean, tt))
        ]))
]

start_join : (d inp : String) → join d (parts (cut_start inp)) ≡ inp
unfolding parts join cut_start
start_join d inp = refl

parse_input_string_lem :
    (inp d : String) (b : Bool)
    → parse_input_string inp d b ≡ parse_end inp b (parse_loop (suc (count inp)) d (cut_start inp))
unfolding parse_input_string
parse_input_string_lem inp d b = refl

module _ (inp d : String) (c : Cut) where
  parse_end-join :
      join d (parts c) ≡ inp
      → EarlierClean d c
      → IsClean d c.rest
      → (join d (parse_end inp true c).1 ≡ inp) × All (IsClean d) (parse_end inp true c).1
  unfolding parse_end parts join
  parse_end-join e h clean = elim (Bool-cases c.firstiter) [
    | inl first ↦
        let whole : c.rest ≡ inp = ground arith in rw first (refl, (rw whole at clean, tt))
    | inr later ↦
        rw later (
          rw later at e,
          (h.0 later, All-append (IsClean d) c.parsed (c.rest ∷ []) h.1 (clean, tt)),
        )
  ]

  parse_end_name :
      join d (parts c) ≡ inp
      → ((parse_end inp true c).0 ≡ (parse_end inp false c).0)
        × ((parse_end inp true c).1 ≡ (parse_end inp true c).0 ∷ (parse_end inp false c).1)
  unfolding parse_end parts join
  parse_end_name e = ground arith

loop_start :
    (inp d : String) → join d (parts (parse_loop (suc (count inp)) d (cut_start inp))) ≡ inp
unfolding cut_start
loop_start inp d = join-parts (suc (count inp)) d (cut_start inp) (λ _. refl) ∙ start_join d inp

-- `parseInputString` with every part: the parts with the separator between them are the text, and
-- none of them holds the separator, if the separator is not empty.
pub parse_input_string-join :
    (inp d : String)
    → d ≢ ""
    → (join d (parse_input_string inp d true).1 ≡ inp)
      × All (λ p. find_split d p ≡ none) (parse_input_string inp d true).1
unfolding cut_start
parse_input_string-join inp d nonempty = rw (parse_input_string_lem inp d true) (
    parse_end-join inp d _ (loop_start inp d)
      (earlier_clean (suc (count inp)) d (cut_start inp) nonempty (λ e. cc, tt))
      (parse_loop_ends (suc (count inp)) d (cut_start inp) nonempty (omega arith)))

-- Without `isAllParts` the same call leaves the name out of the list, and in both cases it leaves
-- the first part in the text.
pub parse_input_string_name :
    (inp d : String)
    → ((parse_input_string inp d true).0 ≡ (parse_input_string inp d false).0)
      × ((parse_input_string inp d true).1
          ≡ (parse_input_string inp d true).0 ∷ (parse_input_string inp d false).1)
parse_input_string_name inp d =
    rw (parse_input_string_lem inp d true, parse_input_string_lem inp d false)
      (parse_end_name inp d _ (loop_start inp d))

-- ===== src/StringProc/Split/Query.antt =====
-- src/wstangoproc_common/StringProc.cpp, `parseOfGetQuery`: the query that is written from a list of
-- names and values gives them back.
use Prim.Native.Char.{Char, code}
use text.Mathlib.TextLemmas.{nil-append, cons-append, append_assoc, append-nil, cons-ne-nil}
use web_socket_ds.Base.{
  ◌≡◌, refl, ap, ◌∙◌, String, ◌<>◌, Bool, true, false, not, ◌&&◌, List, [], ◌∷◌, arith,
  if◌then◌else◌, is_some, eq_iff, same_char, is_empty, nonempty, Bool-cases, inl, inr, map,
}
use web_socket_ds.Base.Dict.{
  Dict, lookup, insert_new, string_eq, lookup-insert_new_first, beq_self, nat_eq,
}
use web_socket_ds.StringProc.Split.{split_from, split, query_from, insert_pair, parse_of_get_query}

unfoldable pub lacks : Char → String → Bool
lacks d String.[] = true
lacks d (String.◌∷◌ c s) = not (same_char c d) && lacks d s

-- A name and a value that a query can carry as they are.
unfoldable pub is_plain : String × String → Bool
is_plain (k, v) = lacks "&" k && lacks "&" v && lacks "=" k && lacks "=" v && nonempty v

unfoldable pub all_plain : Dict String String → Bool
all_plain [] = true
all_plain (p ∷ ps) = is_plain p && all_plain ps

abbrev pair_text : String × String → String
pair_text (k, v) = k <> String.◌∷◌ "=" v

unfoldable pub query_of : Dict String String → String
query_of [] = ""
query_of (p ∷ []) = pair_text p
query_of (p ∷ q ∷ ps) = pair_text p <> String.◌∷◌ "&" (query_of (q ∷ ps))

shift : (cur p : String) (c : Char) → (cur <> String.◌∷◌ c "") <> p ≡ cur <> String.◌∷◌ c p
shift cur p c =
    append_assoc cur (String.◌∷◌ c "") p
    ∙ ap (λ (t : String). cur <> t) (cons-append c "" p ∙ ap (String.◌∷◌ c) (nil-append p))

at_separator :
    (d : Char) (cur next rest : String) (b : Bool)
    → b ≡ true
    → (let parts = split_from d (if b then "" else next) rest in if b then cur ∷ parts else parts)
      ≡ cur ∷ split_from d "" rest
at_separator d cur next rest b h = rw h refl

at_other :
    (d : Char) (cur next rest : String) (b : Bool)
    → b ≡ false
    → (let parts = split_from d (if b then "" else next) rest in if b then cur ∷ parts else parts)
      ≡ split_from d next rest
at_other d cur next rest b h = rw h refl

lacks_cons :
    (d c : Char) (s : String)
    → lacks d (String.◌∷◌ c s) ≡ true
    → (same_char c d ≡ false) × (lacks d s ≡ true)
unfolding lacks
lacks_cons d c s clean = ground arith

split_part :
    (d : Char) (cur p rest : String)
    → lacks d p ≡ true
    → split_from d cur (p <> String.◌∷◌ d rest) ≡ (cur <> p) ∷ split_from d "" rest
unfolding lacks split_from
split_part d cur String.[] rest clean =
    rw (nil-append (String.◌∷◌ d rest), append-nil cur)
      (at_separator d cur (cur <> String.◌∷◌ d "") rest (same_char d d) (beq_self (code d)))
split_part d cur (String.◌∷◌ c p) rest clean =
    let (other, clean') = lacks_cons d c p clean in
    rw (cons-append c p (String.◌∷◌ d rest), ← shift cur p c)
      (at_other d cur (cur <> String.◌∷◌ c "") (p <> String.◌∷◌ d rest) (same_char c d) other
        ∙ split_part d (cur <> String.◌∷◌ c "") p rest clean')

split_last :
    (d : Char) (cur p : String)
    → lacks d p ≡ true
    → split_from d cur p ≡ (if is_empty (cur <> p) then [] else (cur <> p) ∷ [])
unfolding lacks split_from
split_last d cur String.[] clean = rw (append-nil cur) refl
split_last d cur (String.◌∷◌ c p) clean =
    let (other, clean') = lacks_cons d c p clean in
    rw (← shift cur p c) (
      at_other d cur (cur <> String.◌∷◌ c "") p (same_char c d) other
      ∙ split_last d (cur <> String.◌∷◌ c "") p clean')

split-plain :
    (k v : String)
    → lacks "=" k ≡ true
    → lacks "=" v ≡ true
    → nonempty v ≡ true
    → split "=" (pair_text (k, v)) ≡ k ∷ v ∷ []
unfolding split
split-plain k v clean_k clean_v some_v =
    ground
      (arith, split_part "=" "" k v, split_last "=" "" v, nil-append k, nil-append v, eq_iff v "")

lacks-append : (d : Char) (s t : String) → lacks d (s <> t) ≡ (lacks d s && lacks d t)
unfolding lacks
lacks-append d String.[] t = rw (nil-append t) (ground arith)
lacks-append d (String.◌∷◌ c s) t = rw (cons-append c s t) (ground (arith, lacks-append d s t))

pair_text-lacks :
    (k v : String) → lacks "&" k ≡ true → lacks "&" v ≡ true → lacks "&" (pair_text (k, v)) ≡ true
unfolding lacks
pair_text-lacks k v clean_k clean_v = ground (arith, lacks-append "&" k (String.◌∷◌ "=" v))

record Plain (k v : String) : Type 0 where
  key_amp : lacks "&" k ≡ true
  value_amp : lacks "&" v ≡ true
  key_eq : lacks "=" k ≡ true
  value_eq : lacks "=" v ≡ true
  some_value : nonempty v ≡ true

parts-Plain :
    (k v : String) (ps : Dict String String)
    → all_plain ((k, v) ∷ ps) ≡ true
    → Plain k v × (all_plain ps ≡ true)
unfolding all_plain is_plain
parts-Plain k v ps plain = (
  record {
    key_amp = ground arith;
    value_amp = ground arith;
    key_eq = ground arith;
    value_eq = ground arith;
    some_value = ground arith;
  },
  ground arith,
)

inserted :
    (k v : String) (out : Dict String String)
    → split "=" (pair_text (k, v)) ≡ k ∷ v ∷ []
    → insert_pair (split "=" (pair_text (k, v))) out ≡ insert_new k v out
inserted k v out parts = ap (λ (l : List String). insert_pair l out) parts

lookup-query_from :
    (name : String) (ps out : Dict String String)
    → all_plain ps ≡ true
    → lookup name (query_from out (map pair_text ps))
      ≡ (if is_some (lookup name out) then lookup name out else lookup name ps)
unfolding query_from lookup
lookup-query_from name [] out plain = ground arith
lookup-query_from name ((k, v) ∷ ps) out plain =
    let (first, later) = parts-Plain k v ps plain in
    ap (λ (o : Dict String String). lookup name (query_from o (map pair_text ps)))
      (inserted k v out (split-plain k v first.key_eq first.value_eq first.some_value))
    ∙ ground (
      arith,
      lookup-query_from name ps (insert_new k v out) later,
      lookup-insert_new_first k name v out,
    )

cons_nonempty : (c : Char) (s : String) → is_empty (String.◌∷◌ c s) ≡ false
cons_nonempty c s = elim (Bool-cases (is_empty (String.◌∷◌ c s))) [
  | inl e ↦ absurd (cons-ne-nil c s ((eq_iff (String.◌∷◌ c s) "").0 e))
  | inr h ↦ h
]

pair_nonempty : (k v : String) → is_empty (pair_text (k, v)) ≡ false
pair_nonempty String.[] v = rw (nil-append (String.◌∷◌ "=" v)) (cons_nonempty "=" v)
pair_nonempty (String.◌∷◌ c k) v =
    rw (cons-append c k (String.◌∷◌ "=" v)) (cons_nonempty c (k <> String.◌∷◌ "=" v))

split-query_of :
    (ps : Dict String String) → all_plain ps ≡ true → split "&" (query_of ps) ≡ map pair_text ps
unfolding split query_of split_from
split-query_of [] plain = refl
split-query_of ((k, v) ∷ []) plain =
    let (first, later) = parts-Plain k v [] plain in
    ground (
      arith,
      split_last "&" "" (pair_text (k, v)),
      pair_text-lacks k v first.key_amp first.value_amp,
      nil-append (pair_text (k, v)),
      pair_nonempty k v,
    )
split-query_of ((k, v) ∷ q ∷ ps) plain =
    let (first, later) = parts-Plain k v (q ∷ ps) plain in
    split_part "&" "" (pair_text (k, v)) (query_of (q ∷ ps))
      (pair_text-lacks k v first.key_amp first.value_amp)
    ∙ rw (nil-append (pair_text (k, v)))
        (ap (λ (l : List String). pair_text (k, v) ∷ l) (split-query_of (q ∷ ps) later))

-- A query of names and values without "&" and "=", no value empty, is read back: every name has
-- the first value that the query gives it.
pub lookup-parse_of_get_query :
    (name : String) (ps : Dict String String)
    → all_plain ps ≡ true
    → lookup name (parse_of_get_query (query_of ps)) ≡ lookup name ps
unfolding parse_of_get_query lookup
lookup-parse_of_get_query name ps plain =
    rw (split-query_of ps plain) (lookup-query_from name ps [] plain)
